-- ===== src/Tests/Rates.antt =====
-- Funding, the exchange rate and the average of the mid at concrete inputs.
use fructus.Base.{ℕ, ◌≤◌, ◌≡◌, refl, replicate, List, [], ◌∷◌, some, arith}
use fructus.Int.{pos, negsuc, neg, abs}
use fructus.Exchange.{ExchangeRate, read}
use fructus.Exchange.RoundTrip.{encode, read-encode}
use fructus.Orderbook.{Observation}
use fructus.Orderbook.Twap.{find_slot, twap}
use fructus.Orderbook.Twap.Steady.{twap-Steady, twap-OnGrid}
use fructus.Funding.{SideFlow, premium, funding_rate, funding_payment}
use fructus.Funding.Rate.{funding_rate_bounds, funding_rate-neg, funding_payment_opposite}

-- A mark 2% above the index at full speed hits a cap of 1%; a long then pays 10 on 1_000.
capped : funding_rate (premium 70_000 50_000) 1_000_000 10_000 ≡ pos 10_000
unfolding funding_rate premium
capped = refl

long_pays : funding_payment 1_000 (pos 10_000) 1 SideFlow.long ≡ negsuc 9
unfolding funding_payment
long_pays = refl

funding_rate_bounds_example : abs (funding_rate (negsuc 19_999) 1_000_000 10_000) ≤ 10_000
funding_rate_bounds_example = funding_rate_bounds (negsuc 19_999) 1_000_000 10_000

funding_rate-neg_example :
    funding_rate (neg (pos 20_000)) 500_000 10_000 ≡ neg (funding_rate (pos 20_000) 500_000 10_000)
funding_rate-neg_example = funding_rate-neg (pos 20_000) 500_000 10_000 (omega arith) (omega arith)

funding_payment_opposite_example :
    funding_payment 1_000 (pos 10_000) 3 SideFlow.long
    ≡ neg (funding_payment 1_000 (pos 10_000) 3 SideFlow.short)
funding_payment_opposite_example =
    funding_payment_opposite 1_000 (pos 10_000) 3 (omega arith) (omega arith) (omega arith)

abbrev zeros : List ℕ
zeros = replicate 257 0

abbrev rate : ExchangeRate
rate = record { total_lamports = 1_050_000_000; pool_token_supply = 1_000_000_000 }

read-encode_example : read (encode zeros rate (7 ∷ 7 ∷ [])) ≡ some rate
read-encode_example =
    read-encode zeros (7 ∷ 7 ∷ []) rate refl (omega arith) (omega arith) (omega arith)

-- A mid of 50 since slot 100; the window begins between two samples and ends behind the last.
abbrev steady : List Observation
steady =
    record { slot = 120; cumulative_mid = 1_000 } ∷ record { slot = 100; cumulative_mid = 0 } ∷ []

twap-Steady_example : twap steady 15 125 ≡ some 50
twap-Steady_example =
    twap-Steady 50 5_000 0 200 steady 15 110 1 0 (record { slot = 100; cumulative_mid = 0 })
      (record { slot = 120; cumulative_mid = 1_000 })
      ((refl, omega arith), ((refl, omega arith), tt)) refl refl (omega arith) (omega arith)
      (omega arith) (omega arith) (omega arith) (omega arith) (omega arith)

twap-OnGrid_example : twap steady 20 120 ≡ some 50
unfolding find_slot
twap-OnGrid_example =
    twap-OnGrid 50 5_000 0 steady 20 100 (record { slot = 100; cumulative_mid = 0 })
      (record { slot = 120; cumulative_mid = 1_000 }) (refl, (refl, tt)) refl refl (omega arith)
      (omega arith)
