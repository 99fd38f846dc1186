-- ===== src/Tests/Access.antt =====
-- Who may do what: the oracle, the vault and a ledger at concrete accounts.
use fructus.Base.{
  ℕ, ◌≡◌, refl, ◌↔◌, ◌<◌, Bool, true, false, none, some, List, [], ◌∷◌, arith, replicate, ◌++◌,
}
use fructus.Errors.{ok}
use fructus.State.{YieldOracle, UserCollateral, update_message}
use fructus.Ed25519.{Instruction, verify_publisher_signature}
use fructus.Ed25519.Signed.{Signed, verify_publisher_signature_iff}
use fructus.Handlers.Oracle.{Verifier}
use fructus.Handlers.Vault.{Custody}
use fructus.Handlers.Genesis.{VaultCalls, initialize_collateral_vault}
use fructus.Handlers.Accounts.{Account, Framework}
use fructus.Handlers.Accounts.Users.{WithdrawCollateral}
use fructus.Handlers.Accounts.Ownership.{
  run_withdraw_collateral, Separates, withdraw_collateral_owner,
}
use fructus.Handlers.Accounts.Oracles.{
  OracleCall, updating, publishing, widening, call_oracle, run_oracle, Advances, Configured,
  run_oracle-Advances, run_oracle-Configured, updating_once,
}
use fructus.Tests.Fixtures.{value_of, market, transfer}

-- The first byte of the third seed, which is the user.
abbrev third : List (List ℕ) → ℕ
third [] = 0
third (a ∷ []) = 0
third (a ∷ b ∷ []) = 0
third (a ∷ b ∷ [] ∷ ts) = 0
third (a ∷ b ∷ (u ∷ us) ∷ ts) = u

abbrev framework : Framework
framework = record {
  runtime = record { find_program_address = λ seeds. (third seeds, 255); as_ref = λ key. key ∷ [] };
  create_program_address = λ seeds. some 7;
  associated_token_address = λ user mint. 30;
}

framework-Separates : Separates framework.runtime
framework-Separates = record {
  ledgers = λ market_key u v h. h;
  positions = λ market_key u v side side' h. h;
}

abbrev account_at : ℕ → Bool → Account
account_at key signs = record {
  key = key;
  is_signer = signs;
  is_writable = true;
  data_is_empty = false;
}

abbrev ledger : UserCollateral
ledger = record { deposited = 1000; reserved = 40; claimable = 0; bump = 255 }

abbrev withdrawing : WithdrawCollateral
withdrawing = record {
  user = account_at 12 true;
  market = record { info = account_at 7 false; value = market };
  user_collateral = record { info = account_at 12 false; value = ledger };
  vault = account_at 0 false;
  user_ata = account_at 30 false;
  collateral_mint = account_at 6 false;
}

abbrev paid : Custody
paid =
    value_of (run_withdraw_collateral framework transfer withdrawing 100 5000 300)
      (record { vault = 0; user_ata = 0; ledger = none; market = market })

paid-ok : run_withdraw_collateral framework transfer withdrawing 100 5000 300 ≡ ok paid
unfolding run_withdraw_collateral fructus.Handlers.Accounts.Users.admits_withdraw_collateral
    fructus.Handlers.Vault.withdraw_collateral fructus.Settlement.claim_payout
    fructus.Collateral.withdraw fructus.Collateral.free_collateral
paid-ok = refl

withdraw_collateral_owner_example :
    (withdrawing.user.is_signer ≡ true) × (withdrawing.user.key ≡ 12)
withdraw_collateral_owner_example =
    withdraw_collateral_owner framework transfer withdrawing 100 5000 300 12 framework-Separates
      refl paid-ok

-- A hash that is the identity, and keys of 32 bytes.
abbrev verifier : Verifier
verifier = record {
  sha256 = λ bytes. bytes;
  ed25519_program = 77;
  to_bytes = λ key. key ∷ replicate 31 0;
}

abbrev oracle : YieldOracle
oracle = record {
  apy = 40_000;
  version = 2;
  last_update_slot = 5;
  publisher = 9;
  authority = 3;
  stale_after_slots = 100;
  bump = 255;
}

-- The key 9 and the message of an oracle at 7, inline at 16 and 48.
abbrev signature_of : ℕ → ℕ → Instruction
signature_of apy version = record {
  program_id = 77;
  bytes =
      1
        ∷ 0
        ∷ 0
        ∷ 0
        ∷ 255
        ∷ 255
        ∷ 16
        ∷ 0
        ∷ 255
        ∷ 255
        ∷ 48
        ∷ 0
        ∷ 67
        ∷ 0
        ∷ 255
        ∷ 255
        ∷ verifier.to_bytes 9
      ++ update_message verifier.sha256 (verifier.to_bytes 7) apy version;
}

abbrev oracle_account : Account
oracle_account = account_at 7 false

abbrev updated : YieldOracle
updated = record oracle { apy = 50_000; version = 3; last_update_slot = 20 }

updated-ok :
    call_oracle framework verifier oracle_account oracle
      (updating (signature_of 50_000 3 ∷ []) 20 50_000 3)
    ≡ ok updated
unfolding call_oracle fructus.Handlers.Accounts.admits_update_apy fructus.Handlers.Oracle.update_apy
    fructus.State.apy_in_bounds verify_publisher_signature fructus.Ed25519.inspect update_message
    fructus.State.validate_version
updated-ok = refl

-- A widening that a stranger signs, one that the authority signs, and a replay.
abbrev calls : List OracleCall
calls =
    widening (account_at 4 true) 1
    ∷ updating (signature_of 50_000 3 ∷ []) 21 50_000 3
    ∷ publishing (account_at 3 false) 4
    ∷ []

run_oracle-Advances_example :
    Advances oracle (run_oracle framework verifier oracle_account oracle calls)
run_oracle-Advances_example =
    run_oracle-Advances framework verifier oracle_account oracle calls (omega arith)

run_oracle-Configured_example :
    Configured oracle (run_oracle framework verifier oracle_account oracle calls)
run_oracle-Configured_example =
    run_oracle-Configured framework verifier oracle_account oracle calls (refl, (tt, (refl, tt)))

abbrev updated_again : YieldOracle
updated_again = record oracle { apy = 60_000; version = 4; last_update_slot = 30 }

updated_again-ok :
    call_oracle framework verifier oracle_account
      (run_oracle framework verifier oracle_account updated calls)
      (updating (signature_of 60_000 4 ∷ []) 30 60_000 4)
    ≡ ok updated_again
unfolding run_oracle fructus.Handlers.Accounts.admits_update_apy fructus.Handlers.Oracle.update_apy
    fructus.State.apy_in_bounds verify_publisher_signature fructus.Ed25519.inspect update_message
    fructus.Handlers.Accounts.admits_admin fructus.State.validate_version
updated_again-ok = refl

updating_once_example : 3 < 4
updating_once_example =
    updating_once framework verifier oracle_account oracle (signature_of 50_000 3 ∷ []) 20 50_000 3
      calls (signature_of 60_000 4 ∷ []) 30 60_000 4 (omega arith) updated-ok updated_again-ok

verify_publisher_signature_iff_example :
    (verify_publisher_signature 77
        (signature_of 50_000 3 ∷ [])
        (verifier.to_bytes 9)
        (update_message verifier.sha256 (verifier.to_bytes 7) 50_000 3)
      ≡ ok tt)
    ↔ Signed 77
        (verifier.to_bytes 9)
        (update_message verifier.sha256 (verifier.to_bytes 7) 50_000 3)
        (signature_of 50_000 3 ∷ [])
unfolding update_message
verify_publisher_signature_iff_example =
    verify_publisher_signature_iff 77 (signature_of 50_000 3 ∷ []) (verifier.to_bytes 9)
      (update_message verifier.sha256 (verifier.to_bytes 7) 50_000 3) (omega arith, tt)

-- A vault that is empty or not.
abbrev calls_of_vault : VaultCalls Bool
calls_of_vault = record {
  data_is_empty = λ empty. empty;
  minimum_balance = λ space. ok 2_039_280;
  token_account_len = 165;
  token_program = 60;
  create_account = λ seeds lamports space owner empty. ok false;
  initialize_account3 = λ seeds mint authority empty. ok false;
}

initialized-ok : initialize_collateral_vault calls_of_vault true 0 255 6 6 ≡ ok false
unfolding initialize_collateral_vault
initialized-ok = refl
