-- ===== src/Ed25519/Layout.antt =====
-- The layout of the data of an ed25519 instruction with one signature, told by its bytes, and that
-- programs/fructus/src/ed25519.rs parses exactly that.
use fructus.Base.{
  ℕ, zero, suc, ◌+◌, ◌*◌, ◌≤◌, ◌<◌, ◌≡◌, refl, sym, ap, subst, ◌∙◌, Bool, true, false, not, ◌||◌,
  none, some, List, [], ◌∷◌, ◌++◌, arith, ltb, leb, ◌==◌, if◌then◌else◌, length, get_or, take, drop,
  length-append, length-take-le, length-drop, checked_add, u64_size,
}
use mathlib.Core.Option.{some-injective}
use fructus.Base.Options.{refuse, >>=-eq-some}
use fructus.Base.Checked.{try_from-fits}
use fructus.Exchange.{get_range}
use fructus.Exchange.RoundTrip.{get_range-append}
use fructus.Ed25519.{u16_at, inline_index, ed25519_pubkey_len, parse_ed25519_instruction}

-- The little-endian 16-bit number at a position.
abbrev pub word : List ℕ → ℕ → ℕ
word bytes i = get_or bytes i 0 + 256 * get_or bytes (i + 1) 0

-- The range stands at this offset in the bytes.
abbrev pub Stands : List ℕ → ℕ → List ℕ → Type 0
Stands bytes offset range =
    (before : List ℕ) × (after : List ℕ) × (length before ≡ offset)
    × (bytes ≡ before ++ (range ++ after))

-- The data carries the key and the message: behind a count of 1 and a byte of padding, seven 16-bit numbers say
-- where the signature stands, the key and the message; each is in this instruction, which the number 65_535 says.
pub record Carries (key message bytes : List ℕ) : Type 0 where
  pub header : 16 ≤ length bytes
  pub one_signature : get_or bytes 0 0 ≡ 1
  pub signature_here : word bytes 4 ≡ 65_535
  pub key_here : word bytes 8 ≡ 65_535
  pub message_here : word bytes 14 ≡ 65_535
  pub key_length : length key ≡ 32
  pub key_at : Stands bytes (word bytes 6) key
  pub message_length : length message ≡ word bytes 12
  pub message_at : Stands bytes (word bytes 10) message

refuse-eq-some : (b : Bool) {u : Unit {0}} → refuse b ≡ some u → b ≡ false
refuse-eq-some b e = ground arith

take-drop {ℓ} : {A : Type ℓ} (n : ℕ) (xs : List A) → take n xs ++ drop n xs ≡ xs
take-drop zero xs = refl
take-drop (suc n) [] = refl
take-drop (suc n) (x ∷ xs) = ap (λ l. x ∷ l) (take-drop n xs)

get_range-Stands :
    (bytes : List ℕ) (offset n : ℕ) {range : List ℕ}
    → get_range bytes offset n ≡ some range
    → (length range ≡ n) × Stands bytes offset range
unfolding get_range
get_range-Stands bytes offset n {range} e = by_room (leb (offset + n) (length bytes)) refl e
  where
    by_room :
        (t : Bool)
        → leb (offset + n) (length bytes) ≡ t
        → (if t then some (take n (drop offset bytes)) else none) ≡ some range
        → (length range ≡ n) × Stands bytes offset range
    by_room false h e = cc
    by_room true h e =
        let room : offset + n ≤ length bytes = ground arith in
        let same : take n (drop offset bytes) ≡ range = some-injective _ range e in
        (
          ap length (sym same)
              ∙ length-take-le n (drop offset bytes)
                  (omega (arith, length-drop offset bytes, room)),
          (
            take offset bytes,
            drop n (drop offset bytes),
            length-take-le offset bytes (omega arith),
            sym (take-drop offset bytes)
                ∙ ap (λ l. take offset bytes ++ l)
                    (sym (take-drop n (drop offset bytes))
                      ∙ ap (λ l. l ++ drop n (drop offset bytes)) same),
          ),
        )

Stands-get_range :
    (bytes : List ℕ) (offset n : ℕ) (range : List ℕ)
    → length range ≡ n
    → Stands bytes offset range
    → get_range bytes offset n ≡ some range
Stands-get_range bytes offset n range h (before, after, at, split) =
    subst (λ l. get_range l offset n ≡ some range) (sym split)
      (get_range-append before range after offset n at h)

Stands-fits :
    (bytes : List ℕ) (offset n : ℕ) (range : List ℕ)
    → length bytes < u64_size
    → length range ≡ n
    → Stands bytes offset range
    → checked_add u64_size offset n ≡ some (offset + n)
Stands-fits bytes offset n range small h (before, after, at, split) =
    try_from-fits u64_size (offset + n) (
      omega (
        arith,
        ap length split,
        length-append before (range ++ after),
        length-append range after,
        at,
        h,
        small,
      ))

-- What parses, carries the key and the message that are found.
pub parse_ed25519_instruction-Carries :
    (bytes : List ℕ) (key message : List ℕ)
    → parse_ed25519_instruction bytes ≡ some (record { public_key = key; message = message })
    → Carries key message bytes
unfolding parse_ed25519_instruction u16_at
parse_ed25519_instruction-Carries bytes key message e =
    let (u, h1, e1) = >>=-eq-some (refuse (ltb (length bytes) 16)) _ e in
    let (u1, h2, e2) = >>=-eq-some (refuse (not (get_or bytes 0 0 == 1))) _ e1 in
    let (u2, h3, e3) =
      >>=-eq-some
        (refuse (
          not (word bytes 4 == inline_index)
          || not (word bytes 8 == inline_index)
          || not (word bytes 14 == inline_index)))
        _ e2 in
    let (key_end, h4, e4) =
      >>=-eq-some (checked_add u64_size (word bytes 6) ed25519_pubkey_len) _ e3 in
    let (message_end, h5, e5) =
      >>=-eq-some (checked_add u64_size (word bytes 10) (word bytes 12)) _ e4 in
    let (found, h6, e6) = >>=-eq-some (get_range bytes (word bytes 6) ed25519_pubkey_len) _ e5 in
    let (found1, h7, e7) = >>=-eq-some (get_range bytes (word bytes 10) (word bytes 12)) _ e6 in
    let same = some-injective (record { public_key = found; message = found1 }) _ e7 in
    let (long, at) =
      get_range-Stands bytes (word bytes 6) 32 (
        subst (λ r. get_range bytes (word bytes 6) 32 ≡ some r) (ap (λ v. v.public_key) same) h6) in
    let (long1, at1) = get_range-Stands bytes (word bytes 10) (word bytes 12) (
      subst (λ r. get_range bytes (word bytes 10) (word bytes 12) ≡ some r)
        (ap (λ v. v.message) same) h7) in
    let k1 = refuse-eq-some (ltb (length bytes) 16) h1 in
    let k2 = refuse-eq-some (not (get_or bytes 0 0 == 1)) h2 in
    let k3 =
      refuse-eq-some
        (not (word bytes 4 == inline_index)
          || not (word bytes 8 == inline_index)
          || not (word bytes 14 == inline_index))
        h3 in
    record {
      header = ground (arith, k1);
      one_signature = ground (arith, k2);
      signature_here = ground (arith, k3);
      key_here = ground (arith, k3);
      message_here = ground (arith, k3);
      key_length = long;
      key_at = at;
      message_length = long1;
      message_at = at1;
    }

not_refused : (b : Bool) → b ≡ false → refuse b ≡ some tt
not_refused b h = ground arith

-- What carries a key and a message, in fewer than 2 ^ 64 bytes, parses to them.
pub Carries-parse_ed25519_instruction :
    (bytes : List ℕ) (key message : List ℕ)
    → length bytes < u64_size
    → Carries key message bytes
    → parse_ed25519_instruction bytes ≡ some (record { public_key = key; message = message })
unfolding parse_ed25519_instruction u16_at
Carries-parse_ed25519_instruction bytes key message small c =
    let long : ltb (length bytes) 16 ≡ false = ground (arith, c.header) in
    let one : get_or bytes 0 0 == 1 ≡ true = ground (arith, c.one_signature) in
    let here : word bytes 4 == inline_index ≡ true = ground (arith, c.signature_here) in
    let here1 : word bytes 8 == inline_index ≡ true = ground (arith, c.key_here) in
    let here2 : word bytes 14 == inline_index ≡ true = ground (arith, c.message_here) in
    rw
      (
        long,
        one,
        here,
        here1,
        here2,
        Stands-fits bytes (word bytes 6) 32 key small c.key_length c.key_at,
        Stands-fits bytes (word bytes 10) (word bytes 12) message small c.message_length
            c.message_at,
        Stands-get_range bytes (word bytes 6) 32 key c.key_length c.key_at,
        Stands-get_range bytes (word bytes 10) (word bytes 12) message c.message_length
            c.message_at,
      )
      refl
