-- ===== src/Ed25519/Signed.antt =====
-- programs/fructus/src/ed25519.rs: which transactions pass `verify_publisher_signature`.
use fructus.Base.{
  ℕ, zero, suc, ◌≡◌, refl, ap, sym, subst, ◌∙◌, ◌↔◌, Bool, true, false, Option, none, some, List,
  [], ◌∷◌, arith, get_elem?, All, All-get_elem?, length, ◌<◌, u64_size, ◌==◌, if◌then◌else◌,
}
use mathlib.Core.Option.{some-injective}
use fructus.Errors.{ok}
use fructus.Ed25519.Layout.{
  Carries, parse_ed25519_instruction-Carries, Carries-parse_ed25519_instruction,
}
use fructus.Ed25519.{
  Ed25519Verification, Instruction, Sighting, unrelated, wrong_message, match, bytes_eq, inspect,
  parse_ed25519_instruction, verify_from, verify_publisher_signature,
}

bytes_eq-eq : (xs ys : List ℕ) → bytes_eq xs ys ≡ true → xs ≡ ys
unfolding bytes_eq
bytes_eq-eq [] [] h = refl
bytes_eq-eq [] (y ∷ ys) h = cc
bytes_eq-eq (x ∷ xs) [] h = cc
bytes_eq-eq (x ∷ xs) (y ∷ ys) h =
    let head : x ≡ y = ground arith in let rest : xs ≡ ys = bytes_eq-eq xs ys (ground arith) in cc

bytes_eq_refl : (xs : List ℕ) → bytes_eq xs xs ≡ true
unfolding bytes_eq
bytes_eq_refl [] = refl
bytes_eq_refl (x ∷ xs) = let same : x == x ≡ true = ground arith in rw (same, bytes_eq_refl xs) refl

module _ (program : ℕ) (key message : List ℕ) where
  abbrev Parses : Instruction → Type 0
  Parses ix =
      (ix.program_id ≡ program)
      × (parse_ed25519_instruction ix.bytes ≡ some (record { public_key = key; message = message }))

  inspect-Parses : (ix : Instruction) → inspect program key message ix ≡ match → Parses ix
  unfolding inspect
  inspect-Parses ix e =
      by_program (ix.program_id == program) (parse_ed25519_instruction ix.bytes) refl refl e
    where
      by_bytes :
          (parsed : Ed25519Verification) (b d : Bool)
          → bytes_eq parsed.public_key key ≡ b
          → bytes_eq parsed.message message ≡ d
          → (if b then if d then match else wrong_message else unrelated) ≡ match
          → parsed ≡ record { public_key = key; message = message }
      by_bytes parsed false d h h1 e = cc
      by_bytes parsed true false h h1 e = cc
      by_bytes parsed true true h h1 e =
          let same : parsed.public_key ≡ key = bytes_eq-eq parsed.public_key key h in
          let same1 : parsed.message ≡ message = bytes_eq-eq parsed.message message h1 in cc

      by_program :
          (b : Bool) (o : Option Ed25519Verification)
          → ix.program_id == program ≡ b
          → parse_ed25519_instruction ix.bytes ≡ o
          → (if b
              then elim o [
                | none ↦ unrelated
                | some parsed ↦
                    if bytes_eq parsed.public_key key
                    then if bytes_eq parsed.message message then match else wrong_message
                    else unrelated
              ]
              else unrelated)
            ≡ match
          → Parses ix
      by_program false o h h1 e = cc
      by_program true none h h1 e = cc
      by_program true (some parsed) h h1 e = (
        ground arith,
        h1
            ∙ ap some (
                by_bytes parsed (bytes_eq parsed.public_key key) (bytes_eq parsed.message message)
                  refl refl e),
      )

  Parses-inspect : (ix : Instruction) → Parses ix → inspect program key message ix ≡ match
  unfolding inspect
  Parses-inspect ix (h, h1) =
      let here : ix.program_id == program ≡ true = ground arith in
      rw (here, h1, bytes_eq_refl key, bytes_eq_refl message) refl

  abbrev Found : List Instruction → Type 0
  Found ixs = (i : ℕ) × (ix : Instruction) × (get_elem? ixs i ≡ some ix) × Parses ix

  verify_from-Found :
      (saw : Bool) (ixs : List Instruction)
      → verify_from program key message saw ixs ≡ ok tt
      → Found ixs
  unfolding verify_from
  verify_from-Found saw [] e = cc
  verify_from-Found saw (ix ∷ ixs) e =
      by_sighting (inspect program key message ix) refl e (λ s. verify_from-Found s ixs)
    where
      by_sighting :
          (g : Sighting)
          → inspect program key message ix ≡ g
          → elim g [
            | unrelated ↦ verify_from program key message saw ixs
            | wrong_message ↦ verify_from program key message true ixs
            | match ↦ ok tt
          ]
            ≡ ok tt
          → ((s : Bool) → verify_from program key message s ixs ≡ ok tt → Found ixs)
          → Found (ix ∷ ixs)
      by_sighting unrelated h e rest = let (i, x, at, s) = rest saw e in (suc i, x, at, s)
      by_sighting wrong_message h e rest = let (i, x, at, s) = rest true e in (suc i, x, at, s)
      by_sighting match h e rest = (0, ix, refl, inspect-Parses ix h)

  Found-verify_from :
      (saw : Bool) (ixs : List Instruction) (i : ℕ) (ix : Instruction)
      → get_elem? ixs i ≡ some ix
      → Parses ix
      → verify_from program key message saw ixs ≡ ok tt
  unfolding verify_from
  Found-verify_from saw [] i ix at s = cc
  Found-verify_from saw (x ∷ ixs) zero ix at s =
      let here : inspect program key message x ≡ match =
        subst (λ y. inspect program key message y ≡ match) (sym (some-injective x ix at))
          (Parses-inspect ix s) in
      rw (here, verify_from) refl
  Found-verify_from saw (x ∷ ixs) (suc i) ix at s =
      by_sighting (inspect program key message x) refl (λ b. Found-verify_from b ixs i ix at s)
    where
      by_sighting :
          (g : Sighting)
          → inspect program key message x ≡ g
          → ((b : Bool) → verify_from program key message b ixs ≡ ok tt)
          → verify_from program key message saw (x ∷ ixs) ≡ ok tt
      by_sighting unrelated h rest = rw (h, verify_from) (rest saw)
      by_sighting wrong_message h rest = rw (h, verify_from) (rest true)
      by_sighting match h rest = rw (h, verify_from) refl

  -- Some instruction of the transaction is of the ed25519 program, and its data carries the key and the message.
  abbrev pub Signed : List Instruction → Type 0
  Signed ixs =
      (i : ℕ) × (ix : Instruction) × (get_elem? ixs i ≡ some ix)
      × (ix.program_id ≡ program)
      × Carries key message ix.bytes

  Signed-Found :
      (ixs : List Instruction) → All (λ ix. length ix.bytes < u64_size) ixs → Signed ixs → Found ixs
  Signed-Found ixs small (i, ix, at, h, c) =
      let short : length ix.bytes < u64_size =
        All-get_elem? (λ x. length x.bytes < u64_size) ixs i small at in
      (i, ix, at, (h, Carries-parse_ed25519_instruction ix.bytes key message short c))

-- A transaction passes exactly where one of its instructions is of the ed25519 program and its data, told by the
-- byte layout of `Carries`, has the publisher's key and the expected message inline. The data of an instruction
-- is shorter than 2 ^ 64 bytes.
pub verify_publisher_signature_iff :
    (program : ℕ) (instructions : List Instruction) (key message : List ℕ)
    → All (λ ix. length ix.bytes < u64_size) instructions
    → (verify_publisher_signature program instructions key message ≡ ok tt)
      ↔ Signed program key message instructions
unfolding verify_publisher_signature
verify_publisher_signature_iff program instructions key message small = (
  λ e.
      let (i, ix, at, (h, parsed)) = verify_from-Found program key message false instructions e in
      (i, ix, at, h, parse_ed25519_instruction-Carries ix.bytes key message parsed),
  λ signed.
      let (i, ix, at, found) = Signed-Found program key message instructions small signed in
      Found-verify_from program key message false instructions i ix at found,
)
