-- ===== src/Ed25519.antt =====
-- programs/fructus/src/ed25519.rs: the data of a signature instruction, parsed, and the search for the
-- publisher's signature among the instructions of the transaction.
pub mod Layout
pub mod Signed
use fructus.Base.{
  ℕ, ◌+◌, ◌*◌, Bool, true, false, ◌&&◌, ◌||◌, not, Option, none, some, List, [], ◌∷◌, ltb, ◌==◌,
  if◌then◌else◌, length, get_or, checked_add, u64_size,
}
use fructus.Base.Options.{◌>>=◌, ◌>>◌, refuse}
use fructus.Errors.{Result, ok, err, Error, FructusError}
use fructus.Exchange.{get_range}

abbrev pub ed25519_pubkey_len : ℕ
ed25519_pubkey_len = 32

pub record Ed25519Verification : Type 0 where
  pub public_key : List ℕ
  pub message : List ℕ

-- `u16::from_le_bytes([data[i], data[i + 1]])`; the caller has checked the length.
unfoldable pub u16_at : List ℕ → ℕ → ℕ
u16_at bytes i = get_or bytes i 0 + 256 * get_or bytes (i + 1) 0

-- `u16::MAX`: the offset refers to the instruction itself.
abbrev pub inline_index : ℕ
inline_index = 65_535

unfoldable pub parse_ed25519_instruction : List ℕ → Option Ed25519Verification
unfolding u16_at get_range
parse_ed25519_instruction bytes = do
  refuse (ltb (length bytes) 16)
  refuse (not (get_or bytes 0 0 == 1))
  let signature_instruction_index = u16_at bytes 4
  let public_key_instruction_index = u16_at bytes 8
  let message_instruction_index = u16_at bytes 14
  refuse (
      not (signature_instruction_index == inline_index)
      || not (public_key_instruction_index == inline_index)
      || not (message_instruction_index == inline_index))
  let public_key_offset = u16_at bytes 6
  let message_offset = u16_at bytes 10
  let message_data_size = u16_at bytes 12
  pk_end ← checked_add u64_size public_key_offset ed25519_pubkey_len
  msg_end ← checked_add u64_size message_offset message_data_size
  public_key ← get_range bytes public_key_offset ed25519_pubkey_len
  message ← get_range bytes message_offset message_data_size
  some (record { public_key = public_key; message = message })

unfoldable pub bytes_eq : List ℕ → List ℕ → Bool
bytes_eq [] [] = true
bytes_eq [] (y ∷ ys) = false
bytes_eq (x ∷ xs) [] = false
bytes_eq (x ∷ xs) (y ∷ ys) = x == y && bytes_eq xs ys

-- An instruction of the transaction, as the instructions sysvar yields it.
pub record Instruction : Type 0 where
  pub program_id : ℕ
  pub bytes : List ℕ

-- What the body of the loop finds out about one instruction.
pub data Sighting : Type 0 where
  unrelated wrong_message match : Sighting

-- `program` is the id of the runtime's ed25519 program.
unfoldable pub inspect : ℕ → List ℕ → List ℕ → Instruction → Sighting
unfolding parse_ed25519_instruction bytes_eq
inspect program expected_pubkey expected_message ix =
    if ix.program_id == program
    then elim (parse_ed25519_instruction ix.bytes) [
      | none ↦ unrelated
      | some parsed ↦
          if bytes_eq parsed.public_key expected_pubkey
          then if bytes_eq parsed.message expected_message then match else wrong_message
          else unrelated
    ]
    else unrelated

verify_from : ℕ → List ℕ → List ℕ → Bool → List Instruction → Result (Unit {0})
verify_from program key message saw_wrong_message [] = err (
    Error.custom (
      if saw_wrong_message then FructusError.invalid_signature else FructusError.signature_missing))
verify_from program key message saw_wrong_message (ix ∷ ixs) =
    elim (inspect program key message ix) [
      | unrelated ↦ verify_from program key message saw_wrong_message ixs
      | wrong_message ↦ verify_from program key message true ixs
      | match ↦ ok tt
    ]

unfoldable pub verify_publisher_signature :
    ℕ → List Instruction → List ℕ → List ℕ → Result (Unit {0})
unfolding verify_from
verify_publisher_signature program instructions expected_publisher expected_message =
    verify_from program expected_publisher expected_message false instructions
