-- ===== src/Sdk/Challenges.antt =====
-- packages/js/phygital-wallet/src/utils/challenges.ts: the challenges that a passkey signs. The
-- address encoder of `@solana/kit` and SHA-256 are the record `Hashing`. The fetch of a slot hash is
-- not modelled: its result is an argument.
pub mod Pack
mod Referenced
mod Binding
mod Tests
use Prim.Native.Nat.{bit_or}
use phygital_wallet.Common.{
  ℕ, zero, suc, ◌/◌, ◌%◌, String, ◌<>◌, Bool, true, false, ◌||◌, Option, none, some, List, [], ◌∷◌,
  ◌++◌, map, Bytes, get_elem?, take, length, ltb, if◌then◌else◌, digits,
}
use phygital_wallet.Errors.{Result, ok, err, plain_error, ◌>>=◌, ◌>>◌}
use phygital_wallet.Sdk.{CompactInstruction}
use phygital_wallet.Sdk.Compile.{Roles, AccountMeta}

pub record Hashing : Type 0 where
  pub encode_address : String → Result Bytes
  pub sha256 : Bytes → Bytes

pub record SlotEntry : Type 0 where
  pub slot_number : ℕ
  pub slot_hash : Bytes

pub record SlotChallenge : Type 0 where
  pub slot_number : ℕ
  pub message_hash : Bytes

pub record ChallengeAccount : Type 0 where
  pub address : String
  pub is_signer : Bool
  pub is_writable : Bool

-- `AccountMeta | Address`
pub data AccountRef : Type 0 where
  meta : AccountMeta → AccountRef
  plain : String → AccountRef

-- The bytes of `phygital_wallet:execute:v3` and of `phygital_wallet:set_authority:v1`.
abbrev pub execute_challenge_prefix : Bytes
execute_challenge_prefix =
    112 ∷ 104 ∷ 121 ∷ 103 ∷ 105 ∷ 116 ∷ 97 ∷ 108 ∷ 95 ∷ 119 ∷ 97 ∷ 108 ∷ 108 ∷ 101 ∷ 116 ∷ 58 ∷ 101
    ∷ 120 ∷ 101 ∷ 99 ∷ 117 ∷ 116 ∷ 101 ∷ 58 ∷ 118 ∷ 51 ∷ []

abbrev pub set_authority_challenge_prefix : Bytes
set_authority_challenge_prefix =
    112 ∷ 104 ∷ 121 ∷ 103 ∷ 105 ∷ 116 ∷ 97 ∷ 108 ∷ 95 ∷ 119 ∷ 97 ∷ 108 ∷ 108 ∷ 101 ∷ 116 ∷ 58 ∷ 115
    ∷ 101 ∷ 116 ∷ 95 ∷ 97 ∷ 117 ∷ 116 ∷ 104 ∷ 111 ∷ 114 ∷ 105 ∷ 116 ∷ 121 ∷ 58 ∷ 118 ∷ 49 ∷ []

-- The loop that sizes the buffer.
check_sizes : List CompactInstruction → Result (Unit {0})
check_sizes [] = ok tt
check_sizes (ix ∷ ixs) =
    if ltb 255 (length ix.account_indexes)
    then err (plain_error "Too many account indexes for u8 count")
    else if ltb 65535 (length ix.data_bytes)
    then err (plain_error "Instruction data exceeds u16 length")
    else check_sizes ixs

pack_one : CompactInstruction → Bytes
pack_one ix =
    ix.program_id_index % 256
    ∷ length ix.account_indexes % 256
    ∷ (ix.account_indexes
        ++ (length ix.data_bytes % 256 ∷ (length ix.data_bytes / 256) % 256 ∷ ix.data_bytes))

pack_all : List CompactInstruction → Bytes
pack_all [] = []
pack_all (ix ∷ ixs) = pack_one ix ++ pack_all ixs

pub pack_compact_instructions : List CompactInstruction → Result Bytes
unfolding check_sizes pack_one pack_all
pack_compact_instructions instructions =
    if ltb 255 (length instructions)
    then err (plain_error "Too many compact instructions for u8 count")
    else check_sizes instructions >> ok (length instructions % 256 ∷ pack_all instructions)

pub privilege_byte : Bool → Bool → ℕ
privilege_byte is_signer is_writable =
    bit_or (if is_signer then 1 else 0) (if is_writable then 2 else 0)

pub to_challenge_account : Roles → AccountRef → ChallengeAccount
to_challenge_account k (plain address) = record {
  address = address;
  is_signer = false;
  is_writable = false;
}
to_challenge_account k (meta m) = record {
  address = m.address;
  is_signer = k.is_signer m.role;
  is_writable = k.is_writable m.role;
}

-- The zeros that a fresh buffer holds.
abbrev pub zeros : ℕ → Bytes
zeros zero = []
zeros (suc n) = 0 ∷ zeros n

-- A field of 32 bytes of a fresh buffer.
pub field32 : Bytes → Bytes
field32 bytes = take 32 (bytes ++ zeros 32)

module _ (h : Hashing) where
  -- An address encodes to 32 bytes, which with the privileges fill the 33 that it has.
  pub push_account : ChallengeAccount → Result Bytes
  unfolding privilege_byte
  push_account account = do
    key_bytes ← h.encode_address account.address
    ok (key_bytes ++ privilege_byte account.is_signer account.is_writable ∷ [])

  pub push_indexes : List ChallengeAccount → List ℕ → Result Bytes
  push_indexes accounts [] = ok []
  push_indexes accounts (idx ∷ idxs) = elim (get_elem? accounts idx) [
    | none ↦ err (plain_error ("Invalid account index " <> digits idx))
    | some account ↦ do
      bytes ← push_account account
      rest ← push_indexes accounts idxs
      ok (bytes ++ rest)
  ]

  pub push_instructions : List ChallengeAccount → List CompactInstruction → Result Bytes
  push_instructions accounts [] = ok []
  push_instructions accounts (ix ∷ ixs) = elim (get_elem? accounts ix.program_id_index) [
    | none ↦ err (plain_error ("Invalid program_id_index " <> digits ix.program_id_index))
    | some program ↦ do
      bytes ← push_account program
      indexed ← push_indexes accounts ix.account_indexes
      rest ← push_instructions accounts ixs
      ok (bytes ++ (indexed ++ rest))
  ]

  pub hash_referenced_accounts : Roles → List AccountRef → List CompactInstruction → Result Bytes
  unfolding to_challenge_account push_account push_indexes push_instructions
  hash_referenced_accounts k remaining instructions = do
    buf ← push_instructions (map (to_challenge_account k) remaining) instructions
    ok (h.sha256 buf)

  pub hash_execute_challenge :
      Roles → Bytes → List CompactInstruction → List AccountRef → Result Bytes
  unfolding pack_compact_instructions hash_referenced_accounts field32
  hash_execute_challenge k slot_hash compact remaining = do
    packed ← pack_compact_instructions compact
    accounts_hash ← hash_referenced_accounts k remaining compact
    ok (
        h.sha256 (
          execute_challenge_prefix
          ++ (field32 slot_hash ++ (field32 (h.sha256 packed) ++ field32 accounts_hash))))

  pub build_execute_challenge_from_slot :
      Roles → SlotEntry → List CompactInstruction → List AccountRef → Result SlotChallenge
  unfolding hash_execute_challenge
  build_execute_challenge_from_slot k slot compact remaining = do
    message_hash ← hash_execute_challenge k slot.slot_hash compact remaining
    ok (record { slot_number = slot.slot_number; message_hash = message_hash })

  pub hash_set_authority_challenge : Bytes → String → String → Result Bytes
  unfolding field32
  hash_set_authority_challenge slot_hash phygital_token authority = do
    token_bytes ← h.encode_address phygital_token
    authority_bytes ← h.encode_address authority
    ok (
        h.sha256 (
          set_authority_challenge_prefix
          ++ (field32 slot_hash ++ (token_bytes ++ authority_bytes))))
