-- ===== src/SignDecode.antt =====
-- workers/api-signer/src/transactions/decode-tx.ts and constants.ts: what a `/sign` transaction is
-- for. The wire codecs of `@solana/kit` and the data codecs of the SDK are the record `Kit`.
pub mod Accepts
mod Tests
use phygital_wallet.Common.{
  ℕ, String, Bool, true, false, not, ◌||◌, ◌&&◌, Option, none, some, List, [], ◌∷◌, Bytes,
  get_elem?, eqb, ◌==◌, if◌then◌else◌, truthy,
}
use phygital_wallet.Errors.{Thrown, Result, ok, err, coded, plain_error, ◌>>=◌, ◌>>◌}
use phygital_wallet.Sdk.{
  Instruction, CompactInstruction, PhygitalWalletInstruction, clear_authority, clear_wallet_policy,
  execute, execute_with_authority, execute_with_authority_using_policies, set_authority,
  set_wallet_policy, phygital_wallet_program_address, identify, token_account,
  slice_execute_remaining_accounts,
}

abbrev pub system_program_address : String
system_program_address = "11111111111111111111111111111111"

abbrev pub secp256r1_program : String
secp256r1_program = "Secp256r1SigVerify1111111111111111111111111"

-- A compiled message; `none` where its instructions cannot be decompiled.
pub record CompiledMessage : Type 0 where
  pub static_accounts : List String
  pub instructions : Option (List Instruction)

-- What is not in the repository: the base64, transaction and message decoders (the message's bytes
-- and its content), the codecs of the data of the two execute variants, whether the data of another
-- variant decodes, and the text of a codec's error. `none` is a throw.
pub record Kit : Type 0 where
  pub decode_tx : String → Option (Bytes × CompiledMessage)
  pub decode_execute : Bytes → Option (List CompactInstruction)
  pub decode_execute_with_authority : Bytes → Option (List CompactInstruction)
  pub decodes : PhygitalWalletInstruction → Bytes → Bool
  pub codec_error : String

unfoldable pub top_level_ok : String → Bool
top_level_ok program = program == secp256r1_program || program == phygital_wallet_program_address

assert_top_level_instruction_allowed : Instruction → Result (Unit {0})
assert_top_level_instruction_allowed ix =
    if not (top_level_ok ix.program_address)
    then err (coded "Unexpected top-level program" "unexpected_instruction")
    else ok tt

-- The accounts and the data of an instruction that has both.
pub as_wallet_instruction : Instruction → Result (List String × Bytes)
as_wallet_instruction ix = elim ix.data_bytes [
  | none ↦ err (coded "Phygital-wallet instruction missing data" "invalid_transaction")
  | some bytes ↦ elim bytes [
    | [] ↦ err (coded "Phygital-wallet instruction missing data" "invalid_transaction")
    | b ∷ bs ↦ elim ix.accounts [
      | none ↦ err (coded "Phygital-wallet instruction missing accounts" "invalid_transaction")
      | some accounts ↦ ok (accounts, b ∷ bs)
    ]
  ]
]

abbrev first_byte_is : ℕ → Option Bytes → Bool
first_byte_is n none = false
first_byte_is n (some []) = false
first_byte_is n (some (b ∷ _)) = eqb b n

abbrev second_account : Option (List String) → Option String
second_account none = none
second_account (some accounts) = get_elem? accounts 1

abbrev is_destination : String → Option String → Bool
is_destination accumulator none = false
is_destination accumulator (some dest) = not (dest == "") && dest == accumulator

-- The loop of `isFeeBalanceTopUpIntent`.
tops_up : List Instruction → String → Bool → Bool
tops_up [] accumulator saw_transfer = saw_transfer
tops_up (ix ∷ ixs) accumulator saw_transfer =
    let rest = tops_up ixs accumulator true in
    if not (ix.program_address == system_program_address)
    then false
    else if not (first_byte_is 2 ix.data_bytes)
    then false
    else if not (is_destination accumulator (second_account ix.accounts))
    then false
    else rest

unfoldable pub is_fee_balance_top_up_intent : List Instruction → String → Bool
unfolding tops_up
is_fee_balance_top_up_intent [] accumulator = false
is_fee_balance_top_up_intent (ix ∷ ixs) accumulator =
    if accumulator == "" then false else tops_up (ix ∷ ixs) accumulator false

unfoldable pub expand_accounts : List ℕ → List String → Result (List String)
expand_accounts [] remaining = ok []
expand_accounts (i ∷ is) remaining = elim (truthy (get_elem? remaining i)) [
  | none ↦ err (coded "Compact instruction account index out of range" "invalid_transaction")
  | some address ↦ expand_accounts is remaining >>= λ rest. ok (address ∷ rest)
]

unfoldable pub expand_compact_instructions :
    List CompactInstruction → List String → Result (List Instruction)
expand_compact_instructions [] remaining = ok []
expand_compact_instructions (ci ∷ cis) remaining =
    elim (truthy (get_elem? remaining ci.program_id_index)) [
      | none ↦ err (coded "Compact instruction program index out of range" "invalid_transaction")
      | some program ↦ do
        accounts ← expand_accounts ci.account_indexes remaining
        rest ← expand_compact_instructions cis remaining
        ok (
            record {
              program_address = program;
              accounts = some accounts;
              data_bytes = some ci.data_bytes;
            }
            ∷ rest)
    ]

pub record Resolved : Type 0 where
  pub phygital_token : String
  pub is_fee_paying_instruction : Bool

pub record DecodedSignTx : Type 0 where
  pub message_bytes : Bytes
  pub fee_payer : String
  pub phygital_token : String
  pub is_fee_paying_instruction : Bool

module _ (kit : Kit) where
  abbrev codec {ℓ} : {A : Type ℓ} → Option A → Result A
  codec none = err (plain_error kit.codec_error)
  codec (some a) = ok a

  -- The two execute variants: the token, and the scan of the wrapped instructions.
  resolve_execute :
      PhygitalWalletInstruction
      → Option (List CompactInstruction)
      → List String
      → String
      → Result Resolved
  resolve_execute kind compact accounts accumulator = do
    token ← codec (token_account kind accounts)
    compact_instructions ← codec compact
    remaining ← codec (slice_execute_remaining_accounts kind accounts)
    inner ← expand_compact_instructions compact_instructions remaining
    ok (record {
      phygital_token = token;
      is_fee_paying_instruction = is_fee_balance_top_up_intent inner accumulator;
    })

  -- The variants without wrapped instructions.
  resolve_plain : PhygitalWalletInstruction → List String → Bytes → Result Resolved
  resolve_plain kind accounts bytes = do
    token ← codec (token_account kind accounts)
    codec (if kit.decodes kind bytes then some tt else none)
    ok (record { phygital_token = token; is_fee_paying_instruction = false })

  resolve_wallet_instruction :
      List String → Bytes → PhygitalWalletInstruction → String → Result Resolved
  resolve_wallet_instruction accounts bytes execute accumulator =
      resolve_execute execute (kit.decode_execute bytes) accounts accumulator
  resolve_wallet_instruction accounts bytes execute_with_authority accumulator =
      resolve_execute execute_with_authority (kit.decode_execute_with_authority bytes) accounts
        accumulator
  resolve_wallet_instruction accounts bytes set_authority accumulator =
      resolve_plain set_authority accounts bytes
  resolve_wallet_instruction accounts bytes set_wallet_policy accumulator =
      resolve_plain set_wallet_policy accounts bytes
  resolve_wallet_instruction accounts bytes clear_authority accumulator =
      resolve_plain clear_authority accounts bytes
  resolve_wallet_instruction accounts bytes clear_wallet_policy accumulator =
      resolve_plain clear_wallet_policy accounts bytes
  resolve_wallet_instruction accounts bytes execute_with_authority_using_policies accumulator =
      err (coded "executeWithAuthorityUsingPolicies is not fee-sponsored" "unexpected_instruction")

  resolve_one : Instruction → String → Result Resolved
  resolve_one ix accumulator = do
    (accounts, bytes) ← as_wallet_instruction ix
    kind ← codec (identify bytes)
    resolve_wallet_instruction accounts bytes kind accumulator

  -- The loop over the top-level instructions.
  scan : List Instruction → String → Option Resolved → Result (Option Resolved)
  scan [] accumulator resolved = ok resolved
  scan (ix ∷ ixs) accumulator resolved = do
    assert_top_level_instruction_allowed ix
    if not (ix.program_address == phygital_wallet_program_address)
        then scan ixs accumulator resolved
        else elim resolved [
          | some _ ↦ err (
              coded "Transaction mixes multiple phygital-wallet instructions"
                "unexpected_instruction")
          | none ↦ do found ← resolve_one ix accumulator; scan ixs accumulator (some found)
        ]

  fee_payer_of : CompiledMessage → Result String
  fee_payer_of compiled = elim (truthy (get_elem? compiled.static_accounts 0)) [
    | none ↦ err (coded "Transaction has no fee payer" "invalid_transaction")
    | some payer ↦ ok payer
  ]

  decoded_as : Bytes → String → Option Resolved → Result DecodedSignTx
  decoded_as message_bytes fee_payer none =
      err (coded "Transaction missing a phygital-wallet instruction" "unexpected_instruction")
  decoded_as message_bytes fee_payer (some r) = ok (record {
    message_bytes = message_bytes;
    fee_payer = fee_payer;
    phygital_token = r.phygital_token;
    is_fee_paying_instruction = r.is_fee_paying_instruction;
  })

  -- `decodeWireTransaction` once the wire is decoded.
  decode_compiled : String → Bytes × CompiledMessage → Result DecodedSignTx
  decode_compiled accumulator (message_bytes, compiled) = do
    fee_payer ← fee_payer_of compiled
    top_level ← codec compiled.instructions
    resolved ← scan top_level accumulator none
    decoded_as message_bytes fee_payer resolved

  unfoldable pub decode_wire_transaction : String → String → Result DecodedSignTx
  unfolding decode_compiled fee_payer_of decoded_as scan resolve_one
      assert_top_level_instruction_allowed as_wallet_instruction identify resolve_wallet_instruction
      resolve_execute resolve_plain expand_compact_instructions expand_accounts
      slice_execute_remaining_accounts token_account is_fee_balance_top_up_intent top_level_ok
  decode_wire_transaction base64_tx accumulator =
      codec (kit.decode_tx base64_tx) >>= decode_compiled accumulator
