-- ===== src/SecureSigner/Policy.antt =====
-- secure-signer/src/tx/policy.ts and parser.ts: which transactions the owner's key signs. The codecs
-- of the SDK are parameters, and so are the texts that clear-sign.ts shows; a `none` of theirs is a
-- throw. The configuration of a summary is left out.
pub mod Accepts
mod Tests
use phygital_wallet.Common.{
  ℕ, String, Bool, true, false, not, Option, none, some, List, [], ◌∷◌, Bytes, length, get_elem?,
  any, ◌==◌, if◌then◌else◌,
}
use phygital_wallet.Errors.{Thrown, other_value, Result, ok, err, ◌>>=◌, ◌>>◌}
use phygital_wallet.Sdk.{
  Instruction, CompactInstruction, PhygitalWalletInstruction, clear_authority, clear_wallet_policy,
  execute, execute_with_authority, execute_with_authority_using_policies, set_authority,
  set_wallet_policy, phygital_wallet_program_address, identify, token_account,
  slice_execute_remaining_accounts,
}
use phygital_wallet.SecureSigner.{ErrorCode, policy_rejected, wallet_mismatch}

pub record DetailRow : Type 0 where
  pub label : String
  pub value : String

pub record InnerInstructionSummary : Type 0 where
  pub program_address : String
  pub accounts : List String
  pub data_length : ℕ
  pub title : String
  pub details : List DetailRow

pub record ParsedInstructionSummary : Type 0 where
  pub kind : PhygitalWalletInstruction
  pub authority : Option String
  pub phygital_token : Option String
  pub inner : Option (List InnerInstructionSummary)
  pub details : List DetailRow

-- What the parser is given: the codecs by kind, and the texts.
pub record Texts : Type 0 where
  pub decode_execute : PhygitalWalletInstruction → Bytes → Option (List CompactInstruction)
  pub decodes : PhygitalWalletInstruction → Bytes → Bool
  pub describe_inner : String → List String → Bytes → Option (String × List DetailRow)
  pub describe_wallet_policy : Bytes → Option (List DetailRow)

pub record TransactionSummary : Type 0 where
  pub wallet_address : String
  pub instructions : List ParsedInstructionSummary

pub data PolicyResult : Type 0 where
  accepted : TransactionSummary → PolicyResult
  refused : ErrorCode → PolicyResult

abbrev pub present {ℓ} : {A : Type ℓ} → Option A → Result A
present none = err other_value
present (some a) = ok a

module _ (texts : Texts) where
  account_list : List ℕ → List String → Result (List String)
  account_list [] remaining = ok []
  account_list (i ∷ is) remaining = do
    address ← present (get_elem? remaining i)
    addresses ← account_list is remaining
    ok (address ∷ addresses)

  summarize_one : CompactInstruction → List String → Result InnerInstructionSummary
  summarize_one ci remaining = do
    program ← present (get_elem? remaining ci.program_id_index)
    accounts ← account_list ci.account_indexes remaining
    (title, details) ← present (texts.describe_inner program accounts ci.data_bytes)
    ok (record {
      program_address = program;
      accounts = accounts;
      data_length = length ci.data_bytes;
      title = title;
      details = details;
    })

  summarize_inner : List CompactInstruction → List String → Result (List InnerInstructionSummary)
  summarize_inner [] remaining = ok []
  summarize_inner (ci ∷ cis) remaining = do
    summary ← summarize_one ci remaining
    summaries ← summarize_inner cis remaining
    ok (summary ∷ summaries)

  -- The two kinds that wrap instructions; the authority is their first account.
  summarize_spend :
      PhygitalWalletInstruction
      → List DetailRow
      → List String
      → Bytes
      → Result ParsedInstructionSummary
  summarize_spend kind details accounts bytes = do
    token ← present (token_account kind accounts)
    authority ← present (get_elem? accounts 0)
    compact ← present (texts.decode_execute kind bytes)
    remaining ← present (slice_execute_remaining_accounts kind accounts)
    inner ← summarize_inner compact remaining
    ok (record {
      kind = kind;
      authority = some authority;
      phygital_token = some token;
      inner = some inner;
      details = details;
    })

  -- The kinds that wrap none, with the authority first or with none.
  summarize_plain :
      PhygitalWalletInstruction
      → Bool
      → Option (List DetailRow)
      → List String
      → Bytes
      → Result ParsedInstructionSummary
  summarize_plain kind owned details accounts bytes = do
    token ← present (token_account kind accounts)
    authority ← present (get_elem? accounts 0)
    present (if texts.decodes kind bytes then some tt else none)
    rows ← present details
    ok (record {
      kind = kind;
      authority = if owned then some authority else none;
      phygital_token = some token;
      inner = none;
      details = rows;
    })

  summarize : PhygitalWalletInstruction → List String → Bytes → Result ParsedInstructionSummary
  summarize execute_with_authority = summarize_spend execute_with_authority []
  summarize execute_with_authority_using_policies =
      summarize_spend execute_with_authority_using_policies (
        record { label = "Note"; value = "Owner spend with on-chain wallet policies applied" } ∷ [])
  summarize clear_authority =
      summarize_plain clear_authority true (
        some
          (record { label = "Effect"; value = "Removes the owner key from this accessory" } ∷ []))
  summarize set_wallet_policy = λ accounts bytes.
      summarize_plain set_wallet_policy true (texts.describe_wallet_policy bytes) accounts bytes
  summarize clear_wallet_policy = summarize_plain clear_wallet_policy true (
      some (
        record { label = "Effect"; value = "Deletes spend caps and program permission overrides" }
        ∷ []))
  summarize set_authority = summarize_plain set_authority false (some [])
  summarize execute = summarize_plain execute false (some [])

  abbrev or_empty {ℓ} : {A : Type ℓ} → Option (List A) → List A
  or_empty none = []
  or_empty (some xs) = xs

  unfoldable pub parse_instruction : Instruction → Result ParsedInstructionSummary
  unfolding summarize summarize_spend summarize_plain summarize_inner summarize_one account_list
  parse_instruction ix = do
    kind ← present (identify (or_empty ix.data_bytes))
    summarize kind (or_empty ix.accounts) (or_empty ix.data_bytes)

  abbrev is_set_authority : PhygitalWalletInstruction → Bool
  is_set_authority set_authority = true
  is_set_authority _ = false

  -- The second loop of `previewPolicy`: `none` is a rejection.
  pub summaries_of : List Instruction → Option (List ParsedInstructionSummary)
  summaries_of [] = some []
  summaries_of (ix ∷ ixs) =
      let rest = summaries_of ixs in
      elim (parse_instruction ix) [
        | err _ ↦ none
        | ok summary ↦
            if is_set_authority summary.kind
            then none
            else elim rest [ none ↦ none | some summaries ↦ some (summary ∷ summaries) ]
      ]

  abbrev is_foreign : Instruction → Bool
  is_foreign ix = not (ix.program_address == phygital_wallet_program_address)

  first_authority : List ParsedInstructionSummary → String
  first_authority [] = ""
  first_authority (s ∷ ss) = elim s.authority [
    | none ↦ first_authority ss
    | some authority ↦ authority
  ]

  unfoldable pub preview_policy : List Instruction → PolicyResult
  unfolding summaries_of first_authority
  preview_policy [] = refused policy_rejected
  preview_policy (ix ∷ ixs) =
      if any is_foreign (ix ∷ ixs)
      then refused policy_rejected
      else elim (summaries_of (ix ∷ ixs)) [
        | none ↦ refused policy_rejected
        | some summaries ↦
            accepted
              (record { wallet_address = first_authority summaries; instructions = summaries })
      ]

  abbrev is_stranger : String → ParsedInstructionSummary → Bool
  is_stranger owner s = elim s.authority [
    | none ↦ false
    | some authority ↦ not (authority == owner)
  ]

  -- The owner's address is the text of the key.
  owned : String → List String → TransactionSummary → PolicyResult
  owned owner signers summary =
      if not (any (λ x. x == owner) signers)
      then refused wallet_mismatch
      else if any (is_stranger owner) summary.instructions
      then refused policy_rejected
      else accepted (record { wallet_address = owner; instructions = summary.instructions })

  unfoldable pub evaluate_policy : List Instruction → List String → String → PolicyResult
  unfolding owned
  evaluate_policy instructions signers owner = elim (preview_policy instructions) [
    | refused code ↦ refused code
    | accepted summary ↦ owned owner signers summary
  ]
