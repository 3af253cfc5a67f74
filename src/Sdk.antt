-- ===== src/Sdk.antt =====
-- packages/js/phygital-wallet/src: the wallet program's instructions as the SDK identifies and
-- parses them (generated/programs/phygitalWallet.ts, generated/instructions,
-- wallet/execute-remaining.ts). The roles of accounts are not read here and not modelled. How the
-- data behind a discriminator is decoded is a parameter.
pub mod Compile
pub mod Challenges
use phygital_wallet.Common.{
  ℕ, String, Bool, Option, none, some, List, [], ◌∷◌, Bytes, bytes_eq, take, drop, get_elem?,
  length, ltb, if◌then◌else◌,
}

pub record Instruction : Type 0 where
  pub program_address : String
  pub accounts : Option (List String)
  pub data_bytes : Option Bytes

pub record CompactInstruction : Type 0 where
  pub program_id_index : ℕ
  pub account_indexes : List ℕ
  pub data_bytes : Bytes

pub data PhygitalWalletInstruction : Type 0 where
  clear_authority clear_wallet_policy execute execute_with_authority : PhygitalWalletInstruction
  execute_with_authority_using_policies set_authority set_wallet_policy : PhygitalWalletInstruction

abbrev pub phygital_wallet_program_address : String
phygital_wallet_program_address = "Fjbi9JrRAmSBdxQxbkcxYDp6JUwnLbFhU2GsieWQBLSg"

-- `containsBytes(data, discriminator, 0)`
abbrev starts_with_bytes : Bytes → Bytes → Bool
starts_with_bytes bytes prefix = bytes_eq (take (length prefix) bytes) prefix

-- `none` is the SDK's thrown SolanaError.
unfoldable pub identify : Bytes → Option PhygitalWalletInstruction
identify bytes =
    if starts_with_bytes bytes (129 ∷ 249 ∷ 41 ∷ 111 ∷ 187 ∷ 52 ∷ 199 ∷ 214 ∷ [])
    then some clear_authority
    else if starts_with_bytes bytes (226 ∷ 224 ∷ 82 ∷ 15 ∷ 201 ∷ 69 ∷ 123 ∷ 12 ∷ [])
    then some clear_wallet_policy
    else if starts_with_bytes bytes (130 ∷ 221 ∷ 242 ∷ 154 ∷ 13 ∷ 193 ∷ 189 ∷ 29 ∷ [])
    then some execute
    else if starts_with_bytes bytes (249 ∷ 39 ∷ 107 ∷ 35 ∷ 244 ∷ 181 ∷ 161 ∷ 142 ∷ [])
    then some execute_with_authority
    else if starts_with_bytes bytes (237 ∷ 150 ∷ 126 ∷ 114 ∷ 227 ∷ 5 ∷ 73 ∷ 250 ∷ [])
    then some execute_with_authority_using_policies
    else if starts_with_bytes bytes (133 ∷ 250 ∷ 37 ∷ 21 ∷ 110 ∷ 163 ∷ 26 ∷ 121 ∷ [])
    then some set_authority
    else if starts_with_bytes bytes (246 ∷ 162 ∷ 84 ∷ 132 ∷ 73 ∷ 92 ∷ 217 ∷ 149 ∷ [])
    then some set_wallet_policy
    else none

-- How many accounts a parser asks for, and where it reads the token and the authority.
abbrev pub named_accounts : PhygitalWalletInstruction → ℕ
named_accounts clear_authority = 5
named_accounts clear_wallet_policy = 5
named_accounts execute = 6
named_accounts execute_with_authority = 5
named_accounts execute_with_authority_using_policies = 5
named_accounts set_authority = 8
named_accounts set_wallet_policy = 7

abbrev pub token_index : PhygitalWalletInstruction → ℕ
token_index clear_authority = 1
token_index clear_wallet_policy = 2
token_index execute = 0
token_index execute_with_authority = 1
token_index execute_with_authority_using_policies = 1
token_index set_authority = 1
token_index set_wallet_policy = 3

-- The token of a parsed instruction; `none` where the parser throws for want of accounts.
unfoldable pub token_account : PhygitalWalletInstruction → List String → Option String
token_account kind accounts =
    if ltb (length accounts) (named_accounts kind)
    then none
    else get_elem? accounts (token_index kind)

unfoldable pub execute_remaining_account_offset : PhygitalWalletInstruction → Option ℕ
execute_remaining_account_offset execute = some 6
execute_remaining_account_offset execute_with_authority = some 5
execute_remaining_account_offset execute_with_authority_using_policies = some 5
execute_remaining_account_offset _ = none

unfoldable pub slice_execute_remaining_accounts :
    PhygitalWalletInstruction → List String → Option (List String)
unfolding execute_remaining_account_offset
slice_execute_remaining_accounts kind accounts = elim (execute_remaining_account_offset kind) [
  | none ↦ none
  | some offset ↦ some (drop offset accounts)
]
