-- ===== src/Sdk/Compile.antt =====
-- packages/js/phygital-wallet/src/wallet/compile.ts: instructions compiled to the compact format of
-- `execute`. `AccountRole`, a numeric enum of `@solana/kit`, and its operations are the record
-- `Roles`. Beside the list of accounts the code keeps a Map from an address to its index.
mod Table
mod Accounts
mod RoundTrip
mod Flags
mod Privileges
pub mod Tests
use phygital_wallet.Common.{
  ℕ, ◌%◌, String, ◌<>◌, ◌==◌, Bool, not, ◌||◌, Option, none, some, List, [], ◌∷◌, ◌++◌, map, Bytes,
  get_elem?, set, length, any, eqb, if◌then◌else◌,
}
use phygital_wallet.Errors.{Result, ok, err, plain_error, ◌>>=◌}
use phygital_wallet.Sdk.{CompactInstruction, phygital_wallet_program_address}

pub record Roles : Type 0 where
  pub readonly : ℕ
  pub merge : ℕ → ℕ → ℕ
  pub is_signer : ℕ → Bool
  pub is_writable : ℕ → Bool
  pub to_non_signer : ℕ → ℕ
  pub to_signer : ℕ → ℕ
  pub to_writable : ℕ → ℕ

pub record AccountMeta : Type 0 where
  pub address : String
  pub role : ℕ

-- An instruction of `@solana/kit`, with the roles of its accounts.
pub record KitInstruction : Type 0 where
  pub program_address : String
  pub accounts : Option (List AccountMeta)
  pub data_bytes : Option Bytes

pub record Remaining : Type 0 where
  pub accounts : List AccountMeta
  pub index_by_address : List (String × ℕ)

pub record Compiled : Type 0 where
  pub remaining_accounts : List AccountMeta
  pub compact_instructions : List CompactInstruction

-- `Map.get`
abbrev pub map_get : List (String × ℕ) → String → Option ℕ
map_get [] key = none
map_get ((k, v) ∷ m) key = if k == key then some v else map_get m key

abbrev pub accounts_of : KitInstruction → List AccountMeta
accounts_of ix = elim ix.accounts [ none ↦ [] | some accounts ↦ accounts ]

abbrev pub data_of : KitInstruction → Bytes
data_of ix = elim ix.data_bytes [ none ↦ [] | some bytes ↦ bytes ]

abbrev pub empty_table : Remaining
empty_table = record { accounts = []; index_by_address = [] }

-- `new Set(xs).has(a)`
abbrev pub has : List String → String → Bool
has xs a = any (λ x. x == a) xs

pub denied_program : String → String → Bool
denied_program token_program program =
    program == phygital_wallet_program_address || program == token_program

module _ (k : Roles) where
  -- The role of an account that is asked for again. An index that the list lacks is a TypeError.
  merge_at : Remaining → ℕ → AccountMeta → Result (Remaining × ℕ)
  merge_at st existing meta = elim (get_elem? st.accounts existing) [
    | none ↦ err (plain_error "Cannot read properties of undefined (reading 'role')")
    | some current ↦
        let merged = k.merge current.role meta.role in
        if not (eqb merged current.role)
        then ok (
          record st {
            accounts =
                set st.accounts existing (record { address = current.address; role = merged });
          },
          existing,
        )
        else ok (st, existing)
  ]

  pub get_or_insert_remaining_account : Remaining → AccountMeta → Result (Remaining × ℕ)
  unfolding merge_at
  get_or_insert_remaining_account st meta = elim (map_get st.index_by_address meta.address) [
    | some existing ↦ merge_at st existing meta
    | none ↦
        let index = length st.accounts in
        ok (
          record {
            accounts = st.accounts ++ meta ∷ [];
            index_by_address = st.index_by_address ++ (meta.address, index) ∷ [];
          },
          index,
        )
  ]

  pub downgrade_wallet_signer_role : String → AccountMeta → AccountMeta
  downgrade_wallet_signer_role wallet_pda meta =
      if not (meta.address == wallet_pda) || not (k.is_signer meta.role)
      then meta
      else record { address = meta.address; role = k.to_non_signer meta.role }

  pub elevate_one : List String → List String → AccountMeta → AccountMeta
  elevate_one writable signers meta =
      let signed = if has signers meta.address then k.to_signer meta.role else meta.role in
      let role = if has writable meta.address then k.to_writable signed else signed in
      if eqb role meta.role then meta else record { address = meta.address; role = role }

  -- With no address to elevate the code copies the list.
  pub elevate_remaining_for_execute_challenge :
      List AccountMeta → List String → List String → List AccountMeta
  unfolding elevate_one
  elevate_remaining_for_execute_challenge remaining [] [] = remaining
  elevate_remaining_for_execute_challenge remaining (w ∷ ws) signers =
      map (elevate_one (w ∷ ws) signers) remaining
  elevate_remaining_for_execute_challenge remaining [] (s ∷ ss) =
      map (elevate_one [] (s ∷ ss)) remaining

  -- The loop over the accounts of an instruction: the table and their indexes.
  pub compile_accounts : String → Remaining → List AccountMeta → Result (Remaining × List ℕ)
  compile_accounts wallet_pda st [] = ok (st, [])
  compile_accounts wallet_pda st (account ∷ accounts) = do
    (st', index) ←
        get_or_insert_remaining_account st (downgrade_wallet_signer_role wallet_pda account)
    (st'', indexes) ← compile_accounts wallet_pda st' accounts
    ok (st'', index ∷ indexes)

module _ (token_program : String) (k : Roles) where
  pub compile_one : String → Remaining → KitInstruction → Result (Remaining × CompactInstruction)
  unfolding denied_program
  compile_one wallet_pda st instruction =
      if denied_program token_program instruction.program_address
      then err (
          plain_error (
            "Inner CPI to " <> instruction.program_address <> " is not allowed for wallet execute"))
      else do
        (st', program_index) ←
            get_or_insert_remaining_account k st
              (record { address = instruction.program_address; role = k.readonly })
        (st'', indexes) ← compile_accounts k wallet_pda st' (accounts_of instruction)
        ok (
          st'',
          record {
            program_id_index = program_index;
            account_indexes = map (λ i. i % 256) indexes;
            data_bytes = data_of instruction;
          },
        )

  pub compile_all :
      String → Remaining → List KitInstruction → Result (Remaining × List CompactInstruction)
  compile_all wallet_pda st [] = ok (st, [])
  compile_all wallet_pda st (ix ∷ ixs) = do
    (st', compact) ← compile_one wallet_pda st ix
    (st'', compacts) ← compile_all wallet_pda st' ixs
    ok (st'', compact ∷ compacts)

  pub compile_wallet_instructions : List KitInstruction → String → Result Compiled
  unfolding compile_all elevate_remaining_for_execute_challenge
  compile_wallet_instructions [] wallet_pda =
      err (plain_error "At least one inner instruction is required")
  compile_wallet_instructions (ix ∷ ixs) wallet_pda = do
    (st, compact) ← compile_all wallet_pda empty_table (ix ∷ ixs)
    ok (record {
      remaining_accounts =
          elevate_remaining_for_execute_challenge k st.accounts (wallet_pda ∷ []) [];
      compact_instructions = compact;
    })
