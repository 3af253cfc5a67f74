-- ===== src/Api/Fees.antt =====
-- workers/api/src/fees: the fee credit and debit of a confirmed transaction (subscribe-fee-tx.ts).
-- Here is what is read from the transaction; Apply is the call of the ledger. Codecs, JSON.parse and
-- the generated data decoders are the record `Codec`.
pub mod Reads
pub mod Apply
use Prim.Native.String
use phygital_wallet.Common.{
  ◌≡◌, refl, ℕ, zero, suc, ◌-◌, String, ◌==◌, Bool, true, false, not, ◌&&◌, Option, none, some,
  List, [], ◌∷◌, ◌++◌, map, Bytes, ℤ, pos, ltb, eqb, any, trim, truthy, get_elem?, length, is_none,
  if◌then◌else◌,
}
use phygital_wallet.Sdk.{
  PhygitalWalletInstruction, execute, execute_with_authority, identify, token_account,
  phygital_wallet_program_address,
}

pub data AccountKey : Type 0 where
  key_text : String → AccountKey
  key_object : Option String → AccountKey

pub record CompiledIx : Type 0 where
  pub program_id_index : Option ℕ
  pub accounts : Option (List ℕ)
  pub data_text : Option String

pub record LoadedAddresses : Type 0 where
  pub writable : Option (List String)
  pub readonly : Option (List String)

-- `error` is `some false` for the literal `false`, and `some true` for any other value that is there.
pub record TxMeta : Type 0 where
  pub error : Option Bool
  pub pre_balances : Option (List ℕ)
  pub post_balances : Option (List ℕ)
  pub loaded_addresses : Option LoadedAddresses
  pub inner_instructions : Option (List (Option (List CompiledIx)))

-- `transaction.signatures`, and `accountKeys` and `instructions` of `transaction.message`.
pub record ConfirmedTx : Type 0 where
  pub meta : Option TxMeta
  pub signatures : Option (List String)
  pub account_keys : Option (List AccountKey)
  pub instructions : Option (List CompiledIx)

pub record SubscribeTxResult : Type 0 where
  pub signature : Option String
  pub transaction : Option ConfirmedTx

-- What JSON.parse gives: an array, of strings and other values, or another document.
pub data PubkeyJson : Type 0 where
  json_array : List (Option String) → PubkeyJson
  json_other : PubkeyJson

pub record Codec : Type 0 where
  pub base58_bytes : String → Option Bytes
  pub base64_bytes : String → Option Bytes
  pub address : String → Option String
  pub decodes : PhygitalWalletInstruction → Bytes → Bool
  pub parse_json : String → Option PubkeyJson

pub record Env : Type 0 where
  pub top_up_accumulator : Option String
  pub default_fee_payer_pubkeys : Option String

infixl 5 ◌>>=◌
abbrev pub ◌>>=◌ {ℓ κ} : {A : Type ℓ} {B : Type κ} → Option A → (A → Option B) → Option B
none >>= next = none
some a >>= next = next a

-- Where a chain gives a value, its first call gave one.
pub >>=-eq-some {ℓ κ} :
    {A : Type ℓ} {B : Type κ} (o : Option A) (next : A → Option B) {b : B}
    → (o >>= next) ≡ some b
    → (a : A) × (o ≡ some a) × (next a ≡ some b)
>>=-eq-some none next e = cc
>>=-eq-some (some a) next e = (a, refl, e)

abbrev pub or_empty {ℓ} : {A : Type ℓ} → Option (List A) → List A
or_empty none = []
or_empty (some xs) = xs

abbrev pub trimmed_text : Option String → String
trimmed_text none = ""
trimmed_text (some s) = trim s

-- `.filter(Boolean)` of texts that may be absent
abbrev pub texts : List (Option String) → List String
texts [] = []
texts (o ∷ os) = elim (truthy o) [ none ↦ texts os | some s ↦ s ∷ texts os ]

pub account_pubkey : AccountKey → Option String
account_pubkey (key_text s) = some s
account_pubkey (key_object pubkey) = pubkey

abbrev pub loaded : Option TxMeta → (LoadedAddresses → Option (List String)) → List String
loaded none side = []
loaded (some meta) side = elim meta.loaded_addresses [
  | none ↦ []
  | some l ↦ texts (map some (or_empty (side l)))
]

pub resolve_account_keys : ConfirmedTx → List String
unfolding account_pubkey
resolve_account_keys tx =
    texts (map account_pubkey (or_empty tx.account_keys))
    ++ (loaded tx.meta (λ l. l.writable) ++ loaded tx.meta (λ l. l.readonly))

abbrev pub index_of : List String → String → Option ℕ
index_of [] x = none
index_of (k ∷ ks) x =
    let rest = index_of ks x in
    if k == x then some 0 else elim rest [ none ↦ none | some i ↦ some (suc i) ]

abbrev pub balance_at : Option (List ℕ) → ℕ → Option ℕ
balance_at balances i = get_elem? (or_empty balances) i

-- The lamports before and after; where an index or a balance is missing the source's change is 0.
pub native_change : List String → Option TxMeta → String → ℕ × ℕ
native_change keys none account = (0, 0)
native_change keys (some meta) account = elim (index_of keys account) [
  | none ↦ (0, 0)
  | some i ↦ elim (balance_at meta.pre_balances i) [
    | none ↦ (0, 0)
    | some pre ↦ elim (balance_at meta.post_balances i) [ none ↦ (0, 0) | some post ↦ (pre, post) ]
  ]
]

pub record KitIx : Type 0 where
  pub program_address : String
  pub data_bytes : Bytes
  pub accounts : List String

abbrev flat_map_ixs : List (Option (List CompiledIx)) → List CompiledIx
flat_map_ixs [] = []
flat_map_ixs (g ∷ gs) = or_empty g ++ flat_map_ixs gs

abbrev inner_of : Option TxMeta → List CompiledIx
inner_of none = []
inner_of (some meta) = flat_map_ixs (or_empty meta.inner_instructions)

pub all_compiled_ixs : ConfirmedTx → List CompiledIx
all_compiled_ixs tx = or_empty tx.instructions ++ inner_of tx.meta

module _ (c : Codec) where
  pub decode_ix_data : Option String → Option Bytes
  decode_ix_data raw =
      let trimmed = trimmed_text raw in
      if trimmed == ""
      then none
      else elim (c.base58_bytes trimmed) [ some bytes ↦ some bytes | none ↦ c.base64_bytes trimmed ]

  pub compiled_to_kit_ix : CompiledIx → List String → Option KitIx
  unfolding decode_ix_data
  compiled_to_kit_ix ix keys = do
    program_id_index ← ix.program_id_index
    program_id ← truthy (get_elem? keys program_id_index)
    data_bytes ← decode_ix_data ix.data_text
    some (record {
      program_address = program_id;
      data_bytes = data_bytes;
      accounts = texts (map (get_elem? keys) (or_empty ix.accounts));
    })

  pub try_parse_address : String → Option String
  try_parse_address value = if trim value == "" then none else c.address (trim value)

  -- The token that one variant's parser gives, if it is an address; `none` also where it throws.
  pub execute_token : PhygitalWalletInstruction → KitIx → Option String
  unfolding try_parse_address
  execute_token kind ix = do
    token ← token_account kind ix.accounts
    if not (c.decodes kind ix.data_bytes)
        then none
        else if is_none (try_parse_address token)
        then none
        else some token

  pub credited_or_debited : PhygitalWalletInstruction → KitIx → Option String
  unfolding execute_token
  credited_or_debited execute ix = execute_token execute ix
  credited_or_debited execute_with_authority ix = execute_token execute_with_authority ix
  credited_or_debited _ ix = none

  -- One round of the loop over the instructions.
  pub execute_account : CompiledIx → List String → Option String
  unfolding compiled_to_kit_ix credited_or_debited
  execute_account ix keys = do
    kit_ix ← compiled_to_kit_ix ix keys
    if not (kit_ix.program_address == phygital_wallet_program_address)
        then none
        else identify kit_ix.data_bytes >>= λ id. credited_or_debited id kit_ix

  pub first_execute_account : List CompiledIx → List String → Option String
  unfolding execute_account
  first_execute_account [] keys = none
  first_execute_account (ix ∷ ixs) keys = elim (execute_account ix keys) [
    | some token ↦ some token
    | none ↦ first_execute_account ixs keys
  ]

  pub find_execute_accounts : ConfirmedTx → List String → Option String
  unfolding first_execute_account all_compiled_ixs
  find_execute_accounts tx keys = first_execute_account (all_compiled_ixs tx) keys
