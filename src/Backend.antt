-- ===== src/Backend.antt =====
-- workers/api-signer/src/backend/secrets.ts: the fee payers' keys. JSON, base58, base64 and Ed25519
-- are the record `KeyCodec`.
pub mod Keys
mod Tests
use text.Mathlib.Text.{starts_with}
use phygital_wallet.Common.{
  ℕ, String, Bool, true, false, not, ◌||◌, Option, none, some, List, [], ◌∷◌, ◌++◌, Bytes, take,
  length, leb, ltb, eqb, ◌==◌, if◌then◌else◌, trim, select_first,
}
use phygital_wallet.Errors.{Result, ok, err, coded, plain_error, ◌>>=◌, ◌>>◌}

-- A member's value: a string, or anything else.
pub data JsonValue : Type 0 where
  json_string : String → JsonValue
  other_value : JsonValue

-- A parsed document: an object with its members, or anything else.
pub data Json : Type 0 where
  object : List (String × JsonValue) → Json
  other : Json

pub record KeyCodec : Type 0 where
  pub parse_json : String → Option Json
  pub parse_numbers : String → Option Bytes
  pub base58_bytes : String → Option Bytes
  pub base58_text : Bytes → String
  pub base64_text : Bytes → String
  pub public_key : Bytes → Bytes
  pub ed25519_sign : Bytes → Bytes → Bytes

abbrev pub max_fee_payer_keys : ℕ
max_fee_payer_keys = 8

pub record Key : Type 0 where
  pub pubkey : String
  pub seed : Bytes

pub record FeePayerSigner : Type 0 where
  pub by_pubkey : List Key

abbrev has_pubkey : String → Key → Bool
has_pubkey pubkey key = key.pubkey == pubkey

abbrev misconfigured {ℓ} : {A : Type ℓ} → String → Result A
misconfigured message = err (coded message "signer_misconfigured")

module _ (codec : KeyCodec) where
  abbrev decoded {ℓ} : {A : Type ℓ} → Option A → Result A
  decoded none = err (plain_error "invalid key encoding")
  decoded (some a) = ok a

  checked_seed : Bytes → Result Bytes
  checked_seed secret_key =
      let seed = if leb 64 (length secret_key) then take 32 secret_key else secret_key in
      if not (eqb (length seed) 32)
      then misconfigured "Fee-payer secret must be a 32-byte seed or 64-byte keypair"
      else ok seed

  secret_key_of : String → Result Bytes
  secret_key_of raw =
      if starts_with (trim raw) "["
      then decoded (codec.parse_numbers raw)
      else decoded (codec.base58_bytes (trim raw))

  unfoldable pub parse_seed : String → Result Bytes
  unfolding secret_key_of checked_seed
  parse_seed raw = secret_key_of raw >>= checked_seed

  pub add_key : String → JsonValue → Result Key
  add_key pubkey other_value = misconfigured "FEE_PAYER_SECRET_KEYS entry must be a string"
  add_key pubkey (json_string value) =
      if trim value == "" then misconfigured "FEE_PAYER_SECRET_KEYS entry must be a string" else do
        seed ← parse_seed value
        if not (codec.base58_text (codec.public_key seed) == pubkey)
            then misconfigured "FEE_PAYER_SECRET_KEYS pubkey mismatch"
            else ok (record { pubkey = pubkey; seed = seed })

  -- The loop over the entries.
  pub add_keys : List (String × JsonValue) → Result (List Key)
  add_keys [] = ok []
  add_keys ((pubkey, value) ∷ entries) = do
    key ← add_key pubkey value
    keys ← add_keys entries
    ok (key ∷ keys)

  from_json : Json → Result FeePayerSigner
  from_json other = misconfigured "FEE_PAYER_SECRET_KEYS must be a JSON object map"
  from_json (object []) = misconfigured "FEE_PAYER_SECRET_KEYS must include at least one key"
  from_json (object (entry ∷ entries)) =
      if ltb max_fee_payer_keys (length (entry ∷ entries))
      then misconfigured "FEE_PAYER_SECRET_KEYS supports at most 8 keys"
      else do keys ← add_keys (entry ∷ entries); ok (record { by_pubkey = keys })

  -- The constructor.
  unfoldable pub new_fee_payer_signer : Option String → Result FeePayerSigner
  unfolding add_key add_keys from_json parse_seed trim
  new_fee_payer_signer none = misconfigured "FEE_PAYER_SECRET_KEYS is not configured"
  new_fee_payer_signer (some secret_keys_json) =
      if trim secret_keys_json == ""
      then misconfigured "FEE_PAYER_SECRET_KEYS is not configured"
      else elim (codec.parse_json secret_keys_json) [
        | none ↦ misconfigured "FEE_PAYER_SECRET_KEYS must be valid JSON"
        | some parsed ↦ from_json parsed
      ]

  unfoldable pub can_sign : FeePayerSigner → String → Bool
  can_sign signer fee_payer = elim (select_first (has_pubkey fee_payer) signer.by_pubkey) [
    | none ↦ false
    | some _ ↦ true
  ]

  unfoldable pub sign : FeePayerSigner → String → Bytes → Result String
  sign signer fee_payer message_bytes =
      elim (select_first (has_pubkey fee_payer) signer.by_pubkey) [
        | none ↦
            err (
              coded "Transaction fee payer does not match this signing service"
                "fee_payer_mismatch")
        | some key ↦ ok (codec.base64_text (codec.ed25519_sign message_bytes key.seed))
      ]
