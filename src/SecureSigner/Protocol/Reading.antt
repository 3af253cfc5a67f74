-- ===== src/SecureSigner/Protocol/Reading.antt =====
-- protocol.ts: what each test of a message's fields asks for.
use phygital_wallet.Common.{
  ℕ, ◌<◌, ◌≤◌, String, ◌≡◌, ◌↔◌, refl, true, false, Option, none, some, List, [], ◌∷◌, All, In,
  ◌==◌, eq_iff, arith,
}
use phygital_wallet.SecureSigner.Blob.{max_blob_bytes}
use phygital_wallet.SecureSigner.Protocol.{
  Field, text, finite, absent, other_value, Fields, RequestType, sign_transaction,
  export_private_key, auth_start, AuthMode, create, unlock, RequestBody, signs, exports, starts,
  InboundRequest, protocol_version, max_credential_id_bytes, max_tx_bytes, b64_cap, utf16_length,
  is_request_id, get_field, type_name, allowed_keys, has_key, keys_allowed, request_type, id_of,
  is_version, timestamp_of, valid_string, optional_mode, optional_string, auth_body, body_of,
}

-- A string that is there, not empty and not too long.
abbrev pub Fits : Field → ℕ → String → Type 0
Fits f max s = (f ≡ text s) × (0 < utf16_length s) × (utf16_length s ≤ max)

abbrev pub FitsOrAbsent : Field → ℕ → Option String → Type 0
FitsOrAbsent f max none = f ≡ absent
FitsOrAbsent f max (some s) = Fits f max s

abbrev pub mode_name : AuthMode → String
mode_name create = "create"
mode_name unlock = "unlock"

abbrev pub ModeOrAbsent : Field → Option AuthMode → Type 0
ModeOrAbsent f none = f ≡ absent
ModeOrAbsent f (some mode) = f ≡ text (mode_name mode)

-- The fields of each type of request.
abbrev pub Carries : RequestType → Fields → RequestBody → Type 0
Carries sign_transaction fields (signs tx) =
    Fits (get_field "transaction" fields) (b64_cap max_tx_bytes) tx
Carries sign_transaction fields exports = ⊥
Carries sign_transaction fields (starts _ _ _) = ⊥
Carries export_private_key fields (signs _) = ⊥
Carries export_private_key fields exports = Unit
Carries export_private_key fields (starts _ _ _) = ⊥
Carries auth_start fields (signs _) = ⊥
Carries auth_start fields exports = ⊥
Carries auth_start fields (starts mode credential_id attestation) =
    ModeOrAbsent (get_field "authMode" fields) mode
    × FitsOrAbsent (get_field "credentialId" fields) (b64_cap max_credential_id_bytes) credential_id
    × FitsOrAbsent (get_field "webauthnAttestationObject" fields) (b64_cap max_blob_bytes)
        attestation

abbrev pub IsRequest : Fields → RequestType → InboundRequest → Type 0
IsRequest fields kind r =
    (get_field "protocolVersion" fields ≡ finite r.protocol_version)
    × (r.protocol_version ≡ protocol_version)
    × (get_field "type" fields ≡ text (type_name kind))
    × (get_field "requestId" fields ≡ text r.request_id)
    × (is_request_id r.request_id ≡ true)
    × All (λ (key, v). In key (allowed_keys kind)) fields
    × (get_field "timestamp" fields ≡ finite r.timestamp)
    × Carries kind fields r.body

pub is_version_iff : (f : Field) → (is_version f ≡ true) ↔ (f ≡ finite protocol_version)
is_version_iff (text s) = ground arith
is_version_iff (finite n) = ground arith
is_version_iff absent = ground arith
is_version_iff other_value = ground arith

pub id_of_iff :
    (f : Field) (s : String) → (id_of f ≡ some s) ↔ ((f ≡ text s) × (is_request_id s ≡ true))
id_of_iff (text t) s = ground arith
id_of_iff (finite n) s = ground arith
id_of_iff absent s = ground arith
id_of_iff other_value s = ground arith

pub timestamp_of_iff : (f : Field) (n : ℕ) → (timestamp_of f ≡ some n) ↔ (f ≡ finite n)
timestamp_of_iff (text t) n = ground arith
timestamp_of_iff (finite m) n = ground arith
timestamp_of_iff absent n = ground arith
timestamp_of_iff other_value n = ground arith

other_text : (s t u : String) → (t == u) ≡ false → s ≡ t → (s == u) ≡ false
other_text s t u apart e = rw e apart

pub request_type_iff :
    (s : String) (kind : RequestType) → (request_type s ≡ some kind) ↔ (s ≡ type_name kind)
unfolding request_type
request_type_iff s sign_transaction = ground (arith, eq_iff s "SIGN_TRANSACTION")
request_type_iff s export_private_key = ground (
  arith,
  eq_iff s "SIGN_TRANSACTION",
  eq_iff s "EXPORT_PRIVATE_KEY",
  other_text s "EXPORT_PRIVATE_KEY" "SIGN_TRANSACTION" refl,
)
request_type_iff s auth_start = ground (
  arith,
  eq_iff s "SIGN_TRANSACTION",
  eq_iff s "EXPORT_PRIVATE_KEY",
  eq_iff s "AUTH_START",
  other_text s "AUTH_START" "SIGN_TRANSACTION" refl,
  other_text s "AUTH_START" "EXPORT_PRIVATE_KEY" refl,
)

valid_string_iff : (f : Field) (max : ℕ) (s : String) → (valid_string f max ≡ some s) ↔ Fits f max s
unfolding valid_string
valid_string_iff (text t) max s = ground arith
valid_string_iff (finite m) max s = ground arith
valid_string_iff absent max s = ground arith
valid_string_iff other_value max s = ground arith

optional_mode_iff :
    (f : Field) (mode : Option AuthMode) → (optional_mode f ≡ some mode) ↔ ModeOrAbsent f mode
unfolding optional_mode
optional_mode_iff (text t) none = ground arith
optional_mode_iff (text t) (some create) = ground (arith, eq_iff t "create")
optional_mode_iff (text t) (some unlock) =
    ground (arith, eq_iff t "create", eq_iff t "unlock", other_text t "unlock" "create" refl)
optional_mode_iff (finite m) none = ground arith
optional_mode_iff (finite m) (some mode) = ground arith
optional_mode_iff absent none = ground arith
optional_mode_iff absent (some mode) = ground arith
optional_mode_iff other_value none = ground arith
optional_mode_iff other_value (some mode) = ground arith

optional_string_iff :
    (f : Field) (max : ℕ) (o : Option String)
    → (optional_string f max ≡ some o) ↔ FitsOrAbsent f max o
unfolding optional_string valid_string
optional_string_iff (text t) max none = ground arith
optional_string_iff (text t) max (some s) = ground arith
optional_string_iff (finite m) max none = ground arith
optional_string_iff (finite m) max (some s) = ground arith
optional_string_iff absent max none = ground arith
optional_string_iff absent max (some s) = ground arith
optional_string_iff other_value max none = ground arith
optional_string_iff other_value max (some s) = ground arith

module _ (fields : Fields) where
  pub body_of_iff :
      (kind : RequestType) (body : RequestBody)
      → (body_of kind fields ≡ some body) ↔ Carries kind fields body
  unfolding body_of auth_body
  body_of_iff sign_transaction (signs tx) =
      ground (arith, valid_string_iff (get_field "transaction" fields) (b64_cap max_tx_bytes) tx)
  body_of_iff sign_transaction exports = ground arith
  body_of_iff sign_transaction (starts mode credential_id attestation) = ground arith
  body_of_iff export_private_key (signs tx) = ground arith
  body_of_iff export_private_key exports = ground arith
  body_of_iff export_private_key (starts mode credential_id attestation) = ground arith
  body_of_iff auth_start (signs tx) = ground arith
  body_of_iff auth_start exports = ground arith
  body_of_iff auth_start (starts mode credential_id attestation) = ground (
    arith,
    optional_mode_iff (get_field "authMode" fields) mode,
    optional_string_iff (get_field "credentialId" fields) (b64_cap max_credential_id_bytes)
        credential_id,
    optional_string_iff (get_field "webauthnAttestationObject" fields) (b64_cap max_blob_bytes)
        attestation,
  )

has_key_iff : (keys : List String) (key : String) → (has_key keys key ≡ true) ↔ In key keys
has_key_iff [] key = ground arith
has_key_iff (k ∷ keys) key = ground (arith, has_key_iff keys key, eq_iff k key, eq_iff key k)

pub keys_allowed_iff :
    (kind : RequestType) (fields : Fields)
    → (keys_allowed kind fields ≡ true) ↔ All (λ (key, v). In key (allowed_keys kind)) fields
keys_allowed_iff kind [] = ground arith
keys_allowed_iff kind ((key, v) ∷ fields) =
    ground (arith, has_key_iff (allowed_keys kind) key, keys_allowed_iff kind fields)
