-- ===== src/SecureSigner/Protocol.antt =====
-- secure-signer/src/protocol.ts: which messages of the parent page are requests. A message is read
-- at the depth that the code reads it: an object's fields are strings, finite numbers, or other
-- values. The bytes of its JSON are an argument.
pub mod Reading
pub mod Accepts
mod Tests
use Prim.Native.Char.{Char, code}
use Prim.Native.String
use phygital_wallet.Common.{
  ℕ, ◌+◌, ◌*◌, ◌/◌, String, ◌==◌, Bool, true, false, not, ◌&&◌, ◌||◌, Option, none, some, List, [],
  ◌∷◌, ltb, leb, eqb, any, all, is_none, all_chars, truthy, if◌then◌else◌, map,
}
use phygital_wallet.SecureSigner.Blob.{max_blob_bytes}
use phygital_wallet.SecureSigner.{ErrorCode, invalid_message, unsupported_protocol}

-- `absent` is also a field that holds `undefined`.
pub data Field : Type 0 where
  text : String → Field
  finite : ℕ → Field
  absent : Field
  other_value : Field

abbrev pub Fields : Type 0
Fields = List (String × Field)

pub data Message : Type 0 where
  object : Fields → Message
  no_object : Message

pub data RequestType : Type 0 where
  sign_transaction export_private_key auth_start : RequestType

pub data AuthMode : Type 0 where
  create unlock : AuthMode

pub data RequestBody : Type 0 where
  signs : String → RequestBody
  exports : RequestBody
  starts : Option AuthMode → Option String → Option String → RequestBody

pub record InboundRequest : Type 0 where
  pub protocol_version : ℕ
  pub request_id : String
  pub timestamp : ℕ
  pub body : RequestBody

pub data ValidationResult : Type 0 where
  valid : InboundRequest → ValidationResult
  invalid : ErrorCode → Option String → ValidationResult

abbrev pub protocol_version : ℕ
protocol_version = 1

abbrev pub max_message_bytes : ℕ
max_message_bytes = 16384

abbrev pub max_credential_id_bytes : ℕ
max_credential_id_bytes = 256

abbrev pub max_tx_bytes : ℕ
max_tx_bytes = 4096

-- `Math.ceil((bytes * 4) / 3) + 4`
abbrev pub b64_cap : ℕ → ℕ
b64_cap bytes = (bytes * 4 + 2) / 3 + 4

-- JavaScript's length: the number of UTF-16 code units.
pub utf16_length : String → ℕ
utf16_length String.[] = 0
utf16_length (String.◌∷◌ c s) = (if ltb (code c) 0x10000 then 1 else 2) + utf16_length s

abbrev pub is_id_char : Char → Bool
is_id_char ch =
    let c = code ch in
    (leb 65 c && leb c 90)
    || (leb 97 c && leb c 122)
    || (leb 48 c && leb c 57)
    || eqb c 95
    || eqb c 45

-- `/^[A-Za-z0-9_-]{8,128}$/`
pub is_request_id : String → Bool
unfolding utf16_length
is_request_id s = all_chars is_id_char s && leb 8 (utf16_length s) && leb (utf16_length s) 128

abbrev pub get_field : String → Fields → Field
get_field key [] = absent
get_field key ((k, v) ∷ fields) = let rest = get_field key fields in if k == key then v else rest

abbrev pub type_name : RequestType → String
type_name sign_transaction = "SIGN_TRANSACTION"
type_name export_private_key = "EXPORT_PRIVATE_KEY"
type_name auth_start = "AUTH_START"

abbrev pub allowed_keys : RequestType → List String
allowed_keys sign_transaction =
    "type" ∷ "protocolVersion" ∷ "requestId" ∷ "timestamp" ∷ "transaction" ∷ []
allowed_keys export_private_key = "type" ∷ "protocolVersion" ∷ "requestId" ∷ "timestamp" ∷ []
allowed_keys auth_start =
    "type" ∷ "protocolVersion" ∷ "requestId" ∷ "timestamp" ∷ "authMode" ∷ "credentialId"
    ∷ "webauthnAttestationObject" ∷ []

abbrev pub has_key : List String → String → Bool
has_key [] key = false
has_key (k ∷ keys) key = k == key || has_key keys key

abbrev pub keys_allowed : RequestType → Fields → Bool
keys_allowed kind fields = all (λ (key, v). has_key (allowed_keys kind) key) fields

pub request_type : String → Option RequestType
request_type s =
    if s == type_name sign_transaction
    then some sign_transaction
    else if s == type_name export_private_key
    then some export_private_key
    else if s == type_name auth_start
    then some auth_start
    else none

abbrev pub type_of : Field → Option RequestType
type_of (text s) = request_type s
type_of (finite n) = none
type_of absent = none
type_of other_value = none

abbrev pub id_of : Field → Option String
id_of (text s) = if is_request_id s then some s else none
id_of (finite n) = none
id_of absent = none
id_of other_value = none

abbrev pub is_version : Field → Bool
is_version (text s) = false
is_version (finite n) = eqb n protocol_version
is_version absent = false
is_version other_value = false

abbrev pub timestamp_of : Field → Option ℕ
timestamp_of (text s) = none
timestamp_of (finite n) = some n
timestamp_of absent = none
timestamp_of other_value = none

-- `validString`
pub valid_string : Field → ℕ → Option String
unfolding utf16_length
valid_string (text s) max =
    if ltb 0 (utf16_length s) && leb (utf16_length s) max then some s else none
valid_string (finite n) max = none
valid_string absent max = none
valid_string other_value max = none

-- The fields of AUTH_START; `none` is a field that is refused.
pub optional_mode : Field → Option (Option AuthMode)
optional_mode (text s) =
    if s == "create" then some (some create) else if s == "unlock" then some (some unlock) else none
optional_mode (finite n) = none
optional_mode absent = some none
optional_mode other_value = none

abbrev or_refused : Option String → Option (Option String)
or_refused none = none
or_refused (some s) = some (some s)

pub optional_string : Field → ℕ → Option (Option String)
unfolding valid_string
optional_string absent max = some none
optional_string (text s) max = or_refused (valid_string (text s) max)
optional_string (finite n) max = none
optional_string other_value max = none

pub auth_body : Fields → Option RequestBody
unfolding optional_mode optional_string
auth_body fields = elim (optional_mode (get_field "authMode" fields)) [
  | none ↦ none
  | some mode ↦
      elim (optional_string (get_field "credentialId" fields) (b64_cap max_credential_id_bytes)) [
        | none ↦ none
        | some credential_id ↦
            elim (optional_string (get_field "webauthnAttestationObject" fields)
              (b64_cap max_blob_bytes)) [
                | none ↦ none
                | some attestation ↦ some (starts mode credential_id attestation)
              ]
      ]
]

pub body_of : RequestType → Fields → Option RequestBody
unfolding auth_body valid_string
body_of auth_start fields = auth_body fields
body_of sign_transaction fields =
    elim (valid_string (get_field "transaction" fields) (b64_cap max_tx_bytes)) [
      | none ↦ none
      | some tx ↦ some (signs tx)
    ]
body_of export_private_key fields = some exports

abbrev pub refused : Option String → ValidationResult
refused rid = invalid invalid_message rid

-- From the keys on, where the type and the request's id are read.
pub validate_fields : RequestType → String → Fields → ValidationResult
unfolding body_of
validate_fields kind rid fields =
    if not (keys_allowed kind fields)
    then refused (some rid)
    else elim (timestamp_of (get_field "timestamp" fields)) [
      | none ↦ refused (some rid)
      | some ts ↦ elim (body_of kind fields) [
        | none ↦ refused (some rid)
        | some body ↦ valid (record {
          protocol_version = protocol_version;
          request_id = rid;
          timestamp = ts;
          body = body;
        })
      ]
    ]

pub validate_object : Fields → ValidationResult
unfolding validate_fields is_request_id request_type
validate_object fields =
    let rid = id_of (get_field "requestId" fields) in
    if not (is_version (get_field "protocolVersion" fields))
    then invalid unsupported_protocol rid
    else elim (type_of (get_field "type" fields)) [
      | none ↦ refused rid
      | some kind ↦ elim rid [ none ↦ refused none | some id ↦ validate_fields kind id fields ]
    ]

pub validate_inbound : Option ℕ → Message → ValidationResult
unfolding validate_object
validate_inbound none message = refused none
validate_inbound (some size) message =
    if ltb max_message_bytes size
    then refused none
    else elim message [ no_object ↦ refused none | object fields ↦ validate_object fields ]

pub record ErrorResponse : Type 0 where
  pub kind : String
  pub protocol_version : ℕ
  pub request_id : Option String
  pub code : ErrorCode

pub error_response : Option String → ErrorCode → ErrorResponse
error_response request_id code = record {
  kind = "ERROR";
  protocol_version = protocol_version;
  request_id = truthy request_id;
  code = code;
}
