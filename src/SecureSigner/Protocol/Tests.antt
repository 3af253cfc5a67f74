-- ===== src/SecureSigner/Protocol/Tests.antt =====
-- A request for a signature, and messages that are refused.
use phygital_wallet.Common.{ℕ, ◌≡◌, ◌↔◌, refl, ◌≤◌, some, [], ◌∷◌}
use phygital_wallet.SecureSigner.{invalid_message}
use phygital_wallet.SecureSigner.Protocol.{
  Fields, object, text, finite, other_value, signs, InboundRequest, RequestType, valid, invalid,
  validate_inbound, max_message_bytes,
}
use phygital_wallet.SecureSigner.Protocol.Reading.{IsRequest}
use phygital_wallet.SecureSigner.Protocol.Accepts.{validate_iff}

abbrev fields : Fields
fields =
    ("type", text "SIGN_TRANSACTION")
    ∷ ("protocolVersion", finite 1)
    ∷ ("requestId", text "abcd-1234")
    ∷ ("timestamp", finite 17)
    ∷ ("transaction", text "AQID")
    ∷ []

abbrev request : InboundRequest
request = record {
  protocol_version = 1;
  request_id = "abcd-1234";
  timestamp = 17;
  body = signs "AQID";
}

accepts : validate_inbound (some 100) (object fields) ≡ valid request
unfolding validate_inbound
accepts = refl

refuses_key :
    validate_inbound (some 100) (object (("origin", other_value) ∷ fields))
    ≡ invalid invalid_message (some "abcd-1234")
unfolding validate_inbound
refuses_key = refl

validate_iff_example : (validate_inbound (some 100) (object fields) ≡ valid request) ↔ (
    (n : ℕ) × (fs : Fields) × (kind : RequestType) × (some 100 ≡ some n)
    × (n ≤ max_message_bytes)
    × (object fields ≡ object fs)
    × IsRequest fs kind request)
validate_iff_example = validate_iff (some 100) (object fields) request
