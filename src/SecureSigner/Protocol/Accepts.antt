-- ===== src/SecureSigner/Protocol/Accepts.antt =====
-- protocol.ts: exactly which messages are requests, and which request each one is.
use mathlib.Core.Path.{subst}
use phygital_wallet.Common.{
  ℕ, ◌≤◌, String, ◌≡◌, ◌↔◌, refl, ap, sym, ◌∙◌, true, Option, none, some, inl, inr, ltb, ltb→lt,
  arith, Bool-cases, Option-cases,
}
use phygital_wallet.SecureSigner.{ErrorCode, unsupported_protocol}
use phygital_wallet.SecureSigner.Protocol.{
  Field, text, finite, absent, other_value, Fields, Message, object, no_object, RequestType,
  RequestBody, InboundRequest, valid, invalid, protocol_version, max_message_bytes, is_request_id,
  get_field, type_name, keys_allowed, type_of, id_of, is_version, timestamp_of, body_of, refused,
  validate_fields, validate_object, validate_inbound,
}
use phygital_wallet.SecureSigner.Protocol.Reading.{
  IsRequest, is_version_iff, id_of_iff, timestamp_of_iff, request_type_iff, body_of_iff,
  keys_allowed_iff,
}

abbrev accepted : String → ℕ → RequestBody → InboundRequest
accepted rid ts body = record {
  protocol_version = protocol_version;
  request_id = rid;
  timestamp = ts;
  body = body;
}

apart {ℓ} :
    {A : Type ℓ} {code : ErrorCode} {rid : Option String} {r : InboundRequest}
    → invalid code rid ≡ valid r
    → A
apart e = absurd (cc)

fields_accepted :
    (kind : RequestType) (rid : String) (fields : Fields) (r : InboundRequest)
    → validate_fields kind rid fields ≡ valid r
    → (keys_allowed kind fields ≡ true)
      × (timestamp_of (get_field "timestamp" fields) ≡ some r.timestamp)
      × (body_of kind fields ≡ some r.body)
      × (r.request_id ≡ rid)
      × (r.protocol_version ≡ protocol_version)
unfolding validate_fields
fields_accepted kind rid fields r e = elim (Bool-cases (keys_allowed kind fields)) [
  | inr h ↦ let g : refused (some rid) ≡ valid r = rw (validate_fields, h) at e in apart g
  | inl h ↦ elim (Option-cases (timestamp_of (get_field "timestamp" fields))) [
    | inl k ↦ let g : refused (some rid) ≡ valid r = rw (validate_fields, h, k) at e in apart g
    | inr (ts, k) ↦ elim (Option-cases (body_of kind fields)) [
      | inl l ↦ let g : refused (some rid) ≡ valid r = rw (validate_fields, h, k, l) at e in apart g
      | inr (body, l) ↦
          let g : valid (accepted rid ts body) ≡ valid r = rw (validate_fields, h, k, l) at e in
          let same : accepted rid ts body ≡ r = cc in
          (
            h,
            k ∙ ap (λ (x : InboundRequest). some x.timestamp) same,
            l ∙ ap (λ (x : InboundRequest). some x.body) same,
            ap (λ (x : InboundRequest). x.request_id) (sym same),
            ap (λ (x : InboundRequest). x.protocol_version) (sym same),
          )
    ]
  ]
]

object_accepted :
    (fields : Fields) (r : InboundRequest)
    → validate_object fields ≡ valid r
    → (kind : RequestType) × (rid : String) × (is_version (get_field "protocolVersion" fields)
        ≡ true)
      × (type_of (get_field "type" fields) ≡ some kind)
      × (id_of (get_field "requestId" fields) ≡ some rid)
      × (validate_fields kind rid fields ≡ valid r)
unfolding validate_object
object_accepted fields r e = elim (Bool-cases (is_version (get_field "protocolVersion" fields))) [
  | inr h ↦
      let g : invalid unsupported_protocol (id_of (get_field "requestId" fields)) ≡ valid r =
        rw (validate_object, h) at e in
      apart g
  | inl h ↦ elim (Option-cases (type_of (get_field "type" fields))) [
    | inl k ↦
        let g : refused (id_of (get_field "requestId" fields)) ≡ valid r =
          rw (validate_object, h, k) at e in
        apart g
    | inr (kind, k) ↦ elim (Option-cases (id_of (get_field "requestId" fields))) [
      | inl l ↦ let g : refused none ≡ valid r = rw (validate_object, h, k, l) at e in apart g
      | inr (rid, l) ↦
          let g : validate_fields kind rid fields ≡ valid r = rw (validate_object, h, k, l) at e in
          (kind, rid, h, k, l, g)
    ]
  ]
]

type_of_iff :
    (f : Field) (kind : RequestType) → (type_of f ≡ some kind) ↔ (f ≡ text (type_name kind))
type_of_iff (text s) kind = ground (arith, request_type_iff s kind)
type_of_iff (finite n) kind = ground arith
type_of_iff absent kind = ground arith
type_of_iff other_value kind = ground arith

object-IsRequest :
    (fields : Fields) (r : InboundRequest)
    → (validate_object fields ≡ valid r) ↔ ((kind : RequestType) × IsRequest fields kind r)
unfolding validate_object validate_fields
object-IsRequest fields r = (
  λ e.
      let (kind, rid, version, typed, named, rest) = object_accepted fields r e in
      let (keys, ts, body, same, one) = fields_accepted kind rid fields r rest in
      let (id, id_ok) = (id_of_iff (get_field "requestId" fields) rid).0 named in
      (
        kind,
        (
          (is_version_iff (get_field "protocolVersion" fields)).0 version ∙ ap finite (sym one),
          one,
          (type_of_iff (get_field "type" fields) kind).0 typed,
          id ∙ ap text (sym same),
          ap is_request_id same ∙ id_ok,
          (keys_allowed_iff kind fields).0 keys,
          (timestamp_of_iff (get_field "timestamp" fields) r.timestamp).0 ts,
          (body_of_iff fields kind r.body).0 body,
        ),
      ),
  λ (kind, (version, one, typed, id, id_ok, keys, ts, body)).
      let a = (is_version_iff (get_field "protocolVersion" fields)).1 (version ∙ ap finite one) in
      let b = (type_of_iff (get_field "type" fields) kind).1 typed in
      let c = (id_of_iff (get_field "requestId" fields) r.request_id).1 (id, id_ok) in
      let d = (keys_allowed_iff kind fields).1 keys in
      let f = (timestamp_of_iff (get_field "timestamp" fields) r.timestamp).1 ts in
      let g = (body_of_iff fields kind r.body).1 body in
      rw (validate_object, a, b, c, validate_fields, d, f, g)
        (ap (λ v. valid (record r { protocol_version = v })) (sym one)),
)

-- A message becomes a request exactly when its JSON has a size of at most 16 KiB, it is an object of
-- this protocol's version, with a well-formed id, a finite timestamp, one of the three types, no
-- other keys than those of its type, and the fields that the type asks for; the request then has the
-- message's id, timestamp and fields.
pub validate_iff :
    (size : Option ℕ) (message : Message) (r : InboundRequest)
    → (validate_inbound size message ≡ valid r) ↔ (
        (n : ℕ) × (fields : Fields) × (kind : RequestType) × (size ≡ some n)
        × (n ≤ max_message_bytes)
        × (message ≡ object fields)
        × IsRequest fields kind r)
unfolding validate_inbound
validate_iff none message r = (λ e. apart e, λ (n, fields, kind, e, le, o, rest). absurd (cc))
validate_iff (some size) no_object r = elim (Bool-cases (ltb max_message_bytes size)) [
  | inl h ↦ rw h (λ e. apart e, λ (n, fields, kind, s, le, e, rest). absurd (cc))
  | inr h ↦ rw h (λ e. apart e, λ (n, fields, kind, s, le, e, rest). absurd (cc))
]
validate_iff (some size) (object fields) r = elim (Bool-cases (ltb max_message_bytes size)) [
  | inl h ↦ rw h (
    λ e. apart e,
    λ (n, others, kind, s, le, e, rest).
        let big = ltb→lt max_message_bytes size h in
        let same : size ≡ n = cc in absurd (omega arith),
  )
  | inr h ↦
      let (to, from) = object-IsRequest fields r in
      rw h (
        λ e. let (kind, is) = to e in (size, fields, kind, refl, ground arith, refl, is),
        λ (n, others, kind, s, le, e, is).
            let same : fields ≡ others = cc in
            from (kind, subst (λ (fs : Fields). IsRequest fs kind r) (sym same) is),
      )
]
