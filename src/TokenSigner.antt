-- ===== src/TokenSigner.antt =====
-- workers/api-signer/src/token-signer.ts: the Durable Object of one token. A call runs without
-- interleaving and at one time `now`; what Cloudflare gives is the record `Platform`.
mod Monad
pub mod Keeps
pub mod Success
pub mod Rollback
pub mod Runs
pub mod Opening
pub mod Redelivery
pub mod Life
mod Tests
pub use Monad.{
  M, Flow, go, returned, thrown, Attempt, Signer, SignResult, signed, failed, Audit, Body, pure,
  lift, give, gets, modify, ◌>>=◌, ◌>>◌,
}
use Prim.Native.String
use phygital_wallet.Common.{
  ℕ, ◌/◌, ◌%◌, ◌-◌, String, Bool, true, false, not, ◌&&◌, Option, none, some, List, [], ◌∷◌, ◌++◌,
  Bytes, length, ltb, truthy, ◌==◌, if◌then◌else◌, trim, get_elem?, ℤ, pos,
}
use phygital_wallet.Errors.{Thrown, Result, ok, err, coded, NormalizedError, normalize_error}
use phygital_wallet.SignDecode.{Kit, DecodedSignTx, decode_wire_transaction}
use phygital_wallet.Backend.{KeyCodec, FeePayerSigner, new_fee_payer_signer, can_sign, sign}
use phygital_wallet.TokenStore.{
  Store, StoreError, Outcome, token_mismatch, constraint, done, FeeEvent, EventKind, credit, debit,
  ensure_token, reserve, release, rebind_reserve, expire_reserves, next_reserve_expiry,
  grant_starter_if_needed, settle_debit, apply_fee_event, get_fee_balance_lamports,
  get_reserved_lamports, get_available_lamports, min_attempt_fee_lamports, fee_reserve_ttl_ms,
}

-- `ctx.id.name`, `TOP_UP_ACCUMULATOR`, `FEE_PAYER_SECRET_KEYS`, and the codecs and cryptography.
pub record Platform : Type 0 where
  pub kit : Kit
  pub keys : KeyCodec
  pub sha256 : Bytes → Bytes
  pub object_name : Option String
  pub top_up_accumulator : Option String
  pub fee_payer_secret_keys : Option String

pub token_from_name : Option String → Result String
token_from_name none =
    err (coded "TokenSigner requires idFromName(phygitalToken)" "signer_misconfigured")
token_from_name (some name) =
    if trim name == ""
    then err (coded "TokenSigner requires idFromName(phygitalToken)" "signer_misconfigured")
    else ok (trim name)

abbrev hex_digits : List String
hex_digits =
    "0" ∷ "1" ∷ "2" ∷ "3" ∷ "4" ∷ "5" ∷ "6" ∷ "7" ∷ "8" ∷ "9" ∷ "a" ∷ "b" ∷ "c" ∷ "d" ∷ "e" ∷ "f"
    ∷ []

abbrev hex_digit : ℕ → String
hex_digit n = elim (get_elem? hex_digits n) [ none ↦ "" | some d ↦ d ]

-- `toString(16).padStart(2, "0")` of each byte
hex : Bytes → String
hex [] = ""
hex (b ∷ bs) = String.◌++◌ (hex_digit (b / 16)) (String.◌++◌ (hex_digit (b % 16)) (hex bs))

abbrev to_result : Outcome → Result (Unit {0})
to_result done = ok tt
to_result (Outcome.thrown token_mismatch) =
    err (coded "TokenSigner DO token mismatch" "token_mismatch")
to_result (Outcome.thrown constraint) = err (Thrown.plain_error "UNIQUE constraint failed")

-- A step of a handler after one that may have thrown.
abbrev pub chain {ℓ κ} :
    {A : Type ℓ} {B : Type κ}
    → Result A × Signer
    → (A → Signer → Result B × Signer)
    → Result B × Signer
chain (ok a, s) f = f a s
chain (err e, s) f = (err e, s)

abbrev named : Signer → Result String → Result String × Signer
named s (err e) = (err e, s)
named s (ok token) = (ok token, record s { token = some token })

push_id : String → Attempt → Attempt
push_id id a = record a { reserved_ids = a.reserved_ids ++ id ∷ [] }

replace_last : String → List String → List String
replace_last id [] = []
replace_last id (x ∷ []) = id ∷ []
replace_last id (x ∷ (y ∷ ys)) = x ∷ replace_last id (y ∷ ys)

push_signature : String → Attempt → Attempt
push_signature signature a = record a { signatures = a.signatures ++ signature ∷ [] }

abbrev pub accumulator_of : Option String → String
accumulator_of none = ""
accumulator_of (some text) = trim text

abbrev audit_of : Option String → ℕ → ℕ → Option Audit
audit_of none signature_count reserved = none
audit_of (some fee_payer) signature_count reserved =
    some (record { fee_payer = fee_payer; signature_count = signature_count; reserved = reserved })

success : Attempt → SignResult
success a =
    signed a.signatures
      (audit_of (truthy a.fee_payer_seen) (length a.signatures) (length a.reserved_ids))

-- `releaseReserves`; a `release` does not throw.
unfoldable pub release_reserves : List String → Store → Store
release_reserves [] s = s
release_reserves (id ∷ ids) s = release_reserves ids (release id s).1

pub record FeeBalance : Type 0 where
  pub balance_lamports : ℕ
  pub reserved_lamports : ℕ
  pub available_lamports : ℕ

module _ (p : Platform) (now : ℕ) where
  message_reserve_id : Bytes → String
  message_reserve_id message_bytes = hex (p.sha256 message_bytes)

  unfoldable pub get_token : Signer → Result String × Signer
  get_token s = elim (truthy s.token) [
    | some token ↦ (ok token, s)
    | none ↦ named s (token_from_name p.object_name)
  ]

  pub ensure : String → Signer → Result (Unit {0}) × Signer
  ensure token s =
      let (o, store) = ensure_token token now s.store in (to_result o, record s { store = store })

  unfoldable pub get_store : Signer → Result (Unit {0}) × Signer
  get_store s =
      if s.has_store
      then (ok tt, s)
      else chain (get_token s) (λ token s1. ensure token (record s1 { has_store = true }))

  pub bind_token : String → Signer → Result (Unit {0}) × Signer
  bind_token token s =
      let bound =
        chain (get_store (record s { token = some (trim token) })) (λ _. ensure (trim token)) in
      elim (truthy s.token) [
        | none ↦ bound
        | some own ↦
            if not (own == trim token)
            then (err (coded "TokenSigner DO token mismatch" "token_mismatch"), s)
            else bound
      ]

  unfoldable pub set_alarm : Option ℕ → Signer → Signer
  set_alarm none s = s
  set_alarm (some next) s = record s { alarm = some next }

  unfoldable pub schedule_reserve_alarm : Signer → Result (Unit {0}) × Signer
  schedule_reserve_alarm s =
      chain (get_store s) (λ _ s1. (ok tt, set_alarm (next_reserve_expiry now s1.store) s1))

  -- The alarm handler.
  pub alarm : Signer → Result (Unit {0}) × Signer
  alarm s =
      chain (get_store s)
        (λ _ s1. schedule_reserve_alarm (record s1 { store = (expire_reserves now s1.store).1 }))

  pub get_fee_balance : Signer → Result FeeBalance × Signer
  get_fee_balance s = chain (get_token s) λ _ s0. chain (get_store s0) λ _ s1.
      let store = (grant_starter_if_needed now (expire_reserves now s1.store).1).1 in
      let balance = get_fee_balance_lamports store in
      let reserved = get_reserved_lamports now store in
      (
        ok (record {
          balance_lamports = balance;
          reserved_lamports = reserved;
          available_lamports = balance - reserved;
        }),
        record s1 { store = store },
      )

  unfoldable pub apply_one : FeeEvent → Store → Bool × Store
  apply_one event store = elim event.kind [
    | debit ↦ settle_debit event now store
    | credit ↦ apply_fee_event event now store
  ]

  -- The loop over the events: the signatures applied, and the object.
  unfoldable pub apply_events : List FeeEvent → List String → Signer → Result (List String) × Signer
  apply_events [] applied s = (ok applied, s)
  apply_events (event ∷ events) applied s = chain (get_store s) λ _ s1.
      let (took, store) = apply_one event s1.store in
      apply_events events (if took then applied ++ event.signature ∷ [] else applied)
        (record s1 { store = store })

  unfoldable pub apply_fee_events : List FeeEvent → Signer → Result (ℕ × List String) × Signer
  apply_fee_events events s = chain (get_token s) λ _ s0.
      chain (apply_events events [] s0)
        λ applied s1. chain (schedule_reserve_alarm s1) λ _ s2. (ok (length applied, applied), s2)

  on_signer {ℓ} : {A : Type ℓ} → (Signer → Result A × Signer) → M A
  on_signer f a = let (r, s) = f a.signer in lift r (record a { signer = s })

  on_store {ℓ} : {A : Type ℓ} → (Store → A × Store) → M A
  on_store f a =
      let (r, store) = f a.signer.store in
      (go r, record a { signer = record (a.signer) { store = store } })

  -- `releaseReserves(store, reservedIds)`
  release_all : M (Unit {0})
  unfolding on_store
  release_all a = on_store (λ store. (tt, release_reserves a.reserved_ids store)) a

  abbrev refusal : String → String → Option Bool → Body
  refusal error code soft = record { error = error; code = code; soft = soft }

  -- A top-up bypasses the balance gate.
  sign_top_up : FeePayerSigner → DecodedSignTx → M (Unit {0})
  unfolding push_signature
  sign_top_up backend decoded = do
    signature ← lift (sign p.keys backend decoded.fee_payer decoded.message_bytes)
    modify (push_signature signature)

  -- After the reserve is admitted: sign, and bind the reserve to the signature.
  sign_admitted : FeePayerSigner → DecodedSignTx → String → M (Unit {0})
  unfolding push_id replace_last push_signature on_store
  sign_admitted backend decoded id = do
    modify (push_id id)
    signature ← lift (sign p.keys backend decoded.fee_payer decoded.message_bytes)
    _ ← on_store (rebind_reserve id signature now)
    modify (λ a. record a { reserved_ids = replace_last signature a.reserved_ids })
    modify (push_signature signature)

  sign_reserved : FeePayerSigner → DecodedSignTx → M (Unit {0})
  unfolding sign_admitted release_all message_reserve_id on_store
  sign_reserved backend decoded = do
    let id = message_reserve_id decoded.message_bytes
    admitted ← on_store (reserve id (pos min_attempt_fee_lamports) fee_reserve_ttl_ms now)
    if admitted then sign_admitted backend decoded id else (do
      release_all
      give (
          failed 403 (
            refusal "Fee balance is too low for this transaction" "insufficient_fee_balance" none)))

  -- The fee payer is known: `canSign`, then the two kinds of transaction.
  sign_decoded : FeePayerSigner → DecodedSignTx → M (Unit {0})
  unfolding sign_top_up sign_reserved release_all
  sign_decoded backend decoded =
      if not (can_sign p.keys backend decoded.fee_payer)
      then (do
        release_all
        give (
            failed 403 (
              refusal "Transaction fee payer is not sponsored by this service" "fee_payer_mismatch"
                none)))
      else if decoded.is_fee_paying_instruction
      then sign_top_up backend decoded
      else sign_reserved backend decoded

  sign_wire : FeePayerSigner → String → String → M (Unit {0})
  unfolding on_signer bind_token
  sign_wire backend accumulator wire = do
    decoded ← lift (decode_wire_transaction p.kit wire accumulator)
    on_signer (bind_token decoded.phygital_token)
    modify (λ a. record a { fee_payer_seen = some decoded.fee_payer })
    sign_decoded backend decoded

  -- The loop over the wires.
  pub sign_wires : FeePayerSigner → String → List String → M (Unit {0})
  sign_wires backend accumulator [] = pure tt
  sign_wires backend accumulator (wire ∷ wires) =
      sign_wire backend accumulator wire >> sign_wires backend accumulator wires

  -- The `try` block.
  sign_batch : List String → M SignResult
  unfolding success on_signer on_store get_store schedule_reserve_alarm
  sign_batch [] =
      give (failed 400 (refusal "transactions required" "invalid_transaction" (some false)))
  sign_batch (wire ∷ wires) = do
    backend ← lift (new_fee_payer_signer p.keys p.fee_payer_secret_keys)
    on_signer get_store
    _ ← on_store (expire_reserves now)
    sign_wires backend (accumulator_of p.top_up_accumulator) (wire ∷ wires)
    on_signer schedule_reserve_alarm
    gets success

  abbrev internal_fault : Thrown → NormalizedError
  internal_fault e =
      normalize_error e (record { message = none; code = some "signer_error"; status = some 500 })

  -- The `catch` block.
  rescue : Flow SignResult × Attempt → Result SignResult × Signer
  rescue (go r, a) = (ok r, a.signer)
  rescue (returned r, a) = (ok r, a.signer)
  rescue (thrown e, a) = chain (get_store a.signer) λ _ s.
      let n = internal_fault e in
      (
        ok (failed n.status (refusal n.error n.code n.soft)),
        record s { store = release_reserves a.reserved_ids s.store },
      )

  abbrev begin : Signer → Attempt
  begin s = record { signer = s; reserved_ids = []; signatures = []; fee_payer_seen = none }

  pub sign_transactions : List String → Signer → Result SignResult × Signer
  sign_transactions wires s = chain (get_token s) (λ _ s0. rescue (sign_batch wires (begin s0)))
