-- ===== src/Api/Fees/Apply.antt =====
-- workers/api/src/fees: the events of one transaction and their delivery to the tokens' objects
-- (subscribe-fee-tx.ts), with the fee payers that the service runs (default-feePayer.ts).
-- `recordAudit` and the cache of the parsed set, whose source does not change, are not modelled.
pub mod Once
pub mod Sound
mod Tests
use phygital_wallet.Common.{
  ℕ, ◌-◌, String, ◌==◌, ◌<>◌, Bool, true, false, not, ◌||◌, Option, none, some, List, [], ◌∷◌, ◌++◌,
  ℤ, pos, ltb, eqb, any, trim, truthy, get_elem?, length, if◌then◌else◌,
}
use phygital_wallet.Errors.{Result, ok, err, coded, plain_error, ◌>>=◌}
use phygital_wallet.TokenStore.{FeeEvent, EventKind, credit, debit}
use phygital_wallet.TokenSigner.{Platform, Signer, apply_fee_events}
use phygital_wallet.Api.Fees.{
  Codec, Env, TxMeta, ConfirmedTx, SubscribeTxResult, PubkeyJson, json_array, json_other, or_empty,
  trimmed_text, resolve_account_keys, native_change, find_execute_accounts,
}

abbrev misconfigured {ℓ} : {A : Type ℓ} → String → Result A
misconfigured message = err (coded message "fee_misconfigured")

abbrev pub has_text : String → List String → Bool
has_text x = any (λ y. y == x)

pub add_pubkeys : List (Option String) → List String → Result (List String)
add_pubkeys [] set = ok set
add_pubkeys (item ∷ items) set = elim item [
  | none ↦ misconfigured "DEFAULT_FEE_PAYER_PUBKEYS entries must be non-empty strings"
  | some text ↦
      if trim text == ""
      then misconfigured "DEFAULT_FEE_PAYER_PUBKEYS entries must be non-empty strings"
      else add_pubkeys items (if has_text (trim text) set then set else set ++ trim text ∷ [])
]

non_empty_set : List String → Result (List String)
non_empty_set set =
    if eqb (length set) 0
    then misconfigured "DEFAULT_FEE_PAYER_PUBKEYS must include at least one pubkey"
    else ok set

pub record FeeTxProcessResult : Type 0 where
  pub credited : Bool
  pub debited : Bool

abbrev pub neither : FeeTxProcessResult
neither = record { credited = false; debited = false }

-- `events`, then `byToken`: the tokens in the order of their first event.
abbrev pub Batches : Type 0
Batches = List (String × List FeeEvent)

abbrev pub push_event : String → FeeEvent → Batches → Batches
push_event token event [] = (token, event ∷ []) ∷ []
push_event token event ((t, batch) ∷ rest) =
    if t == token then (t, batch ++ event ∷ []) ∷ rest else (t, batch) ∷ push_event token event rest

abbrev by_token_from : List (String × FeeEvent) → Batches → Batches
by_token_from [] batches = batches
by_token_from ((token, event) ∷ events) batches =
    by_token_from events (push_event token event batches)

pub by_token : List (String × FeeEvent) → Batches
by_token events = by_token_from events []

-- The objects of the tokens, by name.
abbrev pub Objects : Type 0
Objects = String → Signer

abbrev pub put : String → Signer → Objects → Objects
put token s objects t = if t == token then s else objects t

-- Which kinds of events of a batch were applied.
pub mark : List FeeEvent → List String → FeeTxProcessResult → FeeTxProcessResult
mark [] applied r = r
mark (event ∷ batch) applied r =
    if not (has_text event.signature applied)
    then mark batch applied r
    else mark batch applied (elim event.kind [
      | credit ↦ record r { credited = true }
      | debit ↦ record r { debited = true }
    ])

module _ (c : Codec) (env : Env) where
  pub parse_fee_payer_pubkeys : Option String → Result (List String)
  unfolding add_pubkeys non_empty_set
  parse_fee_payer_pubkeys raw =
      if trimmed_text raw == ""
      then misconfigured "DEFAULT_FEE_PAYER_PUBKEYS is not configured"
      else elim (raw) [
        | none ↦ misconfigured "DEFAULT_FEE_PAYER_PUBKEYS is not configured"
        | some text ↦ elim (c.parse_json text) [
          | none ↦ misconfigured "DEFAULT_FEE_PAYER_PUBKEYS must be valid JSON"
          | some json_other ↦
              misconfigured "DEFAULT_FEE_PAYER_PUBKEYS must be a JSON array of base58 pubkeys"
          | some (json_array items) ↦ add_pubkeys items [] >>= non_empty_set
        ]
      ]

  pub is_default_fee_payer : String → Result Bool
  unfolding parse_fee_payer_pubkeys
  is_default_fee_payer fee_payer =
      parse_fee_payer_pubkeys env.default_fee_payer_pubkeys >>= λ set. ok (has_text fee_payer set)

  -- The credit of a top-up: what the accumulator gained.
  pub credit_events :
      String → List String → Option TxMeta → Option String → List (String × FeeEvent)
  unfolding native_change
  credit_events signature keys meta none = []
  credit_events signature keys meta (some token) =
      let accumulator = trimmed_text env.top_up_accumulator in
      let (pre, post) = native_change keys meta accumulator in
      if accumulator == "" || not (ltb pre post) || token == ""
      then []
      else (
        token,
        record { signature = signature <> ":credit"; kind = credit; lamports = pos (post - pre) },
      )
        ∷ []

  -- The debit of a sponsored transaction: what the fee payer lost.
  pub debit_events :
      String
      → List String
      → Option TxMeta
      → String
      → Option String
      → Result (List (String × FeeEvent))
  unfolding native_change is_default_fee_payer
  debit_events signature keys meta fee_payer none = ok []
  debit_events signature keys meta fee_payer (some token) =
      let (pre, post) = native_change keys meta fee_payer in
      is_default_fee_payer fee_payer >>= λ is_default.
      if not is_default
      then ok []
      else if not (ltb post pre)
      then ok []
      else ok (
          (
            token,
            record { signature = signature <> ":debit"; kind = debit; lamports = pos (pre - post) },
          )
          ∷ [])

  abbrev pub is_failed : Option TxMeta → Bool
  is_failed none = false
  is_failed (some meta) = elim meta.error [ none ↦ false | some e ↦ e ]

  -- `result.signature?.trim() || signatures?.[0]?.trim() || ""`
  abbrev pub signature_of : SubscribeTxResult → ConfirmedTx → String
  signature_of result tx =
      if trimmed_text result.signature == ""
      then trimmed_text (get_elem? (or_empty tx.signatures) 0)
      else trimmed_text result.signature

  -- From the signature on, where there is one.
  pub events_of : String → ConfirmedTx → Result (List (String × FeeEvent))
  unfolding resolve_account_keys find_execute_accounts credit_events debit_events
  events_of signature tx = elim (resolve_account_keys tx) [
    | [] ↦ ok []
    | fee_payer ∷ others ↦
        let keys = fee_payer ∷ others in
        let execute = find_execute_accounts c tx keys in
        debit_events signature keys tx.meta fee_payer execute >>= λ debits.
        ok (credit_events signature keys tx.meta execute ++ debits)
  ]

  pub fee_events : SubscribeTxResult → Result (List (String × FeeEvent))
  unfolding events_of
  fee_events result = elim result.transaction [
    | none ↦ ok []
    | some tx ↦
        if is_failed tx.meta || signature_of result tx == ""
        then ok []
        else events_of (signature_of result tx) tx
  ]

-- Each object has the name of its token.
module _ (p : Platform) (now : ℕ) where
  abbrev pub named : String → Platform
  named token = record p { object_name = some token }

  pub apply_batch : String → List FeeEvent → Objects → Result (List String) × Objects
  apply_batch phygital_token batch objects =
      let token = trim phygital_token in
      if token == ""
      then (err (plain_error "phygitalToken required"), objects)
      else let (answer, s) = apply_fee_events (named token) now batch (objects token) in
        (answer >>= (λ (n, applied). ok applied), put token s objects)

  pub apply_batches : Batches → FeeTxProcessResult → Objects → Result FeeTxProcessResult × Objects
  unfolding apply_batch mark
  apply_batches [] r objects = (ok r, objects)
  apply_batches ((token, batch) ∷ batches) r objects =
      let (answer, changed) = apply_batch token batch objects in
      elim answer [
        | err e ↦ (err e, changed)
        | ok applied ↦ apply_batches batches (mark batch applied r) changed
      ]

  pub process_subscribe_fee_tx :
      Codec → Env → SubscribeTxResult → Objects → Result FeeTxProcessResult × Objects
  unfolding fee_events by_token
  process_subscribe_fee_tx c env result objects = elim (fee_events c env result) [
    | err e ↦ (err e, objects)
    | ok events ↦ apply_batches (by_token events) neither objects
  ]
