-- ===== src/TokenSigner/Keeps.antt =====
-- token-signer.ts: a property of the ledger that binding it to a token keeps is kept by the parts
-- of a call that only open the store and set the alarm.
use phygital_wallet.Common.{
  ℕ, String, Bool, true, false, not, ◌==◌, Option, none, some, inl, inr, Option-cases,
  if◌then◌else◌, truthy, trim,
}
use phygital_wallet.Errors.{Result, ok, err}
use phygital_wallet.TokenSigner.{
  Signer, Platform, get_token, ensure, get_store, bind_token, chain, schedule_reserve_alarm,
  set_alarm, named, token_from_name,
}
use phygital_wallet.TokenStore.{ensure_token, Store}

module _ (p : Platform) (now : ℕ) (K : Store → Type 0)
    (keep : (token : String) (t : Store) → K t → K (ensure_token token now t).1) where
  abbrev pub Keeps : Signer → Type 0
  Keeps s = K s.store

  pub chain-Keeps {ℓ κ} :
      {A : Type ℓ} {B : Type κ} (x : Result A × Signer) (f : A → Signer → Result B × Signer)
      → Keeps x.1
      → ((v : A) (s : Signer) → Keeps s → Keeps (f v s).1)
      → Keeps (chain x f).1
  chain-Keeps (ok v, s) f h k = k v s h
  chain-Keeps (err e, s) f h k = h

  named-Keeps : (s : Signer) (r : Result String) → Keeps s → Keeps (named s r).1
  named-Keeps s (ok token) h = h
  named-Keeps s (err e) h = h

  pub get_token-Keeps : (s : Signer) → Keeps s → Keeps (get_token p now s).1
  unfolding get_token
  get_token-Keeps s h = elim (Option-cases (truthy s.token)) [
    | inr (token, e) ↦ rw (e, get_token) h
    | inl e ↦ rw (e, get_token) (named-Keeps s (token_from_name p.object_name) h)
  ]

  ensure-Keeps : (token : String) (s : Signer) → Keeps s → Keeps (ensure p now token s).1
  unfolding ensure
  ensure-Keeps token s h = keep token s.store h

  if-Keeps {ℓ} :
      {A : Type ℓ} (b : Bool) (x y : A × Signer)
      → Keeps x.1
      → Keeps y.1
      → Keeps (if b then x else y).1
  if-Keeps true x y h k = h
  if-Keeps false x y h k = k

  pub get_store-Keeps : (s : Signer) → Keeps s → Keeps (get_store p now s).1
  unfolding get_store
  get_store-Keeps s h = if-Keeps s.has_store _ _ h (
      chain-Keeps (get_token p now s) _ (get_token-Keeps s h)
        (λ token t k. ensure-Keeps token (record t { has_store = true }) k))

  pub bind_token-Keeps :
      (token : String) (s : Signer) → Keeps s → Keeps (bind_token p now token s).1
  unfolding bind_token
  bind_token-Keeps token s h =
      let own = record s { token = some (trim token) } in
      let bound =
        chain-Keeps (get_store p now own) _ (get_store-Keeps own h)
          (λ _ t k. ensure-Keeps (trim token) t k) in
      elim (Option-cases (truthy s.token)) [
        | inl e ↦ rw (e, bind_token) bound
        | inr (held, e) ↦ rw (e, bind_token) (if-Keeps (not (held == trim token)) _ _ h bound)
      ]

  set_alarm-Keeps : (next : Option ℕ) (s : Signer) → Keeps s → Keeps (set_alarm p now next s)
  unfolding set_alarm
  set_alarm-Keeps none s h = h
  set_alarm-Keeps (some t) s h = h

  pub schedule-Keeps : (s : Signer) → Keeps s → Keeps (schedule_reserve_alarm p now s).1
  unfolding schedule_reserve_alarm
  schedule-Keeps s h =
      chain-Keeps (get_store p now s) _ (get_store-Keeps s h) (λ _ t k. set_alarm-Keeps _ t k)
