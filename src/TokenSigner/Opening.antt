-- ===== src/TokenSigner/Opening.antt =====
-- token-signer.ts: an object that has its token and its store, and how a call gets them.
use mathlib.Core.Path.{subst}
use phygital_wallet.Common.{
  ℕ, String, ◌≡◌, refl, sym, ◌∙◌, inl, inr, true, false, some, none, ap, Bool, ◌⊎◌, truthy, trim,
  ◌==◌, Bool-cases, Option-cases, if◌then◌else◌, Option,
}
use phygital_wallet.Errors.{Thrown, Result, ok, err, coded}
use phygital_wallet.TokenStore.{ensure_token, Store, next_reserve_expiry}
use phygital_wallet.TokenStore.Ledger.{ensure_token-Journals}
use phygital_wallet.TokenStore.Settled.{Grows, Grows-refl, Grows-trans, Grows-of_Journals}
use phygital_wallet.TokenSigner.{
  Platform, Signer, chain, get_token, get_store, schedule_reserve_alarm, set_alarm, named,
  token_from_name, ensure,
}
use phygital_wallet.TokenSigner.Keeps.{get_store-Keeps}

abbrev pub HasToken : Signer → Type 0
HasToken s = (token : String) × (truthy s.token ≡ some token)

-- The object has its token and its store.
abbrev pub IsOpen : Signer → Type 0
IsOpen s = (s.has_store ≡ true) × HasToken s

pub chain-eq-ok {ℓ κ} :
    {A : Type ℓ} {B : Type κ} (x : Result A × Signer) (f : A → Signer → Result B × Signer) {b : B}
    {t : Signer}
    → chain x f ≡ (ok b, t)
    → (a : A) × (s : Signer) × (x ≡ (ok a, s)) × (f a s ≡ (ok b, t))
chain-eq-ok (ok a, s) f e = (a, s, refl, e)
chain-eq-ok (err thrown, s) f e = cc

if-eq {ℓ} :
    {A : Type ℓ} (b : Bool) (x y : A) {z : A}
    → (if b then x else y) ≡ z
    → ((b ≡ true) × (x ≡ z)) ⊎ ((b ≡ false) × (y ≡ z))
if-eq true x y e = inl (refl, e)
if-eq false x y e = inr (refl, e)

if-HasToken {ℓ} :
    {A : Type ℓ} (b : Bool) (x y : A × Signer)
    → HasToken x.1
    → HasToken y.1
    → HasToken (if b then x else y).1
if-HasToken true x y h k = h
if-HasToken false x y h k = k

abbrev refused : Thrown → Result String
refused e = err e

named-HasToken :
    (s t : Signer) (name : Option String) {token : String}
    → named s (token_from_name name) ≡ (ok token, t)
    → HasToken t
unfolding token_from_name
named-HasToken s t none e = cc
named-HasToken s t (some name) {token} e = elim (Bool-cases (trim name == "")) [
  | inl h ↦
      let g : named s (
            refused (coded "TokenSigner requires idFromName(phygitalToken)" "signer_misconfigured"))
          ≡ (ok token, t) =
        rw h at e in
      cc
  | inr h ↦
      let g : (ok (trim name), record s { token = some (trim name) }) ≡ (ok token, t) = rw h at e in
      let same : record s { token = some (trim name) } ≡ t = cc in
      (trim name, rw (sym same, h) refl)
]

pub chain-HasToken {ℓ κ} :
    {A : Type ℓ} {B : Type κ} (x : Result A × Signer) (f : A → Signer → Result B × Signer)
    → HasToken x.1
    → ((a : A) (s : Signer) → HasToken s → HasToken (f a s).1)
    → HasToken (chain x f).1
chain-HasToken (ok a, s) f h k = k a s h
chain-HasToken (err e, s) f h k = h

module _ (p : Platform) (now : ℕ) where
  ensure-opens :
      (token : String) (u t : Signer)
      → ensure p now token (record u { has_store = true }) ≡ (ok tt, t)
      → t.has_store ≡ true
  unfolding ensure
  ensure-opens token u t e = sym (ap (λ x. x.1.has_store) e)

  pub get_token-open : (s : Signer) → HasToken s → (t : String) × (get_token p now s ≡ (ok t, s))
  unfolding get_token
  get_token-open s (token, e) = (token, rw (get_token, e) refl)

  pub get_token-HasToken :
      (s t : Signer) {token : String} → get_token p now s ≡ (ok token, t) → HasToken t
  unfolding get_token
  get_token-HasToken s t {token} e = elim (Option-cases (truthy s.token)) [
    | inr (held, h) ↦
        let g : get_token p now s ≡ (ok held, s) = rw (get_token, h) refl in
        let same : s ≡ t = cc in (held, rw (sym same) h)
    | inl h ↦
        let g : named s (token_from_name p.object_name) ≡ (ok token, t) = rw (get_token, h) at e in
        named-HasToken s t p.object_name g
  ]

  pub get_store-open : (s : Signer) → IsOpen s → get_store p now s ≡ (ok tt, s)
  unfolding get_store
  get_store-open s (e, _) = rw e refl

  pub get_store-HasToken : (s : Signer) → HasToken s → HasToken (get_store p now s).1
  unfolding get_store ensure
  get_store-HasToken s h =
      let (token, e) = get_token-open (record s { has_store = true }) h in
      let (token', e') = get_token-open s h in if-HasToken s.has_store _ _ h (rw e' h)

  get_store-opens : (s t : Signer) → get_store p now s ≡ (ok tt, t) → t.has_store ≡ true
  unfolding get_store
  get_store-opens s t e = elim (if-eq s.has_store _ _ e) [
    | inl (h, g) ↦ let same : s ≡ t = cc in rw (sym same) h
    | inr (h, g) ↦
        let (token, u, got, kept) = chain-eq-ok (get_token p now s) _ g in
        ensure-opens token u t kept
  ]

  set_alarm-IsOpen : (next : Option ℕ) (s : Signer) → IsOpen s → IsOpen (set_alarm p now next s)
  unfolding set_alarm
  set_alarm-IsOpen none s o = o
  set_alarm-IsOpen (some time) s o = o

  set_alarm-store : (next : Option ℕ) (s : Signer) → (set_alarm p now next s).store ≡ s.store
  unfolding set_alarm
  set_alarm-store none s = refl
  set_alarm-store (some time) s = refl

  binds-Grows :
      (s : Store) (token : String) (t : Store) → Grows s t → Grows s (ensure_token token now t).1
  binds-Grows s token t g = Grows-trans g (Grows-of_Journals (ensure_token-Journals token now t))

  pub schedule-opens :
      (s t : Signer)
      → HasToken s
      → schedule_reserve_alarm p now s ≡ (ok tt, t)
      → Grows s.store t.store × IsOpen t
  unfolding schedule_reserve_alarm
  schedule-opens s t h e =
      let (_, u, got, e1) = chain-eq-ok (get_store p now s) _ e in
      let grown =
        get_store-Keeps p now (Grows s.store) (binds-Grows s.store) s (Grows-refl s.store) in
      let token =
        subst (λ (x : Result (Unit {0}) × Signer). HasToken x.1) got (get_store-HasToken s h) in
      let grown' = subst (λ (x : Result (Unit {0}) × Signer). Grows s.store x.1.store) got grown in
      let same : set_alarm p now (next_reserve_expiry now u.store) u ≡ t = ap (λ x. x.1) e1 in
      (
        subst (Grows s.store) (sym (set_alarm-store _ u) ∙ ap (λ x. x.store) same) grown',
        subst IsOpen same (set_alarm-IsOpen _ u (get_store-opens s u got, token)),
      )

  pub schedule-IsOpen :
      (s : Signer)
      → IsOpen s
      → (t : Signer) × (schedule_reserve_alarm p now s ≡ (ok tt, t))
        × (t.store ≡ s.store)
        × IsOpen t
  unfolding schedule_reserve_alarm
  schedule-IsOpen s o = (
    set_alarm p now (next_reserve_expiry now s.store) s,
    rw (get_store-open s o) refl,
    set_alarm-store (next_reserve_expiry now s.store) s,
    set_alarm-IsOpen (next_reserve_expiry now s.store) s o,
  )
