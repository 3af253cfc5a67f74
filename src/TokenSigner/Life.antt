-- ===== src/TokenSigner/Life.antt =====
-- token-signer.ts: the calls that one object answers, one after the other, in the order of time.
use phygital_wallet.Common.{ℕ, ◌≤◌, String, ◌≡◌, refl, List, All, inl, inr, ◌⊎◌}
use phygital_wallet.TokenSigner.{
  Signer, Platform, sign_transactions, alarm, get_fee_balance, apply_fee_events, apply_one,
}
use phygital_wallet.TokenSigner.Runs.{
  anything, sign-Keeps, alarm-Keeps, get_fee_balance-Keeps, apply_fee_events-Keeps,
}
use phygital_wallet.TokenStore.{Store, FeeEvent, EventKind, credit, debit}
use phygital_wallet.TokenStore.Reserves.{IsValid}
use phygital_wallet.TokenStore.Run.{
  Step, Step-IsValid, Step-IsCapped, IsCapped, IsCapped-later, settled, applied,
}
use phygital_wallet.TokenStore.Cover.{IsCovered, IsCovered-later, Step-IsCovered, Spends}

-- One handler at the time `now`.
pub data Call (p : Platform) (now : ℕ) (s : Signer) : Signer → Type 0 where
  signs : (wires : List String) → Call p now s (sign_transactions p now wires s).1
  alarmed : Call p now s (alarm p now s).1
  reads_balance : Call p now s (get_fee_balance p now s).1
  books : (events : List FeeEvent) → Call p now s (apply_fee_events p now events s).1

pub data Life (p : Platform) (now : ℕ) (s : Signer) : ℕ → Signer → Type 0 where
  born : Life p now s now s
  after :
      {before later : ℕ} {t u : Signer}
      → Life p now s before t
      → before ≤ later
      → Call p later t u
      → Life p now s later u

-- No event of the call is a debit.
abbrev pub Credits : {p : Platform} {now : ℕ} {s t : Signer} → Call p now s t → Type 0
Credits (books events) = All (λ e. e.kind ≡ credit) events
Credits _ = Unit

abbrev pub OnlyCredits :
    {p : Platform} {now : ℕ} {s : Signer} {later : ℕ} {t : Signer} → Life p now s later t → Type 0
OnlyCredits born = Unit
OnlyCredits (after life _ call) = OnlyCredits life × Credits call

kind_cases : (k : EventKind) → (k ≡ debit) ⊎ (k ≡ credit)
kind_cases debit = inl refl
kind_cases credit = inr refl

module _ (p : Platform) (now : ℕ) where
  abbrev Sound : Store → Type 0
  Sound s = IsValid s × IsCapped now s

  Step-Sound : (t u : Store) → Sound t → Step now t u → Sound u
  Step-Sound t u (v, c) st = (Step-IsValid st v, Step-IsCapped st v c)

  book-Sound : (e : FeeEvent) (t : Store) → Unit {0} → Sound t → Sound (apply_one p now e t).1
  unfolding apply_one
  book-Sound e t _ h = elim (kind_cases e.kind) [
    | inl is_debit ↦ rw (is_debit, apply_one) (Step-Sound _ _ h (settled e t))
    | inr is_credit ↦ rw (is_credit, apply_one) (Step-Sound _ _ h (applied e t))
  ]

  Call-Sound : {s t : Signer} → Call p now s t → Sound s.store → Sound t.store
  Call-Sound {s} (signs wires) h =
      sign-Keeps p now Sound (λ t u k st _. Step-Sound t u k st) wires s h
  Call-Sound {s} alarmed h = alarm-Keeps p now Sound (λ t u k st _. Step-Sound t u k st) s h
  Call-Sound {s} reads_balance h =
      get_fee_balance-Keeps p now Sound (λ t u k st _. Step-Sound t u k st) s h
  Call-Sound {s} (books events) h =
      apply_fee_events-Keeps p now Sound (λ t u k st _. Step-Sound t u k st) (λ _. Unit) book-Sound
        events s (anything events) h

  abbrev Backed : Store → Type 0
  Backed s = IsValid s × IsCovered now s

  Step-Backed : (t u : Store) → Backed t → (st : Step now t u) → (Spends st → ⊥) → Backed u
  Step-Backed t u (v, c) st keeps = (Step-IsValid st v, Step-IsCovered st keeps v c)

  book-Backed :
      (e : FeeEvent) (t : Store) → e.kind ≡ credit → Backed t → Backed (apply_one p now e t).1
  unfolding apply_one
  book-Backed e t c h = rw (c, apply_one) (Step-Backed _ _ h (applied e t) (λ d. cc))

  Call-Backed :
      {s t : Signer} (call : Call p now s t) → Credits call → Backed s.store → Backed t.store
  Call-Backed {s} (signs wires) c h = sign-Keeps p now Backed Step-Backed wires s h
  Call-Backed {s} alarmed c h = alarm-Keeps p now Backed Step-Backed s h
  Call-Backed {s} reads_balance c h = get_fee_balance-Keeps p now Backed Step-Backed s h
  Call-Backed {s} (books events) c h =
      apply_fee_events-Keeps p now Backed Step-Backed (λ e. e.kind ≡ credit) book-Backed events s c
        h

-- If the ledger of an object has unique keys, reserves that hold something, and at most four of them
-- open, then so it has after any calls that the object answers, at times that do not go back, also
-- batches that fail in the middle.
pub Life-IsValid :
    {p : Platform} {now : ℕ} {s : Signer} {later : ℕ} {t : Signer}
    → Life p now s later t
    → IsValid s.store
    → IsCapped now s.store
    → IsValid t.store × IsCapped later t.store
Life-IsValid born v c = (v, c)
Life-IsValid {p} (after {before} {later} {t} life le call) v c =
    let (w, k) = Life-IsValid life v c in
    Call-Sound p later call (w, IsCapped-later before later t.store le k)

-- If the balance of a well-formed ledger covers its open reserves, then so it does after any calls
-- that the object answers in which all events are credits, whatever it signs or fails to sign.
pub Life-IsCovered :
    {p : Platform} {now : ℕ} {s : Signer} {later : ℕ} {t : Signer} (life : Life p now s later t)
    → OnlyCredits life
    → IsValid s.store
    → IsCovered now s.store
    → IsValid t.store × IsCovered later t.store
Life-IsCovered born credits v c = (v, c)
Life-IsCovered {p} (after {before} {later} {t} life le call) (credits, credit_call) v c =
    let (w, k) = Life-IsCovered life credits v c in
    Call-Backed p later call credit_call (w, IsCovered-later before later t.store le k)
