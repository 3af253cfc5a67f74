-- ===== src/TokenStore/Ledger.antt =====
-- token-store.ts: the balance against the journal of fee events, the starter credit, the token that
-- the storage is bound to.
use mathlib.Core.List.{append-nil, append_assoc}
use phygital_wallet.Common.{
  ℕ, ◌+◌, ◌-◌, leb, pos_part, ◌≤◌, String, ◌≡◌, refl, none, some, List, [], ◌∷◌, ◌++◌, arith, ◌==◌,
  is_positive, select_first, inl, inr, Option-cases, Bool-cases, is_none, if◌then◌else◌, sym, ◌∙◌,
  ap, eqb,
}
use phygital_wallet.TokenStore.{
  Store, MetaRow, EventRow, FeeEvent, credit, debit, has_key, has_signature, meta_value,
  ensure_token, insert_meta, set_meta, grant_starter_if_needed, apply_fee_event, settle_debit,
  settle, event_row, next_balance, EventKind, get_fee_balance_lamports,
  starter_fee_balance_lamports, expire_reserves,
}

-- The abstract ledger: a list of entries, and the balance after them.
pub data Entry : Type 0 where
  starter : Entry
  logged : EventRow → Entry

abbrev pub rows_of : List Entry → List EventRow
rows_of [] = []
rows_of (starter ∷ es) = rows_of es
rows_of (logged row ∷ es) = row ∷ rows_of es

abbrev pub starters : List Entry → ℕ
starters [] = 0
starters (starter ∷ es) = 1 + starters es
starters (logged row ∷ es) = starters es

-- What an entry makes of a balance: a credit adds to it, a debit takes from it and stops at 0.
abbrev pub booked : EventKind → ℕ → ℕ → ℕ
booked credit amount b = b + amount
booked debit amount b = if leb b amount then 0 else b - amount

-- A starter credit is given to an empty balance only.
abbrev pub balance_after : ℕ → List Entry → ℕ
balance_after b [] = b
balance_after b (starter ∷ es) =
    balance_after (if eqb b 0 then starter_fee_balance_lamports else b) es
balance_after b (logged row ∷ es) = balance_after (booked row.kind row.lamports b) es

-- How many starter credits may still be given: none once the flag is up.
abbrev pub starters_left : Store → ℕ
starters_left s = elim (meta_value "starter_granted" s) [
  | none ↦ 1
  | some flag ↦ if flag == "0" then 1 else 0
]

-- The second store is the first one after some entries.
pub record Journals (s t : Store) : Type 0 where
  pub entries : List Entry
  pub appended : t.fee_events ≡ s.fee_events ++ rows_of entries
  pub balanced : get_fee_balance_lamports t ≡ balance_after (get_fee_balance_lamports s) entries
  pub once : starters entries + starters_left t ≤ starters_left s

rows_of-append : (es fs : List Entry) → rows_of (es ++ fs) ≡ rows_of es ++ rows_of fs
rows_of-append [] fs = refl
rows_of-append (starter ∷ es) fs = rows_of-append es fs
rows_of-append (logged row ∷ es) fs = rw (rows_of-append es fs)

starters-append : (es fs : List Entry) → starters (es ++ fs) ≡ starters es + starters fs
starters-append [] fs = omega arith
starters-append (starter ∷ es) fs = omega (arith, starters-append es fs)
starters-append (logged row ∷ es) fs = starters-append es fs

balance_after-append :
    (b : ℕ) (es fs : List Entry)
    → balance_after b (es ++ fs) ≡ balance_after (balance_after b es) fs
balance_after-append b [] fs = refl
balance_after-append b (starter ∷ es) fs =
    balance_after-append (if eqb b 0 then starter_fee_balance_lamports else b) es fs
balance_after-append b (logged row ∷ es) fs =
    balance_after-append (booked row.kind row.lamports b) es fs

pub Journals-refl : (s : Store) → Journals s s
Journals-refl s = record {
  entries = [];
  appended = sym (append-nil _);
  balanced = refl;
  once = omega arith;
}

pub Journals-trans : {s t u : Store} → Journals s t → Journals t u → Journals s u
Journals-trans {s} {t} {u} j k = record {
  entries = j.entries ++ k.entries;
  appended = rw (k.appended, j.appended, rows_of-append, append_assoc);
  balanced = rw (k.balanced, j.balanced, balance_after-append);
  once = rw starters-append (omega (arith, j.once, k.once));
}

-- What leaves the events, the balance and the meta table alone adds no entry.
pub Journals-same :
    {s t : Store}
    → t.fee_events ≡ s.fee_events
    → t.fee_balance ≡ s.fee_balance
    → t.meta ≡ s.meta
    → Journals s t
unfolding meta_value
Journals-same {s} {t} e b m = record {
  entries = [];
  appended = e ∙ sym (append-nil _);
  balanced = ap (λ o. get_fee_balance_lamports (record s { fee_balance = o })) b;
  once = ground arith;
}

booked_as_coded :
    (kind : EventKind) (amount b : ℕ) → next_balance kind amount b ≡ booked kind amount b
booked_as_coded credit amount b = refl
booked_as_coded debit amount b = ground arith

pub apply_fee_event-Journals :
    (event : FeeEvent) (now : ℕ) (s : Store) → Journals s (apply_fee_event event now s).1
unfolding apply_fee_event
apply_fee_event-Journals event now s = elim (Bool-cases (is_positive event.lamports)) [
  | inr bad ↦ rw bad (Journals-refl s)
  | inl good ↦ elim (Option-cases (select_first (has_signature event.signature) s.fee_events)) [
    | inr (row, old) ↦ rw (good, old) (Journals-refl s)
    | inl new ↦
        rw (good, new)
          (record {
            entries = logged (event_row event now) ∷ [];
            appended = refl;
            balanced = booked_as_coded event.kind (pos_part event.lamports) _;
            once = unfold meta_value in omega arith;
          })
  ]
]

pub settle_debit-Journals :
    (event : FeeEvent) (now : ℕ) (s : Store) → Journals s (settle_debit event now s).1
unfolding settle_debit expire_reserves
settle_debit-Journals event now s = elim event.kind as (λ k. Journals s (settle event now s k).1) [
  | credit ↦ apply_fee_event-Journals event now s
  | debit ↦ Journals-trans (Journals-same refl refl refl) (apply_fee_event-Journals event now _)
]

pub meta-set_meta :
    (value : String) (rows : List MetaRow) (r : MetaRow)
    → select_first (has_key "starter_granted") rows ≡ some r
    → select_first (has_key "starter_granted") (set_meta "starter_granted" value rows)
      ≡ some (record { key = r.key; value = value })
unfolding set_meta
meta-set_meta value [] r h = ground arith
meta-set_meta value (x ∷ xs) r h = ground (arith, meta-set_meta value xs r)

pub grant_starter_if_needed-Journals :
    (now : ℕ) (s : Store) → Journals s (grant_starter_if_needed now s).1
unfolding grant_starter_if_needed
grant_starter_if_needed-Journals now s =
    elim (Option-cases (select_first (has_key "starter_granted") s.meta)) [
      | inl missing ↦ rw (missing, grant_starter_if_needed) (Journals-refl s)
      | inr (r, found) ↦ record {
        entries = if (grant_starter_if_needed now s).0 then starter ∷ [] else [];
        appended = ground (arith, append-nil s.fee_events);
        balanced = ground arith;
        once = ground (arith, meta-set_meta "1" s.meta r found);
      }
    ]

-- An append is found where nothing was.
pub select_first-append :
    (key : String) (rows : List MetaRow) (r : MetaRow)
    → select_first (has_key key) (rows ++ r ∷ []) ≡ (
        if is_none (select_first (has_key key) rows)
        then (if r.key == key then some r else none)
        else select_first (has_key key) rows)
select_first-append key [] r = refl
select_first-append key (x ∷ xs) r = ground (arith, select_first-append key xs r)

pub ensure_token-Journals :
    (token : String) (now : ℕ) (s : Store) → Journals s (ensure_token token now s).1
unfolding ensure_token
ensure_token-Journals token now s = record {
  entries = [];
  appended = ground (arith, append-nil s.fee_events);
  balanced = ground arith;
  once = ground (
    arith,
    select_first-append "starter_granted" s.meta (record { key = "phygital_token"; value = token }),
    select_first-append "starter_granted" (insert_meta "phygital_token" token s).meta
        (record { key = "starter_granted"; value = "0" }),
  );
}
