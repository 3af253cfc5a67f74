-- ===== src/Api/Activity/Stored.antt =====
-- wallet-activity-store.ts: what is in the table after rows are stored, and stored again.
use mathlib.Core.List.{append-nil, append_assoc}
use phygital_wallet.Common.{
  ℕ, zero, suc, ◌+◌, ◌≤◌, ◌≡◌, refl, ap, sym, ◌∙◌, some, List, [], ◌∷◌, ◌++◌, map, All, All-map,
  eq_refl, select_first, length, take, drop, arith, Option-cases, inl, inr,
  select_first-some-append, select_first-none-append,
}
use phygital_wallet.Api.Activity.{
  ActivityDbRow, ActivityTable, Texts, WalletActivityRow, same_key, insert_or_ignore, insert_all,
  insert_chunks, store_wallet_activities, bind_row, d1_batch_chunk,
}

-- A row of the wallet and signature of `row` is there.
abbrev pub Has : ActivityTable → ActivityDbRow → Type 0
Has t row = (kept : ActivityDbRow) × (select_first (same_key row) t.rows ≡ some kept)

-- Rows are only added, behind those that are there.
record Grows (s t : ActivityTable) : Type 0 where
  more : List ActivityDbRow
  appended : t.rows ≡ s.rows ++ more

Grows-refl : (t : ActivityTable) → Grows t t
Grows-refl t = record { more = []; appended = sym (append-nil _) }

Grows-trans : {s t u : ActivityTable} → Grows s t → Grows t u → Grows s u
Grows-trans g h = record {
  more = g.more ++ h.more;
  appended = rw (h.appended, g.appended, append_assoc);
}

Has-Grows : (row : ActivityDbRow) {s t : ActivityTable} → Grows s t → Has s row → Has t row
Has-Grows row g (kept, e) =
    (kept, rw g.appended (select_first-some-append (same_key row) _ g.more kept e))

insert-Grows : (row : ActivityDbRow) (t : ActivityTable) → Grows t (insert_or_ignore row t)
unfolding insert_or_ignore
insert-Grows row t = elim (Option-cases (select_first (same_key row) t.rows)) [
  | inr (kept, e) ↦ rw (insert_or_ignore, e) (Grows-refl t)
  | inl e ↦ rw (insert_or_ignore, e) (record { more = _; appended = refl })
]

insert-Has : (row : ActivityDbRow) (t : ActivityTable) → Has (insert_or_ignore row t) row
unfolding insert_or_ignore
insert-Has row t = elim (Option-cases (select_first (same_key row) t.rows)) [
  | inr (kept, e) ↦ (kept, rw (insert_or_ignore, e) e)
  | inl e ↦
      let new = record row { id = t.last_id + 1 } in
      (
        new,
        rw (insert_or_ignore, e)
            (select_first-none-append (same_key row) t.rows new e
              ∙ rw (eq_refl row.wallet_address, eq_refl row.signature) refl),
      )
]

insert_known : (row : ActivityDbRow) (t : ActivityTable) → Has t row → insert_or_ignore row t ≡ t
unfolding insert_or_ignore
insert_known row t (kept, e) = rw (insert_or_ignore, e) refl

insert_all-Grows : (rows : List ActivityDbRow) (t : ActivityTable) → Grows t (insert_all rows t)
unfolding insert_all
insert_all-Grows [] t = Grows-refl t
insert_all-Grows (row ∷ rows) t =
    Grows-trans (insert-Grows row t) (insert_all-Grows rows (insert_or_ignore row t))

insert_all-Has :
    (rows : List ActivityDbRow) (t : ActivityTable) → All (Has (insert_all rows t)) rows
unfolding insert_all
insert_all-Has [] t = tt
insert_all-Has (row ∷ rows) t = (
  Has-Grows row (insert_all-Grows rows (insert_or_ignore row t)) (insert-Has row t),
  insert_all-Has rows (insert_or_ignore row t),
)

insert_all_known :
    (rows : List ActivityDbRow) (t : ActivityTable) → All (Has t) rows → insert_all rows t ≡ t
unfolding insert_all
insert_all_known [] t h = refl
insert_all_known (row ∷ rows) t (h, hs) =
    rw (insert_all, insert_known row t h) (insert_all_known rows t hs)

insert_all-append :
    (xs ys : List ActivityDbRow) (t : ActivityTable)
    → insert_all (xs ++ ys) t ≡ insert_all ys (insert_all xs t)
unfolding insert_all
insert_all-append [] ys t = refl
insert_all-append (x ∷ xs) ys t = insert_all-append xs ys (insert_or_ignore x t)

take-drop : (n : ℕ) (xs : List ActivityDbRow) → take n xs ++ drop n xs ≡ xs
take-drop zero xs = refl
take-drop (suc n) [] = refl
take-drop (suc n) (x ∷ xs) = ap (◌∷◌ x) (take-drop n xs)

length-drop : (n : ℕ) (xs : List ActivityDbRow) → length (drop n xs) ≤ length xs
length-drop zero xs = omega arith
length-drop (suc n) [] = omega arith
length-drop (suc n) (x ∷ xs) = omega (arith, length-drop n xs)

-- The batches store what the statements store in a row.
chunks_all :
    (rounds : ℕ) (rows : List ActivityDbRow) (t : ActivityTable)
    → length rows ≤ rounds
    → insert_chunks rounds rows t ≡ insert_all rows t
unfolding insert_chunks insert_all
chunks_all zero [] t h = refl
chunks_all zero (row ∷ rows) t h = absurd (omega arith)
chunks_all (suc rounds) [] t h = refl
chunks_all (suc rounds) (row ∷ rows) t h =
    chunks_all rounds (drop d1_batch_chunk (row ∷ rows)) _ (omega (arith, length-drop 99 rows))
    ∙ sym
        (insert_all-append (take d1_batch_chunk (row ∷ rows)) (drop d1_batch_chunk (row ∷ rows)) t)
    ∙ ap (λ xs. insert_all xs t) (take-drop d1_batch_chunk (row ∷ rows))

module _ {D E : Type 0} (c : Texts D E) where
  bound_known :
      (now later : ℕ) (rows : List (WalletActivityRow D E)) (t : ActivityTable)
      → All (Has t) (map (bind_row c now) rows)
      → All (Has t) (map (bind_row c later) rows)
  unfolding bind_row
  bound_known now later [] t h = tt
  bound_known now later (r ∷ rs) t (h, hs) = (h, bound_known now later rs t hs)

  length-bound :
      (now : ℕ) (rows : List (WalletActivityRow D E))
      → length (map (bind_row c now) rows) ≤ length rows
  length-bound now [] = omega arith
  length-bound now (r ∷ rs) = omega (arith, length-bound now rs)

  pub store_all :
      (now : ℕ) (rows : List (WalletActivityRow D E)) (t : ActivityTable)
      → store_wallet_activities c now rows t ≡ insert_all (map (bind_row c now) rows) t
  unfolding store_wallet_activities
  store_all now rows t =
      chunks_all (length rows) (map (bind_row c now) rows) t (length-bound now rows)

  -- What is stored is there: after a call every row's wallet and signature has a row, the rows that
  -- were there stay as they were, and another call with the same rows, at any time and after any
  -- rows that were added meanwhile, changes nothing.
  pub store_once :
      (now later : ℕ) (rows : List (WalletActivityRow D E)) (t u : ActivityTable)
      (more : List ActivityDbRow)
      → u.rows ≡ (store_wallet_activities c now rows t).rows ++ more
      → All (Has u) (map (bind_row c now) rows)
        × ((behind : List ActivityDbRow) × ((store_wallet_activities c now rows t).rows
              ≡ t.rows ++ behind))
        × (store_wallet_activities c later rows u ≡ u)
  store_once now later rows t u more e =
      let bound = map (bind_row c now) rows in
      let stored = store_all now rows t in
      let grown = insert_all-Grows bound t in
      let e' : u.rows ≡ (insert_all bound t).rows ++ more = rw stored at e in
      let passed : Grows (insert_all bound t) u = record { more = more; appended = e' } in
      let known = All-map _ _ bound (λ row h. Has-Grows row passed h) (insert_all-Has bound t) in
      (
        known,
        (grown.more, ap (λ w. w.rows) stored ∙ grown.appended),
        store_all later rows u
            ∙ insert_all_known (map (bind_row c later) rows) u (bound_known now later rows u known),
      )
