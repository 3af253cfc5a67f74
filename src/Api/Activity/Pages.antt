-- ===== src/Api/Activity/Pages.antt =====
-- wallet-activity-store.ts: a reader that follows the cursors.
use mathlib.Core.Path.{subst}
use mathlib.Core.List.{append_assoc, map-append}
use phygital_wallet.Common.{
  ℕ, zero, suc, ◌<◌, ◌≤◌, String, ◌≡◌, refl, ap, sym, ◌∙◌, true, false, Option, none, some, List,
  [], ◌∷◌, ◌++◌, map, ℤ, ltb, ltb→lt, lt→ltb, length, take, drop, arith, Bool-cases, inl, inr, In,
  ◌↔◌,
}
use phygital_wallet.Api.Activity.{
  ActivityDbRow, ActivityTable, Texts, WalletActivityItem, rows_of, clamp, last_of, encode_cursor,
  decode_cursor, select_where, is_after, selected, to_item, read_wallet_activity,
}
use phygital_wallet.Api.Activity.Order.{
  IsDescending, IsDistinct, IsDescending-order_by, IsDistinct-select_where, select_after,
  In-rows_of,
}
use phygital_wallet.Api.Activity.Cursor.{ReadsDecimals, decode-encode_cursor}

-- The items of the pages from a cursor on; `none` where `fuel` pages do not reach the end.
pub walk :
    {D E : Type 0}
    → Texts D E
    → ActivityTable
    → String
    → ℤ
    → ℕ
    → Option String
    → Option (List (WalletActivityItem D E))
walk c t wallet_address limit zero cursor = none
walk c t wallet_address limit (suc fuel) cursor =
    let (items, next) = read_wallet_activity c t wallet_address limit cursor in
    elim next [
      | none ↦ some items
      | some after ↦ elim (walk c t wallet_address limit fuel (some after)) [
        | none ↦ none
        | some rest ↦ some (items ++ rest)
      ]
    ]

-- A full page, and the row that its cursor names.
record FullPage (size : ℕ) (ms : List ActivityDbRow) : Type 0 where
  before : List ActivityDbRow
  row : ActivityDbRow
  last : last_of (take size ms) ≡ some row
  parts : before ++ row ∷ drop size ms ≡ ms
  page : take size ms ++ drop size ms ≡ ms
  fewer : length (drop size ms) < length ms

full : (size : ℕ) (ms : List ActivityDbRow) → suc size < length ms → FullPage (suc size) ms
full size [] h = absurd (omega arith)
full zero (m ∷ ms) h = record {
  before = [];
  row = m;
  last = refl;
  parts = refl;
  page = refl;
  fewer = omega arith;
}
full (suc size) (m ∷ []) h = absurd (omega arith)
full (suc size) (m ∷ (n ∷ ms)) h =
    let f = full size (n ∷ ms) (omega arith) in
    record {
      before = m ∷ f.before;
      row = f.row;
      last = f.last;
      parts = ap (◌∷◌ m) f.parts;
      page = ap (◌∷◌ m) f.page;
      fewer = omega (arith, f.fewer);
    }

take-short : (n : ℕ) (ms : List ActivityDbRow) → length ms ≤ n → take n ms ≡ ms
take-short zero [] h = refl
take-short zero (m ∷ ms) h = absurd (omega arith)
take-short (suc n) [] h = refl
take-short (suc n) (m ∷ ms) h = ap (◌∷◌ m) (take-short n ms (omega arith))

take-long : (n : ℕ) (ms : List ActivityDbRow) → n < length ms → n < length (take (suc n) ms)
take-long n [] h = absurd (omega arith)
take-long zero (m ∷ ms) h = omega arith
take-long (suc n) (m ∷ ms) h = omega (arith, take-long n ms (omega arith))

take-take : (n : ℕ) (ms : List ActivityDbRow) → take n (take (suc n) ms) ≡ take n ms
take-take zero ms = refl
take-take (suc n) [] = refl
take-take (suc n) (m ∷ ms) = ap (◌∷◌ m) (take-take n ms)

positive : (m : ℕ) → 0 < m → (k : ℕ) × (m ≡ suc k)
positive zero h = absurd (omega arith)
positive (suc k) h = (k, refl)

clamp_positive : (limit : ℤ) → (k : ℕ) × (clamp limit ≡ suc k)
clamp_positive limit = positive (clamp limit) (ground arith)

full_clamp :
    (limit : ℤ) (ms : List ActivityDbRow) → clamp limit < length ms → FullPage (clamp limit) ms
full_clamp limit ms =
    let (k, size) = clamp_positive limit in
    subst (λ n. n < length ms → FullPage n ms) (sym size) (full k ms)

module _ {D E : Type 0} (c : Texts D E) (t : ActivityTable) (wallet_address : String)
    (limit : ℤ) where
  abbrev Selects : Option String → List ActivityDbRow → Type 0
  Selects cursor ms = selected c (decode_cursor c cursor) (rows_of wallet_address t) ≡ ms

  read_last :
      (cursor : Option String) (ms : List ActivityDbRow)
      → Selects cursor ms
      → ltb (clamp limit) (length ms) ≡ false
      → read_wallet_activity c t wallet_address limit cursor ≡ (map (to_item c) ms, none)
  unfolding read_wallet_activity
  read_last cursor ms e short =
      let all = take-short (suc (clamp limit)) ms (ground arith) in
      rw (read_wallet_activity, e, all, short) refl

  read_full :
      (cursor : Option String) (ms : List ActivityDbRow) (f : FullPage (clamp limit) ms)
      → Selects cursor ms
      → ltb (clamp limit) (length ms) ≡ true
      → read_wallet_activity c t wallet_address limit cursor
        ≡ (map (to_item c) (take (clamp limit) ms), some (encode_cursor f.row))
  unfolding read_wallet_activity
  read_full cursor ms f e more =
      let long = take-long (clamp limit) ms (ltb→lt _ _ more) in
      let more' : ltb (clamp limit) (length (take (suc (clamp limit)) ms)) ≡ true =
        lt→ltb _ _ long in
      rw (read_wallet_activity, e, more', take-take (clamp limit) ms, f.last) refl

  reads_at :
      (row : ActivityDbRow) (rest : List ActivityDbRow)
      → ReadsDecimals c
      → select_where (is_after row.block_time row.id) (rows_of wallet_address t) ≡ rest
      → Selects (some (encode_cursor row)) rest
  reads_at row rest reads e = rw (decode-encode_cursor c row reads) e

  -- Each page takes at least one row off what is left, so there are at most as many pages.
  walk_rest :
      (fuel : ℕ) (cursor : Option String) (xs ms : List ActivityDbRow)
      → ReadsDecimals c
      → IsDescending (rows_of wallet_address t)
      → xs ++ ms ≡ rows_of wallet_address t
      → Selects cursor ms
      → length ms < fuel
      → walk c t wallet_address limit fuel cursor ≡ some (map (to_item c) ms)
  unfolding walk
  walk_rest zero cursor xs ms reads d parts e enough = absurd (omega arith)
  walk_rest (suc fuel) cursor xs ms reads d parts e enough =
      elim (Bool-cases (ltb (clamp limit) (length ms))) [
        | inr short ↦
            let read = read_last cursor ms e short in
            let page : (read_wallet_activity c t wallet_address limit cursor).0
                ≡ map (to_item c) ms =
              ap (λ y. y.0) read in
            let next : (read_wallet_activity c t wallet_address limit cursor).1 ≡ none =
              ap (λ y. y.1) read in
            rw (walk, next, page) refl
        | inl more ↦
            let f = full_clamp limit ms (ltb→lt (clamp limit) (length ms) more) in
            let whole =
              append_assoc xs f.before (f.row ∷ drop (clamp limit) ms)
              ∙ ap (◌++◌ xs) f.parts
              ∙ parts in
            let behind =
              select_after (xs ++ f.before) (drop (clamp limit) ms) f.row
                (subst IsDescending (sym whole) d) in
            let there =
              reads_at f.row (drop (clamp limit) ms) reads
                (ap (select_where (is_after f.row.block_time f.row.id)) (sym whole) ∙ behind) in
            let rest =
              walk_rest fuel (some (encode_cursor f.row)) (xs ++ take (clamp limit) ms)
                (drop (clamp limit) ms) reads d (append_assoc xs _ _ ∙ ap (◌++◌ xs) f.page ∙ parts)
                there (omega (arith, f.fewer)) in
            let joined : map (to_item c) (take (clamp limit) ms)
                  ++ map (to_item c) (drop (clamp limit) ms)
                ≡ map (to_item c) ms =
              sym (map-append (to_item c) (take (clamp limit) ms) (drop (clamp limit) ms))
              ∙ ap (map (to_item c)) f.page in
            let read = read_full cursor ms f e more in
            let page : (read_wallet_activity c t wallet_address limit cursor).0
                ≡ map (to_item c) (take (clamp limit) ms) =
              ap (λ y. y.0) read in
            let next : (read_wallet_activity c t wallet_address limit cursor).1
                ≡ some (encode_cursor f.row) =
              ap (λ y. y.1) read in
            rw (walk, next, rest, page, joined) refl
      ]

-- A reader that follows the cursors from the start gets, after as many pages as the wallet has rows
-- and one at most, an item for each of the wallet's rows, newest first: the rows are in strictly
-- descending order of time and id, and they are exactly the rows of the table with the wallet's
-- address. The rows have ids of their own, and Number reads decimals.
pub walk_exact :
    {D E : Type 0} (c : Texts D E) (t : ActivityTable) (wallet_address : String) (limit : ℤ)
    (fuel : ℕ)
    → ReadsDecimals c
    → IsDistinct t.rows
    → length (rows_of wallet_address t) < fuel
    → (walk c t wallet_address limit fuel none ≡ some (map (to_item c) (rows_of wallet_address t)))
      × IsDescending (rows_of wallet_address t)
      × ((row : ActivityDbRow)
          → In row (rows_of wallet_address t)
            ↔ (In row t.rows × (row.wallet_address ≡ wallet_address)))
unfolding decode_cursor
walk_exact c t wallet_address limit fuel reads distinct enough =
    let d = IsDescending-order_by _ (IsDistinct-select_where _ t.rows distinct) in
    (
      walk_rest c t wallet_address limit fuel none [] (rows_of wallet_address t) reads d refl refl
          enough,
      d,
      In-rows_of wallet_address t,
    )
