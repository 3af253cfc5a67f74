-- ===== src/Api/Activity.antt =====
-- workers/api/src/webhooks/wallet-activity-store.ts: the wallets' activity. Rows are those of
-- migration 0002. JSON and JavaScript's Number are the record `Texts`.
pub mod Order
pub mod Stored
pub mod Cursor
pub mod Pages
mod Tests
use Prim.Native.Char.{code}
use Prim.Native.String
use phygital_wallet.Common.{
  ℕ, zero, suc, ◌+◌, String, ◌==◌, ◌<>◌, Bool, true, false, ◌&&◌, ◌||◌, Option, none, some, List,
  [], ◌∷◌, ◌++◌, map, ℤ, pos_part, digits, ltb, eqb, length, take, drop, is_none, select_first,
  if◌then◌else◌,
}

-- What the queue consumer stores: `D` is the list of balance deltas, `E` the detail.
pub record WalletActivityRow (D E : Type 0) : Type 0 where
  pub wallet_address : String
  pub signature : String
  pub slot : Option ℕ
  pub block_time : ℕ
  pub kind : String
  pub title : String
  pub amount_label : Option String
  pub status_label : Option String
  pub mint : Option String
  pub balance_deltas : D
  pub failed : Bool
  pub detail : Option E
  pub parser_version : ℕ

pub record ActivityDbRow : Type 0 where
  pub id : ℕ
  pub wallet_address : String
  pub signature : String
  pub slot : Option ℕ
  pub block_time : ℕ
  pub kind : String
  pub title : String
  pub amount_label : Option String
  pub status_label : Option String
  pub mint : Option String
  pub deltas_json : Option String
  pub failed : ℕ
  pub detail_json : Option String
  pub parser_version : ℕ
  pub created_at : ℕ

-- The table, and the last id that AUTOINCREMENT gave.
pub record ActivityTable : Type 0 where
  pub rows : List ActivityDbRow
  pub last_id : ℕ

-- `parse_deltas` gives `none` for what is no JSON, and `some none` for what is no array.
pub record Texts (D E : Type 0) : Type 0 where
  pub empty_deltas : D
  pub stringify_deltas : D → String
  pub stringify_detail : E → String
  pub parse_deltas : String → Option (Option D)
  pub parse_detail : String → Option (Option E)
  pub number : String → Option ℕ

-- The fields that are the same for every item are left out.
pub record WalletActivityItem (D E : Type 0) : Type 0 where
  pub id : String
  pub wallet_address : String
  pub kind : String
  pub title : String
  pub amount_label : Option String
  pub balance_deltas : D
  pub status_label : Option String
  pub timestamp : ℕ
  pub signature : String
  pub mint : Option String
  pub detail : Option E

abbrev pub d1_batch_chunk : ℕ
d1_batch_chunk = 100

abbrev pub same_key : ActivityDbRow → ActivityDbRow → Bool
same_key a b = a.wallet_address == b.wallet_address && a.signature == b.signature

-- INSERT OR IGNORE: a row of the same wallet and signature is kept.
pub insert_or_ignore : ActivityDbRow → ActivityTable → ActivityTable
insert_or_ignore row t = elim (select_first (same_key row) t.rows) [
  | some _ ↦ t
  | none ↦ record {
    rows = t.rows ++ record row { id = t.last_id + 1 } ∷ [];
    last_id = t.last_id + 1;
  }
]

pub insert_all : List ActivityDbRow → ActivityTable → ActivityTable
unfolding insert_or_ignore
insert_all [] t = t
insert_all (row ∷ rows) t = insert_all rows (insert_or_ignore row t)

-- The batches of `D1_BATCH_CHUNK` statements; each round takes one, so as many rounds as there are
-- statements are enough.
pub insert_chunks : ℕ → List ActivityDbRow → ActivityTable → ActivityTable
unfolding insert_all
insert_chunks zero rows t = t
insert_chunks (suc rounds) [] t = t
insert_chunks (suc rounds) (row ∷ rows) t =
    insert_chunks rounds (drop d1_batch_chunk (row ∷ rows))
      (insert_all (take d1_batch_chunk (row ∷ rows)) t)

-- `ORDER BY block_time DESC, id DESC`: whether the second row comes after the first.
abbrev pub is_after : ℕ → ℕ → ActivityDbRow → Bool
is_after block_time id r =
    ltb r.block_time block_time || (eqb r.block_time block_time && ltb r.id id)

abbrev pub insert_ordered : ActivityDbRow → List ActivityDbRow → List ActivityDbRow
insert_ordered r [] = r ∷ []
insert_ordered r (x ∷ xs) =
    let rest = insert_ordered r xs in if is_after x.block_time x.id r then x ∷ rest else r ∷ x ∷ xs

abbrev pub order_by : List ActivityDbRow → List ActivityDbRow
order_by [] = []
order_by (r ∷ rs) = insert_ordered r (order_by rs)

abbrev pub select_where : (ActivityDbRow → Bool) → List ActivityDbRow → List ActivityDbRow
select_where p [] = []
select_where p (r ∷ rs) = if p r then r ∷ select_where p rs else select_where p rs

-- A wallet's rows, newest first.
abbrev pub rows_of : String → ActivityTable → List ActivityDbRow
rows_of wallet_address t = order_by (select_where (λ r. r.wallet_address == wallet_address) t.rows)

unfoldable pub encode_cursor : ActivityDbRow → String
encode_cursor row = digits row.block_time <> (":" <> digits row.id)

-- The text before the first colon, and what is behind it, if there is one.
unfoldable pub split_colon : String → String × Option String
split_colon String.[] = ("", none)
split_colon (String.◌∷◌ c s) =
    let (first, rest) = split_colon s in
    if eqb (code c) 58 then ("", some s) else (String.◌∷◌ c first, rest)

abbrev pub clamp : ℤ → ℕ
clamp n = if ltb 50 (pos_part n) then 50 else if eqb (pos_part n) 0 then 1 else pos_part n

abbrev pub last_of {ℓ} : {A : Type ℓ} → List A → Option A
last_of [] = none
last_of (x ∷ []) = some x
last_of (x ∷ (y ∷ ys)) = last_of (y ∷ ys)

abbrev pub parse_json {ℓ} : {A : Type ℓ} → (String → Option A) → Option String → A → A
parse_json parse none fallback = fallback
parse_json parse (some raw) fallback =
    if raw == "" then fallback else elim (parse raw) [ none ↦ fallback | some a ↦ a ]

module _ {D E : Type 0} (c : Texts D E) where
  -- The values bound to one statement; the id is the database's.
  pub bind_row : ℕ → WalletActivityRow D E → ActivityDbRow
  bind_row now r = record {
    id = 0;
    wallet_address = r.wallet_address;
    signature = r.signature;
    slot = r.slot;
    block_time = r.block_time;
    kind = r.kind;
    title = r.title;
    amount_label = r.amount_label;
    status_label = r.status_label;
    mint = r.mint;
    deltas_json = some (c.stringify_deltas r.balance_deltas);
    failed = if r.failed then 1 else 0;
    detail_json = elim r.detail [ none ↦ none | some d ↦ some (c.stringify_detail d) ];
    parser_version = r.parser_version;
    created_at = now;
  }

  pub store_wallet_activities : ℕ → List (WalletActivityRow D E) → ActivityTable → ActivityTable
  unfolding bind_row insert_chunks
  store_wallet_activities now rows t = insert_chunks (length rows) (map (bind_row now) rows) t

  pub decode_cursor : Option String → Option (ℕ × ℕ)
  unfolding split_colon
  decode_cursor none = none
  decode_cursor (some cursor) = if cursor == "" then none else elim (split_colon cursor).1 [
    | none ↦ none
    | some rest ↦ elim (c.number (split_colon cursor).0) [
      | none ↦ none
      | some block_time ↦ elim (c.number (split_colon rest).0) [
        | none ↦ none
        | some id ↦ some (block_time, id)
      ]
    ]
  ]

  pub to_item : ActivityDbRow → WalletActivityItem D E
  to_item row = record {
    id = row.signature;
    wallet_address = row.wallet_address;
    kind = row.kind;
    title = row.title;
    amount_label = row.amount_label;
    balance_deltas = elim (parse_json c.parse_deltas row.deltas_json (some c.empty_deltas)) [
      | none ↦ c.empty_deltas
      | some deltas ↦ deltas
    ];
    status_label = row.status_label;
    timestamp = row.block_time;
    signature = row.signature;
    mint = row.mint;
    detail = parse_json c.parse_detail row.detail_json none;
  }

  abbrev pub selected : Option (ℕ × ℕ) → List ActivityDbRow → List ActivityDbRow
  selected none rows = rows
  selected (some (block_time, id)) rows = select_where (is_after block_time id) rows

  pub read_wallet_activity :
      ActivityTable → String → ℤ → Option String → List (WalletActivityItem D E) × Option String
  unfolding decode_cursor to_item encode_cursor
  read_wallet_activity t wallet_address limit cursor =
      let size = clamp limit in
      let rows = take (suc size) (selected (decode_cursor cursor) (rows_of wallet_address t)) in
      let has_more = ltb size (length rows) in
      let page = if has_more then take size rows else rows in
      (
        map to_item page,
        if has_more
            then elim (last_of page) [ none ↦ none | some row ↦ some (encode_cursor row) ]
            else none,
      )
