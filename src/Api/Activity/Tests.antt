-- ===== src/Api/Activity/Tests.antt =====
-- Three rows of one wallet, and one of another, read one by one.
use phygital_wallet.Common.{
  ℕ, ap, decimal_value, decimal_value-digits, String, ◌≡◌, refl, false, Option, none, some, List,
  [], ◌∷◌, ◌++◌, map, pos, arith, In, ◌↔◌, All,
}
use phygital_wallet.Api.Activity.{
  ActivityDbRow, ActivityTable, Texts, WalletActivityRow, rows_of, to_item, bind_row,
  store_wallet_activities,
}
use phygital_wallet.Api.Activity.Order.{IsDescending}
use phygital_wallet.Api.Activity.Cursor.{ReadsDecimals}
use phygital_wallet.Api.Activity.Stored.{Has, store_once}
use phygital_wallet.Api.Activity.Pages.{walk, walk_exact}

abbrev texts : (String → Option ℕ) → Texts (List String) String
texts number = record {
  empty_deltas = [];
  stringify_deltas = λ deltas. "[]";
  stringify_detail = λ detail. detail;
  parse_deltas = λ raw. some (some []);
  parse_detail = λ raw. some (some raw);
  number = number;
}

abbrev activity : String → String → ℕ → WalletActivityRow (List String) String
activity wallet_address signature block_time = record {
  wallet_address = wallet_address;
  signature = signature;
  slot = none;
  block_time = block_time;
  kind = "sent";
  title = "Sent";
  amount_label = none;
  status_label = none;
  mint = none;
  balance_deltas = [];
  failed = false;
  detail = none;
  parser_version = 1;
}

abbrev activities : List (WalletActivityRow (List String) String)
activities =
    activity "w" "a" 7
    ∷ activity "v" "a" 7
    ∷ activity "w" "b" 9
    ∷ activity "w" "a" 8
    ∷ activity "w" "c" 7
    ∷ []

abbrev empty : ActivityTable
empty = record { rows = []; last_id = 0 }

abbrev db_row : ℕ → String → String → ℕ → ActivityDbRow
db_row id wallet_address signature block_time = record {
  id = id;
  wallet_address = wallet_address;
  signature = signature;
  slot = none;
  block_time = block_time;
  kind = "sent";
  title = "Sent";
  amount_label = none;
  status_label = none;
  mint = none;
  deltas_json = some "[]";
  failed = 0;
  detail_json = none;
  parser_version = 1;
  created_at = 3;
}

abbrev table : ActivityTable
table = record {
  rows = db_row 1 "w" "a" 7 ∷ db_row 2 "v" "a" 7 ∷ db_row 3 "w" "b" 9 ∷ db_row 4 "w" "c" 7 ∷ [];
  last_id = 4;
}

abbrev reader : Texts (List String) String
reader = texts (λ s. some (decimal_value 0 s))

reader-ReadsDecimals : ReadsDecimals reader
reader-ReadsDecimals n = ap some (decimal_value-digits n)

stored_rows : rows_of "w" table ≡ db_row 3 "w" "b" 9 ∷ db_row 4 "w" "c" 7 ∷ db_row 1 "w" "a" 7 ∷ []
stored_rows = refl

-- With one row for a page, three pages.
walk_exact_example :
    (walk reader table "w" (pos 1) 4 none ≡ some (map (to_item reader) (rows_of "w" table)))
    × IsDescending (rows_of "w" table)
    × ((row : ActivityDbRow)
        → In row (rows_of "w" table) ↔ (In row table.rows × (row.wallet_address ≡ "w")))
walk_exact_example =
    walk_exact reader table "w" (pos 1) 4 reader-ReadsDecimals
      ((refl, (refl, (refl, tt))), ((refl, (refl, tt)), ((refl, tt), (tt, tt)))) (omega arith)

again : table.rows ≡ (store_wallet_activities reader 3 activities empty).rows ++ []
unfolding store_wallet_activities
again = refl

store_once_example :
    All (Has table) (map (bind_row reader 3) activities)
    × ((behind : List ActivityDbRow) × ((store_wallet_activities reader 3 activities empty).rows
          ≡ [] ++ behind))
    × (store_wallet_activities reader 8 activities table ≡ table)
store_once_example = store_once reader 3 8 activities empty table [] again
