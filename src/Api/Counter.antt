-- ===== src/Api/Counter.antt =====
-- workers/api/src/tap/counter-store.ts and counter-session.ts: the high-water mark of the counter of
-- each chip. Rows are those of migration 0006. The read of a mark and the write that follows it are
-- two statements, between which other requests may run.
pub mod Ordered
mod Tests
use phygital_wallet.Common.{
  ℕ, String, ◌==◌, Bool, true, false, Option, none, some, List, [], ◌∷◌, ltb, if◌then◌else◌,
  select_first,
}

pub record CounterRow : Type 0 where
  pub identifier : String
  pub c : ℕ
  pub updated_at : ℕ

pub record CounterState : Type 0 where
  pub c : ℕ

pub data CounterVerdict : Type 0 where
  new replay : CounterVerdict

unfoldable pub evaluate_counter : Option CounterState → ℕ → CounterVerdict
evaluate_counter none counter = new
evaluate_counter (some state) counter = if ltb state.c counter then new else replay

abbrev pub is_chip : String → CounterRow → Bool
is_chip identifier row = row.identifier == identifier

-- `SELECT c … WHERE identifier = ?`, as a state. A stored number is finite.
unfoldable pub stored_floor : List CounterRow → String → Option CounterState
stored_floor rows identifier = elim (select_first (is_chip identifier) rows) [
  | none ↦ none
  | some row ↦ some (record { c = row.c })
]

-- `INSERT … ON CONFLICT(identifier) DO UPDATE … WHERE tap_counters.c < excluded.c`: the rows, and
-- whether one was changed.
unfoldable pub upsert : String → ℕ → ℕ → List CounterRow → List CounterRow × Bool
upsert identifier counter now [] =
    (record { identifier = identifier; c = counter; updated_at = now } ∷ [], true)
upsert identifier counter now (row ∷ rows) =
    let (rest, changed) = upsert identifier counter now rows in
    if row.identifier == identifier
    then if ltb row.c counter
      then (record row { c = counter; updated_at = now } ∷ rows, true)
      else (row ∷ rows, false)
    else (row ∷ rest, changed)

unfoldable pub verdict_of : Bool → CounterVerdict
verdict_of true = new
verdict_of false = replay

-- Without another request between the statements.
pub consume_counter_session : ℕ → List CounterRow → String → ℕ → List CounterRow × CounterVerdict
unfolding evaluate_counter stored_floor upsert verdict_of
consume_counter_session now rows identifier counter =
    elim (evaluate_counter (stored_floor rows identifier) counter) [
      | replay ↦ (rows, replay)
      | new ↦
          let (rows', changed) = upsert identifier counter now rows in (rows', verdict_of changed)
    ]

pub record Tap : Type 0 where
  pub identifier : String
  pub counter : ℕ

-- The table, the requests that have read a mark and not yet written, and the taps answered `new`,
-- the last first.
pub record Server : Type 0 where
  pub rows : List CounterRow
  pub pending : List Tap
  pub accepted : List Tap
