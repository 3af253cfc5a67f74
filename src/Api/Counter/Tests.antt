-- ===== src/Api/Counter/Tests.antt =====
-- Two taps of one counter, whose statements interleave.
use phygital_wallet.Common.{ℕ, ◌==◌, ◌≡◌, ◌⊎◌, refl, [], ◌∷◌, if◌then◌else◌, some}
use phygital_wallet.Api.Counter.{
  CounterRow, new, replay, evaluate_counter, stored_floor, upsert, verdict_of,
  consume_counter_session, Tap, Server,
}
use phygital_wallet.Api.Counter.Ordered.{
  Reach, here, next, reads, writes, Grows, Reach-Grows, IsBelow, consume_exact,
}

abbrev row : ℕ → CounterRow
row c = record { identifier = "chip"; c = c; updated_at = 100 }

abbrev tap : Tap
tap = record { identifier = "chip"; counter = 7 }

abbrev raced : Server
raced = record { rows = row 7 ∷ []; pending = []; accepted = tap ∷ [] }

race : Reach (record { rows = row 3 ∷ []; pending = []; accepted = [] }) raced
unfolding evaluate_counter stored_floor upsert verdict_of
race =
    next
      (next (next (next here (reads _ tap refl)) (reads _ tap refl))
        (writes _ tap [] (tap ∷ []) 100 refl))
      (writes _ tap [] [] 100 refl)

Reach-Grows_example : Grows (tap ∷ [])
Reach-Grows_example = Reach-Grows (row 3 ∷ []) raced race

consumes : consume_counter_session 100 (row 3 ∷ []) "chip" 7 ≡ (row 7 ∷ [], new)
unfolding consume_counter_session
consumes = refl

consume_exact_example :
    (((consume_counter_session 100 (row 3 ∷ []) "chip" 7).1 ≡ new)
      × IsBelow (stored_floor (row 3 ∷ []) "chip") 7
      × (stored_floor (consume_counter_session 100 (row 3 ∷ []) "chip" 7).0 "chip" ≡ (
          if "chip" == "chip" then some (record { c = 7 }) else stored_floor (row 3 ∷ []) "chip")))
    ⊎ ((consume_counter_session 100 (row 3 ∷ []) "chip" 7 ≡ (row 3 ∷ [], replay))
        × (¬ IsBelow (stored_floor (row 3 ∷ []) "chip") 7))
consume_exact_example = consume_exact 100 (row 3 ∷ []) "chip" 7 "chip"
