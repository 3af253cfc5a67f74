-- ===== src/Api/Counter/Ordered.antt =====
-- counter-store.ts: whatever the order of statements, the counters that a chip gets accepted grow.
use phygital_wallet.Common.{
  ℕ, ◌≤◌, ◌<◌, String, ◌==◌, ◌≡◌, ◌⊎◌, ◌↔◌, refl, sym, ap, ◌∙◌, ◌&&◌, Bool, true, Option, none,
  some, List, [], ◌∷◌, ◌++◌, if◌then◌else◌, All, All-map, arith, eq_iff, Bool-cases, inl, inr,
}
use mathlib.Core.Path.{subst}
use phygital_wallet.Api.Counter.{
  CounterRow, CounterState, CounterVerdict, new, replay, evaluate_counter, stored_floor, upsert,
  verdict_of, consume_counter_session, Tap, Server,
}

-- One statement of one request. A request that reads a lower mark, or none, goes on; one that does
-- not has answered `replay` and changed nothing. Any request that goes on may write next.
pub data Step : Server → Server → Type 0 where
  reads :
      (s : Server) (tap : Tap)
      → evaluate_counter (stored_floor s.rows tap.identifier) tap.counter ≡ new
      → Step s (record s { pending = tap ∷ s.pending })
  writes :
      (s : Server) (tap : Tap) (before after : List Tap) (now : ℕ)
      → s.pending ≡ before ++ tap ∷ after
      → Step s (
          let (rows, changed) = upsert tap.identifier tap.counter now s.rows in
          record {
            rows = rows;
            pending = before ++ after;
            accepted = elim (verdict_of changed) [ new ↦ tap ∷ s.accepted | replay ↦ s.accepted ];
          })

pub data Reach (s : Server) : Server → Type 0 where
  here : Reach s s
  next : {t u : Server} → Reach s t → Step t u → Reach s u

-- The mark of a chip; a chip that is not there is below every counter.
abbrev MarkAbove : ℕ → Option CounterState → Type 0
MarkAbove n none = ⊥
MarkAbove n (some state) = n ≤ state.c

abbrev Marked : List CounterRow → List Tap → Type 0
Marked rows = All (λ t. MarkAbove t.counter (stored_floor rows t.identifier))

-- A tap has a greater counter than the taps of its chip that were accepted before it.
abbrev pub Grows : List Tap → Type 0
Grows [] = Unit
Grows (t ∷ ts) = All (λ u. u.identifier ≡ t.identifier → u.counter < t.counter) ts × Grows ts

floor-upsert :
    (rows : List CounterRow) (identifier other : String) (counter now : ℕ)
    → stored_floor (upsert identifier counter now rows).0 other ≡ (
        if identifier == other && (upsert identifier counter now rows).1
        then some (record { c = counter })
        else stored_floor rows other)
unfolding stored_floor upsert
floor-upsert [] identifier other counter now = ground (arith, eq_iff identifier other)
floor-upsert (row ∷ rows) identifier other counter now = ground (
  arith,
  eq_iff row.identifier identifier,
  eq_iff row.identifier other,
  eq_iff identifier other,
  floor-upsert rows identifier other counter now,
)

-- A row is changed exactly if the chip's mark is below the counter or is not there.
changed-upsert :
    (rows : List CounterRow) (identifier : String) (counter now : ℕ)
    → verdict_of (upsert identifier counter now rows).1
      ≡ evaluate_counter (stored_floor rows identifier) counter
unfolding stored_floor upsert evaluate_counter verdict_of
changed-upsert [] identifier counter now = refl
changed-upsert (row ∷ rows) identifier counter now =
    ground (arith, changed-upsert rows identifier counter now)

lt_of_new :
    (floor : Option CounterState) (n counter : ℕ)
    → MarkAbove n floor
    → evaluate_counter floor counter ≡ new
    → n < counter
unfolding evaluate_counter
lt_of_new none n counter h e = absurd h
lt_of_new (some state) n counter h e = ground arith

record IsGood (s : Server) : Type 0 where
  grows : Grows s.accepted
  marked : Marked s.rows s.accepted

module _ (s : Server) (tap : Tap) (now : ℕ) where
  abbrev rows' : List CounterRow
  rows' = (upsert tap.identifier tap.counter now s.rows).0

  abbrev changed : Bool
  changed = (upsert tap.identifier tap.counter now s.rows).1

  changed_new :
      changed ≡ true → evaluate_counter (stored_floor s.rows tap.identifier) tap.counter ≡ new
  unfolding verdict_of
  changed_new e = sym (changed-upsert s.rows tap.identifier tap.counter now) ∙ ap verdict_of e

  raised :
      (u : Tap)
      → tap.identifier ≡ u.identifier
      → changed ≡ true
      → stored_floor rows' u.identifier ≡ some (record { c = tap.counter })
  raised u same e =
      floor-upsert s.rows tap.identifier u.identifier tap.counter now
      ∙ ground (arith, eq_iff tap.identifier u.identifier)

  -- A mark is only raised.
  mark_kept :
      (u : Tap)
      → MarkAbove u.counter (stored_floor s.rows u.identifier)
      → MarkAbove u.counter (stored_floor rows' u.identifier)
  mark_kept u h = elim (Bool-cases (tap.identifier == u.identifier && changed)) [
    | inr other ↦ rw (floor-upsert s.rows tap.identifier u.identifier tap.counter now, other) h
    | inl both ↦
        let same : tap.identifier ≡ u.identifier =
          ground (arith, eq_iff tap.identifier u.identifier) in
        let e : changed ≡ true = ground arith in
        let lower =
          lt_of_new (stored_floor s.rows tap.identifier) u.counter tap.counter
            (subst (λ i. MarkAbove u.counter (stored_floor s.rows i)) (sym same) h)
            (changed_new e) in
        rw (raised u same e) (omega arith)
  ]

  accepted_grows :
      evaluate_counter (stored_floor s.rows tap.identifier) tap.counter ≡ new
      → IsGood s
      → Grows (tap ∷ s.accepted)
  accepted_grows e g = (
    All-map _ _ s.accepted
        (λ u h same.
          lt_of_new (stored_floor s.rows tap.identifier) u.counter tap.counter
            (subst (λ i. MarkAbove u.counter (stored_floor s.rows i)) same h) e)
        g.marked,
    g.grows,
  )

  accepted_marked : changed ≡ true → MarkAbove tap.counter (stored_floor rows' tap.identifier)
  accepted_marked e = rw (raised tap refl e) (omega arith)

  -- The write of a request, by its verdict.
  written-IsGood :
      (pending : List Tap) (verdict : CounterVerdict)
      → verdict_of changed ≡ verdict
      → IsGood s
      → IsGood (record {
        rows = rows';
        pending = pending;
        accepted = elim verdict [ new ↦ tap ∷ s.accepted | replay ↦ s.accepted ];
      })
  unfolding verdict_of
  written-IsGood pending new e g =
      let e' : changed ≡ true = ground arith in
      record {
        grows = accepted_grows (changed_new e') g;
        marked = (accepted_marked e', All-map _ _ s.accepted mark_kept g.marked);
      }
  written-IsGood pending replay e g = record {
    grows = g.grows;
    marked = All-map _ _ s.accepted mark_kept g.marked;
  }

Step-IsGood : {s t : Server} → Step s t → IsGood s → IsGood t
Step-IsGood (reads s tap e) g = record { grows = g.grows; marked = g.marked }
Step-IsGood (writes s tap before after now e) g =
    written-IsGood s tap now (before ++ after)
      (verdict_of (upsert tap.identifier tap.counter now s.rows).1) refl g

Reach-IsGood : {s t : Server} → IsGood s → Reach s t → IsGood t
Reach-IsGood g here = g
Reach-IsGood g (next r step) = Step-IsGood step (Reach-IsGood g r)

-- Whatever the rows at first, and in whatever order the statements of any requests run, each tap
-- that is answered `new` has a greater counter than the taps of its chip answered `new` before it:
-- no counter of a chip is accepted twice.
pub Reach-Grows :
    (rows : List CounterRow) (s : Server)
    → Reach (record { rows = rows; pending = []; accepted = [] }) s
    → Grows s.accepted
Reach-Grows rows s r = (Reach-IsGood (record { grows = tt; marked = tt }) r).grows

-- The chip has no mark, or one below the counter.
abbrev pub IsBelow : Option CounterState → ℕ → Type 0
IsBelow none counter = Unit
IsBelow (some state) counter = state.c < counter

evaluate_iff :
    (floor : Option CounterState) (counter : ℕ)
    → (evaluate_counter floor counter ≡ new) ↔ IsBelow floor counter
unfolding evaluate_counter
evaluate_iff none counter = (λ _. tt, λ _. refl)
evaluate_iff (some state) counter = (λ e. ground arith, λ h. ground arith)

verdict-cases : (v : CounterVerdict) → (v ≡ new) ⊎ (v ≡ replay)
verdict-cases new = inl refl
verdict-cases replay = inr refl

module _ (now : ℕ) (rows : List CounterRow) (identifier : String) (counter : ℕ) where
  abbrev answer : List CounterRow × CounterVerdict
  answer = consume_counter_session now rows identifier counter

  consumes :
      evaluate_counter (stored_floor rows identifier) counter ≡ new
      → (answer ≡ ((upsert identifier counter now rows).0, new))
        × ((upsert identifier counter now rows).1 ≡ true)
  unfolding consume_counter_session verdict_of
  consumes e =
      let v = changed-upsert rows identifier counter now ∙ e in
      (rw (consume_counter_session, e, v) refl, ground arith)

  refuses :
      evaluate_counter (stored_floor rows identifier) counter ≡ replay → answer ≡ (rows, replay)
  unfolding consume_counter_session
  refuses e = rw (consume_counter_session, e) refl

  -- Run alone, a call either answers `new` to a chip that has no mark or one below the counter, and
  -- then the chip's mark is the counter and every other chip keeps its mark; or it answers `replay`
  -- to a chip whose mark is not below the counter, and then the rows stay.
  pub consume_exact :
      (other : String)
      → (((consume_counter_session now rows identifier counter).1 ≡ new)
          × IsBelow (stored_floor rows identifier) counter
          × (stored_floor (consume_counter_session now rows identifier counter).0 other ≡ (
              if identifier == other
              then some (record { c = counter })
              else stored_floor rows other)))
        ⊎ ((consume_counter_session now rows identifier counter ≡ (rows, replay))
            × (¬ IsBelow (stored_floor rows identifier) counter))
  consume_exact other =
      let below = evaluate_iff (stored_floor rows identifier) counter in
      elim (verdict-cases (evaluate_counter (stored_floor rows identifier) counter)) [
        | inl e ↦
            let (f, changed) = consumes e in
            inl (
              ap (λ a. a.1) f,
              below.0 e,
              ap (λ a. stored_floor a.0 other) f
                  ∙ floor-upsert rows identifier other counter now
                  ∙ ground arith,
            )
        | inr e ↦ inr (refuses e, λ h. let g = sym (below.1 h) ∙ e in cc)
      ]
