-- ===== src/SecureSigner/State/Replay.antt =====
-- state.ts: how long a request id stays remembered.
use mathlib.Core.List.{append_assoc}
use mathlib.Core.Path.{subst}
use phygital_wallet.Common.{
  ℕ, ◌+◌, ◌≤◌, ◌<◌, suc, String, ◌≡◌, refl, true, false, none, some, List, [], ◌∷◌, ◌++◌, arith,
  ◌==◌, eq_refl, length, ltb, IsKeyed, IsKeyed-append, delete_where, select_first, delete_none,
  Bool-cases, inl, inr, sym, ap, ◌∙◌, if◌then◌else◌,
}
use phygital_wallet.SecureSigner.{replay_rejected}
use phygital_wallet.SecureSigner.State.{
  SignerState, has, remember, check_freshness_and_replay, seen_request_ids_limit, evict,
}

-- The two collections agree, without a repetition, and are bounded.
pub record IsBounded (s : SignerState) : Type 0 where
  pub same : s.seen ≡ s.seen_order
  pub once : IsKeyed (λ (x : String). x) s.seen_order
  pub small : length s.seen_order ≤ seen_request_ids_limit

pub remember_all : List String → SignerState → SignerState
remember_all [] s = s
remember_all (id ∷ ids) s = remember_all ids (remember id s)

delete-head :
    (x : String) (xs : List String)
    → IsKeyed (λ (y : String). y) (x ∷ xs)
    → delete_where (λ y. y == x) (x ∷ xs) ≡ xs
delete-head x xs (alone, _) = ground (arith, eq_refl x, delete_none (λ y. y == x) xs alone)

not_seen :
    (id : String) (ids : List String) → has id ids ≡ false → select_first (λ x. x == id) ids ≡ none
not_seen id [] h = refl
not_seen id (x ∷ xs) h = ground (arith, not_seen id xs)

-- One new id, in terms of the list of ids.
abbrev pushed : List String → String → List String
pushed ids id = ids ++ id ∷ []

abbrev keep_last : List String → List String
keep_last [] = []
keep_last (x ∷ xs) = if ltb seen_request_ids_limit (length (x ∷ xs)) then xs else x ∷ xs

evict-keep_last :
    (ids : List String) (s : SignerState)
    → IsKeyed (λ (x : String). x) ids
    → ((if ltb seen_request_ids_limit (length ids)
          then evict ids ids s
          else record s { seen = ids; seen_order = ids }).seen
        ≡ keep_last ids)
      × ((if ltb seen_request_ids_limit (length ids)
            then evict ids ids s
            else record s { seen = ids; seen_order = ids }).seen_order
          ≡ keep_last ids)
evict-keep_last [] s k = (refl, refl)
evict-keep_last (x ∷ xs) s k = elim (Bool-cases (ltb seen_request_ids_limit (length (x ∷ xs)))) [
  | inl e ↦ rw e (delete-head x xs k, refl)
  | inr e ↦ rw e (refl, refl)
]

remember_new :
    (id : String) (s : SignerState)
    → IsBounded s
    → has id s.seen ≡ false
    → ((remember id s).seen ≡ keep_last (pushed s.seen_order id))
      × ((remember id s).seen_order ≡ keep_last (pushed s.seen_order id))
unfolding remember
remember_new id s v new =
    rw (new, v.same)
      (evict-keep_last (pushed s.seen_order id) (record s { seen = s.seen_order })
        (IsKeyed-append (λ (x : String). x) s.seen_order id v.once
          (not_seen id s.seen_order (rw v.same at new))))

length-push : (id : String) (ids : List String) → length (ids ++ id ∷ []) ≡ length ids + 1
length-push id [] = refl
length-push id (x ∷ xs) = ground (arith, length-push id xs)

keep_last-IsKeyed :
    (ids : List String)
    → IsKeyed (λ (x : String). x) ids
    → IsKeyed (λ (x : String). x) (keep_last ids)
keep_last-IsKeyed [] k = k
keep_last-IsKeyed (x ∷ xs) k = elim (Bool-cases (ltb seen_request_ids_limit (length (x ∷ xs)))) [
  | inl e ↦ rw e k.1
  | inr e ↦ rw e k
]

length-keep_last :
    (ids : List String)
    → length ids ≤ seen_request_ids_limit + 1
    → length (keep_last ids) ≤ seen_request_ids_limit
length-keep_last [] h = omega arith
length-keep_last (x ∷ xs) h = ground arith

pub remember-IsBounded : (id : String) (s : SignerState) → IsBounded s → IsBounded (remember id s)
unfolding remember
remember-IsBounded id s v = elim (Bool-cases (has id s.seen)) [
  | inl e ↦ rw (e, remember) v
  | inr e ↦
      let (seen, order) = remember_new id s v e in
      record {
        same = seen ∙ sym order;
        once =
            subst (λ ids. IsKeyed (λ (x : String). x) ids) (sym order)
              (keep_last-IsKeyed (pushed s.seen_order id) (
                IsKeyed-append (λ (x : String). x) s.seen_order id v.once
                  (not_seen id s.seen_order (rw v.same at e))));
        small =
            subst (λ ids. length ids ≤ seen_request_ids_limit) (sym order)
              (length-keep_last (pushed s.seen_order id)
                (ground (arith, length-push id s.seen_order, v.small)));
      }
]

pub remember_all-IsBounded :
    (ids : List String) (s : SignerState) → IsBounded s → IsBounded (remember_all ids s)
unfolding remember_all
remember_all-IsBounded [] s v = v
remember_all-IsBounded (id ∷ ids) s v =
    remember_all-IsBounded ids (remember id s) (remember-IsBounded id s v)

-- At most `k` ids came after the id.
abbrev Kept : ℕ → String → List String → Type 0
Kept k id ids = (before after : List String) × (ids ≡ before ++ id ∷ after) × (length after ≤ k)

has-Kept : (id : String) (before after : List String) → has id (before ++ id ∷ after) ≡ true
has-Kept id [] after = ground (arith, eq_refl id)
has-Kept id (x ∷ before) after = ground (arith, has-Kept id before after)

no_more :
    (after : List String)
    → length after < seen_request_ids_limit
    → ltb seen_request_ids_limit (suc (length after)) ≡ false
no_more after h = ground arith

keep_last-Kept :
    (k : ℕ) (id : String) (before after : List String)
    → length after ≤ k
    → k < seen_request_ids_limit
    → Kept k id (keep_last (before ++ id ∷ after))
keep_last-Kept k id [] after h small = ([], after, rw (no_more after (omega arith)) refl, h)
keep_last-Kept k id (x ∷ before) after h small =
    elim (Bool-cases (ltb seen_request_ids_limit (length (x ∷ before ++ id ∷ after)))) [
      | inl e ↦ rw e (before, after, refl, h)
      | inr e ↦ rw e (x ∷ before, after, refl, h)
    ]

remember-Kept :
    (k : ℕ) (id new : String) (s : SignerState)
    → IsBounded s
    → Kept k id s.seen_order
    → k + 1 < seen_request_ids_limit
    → Kept (k + 1) id (remember new s).seen_order
unfolding remember
remember-Kept k id new s v (before, after, split, few) small = elim (Bool-cases (has new s.seen)) [
  | inl e ↦ rw e (before, after, split, omega arith)
  | inr e ↦
      let (_, order) = remember_new new s v e in
      subst (λ ids. Kept (k + 1) id ids)
        (sym (
          order
          ∙ ap (λ ids. keep_last (ids ++ new ∷ [])) split
          ∙ ap keep_last (append_assoc before (id ∷ after) (new ∷ []))))
        (keep_last-Kept (k + 1) id before (after ++ new ∷ [])
          (ground (arith, length-push new after)) small)
]

remember_all-Kept :
    (ids : List String) (k : ℕ) (id : String) (s : SignerState)
    → IsBounded s
    → Kept k id s.seen_order
    → k + length ids < seen_request_ids_limit
    → Kept (k + length ids) id (remember_all ids s).seen_order
unfolding remember_all
remember_all-Kept [] k id s v h small = subst (λ n. Kept n id s.seen_order) (omega arith) h
remember_all-Kept (new ∷ ids) k id s v h small =
    subst (λ n. Kept n id (remember_all ids (remember new s)).seen_order) (omega arith)
      (remember_all-Kept ids (k + 1) id (remember new s) (remember-IsBounded new s v)
        (remember-Kept k id new s v h (omega arith)) (omega arith))

seen_of_Kept :
    (k : ℕ) (id : String) (s : SignerState)
    → IsBounded s
    → Kept k id s.seen_order
    → has id s.seen ≡ true
seen_of_Kept k id s v (before, after, split, _) = rw (v.same ∙ split) (has-Kept id before after)

fresh-check :
    (now timestamp : ℕ) (id : String) (s : SignerState)
    → check_freshness_and_replay now id timestamp s ≡ none
    → has id s.seen ≡ false
unfolding check_freshness_and_replay
fresh-check now timestamp id s h = ground arith

-- From two collections of ids that agree, without repetition and within their bound, a request that
-- is accepted and then remembered is rejected as a replay, whatever its time, as long as fewer than
-- 512 further ids are remembered, and the collections stay so.
pub replay_window :
    (now timestamp later timestamp' : ℕ) (id : String) (ids : List String) (s : SignerState)
    → IsBounded s
    → check_freshness_and_replay now id timestamp s ≡ none
    → length ids < seen_request_ids_limit
    → (check_freshness_and_replay later id timestamp' (remember_all ids (remember id s))
        ≡ some replay_rejected)
      × IsBounded (remember_all ids (remember id s))
unfolding check_freshness_and_replay
replay_window now timestamp later timestamp' id ids s v fresh few =
    let bounded = remember_all-IsBounded ids (remember id s) (remember-IsBounded id s v) in
    let (_, order) = remember_new id s v (fresh-check now timestamp id s fresh) in
    let first =
      subst (λ ids. Kept 0 id ids) (sym order)
        (keep_last-Kept 0 id s.seen_order [] (omega arith) (omega arith)) in
    let kept =
      remember_all-Kept ids 0 id (remember id s) (remember-IsBounded id s v) first (omega arith) in
    (
      rw (seen_of_Kept (0 + length ids) id (remember_all ids (remember id s)) bounded kept) refl,
      bounded,
    )
