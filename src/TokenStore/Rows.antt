-- ===== src/TokenStore/Rows.antt =====
-- token-store.ts: where the rows that a call leaves in the reserve table come from.
use mathlib.Core.Bool.{false≢true}
use phygital_wallet.Common.{
  ℕ, String, ◌≡◌, ◌≢◌, inl, inr, refl, sym, true, false, Bool, not, ◌||◌, arith, eq_iff, ◌==◌, ℤ,
  is_positive, pos_part, All, All-delete, All-append, All-delete_map, select_first, if◌then◌else◌,
  Option-cases, leb, ltb,
}
use phygital_wallet.TokenStore.{
  Store, Reserve, reserve, admit, rebind_reserve, move_reserve, delete_reserve, has_id, reserve_row,
  is_open, is_expired, get_open_reserve_count, get_available_lamports, max_concurrent_fee_reserves,
}

module _ (P : Reserve → Type 0) where
  abbrev pub Rows : Store → Type 0
  Rows s = All P s.fee_reserves

  Rows-if : (b : Bool) (x y : Bool × Store) → Rows x.1 → Rows y.1 → Rows (if b then x else y).1
  Rows-if true x y h k = h
  Rows-if false x y h k = k

  Rows-admit :
      (id : String) (lamports ttl now : ℕ) (s : Store)
      → P (reserve_row id lamports ttl now)
      → Rows s
      → Rows (admit id lamports ttl now s).1
  unfolding admit
  Rows-admit id lamports ttl now s new h =
      Rows-if (leb max_concurrent_fee_reserves (get_open_reserve_count now s)) _ _ h (
        Rows-if (ltb (get_available_lamports now s) lamports) _ _ h
          (All-append P s.fee_reserves _ h new))

  -- `reserve` adds at most its own row.
  pub Rows-reserve :
      (id : String) (lamports : ℤ) (ttl now : ℕ) (s : Store)
      → P (reserve_row id (pos_part lamports) ttl now)
      → Rows s
      → Rows (reserve id lamports ttl now s).1
  unfolding reserve
  Rows-reserve id lamports ttl now s new h =
      Rows-if (not (is_positive lamports) || id == "") _ _ h
        (elim (Option-cases (select_first (has_id id) s.fee_reserves)) [
          | inl e ↦ rw e (Rows-admit id (pos_part lamports) ttl now s new h)
          | inr (row, e) ↦ rw e (
              Rows-if (is_open now row) _ _ h (
                Rows-admit id (pos_part lamports) ttl now (delete_reserve id s) new
                  (All-delete P (has_id id) s.fee_reserves h)))
        ])

-- The rows of a call, where it answers `b`.
abbrev Made : Bool → (Reserve → Type 0) → Bool × Store → Type 0
Made b P x = x.0 ≡ b → Rows P x.1

Made-if :
    (b : Bool) (P : Reserve → Type 0) (c : Bool) (x y : Bool × Store)
    → Made b P x
    → Made b P y
    → Made b P (if c then x else y)
Made-if b P true x y h k = h
Made-if b P false x y h k = k

-- A refused reserve adds no row.
Rows-unadmitted :
    (P : Reserve → Type 0) (id : String) (lamports ttl now : ℕ) (s : Store)
    → Rows P s
    → Made false P (admit id lamports ttl now s)
unfolding admit
Rows-unadmitted P id lamports ttl now s h =
    Made-if false P (leb max_concurrent_fee_reserves (get_open_reserve_count now s)) _ _ (λ _. h)
      (Made-if false P (ltb (get_available_lamports now s) lamports) _ _ (λ _. h)
        (λ e. elim (false≢true (sym e)) [ ]))

pub Rows-refused :
    (P : Reserve → Type 0) (id : String) (lamports : ℤ) (ttl now : ℕ) (s : Store)
    → Rows P s
    → (reserve id lamports ttl now s).0 ≡ false
    → Rows P (reserve id lamports ttl now s).1
unfolding reserve
Rows-refused P id lamports ttl now s h =
    Made-if false P (not (is_positive lamports) || id == "") _ _ (λ _. h)
      (elim (Option-cases (select_first (has_id id) s.fee_reserves)) [
        | inl e ↦ rw e (Rows-unadmitted P id (pos_part lamports) ttl now s h)
        | inr (row, e) ↦ rw e (
            Made-if false P (is_open now row) _ _ (λ f. elim (false≢true (sym f)) [ ])
              (Rows-unadmitted P id (pos_part lamports) ttl now (delete_reserve id s)
                (All-delete P (has_id id) s.fee_reserves h)))
      ])

Rows-move :
    (R : Reserve → Type 0) (from_id to_id : String) (row : Reserve) (s : Store)
    → ((r : Reserve) → r.id ≡ to_id → R r)
    → Rows R (delete_reserve from_id s)
    → Rows R (move_reserve from_id to_id row s).1
unfolding move_reserve
Rows-move R from_id to_id row s moved left =
    elim (Option-cases (select_first (has_id to_id) (delete_reserve from_id s).fee_reserves)) [
      | inl e ↦ rw (e, move_reserve) (All-append R _ _ left (moved _ refl))
      | inr (there, e) ↦ rw (e, move_reserve) left
    ]

-- A rebinding that happens leaves the rows of other ids, and a row of the new id.
pub Rows-rebind :
    (P R : Reserve → Type 0) (from_id to_id : String) (now : ℕ) (s : Store)
    → ((r : Reserve) → P r → r.id ≢ from_id → R r)
    → ((r : Reserve) → r.id ≡ to_id → R r)
    → Rows P s
    → (rebind_reserve from_id to_id now s).0 ≡ true
    → Rows R (rebind_reserve from_id to_id now s).1
unfolding rebind_reserve
Rows-rebind P R from_id to_id now s stay moved h =
    let left =
      All-delete_map P R (has_id from_id) s.fee_reserves
        (λ r p e. stay r p (ground (arith, eq_iff r.id from_id))) h in
    Made-if true R (from_id == "" || to_id == "" || from_id == to_id) _ _
      (λ e. elim (false≢true e) [ ])
      (elim (Option-cases (select_first (has_id from_id) s.fee_reserves)) [
        | inl e ↦ rw e (λ f. elim (false≢true f) [ ])
        | inr (row, e) ↦ rw e (
            Made-if true R (is_expired now row) _ _ (λ f. elim (false≢true f) [ ])
              (λ _. Rows-move R from_id to_id row s moved left))
      ])
