-- ===== src/Common/Table.antt =====
-- Tables of rows, with the SQL statements that the program runs on them; predicates on all rows.
use Prim.Native.Nat.{ℕ, suc, ◌+◌, ◌≤◌}
use mathlib.Core.Path.{◌≡◌, refl, subst}
use mathlib.Core.Logic.{◌↔◌, inl, inr}
use mathlib.Core.Bool.{Bool, true, false, ◌&&◌}
use mathlib.Core.Option.{Option, none, some}
use mathlib.Core.List.{List, [], ◌∷◌, ◌++◌}
use native.Mathlib.Omega.{arith}
use phygital_wallet.Common.Tests.{if◌then◌else◌, Bool-cases}

module _ {ℓ} {A : Type ℓ} where
  abbrev pub length : List A → ℕ
  length [] = 0
  length (x ∷ xs) = suc (length xs)

  -- `SELECT … WHERE p`, its first row
  abbrev pub select_first : (A → Bool) → List A → Option A
  select_first p [] = none
  select_first p (x ∷ xs) = if p x then some x else select_first p xs

  -- `SELECT COALESCE(SUM(f), 0) … WHERE p`
  abbrev pub select_sum : (A → ℕ) → (A → Bool) → List A → ℕ
  select_sum f p [] = 0
  select_sum f p (x ∷ xs) = (if p x then f x else 0) + select_sum f p xs

  -- `SELECT COUNT(*) … WHERE p`
  abbrev pub select_count : (A → Bool) → List A → ℕ
  select_count p = select_sum (λ _. 1) p

  -- `DELETE … WHERE p`, the rows left
  abbrev pub delete_where : (A → Bool) → List A → List A
  delete_where p [] = []
  delete_where p (x ∷ xs) = let rest = delete_where p xs in if p x then rest else x ∷ rest

  abbrev pub is_none : Option A → Bool
  is_none none = true
  is_none (some _) = false

  abbrev pub any : (A → Bool) → List A → Bool
  any p [] = false
  any p (x ∷ xs) = if p x then true else any p xs

  abbrev pub all : (A → Bool) → List A → Bool
  all p [] = true
  all p (x ∷ xs) = p x && all p xs

module _ {ℓ} {A : Type ℓ} where
  pub length-append : (xs ys : List A) → length (xs ++ ys) ≡ length xs + length ys
  length-append [] ys = omega arith
  length-append (x ∷ xs) ys = omega (arith, length-append xs ys)

module _ {ℓ κ} {A : Type ℓ} where
  abbrev pub All : (A → Type κ) → List A → Type κ
  All P [] = Unit
  All P (x ∷ xs) = P x × All P xs

module _ {ℓ} {A : Type ℓ} (f : A → ℕ) where
  pub select_sum-delete-le :
      (p q : A → Bool) (xs : List A) → select_sum f p (delete_where q xs) ≤ select_sum f p xs
  select_sum-delete-le p q [] = omega arith
  select_sum-delete-le p q (x ∷ xs) = ground (arith, select_sum-delete-le p q xs)

  pub select_sum-append :
      (p : A → Bool) (xs ys : List A)
      → select_sum f p (xs ++ ys) ≡ select_sum f p xs + select_sum f p ys
  select_sum-append p [] ys = omega arith
  select_sum-append p (x ∷ xs) ys = ground (arith, select_sum-append p xs ys)

module _ {ℓ} {A : Type ℓ} where
  -- After `DELETE … WHERE p` no row fits `p`.
  pub select_first-delete_self :
      (p : A → Bool) (xs : List A) → select_first p (delete_where p xs) ≡ none
  select_first-delete_self p [] = refl
  select_first-delete_self p (x ∷ xs) = ground (arith, select_first-delete_self p xs)

  pub select_first-fits :
      (p : A → Bool) (xs : List A) (a : A) → select_first p xs ≡ some a → p a ≡ true
  select_first-fits p [] a h = ground arith
  select_first-fits p (x ∷ xs) a h = ground (arith, select_first-fits p xs a)

  pub length-delete :
      (p : A → Bool) (xs : List A) → length (delete_where p xs) + select_count p xs ≡ length xs
  length-delete p [] = omega arith
  length-delete p (x ∷ xs) = ground (arith, length-delete p xs)

module _ {ℓ κ} {A : Type ℓ} (P : A → Type κ) where
  pub All-delete : (p : A → Bool) (xs : List A) → All P xs → All P (delete_where p xs)
  All-delete p [] h = tt
  All-delete p (x ∷ xs) (h, hs) =
      elim (p x) as (λ b. All P (if b then delete_where p xs else x ∷ delete_where p xs)) [
        | true ↦ All-delete p xs hs
        | false ↦ (h, All-delete p xs hs)
      ]

  pub All-append : (xs : List A) (y : A) → All P xs → P y → All P (xs ++ y ∷ [])
  All-append [] y h k = (k, tt)
  All-append (x ∷ xs) y (h, hs) k = (h, All-append xs y hs k)

  pub All-select :
      (p : A → Bool) (xs : List A) (a : A) → All P xs → select_first p xs ≡ some a → P a
  All-select p [] a h e = ground arith
  All-select p (x ∷ xs) a (h, hs) e = elim (Bool-cases (p x)) [
    | inl here ↦ subst P (ground arith) h
    | inr later ↦ All-select p xs a hs (ground arith)
  ]

module _ {ℓ} {A : Type ℓ} (f : A → ℕ) where
  pub select_sum_mono :
      (p q : A → Bool) (xs : List A)
      → ((x : A) → p x ≡ true → q x ≡ true)
      → select_sum f p xs ≤ select_sum f q xs
  select_sum_mono p q [] h = omega arith
  select_sum_mono p q (x ∷ xs) h = ground (arith, h x, select_sum_mono p q xs h)

  pub select_sum-none :
      (p : A → Bool) (xs : List A) → select_first p xs ≡ none → select_sum f p xs ≡ 0
  select_sum-none p [] h = refl
  select_sum-none p (x ∷ xs) h = ground (arith, select_sum-none p xs)

  -- Deleting rows outside `p` leaves the sum over `p`.
  pub select_sum-delete_outside :
      (p q : A → Bool) (xs : List A)
      → ((x : A) → q x ≡ true → p x ≡ false)
      → select_sum f p (delete_where q xs) ≡ select_sum f p xs
  select_sum-delete_outside p q [] h = refl
  select_sum-delete_outside p q (x ∷ xs) h = ground (arith, h x, select_sum-delete_outside p q xs h)

module _ {ℓ κ} {A : Type ℓ} (P R : A → Type κ) where
  pub All-delete_map :
      (p : A → Bool) (xs : List A)
      → ((x : A) → P x → p x ≡ false → R x)
      → All P xs
      → All R (delete_where p xs)
  All-delete_map p [] f h = tt
  All-delete_map p (x ∷ xs) f (h, hs) = elim (Bool-cases (p x)) [
    | inl e ↦ rw e (All-delete_map p xs f hs)
    | inr e ↦ rw e (f x h e, All-delete_map p xs f hs)
  ]

  pub All-map : (xs : List A) → ((x : A) → P x → R x) → All P xs → All R xs
  All-map [] f h = tt
  All-map (x ∷ xs) f (h, hs) = (f x h, All-map xs f hs)

pub any-All :
    {A : Type 0} (p : A → Bool) (xs : List A) → (any p xs ≡ false) ↔ All (λ x. p x ≡ false) xs
any-All p [] = (λ _. tt, λ _. refl)
any-All p (x ∷ xs) = elim (Bool-cases (p x)) [
  | inl e ↦ ground arith
  | inr e ↦ ground (arith, any-All p xs)
]
