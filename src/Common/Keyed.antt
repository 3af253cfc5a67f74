-- ===== src/Common/Keyed.antt =====
-- Tables with a PRIMARY KEY: no two rows have one key.
use Prim.Native.Nat.{ℕ, ◌+◌}
use Prim.Native.String.{String}
use mathlib.Core.Path.{◌≡◌, refl}
use mathlib.Core.Bool.{Bool, true, false}
use mathlib.Core.Option.{none, some}
use mathlib.Core.List.{List, [], ◌∷◌, ◌++◌}
use native.Mathlib.Omega.{arith}
use text.Mathlib.Text.{◌==◌}
use text.Mathlib.TextEquality.{eq_iff}
use phygital_wallet.Common.Tests.{if◌then◌else◌}
use phygital_wallet.Common.Table.{select_first, select_sum, delete_where}

module _ {ℓ} {A : Type ℓ} (key : A → String) where
  abbrev pub IsKeyed : List A → Type ℓ
  IsKeyed [] = Unit
  IsKeyed (x ∷ xs) = (select_first (λ r. key r == key x) xs ≡ none) × IsKeyed xs

module _ {ℓ} {A : Type ℓ} where
  pub select_first-none-delete :
      (p q : A → Bool) (xs : List A)
      → select_first p xs ≡ none
      → select_first p (delete_where q xs) ≡ none
  select_first-none-delete p q [] h = refl
  select_first-none-delete p q (x ∷ xs) h = ground (arith, select_first-none-delete p q xs)

  pub select_first-none-append :
      (p : A → Bool) (xs : List A) (y : A)
      → select_first p xs ≡ none
      → select_first p (xs ++ y ∷ []) ≡ (if p y then some y else none)
  select_first-none-append p [] y h = refl
  select_first-none-append p (x ∷ xs) y h = ground (arith, select_first-none-append p xs y)

  -- A row that is there is found before what is appended.
  pub select_first-some-append :
      (p : A → Bool) (xs ys : List A) (a : A)
      → select_first p xs ≡ some a
      → select_first p (xs ++ ys) ≡ some a
  select_first-some-append p [] ys a h = ground arith
  select_first-some-append p (x ∷ xs) ys a h = ground (arith, select_first-some-append p xs ys a)

  -- A deletion of rows outside `p` is not seen by a search for `p`.
  pub select_first-delete_outside :
      (p q : A → Bool) (xs : List A)
      → ((x : A) → p x ≡ true → q x ≡ false)
      → select_first p (delete_where q xs) ≡ select_first p xs
  select_first-delete_outside p q [] h = refl
  select_first-delete_outside p q (x ∷ xs) h =
      ground (arith, h x, select_first-delete_outside p q xs h)

  pub delete_none : (p : A → Bool) (xs : List A) → select_first p xs ≡ none → delete_where p xs ≡ xs
  delete_none p [] h = refl
  delete_none p (x ∷ xs) h = ground (arith, delete_none p xs)

module _ {ℓ} {A : Type ℓ} (key : A → String) where
  pub IsKeyed-delete :
      (q : A → Bool) (xs : List A) → IsKeyed key xs → IsKeyed key (delete_where q xs)
  IsKeyed-delete q [] h = tt
  IsKeyed-delete q (x ∷ xs) (h, hs) =
      ground
        (arith, select_first-none-delete (λ (r : A). key r == key x) q xs, IsKeyed-delete q xs hs)

  pub IsKeyed-append :
      (xs : List A) (y : A)
      → IsKeyed key xs
      → select_first (λ r. key r == key y) xs ≡ none
      → IsKeyed key (xs ++ y ∷ [])
  IsKeyed-append [] y h k = (refl, tt)
  IsKeyed-append (x ∷ xs) y (h, hs) k = ground (
    arith,
    select_first-none-append (λ (r : A). key r == key x) xs y,
    IsKeyed-append xs y hs,
    eq_iff (key x) (key y),
    eq_iff (key y) (key x),
  )

  -- The one row of a key carries what a sum loses by its deletion.
  pub select_sum-delete_key :
      (f : A → ℕ) (p : A → Bool) (k : String) (xs : List A) (row : A)
      → IsKeyed key xs
      → select_first (λ r. key r == k) xs ≡ some row
      → select_sum f p (delete_where (λ r. key r == k) xs) + (if p row then f row else 0)
        ≡ select_sum f p xs
  select_sum-delete_key f p k [] row h e = ground arith
  select_sum-delete_key f p k (x ∷ xs) row (h, hs) e = ground (
    arith,
    select_sum-delete_key f p k xs row hs,
    eq_iff (key x) k,
    delete_none (λ (r : A). key r == key x) xs h,
    delete_none (λ (r : A). key r == k) xs,
  )
