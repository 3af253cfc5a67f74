-- ===== src/TokenSigner/Monad/Posts.antt =====
-- What holds at the end of a body of token-signer.ts, by the three ways it may end.
use phygital_wallet.Common.{◌≡◌, refl, true, false, Bool, if◌then◌else◌}
use phygital_wallet.Errors.{Result, ok, err}
use phygital_wallet.TokenSigner.Monad.{
  M, Flow, go, returned, thrown, Attempt, SignResult, lift, continue,
}

-- `C` where the body returned early, `E` where it threw, `Q` where it goes on with a value.
module _ (C : SignResult → Attempt → Type 0) (E : Attempt → Type 0) where
  abbrev pub Post {ℓ} : {A : Type ℓ} → (A → Attempt → Type 0) → Flow A × Attempt → Type 0
  Post Q (go v, a) = Q v a
  Post Q (returned r, a) = C r a
  Post Q (thrown e, a) = E a

  module _ {ℓ κ} {A : Type ℓ} {B : Type κ} (Q : A → Attempt → Type 0)
      (R : B → Attempt → Type 0) where
    pub Post-continue :
        (x : Flow A × Attempt) (f : A → M B)
        → Post Q x
        → ((v : A) (a : Attempt) → Q v a → Post R (f v a))
        → Post R (continue x f)
    Post-continue (go v, a) f h k = k v a h
    Post-continue (returned r, a) f h k = h
    Post-continue (thrown e, a) f h k = h

  module _ {ℓ} {A : Type ℓ} (Q R : A → Attempt → Type 0) where
    pub Post-map :
        (x : Flow A × Attempt) → ((v : A) (a : Attempt) → Q v a → R v a) → Post Q x → Post R x
    Post-map (go v, a) f h = f v a h
    Post-map (returned r, a) f h = h
    Post-map (thrown e, a) f h = h

  module _ {ℓ} {A : Type ℓ} (Q : A → Attempt → Type 0) where
    pub Post-lift :
        (r : Result A) (a : Attempt) → ((v : A) → r ≡ ok v → Q v a) → E a → Post Q (lift r a)
    Post-lift (ok v) a q e = q v refl
    Post-lift (err x) a q e = e

    pub Post-if :
        (b : Bool) (m n : M A) (a : Attempt)
        → (b ≡ true → Post Q (m a))
        → (b ≡ false → Post Q (n a))
        → Post Q ((if b then m else n) a)
    Post-if true m n a h k = h refl
    Post-if false m n a h k = k refl
