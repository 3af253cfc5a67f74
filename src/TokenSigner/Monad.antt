-- ===== src/TokenSigner/Monad.antt =====
-- token-signer.ts: the state of the object, and the body of a call, which may return early, throw,
-- and leave what it wrote in either case.
pub mod Posts
use mathlib.Core.List.{List}
use phygital_wallet.Common.{ℕ, String, Bool, Option}
use phygital_wallet.Errors.{Thrown, Result, ok, err}
use phygital_wallet.TokenStore.{Store}

-- `#token`, whether `#store` is made, the storage and its alarm. `#backend` and `#logger` only
-- cache what the environment gives.
pub record Signer : Type 0 where
  pub token : Option String
  pub has_store : Bool
  pub store : Store
  pub alarm : Option ℕ

pub record Audit : Type 0 where
  pub fee_payer : String
  pub signature_count : ℕ
  pub reserved : ℕ

pub record Body : Type 0 where
  pub error : String
  pub code : String
  pub soft : Option Bool

pub data SignResult : Type 0 where
  signed : List String → Option Audit → SignResult
  failed : ℕ → Body → SignResult

-- The object with the variables of `signTransactions`.
pub record Attempt : Type 0 where
  pub signer : Signer
  pub reserved_ids : List String
  pub signatures : List String
  pub fee_payer_seen : Option String

pub data Flow {ℓ} (A : Type ℓ) : Type ℓ where
  go : A → Flow A
  returned : SignResult → Flow A
  thrown : Thrown → Flow A

abbrev pub M {ℓ} : Type ℓ → Type ℓ
M A = Attempt → Flow A × Attempt

module _ {ℓ} {A : Type ℓ} where
  abbrev pub pure : A → M A
  pure a s = (go a, s)

  abbrev pub give : SignResult → M A
  give r s = (returned r, s)

  abbrev pub lift : Result A → M A
  lift (ok a) s = (go a, s)
  lift (err e) s = (thrown e, s)

  abbrev pub gets : (Attempt → A) → M A
  gets f s = (go (f s), s)

abbrev pub modify : (Attempt → Attempt) → M (Unit {0})
modify f s = (go tt, f s)

module _ {ℓ κ} {A : Type ℓ} {B : Type κ} where
  abbrev pub continue : Flow A × Attempt → (A → M B) → Flow B × Attempt
  continue (go a, s) f = f a s
  continue (returned r, s) f = (returned r, s)
  continue (thrown e, s) f = (thrown e, s)

  infixl 5 ◌>>=◌
  abbrev pub ◌>>=◌ : M A → (A → M B) → M B
  ◌>>=◌ m f s = continue (m s) f

infixl 5 ◌>>◌
abbrev pub ◌>>◌ {ℓ} : {B : Type ℓ} → M (Unit {0}) → M B → M B
m >> k = m >>= λ _. k
