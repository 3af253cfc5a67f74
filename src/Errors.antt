-- ===== src/Errors.antt =====
-- workers/shared/errors.ts: coded errors and their canonical response. `details`, which only
-- inform the client, are not modelled.
use phygital_wallet.Common.{
  ℕ, String, ◌≡◌, refl, ◌⊎◌, inl, inr, Bool, ◌||◌, Option, none, some, ◌==◌, if◌then◌else◌,
}

pub record CodedError : Type 0 where
  pub message : String
  pub code : String
  pub status : Option ℕ
  pub soft : Option Bool

-- What can be thrown: a coded error, an `Error` with a message, or another value.
pub data Thrown : Type 0 where
  coded_error : CodedError → Thrown
  plain_error : String → Thrown
  other_value : Thrown

unfoldable pub coded : String → String → Thrown
coded message code =
    coded_error (record { message = message; code = code; status = none; soft = none })

unfoldable pub get_error_message : Thrown → String → String
get_error_message (coded_error e) fallback = if e.message == "" then fallback else e.message
get_error_message (plain_error message) fallback = if message == "" then fallback else message
get_error_message other_value fallback = fallback

pub record NormalizedError : Type 0 where
  pub error : String
  pub code : String
  pub status : ℕ
  pub soft : Option Bool

unfoldable pub status_for_code : String → ℕ → ℕ
status_for_code code fallback_status =
    if code == "signer_misconfigured" || code == "fee_misconfigured"
    then 500
    else if code == "fee_payer_mismatch" || code == "insufficient_fee_balance"
    then 403
    else if code == "invalid_transaction"
        || code == "unexpected_instruction"
        || code == "token_mismatch"
    then 400
    else fallback_status

pub record Fallback : Type 0 where
  pub message : Option String
  pub code : Option String
  pub status : Option ℕ

abbrev or_else {ℓ} : {A : Type ℓ} → Option A → A → A
or_else none a = a
or_else (some b) a = b

abbrev code_of : Thrown → Option String → String
code_of (coded_error e) fallback = e.code
code_of (plain_error m) fallback = or_else fallback "invalid_transaction"
code_of other_value fallback = or_else fallback "invalid_transaction"

abbrev status_of : Thrown → Option ℕ
status_of (coded_error e) = e.status
status_of (plain_error m) = none
status_of other_value = none

abbrev soft_of : Thrown → Option Bool
soft_of (coded_error e) = e.soft
soft_of (plain_error m) = none
soft_of other_value = none

unfoldable pub normalize_error : Thrown → Fallback → NormalizedError
unfolding get_error_message status_for_code
normalize_error err fallback =
    let code = code_of err fallback.code in
    record {
      error = get_error_message err (or_else fallback.message "Request failed");
      code = code;
      status = or_else (status_of err) (status_for_code code (or_else fallback.status 400));
      soft = soft_of err;
    }

-- What a call gives: what it threw, or its value.
pub data Result {ℓ} (A : Type ℓ) : Type ℓ where
  err : Thrown → Result A
  ok : A → Result A

module _ {ℓ κ} {A : Type ℓ} {B : Type κ} where
  infixl 5 ◌>>=◌
  abbrev pub ◌>>=◌ : Result A → (A → Result B) → Result B
  err thrown >>= _ = err thrown
  ok x >>= next = next x

  -- Where a chain gives a value, its first call gave one.
  pub >>=-eq-ok :
      (r : Result A) (next : A → Result B) {y : B}
      → (r >>= next) ≡ ok y
      → (x : A) × (r ≡ ok x) × (next x ≡ ok y)
  >>=-eq-ok (err thrown) next e = cc
  >>=-eq-ok (ok x) next e = (x, refl, e)

pub Result-cases {ℓ} :
    {A : Type ℓ} (r : Result A) → ((a : A) × (r ≡ ok a)) ⊎ ((e : Thrown) × (r ≡ err e))
Result-cases (ok a) = inl (a, refl)
Result-cases (err e) = inr (e, refl)

infixl 5 ◌>>◌
abbrev pub ◌>>◌ {ℓ} : {B : Type ℓ} → Result (Unit {0}) → Result B → Result B
first >> second = first >>= λ _. second
