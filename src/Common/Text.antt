-- ===== src/Common/Text.antt =====
-- JavaScript's `String.prototype.trim`.
use Prim.Native.Char.{Char, code}
use Prim.Native.Nat.{ℕ, zero, suc, ◌+◌, ◌/◌, ◌%◌, ◌<◌, ◌≤◌, ◌*◌, ◌-◌}
use Prim.Native.String.{String, [], ◌∷◌, ◌++◌, slice}
use mathlib.Core.Path.{◌≡◌, refl, sym, ap, ◌∙◌}
use mathlib.Core.Logic.{inl, inr}
use native.Mathlib.Omega.{arith}
use mathlib.Core.Bool.{Bool, true, ◌&&◌, ◌||◌}
use mathlib.Core.Option.{Option, none, some}
use text.Mathlib.Text.{◌==◌}
use text.Mathlib.TextLemmas.{nil-append, cons-append}
use phygital_wallet.Common.Tests.{leb, ltb, eqb, if◌then◌else◌, Bool-cases, ltb→lt}

-- White space and line terminators.
is_space : Char → Bool
is_space ch =
    let c = code ch in
    (leb 9 c && leb c 13)
    || eqb c 32
    || eqb c 160
    || eqb c 0x1680
    || (leb 0x2000 c && leb c 0x200a)
    || eqb c 0x2028
    || eqb c 0x2029
    || eqb c 0x202f
    || eqb c 0x205f
    || eqb c 0x3000
    || eqb c 0xfeff

trim_start : String → String
trim_start [] = []
trim_start (c ∷ s) = if is_space c then trim_start s else c ∷ s

trim_end : String → String
trim_end [] = []
trim_end (c ∷ s) = let rest = trim_end s in if rest == "" && is_space c then [] else c ∷ rest

unfoldable pub trim : String → String
unfolding is_space trim_start trim_end
trim s = trim_end (trim_start s)

-- A string that may be absent, as a condition: absent or empty is false.
abbrev pub truthy : Option String → Option String
truthy none = none
truthy (some s) = if s == "" then none else some s

-- The decimal text of a number, as a template literal gives it. Each round takes one digit off, so
-- the number of rounds is at most the number and one.
decimal : ℕ → ℕ → String
decimal zero n = ""
decimal (suc rounds) n =
    let more = decimal rounds (n / 10) in
    let last = slice "0123456789" (n % 10) (n % 10 + 1) in if ltb n 10 then last else more ++ last

unfoldable pub digits : ℕ → String
unfolding decimal
digits n = decimal (suc n) n

-- What is trimmed begins with no space, and is left by another trim.
trim_end_idem : (s : String) → trim_end (trim_end s) ≡ trim_end s
unfolding trim_end
trim_end_idem [] = refl
trim_end_idem (c ∷ s) = elim (Bool-cases (trim_end s == "" && is_space c)) [
  | inl e ↦ let cut : trim_end (c ∷ s) ≡ [] = rw (trim_end, e) refl in rw cut refl
  | inr e ↦
      let kept : trim_end (c ∷ s) ≡ c ∷ trim_end s = rw (trim_end, e) refl in
      ap trim_end kept ∙ rw (trim_end, trim_end_idem s, e) refl ∙ sym kept
]

trim_starts : (s : String) → trim_start (trim_end (trim_start s)) ≡ trim_end (trim_start s)
unfolding trim_start trim_end
trim_starts [] = refl
trim_starts (c ∷ s) = ground (arith, trim_starts s)

pub trim_idem : (s : String) → trim (trim s) ≡ trim s
unfolding trim
trim_idem s = ap trim_end (trim_starts s) ∙ trim_end_idem (trim_start s)

-- Whether SQL's `TRIM`, which takes off U+0020 only, leaves nothing.
unfoldable pub blank : String → Bool
blank [] = true
blank (c ∷ s) = eqb (code c) 32 && blank s

abbrev pub all_chars : (Char → Bool) → String → Bool
all_chars p [] = true
all_chars p (c ∷ s) = p c && all_chars p s

abbrev pub is_digit : Char → Bool
is_digit c = leb 48 (code c) && leb (code c) 57

all_chars-append :
    (p : Char → Bool) (s t : String)
    → all_chars p s ≡ true
    → all_chars p t ≡ true
    → all_chars p (s ++ t) ≡ true
all_chars-append p [] t h k = rw (nil-append t) k
all_chars-append p (c ∷ s) t h k = rw (cons-append c s t) (ground (arith, all_chars-append p s t))

all_chars-digit : (d : ℕ) → d < 10 → all_chars is_digit (slice "0123456789" d (d + 1)) ≡ true
all_chars-digit zero h = refl
all_chars-digit (suc zero) h = refl
all_chars-digit (suc (suc zero)) h = refl
all_chars-digit (suc (suc (suc zero))) h = refl
all_chars-digit (suc (suc (suc (suc zero)))) h = refl
all_chars-digit (suc (suc (suc (suc (suc zero))))) h = refl
all_chars-digit (suc (suc (suc (suc (suc (suc zero)))))) h = refl
all_chars-digit (suc (suc (suc (suc (suc (suc (suc zero))))))) h = refl
all_chars-digit (suc (suc (suc (suc (suc (suc (suc (suc zero)))))))) h = refl
all_chars-digit (suc (suc (suc (suc (suc (suc (suc (suc (suc zero))))))))) h = refl
all_chars-digit (suc (suc (suc (suc (suc (suc (suc (suc (suc (suc n)))))))))) h =
    absurd (omega arith)

all_chars-decimal : (rounds n : ℕ) → all_chars is_digit (decimal rounds n) ≡ true
unfolding decimal
all_chars-decimal zero n = refl
all_chars-decimal (suc rounds) n =
    let last = all_chars-digit (n % 10) (omega arith) in
    elim (Bool-cases (ltb n 10)) [
      | inl e ↦ rw (decimal, e) last
      | inr e ↦
          rw (decimal, e)
            (all_chars-append is_digit (decimal rounds (n / 10)) _
              (all_chars-decimal rounds (n / 10)) last)
    ]

pub all_chars-digits : (n : ℕ) → all_chars is_digit (digits n) ≡ true
unfolding digits
all_chars-digits n = all_chars-decimal (suc n) n

-- What decimals after those of `acc` are worth.
abbrev pub decimal_value : ℕ → String → ℕ
decimal_value acc [] = acc
decimal_value acc (c ∷ s) = decimal_value (acc * 10 + (code c - 48)) s

decimal_value-append :
    (acc : ℕ) (s t : String) → decimal_value acc (s ++ t) ≡ decimal_value (decimal_value acc s) t
decimal_value-append acc [] t = rw (nil-append t) refl
decimal_value-append acc (c ∷ s) t =
    rw (cons-append c s t) (decimal_value-append (acc * 10 + (code c - 48)) s t)

decimal_value-digit :
    (acc d : ℕ) → d < 10 → decimal_value acc (slice "0123456789" d (d + 1)) ≡ acc * 10 + d
decimal_value-digit acc zero h = refl
decimal_value-digit acc (suc zero) h = refl
decimal_value-digit acc (suc (suc zero)) h = refl
decimal_value-digit acc (suc (suc (suc zero))) h = refl
decimal_value-digit acc (suc (suc (suc (suc zero)))) h = refl
decimal_value-digit acc (suc (suc (suc (suc (suc zero))))) h = refl
decimal_value-digit acc (suc (suc (suc (suc (suc (suc zero)))))) h = refl
decimal_value-digit acc (suc (suc (suc (suc (suc (suc (suc zero))))))) h = refl
decimal_value-digit acc (suc (suc (suc (suc (suc (suc (suc (suc zero)))))))) h = refl
decimal_value-digit acc (suc (suc (suc (suc (suc (suc (suc (suc (suc zero))))))))) h = refl
decimal_value-digit acc (suc (suc (suc (suc (suc (suc (suc (suc (suc (suc n)))))))))) h =
    absurd (omega arith)

decimal_value-decimal : (rounds n : ℕ) → n < rounds → decimal_value 0 (decimal rounds n) ≡ n
unfolding decimal
decimal_value-decimal zero n h = absurd (omega arith)
decimal_value-decimal (suc rounds) n h = elim (Bool-cases (ltb n 10)) [
  | inl e ↦
      let small : n < 10 = ltb→lt n 10 e in
      rw (decimal, e) (decimal_value-digit 0 (n % 10) (omega arith) ∙ omega arith)
  | inr e ↦
      let big : 10 ≤ n = ground arith in
      rw (decimal, e)
        (decimal_value-append 0 (decimal rounds (n / 10)) _
          ∙ ap (λ a. decimal_value a (slice "0123456789" (n % 10) (n % 10 + 1)))
              (decimal_value-decimal rounds (n / 10) (omega arith))
          ∙ decimal_value-digit (n / 10) (n % 10) (omega arith)
          ∙ omega arith)
]

-- The decimal text of a number is worth the number.
pub decimal_value-digits : (n : ℕ) → decimal_value 0 (digits n) ≡ n
unfolding digits
decimal_value-digits n = decimal_value-decimal (suc n) n (omega arith)
