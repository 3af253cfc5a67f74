-- ===== src/Api/Activity/Cursor.antt =====
-- wallet-activity-store.ts: a cursor is read back as the position that it was written for.
use Prim.Native.Char.{Char, code}
use mathlib.Core.Path.{subst}
use text.Mathlib.TextLemmas.{nil-append, cons-append}
use phygital_wallet.Common.{
  ◌∙◌, ℕ, String, ◌≡◌, refl, ap, true, false, some, ◌<>◌, digits, all_chars, is_digit,
  all_chars-digits, eqb, arith, ◌==◌, eq_iff, none, Bool-cases, inl, inr,
}
use phygital_wallet.Api.Activity.{ActivityDbRow, Texts, encode_cursor, decode_cursor, split_colon}

-- What JavaScript documents of Number on the decimal text of a natural number.
abbrev pub ReadsDecimals : {D E : Type 0} → Texts D E → Type 0
ReadsDecimals c = (n : ℕ) → c.number (digits n) ≡ some n

abbrev colon : Char
colon = ":"

colon_first : (t : String) → ":" <> t ≡ String.◌∷◌ colon t
colon_first t = cons-append colon "" t ∙ ap (String.◌∷◌ colon) (nil-append t)

split_colon-append :
    (s t : String) → all_chars is_digit s ≡ true → split_colon (s <> (":" <> t)) ≡ (s, some t)
unfolding split_colon
split_colon-append String.[] t h = rw (nil-append (":" <> t), colon_first t) refl
split_colon-append (String.◌∷◌ c s) t h =
    let not_colon : eqb (code c) 58 ≡ false = ground arith in
    let rest : all_chars is_digit s ≡ true = ground arith in
    rw (cons-append c s (":" <> t), split_colon, not_colon, split_colon-append s t rest) refl

split_not_empty :
    (s : String) {first rest : String} → split_colon s ≡ (first, some rest) → (s == "") ≡ false
unfolding split_colon
split_not_empty s {first} {rest} e = elim (Bool-cases (s == "")) [
  | inr h ↦ h
  | inl h ↦
      let f : split_colon "" ≡ (first, some rest) =
        subst (λ x. split_colon x ≡ (first, some rest)) ((eq_iff s "").0 h) e in
      cc
]

decode_cursor_split :
    {D E : Type 0} (c : Texts D E) (s : String) {first rest second : String} {a b : ℕ}
    → split_colon s ≡ (first, some rest)
    → split_colon rest ≡ (second, none)
    → c.number first ≡ some a
    → c.number second ≡ some b
    → decode_cursor c (some s) ≡ some (a, b)
unfolding decode_cursor
decode_cursor_split c s {first} {rest} {second} e f g h =
    let behind : (split_colon s).1 ≡ some rest = ap (λ x. x.1) e in
    let before : (split_colon s).0 ≡ first = ap (λ x. x.0) e in
    let last : (split_colon rest).0 ≡ second = ap (λ x. x.0) f in
    rw (decode_cursor, split_not_empty s e, behind, before, g, last, h) refl

split_colon-none : (s : String) → all_chars is_digit s ≡ true → split_colon s ≡ (s, none)
unfolding split_colon
split_colon-none String.[] h = refl
split_colon-none (String.◌∷◌ c s) h =
    let not_colon : eqb (code c) 58 ≡ false = ground arith in
    let rest : all_chars is_digit s ≡ true = ground arith in
    rw (split_colon, not_colon, split_colon-none s rest) refl

pub decode-encode_cursor :
    {D E : Type 0} (c : Texts D E) (row : ActivityDbRow)
    → ReadsDecimals c
    → decode_cursor c (some (encode_cursor row)) ≡ some (row.block_time, row.id)
unfolding encode_cursor
decode-encode_cursor c row reads =
    decode_cursor_split c (encode_cursor row)
      (split_colon-append (digits row.block_time) (digits row.id) (all_chars-digits row.block_time))
      (split_colon-none (digits row.id) (all_chars-digits row.id)) (reads row.block_time)
      (reads row.id)
