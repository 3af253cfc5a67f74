-- ===== src/SecureSigner/Blob/Reading.antt =====
-- wallet-format.ts: the reader gives back what was written, and only that.
use mathlib.Core.Path.{subst}
use phygital_wallet.Common.{
  ℕ, zero, suc, ◌+◌, ◌*◌, ◌/◌, ◌%◌, ◌≤◌, ◌<◌, ◌≡◌, refl, false, [], ◌∷◌, ◌++◌, Bytes, length,
  length-append, take-append, drop-append, take, drop, arith, ltb, ap, Bool-cases, inl, inr, All,
}
use phygital_wallet.Errors.{ok}
use phygital_wallet.SecureSigner.Blob.{read_bytes, read_u16, write_u16}

pub read_bytes-append :
    (n : ℕ) (xs ys : Bytes) → length xs ≡ n → read_bytes n (xs ++ ys) ≡ ok (xs, ys)
unfolding read_bytes
read_bytes-append n xs ys e =
    let long : ltb (length (xs ++ ys)) (length xs) ≡ false = ground (arith, length-append xs ys) in
    subst (λ n. read_bytes n (xs ++ ys) ≡ ok (xs, ys)) e (rw (long, take-append, drop-append) refl)

append-take-drop : (n : ℕ) (xs : Bytes) → take n xs ++ drop n xs ≡ xs
append-take-drop zero xs = refl
append-take-drop (suc n) [] = refl
append-take-drop (suc n) (x ∷ xs) = ap (λ zs. x ∷ zs) (append-take-drop n xs)

length-take : (n : ℕ) (xs : Bytes) → n ≤ length xs → length (take n xs) ≡ n
length-take zero xs h = refl
length-take (suc n) [] h = ground arith
length-take (suc n) (x ∷ xs) h = ground (arith, length-take n xs)

pub read_bytes-eq-ok :
    (n : ℕ) (bytes xs ys : Bytes)
    → read_bytes n bytes ≡ ok (xs, ys)
    → (bytes ≡ xs ++ ys) × (length xs ≡ n)
unfolding read_bytes
read_bytes-eq-ok n bytes xs ys e = elim (Bool-cases (ltb (length bytes) n)) [
  | inl short ↦ let f = rw short at e in (cc, cc)
  | inr long ↦
      let f = rw long at e in
      let g = append-take-drop n bytes in let h = length-take n bytes (ground arith) in (cc, cc)
]

pub read_write_u16 :
    (n : ℕ) (w rest : Bytes)
    → write_u16 n ≡ ok w
    → (read_u16 (w ++ rest) ≡ ok (n, rest)) × (length w ≡ 2)
unfolding write_u16 read_u16
read_write_u16 n w rest e = elim (Bool-cases (ltb 65535 n)) [
  | inl large ↦ let f = rw large at e in (cc, cc)
  | inr small ↦
      let f = rw small at e in
      let g : ((n / 256) % 256 ∷ n % 256 ∷ []) ≡ w = cc in
      let bound : n ≤ 65535 = ground arith in
      subst (λ w. (read_u16 (w ++ rest) ≡ ok (n, rest)) × (length w ≡ 2)) g
        (ap (λ k. ok (k, rest)) (omega arith), refl)
]

write_pair : (hi lo : ℕ) → hi < 256 → lo < 256 → write_u16 (hi * 256 + lo) ≡ ok (hi ∷ lo ∷ [])
unfolding write_u16
write_pair hi lo h l =
    let small : ltb 65535 (hi * 256 + lo) ≡ false = ground arith in
    let high : ((hi * 256 + lo) / 256) % 256 ≡ hi = omega arith in
    let low : (hi * 256 + lo) % 256 ≡ lo = omega arith in rw (small, high, low) refl

pub write_read_u16 :
    (n : ℕ) (bytes rest : Bytes)
    → All (λ b. b < 256) bytes
    → read_u16 bytes ≡ ok (n, rest)
    → (w : Bytes) × (write_u16 n ≡ ok w) × (bytes ≡ w ++ rest)
unfolding read_u16
write_read_u16 n [] rest h e = ([], cc, cc)
write_read_u16 n (x ∷ []) rest h e = ([], cc, cc)
write_read_u16 n (hi ∷ (lo ∷ tail)) rest (h, (l, _)) e =
    let same : hi * 256 + lo ≡ n = cc in
    (hi ∷ lo ∷ [], subst (λ n. write_u16 n ≡ ok (hi ∷ lo ∷ [])) same (write_pair hi lo h l), cc)
