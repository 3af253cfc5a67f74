-- ===== src/Sdk/Challenges/Pack.antt =====
-- challenges.ts: the packed format of compact instructions, and how it is read back.
use phygital_wallet.Common.{
  ℕ, zero, suc, ◌+◌, ◌*◌, ◌/◌, ◌%◌, ◌≤◌, ◌<◌, ◌≡◌, refl, sym, ap, ◌∙◌, false, Option, none, some,
  List, [], ◌∷◌, ◌++◌, Bytes, length, length-append, take, drop, take-append, drop-append, ltb,
  if◌then◌else◌, arith, Bool-cases, inl, inr, All,
}
use mathlib.Core.List.{append_assoc}
use phygital_wallet.Errors.{ok, >>=-eq-ok}
use phygital_wallet.Sdk.{CompactInstruction}
use phygital_wallet.Sdk.Challenges.{check_sizes, pack_one, pack_all, pack_compact_instructions}

-- `n` bytes and what follows them.
abbrev cut : ℕ → Bytes → Option (Bytes × Bytes)
cut n bytes = if ltb (length bytes) n then none else some (take n bytes, drop n bytes)

cut-append : (xs ys : Bytes) → cut (length xs) (xs ++ ys) ≡ some (xs, ys)
cut-append xs ys =
    let long : ltb (length (xs ++ ys)) (length xs) ≡ false = ground (arith, length-append xs ys) in
    rw (long, take-append xs ys, drop-append xs ys) refl

-- The packed format, read: `[program][n][n indexes][length, low byte first][data]`.
read_data : ℕ → Bytes → Bytes → Option (CompactInstruction × Bytes)
read_data program indexes [] = none
read_data program indexes (lo ∷ []) = none
read_data program indexes (lo ∷ hi ∷ bytes) = elim (cut (lo + 256 * hi) bytes) [
  | none ↦ none
  | some (content, rest) ↦
      some (
        record { program_id_index = program; account_indexes = indexes; data_bytes = content },
        rest,
      )
]

read_one : Bytes → Option (CompactInstruction × Bytes)
read_one [] = none
read_one (program ∷ []) = none
read_one (program ∷ n ∷ bytes) = elim (cut n bytes) [
  | none ↦ none
  | some (indexes, rest) ↦ read_data program indexes rest
]

read_all : ℕ → Bytes → Option (List CompactInstruction × Bytes)
read_all zero bytes = some ([], bytes)
read_all (suc n) bytes = elim (read_one bytes) [
  | none ↦ none
  | some (ix, rest) ↦ elim (read_all n rest) [
    | none ↦ none
    | some (ixs, end) ↦ some (ix ∷ ixs, end)
  ]
]

-- A packed text has a count, as many instructions, and nothing more.
pub unpack : Bytes → Option (List CompactInstruction)
unpack [] = none
unpack (n ∷ bytes) = elim (read_all n bytes) [
  | none ↦ none
  | some (ixs, []) ↦ some ixs
  | some (ixs, _ ∷ _) ↦ none
]

-- A program index that its byte holds.
abbrev pub IsIndexed : CompactInstruction → Type 0
IsIndexed ix = ix.program_id_index < 256

abbrev IsSized : CompactInstruction → Type 0
IsSized ix = (length ix.account_indexes ≤ 255) × (length ix.data_bytes ≤ 65535)

read_pack_one :
    (ix : CompactInstruction) (rest : Bytes)
    → IsIndexed ix
    → IsSized ix
    → read_one (pack_one ix ++ rest) ≡ some (ix, rest)
unfolding read_one read_data pack_one
read_pack_one ix rest small (short, sized) =
    let n = length ix.data_bytes in
    let tail = n % 256 ∷ (n / 256) % 256 ∷ (ix.data_bytes ++ rest) in
    let flat : pack_one ix ++ rest
        ≡ ix.program_id_index % 256
          ∷ length ix.account_indexes % 256
          ∷ (ix.account_indexes ++ tail) =
      ap (λ bs. ix.program_id_index % 256 ∷ length ix.account_indexes % 256 ∷ bs)
        (append_assoc ix.account_indexes (n % 256 ∷ (n / 256) % 256 ∷ ix.data_bytes) rest) in
    let program : ix.program_id_index % 256 ≡ ix.program_id_index = omega arith in
    let count : length ix.account_indexes % 256 ≡ length ix.account_indexes = omega arith in
    let size : n % 256 + 256 * ((n / 256) % 256) ≡ n = omega arith in
    ap read_one flat
    ∙ rw
        (
          read_one,
          count,
          cut-append ix.account_indexes tail,
          read_data,
          size,
          cut-append ix.data_bytes rest,
          program,
        )
        refl

read_pack_all :
    (ixs : List CompactInstruction)
    → All IsIndexed ixs
    → All IsSized ixs
    → read_all (length ixs) (pack_all ixs) ≡ some (ixs, [])
unfolding read_all pack_all
read_pack_all [] h s = refl
read_pack_all (ix ∷ ixs) (h, hs) (s, ss) =
    rw (read_all, read_pack_one ix (pack_all ixs) h s, read_pack_all ixs hs ss) refl

check_sizes-IsSized :
    (ixs : List CompactInstruction) {u : Unit {0}} → check_sizes ixs ≡ ok u → All IsSized ixs
unfolding check_sizes
check_sizes-IsSized [] e = tt
check_sizes-IsSized (ix ∷ ixs) e = ground (arith, check_sizes-IsSized ixs)

-- Instructions whose program indexes fit in a byte are read back from what they pack to.
pub unpack-pack :
    (ixs : List CompactInstruction) (bytes : Bytes)
    → pack_compact_instructions ixs ≡ ok bytes
    → All IsIndexed ixs
    → unpack bytes ≡ some ixs
unfolding pack_compact_instructions unpack
unpack-pack ixs bytes e h = elim (Bool-cases (ltb 255 (length ixs))) [
  | inl large ↦ let f = rw large at e in cc
  | inr small ↦
      let f = rw small at e in
      let (u, sized, g) = >>=-eq-ok (check_sizes ixs) _ f in
      let low : length ixs % 256 ≡ length ixs = ground arith in
      let whole : bytes ≡ length ixs ∷ pack_all ixs = sym (cc) ∙ ap (λ n. n ∷ pack_all ixs) low in
      rw (whole, unpack, read_pack_all ixs h (check_sizes-IsSized ixs sized)) refl
]
