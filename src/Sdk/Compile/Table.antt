-- ===== src/Sdk/Compile/Table.antt =====
-- compile.ts: the table of remaining accounts while instructions are compiled.
use mathlib.Core.List.{append-nil, append_assoc}
use phygital_wallet.Common.{
  ℕ, zero, suc, ◌+◌, String, ◌==◌, ◌≡◌, refl, sym, ap, ◌∙◌, none, some, List, [], ◌∷◌, ◌++◌, map,
  get_elem?, set, length, eqb, arith, eq_iff, Bool-cases, Option-cases, inl, inr,
}
use phygital_wallet.Errors.{ok}
use phygital_wallet.Sdk.Compile.{
  Roles, AccountMeta, Remaining, map_get, get_or_insert_remaining_account, merge_at,
}

abbrev pub addresses : List AccountMeta → List String
addresses = map (λ m. m.address)

-- The Map numbers the addresses of the list.
abbrev pub numbered : ℕ → List String → List (String × ℕ)
numbered n [] = []
numbered n (a ∷ xs) = (a, n) ∷ numbered (suc n) xs

abbrev pub IsCoherent : Remaining → Type 0
IsCoherent st = st.index_by_address ≡ numbered 0 (addresses st.accounts)

-- A table that holds the accounts of another first, at the same indexes.
abbrev pub Extends : Remaining → Remaining → Type 0
Extends st st' = (more : List String) × (addresses st'.accounts ≡ addresses st.accounts ++ more)

map_get-numbered :
    (n : ℕ) (xs : List String) (a : String) (i : ℕ)
    → map_get (numbered n xs) a ≡ some i
    → (j : ℕ) × (i ≡ n + j) × (get_elem? xs j ≡ some a)
map_get-numbered n [] a i e = cc
map_get-numbered n (b ∷ xs) a i e = elim (Bool-cases (b == a)) [
  | inl here ↦ (0, ground arith, ap some ((eq_iff b a).0 here))
  | inr later ↦
      let (j, p, q) = map_get-numbered (suc n) xs a i (ground arith) in (suc j, omega arith, q)
]

numbered-append :
    (n : ℕ) (xs : List String) (a : String)
    → numbered n (xs ++ a ∷ []) ≡ numbered n xs ++ (a, n + length xs) ∷ []
numbered-append n [] a = ground arith
numbered-append n (b ∷ xs) a = ground (arith, numbered-append (suc n) xs a)

pub length-addresses : (ms : List AccountMeta) → length (addresses ms) ≡ length ms
length-addresses [] = refl
length-addresses (m ∷ ms) = ap suc (length-addresses ms)

pub addresses-append :
    (ms ns : List AccountMeta) → addresses (ms ++ ns) ≡ addresses ms ++ addresses ns
addresses-append [] ns = refl
addresses-append (m ∷ ms) ns = ap (λ r. m.address ∷ r) (addresses-append ms ns)

-- A new role at an index leaves the addresses.
pub addresses-set :
    (ms : List AccountMeta) (i : ℕ) (current : AccountMeta) (role : ℕ)
    → get_elem? ms i ≡ some current
    → addresses (set ms i (record { address = current.address; role = role })) ≡ addresses ms
addresses-set [] i current role e = refl
addresses-set (m ∷ ms) zero current role e = ground arith
addresses-set (m ∷ ms) (suc i) current role e =
    ap (λ r. m.address ∷ r) (addresses-set ms i current role e)

get_elem?-addresses :
    (ms : List AccountMeta) (i : ℕ) (a : String)
    → get_elem? (addresses ms) i ≡ some a
    → (m : AccountMeta) × (get_elem? ms i ≡ some m) × (m.address ≡ a)
get_elem?-addresses [] i a e = cc
get_elem?-addresses (m ∷ ms) zero a e = (m, refl, cc)
get_elem?-addresses (m ∷ ms) (suc i) a e = get_elem?-addresses ms i a e

get_elem?-end : (xs : List String) (a : String) → get_elem? (xs ++ a ∷ []) (length xs) ≡ some a
get_elem?-end [] a = refl
get_elem?-end (x ∷ xs) a = get_elem?-end xs a

pub Extends-refl : (st : Remaining) → Extends st st
Extends-refl st = ([], sym (append-nil (addresses st.accounts)))

pub Extends-trans : (a b c : Remaining) → Extends a b → Extends b c → Extends a c
Extends-trans a b c (more, e) (rest, f) =
    (more ++ rest, f ∙ ap (λ r. r ++ rest) e ∙ append_assoc (addresses a.accounts) more rest)

module _ (k : Roles) where
  -- How an account is placed: added last, merged into its entry, or covered by its entry.
  pub data Placed (st : Remaining) (meta : AccountMeta) (st' : Remaining) : Type 0 where
    added :
        map_get st.index_by_address meta.address ≡ none
        → st'.accounts ≡ st.accounts ++ meta ∷ []
        → Placed st meta st'
    merged :
        (i : ℕ) (current : AccountMeta)
        → get_elem? st.accounts i ≡ some current
        → current.address ≡ meta.address
        → st'.accounts
          ≡ set st.accounts i
              (record { address = current.address; role = k.merge current.role meta.role })
        → Placed st meta st'
    covered :
        (i : ℕ) (current : AccountMeta)
        → get_elem? st.accounts i ≡ some current
        → current.address ≡ meta.address
        → k.merge current.role meta.role ≡ current.role
        → st'.accounts ≡ st.accounts
        → Placed st meta st'

  -- What a table gives for an account: an index at which the account's address stands.
  pub record Inserts (st : Remaining) (meta : AccountMeta) (st' : Remaining) (i : ℕ) : Type 0 where
    pub runs : get_or_insert_remaining_account k st meta ≡ ok (st', i)
    pub coherent : IsCoherent st'
    pub extends : Extends st st'
    pub at : get_elem? (addresses st'.accounts) i ≡ some meta.address
    pub placed : Placed st meta st'

  merge_at-Inserts :
      (st : Remaining) (i : ℕ) (meta current : AccountMeta)
      → IsCoherent st
      → map_get st.index_by_address meta.address ≡ some i
      → get_elem? st.accounts i ≡ some current
      → current.address ≡ meta.address
      → get_elem? (addresses st.accounts) i ≡ some meta.address
      → (st' : Remaining) × Inserts st meta st' i
  unfolding get_or_insert_remaining_account merge_at
  merge_at-Inserts st i meta current c e g a h =
      let new_role = k.merge current.role meta.role in
      let kept = addresses-set st.accounts i current new_role g in
      elim (Bool-cases (eqb new_role current.role)) [
        | inl same ↦ (
          st,
          record {
            runs = rw (get_or_insert_remaining_account, e, merge_at, g, same) refl;
            coherent = c;
            extends = Extends-refl st;
            at = h;
            placed = covered i current g a (ground arith) refl;
          },
        )
        | inr other ↦ (
          record st {
            accounts = set st.accounts i (record { address = current.address; role = new_role });
          },
          record {
            runs = rw (get_or_insert_remaining_account, e, merge_at, g, other) refl;
            coherent = c ∙ ap (numbered 0) (sym kept);
            extends = ([], kept ∙ sym (append-nil (addresses st.accounts)));
            at = rw kept h;
            placed = merged i current g a refl;
          },
        )
      ]

  new-Inserts :
      (st : Remaining) (meta : AccountMeta)
      → IsCoherent st
      → map_get st.index_by_address meta.address ≡ none
      → (st' : Remaining) × Inserts st meta st' (length st.accounts)
  unfolding get_or_insert_remaining_account
  new-Inserts st meta c e =
      let grown = addresses-append st.accounts (meta ∷ []) in
      let sized = length-addresses st.accounts in
      (
        record {
          accounts = st.accounts ++ meta ∷ [];
          index_by_address = st.index_by_address ++ (meta.address, length st.accounts) ∷ [];
        },
        record {
          runs = rw (get_or_insert_remaining_account, e) refl;
          coherent =
              ground
                (arith, c, grown, sized, numbered-append 0 (addresses st.accounts) meta.address);
          extends = (meta.address ∷ [], grown);
          at = rw (grown, ← sized) (get_elem?-end (addresses st.accounts) meta.address);
          placed = added e refl;
        },
      )

  -- An account always finds its place.
  pub get_or_insert-Inserts :
      (st : Remaining) (meta : AccountMeta)
      → IsCoherent st
      → (st' : Remaining) × (i : ℕ) × Inserts st meta st' i
  get_or_insert-Inserts st meta c = elim (Option-cases (map_get st.index_by_address meta.address)) [
    | inl e ↦ let (st', s) = new-Inserts st meta c e in (st', length st.accounts, s)
    | inr (i, e) ↦
        let (j, p, h) =
          map_get-numbered 0 (addresses st.accounts) meta.address i
            (sym (ap (λ m. map_get m meta.address) c) ∙ e) in
        let q : i ≡ j = omega arith in
        let h' : get_elem? (addresses st.accounts) i ≡ some meta.address = rw q h in
        let (current, g, a) = get_elem?-addresses st.accounts i meta.address h' in
        let (st', s) = merge_at-Inserts st i meta current c e g a h' in (st', i, s)
  ]
