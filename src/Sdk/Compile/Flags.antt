-- ===== src/Sdk/Compile/Flags.antt =====
-- compile.ts: the accounts that remain, and what they may do, against what the instructions ask for.
use phygital_wallet.Common.{
  ℕ, zero, suc, String, ◌==◌, ◌≡◌, refl, sym, ap, ◌∙◌, Bool, ◌||◌, ◌&&◌, none, some, List, [], ◌∷◌,
  ◌++◌, map, get_elem?, set, any, select_first, arith, Bool-cases, inl, inr, IsKeyed,
  IsKeyed-append,
}
use mathlib.Core.Path.{subst}
use phygital_wallet.Sdk.{CompactInstruction}
use phygital_wallet.Errors.{ok, >>=-eq-ok}
use phygital_wallet.Sdk.Compile.{
  Roles, AccountMeta, KitInstruction, Remaining, accounts_of, map_get,
  get_or_insert_remaining_account, downgrade_wallet_signer_role, compile_accounts, compile_one,
  compile_all, denied_program,
}
use phygital_wallet.Sdk.Compile.Table.{
  addresses, numbered, IsCoherent, addresses-append, addresses-set, get_or_insert-Inserts, Placed,
  added, merged, covered,
}

-- Whether a list has an entry for an address with a role that passes a test.
abbrev pub grants : (ℕ → Bool) → String → List AccountMeta → Bool
grants f a = any (λ m. m.address == a && f m.role)

pub grants-append :
    (f : ℕ → Bool) (a : String) (ms ns : List AccountMeta)
    → grants f a (ms ++ ns) ≡ (grants f a ms || grants f a ns)
grants-append f a [] ns = refl
grants-append f a (m ∷ ms) ns = ground (arith, grants-append f a ms ns)

-- An entry gets a role that passes a test exactly if the old one does or `b` holds.
grants-set :
    (f : ℕ → Bool) (a : String) (b : Bool) (ms : List AccountMeta) (i : ℕ) (current : AccountMeta)
    (role : ℕ)
    → get_elem? ms i ≡ some current
    → f role ≡ (f current.role || b)
    → grants f a (set ms i (record { address = current.address; role = role }))
      ≡ (grants f a ms || (current.address == a && b))
grants-set f a b [] i current role e h = cc
grants-set f a b (m ∷ ms) zero current role e h = ground arith
grants-set f a b (m ∷ ms) (suc i) current role e h =
    ground (arith, grants-set f a b ms i current role e h)

grants-covered :
    (f : ℕ → Bool) (a : String) (b : Bool) (ms : List AccountMeta) (i : ℕ) (current : AccountMeta)
    → get_elem? ms i ≡ some current
    → f current.role ≡ (f current.role || b)
    → grants f a ms ≡ (grants f a ms || (current.address == a && b))
grants-covered f a b [] i current e h = cc
grants-covered f a b (m ∷ ms) zero current e h = ground arith
grants-covered f a b (m ∷ ms) (suc i) current e h =
    ground (arith, grants-covered f a b ms i current e h)

abbrev pub IsDistinct : List String → Type 0
IsDistinct = IsKeyed (λ (s : String). s)

absent-numbered :
    (n : ℕ) (xs : List String) (a : String)
    → map_get (numbered n xs) a ≡ none
    → select_first (λ r. r == a) xs ≡ none
absent-numbered n [] a e = refl
absent-numbered n (x ∷ xs) a e = ground (arith, absent-numbered (suc n) xs a)

module _ (k : Roles) where
  abbrev pub Joins : (ℕ → Bool) → Type 0
  Joins f = (r s : ℕ) → f (k.merge r s) ≡ (f r || f s)

  -- What a table gains from accounts that are asked for.
  pub record Grows (st : Remaining) (uses : List AccountMeta) (st' : Remaining) : Type 0 where
    pub coherent : IsCoherent st'
    pub distinct : IsDistinct (addresses st.accounts) → IsDistinct (addresses st'.accounts)
    pub grants_lem :
        (f : ℕ → Bool) (a : String)
        → Joins f
        → grants f a st'.accounts ≡ (grants f a st.accounts || grants f a uses)

  Placed-grants :
      (f : ℕ → Bool) (a : String) (st : Remaining) (meta : AccountMeta) (st' : Remaining)
      → Joins f
      → Placed k st meta st'
      → grants f a st'.accounts ≡ (grants f a st.accounts || grants f a (meta ∷ []))
  Placed-grants f a st meta st' joins (added fresh e) =
      ap (grants f a) e ∙ grants-append f a st.accounts (meta ∷ [])
  Placed-grants f a st meta st' joins (merged i current g same e) =
      ap (grants f a) e
      ∙ grants-set f a (f meta.role) st.accounts i current (k.merge current.role meta.role) g
          (joins current.role meta.role)
      ∙ ground (arith, same)
  Placed-grants f a st meta st' joins (covered i current g same kept e) =
      ap (grants f a) e
      ∙ grants-covered f a (f meta.role) st.accounts i current g
          (ap f (sym kept) ∙ joins current.role meta.role)
      ∙ ground (arith, same)

  Placed-IsDistinct :
      (st : Remaining) (meta : AccountMeta) (st' : Remaining)
      → IsCoherent st
      → Placed k st meta st'
      → IsDistinct (addresses st.accounts)
      → IsDistinct (addresses st'.accounts)
  Placed-IsDistinct st meta st' c (added fresh e) d =
      rw (ap addresses e ∙ addresses-append st.accounts (meta ∷ [])) (
        IsKeyed-append (λ (s : String). s) (addresses st.accounts) meta.address d
          (absent-numbered 0 (addresses st.accounts) meta.address
            (sym (ap (λ m. map_get m meta.address) c) ∙ fresh)))
  Placed-IsDistinct st meta st' c (merged i current g same e) d =
      rw (ap addresses e ∙ addresses-set st.accounts i current (k.merge current.role meta.role) g) d
  Placed-IsDistinct st meta st' c (covered i current g same kept e) d = rw (ap addresses e) d

  Grows-refl : (st : Remaining) → IsCoherent st → Grows st [] st
  Grows-refl st c = record {
    coherent = c;
    distinct = λ d. d;
    grants_lem = λ f a joins. ground arith;
  }

  Grows-trans :
      (a b c : Remaining) (us vs : List AccountMeta)
      → Grows a us b
      → Grows b vs c
      → Grows a (us ++ vs) c
  Grows-trans a b c us vs g h = record {
    coherent = h.coherent;
    distinct = λ d. h.distinct (g.distinct d);
    grants_lem = λ f x joins.
        ground (arith, g.grants_lem f x joins, h.grants_lem f x joins, grants-append f x us vs);
  }

  get_or_insert-Grows :
      (st : Remaining) (meta : AccountMeta) (st' : Remaining) (i : ℕ)
      → IsCoherent st
      → get_or_insert_remaining_account k st meta ≡ ok (st', i)
      → Grows st (meta ∷ []) st'
  get_or_insert-Grows st meta st' i c e =
      let (st1, j, s) = get_or_insert-Inserts k st meta c in
      let same : st1 ≡ st' = let f = sym s.runs ∙ e in cc in
      subst (λ t. Grows st (meta ∷ []) t) same
        (record {
          coherent = s.coherent;
          distinct = Placed-IsDistinct st meta st1 c s.placed;
          grants_lem = λ f a joins. Placed-grants f a st meta st1 joins s.placed;
        })

  compile_accounts-Grows :
      (wallet : String) (st : Remaining) (ms : List AccountMeta) (st' : Remaining) (is : List ℕ)
      → IsCoherent st
      → compile_accounts k wallet st ms ≡ ok (st', is)
      → Grows st (map (downgrade_wallet_signer_role k wallet) ms) st'
  unfolding compile_accounts
  compile_accounts-Grows wallet st [] st' is c e = subst (λ t. Grows st [] t) (cc) (Grows-refl st c)
  compile_accounts-Grows wallet st (m ∷ ms) st' is c e =
      let ((st1, i), first, f) =
        >>=-eq-ok (get_or_insert_remaining_account k st (downgrade_wallet_signer_role k wallet m)) _
          e in
      let ((st2, js), later, g) = >>=-eq-ok (compile_accounts k wallet st1 ms) _ f in
      let grow = get_or_insert-Grows st (downgrade_wallet_signer_role k wallet m) st1 i c first in
      let rest = compile_accounts-Grows wallet st1 ms st2 js grow.coherent later in
      subst (λ t. Grows st (map (downgrade_wallet_signer_role k wallet) (m ∷ ms)) t) (cc)
        (Grows-trans st st1 st2 _ _ grow rest)

  -- What an instruction asks of its accounts once the wallet's signature is not asked for.
  abbrev pub asks : String → KitInstruction → List AccountMeta
  asks wallet ix =
      record { address = ix.program_address; role = k.readonly }
      ∷ map (downgrade_wallet_signer_role k wallet) (accounts_of ix)

  abbrev pub asks_all : String → List KitInstruction → List AccountMeta
  asks_all wallet [] = []
  asks_all wallet (ix ∷ ixs) = asks wallet ix ++ asks_all wallet ixs

module _ (token_program : String) (k : Roles) (wallet : String) where
  compile_one-Grows :
      (st : Remaining) (ix : KitInstruction) (st' : Remaining) (ci : CompactInstruction)
      → IsCoherent st
      → compile_one token_program k wallet st ix ≡ ok (st', ci)
      → Grows k st (asks k wallet ix) st'
  unfolding compile_one
  compile_one-Grows st ix st' ci c e =
      elim (Bool-cases (denied_program token_program ix.program_address)) [
        | inl denied ↦ let f = rw denied at e in absurd (cc)
        | inr allowed ↦
            let g = rw allowed at e in
            let program : AccountMeta = record {
              address = ix.program_address;
              role = k.readonly;
            } in
            let ((st1, i), first, f) =
              >>=-eq-ok (get_or_insert_remaining_account k st program) _ g in
            let ((st2, js), later, h) =
              >>=-eq-ok (compile_accounts k wallet st1 (accounts_of ix)) _ f in
            let grow = get_or_insert-Grows k st program st1 i c first in
            let rest =
              compile_accounts-Grows k wallet st1 (accounts_of ix) st2 js grow.coherent later in
            subst (λ t. Grows k st (asks k wallet ix) t) (cc)
              (Grows-trans k st st1 st2 _ _ grow rest)
      ]

  pub compile_all-Grows :
      (st : Remaining) (ixs : List KitInstruction) (st' : Remaining) (cis : List CompactInstruction)
      → IsCoherent st
      → compile_all token_program k wallet st ixs ≡ ok (st', cis)
      → Grows k st (asks_all k wallet ixs) st'
  unfolding compile_all
  compile_all-Grows st [] st' cis c e = subst (λ t. Grows k st [] t) (cc) (Grows-refl k st c)
  compile_all-Grows st (ix ∷ ixs) st' cis c e =
      let ((st1, ci), first, f) = >>=-eq-ok (compile_one token_program k wallet st ix) _ e in
      let ((st2, cs), later, g) = >>=-eq-ok (compile_all token_program k wallet st1 ixs) _ f in
      let grow = compile_one-Grows st ix st1 ci c first in
      let rest = compile_all-Grows st1 ixs st2 cs grow.coherent later in
      subst (λ t. Grows k st (asks_all k wallet (ix ∷ ixs)) t) (cc)
        (Grows-trans k st st1 st2 _ _ grow rest)
