-- ===== src/Sdk/Compile/Privileges.antt =====
-- compile.ts: who signs and what is written by the accounts that a compilation leaves.
use phygital_wallet.Common.{
  ℕ, String, ◌==◌, ◌≡◌, refl, sym, ap, ◌∙◌, true, false, not, ◌||◌, ◌&&◌, List, [], ◌∷◌, ◌++◌, map,
  arith, eq_iff,
}
use phygital_wallet.Errors.{ok, >>=-eq-ok}
use phygital_wallet.Sdk.Compile.{
  Roles, AccountMeta, KitInstruction, Remaining, Compiled, accounts_of, has,
  downgrade_wallet_signer_role, compile_all, compile_wallet_instructions, empty_table, elevate_one,
  elevate_remaining_for_execute_challenge,
}
use phygital_wallet.Sdk.Compile.Table.{addresses, addresses-append}
use phygital_wallet.Sdk.Compile.RoundTrip.{elevated-addresses}
use phygital_wallet.Sdk.Compile.Flags.{
  grants, grants-append, IsDistinct, Joins, Grows, asks_all, compile_all-Grows,
}

-- What `@solana/kit` documents of its roles.
pub record IsLawful (k : Roles) : Type 0 where
  pub readonly_signer : k.is_signer k.readonly ≡ false
  pub readonly_writable : k.is_writable k.readonly ≡ false
  pub merge_signer : Joins k k.is_signer
  pub merge_writable : Joins k k.is_writable
  pub non_signer_signer : (r : ℕ) → k.is_signer (k.to_non_signer r) ≡ false
  pub non_signer_writable : (r : ℕ) → k.is_writable (k.to_non_signer r) ≡ k.is_writable r
  pub writable_signer : (r : ℕ) → k.is_signer (k.to_writable r) ≡ k.is_signer r
  pub writable_writable : (r : ℕ) → k.is_writable (k.to_writable r) ≡ true

module _ (k : Roles) where
  -- The program and the accounts that an instruction names, with the roles it names them with.
  abbrev uses : KitInstruction → List AccountMeta
  uses ix = record { address = ix.program_address; role = k.readonly } ∷ accounts_of ix

  abbrev pub uses_all : List KitInstruction → List AccountMeta
  uses_all [] = []
  uses_all (ix ∷ ixs) = uses ix ++ uses_all ixs

module _ (k : Roles) (laws : IsLawful k) (wallet : String) where
  downgraded-signs :
      (a : String) (ms : List AccountMeta)
      → grants k.is_signer a (map (downgrade_wallet_signer_role k wallet) ms)
        ≡ (not (a == wallet) && grants k.is_signer a ms)
  unfolding downgrade_wallet_signer_role
  downgraded-signs a [] = ground arith
  downgraded-signs a (m ∷ ms) = ground (
    arith,
    downgraded-signs a ms,
    laws.non_signer_signer m.role,
    eq_iff m.address wallet,
    eq_iff a wallet,
    eq_iff m.address a,
  )

  downgraded-writes :
      (a : String) (ms : List AccountMeta)
      → grants k.is_writable a (map (downgrade_wallet_signer_role k wallet) ms)
        ≡ grants k.is_writable a ms
  unfolding downgrade_wallet_signer_role
  downgraded-writes a [] = refl
  downgraded-writes a (m ∷ ms) =
      ground (arith, downgraded-writes a ms, laws.non_signer_writable m.role)

  downgraded-addresses :
      (ms : List AccountMeta)
      → addresses (map (downgrade_wallet_signer_role k wallet) ms) ≡ addresses ms
  unfolding downgrade_wallet_signer_role
  downgraded-addresses [] = refl
  downgraded-addresses (m ∷ ms) = ground (arith, downgraded-addresses ms)

  asks_all-signs :
      (a : String) (ixs : List KitInstruction)
      → grants k.is_signer a (asks_all k wallet ixs)
        ≡ (not (a == wallet) && grants k.is_signer a (uses_all k ixs))
  asks_all-signs a [] = ground arith
  asks_all-signs a (ix ∷ ixs) = ground (
    arith,
    asks_all-signs a ixs,
    downgraded-signs a (accounts_of ix),
    grants-append k.is_signer a (map (downgrade_wallet_signer_role k wallet) (accounts_of ix))
        (asks_all k wallet ixs),
    grants-append k.is_signer a (accounts_of ix) (uses_all k ixs),
    laws.readonly_signer,
  )

  asks_all-writes :
      (a : String) (ixs : List KitInstruction)
      → grants k.is_writable a (asks_all k wallet ixs) ≡ grants k.is_writable a (uses_all k ixs)
  asks_all-writes a [] = refl
  asks_all-writes a (ix ∷ ixs) = ground (
    arith,
    asks_all-writes a ixs,
    downgraded-writes a (accounts_of ix),
    grants-append k.is_writable a (map (downgrade_wallet_signer_role k wallet) (accounts_of ix))
        (asks_all k wallet ixs),
    grants-append k.is_writable a (accounts_of ix) (uses_all k ixs),
    laws.readonly_writable,
  )

  elevated-signs :
      (a : String) (ms : List AccountMeta)
      → grants k.is_signer a (map (elevate_one k (wallet ∷ []) []) ms) ≡ grants k.is_signer a ms
  unfolding elevate_one
  elevated-signs a [] = refl
  elevated-signs a (m ∷ ms) = ground (arith, elevated-signs a ms, laws.writable_signer m.role)

  asks_all-addresses :
      (ixs : List KitInstruction) → addresses (asks_all k wallet ixs) ≡ addresses (uses_all k ixs)
  asks_all-addresses [] = refl
  asks_all-addresses (ix ∷ ixs) = ground (
    arith,
    asks_all-addresses ixs,
    downgraded-addresses (accounts_of ix),
    addresses-append (map (downgrade_wallet_signer_role k wallet) (accounts_of ix))
        (asks_all k wallet ixs),
    addresses-append (accounts_of ix) (uses_all k ixs),
  )

  elevated-writes :
      (a : String) (ms : List AccountMeta)
      → grants k.is_writable a (map (elevate_one k (wallet ∷ []) []) ms)
        ≡ (grants k.is_writable a ms || (a == wallet && has (addresses ms) a))
  unfolding elevate_one
  elevated-writes a [] = ground arith
  elevated-writes a (m ∷ ms) = ground (
    arith,
    elevated-writes a ms,
    laws.writable_writable m.role,
    eq_iff wallet m.address,
    eq_iff a wallet,
    eq_iff m.address a,
  )

grants-has : (a : String) (ms : List AccountMeta) → grants (λ _. true) a ms ≡ has (addresses ms) a
grants-has a [] = refl
grants-has a (m ∷ ms) = ground (arith, grants-has a ms)

module _ (token_program : String) (k : Roles) (laws : IsLawful k) (wallet : String) where
  -- How a compilation ends: the table of `compile_all`, with the wallet made writable.
  ends :
      (ixs : List KitInstruction) (c : Compiled)
      → compile_wallet_instructions token_program k ixs wallet ≡ ok c
      → (st : Remaining) × Grows k empty_table (asks_all k wallet ixs) st
        × (c.remaining_accounts ≡ map (elevate_one k (wallet ∷ []) []) st.accounts)
  unfolding compile_wallet_instructions elevate_remaining_for_execute_challenge
  ends [] c e = absurd (cc)
  ends (ix ∷ ixs) c e =
      let ((st, cis), whole, f) =
        >>=-eq-ok (compile_all token_program k wallet empty_table (ix ∷ ixs)) _ e in
      (st, compile_all-Grows token_program k wallet empty_table (ix ∷ ixs) st cis refl whole, cc)

  -- In what compiles, no address stands twice and those that stand are the programs and accounts
  -- that the instructions name. An address signs exactly if it is not the wallet and some
  -- instruction names it as a signer; it is writable exactly if some instruction names it as
  -- writable, or it is the wallet and is named at all.
  pub compile_privileges :
      (ixs : List KitInstruction) (c : Compiled) (a : String)
      → compile_wallet_instructions token_program k ixs wallet ≡ ok c
      → IsDistinct (addresses c.remaining_accounts)
        × (has (addresses c.remaining_accounts) a ≡ has (addresses (uses_all k ixs)) a)
        × (grants k.is_signer a c.remaining_accounts
            ≡ (not (a == wallet) && grants k.is_signer a (uses_all k ixs)))
        × (grants k.is_writable a c.remaining_accounts ≡ (
            grants k.is_writable a (uses_all k ixs)
            || (a == wallet && has (addresses (uses_all k ixs)) a)))
  compile_privileges ixs c a e =
      let (st, g, f) = ends ixs c e in
      let elevated = elevated-addresses k st.accounts (wallet ∷ []) [] in
      let same : has (addresses st.accounts) a ≡ has (addresses (uses_all k ixs)) a =
        sym (grants-has a st.accounts)
        ∙ g.grants_lem (λ _. true) a (λ r s. refl)
        ∙ grants-has a (asks_all k wallet ixs)
        ∙ ap (λ xs. has xs a) (asks_all-addresses k laws wallet ixs) in
      (
        rw (f, elevated) (g.distinct tt),
        rw (f, elevated) same,
        rw
            (
              f,
              elevated-signs k laws wallet a st.accounts,
              g.grants_lem k.is_signer a laws.merge_signer,
            )
            (asks_all-signs k laws wallet a ixs),
        rw
            (
              f,
              elevated-writes k laws wallet a st.accounts,
              g.grants_lem k.is_writable a laws.merge_writable,
              same,
              asks_all-writes k laws wallet a ixs,
            )
            refl,
      )
