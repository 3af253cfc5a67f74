-- ===== src/Sdk/Compile/Accounts.antt =====
-- compile.ts: the indexes of an instruction's accounts, read back by the signer.
use phygital_wallet.Common.{
  ℕ, zero, suc, ◌%◌, ◌≤◌, ◌<◌, String, ◌≡◌, ◌≢◌, refl, ap, ◌∙◌, some, truthy, List, [], ◌∷◌, ◌++◌,
  map, get_elem?, get_elem?-append_left, length, length-append, arith, eq_iff, All,
}
use phygital_wallet.Errors.{ok}
use phygital_wallet.SignDecode.{expand_accounts}
use phygital_wallet.Sdk.Compile.{
  Roles, AccountMeta, Remaining, downgrade_wallet_signer_role, compile_accounts,
}
use phygital_wallet.Sdk.Compile.Table.{
  addresses, IsCoherent, Extends, Extends-refl, Extends-trans, get_or_insert-Inserts,
}

get_elem?-lt : (xs : List String) (i : ℕ) (a : String) → get_elem? xs i ≡ some a → i < length xs
get_elem?-lt [] i a e = cc
get_elem?-lt (x ∷ xs) zero a e = omega arith
get_elem?-lt (x ∷ xs) (suc i) a e = omega (arith, get_elem?-lt xs i a e)

truthy-some : (a : String) → a ≢ "" → truthy (some a) ≡ some a
truthy-some a h = ground (arith, eq_iff a "")

-- An index that was stored in a byte still reads its address.
module _ (xs more : List String) (i : ℕ) (a : String) (e : get_elem? xs i ≡ some a)
    (h : a ≢ "") where
  pub reads_at : truthy (get_elem? (xs ++ more) i) ≡ some a
  reads_at = rw (get_elem?-append_left xs more i a e) (truthy-some a h)

  reads_at_byte : length (xs ++ more) ≤ 256 → truthy (get_elem? (xs ++ more) (i % 256)) ≡ some a
  reads_at_byte sized =
      let low : i % 256 ≡ i = omega (arith, get_elem?-lt xs i a e, length-append xs more) in
      rw low reads_at

abbrev pub IsNamed : AccountMeta → Type 0
IsNamed m = m.address ≢ ""

downgrade-address :
    (k : Roles) (wallet : String) (m : AccountMeta)
    → (downgrade_wallet_signer_role k wallet m).address ≡ m.address
unfolding downgrade_wallet_signer_role
downgrade-address k wallet m = ground arith

module _ (k : Roles) (wallet : String) where
  pub record Lists (st : Remaining) (metas : List AccountMeta) (st' : Remaining) (is : List ℕ)
      : Type 0 where
    pub runs : compile_accounts k wallet st metas ≡ ok (st', is)
    pub coherent : IsCoherent st'
    pub extends : Extends st st'
    pub reads :
        (more : List String)
        → length (addresses st'.accounts ++ more) ≤ 256
        → All IsNamed metas
        → expand_accounts (map (λ i. i % 256) is) (addresses st'.accounts ++ more)
          ≡ ok (addresses metas)

  pub compile_accounts-Lists :
      (st : Remaining) (metas : List AccountMeta)
      → IsCoherent st
      → (st' : Remaining) × (is : List ℕ) × Lists st metas st' is
  unfolding compile_accounts expand_accounts
  compile_accounts-Lists st [] c = (
    st,
    [],
    record {
      runs = refl;
      coherent = c;
      extends = Extends-refl st;
      reads = λ more sized named. refl;
    },
  )
  compile_accounts-Lists st (m ∷ ms) c =
      let (st1, i, s) = get_or_insert-Inserts k st (downgrade_wallet_signer_role k wallet m) c in
      let (st2, is, r) = compile_accounts-Lists st1 ms s.coherent in
      let (rest, grown) = r.extends in
      let here : get_elem? (addresses st2.accounts) i ≡ some m.address = rw grown (
        get_elem?-append_left (addresses st1.accounts) rest i m.address
          (s.at ∙ ap some (downgrade-address k wallet m))) in
      (
        st2,
        i ∷ is,
        record {
          runs = rw (s.runs, r.runs) refl;
          coherent = r.coherent;
          extends = Extends-trans st st1 st2 s.extends r.extends;
          reads = λ more sized named.
              rw
                (
                  expand_accounts,
                  reads_at_byte (addresses st2.accounts) more i m.address here named.0 sized,
                  r.reads more sized named.1,
                )
                refl;
        },
      )
