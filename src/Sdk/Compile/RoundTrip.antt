-- ===== src/Sdk/Compile/RoundTrip.antt =====
-- compile.ts and the signer's expandCompactInstructions: what is compiled is what is signed for.
use mathlib.Core.List.{append_assoc, append-nil}
use phygital_wallet.Common.{
  ◌%◌, ◌≤◌, String, ◌≡◌, ◌≢◌, ◌↔◌, refl, sym, ap, ◌∙◌, false, some, List, [], ◌∷◌, ◌++◌, map,
  get_elem?, get_elem?-append_left, length, arith, Bool-cases, inl, inr, All,
}
use phygital_wallet.Errors.{ok, >>=-eq-ok}
use phygital_wallet.Sdk.{Instruction, CompactInstruction}
use phygital_wallet.SignDecode.{expand_compact_instructions}
use phygital_wallet.Sdk.Compile.{
  Roles, AccountMeta, KitInstruction, Remaining, Compiled, accounts_of, data_of, denied_program,
  compile_one, compile_all, compile_wallet_instructions, empty_table,
  elevate_remaining_for_execute_challenge, elevate_one,
}
use phygital_wallet.Sdk.Compile.Table.{
  addresses, IsCoherent, Extends, Extends-refl, Extends-trans, length-addresses,
  get_or_insert-Inserts,
}
use phygital_wallet.Sdk.Compile.Accounts.{reads_at, IsNamed, compile_accounts-Lists}

abbrev pub IsNamedAll : KitInstruction → Type 0
IsNamedAll ix = (ix.program_address ≢ "") × All IsNamed (accounts_of ix)

-- An instruction as the signer reads it: without roles.
abbrev pub plain : KitInstruction → Instruction
plain ix = record {
  program_address = ix.program_address;
  accounts = some (addresses (accounts_of ix));
  data_bytes = some (data_of ix);
}

module _ (token_program : String) (k : Roles) (wallet : String) where
  record Steps (st : Remaining) (ix : KitInstruction) (st' : Remaining) (ci : CompactInstruction)
      : Type 0 where
    runs : compile_one token_program k wallet st ix ≡ ok (st', ci)
    coherent : IsCoherent st'
    extends : Extends st st'
    reads :
        (more : List String) (cis : List CompactInstruction) (ixs : List Instruction)
        → length (addresses st'.accounts ++ more) ≤ 256
        → IsNamedAll ix
        → expand_compact_instructions cis (addresses st'.accounts ++ more) ≡ ok ixs
        → expand_compact_instructions (ci ∷ cis) (addresses st'.accounts ++ more)
          ≡ ok (plain ix ∷ ixs)

  compile_one-Steps :
      (st : Remaining) (ix : KitInstruction)
      → IsCoherent st
      → denied_program token_program ix.program_address ≡ false
      → (st' : Remaining) × (ci : CompactInstruction) × Steps st ix st' ci
  unfolding compile_one expand_compact_instructions
  compile_one-Steps st ix c allowed =
      let program : AccountMeta = record { address = ix.program_address; role = k.readonly } in
      let (st1, i, s) = get_or_insert-Inserts k st program c in
      let (st2, is, r) = compile_accounts-Lists k wallet st1 (accounts_of ix) s.coherent in
      let (rest, grown) = r.extends in
      let here : get_elem? (addresses st2.accounts) i ≡ some ix.program_address =
        rw grown (get_elem?-append_left (addresses st1.accounts) rest i ix.program_address s.at) in
      (
        st2,
        record {
          program_id_index = i;
          account_indexes = map (λ j. j % 256) is;
          data_bytes = data_of ix;
        },
        record {
          runs = rw (compile_one, allowed, s.runs, r.runs) refl;
          coherent = r.coherent;
          extends = Extends-trans st st1 st2 s.extends r.extends;
          reads = λ more cis ixs sized named tail.
              rw
                (
                  expand_compact_instructions,
                  reads_at (addresses st2.accounts) more i ix.program_address here named.0,
                  r.reads more sized named.1,
                  tail,
                )
                refl;
        },
      )

  record Runs (st : Remaining) (ixs : List KitInstruction) (st' : Remaining)
      (cis : List CompactInstruction) : Type 0 where
    runs : compile_all token_program k wallet st ixs ≡ ok (st', cis)
    coherent : IsCoherent st'
    extends : Extends st st'
    reads :
        (more : List String)
        → length (addresses st'.accounts ++ more) ≤ 256
        → All IsNamedAll ixs
        → expand_compact_instructions cis (addresses st'.accounts ++ more) ≡ ok (map plain ixs)

  abbrev pub IsAllowed : KitInstruction → Type 0
  IsAllowed ix = denied_program token_program ix.program_address ≡ false

  compile_all-Runs :
      (st : Remaining) (ixs : List KitInstruction)
      → IsCoherent st
      → All IsAllowed ixs
      → (st' : Remaining) × (cis : List CompactInstruction) × Runs st ixs st' cis
  unfolding compile_all expand_compact_instructions
  compile_all-Runs st [] c allowed = (
    st,
    [],
    record {
      runs = refl;
      coherent = c;
      extends = Extends-refl st;
      reads = λ more sized named. refl;
    },
  )
  compile_all-Runs st (ix ∷ ixs) c (allowed, later) =
      let (st1, ci, s) = compile_one-Steps st ix c allowed in
      let (st2, cis, r) = compile_all-Runs st1 ixs s.coherent later in
      let (rest, grown) = r.extends in
      (
        st2,
        ci ∷ cis,
        record {
          runs = rw (s.runs, r.runs) refl;
          coherent = r.coherent;
          extends = Extends-trans st st1 st2 s.extends r.extends;
          reads = λ more sized named.
              let whole : addresses st2.accounts ++ more
                  ≡ addresses st1.accounts ++ (rest ++ more) =
                ap (λ r. r ++ more) grown ∙ append_assoc (addresses st1.accounts) rest more in
              rw whole (
                s.reads (rest ++ more) cis (map plain ixs) (rw (← whole) sized) named.0
                  (rw (← whole) (r.reads more sized named.1)));
        },
      )

  compile_one-IsAllowed :
      (st : Remaining) (ix : KitInstruction) (r : Remaining × CompactInstruction)
      → compile_one token_program k wallet st ix ≡ ok r
      → IsAllowed ix
  unfolding compile_one
  compile_one-IsAllowed st ix r e =
      elim (Bool-cases (denied_program token_program ix.program_address)) [
        | inl denied ↦ let f = rw denied at e in cc
        | inr allowed ↦ allowed
      ]

  compile_all-IsAllowed :
      (st : Remaining) (ixs : List KitInstruction) (r : Remaining × List CompactInstruction)
      → compile_all token_program k wallet st ixs ≡ ok r
      → All IsAllowed ixs
  unfolding compile_all
  compile_all-IsAllowed st [] r e = tt
  compile_all-IsAllowed st (ix ∷ ixs) r e =
      let ((st1, ci), first, f) = >>=-eq-ok (compile_one token_program k wallet st ix) _ e in
      let ((st2, cis), later, g) = >>=-eq-ok (compile_all token_program k wallet st1 ixs) _ f in
      (compile_one-IsAllowed st ix (st1, ci) first, compile_all-IsAllowed st1 ixs (st2, cis) later)

pub elevated-addresses :
    (k : Roles) (ms : List AccountMeta) (writable signers : List String)
    → addresses (map (elevate_one k writable signers) ms) ≡ addresses ms
unfolding elevate_one
elevated-addresses k [] writable signers = refl
elevated-addresses k (m ∷ ms) writable signers =
    ground (arith, elevated-addresses k ms writable signers)

module _ (token_program : String) (k : Roles) (wallet : String) where
  abbrev elevated : List AccountMeta → List AccountMeta
  elevated ms = elevate_remaining_for_execute_challenge k ms (wallet ∷ []) []

  -- How a compilation that is allowed ends.
  compiles :
      (ix : KitInstruction) (ixs : List KitInstruction)
      → All (IsAllowed token_program k wallet) (ix ∷ ixs)
      → (st : Remaining) × (cis : List CompactInstruction) × Runs token_program k wallet empty_table
          (ix ∷ ixs)
          st
          cis
        × (compile_wallet_instructions token_program k (ix ∷ ixs) wallet
            ≡ ok (record { remaining_accounts = elevated st.accounts; compact_instructions = cis }))
  unfolding compile_wallet_instructions
  compiles ix ixs allowed =
      let (st, cis, r) =
        compile_all-Runs token_program k wallet empty_table (ix ∷ ixs) refl allowed in
      (st, cis, r, rw r.runs refl)

  compile-IsAllowed :
      (ixs : List KitInstruction) (c : Compiled)
      → compile_wallet_instructions token_program k ixs wallet ≡ ok c
      → (ixs ≢ []) × All (IsAllowed token_program k wallet) ixs
  unfolding compile_wallet_instructions
  compile-IsAllowed [] c e = absurd (cc)
  compile-IsAllowed (ix ∷ ixs) c e =
      let (r, whole, _) =
        >>=-eq-ok (compile_all token_program k wallet empty_table (ix ∷ ixs)) _ e in
      (λ empty. cc, compile_all-IsAllowed token_program k wallet empty_table (ix ∷ ixs) r whole)

  compiled_of :
      (ixs : List KitInstruction)
      → (ixs ≢ []) × All (IsAllowed token_program k wallet) ixs
      → (c : Compiled) × (compile_wallet_instructions token_program k ixs wallet ≡ ok c)
  compiled_of [] (some_ix, _) = absurd (some_ix refl)
  compiled_of (ix ∷ ixs) (_, allowed) = let (st, cis, r, e) = compiles ix ixs allowed in (_, e)

  -- Compiling succeeds exactly when there is an instruction and no instruction runs a denied
  -- program, the wallet program or the token program.
  pub compile_iff :
      (ixs : List KitInstruction)
      → ((c : Compiled) × (compile_wallet_instructions token_program k ixs wallet ≡ ok c))
        ↔ ((ixs ≢ []) × All (IsAllowed token_program k wallet) ixs)
  compile_iff ixs = (λ (c, e). compile-IsAllowed ixs c e, compiled_of ixs)

  -- What compiles within 256 accounts, and names every program and account by a text that is not
  -- empty, is expanded by the signer to the instructions that were compiled: the same programs,
  -- accounts and data in the same order.
  pub compile-expand :
      (ixs : List KitInstruction) (c : Compiled)
      → compile_wallet_instructions token_program k ixs wallet ≡ ok c
      → length c.remaining_accounts ≤ 256
      → All IsNamedAll ixs
      → expand_compact_instructions c.compact_instructions (addresses c.remaining_accounts)
        ≡ ok (map plain ixs)
  unfolding elevate_remaining_for_execute_challenge
  compile-expand [] c e sized named = absurd ((compile-IsAllowed [] c e).0 refl)
  compile-expand (ix ∷ ixs) c e sized named =
      let (st, cis, r, f) = compiles ix ixs (compile-IsAllowed (ix ∷ ixs) c e).1 in
      let same : c
          ≡ record { remaining_accounts = elevated st.accounts; compact_instructions = cis } =
        cc in
      let kept : addresses c.remaining_accounts ≡ addresses st.accounts ++ [] =
        ap (λ (c : Compiled). addresses c.remaining_accounts) same
        ∙ elevated-addresses k st.accounts (wallet ∷ []) []
        ∙ sym (append-nil (addresses st.accounts)) in
      let small : length (addresses st.accounts ++ []) ≤ 256 =
        rw (← kept, length-addresses c.remaining_accounts) sized in
      rw (kept, ap (λ (c : Compiled). c.compact_instructions) same) (r.reads [] small named)
