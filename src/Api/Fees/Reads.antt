-- ===== src/Api/Fees/Reads.antt =====
-- subscribe-fee-tx.ts: what `findExecuteAccounts` and `nativeChange` read from a transaction.
use mathlib.Core.Path.{subst}
use phygital_wallet.Common.{
  ℕ, suc, ◌<◌, String, ◌≡◌, refl, ap, ◌∙◌, true, Option, none, some, List, [], ◌∷◌, In, ◌⊎◌, inl,
  inr, ◌==◌, eq_iff, get_elem?, arith, Bool-cases, Option-cases, is_none,
}
use phygital_wallet.Sdk.{
  PhygitalWalletInstruction, execute, execute_with_authority, execute_with_authority_using_policies,
  clear_authority, clear_wallet_policy, set_authority, set_wallet_policy, identify, token_account,
  phygital_wallet_program_address,
}
use phygital_wallet.Api.Fees.{
  ◌>>=◌ as ◌>>=?◌, >>=-eq-some, Codec, TxMeta, ConfirmedTx, CompiledIx, KitIx, index_of, balance_at,
  native_change, resolve_account_keys, all_compiled_ixs, compiled_to_kit_ix, execute_token,
  credited_or_debited, execute_account, first_execute_account, find_execute_accounts,
  try_parse_address,
}

-- The balance of an account before and after the transaction.
abbrev pub Moves : ConfirmedTx → String → ℕ → ℕ → Type 0
Moves tx account pre post =
    (i : ℕ) × (meta : TxMeta) × (tx.meta ≡ some meta)
    × (get_elem? (resolve_account_keys tx) i ≡ some account)
    × (balance_at meta.pre_balances i ≡ some pre)
    × (balance_at meta.post_balances i ≡ some post)

abbrev absent {ℓ} : {A : Type ℓ} → Option A
absent = none

index_of-some :
    (keys : List String) (x : String) (i : ℕ) → index_of keys x ≡ some i → get_elem? keys i ≡ some x
index_of-some [] x i e = cc
index_of-some (k ∷ ks) x i e = elim (Bool-cases (k == x)) [
  | inl h ↦
      let g : some 0 ≡ some i = rw h at e in
      let first : 0 ≡ i = cc in
      subst (λ j. get_elem? (k ∷ ks) j ≡ some x) first (ap some ((eq_iff k x).0 h))
  | inr h ↦ elim (Option-cases (index_of ks x)) [
    | inl missing ↦ let g : absent ≡ some i = rw (h, missing) at e in cc
    | inr (j, found) ↦
        let g : some (suc j) ≡ some i = rw (h, found) at e in
        let next : suc j ≡ i = cc in
        subst (λ n. get_elem? (k ∷ ks) n ≡ some x) next (index_of-some ks x j found)
  ]
]

abbrev pair : ℕ → ℕ → ℕ × ℕ
pair a b = (a, b)

-- A change is not the source's 0 for want of a balance.
still : {pre post : ℕ} → pair 0 0 ≡ pair pre post → (pre < post) ⊎ (post < pre) → ⊥
still e apart =
    let p = ap (λ (x : ℕ × ℕ). x.0) e in
    let q = ap (λ (x : ℕ × ℕ). x.1) e in
    elim apart [ inl up ↦ omega arith | inr down ↦ omega arith ]

pub native_change-Moves :
    (tx : ConfirmedTx) (account : String) (pre post : ℕ)
    → native_change (resolve_account_keys tx) tx.meta account ≡ (pre, post)
    → (pre < post) ⊎ (post < pre)
    → Moves tx account pre post
unfolding native_change
native_change-Moves tx account pre post e apart = elim (Option-cases tx.meta) [
  | inl h ↦ let g : pair 0 0 ≡ pair pre post = rw (native_change, h) at e in absurd (still g apart)
  | inr (meta, h) ↦ elim (Option-cases (index_of (resolve_account_keys tx) account)) [
    | inl k ↦
        let g : pair 0 0 ≡ pair pre post = rw (native_change, h, k) at e in absurd (still g apart)
    | inr (i, k) ↦ elim (Option-cases (balance_at meta.pre_balances i)) [
      | inl l ↦
          let g : pair 0 0 ≡ pair pre post = rw (native_change, h, k, l) at e in
          absurd (still g apart)
      | inr (before, l) ↦ elim (Option-cases (balance_at meta.post_balances i)) [
        | inl m ↦
            let g : pair 0 0 ≡ pair pre post = rw (native_change, h, k, l, m) at e in
            absurd (still g apart)
        | inr (after, m) ↦
            let g : pair before after ≡ pair pre post = rw (native_change, h, k, l, m) at e in
            (
              i,
              meta,
              h,
              index_of-some (resolve_account_keys tx) account i k,
              l ∙ ap (λ (x : ℕ × ℕ). some x.0) g,
              m ∙ ap (λ (x : ℕ × ℕ). some x.1) g,
            )
      ]
    ]
  ]
]

module _ (c : Codec) where
  -- A round of the loop reads the token of an instruction of the wallet's program, in one of the two
  -- variants, whose data decodes.
  abbrev pub Names : ConfirmedTx → String → Type 0
  Names tx token =
      (ix : CompiledIx) × (kit_ix : KitIx) × (id : PhygitalWalletInstruction) × In ix
        (all_compiled_ixs tx)
      × (compiled_to_kit_ix c ix (resolve_account_keys tx) ≡ some kit_ix)
      × (kit_ix.program_address ≡ phygital_wallet_program_address)
      × (identify kit_ix.data_bytes ≡ some id)
      × ((id ≡ execute) ⊎ (id ≡ execute_with_authority))
      × (c.decodes id kit_ix.data_bytes ≡ true)
      × (token_account id kit_ix.accounts ≡ some token)

  execute_token-some :
      (id : PhygitalWalletInstruction) (ix : KitIx) (token : String)
      → execute_token c id ix ≡ some token
      → (c.decodes id ix.data_bytes ≡ true) × (token_account id ix.accounts ≡ some token)
  unfolding execute_token
  execute_token-some id ix token e =
      let (t, read, e1) = >>=-eq-some (token_account id ix.accounts) _ e in
      elim (Bool-cases (c.decodes id ix.data_bytes)) [
        | inr h ↦ let g : absent ≡ some token = rw h at e1 in cc
        | inl h ↦ elim (Bool-cases (is_none (try_parse_address c t))) [
          | inl k ↦ let g : absent ≡ some token = rw (h, k) at e1 in cc
          | inr k ↦ let g : some t ≡ some token = rw (h, k) at e1 in (h, read ∙ g)
        ]
      ]

  credited_or_debited-some :
      (id : PhygitalWalletInstruction) (ix : KitIx) (token : String)
      → credited_or_debited c id ix ≡ some token
      → ((id ≡ execute) ⊎ (id ≡ execute_with_authority)) × (execute_token c id ix ≡ some token)
  unfolding credited_or_debited
  credited_or_debited-some execute ix token e = (inl refl, e)
  credited_or_debited-some execute_with_authority ix token e = (inr refl, e)
  credited_or_debited-some execute_with_authority_using_policies ix token e = cc
  credited_or_debited-some clear_authority ix token e = cc
  credited_or_debited-some clear_wallet_policy ix token e = cc
  credited_or_debited-some set_authority ix token e = cc
  credited_or_debited-some set_wallet_policy ix token e = cc

  first-some :
      (ixs : List CompiledIx) (keys : List String) (token : String)
      → first_execute_account c ixs keys ≡ some token
      → (ix : CompiledIx) × In ix ixs × (execute_account c ix keys ≡ some token)
  unfolding first_execute_account
  first-some [] keys token e = cc
  first-some (ix ∷ ixs) keys token e = elim (Option-cases (execute_account c ix keys)) [
    | inr (t, h) ↦
        let g : some t ≡ some token = rw (first_execute_account, h) at e in (ix, inl refl, h ∙ g)
    | inl h ↦
        let g : first_execute_account c ixs keys ≡ some token =
          rw (first_execute_account, h) at e in
        let (found, there, k) = first-some ixs keys token g in (found, inr there, k)
  ]

  pub find-Names :
      (tx : ConfirmedTx) (token : String)
      → find_execute_accounts c tx (resolve_account_keys tx) ≡ some token
      → Names tx token
  unfolding find_execute_accounts execute_account
  find-Names tx token e =
      let keys = resolve_account_keys tx in
      let (ix, there, e1) = first-some (all_compiled_ixs tx) keys token e in
      let (kit_ix, compiled, e2) = >>=-eq-some (compiled_to_kit_ix c ix keys) _ e1 in
      elim (Bool-cases (kit_ix.program_address == phygital_wallet_program_address)) [
        | inr h ↦ let g : absent ≡ some token = rw h at e2 in cc
        | inl h ↦
            let g : (identify kit_ix.data_bytes >>=? λ id. credited_or_debited c id kit_ix)
                ≡ some token =
              rw h at e2 in
            let (id, identified, e3) = >>=-eq-some (identify kit_ix.data_bytes) _ g in
            let (variant, e4) = credited_or_debited-some id kit_ix token e3 in
            let (decoded, read) = execute_token-some id kit_ix token e4 in
            (
              ix,
              kit_ix,
              id,
              there,
              compiled,
              (eq_iff kit_ix.program_address phygital_wallet_program_address).0 h,
              identified,
              variant,
              decoded,
              read,
            )
      ]
