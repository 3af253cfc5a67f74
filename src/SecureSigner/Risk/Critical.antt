-- ===== src/SecureSigner/Risk/Critical.antt =====
-- sign-risk.ts: which transactions are shown as critical.
use mathlib.Core.Path.{subst}
use text.Mathlib.Text.{starts_with}
use Prim.Native.Char.{code}
use phygital_wallet.Common.{
  ℕ, ◌+◌, ◌≤◌, ◌<◌, String, ◌≡◌, ◌↔◌, ◌⊎◌, refl, sym, ◌∙◌, Bool, true, false, ◌&&◌, ◌||◌, Option,
  none, some, List, [], ◌∷◌, any, arith, inl, inr, Bool-cases,
}
use phygital_wallet.Sdk.{
  PhygitalWalletInstruction, clear_authority, clear_wallet_policy, execute, execute_with_authority,
  execute_with_authority_using_policies, set_authority, set_wallet_policy,
}
use phygital_wallet.SecureSigner.Policy.{
  DetailRow, InnerInstructionSummary, ParsedInstructionSummary, TransactionSummary,
}
use phygital_wallet.SecureSigner.Risk.{
  critical, is_critical_instruction, is_owner_spend, is_unclear, filter, owner_spend_risk, is_risk,
  classify_sign_risk, risk_of_spends, includes, includes_folded, begins_folded, is_unknown,
  is_opaque_row,
}

any-filter :
    (p q : ParsedInstructionSummary → Bool) (ixs : List ParsedInstructionSummary)
    → any q (filter p ixs) ≡ any (λ ix. p ix && q ix) ixs
any-filter p q [] = refl
any-filter p q (ix ∷ ixs) = ground (arith, any-filter p q ixs)

critical_spends :
    (spends : List ParsedInstructionSummary)
    → is_risk critical (risk_of_spends spends) ≡ any is_unclear spends
critical_spends [] = refl
critical_spends (ix ∷ spends) = elim (Bool-cases (any is_unclear (ix ∷ spends))) [
  | inl e ↦ rw e refl
  | inr e ↦ rw e refl
]

critical_owner_risk :
    (ixs : List ParsedInstructionSummary)
    → is_risk critical (owner_spend_risk ixs)
      ≡ any (λ ix. is_owner_spend ix.kind && is_unclear ix) ixs
unfolding owner_spend_risk
critical_owner_risk ixs =
    critical_spends (filter (λ ix. is_owner_spend ix.kind) ixs)
    ∙ any-filter (λ ix. is_owner_spend ix.kind) is_unclear ixs

critical_marks :
    (summary : TransactionSummary)
    → (classify_sign_risk summary ≡ critical) ↔ (
        (any (λ ix. is_critical_instruction ix.kind) summary.instructions ≡ true)
        ⊎ (any (λ ix. is_owner_spend ix.kind && is_unclear ix) summary.instructions ≡ true))
unfolding classify_sign_risk
critical_marks summary =
    elim (Bool-cases (is_risk critical (owner_spend_risk summary.instructions))) [
      | inl e ↦ ground (arith, sym (critical_owner_risk summary.instructions) ∙ e)
      | inr e ↦ ground (arith, sym (critical_owner_risk summary.instructions) ∙ e)
    ]

-- One item at least is so.
abbrev pub Some {ℓ} : {A : Type ℓ} → (A → Type 0) → List A → Type 0
Some P [] = ⊥
Some P (x ∷ xs) = P x ⊎ Some P xs

any-Some {ℓ} :
    {A : Type ℓ} (test : A → Bool) (P : A → Type 0)
    → ((x : A) → (test x ≡ true) ↔ P x)
    → (xs : List A) → (any test xs ≡ true) ↔ Some P xs
any-Some test P each [] = (λ e. cc, λ h. elim h [ ])
any-Some test P each (x ∷ xs) = ground (arith, each x, any-Some test P each xs)

-- The instruction removes the owner, or turns off the protections.
abbrev pub IsCritical : PhygitalWalletInstruction → Type 0
IsCritical kind = (kind ≡ clear_authority) ⊎ (kind ≡ clear_wallet_policy)

IsCritical-iff :
    (kind : PhygitalWalletInstruction) → (is_critical_instruction kind ≡ true) ↔ IsCritical kind
IsCritical-iff execute = ground arith
IsCritical-iff set_authority = ground arith
IsCritical-iff clear_authority = ground arith
IsCritical-iff clear_wallet_policy = ground arith
IsCritical-iff set_wallet_policy = ground arith
IsCritical-iff execute_with_authority = ground arith
IsCritical-iff execute_with_authority_using_policies = ground arith

-- The instruction spends under the owner's key.
abbrev pub IsSpend : PhygitalWalletInstruction → Type 0
IsSpend kind = (kind ≡ execute_with_authority) ⊎ (kind ≡ execute_with_authority_using_policies)

IsSpend-iff : (kind : PhygitalWalletInstruction) → (is_owner_spend kind ≡ true) ↔ IsSpend kind
IsSpend-iff execute = ground arith
IsSpend-iff set_authority = ground arith
IsSpend-iff clear_authority = ground arith
IsSpend-iff clear_wallet_policy = ground arith
IsSpend-iff set_wallet_policy = ground arith
IsSpend-iff execute_with_authority = ground arith
IsSpend-iff execute_with_authority_using_policies = ground arith

-- The letter of the text is the one of the pattern, or its capital.
abbrev pub SameLetter : ℕ → ℕ → Type 0
SameLetter letter pattern =
    ((65 ≤ letter) × (letter ≤ 90) × (letter + 32 ≡ pattern))
    ⊎ (((letter < 65) ⊎ (90 < letter)) × (letter ≡ pattern))

-- The text begins with the pattern, in any case.
abbrev pub Begins : String → String → Type 0
Begins String.[] s = Unit
Begins (String.◌∷◌ p ps) String.[] = ⊥
Begins (String.◌∷◌ p ps) (String.◌∷◌ c s) = SameLetter (code c) (code p) × Begins ps s

-- The text is so from one of its places on.
abbrev pub Within : (String → Type 0) → String → Type 0
Within P String.[] = P ""
Within P (String.◌∷◌ c s) = P (String.◌∷◌ c s) ⊎ Within P s

Begins-iff : (needle s : String) → (begins_folded needle s ≡ true) ↔ Begins needle s
unfolding begins_folded
Begins-iff String.[] s = (λ _. tt, λ _. refl)
Begins-iff (String.◌∷◌ p ps) String.[] = (λ e. cc, λ h. elim h [ ])
Begins-iff (String.◌∷◌ p ps) (String.◌∷◌ c s) = ground (arith, Begins-iff ps s)

Within-folded : (needle s : String) → (includes_folded needle s ≡ true) ↔ Within (Begins needle) s
unfolding includes_folded
Within-folded needle String.[] = Begins-iff needle ""
Within-folded needle (String.◌∷◌ c s) =
    ground (arith, Begins-iff needle (String.◌∷◌ c s), Within-folded needle s)

Within-starts :
    (needle s : String)
    → (includes needle s ≡ true) ↔ Within (λ rest. starts_with rest needle ≡ true) s
unfolding includes
Within-starts needle String.[] = (λ e. e, λ e. e)
Within-starts needle (String.◌∷◌ c s) = ground (arith, Within-starts needle s)

-- `/unknown|opaque/i` matches.
abbrev pub IsUnknown : DetailRow → Type 0
IsUnknown d = Within (Begins "unknown") d.value ⊎ Within (Begins "opaque") d.value

IsUnknown-iff : (d : DetailRow) → (is_unknown d.value ≡ true) ↔ IsUnknown d
unfolding is_unknown
IsUnknown-iff d = ground (arith, Within-folded "unknown" d.value, Within-folded "opaque" d.value)

-- The title says that the program is not known, or a detail does.
abbrev pub IsOpaque : InnerInstructionSummary → Type 0
IsOpaque row =
    (starts_with row.title "Program " ≡ true)
    ⊎ Within (λ rest. starts_with rest "opaque" ≡ true) row.title
    ⊎ Some IsUnknown row.details

either_iff :
    {A B C : Type 0} (a b c : Bool)
    → (a ≡ true) ↔ A
    → (b ≡ true) ↔ B
    → (c ≡ true) ↔ C
    → ((a || b || c) ≡ true) ↔ (A ⊎ B ⊎ C)
either_iff true b c f g h = (λ e. inl (f.0 refl), λ _. refl)
either_iff false true c f g h = (λ e. inr (inl (g.0 refl)), λ _. refl)
either_iff false false c f g h = (
  λ e. inr (inr (h.0 e)),
  λ k. elim k [
    | inl x ↦ absurd (cc (f.1 x))
    | inr y ↦ elim y [ inl z ↦ absurd (cc (g.1 z)) | inr z ↦ h.1 z ]
  ],
)

IsOpaque-iff : (row : InnerInstructionSummary) → (is_opaque_row row ≡ true) ↔ IsOpaque row
unfolding is_opaque_row
IsOpaque-iff row =
    either_iff _ _ _ (λ e. e, λ e. e) (Within-starts "opaque" row.title)
      (any-Some (λ d. is_unknown d.value) IsUnknown IsUnknown-iff row.details)

-- The wrapped instructions are missing, or there are none, or one of them is not understood.
abbrev pub IsUnclear : Option (List InnerInstructionSummary) → Type 0
IsUnclear inner =
    (inner ≡ none)
    ⊎ (inner ≡ some [])
    ⊎ ((rows : List InnerInstructionSummary) × (inner ≡ some rows) × Some IsOpaque rows)

unsome {ℓ} : {A : Type ℓ} {x y : A} → some x ≡ some y → x ≡ y
unsome e = cc

IsUnclear-iff :
    (inner : Option (List InnerInstructionSummary)) (ix : ParsedInstructionSummary)
    → ix.inner ≡ inner
    → (is_unclear ix ≡ true) ↔ IsUnclear inner
IsUnclear-iff none ix e = (λ _. inl refl, λ _. rw e refl)
IsUnclear-iff (some []) ix e = (λ _. inr (inl refl), λ _. rw e refl)
IsUnclear-iff (some (row ∷ rows)) ix e =
    let (to, from) = any-Some is_opaque_row IsOpaque IsOpaque-iff (row ∷ rows) in
    (
      λ h. inr (inr (row ∷ rows, refl, to (rw e at h))),
      λ h. elim h [
        | inl k ↦ cc
        | inr k ↦ elim k [
          | inl l ↦ absurd (cc)
          | inr (others, same, l) ↦ rw e (from (subst (Some IsOpaque) (sym (unsome same)) l))
        ]
      ],
    )

IsUnclear-IsSpend :
    (ix : ParsedInstructionSummary)
    → ((is_owner_spend ix.kind && is_unclear ix) ≡ true) ↔ (IsSpend ix.kind × IsUnclear ix.inner)
IsUnclear-IsSpend ix = ground (arith, IsSpend-iff ix.kind, IsUnclear-iff ix.inner ix refl)

-- A transaction is shown as critical exactly if an instruction removes the owner or turns off the
-- protections, or one that spends under the owner's key has its wrapped instructions missing, or
-- empty, or one of them not understood: its title begins with "Program " or contains "opaque", or a
-- detail contains "unknown" or "opaque" in any case.
pub critical_iff :
    (summary : TransactionSummary)
    → (classify_sign_risk summary ≡ critical) ↔ (
        Some (λ ix. IsCritical ix.kind) summary.instructions
        ⊎ Some (λ ix. IsSpend ix.kind × IsUnclear ix.inner) summary.instructions)
critical_iff summary =
    let (to, from) = critical_marks summary in
    let (removes, removed) =
      any-Some (λ ix. is_critical_instruction ix.kind) (λ ix. IsCritical ix.kind)
        (λ ix. IsCritical-iff ix.kind) summary.instructions in
    let (unclear, shown) =
      any-Some (λ ix. is_owner_spend ix.kind && is_unclear ix)
        (λ ix. IsSpend ix.kind × IsUnclear ix.inner) IsUnclear-IsSpend summary.instructions in
    (
      λ e. elim (to e) [ inl h ↦ inl (removes h) | inr h ↦ inr (unclear h) ],
      λ h. elim h [ inl k ↦ from (inl (removed k)) | inr k ↦ from (inr (shown k)) ],
    )
