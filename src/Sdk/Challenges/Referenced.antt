-- ===== src/Sdk/Challenges/Referenced.antt =====
-- challenges.ts: the bytes of the accounts that instructions refer to.
use mathlib.Core.Path.{subst}
use mathlib.Core.List.{append_assoc}
use phygital_wallet.Common.{
  ℕ, suc, ◌%◌, ◌/◌, ◌≡◌, ◌≢◌, refl, sym, ap, ◌∙◌, String, Bool, true, false, Option, none, some,
  List, [], ◌∷◌, ◌++◌, map, Bytes, length, length-append, append-inj, get_elem?, if◌then◌else◌,
  arith, inl, inr, Option-cases,
}
use phygital_wallet.Errors.{ok, >>=-eq-ok}
use phygital_wallet.Sdk.{CompactInstruction}
use phygital_wallet.Sdk.Challenges.{
  Hashing, ChallengeAccount, privilege_byte, push_account, push_indexes, push_instructions,
}

-- A digest has 32 bytes; an address encodes to 32 bytes that no other address encodes to.
pub record IsLawful (h : Hashing) : Type 0 where
  pub digest_length : (bytes : Bytes) → length (h.sha256 bytes) ≡ 32
  pub address_length : (a : String) (b : Bytes) → h.encode_address a ≡ ok b → length b ≡ 32
  pub address_inj :
      (a a' : String) (b : Bytes) → h.encode_address a ≡ ok b → h.encode_address a' ≡ ok b → a ≡ a'

-- The accounts that instructions refer to: each one's program, then its accounts.
abbrev pub referenced :
    List ChallengeAccount → List CompactInstruction → List (Option ChallengeAccount)
referenced accounts [] = []
referenced accounts (ix ∷ ixs) =
    (get_elem? accounts ix.program_id_index ∷ map (get_elem? accounts) ix.account_indexes)
    ++ referenced accounts ixs

privilege-signer : (s w : Bool) → privilege_byte s w % 2 ≡ (if s then 1 else 0)
unfolding privilege_byte
privilege-signer true true = refl
privilege-signer true false = refl
privilege-signer false true = refl
privilege-signer false false = refl

privilege-writable : (s w : Bool) → privilege_byte s w / 2 ≡ (if w then 1 else 0)
unfolding privilege_byte
privilege-writable true true = refl
privilege-writable true false = refl
privilege-writable false true = refl
privilege-writable false false = refl

privilege_byte-inj :
    (s w s' w' : Bool) → privilege_byte s w ≡ privilege_byte s' w' → (s ≡ s') × (w ≡ w')
privilege_byte-inj s w s' w' e = ground (
  arith,
  privilege-signer s w,
  privilege-signer s' w',
  privilege-writable s w,
  privilege-writable s' w',
)

module _ (h : Hashing) (laws : IsLawful h) where
  pub push_account-length :
      (a : ChallengeAccount) (x : Bytes) → push_account h a ≡ ok x → length x ≡ 33
  unfolding push_account
  push_account-length a x e =
      let (key, encoded, f) = >>=-eq-ok (h.encode_address a.address) _ e in
      let privilege = privilege_byte a.is_signer a.is_writable in
      let whole : key ++ privilege ∷ [] ≡ x = cc in
      omega (
        arith,
        ap length whole,
        length-append key (privilege ∷ []),
        laws.address_length a.address key encoded,
      )

  push_account-inj :
      (a b : ChallengeAccount) (x : Bytes)
      → push_account h a ≡ ok x
      → push_account h b ≡ ok x
      → a ≡ b
  unfolding push_account
  push_account-inj a b x e f =
      let (key, encoded, g) = >>=-eq-ok (h.encode_address a.address) _ e in
      let (key', encoded', g') = >>=-eq-ok (h.encode_address b.address) _ f in
      let one = privilege_byte a.is_signer a.is_writable in
      let two = privilege_byte b.is_signer b.is_writable in
      let same : key ++ one ∷ [] ≡ key' ++ two ∷ [] = cc in
      let (keys, ends) =
        append-inj key key'
          (laws.address_length a.address key encoded
            ∙ sym (laws.address_length b.address key' encoded'))
          same in
      let (p, q) = privilege_byte-inj a.is_signer a.is_writable b.is_signer b.is_writable (cc) in
      let address : a.address ≡ b.address =
        laws.address_inj a.address b.address key' (encoded ∙ ap ok keys) encoded' in
      cc

module _ (h : Hashing) where
  -- The bytes that accounts are written to, one after the other.
  abbrev pub Writes : List (Option ChallengeAccount) → Bytes → Type 0
  Writes [] buf = buf ≡ []
  Writes (none ∷ _) buf = ⊥
  Writes (some a ∷ rs) buf =
      (x : Bytes) × (r : Bytes) × (push_account h a ≡ ok x) × (buf ≡ x ++ r) × Writes rs r

  Writes-append :
      (rs ss : List (Option ChallengeAccount)) (b c : Bytes)
      → Writes rs b
      → Writes ss c
      → Writes (rs ++ ss) (b ++ c)
  Writes-append [] ss b c w v = subst (Writes ss) (ap (λ z. z ++ c) (sym w)) v
  Writes-append (none ∷ rs) ss b c w v = w
  Writes-append (some a ∷ rs) ss b c (x, r, e, f, w) v =
      (x, r ++ c, e, ap (λ z. z ++ c) f ∙ append_assoc x r c, Writes-append rs ss r c w v)

  push_indexes-Writes :
      (accounts : List ChallengeAccount) (is : List ℕ) (b : Bytes)
      → push_indexes h accounts is ≡ ok b
      → Writes (map (get_elem? accounts) is) b
  unfolding push_indexes
  push_indexes-Writes accounts [] b e = cc
  push_indexes-Writes accounts (i ∷ is) b e = elim (Option-cases (get_elem? accounts i)) [
    | inl g ↦ let f = rw (push_indexes, g) at e in absurd (cc)
    | inr (a, g) ↦
        let f = rw (push_indexes, g) at e in
        let (x, first, k) = >>=-eq-ok (push_account h a) _ f in
        let (r, later, l) = >>=-eq-ok (push_indexes h accounts is) _ k in
        rw g (x, r, first, cc, push_indexes-Writes accounts is r later)
  ]

  pub push_instructions-Writes :
      (accounts : List ChallengeAccount) (ixs : List CompactInstruction) (b : Bytes)
      → push_instructions h accounts ixs ≡ ok b
      → Writes (referenced accounts ixs) b
  unfolding push_instructions
  push_instructions-Writes accounts [] b e = cc
  push_instructions-Writes accounts (ix ∷ ixs) b e =
      elim (Option-cases (get_elem? accounts ix.program_id_index)) [
        | inl g ↦ let f = rw (push_instructions, g) at e in absurd (cc)
        | inr (a, g) ↦
            let f = rw (push_instructions, g) at e in
            let (x, first, k) = >>=-eq-ok (push_account h a) _ f in
            let (y, named, l) = >>=-eq-ok (push_indexes h accounts ix.account_indexes) _ k in
            let (z, later, m) = >>=-eq-ok (push_instructions h accounts ixs) _ l in
            rw g (
              x,
              y ++ z,
              first,
              cc,
              Writes-append (map (get_elem? accounts) ix.account_indexes) (referenced accounts ixs)
                  y z (push_indexes-Writes accounts ix.account_indexes y named)
                  (push_instructions-Writes accounts ixs z later),
            )
      ]

not-empty : (x r : Bytes) (n : ℕ) → length x ≡ suc n → [] ≢ x ++ r
not-empty [] r n e f = absurd (omega (arith, e))
not-empty (y ∷ x) r n e f = cc

module _ (h : Hashing) (laws : IsLawful h) where
  -- The same bytes are written by the same accounts.
  pub Writes-inj :
      (rs ss : List (Option ChallengeAccount)) (b : Bytes) → Writes h rs b → Writes h ss b → rs ≡ ss
  Writes-inj [] [] b w v = refl
  Writes-inj [] (none ∷ ss) b w v = absurd v
  Writes-inj [] (some a ∷ ss) b w (x, r, e, f, v) =
      absurd (not-empty x r 32 (push_account-length h laws a x e) (sym w ∙ f))
  Writes-inj (none ∷ rs) ss b w v = absurd w
  Writes-inj (some a ∷ rs) [] b (x, r, e, f, w) v =
      absurd (not-empty x r 32 (push_account-length h laws a x e) (sym v ∙ f))
  Writes-inj (some a ∷ rs) (none ∷ ss) b w v = absurd v
  Writes-inj (some a ∷ rs) (some a' ∷ ss) b (x, r, e, f, w) (x', r', e', f', w') =
      let (p, q) =
        append-inj x x'
          (push_account-length h laws a x e ∙ sym (push_account-length h laws a' x' e'))
          (sym f ∙ f') in
      let same : a ≡ a' = push_account-inj h laws a a' x' (e ∙ ap ok p) e' in
      let rest : rs ≡ ss = Writes-inj rs ss r' (subst (Writes h rs) q w) w' in cc
