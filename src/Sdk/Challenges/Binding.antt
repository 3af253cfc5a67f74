-- ===== src/Sdk/Challenges/Binding.antt =====
-- challenges.ts: what the hash that is signed binds, up to collisions of SHA-256.
use native.Mathlib.Decide.{ℕ_discrete}
use mathlib.Core.Path.{subst}
use phygital_wallet.Common.{
  ℕ, ◌≡◌, ◌≢◌, ◌⊎◌, refl, sym, ap, ◌∙◌, String, none, some, List, ◌++◌, map, Bytes, length,
  append-inj, take-append, take, get_elem?, arith, inl, inr, All,
}
use phygital_wallet.Errors.{ok, >>=-eq-ok}
use phygital_wallet.Sdk.{CompactInstruction}
use phygital_wallet.Sdk.Compile.{Roles}
use phygital_wallet.Sdk.Challenges.{
  Hashing, ChallengeAccount, AccountRef, to_challenge_account, push_instructions,
  pack_compact_instructions, hash_referenced_accounts, hash_execute_challenge,
  hash_set_authority_challenge, field32, zeros, execute_challenge_prefix,
  set_authority_challenge_prefix,
}
use phygital_wallet.Sdk.Challenges.Pack.{IsIndexed, unpack-pack}
use phygital_wallet.Sdk.Challenges.Referenced.{
  IsLawful, referenced, Writes, Writes-inj, push_instructions-Writes,
}

abbrev pub Collision : Hashing → Type 0
Collision h = (a : Bytes) × (b : Bytes) × (a ≢ b) × (h.sha256 a ≡ h.sha256 b)

Bytes-discrete : Discrete Bytes
Bytes-discrete = hlevel ℕ_discrete

sha-eq : (h : Hashing) (a b : Bytes) → h.sha256 a ≡ h.sha256 b → (a ≡ b) ⊎ Collision h
sha-eq h a b e = elim (Bytes-discrete a b) [ yes same ↦ inl same | no other ↦ inr (a, b, other, e) ]

field32-eq : (b : Bytes) → length b ≡ 32 → field32 b ≡ b
unfolding field32
field32-eq b e = subst (λ n. take n (b ++ zeros 32) ≡ b) e (take-append b (zeros 32))

seventeenth : Bytes → ℕ
seventeenth bytes = elim (get_elem? bytes 16) [ none ↦ 0 | some n ↦ n ]

-- The domains differ in their seventeenth byte.
prefixes_differ :
    (x y : Bytes) → execute_challenge_prefix ++ x ≢ set_authority_challenge_prefix ++ y
unfolding seventeenth
prefixes_differ x y e = let f : ◌≡◌ {A = ℕ} 101 115 = ap seventeenth e in absurd (omega (arith, f))

abbrev pub accounts_of : Roles → List AccountRef → List ChallengeAccount
accounts_of k = map (to_challenge_account k)

module _ (h : Hashing) (laws : IsLawful h) (k : Roles) where
  -- The texts that a challenge hashes: the packed instructions, the accounts, and the whole.
  opened :
      (slot : Bytes) (cis : List CompactInstruction) (remaining : List AccountRef) (digest : Bytes)
      → length slot ≡ 32
      → hash_execute_challenge h k slot cis remaining ≡ ok digest
      → (packed : Bytes) × (buf : Bytes) × (pack_compact_instructions cis ≡ ok packed)
        × Writes h (referenced (accounts_of k remaining) cis) buf
        × (h.sha256 (execute_challenge_prefix ++ (slot ++ (h.sha256 packed ++ h.sha256 buf)))
            ≡ digest)
  unfolding hash_execute_challenge hash_referenced_accounts
  opened slot cis remaining digest sized e =
      let (packed, p, f) = >>=-eq-ok (pack_compact_instructions cis) _ e in
      let (hashed, q, g) = >>=-eq-ok (hash_referenced_accounts h k remaining cis) _ f in
      let (buf, r, l) = >>=-eq-ok (push_instructions h (accounts_of k remaining) cis) _ q in
      let digested : h.sha256 buf ≡ hashed = cc in
      let fields : field32 slot ++ (field32 (h.sha256 packed) ++ field32 hashed)
          ≡ slot ++ (h.sha256 packed ++ h.sha256 buf) =
        rw
          (
            ← digested,
            field32-eq slot sized,
            field32-eq (h.sha256 packed) (laws.digest_length packed),
            field32-eq (h.sha256 buf) (laws.digest_length buf),
          )
          refl in
      (
        packed,
        buf,
        p,
        push_instructions-Writes h (accounts_of k remaining) cis buf r,
        ap (λ z. h.sha256 (execute_challenge_prefix ++ z)) (sym fields) ∙ cc,
      )

  -- Two execute challenges with one digest, over slot hashes of 32 bytes and instructions whose
  -- program indexes fit in a byte, have the same slot hash, the same compact instructions, and the
  -- same accounts, each with its address and privileges, wherever an instruction refers to one; or
  -- else they exhibit two texts with one SHA-256 digest.
  pub execute_challenge_binds :
      (slot slot' : Bytes) (cis cis' : List CompactInstruction)
      (remaining remaining' : List AccountRef) (digest : Bytes)
      → length slot ≡ 32
      → length slot' ≡ 32
      → All IsIndexed cis
      → All IsIndexed cis'
      → hash_execute_challenge h k slot cis remaining ≡ ok digest
      → hash_execute_challenge h k slot' cis' remaining' ≡ ok digest
      → ((slot ≡ slot')
          × (cis ≡ cis')
          × (referenced (accounts_of k remaining) cis ≡ referenced (accounts_of k remaining') cis'))
        ⊎ Collision h
  execute_challenge_binds slot slot' cis cis' remaining remaining' digest s s' i i' e e' =
      let (packed, buf, p, w, d) = opened slot cis remaining digest s e in
      let (packed', buf', p', w', d') = opened slot' cis' remaining' digest s' e' in
      elim (sha-eq h _ _ (d ∙ sym d')) [
        | inr collision ↦ inr collision
        | inl whole ↦
            let (same, hashes) =
              append-inj slot slot' (s ∙ sym s')
                (append-inj execute_challenge_prefix execute_challenge_prefix refl whole).1 in
            let (left, right) =
              append-inj (h.sha256 packed) (h.sha256 packed')
                (laws.digest_length packed ∙ sym (laws.digest_length packed')) hashes in
            elim (sha-eq h packed packed' left) [
              | inr collision ↦ inr collision
              | inl packs ↦ elim (sha-eq h buf buf' right) [
                | inr collision ↦ inr collision
                | inl bufs ↦
                    let read = unpack-pack cis packed p i in
                    let read' = unpack-pack cis' packed' p' i' in
                    let named =
                      subst (Writes h (referenced (accounts_of k remaining) cis)) bufs w in
                    inl (same, cc, Writes-inj h laws _ _ buf' named w')
              ]
            ]
      ]

  authority_opened :
      (slot : Bytes) (token authority : String) (digest : Bytes)
      → length slot ≡ 32
      → hash_set_authority_challenge h slot token authority ≡ ok digest
      → (x : Bytes) × (y : Bytes) × (h.encode_address token ≡ ok x)
        × (h.encode_address authority ≡ ok y)
        × (h.sha256 (set_authority_challenge_prefix ++ (slot ++ (x ++ y))) ≡ digest)
  unfolding hash_set_authority_challenge
  authority_opened slot token authority digest sized e =
      let (x, p, f) = >>=-eq-ok (h.encode_address token) _ e in
      let (y, q, g) = >>=-eq-ok (h.encode_address authority) _ f in
      (
        x,
        y,
        p,
        q,
        ap (λ z. h.sha256 (set_authority_challenge_prefix ++ (z ++ (x ++ y))))
              (sym (field32-eq slot sized))
            ∙ cc,
      )

  -- Two set-authority challenges with one digest, over slot hashes of 32 bytes, have the same slot
  -- hash, token and authority, or exhibit two texts with one SHA-256 digest: where addresses encode to
  -- 32 bytes each and different ones to different bytes.
  pub set_authority_challenge_binds :
      (slot slot' : Bytes) (token token' authority authority' : String) (digest : Bytes)
      → length slot ≡ 32
      → length slot' ≡ 32
      → hash_set_authority_challenge h slot token authority ≡ ok digest
      → hash_set_authority_challenge h slot' token' authority' ≡ ok digest
      → ((slot ≡ slot') × (token ≡ token') × (authority ≡ authority')) ⊎ Collision h
  set_authority_challenge_binds slot slot' token token' authority authority' digest s s' e e' =
      let (x, y, p, q, d) = authority_opened slot token authority digest s e in
      let (x', y', p', q', d') = authority_opened slot' token' authority' digest s' e' in
      elim (sha-eq h _ _ (d ∙ sym d')) [
        | inr collision ↦ inr collision
        | inl whole ↦
            let (same, keys) =
              append-inj slot slot' (s ∙ sym s')
                (append-inj set_authority_challenge_prefix set_authority_challenge_prefix refl
                  whole).1 in
            let (left, right) =
              append-inj x x'
                (laws.address_length token x p ∙ sym (laws.address_length token' x' p')) keys in
            inl (
              same,
              laws.address_inj token token' x p (p' ∙ ap ok (sym left)),
              laws.address_inj authority authority' y q (q' ∙ ap ok (sym right)),
            )
      ]

  -- An execute challenge and a set-authority challenge with one digest, over slot hashes of 32
  -- bytes, exhibit two texts with one SHA-256 digest.
  pub challenges_separate :
      (slot slot' : Bytes) (cis : List CompactInstruction) (remaining : List AccountRef)
      (token authority : String) (digest : Bytes)
      → length slot ≡ 32
      → length slot' ≡ 32
      → hash_execute_challenge h k slot cis remaining ≡ ok digest
      → hash_set_authority_challenge h slot' token authority ≡ ok digest
      → Collision h
  challenges_separate slot slot' cis remaining token authority digest s s' e e' =
      let (packed, buf, p, w, d) = opened slot cis remaining digest s e in
      let (x, y, q, q', d') = authority_opened slot' token authority digest s' e' in
      (_, _, prefixes_differ _ _, d ∙ sym d')
