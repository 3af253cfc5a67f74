-- ===== src/SecureSigner/Service/Wrapping.antt =====
-- wallet-service.ts: a wallet that was wrapped is unwrapped to its seed, and its header is bound to
-- its ciphertext.
use phygital_wallet.Common.{
  String, ◌≡◌, ◌≢◌, ◌⊎◌, refl, sym, ap, ◌∙◌, [], ◌∷◌, true, Option, some, Bytes, bytes_eq, length,
  arith, Bool-cases, Option-cases, inl, inr,
}
use phygital_wallet.Errors.{Result, ok, err}
use phygital_wallet.SecureSigner.Blob.{WalletBlobFields, ParsedWalletBlob, encode_wallet_blob}
use phygital_wallet.SecureSigner.Blob.RoundTrip.{parsed, decode-encode}
use phygital_wallet.SecureSigner.Blob.Aad.{aad_injective}
use phygital_wallet.SecureSigner.Blob.Canonical.{bytes_eq-eq}
use phygital_wallet.SecureSigner.Service.{
  Outcome, done, service_error, rejected, ◌>>=◌, lift, Crypto, PrfResult, PrfProvider, Draws,
  CreatedWallet, Unwrapped, hkdf_info_label, parse_blob, derive_wrapping_key, ed25519_public_key,
  aad_of, wrap_new_seed, create_wallet, unwrap_wallet, decrypt_wallet,
}

>>=-eq-done {ℓ κ} :
    {A : Type ℓ} {B : Type κ} (m : Outcome A) (next : A → Outcome B) {b : B}
    → (m >>= next) ≡ done b
    → (a : A) × (m ≡ done a) × (next a ≡ done b)
>>=-eq-done (done a) next e = (a, refl, e)
>>=-eq-done (service_error code) next e = cc
>>=-eq-done (rejected thrown) next e = cc

lift-eq-done {ℓ} : {A : Type ℓ} (r : Result A) {a : A} → lift r ≡ done a → r ≡ ok a
lift-eq-done (ok x) e = cc
lift-eq-done (err thrown) e = cc

bytes_eq_refl : (xs : Bytes) → bytes_eq xs xs ≡ true
bytes_eq_refl [] = refl
bytes_eq_refl (x ∷ xs) = ground (arith, bytes_eq_refl xs)

bytes_eq-cases : (xs ys : Bytes) → (xs ≡ ys) ⊎ (xs ≢ ys)
bytes_eq-cases xs ys = elim (Bool-cases (bytes_eq xs ys)) [
  | inl same ↦ inl (bytes_eq-eq xs ys same)
  | inr apart ↦ inr (λ e. absurd (cc (sym apart ∙ ap (bytes_eq xs) (sym e) ∙ bytes_eq_refl xs)))
]

-- What AES-GCM and WebAuthn document: a text decrypts under what it was encrypted with, and a
-- passkey that was created gives the same output again.
abbrev pub Decrypts : Crypto → Type 0
Decrypts k =
    (key iv plaintext aad : Bytes)
    → k.decrypt key iv (k.encrypt key iv plaintext aad) aad ≡ some plaintext

abbrev pub Repeats : PrfProvider → Type 0
Repeats prf =
    (rp_id user_name : String) (enrolled : PrfResult)
    → prf.create rp_id user_name ≡ ok enrolled
    → prf.get rp_id enrolled.credential_id ≡ ok enrolled.prf_output

module _ (k : Crypto) where
  -- The fields that a new wallet is written from.
  abbrev fields_of : Draws → Bytes → Bytes → Bytes → Bytes → WalletBlobFields
  fields_of draws prf_output credential_id public_key aad = record {
    public_key = public_key;
    credential_id = credential_id;
    kdf_salt = draws.kdf_salt;
    iv = draws.iv;
    ciphertext =
        k.encrypt (derive_wrapping_key k prf_output draws.kdf_salt) draws.iv draws.seed aad;
  }

  wrapped :
      (draws : Draws) (prf_output credential_id : Bytes) (rp_id : String) (message : Option Bytes)
      (w : CreatedWallet)
      → wrap_new_seed k draws prf_output credential_id rp_id message ≡ done w
      → (aad : Bytes) × (ed25519_public_key k draws.seed ≡ done w.public_key)
        × (aad_of k w.public_key credential_id draws.kdf_salt rp_id ≡ done aad)
        × (encode_wallet_blob (fields_of draws prf_output credential_id w.public_key aad)
            ≡ ok w.blob)
  unfolding wrap_new_seed
  wrapped draws prf_output credential_id rp_id message w e =
      let (pk, p, f) = >>=-eq-done (ed25519_public_key k draws.seed) _ e in
      let (aad, q, g) = >>=-eq-done (aad_of k pk credential_id draws.kdf_salt rp_id) _ f in
      let (blob, r, h) =
        >>=-eq-done (lift (encode_wallet_blob (fields_of draws prf_output credential_id pk aad))) _
          g in
      let same : pk ≡ w.public_key = cc in
      let same_blob : blob ≡ w.blob = cc in
      (
        aad,
        p ∙ ap done same,
        ap (λ z. aad_of k z credential_id draws.kdf_salt rp_id) (sym same) ∙ q,
        ap (λ z. encode_wallet_blob (fields_of draws prf_output credential_id z aad)) (sym same)
            ∙ lift-eq-done _ r
            ∙ ap ok same_blob,
      )

  unwrap-fields :
      (f : WalletBlobFields) (prf_output : Bytes) (rp_id : String) (aad seed : Bytes)
      → aad_of k f.public_key f.credential_id f.kdf_salt rp_id ≡ done aad
      → k.decrypt (derive_wrapping_key k prf_output f.kdf_salt) f.iv f.ciphertext aad ≡ some seed
      → ed25519_public_key k seed ≡ done f.public_key
      → unwrap_wallet k prf_output (parsed f) rp_id
        ≡ done (record { seed = seed; public_key = f.public_key })
  unfolding unwrap_wallet
  unwrap-fields f prf_output rp_id aad seed a d p =
      rw (unwrap_wallet, a, d, p, bytes_eq_refl f.public_key) refl

  wrap-unwrap :
      (draws : Draws) (prf_output credential_id : Bytes) (rp_id : String) (message : Option Bytes)
      (w : CreatedWallet)
      → Decrypts k
      → wrap_new_seed k draws prf_output credential_id rp_id message ≡ done w
      → (p : ParsedWalletBlob) × (parse_blob w.blob ≡ done p)
        × (p.fields.credential_id ≡ credential_id)
        × (unwrap_wallet k prf_output p rp_id
            ≡ done (record { seed = draws.seed; public_key = w.public_key }))
  unfolding parse_blob
  wrap-unwrap draws prf_output credential_id rp_id message w law e =
      let (aad, p, q, r) = wrapped draws prf_output credential_id rp_id message w e in
      let f = fields_of draws prf_output credential_id w.public_key aad in
      (
        parsed f,
        rw (parse_blob, decode-encode f w.blob r) refl,
        refl,
        unwrap-fields f prf_output rp_id aad draws.seed q (law _ _ _ _) p,
      )

  -- The blob of a wallet that was created parses, and decrypts, by the passkey that was created for
  -- it, to the seed that was drawn and to the public key that was answered: where decryption undoes
  -- encryption, and the passkey gives its output again.
  pub create-decrypt :
      (prf : PrfProvider) (draws : Draws) (rp_id user_name : String) (message : Option Bytes)
      (w : CreatedWallet)
      → Decrypts k
      → Repeats prf
      → create_wallet k prf draws rp_id user_name message ≡ done w
      → (p : ParsedWalletBlob) × (parse_blob w.blob ≡ done p)
        × (decrypt_wallet k prf rp_id p
            ≡ done (record { seed = draws.seed; public_key = w.public_key }))
  unfolding create_wallet decrypt_wallet
  create-decrypt prf draws rp_id user_name message w law again e =
      let (enrolled, q, f) = >>=-eq-done (lift (prf.create rp_id user_name)) _ e in
      let got = again rp_id user_name enrolled (lift-eq-done _ q) in
      let (p, parses, id, unwraps) =
        wrap-unwrap draws enrolled.prf_output enrolled.credential_id rp_id message w law f in
      (p, parses, rw (decrypt_wallet, id, got) unwraps)

-- The additional text of the blob's header is `aad`, and with it the ciphertext of `p` opens to `seed`
-- under the key of the passkey output and the salt of `p`.
abbrev pub Opens :
    Crypto → Bytes → ParsedWalletBlob → ParsedWalletBlob → String → Bytes → Bytes → Type 0
Opens k prf_output p header rp_id seed aad =
    let h = header.fields in
    (aad_of k h.public_key h.credential_id h.kdf_salt rp_id ≡ done aad)
    × (k.decrypt (derive_wrapping_key k prf_output p.fields.kdf_salt) p.fields.iv
          p.fields.ciphertext aad
        ≡ some seed)

-- One ciphertext opens with the additional texts of two headers, and they differ: what AES-GCM is
-- used to rule out.
abbrev pub Forgery :
    Crypto → Bytes → ParsedWalletBlob → ParsedWalletBlob → String → String → Bytes → Bytes → Type 0
Forgery k prf_output p p' rp_id rp_id' seed seed' =
    (aad : Bytes) × (aad' : Bytes) × Opens k prf_output p p rp_id seed aad
    × Opens k prf_output p p' rp_id' seed' aad'
    × (aad ≢ aad')

module _ (k : Crypto) where
  unwrapped :
      (prf_output : Bytes) (p : ParsedWalletBlob) (rp_id : String) (u : Unwrapped)
      → unwrap_wallet k prf_output p rp_id ≡ done u
      → (aad : Bytes) × (aad_of k p.fields.public_key p.fields.credential_id p.fields.kdf_salt rp_id
          ≡ done aad)
        × (k.decrypt
              (derive_wrapping_key k prf_output p.fields.kdf_salt)
              p.fields.iv
              p.fields.ciphertext
              aad
            ≡ some u.seed)
        × (ed25519_public_key k u.seed ≡ done u.public_key)
        × (u.public_key ≡ p.fields.public_key)
  unfolding unwrap_wallet
  unwrapped prf_output p rp_id u e =
      let f = p.fields in
      let key = derive_wrapping_key k prf_output f.kdf_salt in
      let (aad, a, g) = >>=-eq-done (aad_of k f.public_key f.credential_id f.kdf_salt rp_id) _ e in
      elim (Option-cases (k.decrypt key f.iv f.ciphertext aad)) [
        | inl fails ↦ let h = rw fails at g in absurd (cc)
        | inr (seed, d) ↦
            let h = rw d at g in
            let (pk, q, l) = >>=-eq-done (ed25519_public_key k seed) _ h in
            elim (Bool-cases (bytes_eq pk f.public_key)) [
              | inr other ↦ let m = rw other at l in absurd (cc)
              | inl same ↦
                  let m = rw same at l in
                  let seeds : seed ≡ u.seed = cc in
                  let keys : pk ≡ u.public_key = cc in
                  (
                    aad,
                    a,
                    d ∙ ap some seeds,
                    ap (ed25519_public_key k) (sym seeds) ∙ q ∙ ap done keys,
                    sym keys ∙ bytes_eq-eq pk f.public_key same,
                  )
            ]
      ]

  -- Two blobs with one salt, initialization vector and ciphertext, whose public keys are of one length
  -- and that both unwrap by one passkey output, each give the public key of their header. They have the
  -- same public key and credential, were unwrapped for relying parties of the same bytes, and give the
  -- same seed; or else the additional texts of the two headers differ, and the one ciphertext opens with
  -- both of them under the key that the passkey output and the salt derive.
  pub unwrap_binds :
      (prf_output : Bytes) (p p' : ParsedWalletBlob) (rp_id rp_id' : String) (u u' : Unwrapped)
      → p.fields.kdf_salt ≡ p'.fields.kdf_salt
      → p.fields.iv ≡ p'.fields.iv
      → p.fields.ciphertext ≡ p'.fields.ciphertext
      → length p.fields.public_key ≡ length p'.fields.public_key
      → unwrap_wallet k prf_output p rp_id ≡ done u
      → unwrap_wallet k prf_output p' rp_id' ≡ done u'
      → (u.public_key ≡ p.fields.public_key)
        × (u'.public_key ≡ p'.fields.public_key)
        × (((p.fields.public_key ≡ p'.fields.public_key)
              × (p.fields.credential_id ≡ p'.fields.credential_id)
              × (k.utf8 rp_id ≡ k.utf8 rp_id')
              × (u.seed ≡ u'.seed))
            ⊎ Forgery k prf_output p p' rp_id rp_id' u.seed u'.seed)
  unfolding aad_of
  unwrap_binds prf_output p p' rp_id rp_id' u u' salts ivs texts sized e e' =
      let (aad, a, d, pk, mine) = unwrapped prf_output p rp_id u e in
      let (aad', a', d', pk', mine') = unwrapped prf_output p' rp_id' u' e' in
      let key = derive_wrapping_key k prf_output p.fields.kdf_salt in
      let moved : k.decrypt key p.fields.iv p.fields.ciphertext aad' ≡ some u'.seed =
        rw (salts, ivs, texts) d' in
      (
        mine,
        mine',
        elim (bytes_eq-cases aad aad') [
          | inr apart ↦ inr (aad, aad', (a, d), (a', moved), apart)
          | inl one ↦
              let (keys, ids, _, parties) =
                aad_injective p.fields.public_key p'.fields.public_key p.fields.credential_id
                  p'.fields.credential_id p.fields.kdf_salt p'.fields.kdf_salt (k.utf8 rp_id)
                  (k.utf8 rp_id') (k.utf8 hkdf_info_label) aad sized (ap length salts)
                  (lift-eq-done _ a) (lift-eq-done _ a' ∙ ap ok (sym one)) in
              let seeds : some u.seed ≡ some u'.seed =
                sym d ∙ ap (k.decrypt key p.fields.iv p.fields.ciphertext) one ∙ moved in
              inl (keys, ids, parties, cc)
        ],
      )
