-- ===== src/SecureSigner/Blob/Aad.antt =====
-- wallet-format.ts: the additional data of the cipher.
use phygital_wallet.Common.{◌≡◌, refl, sym, ap, ◌∙◌, [], ◌∷◌, ◌++◌, Bytes, length, arith}
use phygital_wallet.Errors.{ok, >>=-eq-ok}
use phygital_wallet.SecureSigner.Blob.{build_aad, write_u16, read_u16, blob_magic, blob_version}
use phygital_wallet.SecureSigner.Blob.Reading.{read_write_u16}

append-injective :
    (xs ys us vs : Bytes) → length xs ≡ length ys → xs ++ us ≡ ys ++ vs → (xs ≡ ys) × (us ≡ vs)
append-injective [] [] us vs n e = (refl, e)
append-injective [] (y ∷ ys) us vs n e = ground arith
append-injective (x ∷ xs) [] us vs n e = ground arith
append-injective (x ∷ xs) (y ∷ ys) us vs n e =
    let head : x ≡ y = cc in
    let tail : xs ++ us ≡ ys ++ vs = cc in
    let (same, rest) = append-injective xs ys us vs (ground arith) tail in (cc, rest)

-- A length and what has it are read back from what they begin.
counted-injective :
    (xs ys us vs v w : Bytes)
    → write_u16 (length xs) ≡ ok v
    → write_u16 (length ys) ≡ ok w
    → v ++ (xs ++ us) ≡ w ++ (ys ++ vs)
    → (xs ≡ ys) × (us ≡ vs)
counted-injective xs ys us vs v w hv hw e =
    let (read_v, two_v) = read_write_u16 (length xs) v (xs ++ us) hv in
    let (read_w, two_w) = read_write_u16 (length ys) w (ys ++ vs) hw in
    let read : ok (length xs, xs ++ us) ≡ ok (length ys, ys ++ vs) =
      sym read_v ∙ ap read_u16 e ∙ read_w in
    let lengths : length xs ≡ length ys = cc in
    let rests : xs ++ us ≡ ys ++ vs = cc in append-injective xs ys us vs lengths rests

abbrev aad_of : Bytes → Bytes → Bytes → Bytes → Bytes → Bytes → Bytes → Bytes → Bytes
aad_of public_key credential_id kdf_salt rp info u v w =
    blob_magic
    ++ (blob_version ∷ []
        ++ (public_key ++ (u ++ (credential_id ++ (kdf_salt ++ (v ++ (rp ++ (w ++ info))))))))

build_aad-eq-ok :
    (public_key credential_id kdf_salt rp info aad : Bytes)
    → build_aad public_key credential_id kdf_salt rp info ≡ ok aad
    → (u : Bytes) × (v : Bytes) × (w : Bytes) × (write_u16 (length credential_id) ≡ ok u)
      × (write_u16 (length rp) ≡ ok v)
      × (write_u16 (length info) ≡ ok w)
      × (aad_of public_key credential_id kdf_salt rp info u v w ≡ aad)
unfolding build_aad
build_aad-eq-ok public_key credential_id kdf_salt rp info aad h =
    let (u, hu, h1) = >>=-eq-ok (write_u16 (length credential_id)) _ h in
    let (v, hv, h2) = >>=-eq-ok (write_u16 (length rp)) _ h1 in
    let (w, hw, h3) = >>=-eq-ok (write_u16 (length info)) _ h2 in (u, v, w, hu, hv, hw, cc)

-- Two headers with the same additional data are the same header: the key, the credential and the
-- salt agree, and so does the relying party, if the keys and the salts have equal lengths.
pub aad_injective :
    (public_key public_key' credential_id credential_id' kdf_salt kdf_salt' rp rp' info aad : Bytes)
    → length public_key ≡ length public_key'
    → length kdf_salt ≡ length kdf_salt'
    → build_aad public_key credential_id kdf_salt rp info ≡ ok aad
    → build_aad public_key' credential_id' kdf_salt' rp' info ≡ ok aad
    → (public_key ≡ public_key')
      × (credential_id ≡ credential_id')
      × (kdf_salt ≡ kdf_salt')
      × (rp ≡ rp')
aad_injective public_key public_key' credential_id credential_id' kdf_salt kdf_salt' rp rp' info aad
      keys salts h k =
    let (u, v, w, hu, hv, hw, e) =
      build_aad-eq-ok public_key credential_id kdf_salt rp info aad h in
    let (u', v', w', hu', hv', hw', e') =
      build_aad-eq-ok public_key' credential_id' kdf_salt' rp' info aad k in
    let (_, body) =
      append-injective (blob_magic ++ blob_version ∷ []) (blob_magic ++ blob_version ∷ []) _ _ refl
        (e ∙ sym e') in
    let (same_key, after_key) = append-injective public_key public_key' _ _ keys body in
    let (same_id, after_id) =
      counted-injective credential_id credential_id' _ _ u u' hu hu' after_key in
    let (same_salt, after_salt) = append-injective kdf_salt kdf_salt' _ _ salts after_id in
    let (same_rp, _) = counted-injective rp rp' _ _ v v' hv hv' after_salt in
    (same_key, same_id, same_salt, same_rp)
