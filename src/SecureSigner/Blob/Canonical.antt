-- ===== src/SecureSigner/Blob/Canonical.antt =====
-- wallet-format.ts: the bytes that decode are the ones that encode.
use mathlib.Core.Path.{subst}
use phygital_wallet.Common.{
  ℕ, ◌<◌, ◌≡◌, refl, sym, ap, ◌∙◌, true, false, not, ◌||◌, [], ◌∷◌, ◌++◌, Bytes, bytes_eq, length,
  arith, ltb, eqb, All,
}
use phygital_wallet.Errors.{ok, >>=-eq-ok}
use phygital_wallet.SecureSigner.Blob.{
  WalletBlobFields, ParsedWalletBlob, encode_wallet_blob, decode_wallet_blob, decode_tail,
  read_bytes, read_u8, read_u16, write_u16, require, blob_magic, blob_version, max_blob_bytes,
  max_credential_id_bytes,
}
use phygital_wallet.SecureSigner.Blob.Reading.{read_bytes-eq-ok, write_read_u16}
use phygital_wallet.SecureSigner.Blob.RoundTrip.{IsShaped, tail_of, blob_of, required, append_nil}

abbrev pub AreBytes : Bytes → Type 0
AreBytes bytes = All (λ b. b < 256) bytes

AreBytes-append : (xs ys : Bytes) → AreBytes (xs ++ ys) → AreBytes ys
AreBytes-append [] ys h = h
AreBytes-append (x ∷ xs) ys (_, h) = AreBytes-append xs ys h

encode-IsShaped :
    (f : WalletBlobFields) (v w : Bytes)
    → IsShaped f
    → write_u16 (length f.credential_id) ≡ ok v
    → write_u16 (length f.ciphertext) ≡ ok w
    → encode_wallet_blob f ≡ ok (blob_of f v w)
unfolding encode_wallet_blob
encode-IsShaped f v w h e d =
    let public_key : eqb (length f.public_key) 32 ≡ true = ground (arith, h.public_key) in
    let salt : eqb (length f.kdf_salt) 32 ≡ true = ground (arith, h.salt) in
    let iv : eqb (length f.iv) 12 ≡ true = ground (arith, h.iv) in
    let ciphertext : eqb (length f.ciphertext) 48 ≡ true = ground (arith, h.ciphertext) in
    let id : (ltb (length f.credential_id) 1
          || ltb max_credential_id_bytes (length f.credential_id))
        ≡ false =
      ground (arith, h.some_id, h.short_id) in
    rw (public_key, salt, iv, ciphertext, id, e, d) refl

pub bytes_eq-eq : (xs ys : Bytes) → bytes_eq xs ys ≡ true → xs ≡ ys
bytes_eq-eq [] [] e = refl
bytes_eq-eq [] (y ∷ ys) e = cc
bytes_eq-eq (x ∷ xs) [] e = cc
bytes_eq-eq (x ∷ xs) (y ∷ ys) e =
    let head : x ≡ y = ground arith in let tail = bytes_eq-eq xs ys (ground arith) in cc

-- What the last part of the decoder finds.
record IsTail (public_key credential_id rest : Bytes) (p : ParsedWalletBlob) : Type 0 where
  version : p.version ≡ blob_version
  key : p.fields.public_key ≡ public_key
  id : p.fields.credential_id ≡ credential_id
  salt : length p.fields.kdf_salt ≡ 32
  iv : length p.fields.iv ≡ 12
  ciphertext : length p.fields.ciphertext ≡ 48
  mark : Bytes
  written : write_u16 (length p.fields.ciphertext) ≡ ok mark
  split : rest ≡ tail_of p.fields mark

ok-injective : {A : Type 0} (x y : A) → ok x ≡ ok y → x ≡ y
ok-injective x y e = cc

no_rest : (rest : Bytes) → eqb (length rest) 0 ≡ true → rest ≡ []
no_rest [] e = refl
no_rest (x ∷ xs) e = ground arith

IsTail-found :
    (public_key credential_id rest salt rest1 iv rest2 mark rest3 ciphertext rest4 : Bytes)
    (size : ℕ)
    → (rest ≡ salt ++ rest1) × (length salt ≡ 32)
    → (rest1 ≡ iv ++ rest2) × (length iv ≡ 12)
    → write_u16 size ≡ ok mark
    → rest2 ≡ mark ++ rest3
    → eqb size 48 ≡ true
    → (rest3 ≡ ciphertext ++ rest4) × (length ciphertext ≡ size)
    → eqb (length rest4) 0 ≡ true
    → IsTail public_key credential_id rest (record {
      version = blob_version;
      fields = record {
        public_key = public_key;
        credential_id = credential_id;
        kdf_salt = salt;
        iv = iv;
        ciphertext = ciphertext;
      };
    })
IsTail-found public_key credential_id rest salt rest1 iv rest2 mark rest3 ciphertext rest4 size
      (s, s_length) (i, i_length) written z sized (c, c_length) ended =
    record {
      version = refl;
      key = refl;
      id = refl;
      salt = s_length;
      iv = i_length;
      ciphertext = c_length ∙ ground arith;
      mark = mark;
      written = subst (λ n. write_u16 n ≡ ok mark) (sym c_length) written;
      split =
          s
          ∙ ap (λ r. salt ++ r)
              (i
                ∙ ap (λ r. iv ++ r)
                    (z
                      ∙ ap (λ r. mark ++ r)
                          (c
                            ∙ ap (λ r. ciphertext ++ r) (no_rest rest4 ended)
                            ∙ append_nil ciphertext)));
    }

decode_tail-eq-ok :
    (public_key credential_id rest : Bytes) (p : ParsedWalletBlob)
    → AreBytes rest
    → decode_tail public_key credential_id rest ≡ ok p
    → IsTail public_key credential_id rest p
unfolding decode_tail
decode_tail-eq-ok public_key credential_id rest p bytes h =
    let ((salt, rest1), s, h1) = >>=-eq-ok (read_bytes 32 rest) _ h in
    let s_split = read_bytes-eq-ok 32 rest salt rest1 s in
    let bytes1 = AreBytes-append salt rest1 (subst AreBytes s_split.0 bytes) in
    let ((iv, rest2), i, h2) = >>=-eq-ok (read_bytes 12 rest1) _ h1 in
    let i_split = read_bytes-eq-ok 12 rest1 iv rest2 i in
    let bytes2 = AreBytes-append iv rest2 (subst AreBytes i_split.0 bytes1) in
    let ((size, rest3), z, h3) = >>=-eq-ok (read_u16 rest2) _ h2 in
    let (mark, written, z_split) = write_read_u16 size rest2 rest3 bytes2 z in
    let (_, sized, h4) = >>=-eq-ok (require (eqb size 48) "ciphertext length") _ h3 in
    let ((ciphertext, rest4), c, h5) = >>=-eq-ok (read_bytes size rest3) _ h4 in
    let c_split = read_bytes-eq-ok size rest3 ciphertext rest4 c in
    let (_, ended, h6) = >>=-eq-ok (require (eqb (length rest4) 0) "trailing bytes") _ h5 in
    subst (λ q. IsTail public_key credential_id rest q) (ok-injective _ p h6)
      (IsTail-found public_key credential_id rest salt rest1 iv rest2 mark rest3 ciphertext rest4
        size s_split i_split written z_split (required _ "ciphertext length" sized) c_split
        (required _ "trailing bytes" ended))

read_u8-eq-ok : (b : ℕ) (bytes rest : Bytes) → read_u8 bytes ≡ ok (b, rest) → bytes ≡ b ∷ rest
unfolding read_u8
read_u8-eq-ok b [] rest e = cc
read_u8-eq-ok b (x ∷ xs) rest e = cc

-- The whole decoder, from what its parts find.
head_found :
    (blob magic rest rest1 public_key rest2 mark rest3 credential_id rest4 : Bytes)
    (version size : ℕ) (p : ParsedWalletBlob)
    → (blob ≡ magic ++ rest) × (length magic ≡ 4)
    → bytes_eq magic blob_magic ≡ true
    → rest ≡ version ∷ rest1
    → eqb version blob_version ≡ true
    → (rest1 ≡ public_key ++ rest2) × (length public_key ≡ 32)
    → write_u16 size ≡ ok mark
    → rest2 ≡ mark ++ rest3
    → not (ltb size 1 || ltb max_credential_id_bytes size) ≡ true
    → (rest3 ≡ credential_id ++ rest4) × (length credential_id ≡ size)
    → IsTail public_key credential_id rest4 p
    → (p.version ≡ blob_version) × IsShaped p.fields × (encode_wallet_blob p.fields ≡ ok blob)
head_found blob magic rest rest1 public_key rest2 mark rest3 credential_id rest4 version size p
      (b, b_length) m v versioned (k, k_length) written z sized (c, c_length) t =
    let sized_id : length p.fields.credential_id ≡ size = ap length t.id ∙ c_length in
    let after_id =
      c ∙ ap (λ x. x ++ rest4) (sym t.id) ∙ ap (λ r. p.fields.credential_id ++ r) t.split in
    let after_key =
      k
      ∙ ap (λ x. x ++ rest2) (sym t.key)
      ∙ ap (λ r. p.fields.public_key ++ r) (z ∙ ap (λ r. mark ++ r) after_id) in
    let one : version ≡ blob_version = ground (arith, versioned) in
    let whole =
      b
      ∙ ap (λ x. x ++ rest) (bytes_eq-eq magic blob_magic m)
      ∙ ap (λ r. blob_magic ++ r)
          (v ∙ ap (λ x. x ∷ rest1) one ∙ ap (λ r. blob_version ∷ r) after_key) in
    let shaped : IsShaped p.fields = record {
      public_key = ap length t.key ∙ k_length;
      salt = t.salt;
      iv = t.iv;
      ciphertext = t.ciphertext;
      some_id = ground (arith, sized_id, sized);
      short_id = ground (arith, sized_id, sized);
    } in
    let id_written : write_u16 (length p.fields.credential_id) ≡ ok mark =
      subst (λ n. write_u16 n ≡ ok mark) (sym (ap length t.id ∙ c_length)) written in
    (
      t.version,
      shaped,
      encode-IsShaped p.fields mark t.mark shaped id_written t.written ∙ ap ok (sym whole),
    )

-- Where numbers below 256 decode, the fields have the fixed lengths, the version is the one there is,
-- and encoding the fields gives the same bytes back, so no other bytes decode to those fields.
pub encode-decode :
    (blob : Bytes) (p : ParsedWalletBlob)
    → AreBytes blob
    → decode_wallet_blob blob ≡ ok p
    → (p.version ≡ blob_version) × IsShaped p.fields × (encode_wallet_blob p.fields ≡ ok blob)
unfolding decode_wallet_blob
encode-decode blob p bytes h =
    let (_, _, h1) = >>=-eq-ok (require (not (ltb (length blob) 134)) "too short") _ h in
    let (_, _, h2) =
      >>=-eq-ok (require (not (ltb max_blob_bytes (length blob))) "too large") _ h1 in
    let ((magic, rest), g, h3) = >>=-eq-ok (read_bytes 4 blob) _ h2 in
    let g_split = read_bytes-eq-ok 4 blob magic rest g in
    let bytes0 = AreBytes-append magic rest (subst AreBytes g_split.0 bytes) in
    let (_, m, h4) = >>=-eq-ok (require (bytes_eq magic blob_magic) "bad magic") _ h3 in
    let ((version, rest1), v, h5) = >>=-eq-ok (read_u8 rest) _ h4 in
    let v_split = read_u8-eq-ok version rest rest1 v in
    let bytes1 = (subst AreBytes v_split bytes0).1 in
    let (_, versioned, h6) =
      >>=-eq-ok (require (eqb version blob_version) "unsupported version") _ h5 in
    let ((public_key, rest2), k, h7) = >>=-eq-ok (read_bytes 32 rest1) _ h6 in
    let k_split = read_bytes-eq-ok 32 rest1 public_key rest2 k in
    let bytes2 = AreBytes-append public_key rest2 (subst AreBytes k_split.0 bytes1) in
    let ((size, rest3), z, h8) = >>=-eq-ok (read_u16 rest2) _ h7 in
    let (mark, written, z_split) = write_read_u16 size rest2 rest3 bytes2 z in
    let bytes3 = AreBytes-append mark rest3 (subst AreBytes z_split bytes2) in
    let (_, sized, h9) =
      >>=-eq-ok
        (require (not (ltb size 1 || ltb max_credential_id_bytes size)) "credentialId length") _
        h8 in
    let ((credential_id, rest4), c, h10) = >>=-eq-ok (read_bytes size rest3) _ h9 in
    let c_split = read_bytes-eq-ok size rest3 credential_id rest4 c in
    let bytes4 = AreBytes-append credential_id rest4 (subst AreBytes c_split.0 bytes3) in
    head_found blob magic rest rest1 public_key rest2 mark rest3 credential_id rest4 version size p
      g_split (required _ "bad magic" m) v_split (required _ "unsupported version" versioned)
      k_split written z_split (required _ "credentialId length" sized) c_split
      (decode_tail-eq-ok public_key credential_id rest4 p bytes4 h10)
