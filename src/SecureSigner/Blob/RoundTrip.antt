-- ===== src/SecureSigner/Blob/RoundTrip.antt =====
-- wallet-format.ts: encoding and decoding are inverse to one another.
use mathlib.Core.Path.{subst}
use phygital_wallet.Common.{
  ℕ, ◌+◌, ◌≤◌, ◌≡◌, refl, ap, true, false, Bool, not, ◌||◌, [], ◌∷◌, ◌++◌, Bytes, length,
  length-append, arith, ltb, eqb, String,
}
use phygital_wallet.Errors.{ok, >>=-eq-ok}
use phygital_wallet.SecureSigner.Blob.{
  WalletBlobFields, ParsedWalletBlob, encode_wallet_blob, decode_wallet_blob, decode_tail,
  read_bytes, read_u8, write_u16, require, blob_magic, blob_version, max_blob_bytes,
  max_credential_id_bytes,
}
use phygital_wallet.SecureSigner.Blob.Reading.{read_bytes-append, read_write_u16}

pub record IsShaped (f : WalletBlobFields) : Type 0 where
  pub public_key : length f.public_key ≡ 32
  pub salt : length f.kdf_salt ≡ 32
  pub iv : length f.iv ≡ 12
  pub ciphertext : length f.ciphertext ≡ 48
  pub some_id : 1 ≤ length f.credential_id
  pub short_id : length f.credential_id ≤ max_credential_id_bytes

abbrev pub tail_of : WalletBlobFields → Bytes → Bytes
tail_of f w = f.kdf_salt ++ (f.iv ++ (w ++ f.ciphertext))

abbrev pub blob_of : WalletBlobFields → Bytes → Bytes → Bytes
blob_of f v w =
    blob_magic ++ (blob_version ∷ [] ++ (f.public_key ++ (v ++ (f.credential_id ++ tail_of f w))))

abbrev pub parsed : WalletBlobFields → ParsedWalletBlob
parsed f = record { version = blob_version; fields = f }

pub required : (b : Bool) (message : String) {u : Unit {0}} → require b message ≡ ok u → b ≡ true
required true message e = refl
required false message e = cc

pub append_nil : (xs : Bytes) → xs ++ [] ≡ xs
append_nil [] = refl
append_nil (x ∷ xs) = ap (λ ys. x ∷ ys) (append_nil xs)

read_bytes-all : (n : ℕ) (xs : Bytes) → length xs ≡ n → read_bytes n xs ≡ ok (xs, [])
read_bytes-all n xs e =
    subst (λ ys. read_bytes n ys ≡ ok (xs, [])) (append_nil xs) (read_bytes-append n xs [] e)

tail-encoded :
    (f : WalletBlobFields) (w : Bytes)
    → IsShaped f
    → write_u16 (length f.ciphertext) ≡ ok w
    → decode_tail f.public_key f.credential_id (tail_of f w) ≡ ok (parsed f)
unfolding decode_tail
tail-encoded f w h e =
    let sized : eqb (length f.ciphertext) 48 ≡ true = ground (arith, h.ciphertext) in
    rw
      (
        read_bytes-append 32 f.kdf_salt (f.iv ++ (w ++ f.ciphertext)) h.salt,
        read_bytes-append 12 f.iv (w ++ f.ciphertext) h.iv,
        (read_write_u16 (length f.ciphertext) w f.ciphertext e).0,
        sized,
        read_bytes-all (length f.ciphertext) f.ciphertext refl,
      )
      refl

length-blob_of :
    (f : WalletBlobFields) (v w : Bytes)
    → IsShaped f
    → length v ≡ 2
    → length w ≡ 2
    → length (blob_of f v w) ≡ 133 + length f.credential_id
length-blob_of f v w h e d = ground (
  arith,
  length-append f.public_key (v ++ (f.credential_id ++ tail_of f w)),
  length-append v (f.credential_id ++ tail_of f w),
  length-append f.credential_id (tail_of f w),
  length-append f.kdf_salt (f.iv ++ (w ++ f.ciphertext)),
  length-append f.iv (w ++ f.ciphertext),
  length-append w f.ciphertext,
  h.public_key,
  h.salt,
  h.iv,
  h.ciphertext,
)

decode-encoded :
    (f : WalletBlobFields) (v w : Bytes)
    → IsShaped f
    → write_u16 (length f.credential_id) ≡ ok v
    → write_u16 (length f.ciphertext) ≡ ok w
    → decode_wallet_blob (blob_of f v w) ≡ ok (parsed f)
unfolding decode_wallet_blob read_u8
decode-encoded f v w h e d =
    let (read, two) =
      read_write_u16 (length f.credential_id) v (f.credential_id ++ tail_of f w) e in
    let size = length-blob_of f v w h two (read_write_u16 (length f.ciphertext) w [] d).1 in
    let long : ltb (length (blob_of f v w)) 134 ≡ false = ground (arith, size, h.some_id) in
    let short : ltb max_blob_bytes (length (blob_of f v w)) ≡ false =
      ground (arith, size, h.short_id) in
    let named : (ltb (length f.credential_id) 1
          || ltb max_credential_id_bytes (length f.credential_id))
        ≡ false =
      ground (arith, h.some_id, h.short_id) in
    rw
      (
        long,
        short,
        read_bytes-append 4 blob_magic
            (blob_version ∷ (f.public_key ++ (v ++ (f.credential_id ++ tail_of f w)))) refl,
        read_bytes-append 32 f.public_key (v ++ (f.credential_id ++ tail_of f w)) h.public_key,
        read,
        named,
        read_bytes-append (length f.credential_id) f.credential_id (tail_of f w) refl,
        tail-encoded f w h d,
      )
      refl

encode-eq-ok :
    (f : WalletBlobFields) (blob : Bytes)
    → encode_wallet_blob f ≡ ok blob
    → IsShaped f
      × ((v : Bytes) × (w : Bytes) × (write_u16 (length f.credential_id) ≡ ok v)
          × (write_u16 (length f.ciphertext) ≡ ok w)
          × (blob ≡ blob_of f v w))
unfolding encode_wallet_blob
encode-eq-ok f blob h =
    let (_, public_key, h1) = >>=-eq-ok (require (eqb (length f.public_key) 32) "pubkey") _ h in
    let (_, salt, h2) = >>=-eq-ok (require (eqb (length f.kdf_salt) 32) "salt") _ h1 in
    let (_, iv, h3) = >>=-eq-ok (require (eqb (length f.iv) 12) "iv") _ h2 in
    let (_, ciphertext, h4) = >>=-eq-ok (require (eqb (length f.ciphertext) 48) "ct") _ h3 in
    let (_, id, h5) =
      >>=-eq-ok
        (require
          (not (
            ltb (length f.credential_id) 1 || ltb max_credential_id_bytes (length f.credential_id)))
          "credentialId")
        _ h4 in
    let (v, credential_length, h6) = >>=-eq-ok (write_u16 (length f.credential_id)) _ h5 in
    let (w, ciphertext_length, h7) = >>=-eq-ok (write_u16 (length f.ciphertext)) _ h6 in
    let shaped : IsShaped f = record {
      public_key = ground (arith, required _ "pubkey" public_key);
      salt = ground (arith, required _ "salt" salt);
      iv = ground (arith, required _ "iv" iv);
      ciphertext = ground (arith, required _ "ct" ciphertext);
      some_id = ground (arith, required _ "credentialId" id);
      short_id = ground (arith, required _ "credentialId" id);
    } in
    (shaped, (v, w, credential_length, ciphertext_length, cc))

-- What is encoded decodes to the fields it was made of, with the one version there is.
pub decode-encode :
    (f : WalletBlobFields) (blob : Bytes)
    → encode_wallet_blob f ≡ ok blob
    → decode_wallet_blob blob ≡ ok (parsed f)
decode-encode f blob h =
    let (shaped, (v, w, e, d, same)) = encode-eq-ok f blob h in
    rw same (decode-encoded f v w shaped e d)
