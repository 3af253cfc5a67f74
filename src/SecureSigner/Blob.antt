-- ===== src/SecureSigner/Blob.antt =====
-- secure-signer/src/wallet-format.ts and constants.ts: the encrypted wallet as bytes. The reader's
-- offset is the rest of its bytes, and a `BlobError` is its message.
pub mod Reading
pub mod RoundTrip
pub mod Canonical
pub mod Aad
mod Tests
use phygital_wallet.Common.{
  ℕ, ◌+◌, ◌*◌, ◌/◌, ◌%◌, String, Bool, true, false, not, ◌||◌, List, [], ◌∷◌, ◌++◌, Bytes, bytes_eq,
  length, take, drop, ltb, eqb, if◌then◌else◌,
}
use phygital_wallet.Errors.{Thrown, plain_error, Result, ok, err, ◌>>=◌, ◌>>◌}

abbrev pub blob_magic : Bytes
blob_magic = 83 ∷ 83 ∷ 87 ∷ 49 ∷ []

abbrev pub blob_version : ℕ
blob_version = 1

abbrev pub ed25519_pubkey_bytes : ℕ
ed25519_pubkey_bytes = 32

abbrev pub kdf_salt_bytes : ℕ
kdf_salt_bytes = 32

abbrev pub aes_gcm_iv_bytes : ℕ
aes_gcm_iv_bytes = 12

abbrev pub max_blob_bytes : ℕ
max_blob_bytes = 1024

abbrev pub max_credential_id_bytes : ℕ
max_credential_id_bytes = 256

abbrev pub expected_ciphertext_bytes : ℕ
expected_ciphertext_bytes = 48

pub record WalletBlobFields : Type 0 where
  pub public_key : Bytes
  pub credential_id : Bytes
  pub kdf_salt : Bytes
  pub iv : Bytes
  pub ciphertext : Bytes

pub record ParsedWalletBlob : Type 0 where
  pub version : ℕ
  pub fields : WalletBlobFields

abbrev blob_error {ℓ} : {A : Type ℓ} → String → Result A
blob_error message = err (plain_error message)

abbrev pub require : Bool → String → Result (Unit {0})
require true message = ok tt
require false message = blob_error message

-- `bytes(n)`: what is read, and the rest.
unfoldable pub read_bytes : ℕ → Bytes → Result (Bytes × Bytes)
read_bytes n rest =
    if ltb (length rest) n then blob_error "truncated" else ok (take n rest, drop n rest)

unfoldable pub read_u8 : Bytes → Result (ℕ × Bytes)
read_u8 [] = blob_error "truncated"
read_u8 (b ∷ rest) = ok (b, rest)

-- `(hi << 8) | lo`, of two bytes
unfoldable pub read_u16 : Bytes → Result (ℕ × Bytes)
read_u16 [] = blob_error "truncated"
read_u16 (_ ∷ []) = blob_error "truncated"
read_u16 (hi ∷ lo ∷ rest) = ok (hi * 256 + lo, rest)

unfoldable pub write_u16 : ℕ → Result Bytes
write_u16 n = if ltb 65535 n then blob_error "u16 overflow" else ok ((n / 256) % 256 ∷ n % 256 ∷ [])

unfoldable pub encode_wallet_blob : WalletBlobFields → Result Bytes
encode_wallet_blob f = do
  require (eqb (length f.public_key) ed25519_pubkey_bytes) "pubkey"
  require (eqb (length f.kdf_salt) kdf_salt_bytes) "salt"
  require (eqb (length f.iv) aes_gcm_iv_bytes) "iv"
  require (eqb (length f.ciphertext) expected_ciphertext_bytes) "ct"
  require
      (not (ltb (length f.credential_id) 1 || ltb max_credential_id_bytes (length f.credential_id)))
      "credentialId"
  credential_length ← write_u16 (length f.credential_id)
  ciphertext_length ← write_u16 (length f.ciphertext)
  ok (
      blob_magic
      ++ (blob_version ∷ []
          ++ (f.public_key
              ++ (credential_length
                  ++ (f.credential_id
                      ++ (f.kdf_salt ++ (f.iv ++ (ciphertext_length ++ f.ciphertext))))))))

-- From the salt on.
decode_tail : Bytes → Bytes → Bytes → Result ParsedWalletBlob
decode_tail public_key credential_id rest = do
  (kdf_salt, rest) ← read_bytes kdf_salt_bytes rest
  (iv, rest) ← read_bytes aes_gcm_iv_bytes rest
  (ciphertext_length, rest) ← read_u16 rest
  require (eqb ciphertext_length expected_ciphertext_bytes) "ciphertext length"
  (ciphertext, rest) ← read_bytes ciphertext_length rest
  require (eqb (length rest) 0) "trailing bytes"
  ok (record {
    version = blob_version;
    fields = record {
      public_key = public_key;
      credential_id = credential_id;
      kdf_salt = kdf_salt;
      iv = iv;
      ciphertext = ciphertext;
    };
  })

unfoldable pub decode_wallet_blob : Bytes → Result ParsedWalletBlob
unfolding decode_tail
decode_wallet_blob bytes = do
  require (not (ltb (length bytes) 134)) "too short"
  require (not (ltb max_blob_bytes (length bytes))) "too large"
  (magic, rest) ← read_bytes 4 bytes
  require (bytes_eq magic blob_magic) "bad magic"
  (version, rest) ← read_u8 rest
  require (eqb version blob_version) "unsupported version"
  (public_key, rest) ← read_bytes ed25519_pubkey_bytes rest
  (credential_length, rest) ← read_u16 rest
  require (not (ltb credential_length 1 || ltb max_credential_id_bytes credential_length))
      "credentialId length"
  (credential_id, rest) ← read_bytes credential_length rest
  decode_tail public_key credential_id rest

-- The text of `rpId` and of `HKDF_INFO_LABEL` is given as its bytes.
unfoldable pub build_aad : Bytes → Bytes → Bytes → Bytes → Bytes → Result Bytes
build_aad public_key credential_id kdf_salt rp info = do
  credential_length ← write_u16 (length credential_id)
  rp_length ← write_u16 (length rp)
  info_length ← write_u16 (length info)
  ok (
      blob_magic
      ++ (blob_version ∷ []
          ++ (public_key
              ++ (credential_length
                  ++ (credential_id
                      ++ (kdf_salt ++ (rp_length ++ (rp ++ (info_length ++ info)))))))))
