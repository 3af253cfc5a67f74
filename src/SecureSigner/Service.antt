-- ===== src/SecureSigner/Service.antt =====
-- secure-signer/src/wallet-service.ts, with crypto.ts: the wallet's seed under the key that a passkey
-- gives. WebCrypto, Ed25519 and UTF-8 are the record `Crypto`, the injected passkey a `PrfProvider`,
-- and what the platform draws at random a `Draws`. Buffers that are zeroed are not modelled.
pub mod Wrapping
mod Tests
use phygital_wallet.Common.{
  ℕ, String, Bool, not, Option, none, some, Bytes, bytes_eq, length, eqb, if◌then◌else◌,
}
use phygital_wallet.Errors.{Thrown, plain_error, Result, ok, err}
use phygital_wallet.SecureSigner.{
  ErrorCode, invalid_wallet_blob, authentication_failed, decryption_failed, wallet_mismatch,
}
use phygital_wallet.SecureSigner.Blob.{
  WalletBlobFields, ParsedWalletBlob, ed25519_pubkey_bytes, encode_wallet_blob, decode_wallet_blob,
  build_aad,
}

-- What a call gives: its value, a `ServiceError` with its code, or another thrown value.
pub data Outcome {ℓ} (A : Type ℓ) : Type ℓ where
  done : A → Outcome A
  service_error : ErrorCode → Outcome A
  rejected : Thrown → Outcome A

infixl 5 ◌>>=◌
abbrev pub ◌>>=◌ {ℓ κ} : {A : Type ℓ} {B : Type κ} → Outcome A → (A → Outcome B) → Outcome B
done a >>= next = next a
service_error code >>= next = service_error code
rejected thrown >>= next = rejected thrown

abbrev pub lift {ℓ} : {A : Type ℓ} → Result A → Outcome A
lift (ok a) = done a
lift (err thrown) = rejected thrown

-- `none` is a decryption that does not authenticate.
pub record Crypto : Type 0 where
  pub utf8 : String → Bytes
  pub hkdf : Bytes → Bytes → Bytes → Bytes
  pub encrypt : Bytes → Bytes → Bytes → Bytes → Bytes
  pub decrypt : Bytes → Bytes → Bytes → Bytes → Option Bytes
  pub get_public_key : Bytes → Bytes
  pub sign : Bytes → Bytes → Bytes

pub record PrfResult : Type 0 where
  pub credential_id : Bytes
  pub prf_output : Bytes

pub record PrfProvider : Type 0 where
  pub create : String → String → Result PrfResult
  pub get : String → Bytes → Result Bytes

-- The seed of `generateEd25519Seed`, then the salt and the initialization vector of `randomBytes`.
pub record Draws : Type 0 where
  pub seed : Bytes
  pub kdf_salt : Bytes
  pub iv : Bytes

pub record CreatedWallet : Type 0 where
  pub public_key : Bytes
  pub blob : Bytes
  pub signature : Option Bytes

pub record Unwrapped : Type 0 where
  pub seed : Bytes
  pub public_key : Bytes

abbrev pub hkdf_info_label : String
hkdf_info_label = "secure-signer:wrap:v1"

pub parse_blob : Bytes → Outcome ParsedWalletBlob
parse_blob blob = elim (decode_wallet_blob blob) [
  | ok parsed ↦ done parsed
  | err _ ↦ service_error invalid_wallet_blob
]

module _ (k : Crypto) where
  pub derive_wrapping_key : Bytes → Bytes → Bytes
  derive_wrapping_key prf_output salt = k.hkdf prf_output salt (k.utf8 hkdf_info_label)

  pub ed25519_public_key : Bytes → Outcome Bytes
  ed25519_public_key seed =
      let key = k.get_public_key seed in
      if not (eqb (length key) ed25519_pubkey_bytes)
      then rejected (plain_error "bad pubkey length")
      else done key

  -- `buildAad` of a header, with the texts as bytes.
  pub aad_of : Bytes → Bytes → Bytes → String → Outcome Bytes
  aad_of public_key credential_id kdf_salt rp_id =
      lift (build_aad public_key credential_id kdf_salt (k.utf8 rp_id) (k.utf8 hkdf_info_label))

  pub wrap_new_seed : Draws → Bytes → Bytes → String → Option Bytes → Outcome CreatedWallet
  unfolding derive_wrapping_key ed25519_public_key aad_of
  wrap_new_seed draws prf_output credential_id rp_id message_to_sign = do
    public_key ← ed25519_public_key draws.seed
    let key = derive_wrapping_key prf_output draws.kdf_salt
    aad ← aad_of public_key credential_id draws.kdf_salt rp_id
    blob ← lift (
        encode_wallet_blob (record {
          public_key = public_key;
          credential_id = credential_id;
          kdf_salt = draws.kdf_salt;
          iv = draws.iv;
          ciphertext = k.encrypt key draws.iv draws.seed aad;
        }))
    done (record {
      public_key = public_key;
      blob = blob;
      signature = elim message_to_sign [
        | none ↦ none
        | some message ↦ some (k.sign message draws.seed)
      ];
    })

  pub create_wallet : PrfProvider → Draws → String → String → Option Bytes → Outcome CreatedWallet
  unfolding wrap_new_seed
  create_wallet prf draws rp_id user_name message_to_sign = do
    enrolled ← lift (prf.create rp_id user_name)
    wrap_new_seed draws enrolled.prf_output enrolled.credential_id rp_id message_to_sign

  pub enroll_existing_credential :
      PrfProvider → Draws → String → Bytes → Option Bytes → Outcome CreatedWallet
  unfolding wrap_new_seed
  enroll_existing_credential prf draws rp_id credential_id message_to_sign = do
    got ← lift (prf.get rp_id credential_id)
    wrap_new_seed draws got credential_id rp_id message_to_sign

  pub unwrap_wallet : Bytes → ParsedWalletBlob → String → Outcome Unwrapped
  unfolding derive_wrapping_key ed25519_public_key aad_of
  unwrap_wallet prf_output parsed rp_id =
      let f = parsed.fields in
      let key = derive_wrapping_key prf_output f.kdf_salt in
      do
        aad ← aad_of f.public_key f.credential_id f.kdf_salt rp_id
        seed ← elim (k.decrypt key f.iv f.ciphertext aad) [
          | none ↦ service_error decryption_failed
          | some seed ↦ done seed
        ]
        public_key ← ed25519_public_key seed
        if not (bytes_eq public_key f.public_key)
            then service_error wallet_mismatch
            else done (record { seed = seed; public_key = public_key })

  pub decrypt_wallet : PrfProvider → String → ParsedWalletBlob → Outcome Unwrapped
  unfolding unwrap_wallet
  decrypt_wallet prf rp_id parsed = elim (prf.get rp_id parsed.fields.credential_id) [
    | err _ ↦ service_error authentication_failed
    | ok prf_output ↦ unwrap_wallet prf_output parsed rp_id
  ]

  pub sign_and_scrub : Bytes → Bytes → Bytes
  sign_and_scrub message_bytes seed = k.sign message_bytes seed
