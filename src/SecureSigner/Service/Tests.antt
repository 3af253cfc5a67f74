-- ===== src/SecureSigner/Service/Tests.antt =====
-- A wallet under a toy cipher that puts sixteen zeros before the text.
use phygital_wallet.Common.{
  ℕ, zero, suc, ◌≡◌, ◌⊎◌, refl, none, some, [], ◌∷◌, ◌++◌, Bytes, bytes_eq, drop, if◌then◌else◌,
}
use phygital_wallet.Errors.{ok}
use phygital_wallet.SecureSigner.{invalid_wallet_blob, decryption_failed}
use phygital_wallet.SecureSigner.Blob.{
  ParsedWalletBlob, build_aad, write_u16, encode_wallet_blob, decode_wallet_blob,
}
use phygital_wallet.SecureSigner.Service.{
  Crypto, PrfProvider, Draws, CreatedWallet, Unwrapped, done, service_error, parse_blob,
  create_wallet, decrypt_wallet, unwrap_wallet,
}
use phygital_wallet.SecureSigner.Service.Wrapping.{Forgery, create-decrypt, unwrap_binds}

abbrev fill : ℕ → ℕ → Bytes
fill zero b = []
fill (suc n) b = b ∷ fill n b

abbrev toy : Crypto
toy = record {
  utf8 = λ _. 1 ∷ [];
  hkdf = λ secret salt info. secret;
  encrypt = λ key iv plaintext aad. fill 16 0 ++ plaintext;
  decrypt = λ key iv ciphertext aad. some (drop 16 ciphertext);
  get_public_key = λ seed. fill 32 7;
  sign = λ message seed. message;
}

abbrev passkey : PrfProvider
passkey = record {
  create = λ rp user. ok (record { credential_id = 5 ∷ []; prf_output = fill 32 3 });
  get = λ rp id. ok (fill 32 3);
}

abbrev draws : Draws
draws = record { seed = fill 32 9; kdf_salt = fill 32 4; iv = fill 12 2 }

abbrev wallet : CreatedWallet
wallet = record {
  public_key = fill 32 7;
  blob =
      83
      ∷ 83
      ∷ 87
      ∷ 49
      ∷ 1
      ∷ (fill 32 7
          ++ (0 ∷ 1 ∷ 5 ∷ (fill 32 4 ++ (fill 12 2 ++ (0 ∷ 48 ∷ (fill 16 0 ++ fill 32 9))))));
  signature = some (1 ∷ 2 ∷ []);
}

creates : create_wallet toy passkey draws "rp" "user" (some (1 ∷ 2 ∷ [])) ≡ done wallet
unfolding create_wallet build_aad write_u16 encode_wallet_blob
creates = refl

create-decrypt_example :
    (p : ParsedWalletBlob) × (parse_blob wallet.blob ≡ done p)
    × (decrypt_wallet toy passkey "rp" p
        ≡ done (record { seed = fill 32 9; public_key = fill 32 7 }))
create-decrypt_example =
    create-decrypt toy passkey draws "rp" "user" (some (1 ∷ 2 ∷ [])) wallet
      (λ key iv plaintext aad. refl) (λ rp user enrolled e. cc) creates

refuses : parse_blob (1 ∷ 2 ∷ []) ≡ service_error invalid_wallet_blob
unfolding parse_blob decode_wallet_blob
refuses = refl

-- One wallet's header, and the same ciphertext under the header of another credential. The toy cipher
-- reads no additional text, so that both of them open.
abbrev parsed : ParsedWalletBlob
parsed = record {
  version = 1;
  fields = record {
    public_key = fill 32 7;
    credential_id = 5 ∷ [];
    kdf_salt = fill 32 4;
    iv = fill 12 2;
    ciphertext = fill 16 0 ++ fill 32 9;
  };
}

abbrev moved : ParsedWalletBlob
moved = record parsed { fields = record parsed.fields { credential_id = 6 ∷ [] } }

abbrev out : Unwrapped
out = record { seed = fill 32 9; public_key = fill 32 7 }

unwraps : unwrap_wallet toy (fill 32 3) parsed "rp" ≡ done out
unfolding unwrap_wallet build_aad write_u16
unwraps = refl

unwraps_moved : unwrap_wallet toy (fill 32 3) moved "rp" ≡ done out
unfolding unwrap_wallet build_aad write_u16
unwraps_moved = refl

-- A cipher that opens a text under itself only refuses the other header.
abbrev strict : Crypto
strict = record toy {
  decrypt = λ key iv ciphertext aad. if bytes_eq aad ciphertext then some (fill 32 9) else none;
}

refuses_moved : unwrap_wallet strict (fill 32 3) moved "rp" ≡ service_error decryption_failed
unfolding unwrap_wallet build_aad write_u16
refuses_moved = refl

unwrap_binds_example :
    (out.public_key ≡ parsed.fields.public_key)
    × (out.public_key ≡ moved.fields.public_key)
    × (((parsed.fields.public_key ≡ moved.fields.public_key)
          × (parsed.fields.credential_id ≡ moved.fields.credential_id)
          × (toy.utf8 "rp" ≡ toy.utf8 "rp")
          × (out.seed ≡ out.seed))
        ⊎ Forgery toy (fill 32 3) parsed moved "rp" "rp" out.seed out.seed)
unwrap_binds_example =
    unwrap_binds toy (fill 32 3) parsed moved "rp" "rp" out out refl refl refl refl unwraps
      unwraps_moved
