-- ===== src/Backend/Tests.antt =====
-- A signer with one key.
use phygital_wallet.Common.{◌≤◌, String, ◌≡◌, refl, true, some, [], ◌∷◌, Bytes, All, length}
use phygital_wallet.Errors.{ok}
use phygital_wallet.Backend.{
  KeyCodec, Key, FeePayerSigner, json_string, object, new_fee_payer_signer, can_sign, sign,
  max_fee_payer_keys,
}
use phygital_wallet.Backend.Keys.{IsKey, new_signer_sound, sign_sound}

abbrev seed_bytes : Bytes
seed_bytes =
    0 ∷ 1 ∷ 2 ∷ 3 ∷ 4 ∷ 5 ∷ 6 ∷ 7 ∷ 8 ∷ 9 ∷ 10 ∷ 11 ∷ 12 ∷ 13 ∷ 14 ∷ 15 ∷ 16 ∷ 17 ∷ 18 ∷ 19 ∷ 20
    ∷ 21 ∷ 22 ∷ 23 ∷ 24 ∷ 25 ∷ 26 ∷ 27 ∷ 28 ∷ 29 ∷ 30 ∷ 31 ∷ []

-- Codecs with one public key.
abbrev one_key : KeyCodec
one_key = record {
  parse_json = λ _. some (object (("payer", json_string "secret") ∷ []));
  parse_numbers = λ _. some seed_bytes;
  base58_bytes = λ _. some seed_bytes;
  base58_text = λ _. "payer";
  base64_text = λ _. "sig==";
  public_key = λ seed. seed;
  ed25519_sign = λ message seed. message;
}

abbrev payer_key : Key
payer_key = record { pubkey = "payer"; seed = seed_bytes }

abbrev one_signer : FeePayerSigner
one_signer = record { by_pubkey = payer_key ∷ [] }

constructed : new_fee_payer_signer one_key (some "{}") ≡ ok one_signer
unfolding new_fee_payer_signer
constructed = refl

new_signer_sound_example :
    All (IsKey one_key) (payer_key ∷ [])
    × (1 ≤ length (payer_key ∷ []))
    × (length (payer_key ∷ []) ≤ max_fee_payer_keys)
new_signer_sound_example = new_signer_sound one_key (some "{}") one_signer constructed

sign_sound_example :
    (can_sign one_key one_signer "payer" ≡ true
      → (seed : Bytes) × (one_key.base58_text (one_key.public_key seed) ≡ "payer")
        × (sign one_key one_signer "payer" []
            ≡ ok (one_key.base64_text (one_key.ed25519_sign [] seed))))
    × ((signature : String)
        → sign one_key one_signer "payer" [] ≡ ok signature
        → can_sign one_key one_signer "payer" ≡ true)
sign_sound_example = sign_sound one_key one_signer "payer" [] ((refl, refl), tt)
