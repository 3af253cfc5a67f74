-- ===== src/Api/Blobs/Tests.antt =====
-- Puts of two wallets under one credential.
use phygital_wallet.Common.{String, ◌≡◌, refl, Option, none, some, [], ◌∷◌, trim}
use phygital_wallet.Errors.{ok}
use phygital_wallet.Api.Blobs.{
  DbRow, OwnerWalletBlobRow, PutParams, created, conflict, webauthn_required, get_owner_wallet_blob,
  put_owner_wallet_blob,
}
use phygital_wallet.Api.Blobs.Kept.{SameKeys, puts, puts-Keeps}

abbrev params : String → String → Option String → PutParams
params public_key encrypted_blob key = record {
  credential_id_hash = "hash";
  public_key = public_key;
  encrypted_blob = encrypted_blob;
  blob_version = 1;
  webauthn_public_key = key;
}

abbrev row : DbRow
row = record {
  credential_id_hash = "hash";
  public_key = "owner";
  encrypted_blob = "one";
  blob_version = 1;
  updated_at = 5;
  webauthn_public_key = some "cose";
}

abbrev read : OwnerWalletBlobRow
read = record {
  credential_id_hash = "hash";
  public_key = "owner";
  encrypted_blob = "one";
  blob_version = 1;
  updated_at = 5;
  webauthn_public_key = "cose";
}

creates :
    put_owner_wallet_blob "taken" 5 [] (params "owner" "one" (some " cose "))
    ≡ (row ∷ [], ok created)
unfolding put_owner_wallet_blob trim
creates = refl

requires :
    put_owner_wallet_blob "taken" 5 [] (params "owner" "one" none) ≡ ([], ok webauthn_required)
unfolding put_owner_wallet_blob
requires = refl

refuses :
    put_owner_wallet_blob "taken" 6 (row ∷ []) (params "thief" "two" none) ≡ (row ∷ [], ok conflict)
unfolding put_owner_wallet_blob trim
refuses = refl

reads_row : get_owner_wallet_blob (row ∷ []) "hash" ≡ some read
unfolding get_owner_wallet_blob trim
reads_row = refl

puts-Keeps_example :
    (r : OwnerWalletBlobRow) × (get_owner_wallet_blob
        (puts "taken"
          (row ∷ [])
          ((6, params "thief" "two" none) ∷ (7, params "owner" "three" (some "other")) ∷ []))
        "hash"
      ≡ some r)
    × SameKeys read r
puts-Keeps_example =
    puts-Keeps "taken" (row ∷ [])
      ((6, params "thief" "two" none) ∷ (7, params "owner" "three" (some "other")) ∷ []) "hash" read
      reads_row
