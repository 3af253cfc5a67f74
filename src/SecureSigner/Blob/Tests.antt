-- ===== src/SecureSigner/Blob/Tests.antt =====
-- A wallet on concrete bytes, and the theorems at inputs that meet their hypotheses.
use phygital_wallet.Common.{◌≡◌, refl, [], ◌∷◌, ◌++◌, Bytes, arith, all, ltb, true}
use phygital_wallet.Errors.{ok}
use phygital_wallet.SecureSigner.Blob.{
  WalletBlobFields, encode_wallet_blob, decode_wallet_blob, build_aad, write_u16, read_bytes,
  read_u16, read_u8, blob_version,
}
use phygital_wallet.SecureSigner.Blob.RoundTrip.{IsShaped, blob_of, parsed, decode-encode}
use phygital_wallet.SecureSigner.Blob.Canonical.{AreBytes, encode-decode}
use phygital_wallet.SecureSigner.Blob.Aad.{aad_injective}

abbrev four : Bytes → Bytes
four bytes = bytes ++ (bytes ++ (bytes ++ bytes))

abbrev twelve : Bytes
twelve = 1 ∷ 2 ∷ 3 ∷ 4 ∷ 5 ∷ 6 ∷ 7 ∷ 8 ∷ 9 ∷ 10 ∷ 11 ∷ 12 ∷ []

abbrev thirty_two : Bytes
thirty_two = four (0 ∷ 1 ∷ 2 ∷ 3 ∷ 4 ∷ 5 ∷ 6 ∷ 255 ∷ [])

abbrev fields : WalletBlobFields
fields = record {
  public_key = thirty_two;
  credential_id = 7 ∷ 8 ∷ [];
  kdf_salt = thirty_two;
  iv = twelve;
  ciphertext = four twelve;
}

abbrev blob : Bytes
blob = blob_of fields (0 ∷ 2 ∷ []) (0 ∷ 48 ∷ [])

encoded : encode_wallet_blob fields ≡ ok blob
unfolding encode_wallet_blob write_u16
encoded = refl

decode-encode_example : decode_wallet_blob blob ≡ ok (parsed fields)
decode-encode_example = decode-encode fields blob encoded

decoded : decode_wallet_blob blob ≡ ok (parsed fields)
unfolding decode_wallet_blob read_bytes read_u16 read_u8
decoded = refl

below-AreBytes : (xs : Bytes) → all (λ b. ltb b 256) xs ≡ true → AreBytes xs
below-AreBytes [] e = tt
below-AreBytes (x ∷ xs) e = (ground arith, below-AreBytes xs (ground arith))

bytes : AreBytes blob
bytes = below-AreBytes blob refl

encode-decode_example :
    ((parsed fields).version ≡ blob_version)
    × IsShaped fields
    × (encode_wallet_blob fields ≡ ok blob)
encode-decode_example = encode-decode blob (parsed fields) bytes decoded

abbrev aad : Bytes
aad = 83 ∷ 83 ∷ 87 ∷ 49 ∷ 1 ∷ 5 ∷ 0 ∷ 2 ∷ 7 ∷ 8 ∷ 9 ∷ 0 ∷ 1 ∷ 10 ∷ 0 ∷ 1 ∷ 11 ∷ []

built : build_aad (5 ∷ []) (7 ∷ 8 ∷ []) (9 ∷ []) (10 ∷ []) (11 ∷ []) ≡ ok aad
unfolding build_aad write_u16
built = refl

aad_injective_example :
    (Path Bytes (5 ∷ []) (5 ∷ []))
    × (Path Bytes (7 ∷ 8 ∷ []) (7 ∷ 8 ∷ []))
    × (Path Bytes (9 ∷ []) (9 ∷ []))
    × (Path Bytes (10 ∷ []) (10 ∷ []))
aad_injective_example =
    aad_injective (5 ∷ []) (5 ∷ []) (7 ∷ 8 ∷ []) (7 ∷ 8 ∷ []) (9 ∷ []) (9 ∷ []) (10 ∷ []) (10 ∷ [])
      (11 ∷ []) aad refl refl built built
