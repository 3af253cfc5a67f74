-- ===== src/Api/Blobs/Answers.antt =====
-- blob-store.ts: what each answer of a put says of the rows.
use phygital_wallet.Common.{ℕ, String, ◌≡◌, ◌≢◌, Option, none, some, List}
use phygital_wallet.Errors.{Result, ok, err, plain_error}
use phygital_wallet.Api.Blobs.{
  DbRow, OwnerWalletBlobRow, PutParams, PutResult, created, updated, conflict, webauthn_required,
  trimmed, get_owner_wallet_blob, put_existing, put_owner_wallet_blob,
}
use phygital_wallet.Api.Blobs.Kept.{SameKeys}

-- What the put was given, as the row that is read.
abbrev pub Holds : OwnerWalletBlobRow → PutParams → Type 0
Holds r p = (r.public_key ≡ p.public_key) × (r.encrypted_blob ≡ p.encrypted_blob)

abbrev pub stored_row : PutParams → ℕ → String → OwnerWalletBlobRow
stored_row p now key = record {
  credential_id_hash = p.credential_id_hash;
  public_key = p.public_key;
  encrypted_blob = p.encrypted_blob;
  blob_version = p.blob_version;
  updated_at = now;
  webauthn_public_key = key;
}

module _ (p : PutParams) (now : ℕ) (incoming : Option String) (existing : OwnerWalletBlobRow)
    (rows : List DbRow)
    (here : get_owner_wallet_blob rows p.credential_id_hash ≡ some existing) where
  abbrev after : List DbRow × Result PutResult
  after = put_existing p now incoming existing rows

module _ (taken : String) (now : ℕ) (rows : List DbRow) (p : PutParams) where
  abbrev pub put : List DbRow × Result PutResult
  put = put_owner_wallet_blob taken now rows p

  abbrev pub before : Option OwnerWalletBlobRow
  before = get_owner_wallet_blob rows p.credential_id_hash

  abbrev pub read : Option OwnerWalletBlobRow
  read = get_owner_wallet_blob put.0 p.credential_id_hash

  -- What each answer says of the wallet before and after.
  pub data Outcome : Type 0 where
    creates :
        (key : String)
        → put.1 ≡ ok created
        → trimmed p.webauthn_public_key ≡ some key
        → before ≡ none
        → read ≡ some (stored_row p now key)
        → Outcome
    updates :
        (old r : OwnerWalletBlobRow)
        → put.1 ≡ ok updated
        → before ≡ some old
        → read ≡ some r
        → Holds r p
        → SameKeys old r
        → Outcome
    refuses :
        (old : OwnerWalletBlobRow)
        → put ≡ (rows, ok conflict)
        → before ≡ some old
        → old.public_key ≢ p.public_key
        → Outcome
    asks_key :
        put.1 ≡ ok webauthn_required
        → trimmed p.webauthn_public_key ≡ none
        → before ≡ none
        → Outcome
    is_taken : put.1 ≡ err (plain_error taken) → before ≡ none → Outcome
