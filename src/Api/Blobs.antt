-- ===== src/Api/Blobs.antt =====
-- workers/api/src/owner-wallet/blob-store.ts: the encrypted wallets. Rows are those of migrations
-- 0004 and 0005. The text of the error of an INSERT whose primary key is taken is a parameter.
pub mod Kept
pub mod Answers
mod Tests
use phygital_wallet.Common.{
  ℕ, String, ◌==◌, Bool, true, false, not, ◌&&◌, ◌||◌, Option, none, some, List, [], ◌∷◌, ◌++◌, map,
  trim, blank, select_first, delete_where, is_none, if◌then◌else◌,
}
use phygital_wallet.Errors.{Result, ok, err, plain_error}

pub record DbRow : Type 0 where
  pub credential_id_hash : String
  pub public_key : String
  pub encrypted_blob : String
  pub blob_version : ℕ
  pub updated_at : ℕ
  pub webauthn_public_key : Option String

pub record OwnerWalletBlobRow : Type 0 where
  pub credential_id_hash : String
  pub public_key : String
  pub encrypted_blob : String
  pub blob_version : ℕ
  pub updated_at : ℕ
  pub webauthn_public_key : String

pub record PutParams : Type 0 where
  pub credential_id_hash : String
  pub public_key : String
  pub encrypted_blob : String
  pub blob_version : ℕ
  pub webauthn_public_key : Option String

pub data PutResult : Type 0 where
  created updated conflict webauthn_required : PutResult

-- `key?.trim() || null`
unfoldable pub trimmed : Option String → Option String
trimmed none = none
trimmed (some key) = if trim key == "" then none else some (trim key)

unfoldable pub map_row : DbRow → Option OwnerWalletBlobRow
unfolding trimmed
map_row r = elim (trimmed r.webauthn_public_key) [
  | none ↦ none
  | some key ↦ some (record {
    credential_id_hash = r.credential_id_hash;
    public_key = r.public_key;
    encrypted_blob = r.encrypted_blob;
    blob_version = r.blob_version;
    updated_at = r.updated_at;
    webauthn_public_key = key;
  })
]

abbrev pub has_hash : String → DbRow → Bool
has_hash hash r = r.credential_id_hash == hash

unfoldable pub get_owner_wallet_blob : List DbRow → String → Option OwnerWalletBlobRow
unfolding map_row
get_owner_wallet_blob rows hash = elim (select_first (has_hash hash) rows) [
  | none ↦ none
  | some r ↦ map_row r
]

-- `webauthn_public_key IS NULL OR TRIM(webauthn_public_key) = ''`
unfoldable pub lacks_key : Option String → Bool
lacks_key none = true
lacks_key (some key) = blank key

abbrev pub is_incomplete : String → DbRow → Bool
is_incomplete hash r = has_hash hash r && lacks_key r.webauthn_public_key

-- `UPDATE owner_wallet_blob SET … WHERE credential_id_hash = ?`
pub refresh : PutParams → ℕ → List DbRow → List DbRow
refresh p now [] = []
refresh p now (r ∷ rows) =
    (if has_hash p.credential_id_hash r
      then record r {
        encrypted_blob = p.encrypted_blob;
        blob_version = p.blob_version;
        updated_at = now;
      }
      else r)
    ∷ refresh p now rows

-- `incomingKey` is absent or the stored key.
abbrev pub key_agrees : Option String → String → Bool
key_agrees none key = true
key_agrees (some incoming) key = key == incoming

-- The branch of a wallet that is there.
pub put_existing :
    PutParams → ℕ → Option String → OwnerWalletBlobRow → List DbRow → List DbRow × Result PutResult
unfolding refresh
put_existing p now incoming existing rows =
    if not (existing.public_key == p.public_key)
    then (rows, ok conflict)
    else if existing.encrypted_blob == p.encrypted_blob
        && key_agrees incoming existing.webauthn_public_key
    then (rows, ok updated)
    else (refresh p now rows, ok updated)

module _ (taken : String) where
  -- The INSERT: refused where the primary key is taken.
  insert_row : DbRow → List DbRow → List DbRow × Result PutResult
  insert_row r rows =
      if is_none (select_first (has_hash r.credential_id_hash) rows)
      then (rows ++ r ∷ [], ok created)
      else (rows, err (plain_error taken))

  -- The branch of a wallet that is not there, after the DELETE of an incomplete row.
  pub put_new : PutParams → ℕ → Option String → List DbRow → List DbRow × Result PutResult
  unfolding insert_row
  put_new p now none rows = (rows, ok webauthn_required)
  put_new p now (some key) rows =
      insert_row
        (record {
          credential_id_hash = p.credential_id_hash;
          public_key = p.public_key;
          encrypted_blob = p.encrypted_blob;
          blob_version = p.blob_version;
          updated_at = now;
          webauthn_public_key = some key;
        })
        rows

  pub put_owner_wallet_blob : ℕ → List DbRow → PutParams → List DbRow × Result PutResult
  unfolding get_owner_wallet_blob put_existing put_new lacks_key trimmed
  put_owner_wallet_blob now rows p =
      let incoming = trimmed p.webauthn_public_key in
      elim (get_owner_wallet_blob rows p.credential_id_hash) [
        | some existing ↦ put_existing p now incoming existing rows
        | none ↦ put_new p now incoming (delete_where (is_incomplete p.credential_id_hash) rows)
      ]
