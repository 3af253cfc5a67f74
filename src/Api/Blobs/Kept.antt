-- ===== src/Api/Blobs/Kept.antt =====
-- blob-store.ts: what a stored wallet keeps through any puts.
use phygital_wallet.Common.{
  ℕ, String, ◌==◌, ◌≡◌, ◌⊎◌, ◌≢◌, refl, sym, ap, ◌∙◌, not, ◌&&◌, Option, none, some, List, [], ◌∷◌,
  ◌++◌, select_first, delete_where, select_first-delete_outside, select_first-some-append,
  select_first-none-append, is_none, if◌then◌else◌, arith, eq_iff, Bool-cases, Option-cases, inl,
  inr,
}
use mathlib.Core.Path.{subst}
use phygital_wallet.Errors.{ok}
use phygital_wallet.Api.Blobs.{
  DbRow, OwnerWalletBlobRow, PutParams, created, trimmed, map_row, has_hash, get_owner_wallet_blob,
  is_incomplete, key_agrees, refresh, put_existing, insert_row, put_new, put_owner_wallet_blob,
}

-- The same wallet key and passkey key.
abbrev pub SameKeys : OwnerWalletBlobRow → OwnerWalletBlobRow → Type 0
SameKeys r r' = (r'.public_key ≡ r.public_key) × (r'.webauthn_public_key ≡ r.webauthn_public_key)

-- A stored wallet is still stored, with its keys.
abbrev pub Keeps : List DbRow → List DbRow → Type 0
Keeps rows rows' =
    (hash : String) (r : OwnerWalletBlobRow)
    → get_owner_wallet_blob rows hash ≡ some r
    → (r' : OwnerWalletBlobRow) × (get_owner_wallet_blob rows' hash ≡ some r') × SameKeys r r'

abbrev pub refreshed : PutParams → ℕ → OwnerWalletBlobRow → OwnerWalletBlobRow
refreshed p now r = record r {
  encrypted_blob = p.encrypted_blob;
  blob_version = p.blob_version;
  updated_at = now;
}

abbrev pub new_row : PutParams → ℕ → String → DbRow
new_row p now key = record {
  credential_id_hash = p.credential_id_hash;
  public_key = p.public_key;
  encrypted_blob = p.encrypted_blob;
  blob_version = p.blob_version;
  updated_at = now;
  webauthn_public_key = some key;
}

pub get-refresh :
    (p : PutParams) (now : ℕ) (rows : List DbRow) (hash : String)
    → get_owner_wallet_blob (refresh p now rows) hash ≡ (
        if p.credential_id_hash == hash
        then elim (get_owner_wallet_blob rows hash) [
          | none ↦ none
          | some r ↦ some (refreshed p now r)
        ]
        else get_owner_wallet_blob rows hash)
unfolding get_owner_wallet_blob refresh map_row
get-refresh p now [] hash = ground arith
get-refresh p now (r ∷ rows) hash = ground (
  arith,
  get-refresh p now rows hash,
  eq_iff r.credential_id_hash p.credential_id_hash,
  eq_iff r.credential_id_hash hash,
  eq_iff p.credential_id_hash hash,
)

Keeps-refl : (rows : List DbRow) → Keeps rows rows
Keeps-refl rows hash r e = (r, e, (refl, refl))

Keeps-refresh : (p : PutParams) (now : ℕ) (rows : List DbRow) → Keeps rows (refresh p now rows)
Keeps-refresh p now rows hash r e = elim (Bool-cases (p.credential_id_hash == hash)) [
  | inl same ↦ (refreshed p now r, get-refresh p now rows hash ∙ rw (same, e) refl, (refl, refl))
  | inr other ↦ (r, get-refresh p now rows hash ∙ rw other e, (refl, refl))
]

module _ (rows : List DbRow) (deleted hash : String) (other : deleted ≢ hash) where
  -- The DELETE leaves the rows of other hashes.
  get-delete :
      get_owner_wallet_blob (delete_where (is_incomplete deleted) rows) hash
      ≡ get_owner_wallet_blob rows hash
  unfolding get_owner_wallet_blob
  get-delete =
      rw
        (
          get_owner_wallet_blob,
          select_first-delete_outside (has_hash hash) (is_incomplete deleted) rows (λ x h.
              ground
                (arith, eq_iff x.credential_id_hash hash, eq_iff x.credential_id_hash deleted)),
        )
        refl

get-append :
    (rows : List DbRow) (new : DbRow) (hash : String) (r : OwnerWalletBlobRow)
    → get_owner_wallet_blob rows hash ≡ some r
    → get_owner_wallet_blob (rows ++ new ∷ []) hash ≡ some r
unfolding get_owner_wallet_blob
get-append rows new hash r e = elim (Option-cases (select_first (has_hash hash) rows)) [
  | inl absent ↦ let f = rw (get_owner_wallet_blob, absent) at e in absurd (cc)
  | inr (row, found) ↦
      let f = rw (get_owner_wallet_blob, found) at e in
      rw (get_owner_wallet_blob, select_first-some-append (has_hash hash) rows (new ∷ []) row found)
        f
]

module _ (taken : String) where
  Keeps-put_new :
      (p : PutParams) (now : ℕ) (incoming : Option String) (rows : List DbRow)
      → Keeps rows (put_new taken p now incoming rows).0
  unfolding put_new insert_row
  Keeps-put_new p now none rows hash r e = (r, e, (refl, refl))
  Keeps-put_new p now (some key) rows hash r e =
      elim (Bool-cases (is_none (select_first (has_hash p.credential_id_hash) rows))) [
        | inl free ↦ (r, rw free (get-append rows _ hash r e), (refl, refl))
        | inr held ↦ (r, rw held e, (refl, refl))
      ]

  pub put_new-ok :
      (p : PutParams) (now : ℕ) (incoming : Option String) (rows : List DbRow)
      → (put_new taken p now incoming rows).1 ≡ ok created
      → (key : String) × (incoming ≡ some key)
        × (get_owner_wallet_blob (put_new taken p now incoming rows).0 p.credential_id_hash
            ≡ map_row (new_row p now key))
  unfolding put_new insert_row get_owner_wallet_blob
  put_new-ok p now none rows e = absurd (cc)
  put_new-ok p now (some key) rows e =
      elim (Option-cases (select_first (has_hash p.credential_id_hash) rows)) [
        | inr (row, held) ↦ let f = rw (put_new, insert_row, held) at e in absurd (cc)
        | inl free ↦
            let found : select_first (has_hash p.credential_id_hash)
                  (rows ++ new_row p now key ∷ [])
                ≡ some (new_row p now key) =
              select_first-none-append (has_hash p.credential_id_hash) rows (new_row p now key) free
              ∙ ground (arith, eq_iff p.credential_id_hash p.credential_id_hash) in
            (key, refl, rw (put_new, insert_row, free, get_owner_wallet_blob, found) refl)
      ]

put_existing-rows :
    (p : PutParams) (now : ℕ) (incoming : Option String) (existing : OwnerWalletBlobRow)
    (rows : List DbRow)
    → ((put_existing p now incoming existing rows).0 ≡ rows)
      ⊎ ((put_existing p now incoming existing rows).0 ≡ refresh p now rows)
unfolding put_existing
put_existing-rows p now incoming existing rows =
    elim (Bool-cases (not (existing.public_key == p.public_key))) [
      | inl other ↦ inl (rw (put_existing, other) refl)
      | inr same ↦
          elim (Bool-cases (
            existing.encrypted_blob == p.encrypted_blob
            && key_agrees incoming existing.webauthn_public_key)) [
              | inl equal ↦ inl (rw (put_existing, same, equal) refl)
              | inr newer ↦ inr (rw (put_existing, same, newer) refl)
            ]
    ]

Keeps-put_existing :
    (p : PutParams) (now : ℕ) (incoming : Option String) (existing : OwnerWalletBlobRow)
    (rows : List DbRow)
    → Keeps rows (put_existing p now incoming existing rows).0
Keeps-put_existing p now incoming existing rows =
    elim (put_existing-rows p now incoming existing rows) [
      | inl e ↦ subst (Keeps rows) (sym e) (Keeps-refl rows)
      | inr e ↦ subst (Keeps rows) (sym e) (Keeps-refresh p now rows)
    ]

module _ (taken : String) (now : ℕ) (rows : List DbRow) (p : PutParams) where
  put-Keeps : Keeps rows (put_owner_wallet_blob taken now rows p).0
  unfolding put_owner_wallet_blob
  put-Keeps = elim (Option-cases (get_owner_wallet_blob rows p.credential_id_hash)) [
    | inr (existing, e) ↦
        rw (put_owner_wallet_blob, e)
          (Keeps-put_existing p now (trimmed p.webauthn_public_key) existing rows)
    | inl absent ↦ λ hash r e.
        let other : p.credential_id_hash ≢ hash =
          λ same. let f = sym absent ∙ ap (get_owner_wallet_blob rows) same ∙ e in absurd (cc) in
        rw (put_owner_wallet_blob, absent)
          (Keeps-put_new taken p now (trimmed p.webauthn_public_key)
            (delete_where (is_incomplete p.credential_id_hash) rows) hash r
            (get-delete rows p.credential_id_hash hash other ∙ e))
  ]

-- Any puts, one after the other, each at its time.
pub puts : String → List DbRow → List (ℕ × PutParams) → List DbRow
puts taken rows [] = rows
puts taken rows ((now, p) ∷ ps) = puts taken (put_owner_wallet_blob taken now rows p).0 ps

-- A wallet that is stored with a passkey key is still stored after any puts, under the same
-- credential, with the same wallet key and the same passkey key.
pub puts-Keeps :
    (taken : String) (rows : List DbRow) (ps : List (ℕ × PutParams)) (hash : String)
    (r : OwnerWalletBlobRow)
    → get_owner_wallet_blob rows hash ≡ some r
    → (r' : OwnerWalletBlobRow) × (get_owner_wallet_blob (puts taken rows ps) hash ≡ some r')
      × SameKeys r r'
unfolding puts
puts-Keeps taken rows [] hash r e = (r, e, (refl, refl))
puts-Keeps taken rows ((now, p) ∷ ps) hash r e =
    let (r', f, same) = put-Keeps taken now rows p hash r e in
    let (r'', g, same') =
      puts-Keeps taken (put_owner_wallet_blob taken now rows p).0 ps hash r' f in
    (r'', g, (same'.0 ∙ same.0, same'.1 ∙ same.1))
