-- ===== src/Backend/Keys.antt =====
-- secrets.ts: the keys that a signer holds.
use phygital_wallet.Common.{
  ◌≤◌, String, ◌≡◌, ◌≢◌, ◌∙◌, true, Option, none, some, List, [], ◌∷◌, Bytes, length, All, arith,
  ◌==◌, eq_iff, trim, Option-cases, select_first, All-select, select_first-fits, Bool-cases, inl,
  inr, ltb,
}
use phygital_wallet.Errors.{ok, >>=-eq-ok}
use phygital_wallet.Backend.{
  KeyCodec, Json, JsonValue, Key, FeePayerSigner, has_pubkey, secret_key_of, checked_seed,
  parse_seed, add_key, add_keys, from_json, new_fee_payer_signer, can_sign, sign,
  max_fee_payer_keys, other_value, json_string, object, other,
}

module _ (codec : KeyCodec) where
  -- A key's public name is derived from its seed of 32 bytes.
  abbrev pub IsKey : Key → Type 0
  IsKey key = (codec.base58_text (codec.public_key key.seed) ≡ key.pubkey) × (length key.seed ≡ 32)

  checked_seed-length : (raw seed : Bytes) → checked_seed codec raw ≡ ok seed → length seed ≡ 32
  unfolding checked_seed
  checked_seed-length raw seed h = ground arith

  parse_seed-length :
      (raw : String) (seed : Bytes) → parse_seed codec raw ≡ ok seed → length seed ≡ 32
  unfolding parse_seed
  parse_seed-length raw seed h =
      let (secret, _, e) = >>=-eq-ok (secret_key_of codec raw) (checked_seed codec) h in
      checked_seed-length secret seed e

  add_key-IsKey :
      (pubkey : String) (value : JsonValue) (key : Key)
      → add_key codec pubkey value ≡ ok key
      → IsKey key
  unfolding add_key
  add_key-IsKey pubkey other_value key h = cc
  add_key-IsKey pubkey (json_string value) key h = elim (Bool-cases (trim value == "")) [
    | inl blank ↦ cc
    | inr given ↦
        let (seed, parsed, e) = >>=-eq-ok (parse_seed codec value) _ (rw given at h) in
        ground (
          arith,
          eq_iff (codec.base58_text (codec.public_key seed)) pubkey,
          parse_seed-length value seed parsed,
        )
  ]

  add_keys-IsKey :
      (entries : List (String × JsonValue)) (keys : List Key)
      → add_keys codec entries ≡ ok keys
      → All IsKey keys × (length keys ≡ length entries)
  unfolding add_keys
  add_keys-IsKey [] keys h = ground arith
  add_keys-IsKey ((pubkey, value) ∷ entries) keys h =
      let (key, one, h1) = >>=-eq-ok (add_key codec pubkey value) _ h in
      let (rest, more, h2) = >>=-eq-ok (add_keys codec entries) _ h1 in
      ground (arith, add_key-IsKey pubkey value key one, add_keys-IsKey entries rest more)

  from_json-IsKey :
      (parsed : Json) (signer : FeePayerSigner)
      → from_json codec parsed ≡ ok signer
      → All IsKey signer.by_pubkey
        × (1 ≤ length signer.by_pubkey)
        × (length signer.by_pubkey ≤ max_fee_payer_keys)
  unfolding from_json
  from_json-IsKey other signer h = cc
  from_json-IsKey (object []) signer h = cc
  from_json-IsKey (object (entry ∷ entries)) signer h =
      elim (Bool-cases (ltb max_fee_payer_keys (length (entry ∷ entries)))) [
        | inl many ↦ cc
        | inr few ↦
            let (keys, added, e) = >>=-eq-ok (add_keys codec (entry ∷ entries)) _ (rw few at h) in
            ground (arith, add_keys-IsKey (entry ∷ entries) keys added)
      ]

  -- A signer that is constructed holds one to eight keys, each under the public key that its seed
  -- of 32 bytes derives.
  pub new_signer_sound :
      (secret_keys_json : Option String) (signer : FeePayerSigner)
      → new_fee_payer_signer codec secret_keys_json ≡ ok signer
      → All IsKey signer.by_pubkey
        × (1 ≤ length signer.by_pubkey)
        × (length signer.by_pubkey ≤ max_fee_payer_keys)
  new_signer_sound none signer h = unfold new_fee_payer_signer in cc
  new_signer_sound (some json) signer h = elim (Option-cases (codec.parse_json json)) [
    | inl bad ↦ unfold new_fee_payer_signer in ground arith
    | inr (parsed, good) ↦
        unfold new_fee_payer_signer in ground (arith, from_json-IsKey parsed signer)
  ]

  -- A signature is given exactly for the fee payers whose key is held, and is made by a seed from
  -- which that fee payer's address derives.
  pub sign_sound :
      (signer : FeePayerSigner) (fee_payer : String) (message_bytes : Bytes)
      → All IsKey signer.by_pubkey
      → (can_sign codec signer fee_payer ≡ true
          → (seed : Bytes) × (codec.base58_text (codec.public_key seed) ≡ fee_payer)
            × (sign codec signer fee_payer message_bytes
                ≡ ok (codec.base64_text (codec.ed25519_sign message_bytes seed))))
        × ((signature : String)
            → sign codec signer fee_payer message_bytes ≡ ok signature
            → can_sign codec signer fee_payer ≡ true)
  unfolding can_sign sign
  sign_sound signer fee_payer message_bytes keys =
      elim (Option-cases (select_first (has_pubkey fee_payer) signer.by_pubkey)) [
        | inl missing ↦ (λ h. ground arith, λ signature h. ground arith)
        | inr (key, found) ↦
            let (derived, _) =
              All-select IsKey (has_pubkey fee_payer) signer.by_pubkey key keys found in
            let named : key.pubkey ≡ fee_payer =
              (eq_iff key.pubkey fee_payer).0
                (select_first-fits (has_pubkey fee_payer) signer.by_pubkey key found) in
            (
              λ h. (key.seed, derived ∙ named, rw (found, sign)),
              λ signature h. rw (found, can_sign),
            )
      ]

pub sign_not_empty :
    (keys : KeyCodec) (backend : FeePayerSigner) (fee_payer : String) (message : Bytes)
    (signature : String)
    → ((message seed : Bytes) → keys.base64_text (keys.ed25519_sign message seed) ≢ "")
    → sign keys backend fee_payer message ≡ ok signature
    → signature ≢ ""
unfolding sign
sign_not_empty keys backend fee_payer message signature texts h =
    elim (Option-cases (select_first (has_pubkey fee_payer) backend.by_pubkey)) [
      | inl e ↦ cc
      | inr (key, e) ↦
          let f = rw (e, sign) at h in
          let g : keys.base64_text (keys.ed25519_sign message key.seed) ≡ signature = cc in
          λ empty. texts message key.seed (g ∙ empty)
    ]
