-- ===== src/Sdk/Challenges/Tests.antt =====
-- Challenges over two addresses and a digest by length.
use phygital_wallet.Common.{
  String, ◌==◌, ◌≡◌, ◌⊎◌, refl, List, [], ◌∷◌, Bytes, length, ◌%◌, digits, some, if◌then◌else◌,
  arith, eq_iff,
}
use phygital_wallet.Errors.{ok, err, plain_error}
use phygital_wallet.Sdk.{CompactInstruction}
use phygital_wallet.Sdk.Compile.Tests.{kit}
use phygital_wallet.Sdk.Challenges.{
  Hashing, AccountRef, plain, meta, zeros, pack_compact_instructions, hash_execute_challenge,
  hash_set_authority_challenge, build_execute_challenge_from_slot,
}
use phygital_wallet.Sdk.Challenges.Pack.{unpack, unpack-pack}
use phygital_wallet.Sdk.Challenges.Referenced.{IsLawful, referenced}
use phygital_wallet.Sdk.Challenges.Binding.{
  Collision, accounts_of, execute_challenge_binds, set_authority_challenge_binds,
  challenges_separate,
}

digits_read : digits 1204 ≡ "1204"
unfolding digits
digits_read = refl

abbrev hashing : Hashing
hashing = record {
  encode_address = λ a.
      if a == "wallet"
      then ok (1 ∷ zeros 31)
      else if a == "swap"
      then ok (2 ∷ zeros 31)
      else err (plain_error "invalid address");
  sha256 = λ bytes. length bytes % 256 ∷ zeros 31;
}

hashing-IsLawful : IsLawful hashing
hashing-IsLawful = record {
  digest_length = λ bytes. refl;
  address_length = λ a b e. ground (arith, eq_iff a "wallet", eq_iff a "swap");
  address_inj = λ a a' b e e'.
      ground (arith, eq_iff a "wallet", eq_iff a "swap", eq_iff a' "wallet", eq_iff a' "swap");
}

abbrev swap : CompactInstruction
swap = record { program_id_index = 0; account_indexes = 1 ∷ 1 ∷ []; data_bytes = 9 ∷ 8 ∷ [] }

abbrev remaining : List AccountRef
remaining = plain "swap" ∷ meta (record { address = "wallet"; role = 1 }) ∷ []

packs : pack_compact_instructions (swap ∷ []) ≡ ok (1 ∷ 0 ∷ 2 ∷ 1 ∷ 1 ∷ 2 ∷ 0 ∷ 9 ∷ 8 ∷ [])
unfolding pack_compact_instructions
packs = refl

unpack-pack_example : unpack (1 ∷ 0 ∷ 2 ∷ 1 ∷ 1 ∷ 2 ∷ 0 ∷ 9 ∷ 8 ∷ []) ≡ some (swap ∷ [])
unpack-pack_example =
    unpack-pack (swap ∷ []) (1 ∷ 0 ∷ 2 ∷ 1 ∷ 1 ∷ 2 ∷ 0 ∷ 9 ∷ 8 ∷ []) packs (omega arith, tt)

abbrev digest : Bytes
digest = 122 ∷ zeros 31

abbrev authority_digest : Bytes
authority_digest = 128 ∷ zeros 31

hashes : hash_execute_challenge hashing kit (zeros 32) (swap ∷ []) remaining ≡ ok digest
unfolding hash_execute_challenge
hashes = refl

hashes_authority :
    hash_set_authority_challenge hashing (zeros 32) "wallet" "swap" ≡ ok authority_digest
unfolding hash_set_authority_challenge
hashes_authority = refl

builds :
    build_execute_challenge_from_slot hashing kit
      (record { slot_number = 7; slot_hash = zeros 32 })
      (swap ∷ [])
      remaining
    ≡ ok (record { slot_number = 7; message_hash = digest })
unfolding build_execute_challenge_from_slot
builds = refl

execute_challenge_binds_example :
    ((zeros 32 ≡ zeros 32)
      × (swap ∷ [] ≡ swap ∷ [])
      × (referenced (accounts_of kit remaining) (swap ∷ [])
          ≡ referenced (accounts_of kit remaining) (swap ∷ [])))
    ⊎ Collision hashing
execute_challenge_binds_example =
    execute_challenge_binds hashing hashing-IsLawful kit (zeros 32) (zeros 32) (swap ∷ [])
      (swap ∷ []) remaining remaining digest refl refl (omega arith, tt) (omega arith, tt) hashes
      hashes

-- The digest by length does not tell the token from the authority.
hashes_swapped :
    hash_set_authority_challenge hashing (zeros 32) "swap" "wallet" ≡ ok authority_digest
unfolding hash_set_authority_challenge
hashes_swapped = refl

set_authority_challenge_binds_example :
    ((zeros 32 ≡ zeros 32)
      × (◌≡◌ {A = String} "wallet" "swap")
      × (◌≡◌ {A = String} "swap" "wallet"))
    ⊎ Collision hashing
set_authority_challenge_binds_example =
    set_authority_challenge_binds hashing hashing-IsLawful kit (zeros 32) (zeros 32) "wallet" "swap"
      "swap" "wallet" authority_digest refl refl hashes_authority hashes_swapped

-- A digest under which all texts collide.
abbrev collapsing : Hashing
collapsing = record { encode_address = hashing.encode_address; sha256 = λ _. zeros 32 }

collapsing-IsLawful : IsLawful collapsing
collapsing-IsLawful = record {
  digest_length = λ bytes. refl;
  address_length = hashing-IsLawful.address_length;
  address_inj = hashing-IsLawful.address_inj;
}

collapses : hash_execute_challenge collapsing kit (zeros 32) (swap ∷ []) remaining ≡ ok (zeros 32)
unfolding hash_execute_challenge
collapses = refl

collapses_authority :
    hash_set_authority_challenge collapsing (zeros 32) "wallet" "swap" ≡ ok (zeros 32)
unfolding hash_set_authority_challenge
collapses_authority = refl

challenges_separate_example : Collision collapsing
challenges_separate_example =
    challenges_separate collapsing collapsing-IsLawful kit (zeros 32) (zeros 32) (swap ∷ [])
      remaining "wallet" "swap" (zeros 32) refl refl collapses collapses_authority
