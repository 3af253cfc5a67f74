-- ===== src/SignDecode/Accepts.antt =====
-- decode-tx.ts: which transactions are sponsored.
use phygital_wallet.Common.{
  ℕ, ◌+◌, String, ◌≡◌, ◌≢◌, ◌↔◌, ◌⊎◌, inl, inr, refl, sym, ◌∙◌, Bool, true, false, Option, none,
  some, List, [], ◌∷◌, Bytes, get_elem?, ◌==◌, All, all, arith, eq_iff, select_first, select_count,
  Bool-cases,
}
use phygital_wallet.Errors.{Result, ok, ◌>>=◌, >>=-eq-ok}
use phygital_wallet.Sdk.{
  Instruction, CompactInstruction, PhygitalWalletInstruction, execute, execute_with_authority,
  execute_with_authority_using_policies, phygital_wallet_program_address, identify, token_account,
  slice_execute_remaining_accounts,
}
use phygital_wallet.SignDecode.{
  Kit, CompiledMessage, Resolved, DecodedSignTx, top_level_ok, assert_top_level_instruction_allowed,
  as_wallet_instruction, resolve_execute, resolve_plain, resolve_wallet_instruction, resolve_one,
  scan, decode_wire_transaction, codec, is_fee_balance_top_up_intent, tops_up,
  system_program_address, second_account, first_byte_is, expand_compact_instructions,
  is_destination, fee_payer_of, decoded_as, decode_compiled,
}

-- A System Program transfer whose destination is the accumulator.
abbrev pub IsTransferTo : String → Instruction → Type 0
IsTransferTo accumulator ix =
    (ix.program_address ≡ system_program_address)
    × (first_byte_is 2 ix.data_bytes ≡ true)
    × (second_account ix.accounts ≡ some accumulator)

is_destination_iff :
    (accumulator : String) (dest : Option String)
    → accumulator ≢ ""
    → (is_destination accumulator dest ≡ true) ↔ (dest ≡ some accumulator)
is_destination_iff accumulator none h = ground arith
is_destination_iff accumulator (some dest) h =
    ground (arith, eq_iff dest "", eq_iff dest accumulator)

tops_up_iff :
    (accumulator : String) (ixs : List Instruction)
    → accumulator ≢ ""
    → (tops_up ixs accumulator true ≡ true) ↔ All (IsTransferTo accumulator) ixs
unfolding tops_up
tops_up_iff accumulator [] h = (λ _. tt, λ _. refl)
tops_up_iff accumulator (ix ∷ ixs) h = ground (
  arith,
  eq_iff ix.program_address system_program_address,
  is_destination_iff accumulator (second_account ix.accounts) h,
  tops_up_iff accumulator ixs h,
)

-- A transaction is a top-up exactly when an accumulator is configured and the wrapped instructions,
-- one at least, are all transfers to it.
pub top_up_iff :
    (ixs : List Instruction) (accumulator : String)
    → (is_fee_balance_top_up_intent ixs accumulator ≡ true)
      ↔ ((accumulator ≢ "") × (ixs ≢ []) × All (IsTransferTo accumulator) ixs)
unfolding is_fee_balance_top_up_intent
top_up_iff [] accumulator = ground arith
top_up_iff (ix ∷ ixs) accumulator = elim (Bool-cases (accumulator == "")) [
  | inl none_set ↦ ground (arith, eq_iff accumulator "")
  | inr set ↦
      let named : accumulator ≢ "" = ground (arith, eq_iff accumulator "") in
      ground (
        arith,
        eq_iff ix.program_address system_program_address,
        is_destination_iff accumulator (second_account ix.accounts) named,
        tops_up_iff accumulator ixs named,
      )
]

abbrev pub is_wallet : Instruction → Bool
is_wallet ix = ix.program_address == phygital_wallet_program_address

abbrev found_count : Option Resolved → ℕ
found_count none = 0
found_count (some _) = 1

-- The wrapped instructions of an execute variant, written out over its remaining accounts, are
-- transfers to the accumulator, one at least.
pub record TopsUp (accumulator : String) (kind : PhygitalWalletInstruction)
    (compact : Option (List CompactInstruction)) (accounts : List String) : Type 0 where
  pub wrapped : List CompactInstruction
  pub remaining : List String
  pub inner : List Instruction
  pub decoded : compact ≡ some wrapped
  pub sliced : slice_execute_remaining_accounts kind accounts ≡ some remaining
  pub expanded : expand_compact_instructions wrapped remaining ≡ ok inner
  pub transfers : (accumulator ≢ "") × (inner ≢ []) × All (IsTransferTo accumulator) inner

module _ (kit : Kit) (accumulator : String) where
  scan_counts :
      (ixs : List Instruction) (r s : Option Resolved)
      → scan kit ixs accumulator r ≡ ok s
      → (all (λ ix. top_level_ok ix.program_address) ixs ≡ true)
        × (select_count is_wallet ixs + found_count r ≡ found_count s)
  unfolding scan assert_top_level_instruction_allowed
  scan_counts [] r s h = ground arith
  scan_counts (ix ∷ ixs) none s h = elim (Bool-cases (is_wallet ix)) [
    | inr other ↦ ground (arith, scan_counts ixs none s)
    | inl wallet ↦
        let (_, allowed, k) = >>=-eq-ok (assert_top_level_instruction_allowed ix) _ h in
        let (x, found, rest) = >>=-eq-ok (resolve_one kit ix accumulator) _ (rw wallet at k) in
        ground (arith, scan_counts ixs (some x) s rest)
  ]
  scan_counts (ix ∷ ixs) (some x) s h = ground (arith, scan_counts ixs (some x) s)

  -- One resolved instruction is kept to the end.
  scan_keeps :
      (ixs : List Instruction) (x : Resolved) (s : Option Resolved)
      → scan kit ixs accumulator (some x) ≡ ok s
      → s ≡ some x
  unfolding scan
  scan_keeps [] x s h = ground arith
  scan_keeps (ix ∷ ixs) x s h = ground (arith, scan_keeps ixs x s)

  -- What the scan returns was found in the one wallet instruction.
  scan_found :
      (ixs : List Instruction) (x : Resolved)
      → scan kit ixs accumulator none ≡ ok (some x)
      → (ix : Instruction) × (select_first is_wallet ixs ≡ some ix)
        × (resolve_one kit ix accumulator ≡ ok x)
  unfolding scan
  scan_found [] x h = ground arith
  scan_found (ix ∷ ixs) x h =
      let (_, allowed, k) = >>=-eq-ok (assert_top_level_instruction_allowed ix) _ h in
      elim (Bool-cases (is_wallet ix)) [
        | inr other ↦
            let (found, first, same) = scan_found ixs x (rw other at k) in
            (found, rw other first, same)
        | inl wallet ↦
            let (y, found, rest) = >>=-eq-ok (resolve_one kit ix accumulator) _ (rw wallet at k) in
            (ix, rw wallet, ground (arith, scan_keeps ixs y (some x) rest))
      ]

  plain_sound :
      (kind : PhygitalWalletInstruction) (accounts : List String) (bytes : Bytes) (x : Resolved)
      → resolve_plain kit kind accounts bytes ≡ ok x
      → (token_account kind accounts ≡ some x.phygital_token)
        × (x.is_fee_paying_instruction ≡ false)
  unfolding resolve_plain
  plain_sound kind accounts bytes x h = ground arith

  execute_sound :
      (kind : PhygitalWalletInstruction) (compact : Option (List CompactInstruction))
      (accounts : List String) (x : Resolved)
      → resolve_execute kit kind compact accounts accumulator ≡ ok x
      → (token_account kind accounts ≡ some x.phygital_token)
        × (x.is_fee_paying_instruction ≡ true → TopsUp accumulator kind compact accounts)
  unfolding resolve_execute
  execute_sound kind compact accounts x h =
      let (token, t, h1) = >>=-eq-ok (codec kit (token_account kind accounts)) _ h in
      let (wrapped, c, h2) = >>=-eq-ok (codec kit compact) _ h1 in
      let (remaining, r, h3) =
        >>=-eq-ok (codec kit (slice_execute_remaining_accounts kind accounts)) _ h2 in
      let (inner, e, h4) = >>=-eq-ok (expand_compact_instructions wrapped remaining) _ h3 in
      (
        ground arith,
        λ paying. record {
          wrapped = wrapped;
          remaining = remaining;
          inner = inner;
          decoded = ground arith;
          sliced = ground arith;
          expanded = e;
          transfers = (top_up_iff inner accumulator).0 (ground arith);
        },
      )

  -- What a resolved instruction says of the instruction that it was read from.
  pub record ReadFrom (accounts : List String) (bytes : Bytes) (x : Resolved) : Type 0 where
    pub kind : PhygitalWalletInstruction
    pub identified : identify bytes ≡ some kind
    pub sponsored : kind ≢ execute_with_authority_using_policies
    pub token : token_account kind accounts ≡ some x.phygital_token
    pub top_up :
        x.is_fee_paying_instruction ≡ true
        → ((kind ≡ execute) × TopsUp accumulator execute (kit.decode_execute bytes) accounts)
          ⊎ ((kind ≡ execute_with_authority)
              × TopsUp accumulator execute_with_authority
                  (kit.decode_execute_with_authority bytes)
                  accounts)

  resolve_sound :
      (accounts : List String) (bytes : Bytes) (kind : PhygitalWalletInstruction) (x : Resolved)
      → identify bytes ≡ some kind
      → resolve_wallet_instruction kit accounts bytes kind accumulator ≡ ok x
      → ReadFrom accounts bytes x
  unfolding resolve_wallet_instruction
  resolve_sound accounts bytes execute x e h =
      let (token, top_up) = execute_sound execute (kit.decode_execute bytes) accounts x h in
      record {
        kind = execute;
        identified = e;
        sponsored = λ p. cc;
        token = token;
        top_up = λ p. inl (refl, top_up p);
      }
  resolve_sound accounts bytes execute_with_authority x e h =
      let (token, top_up) =
        execute_sound execute_with_authority (kit.decode_execute_with_authority bytes) accounts x
          h in
      record {
        kind = execute_with_authority;
        identified = e;
        sponsored = λ p. cc;
        token = token;
        top_up = λ p. inr (refl, top_up p);
      }
  resolve_sound accounts bytes execute_with_authority_using_policies x e h = cc
  resolve_sound accounts bytes kind x e h =
      let (token, not_paying) = plain_sound kind accounts bytes x h in
      record {
        kind = kind;
        identified = e;
        sponsored = λ p. cc;
        token = token;
        top_up = λ p. ground arith;
      }

  wallet_parts :
      (ix : Instruction) (accounts : List String) (bytes : Bytes)
      → as_wallet_instruction ix ≡ ok (accounts, bytes)
      → (ix.accounts ≡ some accounts) × (ix.data_bytes ≡ some bytes)
  unfolding as_wallet_instruction
  wallet_parts ix accounts bytes h = ground arith

  resolve_one_sound :
      (ix : Instruction) (x : Resolved)
      → resolve_one kit ix accumulator ≡ ok x
      → (accounts : List String) × (bytes : Bytes) × (ix.accounts ≡ some accounts)
        × (ix.data_bytes ≡ some bytes)
        × ReadFrom accounts bytes x
  unfolding resolve_one
  resolve_one_sound ix x h =
      let ((accounts, bytes), a, h1) = >>=-eq-ok (as_wallet_instruction ix) _ h in
      let (kind, i, h2) = >>=-eq-ok (codec kit (identify bytes)) _ h1 in
      let (same_accounts, same_bytes) = wallet_parts ix accounts bytes a in
      (
        accounts,
        bytes,
        same_accounts,
        same_bytes,
        resolve_sound accounts bytes kind x (ground arith) h2,
      )

  -- A sponsored transaction, against what was decoded from it.
  pub record Sponsors (tx : String) (d : DecodedSignTx) : Type 0 where
    pub compiled : CompiledMessage
    pub top_level : List Instruction
    pub ix : Instruction
    pub accounts : List String
    pub bytes : Bytes
    pub decoded : kit.decode_tx tx ≡ some (d.message_bytes, compiled)
    pub payer : get_elem? compiled.static_accounts 0 ≡ some d.fee_payer
    pub decompiled : compiled.instructions ≡ some top_level
    pub allowed : all (λ i. top_level_ok i.program_address) top_level ≡ true
    pub single : select_count is_wallet top_level ≡ 1
    pub wallet : select_first is_wallet top_level ≡ some ix
    pub has_accounts : ix.accounts ≡ some accounts
    pub has_bytes : ix.data_bytes ≡ some bytes
    pub meaning : ReadFrom accounts bytes (record {
      phygital_token = d.phygital_token;
      is_fee_paying_instruction = d.is_fee_paying_instruction;
    })

  payer_read :
      (compiled : CompiledMessage) (payer : String)
      → fee_payer_of kit compiled ≡ ok payer
      → get_elem? compiled.static_accounts 0 ≡ some payer
  unfolding fee_payer_of
  payer_read compiled payer h = ground arith

  decoded_as-some :
      (message : Bytes) (payer : String) (r : Option Resolved) (d : DecodedSignTx)
      → decoded_as kit message payer r ≡ ok d
      → (r
          ≡ some (record {
            phygital_token = d.phygital_token;
            is_fee_paying_instruction = d.is_fee_paying_instruction;
          }))
        × (d.message_bytes ≡ message)
        × (d.fee_payer ≡ payer)
  unfolding decoded_as
  decoded_as-some message payer none d h = cc
  decoded_as-some message payer (some r) d h = ground arith

  compiled_sound :
      (tx : String) (message : Bytes) (compiled : CompiledMessage) (d : DecodedSignTx)
      → kit.decode_tx tx ≡ some (message, compiled)
      → decode_compiled kit accumulator (message, compiled) ≡ ok d
      → Sponsors tx d
  unfolding decode_compiled
  compiled_sound tx message compiled d t h =
      let (payer, p, h2) = >>=-eq-ok (fee_payer_of kit compiled) _ h in
      let (top, i, h3) = >>=-eq-ok (codec kit compiled.instructions) _ h2 in
      let (resolved, s, h4) = >>=-eq-ok (scan kit top accumulator none) _ h3 in
      let (is_some, same_message, same_payer) = decoded_as-some message payer resolved d h4 in
      let (allowed, single) = scan_counts top none _ (rw is_some at s) in
      let (ix, first, resolves) = scan_found top _ (rw is_some at s) in
      let (accounts, bytes, has_accounts, has_bytes, meaning) = resolve_one_sound ix _ resolves in
      record {
        compiled = compiled;
        top_level = top;
        ix = ix;
        accounts = accounts;
        bytes = bytes;
        decoded = rw same_message t;
        payer = rw same_payer (payer_read compiled payer p);
        decompiled = ground arith;
        allowed = allowed;
        single = omega (arith, single);
        wallet = first;
        has_accounts = has_accounts;
        has_bytes = has_bytes;
        meaning = meaning;
      }

  decoding : (tx : String) → Result DecodedSignTx
  decoding tx = codec kit (kit.decode_tx tx) >>= decode_compiled kit accumulator

  decoding_lem : (tx : String) → decode_wire_transaction kit tx accumulator ≡ decoding tx
  unfolding decoding decode_wire_transaction
  decoding_lem tx = refl

  decoding_sound : (tx : String) (d : DecodedSignTx) → decoding tx ≡ ok d → Sponsors tx d
  unfolding decoding
  decoding_sound tx d h =
      let ((message, compiled), t, h1) = >>=-eq-ok (codec kit (kit.decode_tx tx)) _ h in
      compiled_sound tx message compiled d (ground arith) h1

  -- A transaction that decodes holds only secp256r1 and wallet instructions at its top level and
  -- exactly one of the latter, which is not `executeWithAuthorityUsingPolicies`; the token and the
  -- fee payer are read where its accounts say; it is exempt as a top-up only if it is an execute
  -- variant whose wrapped instructions, one at least, are all transfers to the accumulator.
  pub decode_sound :
      (tx : String) (d : DecodedSignTx)
      → decode_wire_transaction kit tx accumulator ≡ ok d
      → Sponsors tx d
  decode_sound tx d h = decoding_sound tx d (sym (decoding_lem tx) ∙ h)
