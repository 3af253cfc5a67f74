-- ===== src/SignDecode/Tests.antt =====
-- Decoding on a concrete transaction.
use phygital_wallet.Common.{
  String, ◌≡◌, ◌≢◌, ◌↔◌, refl, true, some, none, [], ◌∷◌, All, ◌==◌, if◌then◌else◌,
}
use phygital_wallet.Errors.{Thrown, ok, err}
use phygital_wallet.Sdk.{Instruction, CompactInstruction, phygital_wallet_program_address}
use phygital_wallet.SignDecode.{
  Kit, DecodedSignTx, decode_wire_transaction, is_fee_balance_top_up_intent, secp256r1_program,
  system_program_address,
}
use phygital_wallet.SignDecode.Accepts.{IsTransferTo, top_up_iff, Sponsors, decode_sound}

abbrev verify : Instruction
verify = record { program_address = secp256r1_program; accounts = none; data_bytes = none }

abbrev top_up_ix : Instruction
top_up_ix = record {
  program_address = phygital_wallet_program_address;
  accounts = some (
      "owner" ∷ "token" ∷ "authority" ∷ "wallet" ∷ "sysvar" ∷ system_program_address ∷ "wallet"
      ∷ "accumulator" ∷ []);
  data_bytes = some (249 ∷ 39 ∷ 107 ∷ 35 ∷ 244 ∷ 181 ∷ 161 ∷ 142 ∷ 0 ∷ []);
}

abbrev transfer : CompactInstruction
transfer = record {
  program_id_index = 0;
  account_indexes = 1 ∷ 2 ∷ [];
  data_bytes = 2 ∷ 0 ∷ 0 ∷ 0 ∷ [];
}

-- A kit that knows one transaction.
abbrev one_tx : Kit
one_tx = record {
  decode_tx = λ tx.
      if tx == "tx"
      then some (
        7 ∷ [],
        record {
          static_accounts = "payer" ∷ "owner" ∷ [];
          instructions = some (verify ∷ top_up_ix ∷ []);
        },
      )
      else none;
  decode_execute = λ _. none;
  decode_execute_with_authority = λ _. some (transfer ∷ []);
  decodes = λ _ _. true;
  codec_error = "codec";
}

abbrev top_up : DecodedSignTx
top_up = record {
  message_bytes = 7 ∷ [];
  fee_payer = "payer";
  phygital_token = "token";
  is_fee_paying_instruction = true;
}

decoded : decode_wire_transaction one_tx "tx" "accumulator" ≡ ok top_up
unfolding decode_wire_transaction
decoded = refl

undecoded : decode_wire_transaction one_tx "other" "accumulator" ≡ err (Thrown.plain_error "codec")
unfolding decode_wire_transaction
undecoded = refl

decode_sound_example : Sponsors one_tx "accumulator" "tx" top_up
decode_sound_example = decode_sound one_tx "accumulator" "tx" top_up decoded

abbrev to_accumulator : Instruction
to_accumulator = record {
  program_address = system_program_address;
  accounts = some ("wallet" ∷ "accumulator" ∷ []);
  data_bytes = some (2 ∷ []);
}

top_up_iff_example : (is_fee_balance_top_up_intent (to_accumulator ∷ []) "accumulator" ≡ true) ↔ (
    (◌≢◌ {A = String} "accumulator" "")
    × (to_accumulator ∷ [] ≢ [])
    × All (IsTransferTo "accumulator") (to_accumulator ∷ []))
top_up_iff_example = top_up_iff (to_accumulator ∷ []) "accumulator"
