-- ===== src/Api/Fees/Apply/Tests.antt =====
-- A sponsored transaction that also tops its token up.
use phygital_wallet.Common.{
  ℕ, String, ◌≡◌, refl, true, false, none, some, List, [], ◌∷◌, pos, All, trim, ◌⊎◌,
}
use phygital_wallet.Errors.{ok}
use phygital_wallet.TokenStore.{
  Store, FeeEvent, EventRow, credit, debit, apply_fee_event, settle_debit, strip_debit,
  expire_reserves, next_reserve_expiry,
}
use phygital_wallet.TokenStore.Run.{here}
use phygital_wallet.TokenStore.Settled.{SameLedger}
use phygital_wallet.TokenSigner.{
  Platform, Signer, get_token, get_store, set_alarm, schedule_reserve_alarm, apply_one,
  apply_events, apply_fee_events,
}
use phygital_wallet.Sdk.{identify, token_account, phygital_wallet_program_address}
use phygital_wallet.Api.Fees.{
  Codec, Env, ConfirmedTx, TxMeta, SubscribeTxResult, json_array, key_object, key_text,
}
use phygital_wallet.Api.Fees.Apply.{
  Objects, FeeTxProcessResult, neither, put, by_token, mark, events_of, fee_events, apply_batch,
  apply_batches, process_subscribe_fee_tx, is_failed,
}
use phygital_wallet.Api.Fees.Apply.Once.{process_once}
use phygital_wallet.Api.Fees.Apply.Sound.{IsDue, fee_events-IsDue}

abbrev codec : Codec
codec = record {
  base58_bytes = λ text. some (130 ∷ 221 ∷ 242 ∷ 154 ∷ 13 ∷ 193 ∷ 189 ∷ 29 ∷ 0 ∷ []);
  base64_bytes = λ text. none;
  address = some;
  decodes = λ kind bytes. true;
  parse_json = λ text. some (json_array (some " payer " ∷ []));
}

abbrev env : Env
env = record { top_up_accumulator = some "acc"; default_fee_payer_pubkeys = some "[]" }

abbrev meta : TxMeta
meta = record {
  error = none;
  pre_balances = some (90 ∷ 1 ∷ 1 ∷ 1 ∷ 10 ∷ []);
  post_balances = some (60 ∷ 1 ∷ 1 ∷ 1 ∷ 17 ∷ []);
  loaded_addresses = some (record { writable = some ("acc" ∷ "" ∷ []); readonly = none });
  inner_instructions = none;
}

abbrev tx : ConfirmedTx
tx = record {
  meta = some meta;
  signatures = none;
  account_keys = some (
      key_object (some "payer")
      ∷ key_text "token"
      ∷ key_text "other"
      ∷ key_text phygital_wallet_program_address
      ∷ []);
  instructions = some (
      record {
        program_id_index = some 3;
        accounts = some (1 ∷ 2 ∷ 2 ∷ 2 ∷ 2 ∷ 0 ∷ []);
        data_text = some "data";
      }
      ∷ []);
}

abbrev result : SubscribeTxResult
result = record { signature = some " sig "; transaction = some tx }

abbrev events : List (String × FeeEvent)
events =
    ("token", record { signature = "sig:credit"; kind = credit; lamports = pos 7 })
    ∷ ("token", record { signature = "sig:debit"; kind = debit; lamports = pos 30 })
    ∷ []

-- An `execute` credits its token also, when the accumulator gains.
reads : fee_events codec env result ≡ ok events
unfolding fee_events events_of identify token_account trim
reads = refl

fee_events-IsDue_example :
    All (IsDue codec env tx) events × ((is_failed codec env tx.meta ≡ false) ⊎ (events ≡ []))
fee_events-IsDue_example = fee_events-IsDue codec env result tx refl reads

abbrev platform : Platform
platform = record {
  kit = record {
    decode_tx = λ _. none;
    decode_execute = λ _. none;
    decode_execute_with_authority = λ _. none;
    decodes = λ _ _. true;
    codec_error = "";
  };
  keys = record {
    parse_json = λ _. none;
    parse_numbers = λ _. none;
    base58_bytes = λ _. none;
    base58_text = λ _. "";
    base64_text = λ _. "";
    public_key = λ seed. seed;
    ed25519_sign = λ message seed. message;
  };
  sha256 = λ message. message;
  object_name = none;
  top_up_accumulator = none;
  fee_payer_secret_keys = none;
}

abbrev store : ℕ → List EventRow → Store
store balance rows = record {
  meta =
      record { key = "phygital_token"; value = "token" }
      ∷ record { key = "starter_granted"; value = "1" }
      ∷ [];
  fee_balance = some (record { balance_lamports = balance; updated_at = 5 });
  fee_events = rows;
  fee_reserves = [];
}

abbrev signer : Store → Signer
signer s = record { token = some "token"; has_store = true; store = s; alarm = none }

abbrev objects : Objects
objects token = signer (store 100 [])

abbrev booked : Objects
booked =
    put "token"
      (signer (
        store 77 (
          record { signature = "sig:credit"; kind = credit; lamports = 7; created_at = 5 }
          ∷ record { signature = "sig:debit"; kind = debit; lamports = 30; created_at = 5 }
          ∷ [])))
      objects

abbrev both : FeeTxProcessResult
both = record { credited = true; debited = true }

delivers : process_subscribe_fee_tx platform 5 codec env result objects ≡ (ok both, booked)
unfolding process_subscribe_fee_tx fee_events events_of identify token_account trim by_token
    apply_batches apply_batch mark apply_fee_events get_token get_store set_alarm
    schedule_reserve_alarm apply_one apply_events settle_debit strip_debit expire_reserves
    apply_fee_event next_reserve_expiry
delivers = refl

process_once_example :
    (w : Objects) × (process_subscribe_fee_tx platform 9 codec env result booked ≡ (ok neither, w))
    × ((token : String) → SameLedger (booked token).store (w token).store)
process_once_example =
    process_once platform codec env result 5 5 9 objects booked booked delivers
      (record { runs = λ t. here; token_kept = λ t. refl; store_kept = λ t. refl })
