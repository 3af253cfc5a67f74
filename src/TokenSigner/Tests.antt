-- ===== src/TokenSigner/Tests.antt =====
-- The object of one token on concrete calls, and the theorems at inputs that meet their hypotheses.
use phygital_wallet.Common.{
  ℕ, String, ◌≡◌, ◌≢◌, refl, true, false, some, none, [], ◌∷◌, Bytes, ◌==◌, if◌then◌else◌, arith,
  ap, Bool, eq_iff, bytes_eq,
}
use phygital_wallet.Errors.{ok, normalize_error}
use phygital_wallet.Sdk.{phygital_wallet_program_address}
use phygital_wallet.SignDecode.{Kit, CompiledMessage, decode_wire_transaction}
use phygital_wallet.Backend.{json_string, object, new_fee_payer_signer, sign, can_sign}
use phygital_wallet.TokenStore.{
  Store, Reserve, reserve, rebind_reserve, admit, release, ensure_token, expire_reserves,
  next_reserve_expiry,
}
use phygital_wallet.TokenStore.Reserves.{IsValid}
use phygital_wallet.TokenStore.Run.{IsCapped}
use phygital_wallet.TokenStore.Cover.{IsCovered}
use phygital_wallet.TokenSigner.Rollback.{failure_keeps_nothing}
use phygital_wallet.TokenSigner.Rollback.Batches.{OnlyHeld}
use phygital_wallet.TokenSigner.Success.{Signs, sign_transactions-Signs}
use phygital_wallet.TokenSigner.Life.{
  Life, born, after, signs, alarmed, Life-IsValid, Life-IsCovered,
}
use phygital_wallet.TokenSigner.{
  alarm, hex, on_store, on_signer, success, token_from_name, Platform, Signer, signed, failed,
  sign_transactions, get_store, bind_token, message_reserve_id, get_token, ensure, sign_batch,
  rescue, sign_wires, sign_wire, sign_decoded, sign_reserved, sign_admitted, release_reserves,
  schedule_reserve_alarm, set_alarm,
}

-- `a` and `b` are transactions of one sponsored fee payer, `c` is of another.
abbrev wallet_tx : String → ℕ → Bytes × CompiledMessage
wallet_tx payer n = (
  n ∷ [],
  record {
    static_accounts = payer ∷ [];
    instructions = some (
        record {
          program_address = phygital_wallet_program_address;
          accounts = some ("owner" ∷ "token" ∷ "authority" ∷ "wallet" ∷ "sysvar" ∷ "program" ∷ []);
          data_bytes = some (249 ∷ 39 ∷ 107 ∷ 35 ∷ 244 ∷ 181 ∷ 161 ∷ 142 ∷ []);
        }
        ∷ []);
  },
)

abbrev kit : Kit
kit = record {
  decode_tx = λ tx.
      if tx == "a"
      then some (wallet_tx "payer" 1)
      else if tx == "b"
      then some (wallet_tx "payer" 2)
      else if tx == "c"
      then some (wallet_tx "stranger" 3)
      else none;
  decode_execute = λ _. none;
  decode_execute_with_authority =
      λ _. some (record { program_id_index = 0; account_indexes = []; data_bytes = [] } ∷ []);
  decodes = λ _ _. true;
  codec_error = "codec";
}

abbrev seed_bytes : Bytes
seed_bytes =
    0 ∷ 1 ∷ 2 ∷ 3 ∷ 4 ∷ 5 ∷ 6 ∷ 7 ∷ 8 ∷ 9 ∷ 10 ∷ 11 ∷ 12 ∷ 13 ∷ 14 ∷ 15 ∷ 16 ∷ 17 ∷ 18 ∷ 19 ∷ 20
    ∷ 21 ∷ 22 ∷ 23 ∷ 24 ∷ 25 ∷ 26 ∷ 27 ∷ 28 ∷ 29 ∷ 30 ∷ 31 ∷ []

abbrev text_of : Bool → String
text_of b = if b then "sig-a" else "sig-b"

abbrev platform : Platform
platform = record {
  kit = kit;
  keys = record {
    parse_json = λ _. some (object (("payer", json_string "secret") ∷ []));
    parse_numbers = λ _. none;
    base58_bytes = λ _. some seed_bytes;
    base58_text = λ _. "payer";
    base64_text = λ bytes. elim bytes [ [] ↦ "" | b ∷ bs ↦ text_of (bytes_eq bs (1 ∷ [])) ];
    public_key = λ seed. seed;
    ed25519_sign = λ message seed. 64 ∷ message;
  };
  sha256 = λ message. message;
  object_name = some "token";
  top_up_accumulator = some "accumulator";
  fee_payer_secret_keys = some "{}";
}

abbrev funded : Store
funded = record {
  meta =
      record { key = "phygital_token"; value = "token" }
      ∷ record { key = "starter_granted"; value = "1" }
      ∷ [];
  fee_balance = some (record { balance_lamports = 250000; updated_at = 5 });
  fee_events = [];
  fee_reserves = [];
}

abbrev fresh : Signer
fresh = record { token = none; has_store = false; store = funded; alarm = none }

-- The same object with its store open.
abbrev open_signer : Signer
open_signer = record { token = some "token"; has_store = true; store = funded; alarm = none }

abbrev first_row : Reserve
first_row = record { id = "sig-a"; lamports = 100000; created_at = 10; expires_at = 90010 }

two_signed : sign_transactions platform 10 ("a" ∷ "b" ∷ []) fresh ≡ (
  ok (
      signed
        ("sig-a" ∷ "sig-b" ∷ [])
        (some (record { fee_payer = "payer"; signature_count = 2; reserved = 2 }))),
  record open_signer {
    store = record funded {
      fee_reserves =
          first_row
          ∷ record { id = "sig-b"; lamports = 100000; created_at = 10; expires_at = 90010 }
          ∷ [];
    };
    alarm = some 90010;
  },
)
unfolding sign_transactions get_token sign_batch rescue sign_wires sign_wire message_reserve_id
    get_store ensure bind_token schedule_reserve_alarm set_alarm release_reserves token_from_name
    sign_reserved sign_admitted sign_decoded hex on_store on_signer success decode_wire_transaction
    new_fee_payer_signer sign can_sign reserve rebind_reserve expire_reserves next_reserve_expiry
    ensure_token normalize_error admit release
two_signed = refl

-- A batch that fails at its second transaction keeps nothing.
rolled_back : (sign_transactions platform 10 ("a" ∷ "c" ∷ []) fresh).1 ≡ open_signer
unfolding sign_transactions get_token sign_batch rescue sign_wires sign_wire message_reserve_id
    get_store ensure bind_token schedule_reserve_alarm set_alarm release_reserves token_from_name
    sign_reserved sign_admitted sign_decoded hex on_store on_signer success decode_wire_transaction
    new_fee_payer_signer sign can_sign reserve rebind_reserve expire_reserves next_reserve_expiry
    ensure_token normalize_error admit release
rolled_back = refl

-- The same failing batch, after a call that signed its first transaction: the reserve that the
-- earlier call made, and that backs a signature it gave out, is gone.
retry_frees :
    (sign_transactions platform 20 ("a" ∷ "c" ∷ []) (record open_signer {
      store = record funded { fee_reserves = first_row ∷ [] };
    })).1.store.fee_reserves
    ≡ []
unfolding sign_transactions get_token sign_batch rescue sign_wires sign_wire message_reserve_id
    get_store ensure bind_token schedule_reserve_alarm set_alarm release_reserves token_from_name
    sign_reserved sign_admitted sign_decoded hex on_store on_signer success decode_wire_transaction
    new_fee_payer_signer sign can_sign reserve rebind_reserve expire_reserves next_reserve_expiry
    ensure_token normalize_error admit release
retry_frees = refl

-- What is left after a batch that fails, as a name the examples share.
abbrev after_failure : Signer
after_failure = (sign_transactions platform 10 ("a" ∷ "c" ∷ []) fresh).1

funded-IsValid : IsValid funded
funded-IsValid = record { ids = tt; signatures = tt; amounts = tt }

abbrev after_alarm : Signer
after_alarm = (alarm platform 20 after_failure).1

abbrev two_calls : Life platform 10 fresh 20 after_alarm
two_calls = after (after born (omega arith) (signs ("a" ∷ "c" ∷ []))) (omega arith) alarmed

Life-IsValid_example : IsValid after_alarm.store × IsCapped 20 after_alarm.store
Life-IsValid_example = Life-IsValid two_calls funded-IsValid (omega arith)

Life-IsCovered_example : IsValid after_alarm.store × IsCovered 20 after_alarm.store
Life-IsCovered_example = Life-IsCovered two_calls ((tt, tt), tt) funded-IsValid (omega arith)

unsponsored :
    (sign_transactions platform 10 ("a" ∷ "c" ∷ []) fresh).0
    ≡ ok (
        failed 403 (record {
          error = "Transaction fee payer is not sponsored by this service";
          code = "fee_payer_mismatch";
          soft = none;
        }))
unfolding sign_transactions get_token sign_batch rescue sign_wires sign_wire message_reserve_id
    get_store ensure bind_token schedule_reserve_alarm set_alarm release_reserves token_from_name
    sign_reserved sign_admitted sign_decoded hex on_store on_signer success decode_wire_transaction
    new_fee_payer_signer sign can_sign reserve rebind_reserve expire_reserves next_reserve_expiry
    ensure_token normalize_error admit release
unsponsored = refl

not_empty : (b : Bool) → text_of b ≢ ""
not_empty true e = ground (arith, eq_iff "sig-a" "")
not_empty false e = ground (arith, eq_iff "sig-b" "")

-- The codec of the example gives no text for no bytes, as base64 does.
empty_text : platform.keys.base64_text [] ≡ ""
empty_text = refl

never_empty :
    (message seed : Bytes)
    → platform.keys.base64_text (platform.keys.ed25519_sign message seed) ≢ ""
never_empty message seed = not_empty (bytes_eq message (1 ∷ []))

failure_keeps_nothing_example : OnlyHeld [] after_failure.store
failure_keeps_nothing_example =
    failure_keeps_nothing platform 10 ("a" ∷ "c" ∷ []) fresh 403
      (record {
        error = "Transaction fee payer is not sponsored by this service";
        code = "fee_payer_mismatch";
        soft = none;
      })
      never_empty unsponsored

sign_transactions-Signs_example : Signs platform 10 ("a" ∷ "b" ∷ []) (
    signed
      ("sig-a" ∷ "sig-b" ∷ [])
      (some (record { fee_payer = "payer"; signature_count = 2; reserved = 2 })))
sign_transactions-Signs_example =
    sign_transactions-Signs platform 10 ("a" ∷ "b" ∷ []) fresh ("sig-a" ∷ "sig-b" ∷ [])
      (some (record { fee_payer = "payer"; signature_count = 2; reserved = 2 }))
      (ap (λ x. x.0) two_signed)
