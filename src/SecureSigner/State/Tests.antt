-- ===== src/SecureSigner/State/Tests.antt =====
-- The state on concrete calls, and the theorems at inputs that meet their hypotheses.
use phygital_wallet.Common.{◌≡◌, ◌≢◌, ◌↔◌, refl, false, none, some, [], ◌∷◌, arith}
use phygital_wallet.SecureSigner.{replay_rejected}
use phygital_wallet.SecureSigner.State.{
  SignerState, Authorization, idle, sign_pending, private_export_pending, new_signer_state, begin,
  consume_authorization, remember, check_freshness_and_replay,
}
use phygital_wallet.SecureSigner.State.Replay.{IsBounded, remember_all, replay_window}
use phygital_wallet.SecureSigner.State.Authorized.{
  calls, ends, begins, remembers, consume_once, consume_iff, exclusive,
}

new_signer_state-IsBounded : IsBounded new_signer_state
new_signer_state-IsBounded = record { same = refl; once = tt; small = omega arith }

accepted : check_freshness_and_replay 70000 "request" 20000 new_signer_state ≡ none
unfolding check_freshness_and_replay
accepted = refl

stale : check_freshness_and_replay 90000 "request" 20000 new_signer_state ≡ some replay_rejected
unfolding check_freshness_and_replay
stale = refl

replay_window_example :
    (check_freshness_and_replay 70001 "request" 70001
        (remember_all ("other" ∷ []) (remember "request" new_signer_state))
      ≡ some replay_rejected)
    × IsBounded (remember_all ("other" ∷ []) (remember "request" new_signer_state))
replay_window_example =
    replay_window 70000 20000 70001 70001 "request" ("other" ∷ []) new_signer_state
      new_signer_state-IsBounded accepted (omega arith)

abbrev approval : Authorization
approval = record {
  operation = sign_pending;
  request_id = "request";
  wallet_public_key = 1 ∷ [];
  message_digest = "digest";
  created_at = 5;
}

abbrev approved : SignerState
approved = record {
  state = sign_pending;
  active_request_id = some "request";
  authorization = some approval;
  seen = [];
  seen_order = [];
}

consume_once_example :
    (consume_authorization sign_pending "request" "digest" (
      calls
        (ends ∷ begins sign_pending "request" ∷ [])
        (consume_authorization sign_pending "request" "digest" approved).1)).0
    ≡ none
consume_once_example =
    consume_once sign_pending sign_pending "request" "request" "digest" "digest"
      (ends ∷ begins sign_pending "request" ∷ []) approved (tt, (tt, tt))

consume_iff_example :
    ((consume_authorization sign_pending "request" "digest" approved).0 ≡ some approval) ↔ (
      (approved.authorization ≡ some approval)
      × (approval.operation ≡ sign_pending)
      × (approval.request_id ≡ "request")
      × (approval.message_digest ≡ "digest"))
consume_iff_example = consume_iff sign_pending "request" "digest" approved approval

works : approved.state ≢ idle
works e = cc

exclusive_example :
    ((calls (remembers "request" ∷ []) approved).state ≡ sign_pending)
    × ((calls (remembers "request" ∷ []) approved).active_request_id ≡ some "request")
    × (begin private_export_pending "other" (calls (remembers "request" ∷ []) approved)
        ≡ (false, calls (remembers "request" ∷ []) approved))
exclusive_example =
    exclusive (remembers "request" ∷ []) approved private_export_pending "other" works (tt, tt)
