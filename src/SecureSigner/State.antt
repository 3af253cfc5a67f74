-- ===== src/SecureSigner/State.antt =====
-- secure-signer/src/state.ts: the operation at work, its authorization, and the requests seen. The
-- clock is an argument, and a time is a natural number of milliseconds.
pub mod Replay
pub mod Authorized
mod Tests
use phygital_wallet.Common.{
  ℕ, ◌+◌, ◌-◌, String, Bool, true, false, not, ◌&&◌, Option, none, some, List, [], ◌∷◌, ◌++◌, Bytes,
  ltb, ◌==◌, if◌then◌else◌, length, any, delete_where,
}
use phygital_wallet.SecureSigner.{ErrorCode, replay_rejected}

abbrev pub request_freshness_window_ms : ℕ
request_freshness_window_ms = 60000

abbrev pub seen_request_ids_limit : ℕ
seen_request_ids_limit = 512

pub data OperationState : Type 0 where
  idle sign_pending private_export_pending auth_pending : OperationState

abbrev pub same_operation : OperationState → OperationState → Bool
same_operation idle idle = true
same_operation sign_pending sign_pending = true
same_operation private_export_pending private_export_pending = true
same_operation auth_pending auth_pending = true
same_operation _ _ = false

pub record Authorization : Type 0 where
  pub operation : OperationState
  pub request_id : String
  pub wallet_public_key : Bytes
  pub message_digest : String
  pub created_at : ℕ

-- A `Set` keeps the order in which its members came.
pub record SignerState : Type 0 where
  pub state : OperationState
  pub active_request_id : Option String
  pub authorization : Option Authorization
  pub seen : List String
  pub seen_order : List String

abbrev pub new_signer_state : SignerState
new_signer_state = record {
  state = idle;
  active_request_id = none;
  authorization = none;
  seen = [];
  seen_order = [];
}

unfoldable pub is_busy : SignerState → Bool
is_busy s = not (same_operation s.state idle)

abbrev pub has : String → List String → Bool
has id ids = any (λ x. x == id) ids

-- `Math.abs(now - timestamp)`
abbrev skew : ℕ → ℕ → ℕ
skew now timestamp = (now - timestamp) + (timestamp - now)

unfoldable pub check_freshness_and_replay : ℕ → String → ℕ → SignerState → Option ErrorCode
check_freshness_and_replay now request_id timestamp s =
    if has request_id s.seen
    then some replay_rejected
    else if ltb request_freshness_window_ms (skew now timestamp)
    then some replay_rejected
    else none

-- `seenOrder.shift()`, and the deletion of what it gives.
abbrev evict : List String → List String → SignerState → SignerState
evict seen [] s = record s { seen = seen; seen_order = [] }
evict seen (evicted ∷ order) s = record s {
  seen = delete_where (λ x. x == evicted) seen;
  seen_order = order;
}

unfoldable pub remember : String → SignerState → SignerState
remember request_id s =
    let seen = s.seen ++ request_id ∷ [] in
    let order = s.seen_order ++ request_id ∷ [] in
    if has request_id s.seen
    then s
    else if ltb seen_request_ids_limit (length order)
    then evict seen order s
    else record s { seen = seen; seen_order = order }

unfoldable pub begin : OperationState → String → SignerState → Bool × SignerState
unfolding is_busy
begin op request_id s =
    if is_busy s
    then (false, s)
    else (true, record s { state = op; active_request_id = some request_id })

unfoldable pub end : SignerState → SignerState
end s = record s { state = idle; active_request_id = none; authorization = none }

unfoldable pub authorize : Authorization → SignerState → SignerState
authorize auth s = record s { authorization = some auth }

-- The authorization, if it is for this operation, request and digest.
unfoldable pub matching :
    OperationState → String → String → Option Authorization → Option Authorization
matching operation request_id message_digest none = none
matching operation request_id message_digest (some a) =
    if not (same_operation a.operation operation)
    then none
    else if not (a.request_id == request_id)
    then none
    else if not (a.message_digest == message_digest)
    then none
    else some a

unfoldable pub consume_authorization :
    OperationState → String → String → SignerState → Option Authorization × SignerState
unfolding matching
consume_authorization operation request_id message_digest s = (
  matching operation request_id message_digest s.authorization,
  record s { authorization = none },
)
