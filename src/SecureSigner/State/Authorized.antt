-- ===== src/SecureSigner/State/Authorized.antt =====
-- state.ts: calls of the state in any order.
use phygital_wallet.Common.{
  String, ◌≡◌, ◌≢◌, ◌↔◌, refl, true, false, none, some, List, [], ◌∷◌, All, arith, eq_iff, ◌∙◌,
  Option-cases, inl, inr,
}
use phygital_wallet.SecureSigner.State.{
  SignerState, OperationState, idle, sign_pending, private_export_pending, auth_pending,
  same_operation, Authorization, is_busy, begin, end, authorize, matching, consume_authorization,
  remember,
}

pub data Call : Type 0 where
  begins : OperationState → String → Call
  ends : Call
  authorizes : Authorization → Call
  consumes : OperationState → String → String → Call
  remembers : String → Call

unfoldable pub call : Call → SignerState → SignerState
call (begins op id) s = (begin op id s).1
call ends s = end s
call (authorizes auth) s = authorize auth s
call (consumes op id digest) s = (consume_authorization op id digest s).1
call (remembers id) s = remember id s

unfoldable pub calls : List Call → SignerState → SignerState
unfolding call
calls [] s = s
calls (c ∷ cs) s = calls cs (call c s)

abbrev pub NoAuthorize : Call → Type 0
NoAuthorize (authorizes _) = ⊥
NoAuthorize _ = Unit

abbrev pub NoEnd : Call → Type 0
NoEnd ends = ⊥
NoEnd _ = Unit

authorization-remember :
    (id : String) (s : SignerState) → (remember id s).authorization ≡ s.authorization
unfolding remember
authorization-remember id s = ground arith

call-none :
    (c : Call) (s : SignerState)
    → NoAuthorize c
    → s.authorization ≡ none
    → (call c s).authorization ≡ none
unfolding call begin is_busy end consume_authorization
call-none (begins op id) s n h = ground arith
call-none ends s n h = refl
call-none (authorizes auth) s n h = elim n [ ]
call-none (consumes op id digest) s n h = refl
call-none (remembers id) s n h = rw authorization-remember h

calls-none :
    (cs : List Call) (s : SignerState)
    → All NoAuthorize cs
    → s.authorization ≡ none
    → (calls cs s).authorization ≡ none
unfolding calls
calls-none [] s n h = h
calls-none (c ∷ cs) s (n, ns) h = calls-none cs (call c s) ns (call-none c s n h)

-- However a call to consume an authorization ends, none is given out after it until `authorize` is
-- called again, whatever else is called in between.
pub consume_once :
    (op op' : OperationState) (id id' digest digest' : String) (cs : List Call) (s : SignerState)
    → All NoAuthorize cs
    → (consume_authorization op' id' digest' (calls cs (consume_authorization op id digest s).1)).0
      ≡ none
unfolding consume_authorization
consume_once op op' id id' digest digest' cs s n =
    rw (calls-none cs (record s { authorization = none }) n refl) refl

same_operation_iff : (a b : OperationState) → (same_operation a b ≡ true) ↔ (a ≡ b)
same_operation_iff idle idle = (λ _. refl, λ _. refl)
same_operation_iff idle sign_pending = (λ e. cc, λ e. cc)
same_operation_iff idle private_export_pending = (λ e. cc, λ e. cc)
same_operation_iff idle auth_pending = (λ e. cc, λ e. cc)
same_operation_iff sign_pending idle = (λ e. cc, λ e. cc)
same_operation_iff sign_pending sign_pending = (λ _. refl, λ _. refl)
same_operation_iff sign_pending private_export_pending = (λ e. cc, λ e. cc)
same_operation_iff sign_pending auth_pending = (λ e. cc, λ e. cc)
same_operation_iff private_export_pending idle = (λ e. cc, λ e. cc)
same_operation_iff private_export_pending sign_pending = (λ e. cc, λ e. cc)
same_operation_iff private_export_pending private_export_pending = (λ _. refl, λ _. refl)
same_operation_iff private_export_pending auth_pending = (λ e. cc, λ e. cc)
same_operation_iff auth_pending idle = (λ e. cc, λ e. cc)
same_operation_iff auth_pending sign_pending = (λ e. cc, λ e. cc)
same_operation_iff auth_pending private_export_pending = (λ e. cc, λ e. cc)
same_operation_iff auth_pending auth_pending = (λ _. refl, λ _. refl)

-- An authorization is given out exactly if it is the one that the state holds, and names the
-- operation, the request and the digest that are asked for.
pub consume_iff :
    (op : OperationState) (id digest : String) (s : SignerState) (a : Authorization)
    → ((consume_authorization op id digest s).0 ≡ some a) ↔ (
        (s.authorization ≡ some a)
        × (a.operation ≡ op)
        × (a.request_id ≡ id)
        × (a.message_digest ≡ digest))
unfolding consume_authorization matching
consume_iff op id digest s a = elim (Option-cases s.authorization) [
  | inl missing ↦ ground arith
  | inr (b, held) ↦ ground (
    arith,
    same_operation_iff b.operation op,
    eq_iff b.request_id id,
    eq_iff b.message_digest digest,
  )
]

abbrev SameOperation : SignerState → SignerState → Type 0
SameOperation s t = (t.state ≡ s.state) × (t.active_request_id ≡ s.active_request_id)

remember-SameOperation : (id : String) (s : SignerState) → SameOperation s (remember id s)
unfolding remember
remember-SameOperation id s = ground arith

begin-busy :
    (op : OperationState) (id : String) (s : SignerState)
    → is_busy s ≡ true
    → begin op id s ≡ (false, s)
unfolding begin
begin-busy op id s busy = rw busy refl

call-SameOperation :
    (c : Call) (s : SignerState) → is_busy s ≡ true → NoEnd c → SameOperation s (call c s)
unfolding call authorize consume_authorization
call-SameOperation (begins op id) s busy n = rw (begin-busy op id s busy, call) (refl, refl)
call-SameOperation ends s busy n = elim n [ ]
call-SameOperation (authorizes auth) s busy n = (refl, refl)
call-SameOperation (consumes op id digest) s busy n = (refl, refl)
call-SameOperation (remembers id) s busy n = remember-SameOperation id s

stays_busy : (s t : SignerState) → t.state ≡ s.state → is_busy s ≡ true → is_busy t ≡ true
unfolding is_busy
stays_busy s t e busy = rw e busy

calls-SameOperation :
    (cs : List Call) (s : SignerState)
    → is_busy s ≡ true
    → All NoEnd cs
    → SameOperation s (calls cs s)
unfolding calls
calls-SameOperation [] s busy n = (refl, refl)
calls-SameOperation (c ∷ cs) s busy (n, ns) =
    let (state, active) = call-SameOperation c s busy n in
    let (states, actives) =
      calls-SameOperation cs (call c s) (stays_busy s (call c s) state busy) ns in
    (states ∙ state, actives ∙ active)

works_busy : (s : SignerState) → s.state ≢ idle → is_busy s ≡ true
unfolding is_busy
works_busy s works = ground (arith, same_operation_iff s.state idle)

-- While an operation is at work, no sequence of calls that does not end it changes which operation
-- and request are active, and after it `begin` is refused and changes nothing.
pub exclusive :
    (cs : List Call) (s : SignerState) (op : OperationState) (id : String)
    → s.state ≢ idle
    → All NoEnd cs
    → ((calls cs s).state ≡ s.state)
      × ((calls cs s).active_request_id ≡ s.active_request_id)
      × (begin op id (calls cs s) ≡ (false, calls cs s))
exclusive cs s op id works n =
    let busy = works_busy s works in
    let (state, active) = calls-SameOperation cs s busy n in
    (state, active, begin-busy op id (calls cs s) (stays_busy s (calls cs s) state busy))
