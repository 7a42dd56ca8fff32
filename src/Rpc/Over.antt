-- ===== src/Rpc/Over.antt =====
-- When the connection of src/runner/common/jsonrpc/client.ts has ended, nothing waits any more.
use lark_remote.Common.{
  ℕ, ◌+◌, ◌≤◌, ◌||◌, String, Bool, true, false, [], Option, none, some, ◌≡◌, refl, arith,
  Bool-cases, inl, inr, if◌then◌else◌, ap, Option-cases,
}
use lark_remote.Rpc.Types.{
  RpcId, numbered, foreign, ErrorMember, null_error, error_body, Settlement, RpcFailure, RpcMessage,
  Budget, RpcClient,
}
use lark_remote.Rpc.Client.{
  has_request, handle_method, handle_fields, settle_request, reject_all_pending, request,
  request_timer_fired, settle_answer, lose_answer, handle_message, transport_lost, server_exits,
  connect, dispose_client, notify, respond_result, respond_error, handshake_done, set_hooks,
  refusal,
}
use lark_remote.Rpc.Counts.{count_of, settlements, sendings, losses}
use lark_remote.Rpc.Step.{
  null_errors, fresh_client, RpcStep, RpcReach, here, next, hooked, connecting, connected,
  requested, timed_out, notified, responded, refused, received, lost, exited, disposing,
}
use lark_remote.Rpc.Once.{RpcReach-IsOnce}

abbrev is_over : RpcClient → Bool
is_over c = c.disposed || c.closed

abbrev IsOver : RpcClient → Type 0
IsOver c = is_over c ≡ true → c.pending ≡ []

if-IsOver : (b : Bool) (c d : RpcClient) → IsOver c → IsOver d → IsOver (if b then c else d)
if-IsOver true c d i j = i
if-IsOver false c d i j = j

settle_request-IsOver :
    (k : ℕ) (o : Settlement) (c : RpcClient) → IsOver c → IsOver (settle_request k o c)
unfolding settle_request
settle_request-IsOver k o c i h = rw (i h)

settle_answer-IsOver :
    (key : RpcId) (o : Settlement) (c : RpcClient) → IsOver c → IsOver (settle_answer key o c)
unfolding settle_answer
settle_answer-IsOver (foreign key) o c i = i
settle_answer-IsOver (numbered k) o c i =
    if-IsOver (has_request k c.pending) (settle_request k o c) c (settle_request-IsOver k o c i) i

lose_answer-IsOver : (key : RpcId) (c : RpcClient) → IsOver c → IsOver (lose_answer key c)
unfolding lose_answer
lose_answer-IsOver (foreign key) c i = i
lose_answer-IsOver (numbered k) c i = elim (Bool-cases (has_request k c.pending)) [
  | inl e ↦ rw e (λ h. rw (i h))
  | inr e ↦ rw e i
]

method-IsOver :
    (key : Option RpcId) (method params : Option String) (c : RpcClient)
    → IsOver c
    → IsOver (handle_method key method params c)
method-IsOver key none params c i = i
method-IsOver none (some method) params c i = i
method-IsOver (some key) (some method) params c i = i

handle_message-IsOver : (m : RpcMessage) (c : RpcClient) → IsOver c → IsOver (handle_message m c)
unfolding handle_message
handle_message-IsOver m c i = fields m.id m.result m.error
  where
    fields :
        (key : Option RpcId) (result : Option String) (error : Option ErrorMember)
        → IsOver (handle_fields key result error m.method m.params c)
    fields (some key) (some result) error =
        settle_answer-IsOver key (Settlement.resolved result) c i
    fields (some key) none (some null_error) = lose_answer-IsOver key c i
    fields (some key) none (some (error_body err)) =
        settle_answer-IsOver key (Settlement.rejected (RpcFailure.rpc_error err)) c i
    fields (some key) none none = method-IsOver (some key) m.method m.params c i
    fields none result error = method-IsOver none m.method m.params c i

accepted-open : (c : RpcClient) → refusal c ≡ none → is_over c ≡ false
unfolding refusal
accepted-open c h = ground arith

-- A request is refused once the connection is over.
request-IsOver :
    (now : ℕ) (method : String) (params : Option String) (timeout : Option Budget) (c : RpcClient)
    → IsOver c
    → IsOver (request now method params timeout c)
unfolding request
request-IsOver now method params timeout c i = elim (Option-cases (refusal c)) [
  | inr (err, e) ↦ rw (e, request) i
  | inl e ↦ rw (e, request) (λ h. cc (accepted-open c e))
]

pub RpcStep-IsOver : {c d : RpcClient} → RpcStep c d → IsOver c → IsOver d
unfolding set_hooks handshake_done connect notify respond_result respond_error request_timer_fired
    settle_request transport_lost reject_all_pending server_exits dispose_client
RpcStep-IsOver hooked i = i
RpcStep-IsOver {c} (connecting now params) i =
    if-IsOver c.closed c _ i (request-IsOver now "initialize" params none c i)
RpcStep-IsOver connected i = i
RpcStep-IsOver {c} (requested now method params timeout) i =
    request-IsOver now method params timeout c i
RpcStep-IsOver {c} (timed_out k method h) i =
    settle_request-IsOver k (Settlement.rejected (RpcFailure.rpc_timeout method)) c i
RpcStep-IsOver {c} (notified method params) i = if-IsOver c.disposed c _ i i
RpcStep-IsOver (responded key result) i = i
RpcStep-IsOver (refused key code message) i = i
RpcStep-IsOver {c} (received m) i = handle_message-IsOver m c i
RpcStep-IsOver lost i = λ h. refl
RpcStep-IsOver (exited none) i = λ h. refl
RpcStep-IsOver (exited (some m)) i = λ h. refl
RpcStep-IsOver {c} disposing i = if-IsOver c.disposed c _ i (λ h. refl)

RpcReach-IsOver : {timeout : ℕ} {c : RpcClient} → RpcReach (fresh_client timeout) c → IsOver c
RpcReach-IsOver here = λ h. refl
RpcReach-IsOver (next r st) = RpcStep-IsOver st (RpcReach-IsOver r)

-- Once the client is disposed or its connection has ended, whatever was called and came before and
-- since: no request waits, none has a timer, and each one that was sent was settled as often as it
-- was sent, but for those dropped because a message answered them with an error that is null.
pub over-settled :
    (id timeout : ℕ) {c : RpcClient} (r : RpcReach (fresh_client timeout) c)
    → (c.disposed || c.closed) ≡ true
    → (c.pending ≡ [])
      × (count_of id c.timers ≡ 0)
      × (settlements id c.calls + losses id c.calls ≡ sendings id c.calls)
      × (losses id c.calls ≤ null_errors id r)
over-settled id timeout r h =
    let i = RpcReach-IsOnce id timeout r in
    let none_waits = ap (count_of id) (RpcReach-IsOver r h) in
    (
      RpcReach-IsOver r h,
      omega (arith, i.timed, none_waits),
      omega (arith, i.balance, none_waits),
      i.lost,
    )
