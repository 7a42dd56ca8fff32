-- ===== src/Rpc/Client.antt =====
-- The operations of `JsonRpcClient`, src/runner/common/jsonrpc/client.ts. The code behind the `await`
-- of the handshake is a step of its own; a write that breaks the pipe is a write and a lost
-- transport. A request that is refused leaves the client as it is.
use lark_remote.Common.{
  ℕ, ◌+◌, String, Bool, true, false, List, [], ◌∷◌, ◌++◌, map, filter, any, Option, none, some,
  or_else, not, ◌||◌, ◌==◌, if◌then◌else◌,
}
use lark_remote.Rpc.Types.{
  RpcId, numbered, foreign, ErrorMember, null_error, error_body, RpcFailure, rpc_error, rpc_timeout,
  connection_lost, Settlement, resolved, rejected, RpcMessage, request_message, notification,
  success_response, error_response, HookLayer, base_hooks, run_hooks, RpcCall, wrote, settled,
  lost_answer, on_notification, on_server_request, on_close, close_transport, Budget, RpcClient,
  capped, default_budget,
}

-- `map.has(id)` and `map.delete(id)`.
module _ {ℓ} {V : Type ℓ} where
  abbrev pub has_request : ℕ → List (ℕ × V) → Bool
  has_request id entries = any (λ (e : ℕ × V). e.0 == id) entries

  abbrev pub drop_id : ℕ → List (ℕ × V) → List (ℕ × V)
  drop_id id entries = filter (λ (e : ℕ × V). not (e.0 == id)) entries

abbrev pub add_calls : List RpcCall → RpcClient → RpcClient
add_calls cs c = record c { calls = c.calls ++ cs }

-- Both layers of hooks, the connection's first.
abbrev pub on_layers : (HookLayer → RpcCall) → RpcClient → RpcClient
on_layers hook c =
    add_calls (hook base_hooks ∷ (if c.has_run_hooks then hook run_hooks ∷ [] else [])) c

unfoldable pub set_hooks : RpcClient → RpcClient
set_hooks c = record c { has_run_hooks = true }

abbrev pub is_healthy : RpcClient → Bool
is_healthy c = not (c.disposed || c.closed)

-- The promise of request `id` is settled, and its entry and timer are gone.
unfoldable pub settle_request : ℕ → Settlement → RpcClient → RpcClient
settle_request id outcome c =
    add_calls (settled id outcome ∷ [])
      record c { pending = drop_id id c.pending; timers = drop_id id c.timers }

unfoldable pub reject_all_pending : RpcFailure → RpcClient → RpcClient
reject_all_pending err c =
    add_calls (map (λ (e : ℕ × String). settled e.0 (rejected err)) c.pending) record c {
      pending = [];
      timers = filter (λ (t : ℕ × ℕ). not (has_request t.0 c.pending)) c.timers;
    }

-- What a refused request throws.
unfoldable pub refusal : RpcClient → Option RpcFailure
refusal c =
    if c.disposed
    then some (connection_lost "client is disposed")
    else if c.closed
    then some (connection_lost "transport closed")
    else none

unfoldable pub request : ℕ → String → Option String → Option Budget → RpcClient → RpcClient
unfolding refusal
request now method params timeout c = elim (refusal c) [
  | some err ↦ c
  | none ↦ add_calls (wrote (request_message c.next_id method params) ∷ []) record c {
    next_id = c.next_id + 1;
    timers =
        c.timers
        ++ (c.next_id, now + capped (or_else timeout (default_budget c.request_timeout_ms))) ∷ [];
    pending = c.pending ++ (c.next_id, method) ∷ [];
  }
]

-- The callback of `setTimeout`: its timer is gone, and its request with it.
unfoldable pub request_timer_fired : ℕ → String → RpcClient → RpcClient
unfolding settle_request
request_timer_fired id method c = settle_request id (rejected (rpc_timeout method)) c

unfoldable pub notify : String → Option String → RpcClient → RpcClient
notify method params c =
    if c.disposed then c else add_calls (wrote (notification method params) ∷ []) c

unfoldable pub respond_result : RpcId → String → RpcClient → RpcClient
respond_result id result c = add_calls (wrote (success_response id result) ∷ []) c

unfoldable pub respond_error : RpcId → ℕ → String → RpcClient → RpcClient
respond_error id code message c = add_calls (wrote (error_response id code message) ∷ []) c

-- A response settles its request, if it still waits.
unfoldable pub settle_answer : RpcId → Settlement → RpcClient → RpcClient
unfolding settle_request
settle_answer (foreign key) outcome c = c
settle_answer (numbered id) outcome c =
    if has_request id c.pending then settle_request id outcome c else c

-- Where the error is null, `err.code` throws behind the deletion of the entry and its timer, and the
-- transport catches it: the promise is not settled.
unfoldable pub lose_answer : RpcId → RpcClient → RpcClient
lose_answer (foreign key) c = c
lose_answer (numbered id) c =
    if has_request id c.pending
    then add_calls (lost_answer id ∷ [])
        record c { pending = drop_id id c.pending; timers = drop_id id c.timers }
    else c

abbrev pub handle_error : RpcId → ErrorMember → RpcClient → RpcClient
handle_error id null_error c = lose_answer id c
handle_error id (error_body err) c = settle_answer id (rejected (rpc_error err)) c

abbrev pub handle_method : Option RpcId → Option String → Option String → RpcClient → RpcClient
handle_method id none params c = c
handle_method none (some method) params c =
    on_layers (λ layer. on_notification layer method params) c
handle_method (some id) (some method) params c =
    on_layers (λ layer. on_server_request layer id method params) c

abbrev pub handle_fields :
    Option RpcId
    → Option String
    → Option ErrorMember
    → Option String
    → Option String
    → RpcClient
    → RpcClient
handle_fields (some id) (some result) error method params c = settle_answer id (resolved result) c
handle_fields (some id) none (some err) method params c = handle_error id err c
handle_fields (some id) none none method params c = handle_method (some id) method params c
handle_fields none result error method params c = handle_method none method params c

unfoldable pub handle_message : RpcMessage → RpcClient → RpcClient
unfolding settle_answer lose_answer
handle_message m c = handle_fields m.id m.result m.error m.method m.params c

-- `events.onClose` of `connect`.
unfoldable pub transport_lost : RpcClient → RpcClient
unfolding reject_all_pending
transport_lost c =
    on_layers on_close
      (reject_all_pending (connection_lost "transport closed") record c { closed = true })

-- The server exits: what its last line holds is handled, then the close.
unfoldable pub server_exits : Option RpcMessage → RpcClient → RpcClient
unfolding handle_message transport_lost
server_exits none c = transport_lost c
server_exits (some m) c = transport_lost (handle_message m record c { closed = true })

-- `connect` behind `transport.start`, and behind the handshake.
unfoldable pub connect : ℕ → Option String → RpcClient → RpcClient
unfolding request
connect now initialize_params c =
    if c.closed then c else request now "initialize" initialize_params none c

unfoldable pub handshake_done : RpcClient → RpcClient
handshake_done c = record c { ready = true }

-- Rejecting what waits, then closing the transport.
unfoldable pub dispose_client : RpcClient → RpcClient
unfolding reject_all_pending
dispose_client c =
    if c.disposed
    then c
    else let rejecting =
        reject_all_pending (connection_lost "client disposed")
          record c { disposed = true; ready = false } in
      record rejecting { closed = true; calls = rejecting.calls ++ close_transport ∷ [] }
