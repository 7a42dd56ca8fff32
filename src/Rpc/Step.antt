-- ===== src/Rpc/Step.antt =====
-- Any sequence of calls, messages, timers and closes of one JSON-RPC client,
-- src/runner/common/jsonrpc/client.ts. A timer fires only while it is set.
use lark_remote.Common.{ℕ, ◌+◌, ◌==◌, String, true, false, [], Option, none, some, ◌≡◌}
use lark_remote.Rpc.Types.{
  RpcId, numbered, foreign, ErrorMember, null_error, error_body, RpcMessage, Budget, RpcClient,
}
use lark_remote.Rpc.Counts.{one_if}
use lark_remote.Rpc.Client.{
  has_request, set_hooks, request, request_timer_fired, notify, respond_result, respond_error,
  handle_message, transport_lost, server_exits, connect, handshake_done, dispose_client,
}

abbrev pub fresh_client : ℕ → RpcClient
fresh_client timeout = record {
  pending = [];
  timers = [];
  next_id = 1;
  ready = false;
  disposed = false;
  closed = false;
  has_run_hooks = false;
  request_timeout_ms = timeout;
  calls = [];
}

pub data RpcStep (c : RpcClient) : RpcClient → Type 0 where
  hooked : RpcStep c (set_hooks c)
  connecting : (now : ℕ) (params : Option String) → RpcStep c (connect now params c)
  connected : RpcStep c (handshake_done c)
  requested :
      (now : ℕ) (method : String) (params : Option String) (timeout : Option Budget)
      → RpcStep c (request now method params timeout c)
  timed_out :
      (id : ℕ) (method : String)
      → has_request id c.timers ≡ true
      → RpcStep c (request_timer_fired id method c)
  notified : (method : String) (params : Option String) → RpcStep c (notify method params c)
  responded : (id : RpcId) (result : String) → RpcStep c (respond_result id result c)
  refused : (id : RpcId) (code : ℕ) (message : String) → RpcStep c (respond_error id code message c)
  received : (m : RpcMessage) → RpcStep c (handle_message m c)
  lost : RpcStep c (transport_lost c)
  exited : (last : Option RpcMessage) → RpcStep c (server_exits last c)
  disposing : RpcStep c (dispose_client c)

pub data RpcReach (s : RpcClient) : RpcClient → Type 0 where
  here : RpcReach s s
  next : {c d : RpcClient} → RpcReach s c → RpcStep c d → RpcReach s d

-- A message that answers the request with `"error": null`.
abbrev pub null_fields : ℕ → Option RpcId → Option String → Option ErrorMember → ℕ
null_fields id (some (numbered k)) none (some null_error) = one_if (k == id)
null_fields id (some (numbered k)) none (some (error_body err)) = 0
null_fields id (some (numbered k)) none none = 0
null_fields id (some (numbered k)) (some result) error = 0
null_fields id (some (foreign key)) result error = 0
null_fields id none result error = 0

abbrev pub null_message : ℕ → RpcMessage → ℕ
null_message id m = null_fields id m.id m.result m.error

abbrev pub null_last : ℕ → Option RpcMessage → ℕ
null_last id none = 0
null_last id (some m) = null_message id m

abbrev pub null_step : ℕ → {c d : RpcClient} → RpcStep c d → ℕ
null_step id hooked = 0
null_step id (connecting now params) = 0
null_step id connected = 0
null_step id (requested now method params timeout) = 0
null_step id (timed_out k method h) = 0
null_step id (notified method params) = 0
null_step id (responded key result) = 0
null_step id (refused key code message) = 0
null_step id (received m) = null_message id m
null_step id lost = 0
null_step id (exited last) = null_last id last
null_step id disposing = 0

-- How many of the messages that came answered the request with a null error.
abbrev pub null_errors : ℕ → {s c : RpcClient} → RpcReach s c → ℕ
null_errors id here = 0
null_errors id (next r st) = null_errors id r + null_step id st
