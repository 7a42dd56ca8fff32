-- ===== src/Rpc/Types.antt =====
-- The state of `JsonRpcClient` of src/runner/common/jsonrpc/client.ts, the messages of
-- src/runner/common/jsonrpc/types.ts and the calls that the client makes. A payload is a text.
use lark_remote.Common.{ℕ, String, Bool, List, Option, ◌==◌, if◌then◌else◌, min}

-- The id of a message. The client numbers its own requests; all else is `foreign`.
pub data RpcId : Type 0 where
  numbered : ℕ → RpcId
  foreign : String → RpcId

pub record RpcErrorBody : Type 0 where
  pub code : ℕ
  pub message : String
  pub detail : Option String

-- The member `error` of a message, which `'error' in message` finds also where it is null.
pub data ErrorMember : Type 0 where
  null_error : ErrorMember
  error_body : RpcErrorBody → ErrorMember

-- What a request is rejected with.
pub data RpcFailure : Type 0 where
  rpc_error : RpcErrorBody → RpcFailure
  rpc_timeout : String → RpcFailure
  connection_lost : String → RpcFailure

pub data Settlement : Type 0 where
  resolved : String → Settlement
  rejected : RpcFailure → Settlement

-- A message from the server; a member that it lacks is `none`.
pub record RpcMessage : Type 0 where
  pub id : Option RpcId
  pub result : Option String
  pub error : Option ErrorMember
  pub method : Option String
  pub params : Option String

-- A message to the server.
pub data Outgoing : Type 0 where
  request_message : ℕ → String → Option String → Outgoing
  notification : String → Option String → Outgoing
  success_response : RpcId → String → Outgoing
  error_response : RpcId → ℕ → String → Outgoing

-- The hooks of the connection layer and those of the current run.
pub data HookLayer : Type 0 where
  base_hooks run_hooks : HookLayer

-- What the client does to the world. With `lost_answer` its entry and its timer are gone, and its
-- promise is left as it is.
pub data RpcCall : Type 0 where
  wrote : Outgoing → RpcCall
  settled : ℕ → Settlement → RpcCall
  lost_answer : ℕ → RpcCall
  on_notification : HookLayer → String → Option String → RpcCall
  on_server_request : HookLayer → RpcId → String → Option String → RpcCall
  on_close : HookLayer → RpcCall
  close_transport : RpcCall

-- How long a request may take.
pub data Budget : Type 0 where
  finite : ℕ → Budget
  infinite : Budget

-- `pending` is the map of requests with their methods, `timers` the timers that are set, each with
-- the time at which it fires. `closed` is `transport.closed`.
pub record RpcClient : Type 0 where
  pub pending : List (ℕ × String)
  pub timers : List (ℕ × ℕ)
  pub next_id : ℕ
  pub ready : Bool
  pub disposed : Bool
  pub closed : Bool
  pub has_run_hooks : Bool
  pub request_timeout_ms : ℕ
  pub calls : List RpcCall

abbrev pub max_timeout : ℕ
max_timeout = 2147483647

-- `Math.min(budget, 2_147_483_647)`.
abbrev pub capped : Budget → ℕ
capped (finite ms) = min ms max_timeout
capped infinite = max_timeout

abbrev pub default_budget : ℕ → Budget
default_budget ms = if ms == 0 then infinite else finite ms
