-- ===== src/RunState/Types.antt =====
-- The types of src/card/run-state.ts and the events of src/runner/types.ts. An `unknown` payload is
-- the text that `stringifyUnknown` returns for it; a parsed record is the list of its keys. Views of
-- approvals, goals and hints are opaque to the reducer and stand as the number of a value.
use lark_remote.Common.{ℕ, String, Text, Bool, List, Option}

pub data RunTerminal : Type 0 where
  running finalizing done error interrupted idle_timeout goal_continuing : RunTerminal

pub data RunFooter : Type 0 where
  thinking tool_running streaming : RunFooter

pub data InterruptedReason : Type 0 where
  approval_timeout user_stop approval_cancelled : InterruptedReason

pub data ToolStatus : Type 0 where
  running ok error : ToolStatus

pub record ToolEntry : Type 0 where
  pub id : String
  pub name : Text
  pub input : Text
  pub parsed_input : Option (List Text)
  pub output : Option Text
  pub status : ToolStatus
  pub started_at : Option String
  pub completed_at : Option String
  pub tool_hint : Option ℕ
  pub summary : Option Text

pub record ThinkingBlock : Type 0 where
  pub item_id : Option String
  pub content : Text
  pub active : Bool
  pub timestamp : Option String
  pub completed_at : Option String

pub record TextBlock : Type 0 where
  pub item_id : Option String
  pub content : Text
  pub timestamp : Option String
  pub completed_at : Option String

pub record PlanBlock : Type 0 where
  pub item_id : Option String
  pub content : Text
  pub active : Bool
  pub timestamp : Option String
  pub completed_at : Option String

pub data Operation : Type 0 where
  create edit delete read : Operation

pub record FileBlock : Type 0 where
  pub item_id : Option String
  pub path : String
  pub operation : Operation
  pub diff : Option Text
  pub timestamp : Option String
  pub completed_at : Option String

pub data RunBlock : Type 0 where
  thinking : ThinkingBlock → RunBlock
  text : TextBlock → RunBlock
  tool : ToolEntry → RunBlock
  plan : PlanBlock → RunBlock
  file_change : FileBlock → RunBlock

pub record RunNotice : Type 0 where
  pub level : ℕ
  pub code : Option String
  pub text : Text
  pub timestamp : Option String

pub data AnswerSource : Type 0 where
  protocol inferred : AnswerSource

pub record FinalAnswer : Type 0 where
  pub content : Text
  pub timestamp : Option String
  pub complete : Bool
  pub source : AnswerSource

pub data ResultSubtype : Type 0 where
  success error interrupted : ResultSubtype

-- A request id on the wire, a number or a text.
pub data RequestId : Type 0 where
  num : ℕ → RequestId
  str : String → RequestId

-- What is shown of an approval besides its request id is the number of a value.
pub record ApprovalView : Type 0 where
  pub request_id : RequestId
  pub shown : ℕ

pub record Approval : Type 0 where
  pub view : ApprovalView
  pub expired : Bool

pub record LiveStatus : Type 0 where
  pub context_used : Option ℕ
  pub context_limit : Option ℕ
  pub steps : Option ℕ
  pub tool_ms : Option ℕ

pub record Job : Type 0 where
  pub id : String
  pub label : Text
  pub status : Option String
  pub progress : Option Text

-- The usage fields, of which the reducer itself writes three.
pub record Usage : Type 0 where
  pub context_length : Option ℕ
  pub context_limit : Option ℕ
  pub compact_count : Option ℕ
  pub total_tokens : Option ℕ

pub record RunState : Type 0 where
  pub run_id : String
  pub terminal : RunTerminal
  pub footer : Option RunFooter
  pub started_at : Option ℕ
  pub finished_at : Option ℕ
  pub blocks : List RunBlock
  pub final_answer : Option FinalAnswer
  pub session_id : Option String
  pub result_subtype : Option ResultSubtype
  pub interrupted_reason : Option InterruptedReason
  pub error_msg : Option Text
  pub idle_timeout_minutes : Option ℕ
  pub plan : Option Text
  pub model : Option String
  pub cost_usd : Option ℕ
  pub notices : List RunNotice
  pub omitted_blocks : ℕ
  pub session_title : Option Text
  pub mode : Option String
  pub operation_kind : Option ℕ
  pub approvals : List Approval
  pub approval_expired : Bool
  pub live_status : Option LiveStatus
  pub background_jobs : List Job
  pub goal : Option ℕ
  pub goal_known : Option Bool
  pub usage : Usage

pub data AssistantContent : Type 0 where
  thinking : Text → Option String → AssistantContent
  text : Text → AssistantContent
  tool_use : String → Text → Text → Option Text → AssistantContent

pub record ToolResult : Type 0 where
  pub tool_use_id : String
  pub content : Text
  pub is_error : Bool

pub data ChangeKind : Type 0 where
  add update delete : ChangeKind

pub record FileDiff : Type 0 where
  pub path : String
  pub kind : ChangeKind
  pub diff : Option Text

pub record TurnDiff : Type 0 where
  pub item_id : String
  pub text : Option Text
  pub reasoning : Option Text
  pub tool_output : Option Text
  pub plan : Option Text
  pub file_changes : Option (List FileDiff)
  pub complete : Bool
  pub refresh_timestamp : Bool
  pub tool_status : Option ToolStatus
  pub tool_name : Option Text
  pub tool_input : Option Text
  pub tool_hint : Option ℕ
  pub timestamp : Option String

-- `AgentEvent`, by the type and subtype that the reducer reads; the last time stamp is the event's.
pub data AgentEvent : Type 0 where
  system_init : String → String → AgentEvent
  compact_boundary : Option ℕ → AgentEvent
  run_status : LiveStatus → AgentEvent
  goal_state : Option ℕ → Bool → AgentEvent
  background_jobs : List Job → AgentEvent
  result : ResultSubtype → Option Text → Option Text → Option ℕ → AgentEvent
  final_answer : Text → Option String → Option Bool → Option String → AgentEvent
  assistant : List AssistantContent → Option String → AgentEvent
  user : List ToolResult → Option String → AgentEvent
  plan : Text → Option String → AgentEvent
  file_change : String → Option Text → Operation → Option String → AgentEvent
  notice : RunNotice → AgentEvent
  session_info : Option Text → Option String → AgentEvent
  turn_started : ℕ → AgentEvent
  turn_diff : TurnDiff → AgentEvent
  approval_requested : RequestId → ApprovalView → AgentEvent
  approval_resolved : RequestId → AgentEvent
  approval_view_updated : RequestId → ApprovalView → AgentEvent
  approval_expired : RequestId → AgentEvent
  other : AgentEvent
