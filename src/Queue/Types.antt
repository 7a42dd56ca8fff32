-- ===== src/Queue/Types.antt =====
-- The state of src/bridge/queue-manager.ts. A closure is a number that names it. The `Map`s keyed
-- by the workspace directory are one `Lane` for each directory; an absent entry of such a map is
-- the empty value that the source reads in its place. The array and the index of a lane hold
-- references to shared task objects, which stand in the store `tasks`.
use lark_remote.Common.{ℕ, String, Text, Bool, List, [], Option, none, some, if◌then◌else◌, str_eq}

pub record AgentBinding : Type 0 where
  pub agent : String
  pub session_id : Option String
  pub session_epoch : Option ℕ

pub record QueuedTask : Type 0 where
  pub user_id : String
  pub chat_id : String
  pub message_id : String
  pub feishu_reply_to : Option String
  pub cwd : String
  pub timestamp : ℕ
  pub message_preview : Text
  pub editable : Option Bool
  pub edited_message : Option Text
  pub binding : Option AgentBinding

pub data LaneTaskKind : Type 0 where
  message compact command : LaneTaskKind

pub record ExecutingInfo : Type 0 where
  pub slot_id : ℕ
  pub message_id : Option String
  pub kind : LaneTaskKind
  pub label : Text
  pub preview : Option Text
  pub started_at : ℕ

-- `EnqueueOptions.taskMeta`.
pub record TaskMeta : Type 0 where
  pub user_id : String
  pub chat_id : String
  pub message_id : String
  pub message_preview : Text
  pub feishu_reply_to : Option String
  pub editable : Option Bool
  pub binding : Option AgentBinding
  pub kind : Option LaneTaskKind

abbrev pub Closure : Type 0
Closure = ℕ

-- A link of the promise chain that has not begun: what `enqueue` captures.
pub record Entry : Type 0 where
  pub slot_id : ℕ
  pub task : Closure
  pub task_meta : Option TaskMeta

abbrev pub max_waiting_queue : ℕ
max_waiting_queue = 50

-- The bookkeeping of one directory. `chain` and `active` stand for the promise chain: the links
-- that wait, and the slot of the link that has begun and has not settled.
pub record Lane : Type 0 where
  pub chain : List Entry
  pub active : Option ℕ
  pub queued_tasks : List ℕ
  pub task_index : List (String × ℕ)
  pub pending_or_executing_count : Option ℕ
  pub executing_info : Option ExecutingInfo
  pub interrupted_slots : List ℕ
  pub task_replacements : List (String × Closure)
  pub task_run_holds : List (String × List ℕ)

-- What all directories share. `card_messages` maps a queue key to the number of its card send.
pub record Shared : Type 0 where
  pub tasks : ℕ → QueuedTask
  pub next_task : ℕ
  pub slot_counter : ℕ
  pub card_messages : List (String × ℕ)
  pub next_send : ℕ
  pub began_message_ids : List String
  pub next_hold : ℕ
  pub released_holds : List ℕ

-- What the source calls while it runs: the card callbacks and the task closures.
pub data Button : Type 0 where
  edit : Button
  cancel : Bool → Button
  immediate : Text → Bool → Button

pub data Element : Type 0 where
  workspace : String → Element
  position_line : ℕ → ℕ → Element
  occupant_line : Text → Element
  compact_note : Element
  rule : Element
  preview_line : Text → Element
  note_line : Text → Element
  button : Button → Element

pub record Card : Type 0 where
  pub title : Text
  pub elements : List Element

pub data Action : Type 0 where
  send_card : String → Card → String → Action
  update_to_executing : String → Text → Action
  run : Closure → Action

pub record Outcome : Type 0 where
  pub lane : Lane
  pub shared : Shared
  pub actions : List Action

abbrev pub empty_lane : Lane
empty_lane = record {
  chain = [];
  active = none;
  queued_tasks = [];
  task_index = [];
  pending_or_executing_count = none;
  executing_info = none;
  interrupted_slots = [];
  task_replacements = [];
  task_run_holds = [];
}

-- `if (messageId)`: an absent and an empty text are both false.
abbrev pub truthy : Option String → Option String
truthy none = none
truthy (some s) = if str_eq s "" then none else some s

-- A write to the store of task objects.
abbrev pub store : (ℕ → QueuedTask) → ℕ → QueuedTask → ℕ → QueuedTask
store tasks r t k = elim (Prim.Native.Nat.compare k r) [
  | Prim.Native.Nat.Ordering.eq ↦ t
  | _ ↦ tasks k
]
