-- ===== src/Queue/Step.antt =====
-- The whole `QueueManager`: the lanes of all directories, its methods as calls, and its histories.
-- Between two calls the event loop may run any of them, in any order.
use lark_remote.Common.{ℕ, String, Text, [], Option, none, some, ◌≡◌, if◌then◌else◌, str_eq}
use lark_remote.Common.Dict.{lookup}
use lark_remote.Queue.Types.{QueuedTask, TaskMeta, Closure, Lane, Shared, Outcome, empty_lane}
use lark_remote.Queue.Lanes.{
  reset_executing_count, remove_from_queue, update_queued_task_message, set_task_replacement,
  hold_task_run_start, release_hold, await_task_run_start,
}
use lark_remote.Queue.Chain.{enqueue, begin_next, settle}

pub record Manager : Type 0 where
  pub lanes : String → Lane
  pub shared : Shared

-- `begins` and `settles` are the microtasks of the promise chain.
pub data Call : Type 0 where
  enqueues : ℕ → Closure → Option TaskMeta → Call
  begins : ℕ → Call
  settles : Call
  removes : String → Call
  edits : String → Text → Call
  resets : ℕ → Call
  replaces : String → Closure → Call
  holds : String → Call
  releases : String → ℕ → Call
  awaits : Call

abbrev pub quiet : Lane → Shared → Outcome
quiet l s = record { lane = l; shared = s; actions = [] }

unfoldable pub lane_step : String → Call → Lane → Shared → Outcome
lane_step cwd (enqueues now task meta) l s = enqueue now cwd task meta l s
lane_step cwd (begins now) l s = begin_next now l s
lane_step cwd settles l s = quiet (settle l) s
lane_step cwd (removes id) l s = quiet (remove_from_queue id s l).0 s
lane_step cwd (edits id new) l s = quiet l (update_queued_task_message id new l s).0
lane_step cwd (resets slot) l s = quiet (reset_executing_count slot l) s
lane_step cwd (replaces id task) l s = quiet (set_task_replacement id task l) s
lane_step cwd (holds id) l s = let (l', s', _) = hold_task_run_start id l s in quiet l' s'
lane_step cwd (releases id hold) l s = let (l', s') = release_hold id hold l s in quiet l' s'
lane_step cwd awaits l s = quiet (await_task_run_start l).0 s

abbrev pub put : String → Lane → (String → Lane) → String → Lane
put cwd l lanes c = if str_eq c cwd then l else lanes c

unfoldable pub step : String → Call → Manager → Manager
step cwd c m =
    let o = lane_step cwd c (m.lanes cwd) m.shared in
    record { lanes = put cwd o.lane m.lanes; shared = o.shared }

abbrev pub no_task : QueuedTask
no_task = record {
  user_id = "";
  chat_id = "";
  message_id = "";
  feishu_reply_to = none;
  cwd = "";
  timestamp = 0;
  message_preview = [];
  editable = none;
  edited_message = none;
  binding = none;
}

abbrev pub init : Manager
init = record {
  lanes = λ cwd. empty_lane;
  shared = record {
    tasks = λ r. no_task;
    next_task = 0;
    slot_counter = 0;
    card_messages = [];
    next_send = 0;
    began_message_ids = [];
    next_hold = 0;
    released_holds = [];
  };
}

-- The queue key of an enqueue action is not in use in its directory: the caller mints one for each
-- action.
abbrev pub Minted : Call → Lane → Type 0
Minted (enqueues now task (some meta)) l = lookup meta.message_id l.task_index ≡ none
Minted c l = Unit

pub data Reach : Manager → Type 0 where
  start : Reach init
  next :
      {m : Manager}
      → Reach m
      → (cwd : String) (c : Call) → Minted c (m.lanes cwd)
      → Reach (step cwd c m)
