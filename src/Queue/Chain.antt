-- ===== src/Queue/Chain.antt =====
-- The promise chain of src/bridge/queue-manager.ts: `enqueue`, the begin of a task and its settle.
-- `now` is what `Date.now()` returns.
use lark_remote.Common.{
  ℕ, suc, ◌+◌, String, Text, lit, Bool, true, false, ◌&&◌, ◌||◌, List, [], ◌∷◌, ◌++◌, Option, none,
  some, or_else, ltb, leb, length, find_idx?, remove_first, any, drop, if◌then◌else◌, str_eq,
}
use lark_remote.Common.Dict.{insert, erase}
use lark_remote.Queue.Types.{
  QueuedTask, LaneTaskKind, message, TaskMeta, Closure, Entry, max_waiting_queue, Lane, Shared,
  Card, note_line, Action, send_card, update_to_executing, run, Outcome, truthy, store,
}
use lark_remote.Queue.Cards.{index_get, lane_occupant_label, queue_status_card}
use lark_remote.Queue.Lanes.{decrement_executing_count, take_task_replacement, has_id}

abbrev pub reply_target : TaskMeta → String
reply_target meta = or_else meta.feishu_reply_to meta.message_id

abbrev pub rejection_card : Card
rejection_card = record {
  title = lit "🚫 队列已满";
  elements = note_line (lit "当前工作目录已有 50 条消息排队等待，为防止积压已拒收本条消息。请等待队列消化后重发，或用 `/stop` 清空当前任务。") ∷ [];
}

unfoldable pub queued_task : ℕ → String → TaskMeta → QueuedTask
queued_task now cwd meta = record {
  user_id = meta.user_id;
  chat_id = meta.chat_id;
  message_id = meta.message_id;
  feishu_reply_to = meta.feishu_reply_to;
  cwd = cwd;
  timestamp = now;
  message_preview = meta.message_preview;
  editable = meta.editable;
  edited_message = none;
  binding = meta.binding;
}

-- Whether a queue card is shown: something is pending or executing, or something waits.
unfoldable pub has_waiting_tasks : Lane → Bool
has_waiting_tasks l =
    ltb 0 (or_else l.pending_or_executing_count 0) || ltb 0 (length l.queued_tasks)

-- The lane and the store with the task in the array, in the index and in the count.
unfoldable pub add_task : ℕ → String → TaskMeta → Lane → Lane
add_task r cwd meta l = record l {
  queued_tasks = l.queued_tasks ++ r ∷ [];
  task_index = insert meta.message_id r l.task_index;
  pending_or_executing_count = some (or_else l.pending_or_executing_count 0 + 1);
}

unfoldable pub alloc_task : ℕ → String → TaskMeta → Shared → Shared
unfolding queued_task
alloc_task now cwd meta s = record s {
  tasks = store s.tasks s.next_task (queued_task now cwd meta);
  next_task = suc s.next_task;
}

-- The card of a task that was just registered; its send is recorded at once.
unfoldable pub send_queue_status_card : String → TaskMeta → Lane → Shared → Shared × List Action
unfolding queue_status_card
send_queue_status_card cwd meta l s =
    let index =
      find_idx? (λ r. str_eq (s.tasks r).chat_id meta.chat_id && has_id s meta.message_id r)
        l.queued_tasks in
    (
      record s {
        card_messages = insert meta.message_id s.next_send s.card_messages;
        next_send = suc s.next_send;
      },
      send_card meta.chat_id (queue_status_card l s cwd index meta.message_id meta.message_preview)
            (reply_target meta)
          ∷ [],
    )

-- The lane, the store, the calls made, and whether the task was accepted.
unfoldable pub register_queued_task :
    ℕ → String → TaskMeta → Lane → Shared → Lane × Shared × List Action × Bool
unfolding add_task alloc_task send_queue_status_card has_waiting_tasks
register_queued_task now cwd meta l s =
    if leb max_waiting_queue (length l.queued_tasks)
    then (l, s, send_card meta.chat_id rejection_card (reply_target meta) ∷ [], false)
    else let l' = add_task s.next_task cwd meta l in
      let s' = alloc_task now cwd meta s in
      let sent : Shared × List Action =
        if has_waiting_tasks l then send_queue_status_card cwd meta l' s' else (s', []) in
      (l', sent.0, sent.1, true)

abbrev pub link : Entry → Lane → Lane
link e l = record l { chain = l.chain ++ e ∷ [] }

unfoldable pub enqueue : ℕ → String → Closure → Option TaskMeta → Lane → Shared → Outcome
unfolding register_queued_task
enqueue now cwd task task_meta l s =
    let slot = suc s.slot_counter in
    let s' = record s { slot_counter = slot } in
    let e : Entry = record { slot_id = slot; task = task; task_meta = task_meta } in
    elim task_meta [
      | none ↦ record { lane = link e l; shared = s'; actions = [] }
      | some meta ↦
          let (l₁, s₁, sent, accepted) = register_queued_task now cwd meta l s' in
          record { lane = if accepted then link e l₁ else l₁; shared = s₁; actions = sent }
    ]

abbrev pub max_began : ℕ
max_began = 10000

-- `Set.add`, after the oldest marker is dropped from a full set.
unfoldable pub mark_began : String → List String → List String
mark_began id began =
    let kept = if leb max_began (length began) then drop 1 began else began in
    if any (λ b. str_eq b id) kept then kept else kept ++ id ∷ []

-- The task leaves the array and the index.
unfoldable pub take_task : String → Shared → Lane → Lane
take_task id s l = record l {
  queued_tasks = remove_first (has_id s id) l.queued_tasks;
  task_index = erase id l.task_index;
}

abbrev pub entry_kind : Entry → LaneTaskKind
entry_kind e = elim e.task_meta [ none ↦ message | some meta ↦ or_else meta.kind message ]

-- The count is at least one while a task runs, and the lane names its occupant.
unfoldable pub occupy : ℕ → Entry → Option String → Text → Lane → Lane
unfolding lane_occupant_label
occupy now e id preview l =
    let count = or_else l.pending_or_executing_count 0 in
    let kind = entry_kind e in
    record l {
      pending_or_executing_count = if ltb count 1 then some 1 else l.pending_or_executing_count;
      executing_info = some (record {
        slot_id = e.slot_id;
        message_id = id;
        kind = kind;
        label = lane_occupant_label kind preview;
        preview = some preview;
        started_at = now;
      });
    }

abbrev pub entry_id : Entry → Option String
entry_id e = elim e.task_meta [ none ↦ none | some meta ↦ some meta.message_id ]

abbrev pub entry_preview : Entry → Text
entry_preview e = elim e.task_meta [ none ↦ [] | some meta ↦ meta.message_preview ]

unfoldable pub begin_queued_task : ℕ → Entry → Lane → Shared → Outcome
unfolding occupy take_task mark_began take_task_replacement
begin_queued_task now e l s = elim (truthy (entry_id e)) [
  | none ↦ record {
    lane = occupy now e (entry_id e) (entry_preview e) l;
    shared = s;
    actions = run e.task ∷ [];
  }
  | some id ↦ elim (index_get l id) [
    | none ↦ record { lane = l; shared = s; actions = [] }
    | some r ↦
        let live = (s.tasks r).message_preview in
        let (l₁, replacement) = take_task_replacement id (take_task id s l) in
        record {
          lane = occupy now e (entry_id e) live l₁;
          shared = record s { began_message_ids = mark_began id s.began_message_ids };
          actions = update_to_executing id live ∷ run (or_else replacement e.task) ∷ [];
        }
  ]
]

abbrev pub advance : Entry → List Entry → Lane → Lane
advance e rest l = record l { chain = rest; active = some e.slot_id }

-- The head of the chain begins once the link before it has settled.
unfoldable pub begin_next : ℕ → Lane → Shared → Outcome
unfolding begin_queued_task
begin_next now l s = elim l.active [
  | some _ ↦ record { lane = l; shared = s; actions = [] }
  | none ↦ elim l.chain [
    | [] ↦ record { lane = l; shared = s; actions = [] }
    | e ∷ rest ↦ begin_queued_task now e (advance e rest l) s
  ]
]

-- The begun link settles, whether its task returned, threw or was skipped.
unfoldable pub settle : Lane → Lane
unfolding decrement_executing_count
settle l = elim l.active [
  | none ↦ l
  | some slot ↦ decrement_executing_count slot (record l { active = none })
]
