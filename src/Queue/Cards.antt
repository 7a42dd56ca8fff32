-- ===== src/Queue/Cards.antt =====
-- The queue card of src/bridge/queue-manager.ts. An element keeps the values that the source prints;
-- the directory is printed through `displayName`, and `note_line` is a fixed sentence of the source.
use lark_remote.Common.{
  ℕ, ◌+◌, ◌-◌, String, Text, lit, trim_start, strip_prefix?, Bool, true, false, ◌||◌, List, [], ◌∷◌,
  ◌++◌, Option, none, some, or_else, is_some, ltb, if◌then◌else◌, find_idx?, str_eq,
}
use lark_remote.Common.Dict.{lookup}
use lark_remote.Queue.Types.{
  QueuedTask, LaneTaskKind, message, compact, command, ExecutingInfo, Lane, Shared, edit, cancel,
  immediate, Element, workspace, position_line, occupant_line, compact_note, rule, preview_line,
  note_line, button, Card,
}

unfoldable pub lane_occupant_label : LaneTaskKind → Text → Text
unfolding strip_prefix? trim_start
lane_occupant_label compact preview = lit "🗜 Compact"
lane_occupant_label command preview =
    lit "📋 " ++ elim (strip_prefix? (lit "card action:") preview) [
      | none ↦ preview
      | some rest ↦ trim_start rest
    ]
lane_occupant_label message preview = lit "💬 消息"

unfoldable pub queue_card_title : ℕ → Text
queue_card_title tasks_ahead = if ltb 0 tasks_ahead then lit "⏳ 消息排队中" else lit "⏳ 等待当前任务结束"

unfoldable pub build_queue_action_buttons : Bool → Option Text → List Element
build_queue_action_buttons disabled immediate_label =
    button (cancel disabled)
    ∷ button
        (immediate (or_else immediate_label (lit "⚡ 立即执行")) (disabled || is_some immediate_label))
    ∷ []

unfoldable pub position_elements : ℕ → ℕ → List Element
position_elements position tasks_ahead =
    if ltb 0 tasks_ahead then position_line position tasks_ahead ∷ [] else []

unfoldable pub occupant_elements : Option ExecutingInfo → List Element
occupant_elements none = []
occupant_elements (some info) = elim info.kind [
  | message ↦ []
  | compact ↦ occupant_line info.label ∷ compact_note ∷ []
  | command ↦ occupant_line info.label ∷ []
]

-- `task?.editable !== false`.
abbrev pub is_editable : Option QueuedTask → Bool
is_editable none = true
is_editable (some t) = or_else t.editable true

unfoldable pub preview_elements : Option QueuedTask → Text → List Element
preview_elements task [] = []
preview_elements task (c ∷ cs) =
    preview_line (c ∷ cs) ∷ ((if is_editable task then button edit ∷ [] else []) ++ rule ∷ [])

abbrev pub compact_label : Option ExecutingInfo → Option Text
compact_label none = none
compact_label (some info) = elim info.kind [ compact ↦ some (lit "压缩完成后按顺序执行") | _ ↦ none ]

-- `indexGet`: the task object that the index has under a queue key.
abbrev pub index_get : Lane → String → Option ℕ
index_get l id = lookup id l.task_index

abbrev pub get_queued_task : Lane → Shared → String → Option QueuedTask
get_queued_task l s id = elim (index_get l id) [ none ↦ none | some r ↦ some (s.tasks r) ]

unfoldable pub build_queue_status_card_elements :
    Lane → Shared → String → ℕ → ℕ → String → Text → List Element
unfolding position_elements occupant_elements preview_elements build_queue_action_buttons
build_queue_status_card_elements l s cwd position tasks_ahead id preview =
    workspace cwd
    ∷ (position_elements position tasks_ahead
        ++ (occupant_elements l.executing_info
            ++ (rule
                ∷ (preview_elements (get_queued_task l s id) preview
                    ++ build_queue_action_buttons false (compact_label l.executing_info)))))

-- The card of a waiting task. `findIndex` gives the tasks ahead; a missing task, -1 in the source,
-- is 0 here, and both print no position.
unfoldable pub queue_status_card : Lane → Shared → String → Option ℕ → String → Text → Card
unfolding queue_card_title build_queue_status_card_elements
queue_status_card l s cwd index id preview =
    let position = elim index as (λ _. ℕ) [ none ↦ 0 | some i ↦ i + 1 ] in
    record {
      title = queue_card_title (position - 1);
      elements = build_queue_status_card_elements l s cwd position (position - 1) id preview;
    }

unfoldable pub executing_card : String → Text → Card
unfolding build_queue_action_buttons
executing_card cwd preview = record {
  title = lit "▶" ++ (0xfe0f ∷ lit " 已开始执行");
  elements =
      workspace cwd ∷ rule ∷ preview_line preview ∷ rule ∷ build_queue_action_buttons true none;
}

unfoldable pub cancelled_card : String → Card
unfolding build_queue_action_buttons
cancelled_card cwd = record {
  title = lit "❌ 已撤销";
  elements =
      workspace cwd
      ∷ rule
      ∷ note_line (lit "📝 该消息已从队列中撤销")
      ∷ rule
      ∷ build_queue_action_buttons true none;
}

-- `buildQueueCardForEdit`: no card once the task has left the queue.
unfoldable pub build_queue_card_for_edit : Lane → Shared → String → String → Text → Option Card
unfolding queue_status_card
build_queue_card_for_edit l s cwd id preview =
    elim (find_idx? (λ r. str_eq (s.tasks r).message_id id) l.queued_tasks) [
      | none ↦ none
      | some i ↦ some (queue_status_card l s cwd (some i) id preview)
    ]
