-- ===== src/RunState/TurnDiff.antt =====
-- The `turn_diff` events of src/card/run-state.ts: full snapshots of one item, field by field. An
-- applier returns `none` where the source returns the state it was given.
use lark_remote.Common.{
  ◌*◌, Text, lit, String, Bool, false, ◌&&◌, List, [], ◌∷◌, Option, none, some, or_else, not,
  if◌then◌else◌, str_eq,
}
use lark_remote.RunState.Types.{
  RunBlock, ToolStatus, RunState, RunFooter, TurnDiff, FileDiff, ChangeKind, Operation,
}
use lark_remote.RunState.Marks.{keep_tail, keep_tail_marked}
use lark_remote.RunState.Blocks.{
  max_reasoning_chars, max_tool_detail_chars, is_tool, truncate_detail, mark_thinking_inactive,
  with_capped_blocks, upsert_snapshot_block,
}

abbrev pub same_item : Option String → String → Bool
same_item none id = false
same_item (some item) id = str_eq item id

-- The time of completion, which an open snapshot leaves as it was.
abbrev pub completed : TurnDiff → Option String → Option String
completed event before = if event.complete then event.timestamp else before

abbrev pub refreshed : TurnDiff → Option String → Option String
refreshed event before = if event.refresh_timestamp then event.timestamp else before

abbrev pub text_diff_matches : TurnDiff → RunBlock → Bool
text_diff_matches event (RunBlock.text b) = same_item b.item_id event.item_id
text_diff_matches event _ = false

abbrev pub make_text_diff_block : TurnDiff → Text → RunBlock
make_text_diff_block event value = RunBlock.text (record {
  item_id = some event.item_id;
  content = value;
  timestamp = event.timestamp;
  completed_at = completed event none;
})

abbrev pub update_text_diff_block : TurnDiff → Text → RunBlock → RunBlock
update_text_diff_block event value (RunBlock.text b) = RunBlock.text (record b {
  content = value;
  timestamp = refreshed event b.timestamp;
  completed_at = completed event b.completed_at;
})
update_text_diff_block event value b = b

unfoldable pub apply_text_diff : TurnDiff → RunState → Option RunState
unfolding with_capped_blocks
apply_text_diff event next = elim event.text [
  | none ↦ none
  | some value ↦ some (
      with_capped_blocks next
        (upsert_snapshot_block (mark_thinking_inactive next.blocks) (text_diff_matches event)
          (make_text_diff_block event value) (update_text_diff_block event value)
          (not event.complete))
        (some RunFooter.streaming))
]

abbrev pub reasoning_diff_matches : TurnDiff → RunBlock → Bool
reasoning_diff_matches event (RunBlock.thinking b) = same_item b.item_id event.item_id
reasoning_diff_matches event _ = false

abbrev pub make_reasoning_diff_block : TurnDiff → Text → RunBlock
make_reasoning_diff_block event value = RunBlock.thinking (record {
  item_id = some event.item_id;
  content = keep_tail_marked value max_reasoning_chars;
  active = not event.complete;
  timestamp = event.timestamp;
  completed_at = completed event none;
})

abbrev pub update_reasoning_diff_block : TurnDiff → Text → RunBlock → RunBlock
update_reasoning_diff_block event value (RunBlock.thinking b) = RunBlock.thinking (record b {
  content = keep_tail_marked value max_reasoning_chars;
  active = not event.complete;
  timestamp = refreshed event b.timestamp;
  completed_at = completed event b.completed_at;
})
update_reasoning_diff_block event value b = b

unfoldable pub apply_reasoning_diff : TurnDiff → RunState → Option RunState
unfolding with_capped_blocks
apply_reasoning_diff event next = elim event.reasoning [
  | none ↦ none
  | some value ↦ some (
      with_capped_blocks next
        (upsert_snapshot_block next.blocks (reasoning_diff_matches event)
          (make_reasoning_diff_block event value) (update_reasoning_diff_block event value)
          (not event.complete))
        (some RunFooter.thinking))
]

abbrev pub tool_diff_status : TurnDiff → ToolStatus → ToolStatus
tool_diff_status event other =
    if event.complete then or_else event.tool_status ToolStatus.ok else other

-- `as_record` gives the keys of the JSON object that a text holds, as `JSON.parse` reads it.
module _ (as_record : Text → Option (List Text)) where
  abbrev pub make_tool_diff_block : TurnDiff → Text → RunBlock
  make_tool_diff_block event value = RunBlock.tool (record {
    id = event.item_id;
    name = or_else event.tool_name (lit "command");
    input = truncate_detail (or_else event.tool_input (lit "{}"));
    parsed_input = as_record (truncate_detail (or_else event.tool_input (lit "{}")));
    output = some (keep_tail value max_tool_detail_chars);
    status = tool_diff_status event ToolStatus.running;
    started_at = event.timestamp;
    completed_at = completed event none;
    tool_hint = event.tool_hint;
    summary = none;
  })

abbrev pub update_tool_diff_block : TurnDiff → Text → RunBlock → RunBlock
update_tool_diff_block event value (RunBlock.tool t) = RunBlock.tool (record t {
  output = some (keep_tail value max_tool_detail_chars);
  status = tool_diff_status event t.status;
  completed_at = completed event t.completed_at;
})
update_tool_diff_block event value b = b

module _ (as_record : Text → Option (List Text)) where
  unfoldable pub apply_tool_diff : TurnDiff → RunState → Option RunState
  unfolding with_capped_blocks
  apply_tool_diff event next = elim event.tool_output [
    | none ↦ none
    | some value ↦ some (
        with_capped_blocks next
          (upsert_snapshot_block next.blocks (is_tool event.item_id)
            (make_tool_diff_block as_record event value) (update_tool_diff_block event value)
            (not event.complete))
          (some RunFooter.tool_running))
  ]

abbrev pub plan_diff_matches : TurnDiff → RunBlock → Bool
plan_diff_matches event (RunBlock.plan b) = same_item b.item_id event.item_id
plan_diff_matches event _ = false

abbrev pub make_plan_diff_block : TurnDiff → Text → RunBlock
make_plan_diff_block event new_plan = RunBlock.plan (record {
  item_id = some event.item_id;
  content = new_plan;
  active = not event.complete;
  timestamp = event.timestamp;
  completed_at = completed event none;
})

abbrev pub update_plan_diff_block : TurnDiff → Text → RunBlock → RunBlock
update_plan_diff_block event new_plan (RunBlock.plan b) = RunBlock.plan (record b {
  content = new_plan;
  active = not event.complete;
  completed_at = completed event b.completed_at;
})
update_plan_diff_block event new_plan b = b

unfoldable pub apply_plan_diff : TurnDiff → RunState → Option RunState
unfolding with_capped_blocks
apply_plan_diff event next = elim event.plan [
  | none ↦ none
  | some value ↦
      let new_plan = keep_tail_marked value (max_reasoning_chars * 2) in
      some (
        with_capped_blocks (record next { plan = some new_plan })
          (upsert_snapshot_block next.blocks (plan_diff_matches event)
            (make_plan_diff_block event new_plan) (update_plan_diff_block event new_plan)
            (not event.complete))
          none)
]

abbrev pub operation_of : ChangeKind → Operation
operation_of ChangeKind.add = Operation.create
operation_of ChangeKind.delete = Operation.delete
operation_of ChangeKind.update = Operation.edit

abbrev pub make_file_change_block : TurnDiff → FileDiff → RunBlock
make_file_change_block event fc = RunBlock.file_change (record {
  item_id = some event.item_id;
  path = fc.path;
  operation = operation_of fc.kind;
  diff = fc.diff;
  timestamp = event.timestamp;
  completed_at = completed event none;
})

abbrev pub file_change_matches : TurnDiff → FileDiff → RunBlock → Bool
file_change_matches event fc (RunBlock.file_change b) =
    same_item b.item_id event.item_id && str_eq b.path fc.path
file_change_matches event fc _ = false

unfoldable pub apply_file_changes : TurnDiff → List FileDiff → List RunBlock → List RunBlock
apply_file_changes event [] blocks = blocks
apply_file_changes event (fc ∷ fcs) blocks = apply_file_changes event fcs (
    upsert_snapshot_block blocks (file_change_matches event fc) (make_file_change_block event fc)
      (λ _. make_file_change_block event fc) (not event.complete))

unfoldable pub apply_file_changes_diff : TurnDiff → RunState → Option RunState
unfolding with_capped_blocks
apply_file_changes_diff event next = elim event.file_changes [
  | none ↦ none
  | some changes ↦
      some (with_capped_blocks next (apply_file_changes event changes next.blocks) none)
]

-- The state so far: the one given, until an applier returns another.
abbrev pub apply_next : (RunState → Option RunState) → RunState → Option RunState → Option RunState
apply_next applier state next = elim (applier (or_else next state)) [
  | none ↦ next
  | some s ↦ some s
]

module _ (as_record : Text → Option (List Text)) where
  unfoldable pub reduce_turn_diff_event : TurnDiff → RunState → Option RunState
  reduce_turn_diff_event event state = apply_next (apply_file_changes_diff event) state (
      apply_next (apply_plan_diff event) state (
        apply_next (apply_tool_diff as_record event) state
          (apply_next (apply_reasoning_diff event) state (apply_text_diff event state))))
