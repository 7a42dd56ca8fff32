-- ===== src/RunState/Reduce.antt =====
-- `reduceRunState` and `finishRun` of src/card/run-state.ts. A reducer returns `none` where the
-- source returns the state it was given.
use lark_remote.Common.{
  ℕ, ◌+◌, ◌*◌, Text, String, Bool, true, false, ◌&&◌, List, [], ◌∷◌, ◌++◌, filter, Option, none,
  some, or_else, not, if◌then◌else◌,
}
use lark_remote.RunState.Types.{
  Job, RunNotice, RunBlock, RunState, RunFooter, RunTerminal, InterruptedReason, ResultSubtype,
  AnswerSource, Operation, LiveStatus, Usage, AgentEvent,
}
use lark_remote.RunState.Marks.{keep_tail_marked}
use lark_remote.RunState.Blocks.{
  first_of, max_reasoning_chars, is_plan, is_run_terminal, mark_thinking_inactive,
  with_capped_blocks, cap_stale_text_blocks,
}
use lark_remote.RunState.TurnDiff.{reduce_turn_diff_event}
use lark_remote.RunState.Content.{reduce_assistant_event, reduce_tool_result_event}
use lark_remote.RunState.Answer.{
  promote_final_answer, reduce_result_event, reduce_final_answer_event,
}
use lark_remote.RunState.Approvals.{
  reduce_approval_requested_event, reduce_approval_resolved_event,
  reduce_approval_view_updated_event, reduce_approval_expired_event,
}

abbrev pub empty_usage : Usage
empty_usage = record {
  context_length = none;
  context_limit = none;
  compact_count = none;
  total_tokens = none;
}

-- A list or a flag that the source leaves out is empty or false.
abbrev pub create_initial_run_state : ℕ → String → RunState
create_initial_run_state now run_id = record {
  run_id = run_id;
  terminal = RunTerminal.running;
  footer = some RunFooter.thinking;
  started_at = some now;
  finished_at = none;
  blocks = [];
  final_answer = none;
  session_id = none;
  result_subtype = none;
  interrupted_reason = none;
  error_msg = none;
  idle_timeout_minutes = none;
  plan = none;
  model = none;
  cost_usd = none;
  notices = [];
  omitted_blocks = 0;
  session_title = none;
  mode = none;
  operation_kind = none;
  approvals = [];
  approval_expired = false;
  live_status = none;
  background_jobs = [];
  goal = none;
  goal_known = none;
  usage = empty_usage;
}

abbrev pub merge_live : Option LiveStatus → LiveStatus → LiveStatus
merge_live none event = event
merge_live (some prev) event = record {
  context_used = first_of event.context_used prev.context_used;
  context_limit = first_of event.context_limit prev.context_limit;
  steps = first_of event.steps prev.steps;
  tool_ms = first_of event.tool_ms prev.tool_ms;
}

unfoldable pub reduce_run_status_event : LiveStatus → RunState → RunState
reduce_run_status_event event state =
    let live = merge_live state.live_status event in
    record state {
      live_status = some live;
      usage = record state.usage {
        context_limit = first_of live.context_limit state.usage.context_limit;
      };
    }

unfoldable pub reduce_compact_boundary : Option ℕ → RunState → RunState
reduce_compact_boundary post_tokens state = record state {
  usage = record state.usage {
    context_length = post_tokens;
    compact_count = some (or_else state.usage.compact_count 0 + 1);
  };
}

-- The line break is code unit 10.
unfoldable pub reduce_plan_event : Text → Option String → RunState → RunState
unfolding with_capped_blocks
reduce_plan_event value ts state =
    let new_plan =
      keep_tail_marked (or_else state.plan [] ++ 10 ∷ value) (max_reasoning_chars * 2) in
    with_capped_blocks (record state { plan = some new_plan })
      (filter (λ b. not (is_plan b)) state.blocks
        ++ RunBlock.plan (record {
          item_id = none;
          content = new_plan;
          active = true;
          timestamp = ts;
          completed_at = none;
        })
          ∷ [])
      none

unfoldable pub reduce_file_change_event :
    String → Option Text → Operation → Option String → RunState → RunState
unfolding with_capped_blocks
reduce_file_change_event path diff operation ts state =
    with_capped_blocks state
      (state.blocks
        ++ RunBlock.file_change (record {
          item_id = none;
          path = path;
          operation = operation;
          diff = diff;
          timestamp = ts;
          completed_at = none;
        })
          ∷ [])
      none

abbrev pub reduce_system_init : String → String → RunState → RunState
reduce_system_init id model state = record state {
  session_id = some id;
  model = some model;
  footer = some RunFooter.thinking;
}

abbrev pub reduce_goal_state_event : Option ℕ → Bool → RunState → RunState
reduce_goal_state_event goal known state = record state { goal = goal; goal_known = some known }

abbrev pub reduce_background_jobs_event : List Job → RunState → RunState
reduce_background_jobs_event jobs state = record state { background_jobs = jobs }

abbrev pub reduce_notice_event : RunNotice → RunState → RunState
reduce_notice_event notice state = record state { notices = state.notices ++ notice ∷ [] }

abbrev pub reduce_session_info_event : Option Text → Option String → RunState → RunState
reduce_session_info_event title mode state = record state {
  session_title = first_of title state.session_title;
  mode = first_of mode state.mode;
}

abbrev pub reduce_turn_started_event : ℕ → RunState → RunState
reduce_turn_started_event kind state = record state {
  operation_kind = some kind;
  footer = first_of state.footer (some RunFooter.thinking);
}

-- The reducer that the type of an event selects.
module _ (as_record : Text → Option (List Text)) where
  unfoldable pub reduce_event : AgentEvent → RunState → Option RunState
  unfolding reduce_run_status_event reduce_compact_boundary reduce_plan_event
      reduce_file_change_event reduce_turn_diff_event reduce_assistant_event
      reduce_tool_result_event reduce_result_event reduce_final_answer_event
      reduce_approval_requested_event reduce_approval_resolved_event
      reduce_approval_view_updated_event reduce_approval_expired_event
  reduce_event (AgentEvent.system_init id model) state = some (reduce_system_init id model state)
  reduce_event (AgentEvent.compact_boundary (some tokens)) state =
      some (reduce_compact_boundary (some tokens) state)
  reduce_event (AgentEvent.compact_boundary none) state = none
  reduce_event (AgentEvent.run_status live) state = some (reduce_run_status_event live state)
  reduce_event (AgentEvent.goal_state goal known) state =
      some (reduce_goal_state_event goal known state)
  reduce_event (AgentEvent.background_jobs jobs) state =
      some (reduce_background_jobs_event jobs state)
  reduce_event (AgentEvent.result subtype message final_text cost) state =
      reduce_result_event subtype message final_text cost state
  reduce_event (AgentEvent.final_answer value item_id complete ts) state =
      reduce_final_answer_event value item_id complete ts state
  reduce_event (AgentEvent.assistant contents ts) state =
      reduce_assistant_event as_record contents ts state
  reduce_event (AgentEvent.user contents ts) state = reduce_tool_result_event contents ts state
  reduce_event (AgentEvent.plan value ts) state = some (reduce_plan_event value ts state)
  reduce_event (AgentEvent.file_change path diff operation ts) state =
      some (reduce_file_change_event path diff operation ts state)
  reduce_event (AgentEvent.notice notice) state = some (reduce_notice_event notice state)
  reduce_event (AgentEvent.session_info title mode) state =
      some (reduce_session_info_event title mode state)
  reduce_event (AgentEvent.turn_started kind) state = some (reduce_turn_started_event kind state)
  reduce_event (AgentEvent.turn_diff event) state = reduce_turn_diff_event as_record event state
  reduce_event (AgentEvent.approval_requested id view) state =
      some (reduce_approval_requested_event id view state)
  reduce_event (AgentEvent.approval_resolved id) state =
      some (reduce_approval_resolved_event id state)
  reduce_event (AgentEvent.approval_view_updated id view) state =
      some (reduce_approval_view_updated_event id view state)
  reduce_event (AgentEvent.approval_expired id) state =
      some (reduce_approval_expired_event id state)
  reduce_event AgentEvent.other state = none

  unfoldable pub reduce_run_state_inner : RunState → AgentEvent → Option RunState
  unfolding is_run_terminal
  reduce_run_state_inner state event =
      if is_run_terminal state.terminal then none else reduce_event event state

  unfoldable pub reduce_run_state : RunState → AgentEvent → RunState
  unfolding reduce_run_state_inner
  reduce_run_state state event = elim (reduce_run_state_inner state event) [
    | none ↦ state
    | some next ↦ record next { blocks = cap_stale_text_blocks next.blocks }
  ]

pub record FinishMeta : Type 0 where
  pub usage : Usage
  pub result_subtype : Option ResultSubtype
  pub interrupted_reason : Option InterruptedReason
  pub error_msg : Option Text
  pub idle_timeout_minutes : Option ℕ

-- `sanitizeMeta`, spread over the state: a field that is missing keeps what the state has.
unfoldable pub apply_meta : FinishMeta → RunState → RunState
apply_meta meta state = record state {
  usage = record {
    context_length = first_of meta.usage.context_length state.usage.context_length;
    context_limit = first_of meta.usage.context_limit state.usage.context_limit;
    compact_count = first_of meta.usage.compact_count state.usage.compact_count;
    total_tokens = first_of meta.usage.total_tokens state.usage.total_tokens;
  };
  result_subtype = first_of meta.result_subtype state.result_subtype;
  interrupted_reason = first_of meta.interrupted_reason state.interrupted_reason;
  error_msg = first_of meta.error_msg state.error_msg;
  idle_timeout_minutes = first_of meta.idle_timeout_minutes state.idle_timeout_minutes;
}

abbrev pub is_interrupted : RunTerminal → Bool
is_interrupted RunTerminal.interrupted = true
is_interrupted _ = false

abbrev pub derived_reason : FinishMeta → RunTerminal → RunState → Option InterruptedReason
derived_reason meta terminal state = first_of meta.interrupted_reason (
    if is_interrupted terminal && state.approval_expired
    then some InterruptedReason.approval_timeout
    else none)

-- `now` is what `Date.now()` returns.
unfoldable pub finish_run : ℕ → RunState → RunTerminal → FinishMeta → RunState
unfolding promote_final_answer apply_meta is_run_terminal
finish_run now state terminal meta =
    let s = promote_final_answer state AnswerSource.inferred none in
    if is_run_terminal s.terminal
    then apply_meta meta s
    else let s' = apply_meta meta s in
      record s' {
        terminal = terminal;
        footer = none;
        finished_at = some (or_else s.finished_at now);
        blocks = mark_thinking_inactive s.blocks;
        interrupted_reason = first_of (derived_reason meta terminal s) s'.interrupted_reason;
      }
