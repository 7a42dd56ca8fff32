-- ===== src/RunState/Capped.antt =====
-- The block list of a run card stays within its cap: events and `finishRun`.
use lark_remote.Common.{
  ℕ, Text, String, List, [], ◌∷◌, Option, none, some, ◌≡◌, refl, arith, Bool-cases, Option-cases,
  inl, inr,
}
use lark_remote.RunState.Types.{
  RunState, RunTerminal, AnswerSource, AgentEvent, TurnDiff, AssistantContent, ToolEntry,
}
use lark_remote.RunState.Blocks.{mark_thinking_inactive}
use lark_remote.RunState.TurnDiff.{
  apply_reasoning_diff, apply_tool_diff, apply_plan_diff, apply_file_changes_diff,
  reduce_turn_diff_event,
}
use lark_remote.RunState.Content.{
  update_tool, add_tool_use, add_content, add_contents, reduce_assistant_event,
  reduce_tool_result_event, has_tool, merge_tool_use,
}
use lark_remote.RunState.Answer.{promote_final_answer}
use lark_remote.RunState.Reduce.{
  reduce_plan_event, reduce_file_change_event, reduce_event, reduce_run_state_inner,
  reduce_run_state, FinishMeta, apply_meta, finish_run, reduce_run_status_event,
  reduce_compact_boundary,
}
use lark_remote.RunState.Approvals.{
  reduce_approval_requested_event, reduce_approval_resolved_event,
  reduce_approval_view_updated_event, reduce_approval_expired_event,
}
use lark_remote.RunState.Bounds.{
  IsCapped, CappedOption, promote-le, length-cap, length-quiet, keep_latest-le,
  with_capped_blocks-le, text-Capped, reasoning-Capped, plan-Capped, changes-Capped, then-Capped,
  results-Capped, final-Capped, result_event-Capped,
}

module _ (as_record : Text → Option (List Text)) where
  tool-Capped : (event : TurnDiff) (s : RunState) → CappedOption (apply_tool_diff as_record event s)
  unfolding apply_tool_diff
  tool-Capped event s = elim (Option-cases event.tool_output) [
    | inl e ↦ rw (e, apply_tool_diff) tt
    | inr (value, e) ↦ rw (e, apply_tool_diff) (search with_capped_blocks-le)
  ]

  turn_diff-Capped :
      (event : TurnDiff) (s : RunState) → CappedOption (reduce_turn_diff_event as_record event s)
  unfolding reduce_turn_diff_event
  turn_diff-Capped event s =
      then-Capped s _ (apply_file_changes_diff event) (changes-Capped event) (
        then-Capped s _ (apply_plan_diff event) (plan-Capped event) (
          then-Capped s _ (apply_tool_diff as_record event) (tool-Capped event) (
            then-Capped s _ (apply_reasoning_diff event) (reasoning-Capped event)
              (text-Capped event s))))

  tool_use-Capped : (t : ToolEntry) (s : RunState) → IsCapped (add_tool_use as_record t s)
  unfolding add_tool_use
  tool_use-Capped t s = elim (Bool-cases (has_tool t.id (mark_thinking_inactive s.blocks))) [
    | inl e ↦
        rw (e, add_tool_use)
          (keep_latest-le
            (update_tool t.id (λ x. merge_tool_use x t) (mark_thinking_inactive s.blocks)))
    | inr e ↦ rw (e, add_tool_use) (search with_capped_blocks-le)
  ]

  content-Capped :
      (c : AssistantContent) (ts : Option String) (s : RunState)
      → IsCapped (add_content as_record c ts s)
  unfolding add_content
  content-Capped (AssistantContent.thinking value id) ts s = search with_capped_blocks-le
  content-Capped (AssistantContent.text value) ts s = search with_capped_blocks-le
  content-Capped (AssistantContent.tool_use id name input summary) ts s = tool_use-Capped _ s

  contents-Capped :
      (cs : List AssistantContent) (ts : Option String) (s : RunState)
      → IsCapped s
      → IsCapped (add_contents as_record cs ts s)
  contents-Capped [] ts s h = h
  contents-Capped (c ∷ cs) ts s h = contents-Capped cs ts _ (content-Capped c ts s)

  assistant-Capped :
      (cs : List AssistantContent) (ts : Option String) (s : RunState)
      → IsCapped s
      → CappedOption (reduce_assistant_event as_record cs ts s)
  unfolding reduce_assistant_event
  assistant-Capped [] ts s h = tt
  assistant-Capped (c ∷ cs) ts s h = contents-Capped (c ∷ cs) ts s h

  event-Capped :
      (e : AgentEvent) (s : RunState) → IsCapped s → CappedOption (reduce_event as_record e s)
  unfolding reduce_event reduce_run_status_event reduce_compact_boundary
      reduce_approval_requested_event reduce_approval_resolved_event
      reduce_approval_view_updated_event reduce_approval_expired_event reduce_plan_event
      reduce_file_change_event reduce_tool_result_event
  event-Capped (AgentEvent.system_init id model) s h = h
  event-Capped (AgentEvent.compact_boundary none) s h = tt
  event-Capped (AgentEvent.compact_boundary (some n)) s h = h
  event-Capped (AgentEvent.run_status live) s h = h
  event-Capped (AgentEvent.goal_state goal known) s h = h
  event-Capped (AgentEvent.background_jobs jobs) s h = h
  event-Capped (AgentEvent.result subtype message final_text cost) s h =
      result_event-Capped subtype message final_text cost s h
  event-Capped (AgentEvent.final_answer value item_id complete ts) s h =
      final-Capped value item_id complete ts s h
  event-Capped (AgentEvent.assistant contents ts) s h = assistant-Capped contents ts s h
  event-Capped (AgentEvent.user contents ts) s h = results-Capped contents ts s none h tt
  event-Capped (AgentEvent.plan value ts) s h = search with_capped_blocks-le
  event-Capped (AgentEvent.file_change path diff operation ts) s h = search with_capped_blocks-le
  event-Capped (AgentEvent.notice notice) s h = h
  event-Capped (AgentEvent.session_info title mode) s h = h
  event-Capped (AgentEvent.turn_started kind) s h = h
  event-Capped (AgentEvent.turn_diff event) s h = turn_diff-Capped event s
  event-Capped (AgentEvent.approval_requested id view) s h = h
  event-Capped (AgentEvent.approval_resolved id) s h = h
  event-Capped (AgentEvent.approval_view_updated id view) s h = h
  event-Capped (AgentEvent.approval_expired id) s h = h
  event-Capped AgentEvent.other s h = tt

  inner-Capped :
      (e : AgentEvent) (s : RunState)
      → IsCapped s
      → CappedOption (reduce_run_state_inner as_record s e)
  unfolding reduce_run_state_inner
  inner-Capped e s h = ground (arith, event-Capped e s h)

  pub reduce-IsCapped :
      (e : AgentEvent) (s : RunState) → IsCapped s → IsCapped (reduce_run_state as_record s e)
  unfolding reduce_run_state
  reduce-IsCapped e s h = go (reduce_run_state_inner as_record s e) refl (inner-Capped e s h)
    where
      go :
          (o : Option RunState)
          → reduce_run_state_inner as_record s e ≡ o
          → CappedOption o
          → IsCapped (reduce_run_state as_record s e)
      go none eq k = rw (eq, reduce_run_state) h
      go (some t) eq k = rw (eq, reduce_run_state) (omega (arith, length-cap t.blocks))

pub finish-IsCapped :
    (now : ℕ) (s : RunState) (terminal : RunTerminal) (meta : FinishMeta)
    → IsCapped s
    → IsCapped (finish_run now s terminal meta)
unfolding finish_run apply_meta
finish-IsCapped now s terminal meta h = ground (
  arith,
  promote-le s AnswerSource.inferred none,
  length-quiet (promote_final_answer s AnswerSource.inferred none).blocks,
)
