-- ===== src/RunState/Frame.antt =====
-- What the content events of a run leave alone: all but the blocks, their count, the plan and the
-- footer.
use lark_remote.Common.{
  Text, String, Bool, List, [], ◌∷◌, Option, none, some, ◌≡◌, refl, ◌∙◌, arith,
}
use lark_remote.RunState.Types.{
  RunBlock, RunState, RunFooter, RunTerminal, FinalAnswer, ResultSubtype, Approval, Job, TurnDiff,
  AssistantContent, ToolResult, Operation,
}
use lark_remote.RunState.Blocks.{with_capped_blocks}
use lark_remote.RunState.TurnDiff.{
  apply_text_diff, apply_reasoning_diff, apply_tool_diff, apply_plan_diff, apply_file_changes_diff,
  apply_next, reduce_turn_diff_event,
}
use lark_remote.RunState.Content.{
  add_content, add_contents, reduce_assistant_event, add_tool_result, add_tool_results,
  reduce_tool_result_event,
}
use lark_remote.RunState.Reduce.{reduce_plan_event, reduce_file_change_event}

pub record Core : Type 0 where
  pub terminal : RunTerminal
  pub session_id : Option String
  pub result_subtype : Option ResultSubtype
  pub error_msg : Option Text
  pub final_answer : Option FinalAnswer
  pub approvals : List Approval
  pub approval_expired : Bool
  pub background_jobs : List Job

abbrev pub core : RunState → Core
core s = record {
  terminal = s.terminal;
  session_id = s.session_id;
  result_subtype = s.result_subtype;
  error_msg = s.error_msg;
  final_answer = s.final_answer;
  approvals = s.approvals;
  approval_expired = s.approval_expired;
  background_jobs = s.background_jobs;
}

-- The new state, if there is one, has the core of the old.
abbrev pub Keeps : RunState → Option RunState → Type 0
Keeps s none = Unit
Keeps s (some t) = core t ≡ core s

capped-Keeps :
    (s : RunState) (blocks : List RunBlock) (footer : Option RunFooter)
    → Keeps s (some (with_capped_blocks s blocks footer))
unfolding with_capped_blocks
capped-Keeps s blocks footer = refl

text-Keeps : (event : TurnDiff) (s : RunState) → Keeps s (apply_text_diff event s)
unfolding apply_text_diff
text-Keeps event s = ground arith

reasoning-Keeps : (event : TurnDiff) (s : RunState) → Keeps s (apply_reasoning_diff event s)
unfolding apply_reasoning_diff
reasoning-Keeps event s = ground arith

plan-Keeps : (event : TurnDiff) (s : RunState) → Keeps s (apply_plan_diff event s)
unfolding apply_plan_diff
plan-Keeps event s = ground arith

changes-Keeps : (event : TurnDiff) (s : RunState) → Keeps s (apply_file_changes_diff event s)
unfolding apply_file_changes_diff
changes-Keeps event s = ground arith

-- A second change of a state that may have changed once.
then-Keeps :
    (s : RunState) (next : Option RunState) (f : RunState → Option RunState)
    → ((t : RunState) → Keeps t (f t))
    → Keeps s next
    → Keeps s (apply_next f s next)
then-Keeps s none f h k = ground (arith, h s)
then-Keeps s (some t) f h k = ground (arith, h t)

module _ (as_record : Text → Option (List Text)) where
  tool-Keeps : (event : TurnDiff) (s : RunState) → Keeps s (apply_tool_diff as_record event s)
  unfolding apply_tool_diff
  tool-Keeps event s = ground arith

  pub turn_diff-Keeps :
      (event : TurnDiff) (s : RunState) → Keeps s (reduce_turn_diff_event as_record event s)
  unfolding reduce_turn_diff_event
  turn_diff-Keeps event s = then-Keeps s _ (apply_file_changes_diff event) (changes-Keeps event) (
      then-Keeps s _ (apply_plan_diff event) (plan-Keeps event) (
        then-Keeps s _ (apply_tool_diff as_record event) (tool-Keeps event) (
          then-Keeps s _ (apply_reasoning_diff event) (reasoning-Keeps event)
            (text-Keeps event s))))

  add_content-core :
      (c : AssistantContent) (ts : Option String) (s : RunState)
      → core (add_content as_record c ts s) ≡ core s
  unfolding add_content
  add_content-core (AssistantContent.thinking value id) ts s = refl
  add_content-core (AssistantContent.text value) ts s = refl
  add_content-core (AssistantContent.tool_use id name input summary) ts s = ground arith

  add_contents-core :
      (cs : List AssistantContent) (ts : Option String) (s : RunState)
      → core (add_contents as_record cs ts s) ≡ core s
  add_contents-core [] ts s = refl
  add_contents-core (c ∷ cs) ts s =
      add_contents-core cs ts (add_content as_record c ts s) ∙ add_content-core c ts s

  pub assistant-Keeps :
      (cs : List AssistantContent) (ts : Option String) (s : RunState)
      → Keeps s (reduce_assistant_event as_record cs ts s)
  unfolding reduce_assistant_event
  assistant-Keeps [] ts s = tt
  assistant-Keeps (c ∷ cs) ts s = add_contents-core (c ∷ cs) ts s

add_tool_result-Keeps :
    (c : ToolResult) (ts : Option String) (s : RunState) → Keeps s (add_tool_result c ts s)
unfolding add_tool_result
add_tool_result-Keeps c ts s = ground arith

add_tool_results-Keeps :
    (cs : List ToolResult) (ts : Option String) (s : RunState) (next : Option RunState)
    → Keeps s next
    → Keeps s (add_tool_results cs ts s next)
add_tool_results-Keeps [] ts s next k = k
add_tool_results-Keeps (c ∷ cs) ts s next k =
    add_tool_results-Keeps cs ts s _
      (then-Keeps s next (add_tool_result c ts) (add_tool_result-Keeps c ts) k)

pub user-Keeps :
    (cs : List ToolResult) (ts : Option String) (s : RunState)
    → Keeps s (reduce_tool_result_event cs ts s)
unfolding reduce_tool_result_event
user-Keeps cs ts s = add_tool_results-Keeps cs ts s none tt

pub plan_event-core :
    (value : Text) (ts : Option String) (s : RunState)
    → core (reduce_plan_event value ts s) ≡ core s
unfolding reduce_plan_event
plan_event-core value ts s = refl

pub file_change-core :
    (path : String) (diff : Option Text) (operation : Operation) (ts : Option String) (s : RunState)
    → core (reduce_file_change_event path diff operation ts s) ≡ core s
unfolding reduce_file_change_event
file_change-core path diff operation ts s = refl
