-- ===== src/RunState/Tests.antt =====
-- Run cards on concrete histories.
use lark_remote.Common.{
  false, ℕ, zero, suc, ◌≤◌, Text, lit, String, true, List, [], ◌∷◌, ◌++◌, Option, none, some,
  length, trim, ◌≡◌, refl, inl, arith, strip_prefix?,
}
use lark_remote.RunState.Types.{
  TurnDiff, RunBlock, RunState, RunTerminal, ResultSubtype, AgentEvent, AssistantContent,
  FinalAnswer, ToolEntry, Job, ApprovalView, RequestId, ToolStatus,
}
use lark_remote.RunState.Decimal.{digits}
use lark_remote.RunState.Marks.{mark, read_mark, next_total, total_dropped, keep_tail_marked}
use lark_remote.RunState.MarkLaws.{
  Stored, keep_tail_marked-Stored, total_dropped_lem, read_mark-mark,
}
use lark_remote.RunState.Blocks.{is_run_terminal}
use lark_remote.RunState.Jobs.{sync_jobs}
use lark_remote.RunState.Reduce.{create_initial_run_state, empty_usage, FinishMeta, finish_run}
use lark_remote.RunState.Verdict.{IsActive, reduce_all, verdict}
use lark_remote.RunState.Bounds.{IsCapped}
use lark_remote.RunState.Life.{
  receives, finishes, syncs, card_step, card_steps, start, next, Reach-IsCapped, SameEnd,
  end_is_final,
}
use lark_remote.RunState.AnswerLaws.{stream, streamed_answer}
use lark_remote.RunState.ApprovalLaws.{OnePerRequest}
use lark_remote.RunState.ApprovalEvents.{approvals_stay_apart}
use lark_remote.RunState.JobLaws.{sync_jobs_twice}
use lark_remote.RunState.JobEnd.{shows_ended, job_steps, loses_watch, ended_stays}
use lark_remote.RunState.TurnDiff.{make_text_diff_block}

-- Only the empty record parses.
abbrev no_keys : Text → Option (List Text)
no_keys [] = none
no_keys (c ∷ cs) = some []

abbrev no_meta : FinishMeta
no_meta = record {
  usage = empty_usage;
  result_subtype = none;
  interrupted_reason = none;
  error_msg = none;
  idle_timeout_minutes = none;
}

abbrev fresh : RunState
fresh = create_initial_run_state 7 "run"

abbrev ended : RunState
ended = record fresh { terminal = RunTerminal.done; finished_at = some 9 }

abbrev hello : AgentEvent
hello = AgentEvent.assistant (AssistantContent.text (lit "hi") ∷ []) none

end_is_final_example : SameEnd ended (
    card_steps no_keys
      (receives hello ∷ finishes 12 RunTerminal.error no_meta ∷ syncs [] ∷ [])
      ended)
unfolding is_run_terminal
end_is_final_example =
    end_is_final no_keys (receives hello ∷ finishes 12 RunTerminal.error no_meta ∷ syncs [] ∷ [])
      ended refl

Reach-IsCapped_example : IsCapped (card_step no_keys (receives hello) fresh)
Reach-IsCapped_example = Reach-IsCapped no_keys (next (start 7 "run") (receives hello))

abbrev joined : RunState
joined = record fresh { session_id = some "s" }

abbrev results : List AgentEvent
results =
    AgentEvent.result ResultSubtype.error (some (lit "first")) none none
    ∷ hello
    ∷ AgentEvent.result ResultSubtype.success none none none
    ∷ AgentEvent.result ResultSubtype.error (some (lit "second")) none none
    ∷ []

verdict_example :
    let t = reduce_all no_keys results joined in
    IsActive t × (t.result_subtype ≡ some ResultSubtype.error) × (t.error_msg ≡ some (lit "first"))
unfolding is_run_terminal
verdict_example = verdict no_keys results joined (refl, refl)

abbrev pieces : List (Text × Option String)
pieces = (lit "Hel", none) ∷ (lit "lo", none) ∷ []

streamed_answer_example :
    (a : FinalAnswer) × ((finish_run 12
        (stream no_keys pieces fresh)
        RunTerminal.done
        no_meta).final_answer
      ≡ some a)
    × (a.content ≡ lit "Hello")
    × (a.complete ≡ true)
unfolding trim is_run_terminal
streamed_answer_example =
    streamed_answer no_keys pieces fresh 12 RunTerminal.done no_meta (refl, refl) refl

abbrev view : ApprovalView
view = record { request_id = RequestId.num 1; shown = 3 }

abbrev asks : List AgentEvent
asks =
    AgentEvent.approval_requested (RequestId.num 1) view
    ∷ AgentEvent.approval_expired (RequestId.num 1)
    ∷ AgentEvent.approval_requested (RequestId.num 1) view
    ∷ []

approvals_stay_apart_example : OnePerRequest (reduce_all no_keys asks fresh).approvals
approvals_stay_apart_example = approvals_stay_apart no_keys asks fresh (refl, (tt, (refl, tt))) tt

abbrev job : String → Option String → Job
job id status = record { id = id; label = lit "build"; status = status; progress = none }

sync_jobs_twice_example :
    let roster = job "a" none ∷ job "b" (some "running") ∷ [] in
    let once = sync_jobs (job "c" none ∷ job "a" (some "running") ∷ []) roster in
    sync_jobs once roster ≡ once
sync_jobs_twice_example =
    sync_jobs_twice (job "c" none ∷ job "a" (some "running") ∷ [])
      (job "a" none ∷ job "b" (some "running") ∷ []) (refl, (refl, tt))

abbrev watched : RunState
watched = record ended { background_jobs = job "a" (some "ended") ∷ job "b" none ∷ [] }

ended_stays_example :
    shows_ended "a"
      (job_steps
        (lark_remote.RunState.JobEnd.syncs (job "a" (some "running") ∷ []) ∷ loses_watch ∷ [])
        watched).background_jobs
    ≡ true
ended_stays_example =
    ended_stays
      (lark_remote.RunState.JobEnd.syncs (job "a" (some "running") ∷ []) ∷ loses_watch ∷ []) "a"
      watched refl

abbrev listed : ToolEntry
listed = record {
  id = "t";
  name = lit "bash";
  input = lit "ls";
  parsed_input = none;
  output = some (lit "out");
  status = ToolStatus.ok;
  started_at = none;
  completed_at = some "now";
  tool_hint = none;
  summary = none;
}

abbrev tooled : RunState
tooled = record fresh { blocks = RunBlock.tool listed ∷ [] }

abbrev dots : ℕ → Text
dots zero = []
dots (suc n) = 46 ∷ dots n

keep_tail_marked-Stored_example :
    let out = keep_tail_marked (dots 30 ++ dots 10) 16 in
    Stored (dots 30 ++ dots 10) out × (length out ≤ 16)
unfolding read_mark strip_prefix? digits
keep_tail_marked-Stored_example =
    keep_tail_marked-Stored (dots 30) (dots 30) (dots 10) 16 (inl refl) refl (omega arith)

total_dropped_lem_example :
    (next_total 5 40 16 (total_dropped 5 40 16) ≡ total_dropped 5 40 16)
    × ((m : ℕ) → next_total 5 40 16 m ≤ m → total_dropped 5 40 16 ≤ m)
total_dropped_lem_example = total_dropped_lem 5 40 16

read_mark-mark_example : read_mark (mark 120 (lit "tail")) ≡ some (120, lit "tail")
read_mark-mark_example = read_mark-mark 120 (lit "tail")

abbrev snapshot : TurnDiff
snapshot = record {
  item_id = "i";
  text = some (lit "new");
  reasoning = none;
  tool_output = none;
  plan = none;
  file_changes = none;
  complete = false;
  refresh_timestamp = false;
  tool_status = none;
  tool_name = none;
  tool_input = none;
  tool_hint = none;
  timestamp = none;
}

abbrev shown_blocks : List RunBlock
shown_blocks = make_text_diff_block snapshot (lit "old") ∷ RunBlock.tool listed ∷ []
