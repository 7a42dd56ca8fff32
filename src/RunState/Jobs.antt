-- ===== src/RunState/Jobs.antt =====
-- The background jobs of src/card/run-state.ts.
use lark_remote.Common.{
  String, Bool, true, false, List, [], ◌∷◌, ◌++◌, map, filter, any, Option, none, some, not,
  if◌then◌else◌, str_eq, ◌||◌,
}
use lark_remote.RunState.Types.{Job, RunState}
use lark_remote.RunState.Blocks.{first_of}
use lark_remote.RunState.Answer.{is_blank}

abbrev pub is_running_word : String → Bool
is_running_word status = str_eq status "running" || str_eq status "stopping"

unfoldable pub is_live_background_job : Job → Bool
is_live_background_job job = elim job.status [ none ↦ true | some status ↦ is_running_word status ]

abbrev pub bridge_job_status : String → String
bridge_job_status status = if is_running_word status then status else "ended"

abbrev pub has_ended : Job → Bool
has_ended job = elim job.status [ none ↦ false | some status ↦ str_eq status "ended" ]

unfoldable pub sync_tracked_job : Job → Option Job → Job
sync_tracked_job job none = record job { status = some "ended" }
sync_tracked_job job (some row) = if has_ended job then job else record job {
  label = if is_blank row.label then job.label else row.label;
  status = elim row.status [ none ↦ job.status | some status ↦ some (bridge_job_status status) ];
  progress = first_of row.progress job.progress;
}

-- `Map.get` after every row was set: the last row with the id.
abbrev pub by_id : String → List Job → Option Job
by_id id [] = none
by_id id (row ∷ rows) = first_of (by_id id rows) (if str_eq row.id id then some row else none)

abbrev pub is_tracked : List Job → String → Bool
is_tracked tracked id = any (λ job. str_eq job.id id) tracked

unfoldable pub collect_new_jobs : List Job → List Job → List Job
unfolding is_live_background_job
collect_new_jobs tracked roster =
    filter (λ row. if is_tracked tracked row.id then false else is_live_background_job row) roster

unfoldable pub sync_jobs : List Job → List Job → List Job
unfolding sync_tracked_job collect_new_jobs
sync_jobs tracked roster =
    map (λ job. sync_tracked_job job (by_id job.id roster)) tracked
    ++ collect_new_jobs tracked roster

unfoldable pub sync_background_jobs : RunState → List Job → RunState
unfolding sync_jobs
sync_background_jobs state roster = record state {
  background_jobs = sync_jobs state.background_jobs roster;
}

unfoldable pub mark_background_jobs_unknown : RunState → RunState
unfolding is_live_background_job
mark_background_jobs_unknown state = record state {
  background_jobs =
      map
        (λ job. if is_live_background_job job then record job { status = some "unknown" } else job)
        state.background_jobs;
}

unfoldable pub remove_background_job : RunState → String → RunState
remove_background_job state id = record state {
  background_jobs = filter (λ job. not (str_eq job.id id)) state.background_jobs;
}
