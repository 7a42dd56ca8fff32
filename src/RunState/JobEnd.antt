-- ===== src/RunState/JobEnd.antt =====
-- The end of a background job is final.
use lark_remote.Common.{
  String, Bool, true, ◌&&◌, List, [], ◌∷◌, ◌++◌, map, any, Option, none, some, ◌≡◌, refl, arith,
  str_eq, if◌then◌else◌, Bool-cases, inl, inr,
}
use lark_remote.RunState.Types.{Job, RunState}
use lark_remote.RunState.Jobs.{
  is_live_background_job, has_ended, sync_tracked_job, by_id, sync_jobs, sync_background_jobs,
  mark_background_jobs_unknown,
}
use lark_remote.RunState.JobLaws.{live-has_ended}

-- The card shows the job as ended.
abbrev pub shows_ended : String → List Job → Bool
shows_ended id jobs = any (λ job. str_eq job.id id && has_ended job) jobs

sync-stays :
    (job : Job) (row : Option Job)
    → has_ended job ≡ true
    → has_ended (sync_tracked_job job row) ≡ true
unfolding sync_tracked_job
sync-stays job none h = refl
sync-stays job (some row) h = rw h h

sync-id : (job : Job) (row : Option Job) → (sync_tracked_job job row).id ≡ job.id
unfolding sync_tracked_job
sync-id job none = refl
sync-id job (some row) = ground arith

any-left : (p : Job → Bool) (xs ys : List Job) → any p xs ≡ true → any p (xs ++ ys) ≡ true
any-left p [] ys h = ground arith
any-left p (x ∷ xs) ys h = ground (arith, any-left p xs ys)

-- A change of every job that keeps its id and its end keeps the end of each.
any-stays :
    (f : Job → Job) (id : String) (jobs : List Job)
    → ((job : Job) → (f job).id ≡ job.id)
    → ((job : Job) → has_ended job ≡ true → has_ended (f job) ≡ true)
    → shows_ended id jobs ≡ true
    → shows_ended id (map f jobs) ≡ true
any-stays f id [] h k e = e
any-stays f id (job ∷ jobs) h k e = elim (Bool-cases (str_eq job.id id && has_ended job)) [
  | inl here ↦ rw (h job) (ground (arith, k job))
  | inr there ↦ rw (h job) (ground (arith, any-stays f id jobs h k))
]

pub data JobCall : Type 0 where
  syncs : List Job → JobCall
  loses_watch : JobCall

unfoldable pub job_step : JobCall → RunState → RunState
unfolding sync_background_jobs mark_background_jobs_unknown
job_step (syncs roster) s = sync_background_jobs s roster
job_step loses_watch s = mark_background_jobs_unknown s

abbrev pub job_steps : List JobCall → RunState → RunState
job_steps [] s = s
job_steps (c ∷ cs) s = job_steps cs (job_step c s)

unknown-stays :
    (job : Job)
    → has_ended job ≡ true
    → has_ended (if is_live_background_job job then record job { status = some "unknown" } else job)
      ≡ true
unknown-stays job h = elim (Bool-cases (is_live_background_job job)) [
  | inl live ↦ ground (arith, live-has_ended job live)
  | inr over ↦ rw over h
]

step-stays :
    (c : JobCall) (id : String) (s : RunState)
    → shows_ended id s.background_jobs ≡ true
    → shows_ended id (job_step c s).background_jobs ≡ true
unfolding job_step sync_background_jobs mark_background_jobs_unknown sync_jobs
step-stays (syncs roster) id s h =
    any-left _ (map (λ job. sync_tracked_job job (by_id job.id roster)) s.background_jobs) _ (
      any-stays (λ job. sync_tracked_job job (by_id job.id roster)) id s.background_jobs
        (λ job. sync-id job (by_id job.id roster)) (λ job. sync-stays job (by_id job.id roster)) h)
step-stays loses_watch id s h =
    any-stays _ id s.background_jobs (λ job. ground arith) unknown-stays h

-- A job that the card shows as ended stays ended, whatever rosters come and whenever the watch on
-- the host is lost: neither a row that says it runs nor the unknown mark brings it back.
pub ended_stays :
    (cs : List JobCall) (id : String) (s : RunState)
    → shows_ended id s.background_jobs ≡ true
    → shows_ended id (job_steps cs s).background_jobs ≡ true
ended_stays [] id s h = h
ended_stays (c ∷ cs) id s h = ended_stays cs id (job_step c s) (step-stays c id s h)
