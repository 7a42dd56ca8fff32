-- ===== src/RunState/Life.antt =====
-- The life of a run card: its events, its end, and the updates of its jobs after the end.
use lark_remote.Common.{
  ℕ, Text, String, true, false, List, [], ◌∷◌, Option, none, some, or_else, ◌≡◌, refl, ◌∙◌, arith,
  All,
}
use lark_remote.RunState.Types.{RunBlock, RunState, RunTerminal, AgentEvent, Job, AnswerSource}
use lark_remote.RunState.Blocks.{is_run_terminal, mark_thinking_inactive}
use lark_remote.RunState.Answer.{promote_final_answer}
use lark_remote.RunState.Jobs.{
  sync_background_jobs, mark_background_jobs_unknown, remove_background_job,
}
use lark_remote.RunState.Reduce.{
  reduce_run_state_inner, reduce_run_state, FinishMeta, apply_meta, finish_run,
  create_initial_run_state,
}
use lark_remote.RunState.Bounds.{IsCapped}
use lark_remote.RunState.Capped.{reduce-IsCapped, finish-IsCapped}

pub data CardCall : Type 0 where
  receives : AgentEvent → CardCall
  finishes : ℕ → RunTerminal → FinishMeta → CardCall
  syncs : List Job → CardCall
  loses_watch : CardCall
  removes : String → CardCall

-- What the end of a run fixes.
abbrev pub SameEnd : RunState → RunState → Type 0
SameEnd s t = (t.terminal ≡ s.terminal) × (t.finished_at ≡ s.finished_at)

promote-SameEnd :
    (s : RunState) (source : AnswerSource) (full : Option Text)
    → SameEnd s (promote_final_answer s source full)
unfolding promote_final_answer
promote-SameEnd s source full = ground arith

finish-SameEnd :
    (now : ℕ) (s : RunState) (terminal : RunTerminal) (meta : FinishMeta)
    → is_run_terminal s.terminal ≡ true
    → SameEnd s (finish_run now s terminal meta)
unfolding finish_run apply_meta
finish-SameEnd now s terminal meta h = ground (arith, promote-SameEnd s AnswerSource.inferred none)

frozen :
    (as_record : Text → Option (List Text)) (e : AgentEvent) (s : RunState)
    → is_run_terminal s.terminal ≡ true
    → reduce_run_state as_record s e ≡ s
unfolding reduce_run_state reduce_run_state_inner
frozen as_record e s h = rw (h, reduce_run_state) refl

module _ (as_record : Text → Option (List Text)) where
  unfoldable pub card_step : CardCall → RunState → RunState
  unfolding reduce_run_state finish_run sync_background_jobs mark_background_jobs_unknown
      remove_background_job
  card_step (receives e) s = reduce_run_state as_record s e
  card_step (finishes now terminal meta) s = finish_run now s terminal meta
  card_step (syncs roster) s = sync_background_jobs s roster
  card_step loses_watch s = mark_background_jobs_unknown s
  card_step (removes id) s = remove_background_job s id

  abbrev pub card_steps : List CardCall → RunState → RunState
  card_steps [] s = s
  card_steps (c ∷ cs) s = card_steps cs (card_step c s)

  -- The states of a card.
  pub data Reach : RunState → Type 0 where
    start : (now : ℕ) (run_id : String) → Reach (create_initial_run_state now run_id)
    next : {s : RunState} → Reach s → (c : CardCall) → Reach (card_step c s)

  step-IsCapped : (c : CardCall) (s : RunState) → IsCapped s → IsCapped (card_step c s)
  unfolding card_step sync_background_jobs mark_background_jobs_unknown remove_background_job
  step-IsCapped (receives e) s h = reduce-IsCapped as_record e s h
  step-IsCapped (finishes now terminal meta) s h = finish-IsCapped now s terminal meta h
  step-IsCapped (syncs roster) s h = h
  step-IsCapped loses_watch s h = h
  step-IsCapped (removes id) s h = h

  -- A card never holds more than 24 blocks, whatever the agent sends.
  pub Reach-IsCapped : {s : RunState} → Reach s → IsCapped s
  Reach-IsCapped (start now run_id) = omega arith
  Reach-IsCapped (next {s} r c) = step-IsCapped c s (Reach-IsCapped r)

  step-SameEnd :
      (c : CardCall) (s : RunState) → is_run_terminal s.terminal ≡ true → SameEnd s (card_step c s)
  unfolding card_step reduce_run_state reduce_run_state_inner sync_background_jobs
      mark_background_jobs_unknown remove_background_job
  step-SameEnd (receives e) s h = rw (frozen as_record e s h, card_step) (refl, refl)
  step-SameEnd (finishes now terminal meta) s h = finish-SameEnd now s terminal meta h
  step-SameEnd (syncs roster) s h = (refl, refl)
  step-SameEnd loses_watch s h = (refl, refl)
  step-SameEnd (removes id) s h = (refl, refl)

  -- The end of a run is final: once it is over, no series of events, of further finishes and of job
  -- updates changes how or when it ended.
  pub end_is_final :
      (cs : List CardCall) (s : RunState)
      → is_run_terminal s.terminal ≡ true
      → SameEnd s (card_steps cs s)
  end_is_final [] s h = (refl, refl)
  end_is_final (c ∷ cs) s h =
      let (a, b) = step-SameEnd c s h in
      let (x, y) = end_is_final cs (card_step c s) (rw a h) in (x ∙ a, y ∙ b)

-- No thinking block is shown as still going on.
abbrev pub IsQuiet : RunBlock → Type 0
IsQuiet (RunBlock.thinking b) = b.active ≡ false
IsQuiet _ = Unit

mark-IsQuiet : (bs : List RunBlock) → All IsQuiet (mark_thinking_inactive bs)
unfolding mark_thinking_inactive
mark-IsQuiet [] = tt
mark-IsQuiet (RunBlock.thinking b ∷ bs) = (refl, mark-IsQuiet bs)
mark-IsQuiet (RunBlock.text b ∷ bs) = (tt, mark-IsQuiet bs)
mark-IsQuiet (RunBlock.tool b ∷ bs) = (tt, mark-IsQuiet bs)
mark-IsQuiet (RunBlock.plan b ∷ bs) = (tt, mark-IsQuiet bs)
mark-IsQuiet (RunBlock.file_change b ∷ bs) = (tt, mark-IsQuiet bs)

-- A run that is open ends with the terminal given, at the time given unless a time was set before,
-- with no footer and with no thinking block left active.
pub finish_effect :
    (now : ℕ) (s : RunState) (terminal : RunTerminal) (meta : FinishMeta)
    → is_run_terminal s.terminal ≡ false
    → let t = finish_run now s terminal meta in
      (t.terminal ≡ terminal)
      × (t.footer ≡ none)
      × (t.finished_at ≡ some (or_else s.finished_at now))
      × All IsQuiet t.blocks
unfolding finish_run apply_meta
finish_effect now s terminal meta h =
    let (a, b) = promote-SameEnd s AnswerSource.inferred none in
    let open_still : is_run_terminal (promote_final_answer s AnswerSource.inferred none).terminal
        ≡ false =
      rw a h in
    rw (open_still, finish_run)
      (
        refl,
        refl,
        rw b refl,
        mark-IsQuiet (promote_final_answer s AnswerSource.inferred none).blocks,
      )
