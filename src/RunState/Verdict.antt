-- ===== src/RunState/Verdict.antt =====
-- The results of a run: how several result events of one run are merged.
use lark_remote.Common.{
  sym, ℕ, Text, String, Bool, true, false, List, [], ◌∷◌, any, Option, none, some, is_some, ◌≡◌,
  refl, ap, ◌∙◌, arith, if◌then◌else◌, Option-cases, inl, inr,
}
use lark_remote.RunState.Types.{RunState, ResultSubtype, AgentEvent, AnswerSource}
use lark_remote.RunState.Blocks.{first_of, is_run_terminal}
use lark_remote.RunState.Answer.{
  merge_subtype, incoming_error, promote_final_answer, reduce_result_event,
  reduce_final_answer_event,
}
use lark_remote.RunState.Approvals.{
  reduce_approval_requested_event, reduce_approval_resolved_event,
  reduce_approval_view_updated_event, reduce_approval_expired_event,
}
use lark_remote.RunState.Reduce.{
  reduce_plan_event, reduce_file_change_event, reduce_run_status_event, reduce_compact_boundary,
  reduce_event, reduce_run_state,
}
use lark_remote.RunState.Frame.{
  Core, Keeps, turn_diff-Keeps, assistant-Keeps, user-Keeps, plan_event-core, file_change-core,
}

abbrev pub result_of : AgentEvent → Option ResultSubtype
result_of (AgentEvent.result subtype message final_text cost) = some subtype
result_of _ = none

abbrev pub error_of : AgentEvent → Option Text
error_of (AgentEvent.result subtype message final_text cost) = incoming_error subtype message
error_of _ = none

abbrev pub results_of : List AgentEvent → List ResultSubtype
results_of [] = []
results_of (e ∷ es) = elim (result_of e) [ none ↦ results_of es | some r ↦ r ∷ results_of es ]

-- The message of the first error.
abbrev pub first_error : List AgentEvent → Option Text
first_error [] = none
first_error (e ∷ es) = first_of (error_of e) (first_error es)

abbrev pub is_error : ResultSubtype → Bool
is_error ResultSubtype.error = true
is_error _ = false

abbrev pub is_stopped : ResultSubtype → Bool
is_stopped ResultSubtype.interrupted = true
is_stopped _ = false

-- An error anywhere is an error, else an interrupt anywhere is an interrupt.
abbrev pub worst : List ResultSubtype → Option ResultSubtype
worst rs =
    if any is_error rs
    then some ResultSubtype.error
    else if any is_stopped rs
    then some ResultSubtype.interrupted
    else elim rs [ [] ↦ none | r ∷ others ↦ some ResultSubtype.success ]

abbrev pub seen : Option ResultSubtype → List ResultSubtype → List ResultSubtype
seen none rs = rs
seen (some r) rs = r ∷ rs

abbrev outcome : Option ResultSubtype → Option ResultSubtype → Option ResultSubtype
outcome before none = before
outcome before (some r) = some (merge_subtype before r)

worst-outcome :
    (before : Option ResultSubtype) (r : ResultSubtype) (rs : List ResultSubtype)
    → worst (merge_subtype before r ∷ rs) ≡ worst (seen before (r ∷ rs))
worst-outcome none r rs = ground arith
worst-outcome (some ResultSubtype.error) r rs = ground arith
worst-outcome (some ResultSubtype.interrupted) ResultSubtype.error rs = ground arith
worst-outcome (some ResultSubtype.interrupted) ResultSubtype.interrupted rs = ground arith
worst-outcome (some ResultSubtype.interrupted) ResultSubtype.success rs = ground arith
worst-outcome (some ResultSubtype.success) ResultSubtype.error rs = ground arith
worst-outcome (some ResultSubtype.success) ResultSubtype.interrupted rs = ground arith
worst-outcome (some ResultSubtype.success) ResultSubtype.success rs = ground arith

worst-single : (r : ResultSubtype) → worst (r ∷ []) ≡ some r
worst-single ResultSubtype.error = refl
worst-single ResultSubtype.interrupted = refl
worst-single ResultSubtype.success = refl

-- A run that has its session and has not ended.
abbrev pub IsActive : RunState → Type 0
IsActive s = (is_run_terminal s.terminal ≡ false) × (is_some s.session_id ≡ true)

-- What one event makes of the verdict.
abbrev Merged : RunState → AgentEvent → Option RunState → Type 0
Merged s e none = (result_of e ≡ none) × (error_of e ≡ none)
Merged s e (some t) =
    IsActive t
    × (t.result_subtype ≡ outcome s.result_subtype (result_of e))
    × (t.error_msg ≡ first_of s.error_msg (error_of e))

promote-core :
    (s : RunState) (source : AnswerSource) (full : Option Text)
    → let t = promote_final_answer s source full in
      (t.terminal ≡ s.terminal)
      × (t.session_id ≡ s.session_id)
      × (t.result_subtype ≡ s.result_subtype)
      × (t.error_msg ≡ s.error_msg)
unfolding promote_final_answer
promote-core s source full = ground arith

kept : (o : Option Text) → o ≡ first_of o none
kept none = refl
kept (some m) = refl

Keeps-Merged :
    (s : RunState) (e : AgentEvent) (o : Option RunState)
    → result_of e ≡ none
    → error_of e ≡ none
    → IsActive s
    → Keeps s o
    → Merged s e o
Keeps-Merged s e none h i v k = (h, i)
Keeps-Merged s e (some t) h i v k = (
  (
    ap (λ c. is_run_terminal (Core.terminal c)) k ∙ v.0,
    ap (λ c. is_some (Core.session_id c)) k ∙ v.1,
  ),
  rw h (ap Core.result_subtype k),
  rw i (ap Core.error_msg k ∙ kept s.error_msg),
)

result-Merged :
    (s : RunState) (subtype : ResultSubtype) (message final_text : Option Text) (cost : Option ℕ)
    → IsActive s
    → Merged s
        (AgentEvent.result subtype message final_text cost)
        (reduce_result_event subtype message final_text cost s)
unfolding reduce_result_event is_run_terminal
result-Merged s subtype message final_text cost v = elim (Option-cases s.session_id) [
  | inl missing ↦ ground arith
  | inr (id, e) ↦
      let (a, b, c, d) = promote-core s AnswerSource.inferred final_text in
      rw (e, reduce_result_event) ((refl, rw b (rw e refl)), rw c refl, rw d refl)
]

final_answer-Merged :
    (value : Text) (item_id : Option String) (complete : Option Bool) (ts : Option String)
    (s : RunState)
    → IsActive s
    → Merged s
        (AgentEvent.final_answer value item_id complete ts)
        (reduce_final_answer_event value item_id complete ts s)
unfolding reduce_final_answer_event
final_answer-Merged value item_id complete ts s v = ground (arith, kept s.error_msg)

module _ (as_record : Text → Option (List Text)) where
  event-Merged :
      (e : AgentEvent) (s : RunState) → IsActive s → Merged s e (reduce_event as_record e s)
  unfolding reduce_event reduce_run_status_event reduce_compact_boundary
      reduce_approval_requested_event reduce_approval_resolved_event
      reduce_approval_view_updated_event reduce_approval_expired_event
  event-Merged (AgentEvent.system_init id model) s v = ((v.0, refl), refl, kept s.error_msg)
  event-Merged (AgentEvent.compact_boundary none) s v = (refl, refl)
  event-Merged (AgentEvent.compact_boundary (some n)) s v = (v, refl, kept s.error_msg)
  event-Merged (AgentEvent.run_status live) s v = (v, refl, kept s.error_msg)
  event-Merged (AgentEvent.goal_state goal known) s v = (v, refl, kept s.error_msg)
  event-Merged (AgentEvent.background_jobs jobs) s v = (v, refl, kept s.error_msg)
  event-Merged (AgentEvent.result subtype message final_text cost) s v =
      result-Merged s subtype message final_text cost v
  event-Merged (AgentEvent.final_answer value item_id complete ts) s v =
      final_answer-Merged value item_id complete ts s v
  event-Merged (AgentEvent.assistant contents ts) s v =
      Keeps-Merged s (AgentEvent.assistant contents ts) _ refl refl v
        (assistant-Keeps as_record contents ts s)
  event-Merged (AgentEvent.user contents ts) s v =
      Keeps-Merged s (AgentEvent.user contents ts) _ refl refl v (user-Keeps contents ts s)
  event-Merged (AgentEvent.plan value ts) s v =
      Keeps-Merged s (AgentEvent.plan value ts) (some (reduce_plan_event value ts s)) refl refl v
        (plan_event-core value ts s)
  event-Merged (AgentEvent.file_change path diff operation ts) s v =
      Keeps-Merged s (AgentEvent.file_change path diff operation ts)
        (some (reduce_file_change_event path diff operation ts s)) refl refl v
        (file_change-core path diff operation ts s)
  event-Merged (AgentEvent.notice notice) s v = (v, refl, kept s.error_msg)
  event-Merged (AgentEvent.session_info title mode) s v = (v, refl, kept s.error_msg)
  event-Merged (AgentEvent.turn_started kind) s v = (v, refl, kept s.error_msg)
  event-Merged (AgentEvent.turn_diff event) s v =
      Keeps-Merged s (AgentEvent.turn_diff event) _ refl refl v (turn_diff-Keeps as_record event s)
  event-Merged (AgentEvent.approval_requested id view) s v = (v, refl, kept s.error_msg)
  event-Merged (AgentEvent.approval_resolved id) s v = (v, refl, kept s.error_msg)
  event-Merged (AgentEvent.approval_view_updated id view) s v = (v, refl, kept s.error_msg)
  event-Merged (AgentEvent.approval_expired id) s v = (v, refl, kept s.error_msg)
  event-Merged AgentEvent.other s v = (refl, refl)

  abbrev pub reduce_all : List AgentEvent → RunState → RunState
  reduce_all [] s = s
  reduce_all (e ∷ es) s = reduce_all es (reduce_run_state as_record s e)

  -- One event on an active run.
  step-Merged :
      (e : AgentEvent) (s : RunState) (o : Option RunState)
      → reduce_event as_record e s ≡ o
      → IsActive s
      → Merged s e o
      → Merged s e (some (reduce_run_state as_record s e))
  unfolding reduce_run_state
  step-Merged e s none h v m =
      rw (v.0, h, reduce_run_state) (v, rw m.0 refl, rw m.1 (kept s.error_msg))
  step-Merged e s (some t) h v m = rw (v.0, h, reduce_run_state) m

  active_step :
      (e : AgentEvent) (s : RunState)
      → IsActive s
      → Merged s e (some (reduce_run_state as_record s e))
  active_step e s v = step-Merged e s (reduce_event as_record e s) refl v (event-Merged e s v)

  worst-step :
      (before : Option ResultSubtype) (r : Option ResultSubtype) (rs : List ResultSubtype)
      → worst (seen (outcome before r) rs)
        ≡ worst (seen before (elim r [ none ↦ rs | some x ↦ x ∷ rs ]))
  worst-step before none rs = refl
  worst-step before (some r) rs = worst-outcome before r rs

  seen-end : (before : Option ResultSubtype) → before ≡ worst (seen before [])
  seen-end none = refl
  seen-end (some r) = sym (worst-single r)

  first_of_assoc : (a b c : Option Text) → first_of (first_of a b) c ≡ first_of a (first_of b c)
  first_of_assoc none b c = refl
  first_of_assoc (some m) b c = refl

  -- Whatever events an active run receives, in whatever order, it stays open for more; its verdict
  -- is an error if any result was one, else an interrupt if any was one, else a success if there
  -- was one, counting the verdict it had; and its error message is the first of all.
  pub verdict :
      (es : List AgentEvent) (s : RunState)
      → IsActive s
      → let t = reduce_all es s in
        IsActive t
        × (t.result_subtype ≡ worst (seen s.result_subtype (results_of es)))
        × (t.error_msg ≡ first_of s.error_msg (first_error es))
  verdict [] s v = (v, seen-end s.result_subtype, kept s.error_msg)
  verdict (e ∷ es) s v =
      let (active, subtype, message) = active_step e s v in
      let (a, b, c) = verdict es (reduce_run_state as_record s e) active in
      (
        a,
        b
            ∙ ap (λ r. worst (seen r (results_of es))) subtype
            ∙ worst-step s.result_subtype (result_of e) (results_of es),
        c
            ∙ ap (λ m. first_of m (first_error es)) message
            ∙ first_of_assoc s.error_msg (error_of e) (first_error es),
      )
