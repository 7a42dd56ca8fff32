-- ===== src/RunState/ApprovalEvents.antt =====
-- The approvals of a card over the events of a run.
use lark_remote.Common.{
  ℕ, Text, String, Bool, List, [], ◌∷◌, Option, none, some, ◌≡◌, refl, sym, ap, arith, All,
  Bool-cases, inl, inr,
}
use lark_remote.RunState.Types.{RunState, AgentEvent, AnswerSource, ResultSubtype}
use lark_remote.RunState.Answer.{
  promote_final_answer, reduce_result_event, reduce_final_answer_event,
}
use lark_remote.RunState.Approvals.{
  is_request, reduce_approval_requested_event, reduce_approval_resolved_event,
  reduce_approval_view_updated_event, reduce_approval_expired_event,
}
use lark_remote.RunState.Reduce.{
  reduce_run_status_event, reduce_compact_boundary, reduce_event, reduce_run_state_inner,
  reduce_run_state, reduce_plan_event, reduce_file_change_event,
}
use lark_remote.RunState.Frame.{
  Core, Keeps, turn_diff-Keeps, assistant-Keeps, user-Keeps, plan_event-core, file_change-core,
}
use lark_remote.RunState.Verdict.{reduce_all}
use lark_remote.RunState.ApprovalLaws.{
  OnePerRequest, filter-OnePerRequest, map-OnePerRequest, request-OnePerRequest, same_request-eq,
}

-- The view that an event carries is of the request that it names.
abbrev pub OwnView : AgentEvent → Type 0
OwnView (AgentEvent.approval_requested id view) = view.request_id ≡ id
OwnView (AgentEvent.approval_view_updated id view) = view.request_id ≡ id
OwnView _ = Unit

abbrev One : Option RunState → Type 0
One none = Unit
One (some s) = OnePerRequest s.approvals

Keeps-One : (s : RunState) (o : Option RunState) → OnePerRequest s.approvals → Keeps s o → One o
Keeps-One s none h k = tt
Keeps-One s (some t) h k = rw (ap Core.approvals k) h

promote-approvals :
    (s : RunState) (source : AnswerSource) (full : Option Text)
    → (promote_final_answer s source full).approvals ≡ s.approvals
unfolding promote_final_answer
promote-approvals s source full = ground arith

result-One :
    (subtype : ResultSubtype) (message final_text : Option Text) (cost : Option ℕ) (s : RunState)
    → OnePerRequest s.approvals
    → One (reduce_result_event subtype message final_text cost s)
unfolding reduce_result_event
result-One subtype message final_text cost s h =
    ground (arith, promote-approvals s AnswerSource.inferred final_text)

final-One :
    (value : Text) (item_id : Option String) (complete : Option Bool) (ts : Option String)
    (s : RunState)
    → OnePerRequest s.approvals
    → One (reduce_final_answer_event value item_id complete ts s)
unfolding reduce_final_answer_event
final-One value item_id complete ts s h = ground arith

module _ (as_record : Text → Option (List Text)) where
  event-One :
      (e : AgentEvent) (s : RunState)
      → OwnView e
      → OnePerRequest s.approvals
      → One (reduce_event as_record e s)
  unfolding reduce_event reduce_run_status_event reduce_compact_boundary
      reduce_approval_requested_event reduce_approval_resolved_event
      reduce_approval_view_updated_event reduce_approval_expired_event
  event-One (AgentEvent.system_init id model) s w h = h
  event-One (AgentEvent.compact_boundary none) s w h = tt
  event-One (AgentEvent.compact_boundary (some n)) s w h = h
  event-One (AgentEvent.run_status live) s w h = h
  event-One (AgentEvent.goal_state goal known) s w h = h
  event-One (AgentEvent.background_jobs jobs) s w h = h
  event-One (AgentEvent.result subtype message final_text cost) s w h =
      result-One subtype message final_text cost s h
  event-One (AgentEvent.final_answer value item_id complete ts) s w h =
      final-One value item_id complete ts s h
  event-One (AgentEvent.assistant contents ts) s w h =
      Keeps-One s _ h (assistant-Keeps as_record contents ts s)
  event-One (AgentEvent.user contents ts) s w h = Keeps-One s _ h (user-Keeps contents ts s)
  event-One (AgentEvent.plan value ts) s w h =
      Keeps-One s (some (reduce_plan_event value ts s)) h (plan_event-core value ts s)
  event-One (AgentEvent.file_change path diff operation ts) s w h =
      Keeps-One s (some (reduce_file_change_event path diff operation ts s)) h
        (file_change-core path diff operation ts s)
  event-One (AgentEvent.notice notice) s w h = h
  event-One (AgentEvent.session_info title mode) s w h = h
  event-One (AgentEvent.turn_started kind) s w h = h
  event-One (AgentEvent.turn_diff event) s w h = Keeps-One s _ h (turn_diff-Keeps as_record event s)
  event-One (AgentEvent.approval_requested id view) s w h =
      request-OnePerRequest id view s.approvals w h
  event-One (AgentEvent.approval_resolved id) s w h = filter-OnePerRequest _ s.approvals h
  event-One (AgentEvent.approval_view_updated id view) s w h =
      map-OnePerRequest _ s.approvals
        (λ a. elim (Bool-cases (is_request id a)) [
          | inl e ↦ rw (e, w) (sym (same_request-eq a.view.request_id id e))
          | inr e ↦ rw e refl
        ])
        h
  event-One (AgentEvent.approval_expired id) s w h =
      map-OnePerRequest _ s.approvals (λ a. ground arith) h
  event-One AgentEvent.other s w h = tt

  reduce-One :
      (e : AgentEvent) (s : RunState) (o : Option RunState)
      → reduce_run_state_inner as_record s e ≡ o
      → OnePerRequest s.approvals
      → One o
      → OnePerRequest (reduce_run_state as_record s e).approvals
  unfolding reduce_run_state
  reduce-One e s none eq h k = rw (eq, reduce_run_state) h
  reduce-One e s (some t) eq h k = rw (eq, reduce_run_state) k

  inner-One :
      (e : AgentEvent) (s : RunState)
      → OwnView e
      → OnePerRequest s.approvals
      → One (reduce_run_state_inner as_record s e)
  unfolding reduce_run_state_inner
  inner-One e s w h = ground (arith, event-One e s w h)

  -- However approvals are requested, requested again, updated, resolved and expired, with views that
  -- carry the id of their own request, a card never shows two approvals of one request.
  pub approvals_stay_apart :
      (es : List AgentEvent) (s : RunState)
      → All OwnView es
      → OnePerRequest s.approvals
      → OnePerRequest (reduce_all as_record es s).approvals
  approvals_stay_apart [] s w h = h
  approvals_stay_apart (e ∷ es) s w h =
      approvals_stay_apart es (reduce_run_state as_record s e) w.1
        (reduce-One e s (reduce_run_state_inner as_record s e) refl h (inner-One e s w.0 h))
