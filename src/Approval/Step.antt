-- ===== src/Approval/Step.antt =====
-- A coordinator at work: the calls of src/bridge/approval-coordinator.ts in any order, with its timers
-- and the responder's answers, which come later. A submission that the responder accepted is noted
-- in `delivered`, as is a cancel that was sent for an expired request.
use lark_remote.Common.{
  ℕ, zero, suc, String, Text, Bool, true, false, List, [], ◌∷◌, Option, none, some, is_some, leb,
  if◌then◌else◌,
}
use lark_remote.RunState.Types.{RequestId}
use lark_remote.Approval.Types.{
  ApprovalKind, RequestView, ApprovalAction, Coordinator, Flight, Outcome, get_tracked, done,
}
use lark_remote.Approval.Coordinator.{
  on_requested, on_resolved, on_turn_ended, update_view, submit, on_response, expire_approval,
}
use lark_remote.Approval.Answers.{
  toggle_perm, toggle_answer, submit_answers, answer_custom, answer_note, plan_feedback,
}

pub record System : Type 0 where
  pub coordinator : Coordinator
  pub in_flight : List Flight
  pub delivered : List RequestId

pub data Event : Type 0 where
  requested : ℕ → RequestId → ApprovalKind → RequestView → Option ℕ → Event
  resolved : RequestId → Event
  turn_ended : Event
  updated : RequestId → RequestView → Event
  submitted : ApprovalAction → RequestId → Option String → Event
  perm_toggled : String → Bool → RequestId → Event
  answer_toggled : ℕ → Text → RequestId → Option String → Event
  answers_submitted : ℕ → RequestId → Option String → Event
  custom_answered noted : ℕ → Text → RequestId → Option String → Event
  plan_remarked : Text → RequestId → Option String → Event
  timer_fired : ℕ → RequestId → Event
  settled : ℕ → ℕ → Option Text → Event

-- A timer fires when it is armed and its time has come.
unfoldable pub fire : ℕ → RequestId → Coordinator → Outcome
unfolding expire_approval
fire now id c = elim (get_tracked id c.approvals) [
  | none ↦ done [] c
  | some t ↦ elim t.timeout_timer [
    | none ↦ done [] c
    | some d ↦ if leb d now then expire_approval id c else done [] c
  ]
]

abbrev pub flight_at : ℕ → List Flight → Option Flight
flight_at k [] = none
flight_at zero (f ∷ fs) = some f
flight_at (suc k) (f ∷ fs) = flight_at k fs

abbrev pub land : ℕ → List Flight → List Flight
land k [] = []
land zero (f ∷ fs) = fs
land (suc k) (f ∷ fs) = f ∷ land k fs

-- What a call does to the coordinator; the answers of the responder come to `step`.
unfoldable pub handle : Event → Coordinator → Outcome
handle (Event.requested now id kind view ms) c = done [] (on_requested now id kind view ms c)
handle (Event.resolved id) c = done [] (on_resolved id c)
handle Event.turn_ended c = done [] (on_turn_ended c)
handle (Event.updated id view) c = done [] (update_view id view c)
handle (Event.submitted action id nonce) c = submit action id nonce c
handle (Event.perm_toggled perm on id) c = toggle_perm perm on id c
handle (Event.answer_toggled i option id nonce) c = toggle_answer i option id nonce c
handle (Event.answers_submitted i id nonce) c = submit_answers i id nonce c
handle (Event.custom_answered i text id nonce) c = answer_custom i text id nonce c
handle (Event.noted i text id nonce) c = answer_note i text id nonce c
handle (Event.plan_remarked text id nonce) c = plan_feedback text id nonce c
handle (Event.timer_fired now id) c = fire now id c
handle (Event.settled now k message) c = done [] c

abbrev pub take_off : Option Flight → List Flight → List Flight
take_off none fs = fs
take_off (some f) fs = f ∷ fs

abbrev pub is_accepted : Option Text → Bool
is_accepted none = true
is_accepted (some _) = false

abbrev pub note_delivered : Flight → Bool → List RequestId → List RequestId
note_delivered f ok ids = if ok then f.request_id ∷ ids else ids

abbrev pub call : Event → System → System
call e s =
    let o = handle e s.coordinator in
    record {
      coordinator = o.next;
      in_flight = take_off o.flight s.in_flight;
      delivered = s.delivered;
    }

abbrev pub answered : ℕ → ℕ → Option Text → System → System
answered now k message s = elim (flight_at k s.in_flight) [
  | none ↦ s
  | some f ↦ record {
    coordinator = (on_response now f message s.coordinator).next;
    in_flight = land k s.in_flight;
    delivered = note_delivered f (is_accepted message) s.delivered;
  }
]

unfoldable pub step : Event → System → System
unfolding handle on_response
step (Event.settled now k message) s = answered now k message s
step e s = call e s

abbrev pub init : ℕ → System
init ms = record {
  coordinator = record {
    approvals = [];
    submitted_nonces = [];
    user_cancelled = false;
    approval_timeout_ms = ms;
  };
  in_flight = [];
  delivered = [];
}

-- Whether a call asks a request that is tracked already.
abbrev pub asks_again : Event → Coordinator → Bool
asks_again (Event.requested now id kind view ms) c = is_some (get_tracked id c.approvals)
asks_again _ c = false

abbrev pub steps : List Event → System → System
steps [] s = s
steps (e ∷ es) s = steps es (step e s)

-- The systems that a new coordinator comes to.
pub data Reach : System → Type 0 where
  start : (ms : ℕ) → Reach (init ms)
  next : {s : System} → Reach s → (e : Event) → Reach (step e s)
