-- ===== src/Approval/Tests.antt =====
-- Runs of an approval coordinator, and the theorems at these.
use lark_remote.Common.{
  String, Text, lit, Bool, true, false, List, [], ◌∷◌, none, some, ◌≡◌, ◌≤◌, ◌+◌, refl, arith,
  is_some,
}
use lark_remote.RunState.Types.{RequestId}
use lark_remote.Approval.Types.{
  ApprovalState, ApprovalKind, UserQuestion, RequestView, TrackedApproval, Answer, one_of, many_of,
  ApprovalAction, not_pending, Coordinator, Flight, respond,
}
use lark_remote.Approval.Coordinator.{on_requested, on_resolved, submit, pending_count}
use lark_remote.Approval.Answers.{
  toggle_answer, answer_note, plan_feedback, respond_question_answers, decision_to_approval_action,
}
use lark_remote.Approval.Step.{System, Event, handle, step, steps, init, start, next}
use lark_remote.Approval.Lives.{promise, Serves}
use lark_remote.Approval.Refinement.{step-Serves}
use lark_remote.Approval.Deadlines.{pending-Expires, Expires}
use lark_remote.Approval.Once.{decided_once, open_for, done_for}
use lark_remote.Approval.Clicks.{click_once, IsIdle}
use lark_remote.Approval.Batch.{batch_complete, get_key}

abbrev plain_view : ApprovalKind → RequestView
plain_view kind = record {
  kind = kind;
  tool_name = none;
  plan = none;
  plan_feedback = none;
  permissions = none;
  questions = none;
  available_decisions = "accept" ∷ [];
  delivery_error = none;
  shown = 0;
}

abbrev id : RequestId
id = RequestId.str "r"

abbrev asking : Event
asking = Event.requested 100 id ApprovalKind.command (plain_view ApprovalKind.command) none

abbrev accepting : String → Event
accepting n = Event.submitted ApprovalAction.accept id (some n)

-- A request is asked, accepted with a first click that fails and a second that arrives.
abbrev accepted_run : List Event
accepted_run =
    asking
    ∷ accepting "n1"
    ∷ Event.settled 150 0 (some (lit "offline"))
    ∷ accepting "n1"
    ∷ Event.settled 160 0 none
    ∷ []

accepted_run_lem : (steps accepted_run (init 1000)).delivered ≡ id ∷ []
unfolding step handle on_requested submit
accepted_run_lem = refl

decided_once_example :
    open_for id (steps accepted_run (init 1000)).in_flight
      + done_for id (steps accepted_run (init 1000)).delivered
    ≤ 1
unfolding step handle on_requested submit
decided_once_example = decided_once 1000 accepted_run id (refl, (refl, (refl, (refl, (refl, tt)))))

abbrev asked_system : System
asked_system = step asking (init 1000)

step-Serves_example :
    Serves (promise asked_system) (promise (step (accepting "n1") asked_system)) false
step-Serves_example = step-Serves (accepting "n1") asked_system

abbrev asked_approval : TrackedApproval
asked_approval = record {
  request_id = id;
  kind = ApprovalKind.command;
  state = ApprovalState.pending;
  view = plain_view ApprovalKind.command;
  created_at = 100;
  timeout_timer = some 1100;
  timeout_ms = 1000;
  answers = [];
  notes = [];
  feedback = none;
}

pending-Expires_example :
    (is_some asked_approval.timeout_timer ≡ true)
    × Expires id asked_system (Event.timer_fired 1200 id)
unfolding step handle on_requested
pending-Expires_example =
    pending-Expires asked_system (next (start 1000) asking) id asked_approval 1200 refl refl
      (omega arith)

abbrev sent_system : System
sent_system = step (accepting "n1") asked_system

abbrev sent_flight : Flight
sent_flight = record {
  request_id = id;
  action = ApprovalAction.accept;
  nonce = some "n1";
  expiry = false;
}

abbrev after_delivery : Coordinator
after_delivery = (steps (asking ∷ []) (step (Event.settled 150 0 none) sent_system)).coordinator

click_once_example :
    IsIdle after_delivery (submit ApprovalAction.accept id (some "n1") after_delivery)
    × IsIdle after_delivery (answer_note 0 (lit "x") id (some "n1") after_delivery)
    × IsIdle after_delivery (plan_feedback (lit "x") id (some "n1") after_delivery)
unfolding step handle on_requested submit
click_once_example =
    click_once sent_system 150 0 sent_flight "n1" (asking ∷ []) ApprovalAction.accept 0 (lit "x")
      refl refl refl

abbrev ask : String → Bool → UserQuestion
ask text multi = record {
  question = lit text;
  multi_select = multi;
  options = lit "a" ∷ lit "b" ∷ [];
  selected = none;
  note = none;
}

abbrev asked_twice : TrackedApproval
asked_twice = record asked_approval {
  kind = ApprovalKind.question;
  view = record (plain_view ApprovalKind.question) {
    questions = some (ask "first" false ∷ ask "second" true ∷ []);
  };
  answers = (0, lit "a" ∷ []) ∷ (1, lit "a" ∷ lit "b" ∷ []) ∷ [];
}

abbrev quiet_coordinator : Coordinator
quiet_coordinator = (init 1000).coordinator

batch_complete_example :
    (answers : List (Text × Answer)) × (notes : List (Text × Text)) × ((respond_question_answers
        asked_twice id none quiet_coordinator).calls
      ≡ respond id (ApprovalAction.answer answers notes) ∷ [])
    × (get_key (lit "second") answers ≡ some (many_of (lit "a" ∷ lit "b" ∷ [])))
batch_complete_example =
    batch_complete asked_twice id none quiet_coordinator 1 (ask "second" true) refl refl
      (refl, (refl, tt)) refl refl

-- The answer to a question whose text is `__proto__` is not sent.
proto_unanswered :
    (respond_question_answers
      (record asked_twice {
        view = record asked_twice.view {
          questions = some (ask "__proto__" false ∷ ask "second" true ∷ []);
        };
      })
      id
      none
      quiet_coordinator).calls
    ≡ respond id (ApprovalAction.answer ((lit "second", many_of (lit "a" ∷ lit "b" ∷ [])) ∷ []) [])
      ∷ []
unfolding respond_question_answers
proto_unanswered = refl

-- The answer that completes the batch sends it.
questioned : Coordinator
questioned =
    on_requested 100 id ApprovalKind.question
      (record (plain_view ApprovalKind.question) { questions = some (ask "first" false ∷ []) }) none
      quiet_coordinator

toggle_answer_last :
    (toggle_answer 0 (lit "b") id none questioned).calls
    ≡ respond id (ApprovalAction.answer ((lit "first", one_of (some (lit "b"))) ∷ []) []) ∷ []
unfolding toggle_answer questioned on_requested
toggle_answer_last = refl

submit_while_submitting :
    (submit ApprovalAction.accept id (some "n2") sent_system.coordinator).refused ≡ some not_pending
unfolding step handle on_requested submit
submit_while_submitting = refl

unknown_decision : decision_to_approval_action "later" ≡ ApprovalAction.decline
unfolding decision_to_approval_action
unknown_decision = refl

pending_count_asked : pending_count asked_system.coordinator ≡ 1
unfolding step handle on_requested pending_count
pending_count_asked = refl

-- A delivery that fails after the agent resolved the request makes it pending again.
resolved_then_failed :
    pending_count
      (steps
        (Event.resolved id ∷ Event.settled 150 0 (some (lit "late")) ∷ [])
        sent_system).coordinator
    ≡ 1
unfolding step handle on_requested on_resolved submit pending_count
resolved_then_failed = refl

-- A request that is asked again while an answer is out can be answered a second time.
asked_again_sent_twice :
    open_for id (steps (asking ∷ accepting "n2" ∷ []) sent_system).in_flight ≡ 2
unfolding step handle on_requested submit
asked_again_sent_twice = refl
