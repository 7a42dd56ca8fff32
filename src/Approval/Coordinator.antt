-- ===== src/Approval/Coordinator.antt =====
-- Requests, decisions and their delivery in src/bridge/approval-coordinator.ts. `now` is what
-- `Date.now()` returns; the part of an `async` method behind the responder's `await` is `on_response`.
use lark_remote.Common.{
  ℕ, ◌+◌, String, str_eq, Text, lit, trim, Bool, true, false, ◌&&◌, ◌||◌, List, [], ◌∷◌, ◌++◌, map,
  any, Option, none, some, or_else, if◌then◌else◌,
}
use lark_remote.RunState.Types.{RequestId}
use lark_remote.RunState.Approvals.{same_request}
use lark_remote.Approval.Types.{
  ApprovalState, ApprovalKind, RequestView, TrackedApproval, ApprovalAction, not_found,
  duplicate_nonce, not_pending, not_available, feedback_missing, Call, respond, view_updated,
  pushed_resolved, pushed_expired, interrupt_turn, Coordinator, Flight, Outcome, is_pending,
  get_tracked, change, refuse, done,
}
use lark_remote.Approval.Questions.{reapply_recorded_answers}

abbrev pub clear_timer : TrackedApproval → TrackedApproval
clear_timer t = record t { timeout_timer = none }

abbrev pub arm_timeout : ℕ → ℕ → TrackedApproval → TrackedApproval
arm_timeout now ms t = record t { timeout_timer = some (now + ms) }

abbrev pub request_again : ℕ → RequestView → ℕ → TrackedApproval → TrackedApproval
request_again now view ms t = arm_timeout now ms (record t {
  state = ApprovalState.pending;
  view = reapply_recorded_answers t view;
  timeout_ms = ms;
})

abbrev pub new_tracked : ℕ → RequestId → ApprovalKind → RequestView → ℕ → TrackedApproval
new_tracked now id kind view ms = record {
  request_id = id;
  kind = kind;
  state = ApprovalState.pending;
  view = view;
  created_at = now;
  timeout_timer = some (now + ms);
  timeout_ms = ms;
  answers = [];
  notes = [];
  feedback = none;
}

abbrev pub add_tracked : TrackedApproval → Coordinator → Coordinator
add_tracked t c = record c { approvals = c.approvals ++ t ∷ [] }

unfoldable pub on_requested :
    ℕ → RequestId → ApprovalKind → RequestView → Option ℕ → Coordinator → Coordinator
unfolding reapply_recorded_answers
on_requested now id kind view timeout c =
    let ms = or_else timeout c.approval_timeout_ms in
    elim (get_tracked id c.approvals) [
      | some t ↦ change id (request_again now view ms) c
      | none ↦ add_tracked (new_tracked now id kind view ms) c
    ]

abbrev pub resolve : TrackedApproval → TrackedApproval
resolve t = record t { state = ApprovalState.resolved; timeout_timer = none }

unfoldable pub on_resolved : RequestId → Coordinator → Coordinator
on_resolved id c = change id resolve c

abbrev pub end_pending : TrackedApproval → TrackedApproval
end_pending t =
    if is_pending t.state
    then record t { state = ApprovalState.expired; timeout_timer = none }
    else t

unfoldable pub on_turn_ended : Coordinator → Coordinator
on_turn_ended c = record c { approvals = map end_pending c.approvals }

-- A late view replaces that of a pending request only.
abbrev pub replace_view : RequestView → TrackedApproval → TrackedApproval
replace_view view t = if is_pending t.state then record t { view = view } else t

unfoldable pub update_view : RequestId → RequestView → Coordinator → Coordinator
update_view id view c = change id (replace_view view) c

abbrev pub is_used : RequestId → String → RequestId × String → Bool
is_used id nonce (i, n) = same_request i id && str_eq n nonce

-- Whether `assertFreshNonce` throws.
abbrev pub is_stale : RequestId → Option String → Coordinator → Bool
is_stale id none c = false
is_stale id (some nonce) c = any (is_used id nonce) c.submitted_nonces

-- `Set.add` for the request.
abbrev pub consume_nonce : RequestId → Option String → Coordinator → Coordinator
consume_nonce id none c = c
consume_nonce id (some nonce) c =
    if any (is_used id nonce) c.submitted_nonces
    then c
    else record c { submitted_nonces = c.submitted_nonces ++ (id, nonce) ∷ [] }

unfoldable pub action_to_decision : ApprovalAction → String
action_to_decision ApprovalAction.accept = "accept"
action_to_decision ApprovalAction.accept_for_session = "acceptForSession"
action_to_decision ApprovalAction.accept_with_execpolicy_amendment = "acceptWithExecpolicyAmendment"
action_to_decision ApprovalAction.accept_all = "acceptAll"
action_to_decision (ApprovalAction.answer answers notes) = "answer"
action_to_decision (ApprovalAction.decline_with_feedback message) = "declineWithFeedback"
action_to_decision (ApprovalAction.accept_with_feedback plan) = "acceptWithFeedback"
action_to_decision ApprovalAction.decline = "decline"
action_to_decision ApprovalAction.cancel = "cancel"

-- Declining and cancelling are allowed whatever the server lists.
unfoldable pub is_allowed : ApprovalAction → RequestView → Bool
unfolding action_to_decision
is_allowed action view =
    let decision = action_to_decision action in
    any (λ d. str_eq d decision) view.available_decisions
    || (str_eq decision "decline" || str_eq decision "cancel")

-- The text of a feedback: what the action brings, else what was written before; `none` if both are
-- blank.
unfoldable pub feedback_text : Text → Option Text → Option Text
unfolding trim
feedback_text explicit recorded = elim (trim explicit) as (λ _. Option Text) [
  | c ∷ cs ↦ some (c ∷ cs)
  | [] ↦ elim (trim (or_else recorded [])) as (λ _. Option Text) [
    | [] ↦ none
    | c ∷ cs ↦ some (c ∷ cs)
  ]
]

-- The plan with the user's remarks, or the remarks alone. A line break is code unit 10.
unfoldable pub amended_plan : Option Text → Text → Text
unfolding trim
amended_plan plan text = elim (trim (or_else plan [])) as (λ _. Text) [
  | [] ↦ lit "# 用户修改意见" ++ (10 ∷ 10 ∷ text)
  | c ∷ cs ↦ (c ∷ cs) ++ (10 ∷ 10 ∷ (lit "## 用户修改意见" ++ 10 ∷ text))
]

-- The action that is sent, or `none` when feedback is missing.
unfoldable pub effective_action : ApprovalAction → TrackedApproval → Option ApprovalAction
unfolding feedback_text amended_plan
effective_action (ApprovalAction.decline_with_feedback message) t =
    elim (feedback_text message t.feedback) [
      | none ↦ none
      | some text ↦ some (ApprovalAction.decline_with_feedback text)
    ]
effective_action (ApprovalAction.accept_with_feedback plan) t =
    elim (feedback_text plan t.feedback) [
      | none ↦ none
      | some text ↦ some (ApprovalAction.accept_with_feedback (amended_plan t.view.plan text))
    ]
effective_action action t = some action

abbrev pub begin_submit : TrackedApproval → TrackedApproval
begin_submit t = record t {
  state = ApprovalState.submitting;
  timeout_timer = none;
  view = record t.view { delivery_error = none };
}

-- The action goes to the responder.
abbrev pub send : RequestId → Option String → ApprovalAction → Coordinator → Outcome
send id nonce action c = record {
  next = change id begin_submit c;
  calls = respond id action ∷ [];
  flight = some (record { request_id = id; action = action; nonce = nonce; expiry = false });
  refused = none;
}

unfoldable pub submit : ApprovalAction → RequestId → Option String → Coordinator → Outcome
unfolding is_allowed effective_action
submit action id nonce c = elim (get_tracked id c.approvals) [
  | none ↦ refuse not_found c
  | some t ↦
      if is_stale id nonce c
      then refuse duplicate_nonce c
      else if is_pending t.state
      then if is_allowed action t.view
        then elim (effective_action action t) [
          | none ↦ refuse feedback_missing c
          | some sent ↦ send id nonce sent c
        ]
        else refuse not_available c
      else refuse not_pending c
]

abbrev pub is_cancel : ApprovalAction → Bool
is_cancel ApprovalAction.cancel = true
is_cancel _ = false

abbrev pub fail_submission : ℕ → Text → TrackedApproval → TrackedApproval
fail_submission now message t = arm_timeout now t.timeout_ms (record t {
  state = ApprovalState.pending;
  view = record t.view { delivery_error = some message };
})

abbrev pub set_state : ApprovalState → TrackedApproval → TrackedApproval
set_state s t = record t { state = s }

-- The responder has answered: `none`, or the message of its error.
unfoldable pub on_response : ℕ → Flight → Option Text → Coordinator → Outcome
on_response now f none c =
    if f.expiry
    then done [] c
    else let c' = change f.request_id (set_state ApprovalState.resolved) c in
      done (pushed_resolved f.request_id ∷ []) (
        consume_nonce f.request_id f.nonce
          (record c' { user_cancelled = c.user_cancelled || is_cancel f.action }))
on_response now f (some message) c =
    if f.expiry
    then done (interrupt_turn ∷ []) (change f.request_id (set_state ApprovalState.failed) c)
    else let c' = change f.request_id (fail_submission now message) c in
      done
        (elim (get_tracked f.request_id c'.approvals) as (λ _. List Call) [
          | none ↦ []
          | some t ↦ view_updated f.request_id t.view ∷ []
        ])
        c'

abbrev pub expire : TrackedApproval → TrackedApproval
expire t = record t { state = ApprovalState.expired; timeout_timer = none }

-- `expireApproval`, when the timer of the request fires.
unfoldable pub expire_approval : RequestId → Coordinator → Outcome
expire_approval id c = elim (get_tracked id c.approvals) [
  | none ↦ done [] c
  | some t ↦
      if is_pending t.state
      then record {
        next = change id expire c;
        calls = respond id ApprovalAction.cancel ∷ pushed_expired id ∷ [];
        flight = some (record {
          request_id = id;
          action = ApprovalAction.cancel;
          nonce = none;
          expiry = true;
        });
        refused = none;
      }
      else done [] (change id clear_timer c)
]

abbrev pub count_pending : List TrackedApproval → ℕ
count_pending [] = 0
count_pending (t ∷ ts) = (if is_pending t.state then 1 else 0) + count_pending ts

unfoldable pub pending_count : Coordinator → ℕ
pending_count c = count_pending c.approvals
