-- ===== src/Approval/Answers.antt =====
-- The items and questions of a request, in src/bridge/approval-coordinator.ts. What a call changed
-- before it threw stays changed.
use lark_remote.Common.{
  ℕ, String, str_eq, Text, text_eq, trim, Bool, true, false, ◌&&◌, List, [], ◌∷◌, any, Option, none,
  some, or_else, if◌then◌else◌,
}
use lark_remote.RunState.Types.{RequestId}
use lark_remote.Approval.Types.{
  ApprovalKind, UserQuestion, PermItem, TrackedApproval, ApprovalAction, Refusal, not_found,
  duplicate_nonce, not_pending, text_missing, not_permissions, no_items, item_missing, not_question,
  question_missing, option_missing, not_multiple, not_single, nothing_selected, not_plan, Call,
  view_updated, Coordinator, Outcome, is_pending, get_tracked, change, refuse, done,
}
use lark_remote.Approval.Questions.{
  put_at, question_at, questions_of, change_view_question, all_questions_answered, record_answer,
  answers_from, notes_from, asks, toggle_label,
}
use lark_remote.Approval.Coordinator.{is_stale, consume_nonce, send}

abbrev pub asks_permissions : ApprovalKind → Bool
asks_permissions ApprovalKind.permissions = true
asks_permissions _ = false

abbrev pub is_tool : ApprovalKind → Bool
is_tool ApprovalKind.tool = true
is_tool _ = false

-- The first item with the id, as `find` does.
abbrev pub select_item : String → Bool → List PermItem → List PermItem
select_item id on [] = []
select_item id on (i ∷ items) =
    let rest = i ∷ select_item id on items in
    if str_eq i.id id then record i { selected = on } ∷ items else rest

abbrev pub set_permissions : List PermItem → TrackedApproval → TrackedApproval
set_permissions items t = record t { view = record t.view { permissions = some items } }

unfoldable pub toggle_perm : String → Bool → RequestId → Coordinator → Outcome
toggle_perm perm on id c = elim (get_tracked id c.approvals) [
  | none ↦ refuse not_found c
  | some t ↦
      if asks_permissions t.kind
      then if is_pending t.state
        then elim t.view.permissions [
          | none ↦ refuse no_items c
          | some items ↦
              if any (λ i. str_eq i.id perm) items
              then done [] (change id (set_permissions (select_item perm on items)) c)
              else refuse item_missing c
        ]
        else refuse not_pending c
      else refuse not_permissions c
]

-- What `getPendingQuestionAt` finds, or why it throws.
pub data Found : Type 0 where
  missing : Refusal → Found
  found : TrackedApproval → UserQuestion → Found

unfoldable pub get_pending_question_at : RequestId → ℕ → Coordinator → Found
get_pending_question_at id i c = elim (get_tracked id c.approvals) [
  | none ↦ missing not_found
  | some t ↦
      if asks t.kind
      then if is_pending t.state
        then elim (question_at i (questions_of t.view)) [
          | none ↦ missing question_missing
          | some q ↦ found t q
        ]
        else missing not_pending
      else missing not_question
]

-- `assertAndConsumeNonce` before the rest of a call.
abbrev pub with_fresh_nonce :
    RequestId → Option String → Coordinator → (Coordinator → Outcome) → Outcome
with_fresh_nonce id nonce c rest =
    if is_stale id nonce c then refuse duplicate_nonce c else rest (consume_nonce id nonce c)

-- The card is sent the view as it is now.
abbrev pub push_view : RequestId → Coordinator → Outcome
push_view id c =
    done
      (elim (get_tracked id c.approvals) as (λ _. List Call) [
        | none ↦ []
        | some t ↦ view_updated id t.view ∷ []
      ])
      c

unfoldable pub respond_question_answers :
    TrackedApproval → RequestId → Option String → Coordinator → Outcome
respond_question_answers t id nonce c =
    if is_stale id nonce c
    then refuse duplicate_nonce c
    else if is_pending t.state
    then send id nonce
        (ApprovalAction.answer (answers_from t 0 (questions_of t.view) [])
          (notes_from t 0 (questions_of t.view) []))
        c
    else refuse not_pending c

-- The answers are sent when every question has one; else the rest of the call is run.
abbrev pub respond_if_all :
    RequestId → Option String → Coordinator → (Coordinator → Outcome) → Outcome
respond_if_all id nonce c rest = elim (get_tracked id c.approvals) [
  | none ↦ rest c
  | some t ↦ if all_questions_answered t then respond_question_answers t id nonce c else rest c
]

abbrev pub select_labels : ℕ → List Text → TrackedApproval → TrackedApproval
select_labels i labels t = record t {
  view = change_view_question i (λ q. record q { selected = some labels }) t.view;
}

-- A choice or a text is the answer of its question.
abbrev pub answer_with : ℕ → List Text → TrackedApproval → TrackedApproval
answer_with i labels t = record_answer i labels (select_labels i labels t)

unfoldable pub toggle_answer : ℕ → Text → RequestId → Option String → Coordinator → Outcome
unfolding get_pending_question_at respond_question_answers record_answer all_questions_answered
toggle_answer i option id nonce c = elim (get_pending_question_at id i c) [
  | missing r ↦ refuse r c
  | found t q ↦
      if any (λ o. text_eq o option) q.options
      then if q.multi_select
        then with_fresh_nonce id nonce c (λ c'.
          push_view id
            (change id (select_labels i (toggle_label option (or_else q.selected []))) c'))
        else respond_if_all id nonce (change id (answer_with i (option ∷ [])) c) (push_view id)
      else refuse option_missing c
]

unfoldable pub submit_answers : ℕ → RequestId → Option String → Coordinator → Outcome
unfolding get_pending_question_at respond_question_answers record_answer all_questions_answered
submit_answers i id nonce c = elim (get_pending_question_at id i c) [
  | missing r ↦ refuse r c
  | found t q ↦
      if q.multi_select
      then elim (or_else q.selected []) [
        | [] ↦ refuse nothing_selected c
        | l ∷ ls ↦ respond_if_all id nonce (change id (record_answer i (l ∷ ls)) c) (done [])
      ]
      else refuse not_multiple c
]

unfoldable pub answer_custom : ℕ → Text → RequestId → Option String → Coordinator → Outcome
unfolding get_pending_question_at respond_question_answers record_answer all_questions_answered trim
answer_custom i text id nonce c = elim (get_pending_question_at id i c) [
  | missing r ↦ refuse r c
  | found t q ↦ if q.multi_select then refuse not_single c else elim (trim text) [
    | [] ↦ refuse text_missing c
    | x ∷ xs ↦ respond_if_all id nonce (change id (answer_with i ((x ∷ xs) ∷ [])) c) (push_view id)
  ]
]

abbrev pub write_note : ℕ → Text → TrackedApproval → TrackedApproval
write_note i text t = record t {
  notes = put_at i text t.notes;
  view = change_view_question i (λ q. record q { note = some text }) t.view;
}

unfoldable pub answer_note : ℕ → Text → RequestId → Option String → Coordinator → Outcome
unfolding get_pending_question_at trim
answer_note i text id nonce c = elim (get_pending_question_at id i c) [
  | missing r ↦ refuse r c
  | found t q ↦ elim (trim text) [
    | [] ↦ refuse text_missing c
    | x ∷ xs ↦
        with_fresh_nonce id nonce c (λ c'. push_view id (change id (write_note i (x ∷ xs)) c'))
  ]
]

abbrev pub is_plan : TrackedApproval → Bool
is_plan t = is_tool t.kind && elim t.view.tool_name as (λ _. Bool) [
  | none ↦ false
  | some name ↦ str_eq name "ExitPlanMode"
]

abbrev pub write_feedback : Text → TrackedApproval → TrackedApproval
write_feedback text t = record t {
  feedback = some text;
  view = record t.view { plan_feedback = some text };
}

unfoldable pub plan_feedback : Text → RequestId → Option String → Coordinator → Outcome
unfolding trim
plan_feedback text id nonce c = elim (get_tracked id c.approvals) [
  | none ↦ refuse not_found c
  | some t ↦
      if is_pending t.state
      then if is_plan t
        then elim (trim text) [
          | [] ↦ refuse text_missing c
          | x ∷ xs ↦
              with_fresh_nonce id nonce c
                (λ c'. push_view id (change id (write_feedback (x ∷ xs)) c'))
        ]
        else refuse not_plan c
      else refuse not_pending c
]

-- A decision of a card; an unknown one declines.
unfoldable pub decision_to_approval_action : String → ApprovalAction
decision_to_approval_action d =
    if str_eq d "accept"
    then ApprovalAction.accept
    else if str_eq d "acceptForSession"
    then ApprovalAction.accept_for_session
    else if str_eq d "acceptWithExecpolicyAmendment"
    then ApprovalAction.accept_with_execpolicy_amendment
    else if str_eq d "acceptAll"
    then ApprovalAction.accept_all
    else if str_eq d "declineWithFeedback"
    then ApprovalAction.decline_with_feedback []
    else if str_eq d "acceptWithFeedback"
    then ApprovalAction.accept_with_feedback []
    else if str_eq d "cancel"
    then ApprovalAction.cancel
    else ApprovalAction.decline
