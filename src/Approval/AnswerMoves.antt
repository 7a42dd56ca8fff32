-- ===== src/Approval/AnswerMoves.antt =====
-- Each call of src/bridge/approval-coordinator.ts on the items and questions of a request moves the
-- lives as allowed: only the call that gives the last answer sends.
use lark_remote.Common.{
  ℕ, Bool, true, String, Text, text_eq, str_eq, trim, List, [], ◌∷◌, ◌++◌, any, Option, none, some,
  or_else, ◌≡◌, refl, arith, ◌⊎◌, inl, inr, Option-cases, List-cases,
}
use lark_remote.RunState.Types.{RequestId}
use lark_remote.Approval.Types.{
  UserQuestion, TrackedApproval, Refusal, Coordinator, Outcome, is_pending, get_tracked, change,
  done,
}
use lark_remote.Approval.Questions.{all_questions_answered, record_answer, toggle_label}
use lark_remote.Approval.Coordinator.{is_used, is_stale, consume_nonce}
use lark_remote.Approval.Answers.{
  asks_permissions, toggle_perm, set_permissions, select_item, Found, missing, found,
  get_pending_question_at, with_fresh_nonce, push_view, respond_question_answers, respond_if_all,
  select_labels, answer_with, toggle_answer, submit_answers, answer_custom, write_note, answer_note,
  is_plan, write_feedback, plan_feedback,
}
use lark_remote.Approval.Lives.{lives, life_of, quiet}
use lark_remote.Approval.LifeLaws.{KeepsId, lives-quiet}
use lark_remote.Approval.CallMoves.{
  Remembers, Moved, moves, Moved-if, Moved-after, send-Moves, is_pending-eq,
}

-- Changes of views, answers and remarks.
abbrev pub IsQuiet : (TrackedApproval → TrackedApproval) → Type 0
IsQuiet f = KeepsId f × ((t : TrackedApproval) → life_of (f t) ≡ life_of t)

changed_then :
    (id : RequestId) (f : TrackedApproval → TrackedApproval) (c : Coordinator) (o : Outcome)
    → IsQuiet f
    → Moved (change id f c) o
    → Moved c o
changed_then id f c o q m =
    Moved-after c (change id f c) o (lives-quiet id f c q.0 q.1) (λ _ _ k. k) m

push_view-Moves : (id : RequestId) (c : Coordinator) → Moved c (push_view id c)
push_view-Moves id c = moves quiet (λ _ _ k. k)

pub consumed :
    (id : RequestId) (click : Option String) (c : Coordinator)
    → lives (consume_nonce id click c) ≡ lives c
consumed id none c = refl
consumed id (some n) c = ground arith

remembered :
    (p : RequestId × String → Bool) (xs : List (RequestId × String)) (x : RequestId × String)
    → any p xs ≡ true
    → any p (xs ++ x ∷ []) ≡ true
remembered p [] x h = ground arith
remembered p (y ∷ ys) x h = ground (arith, remembered p ys x)

pub consume_nonce-Remembers :
    (id : RequestId) (click : Option String) (c : Coordinator)
    → Remembers c (consume_nonce id click c)
consume_nonce-Remembers id none c r m h = h
consume_nonce-Remembers id (some n) c r m h =
    ground (arith, remembered (is_used r m) c.submitted_nonces (id, n) h)

with_fresh_nonce-Moves :
    (id : RequestId) (click : Option String) (c : Coordinator)
    (f : TrackedApproval → TrackedApproval)
    → IsQuiet f
    → Moved c (with_fresh_nonce id click c (λ c'. push_view id (change id f c')))
with_fresh_nonce-Moves id click c f q =
    let c' = consume_nonce id click c in
    let o = push_view id (change id f c') in
    Moved-if (is_stale id click c) (λ _. moves quiet (λ _ _ k. k))
      λ _.
        Moved-after c c' o (consumed id click c) (consume_nonce-Remembers id click c)
          (changed_then id f c' o q (push_view-Moves id (change id f c')))

respond-Moves :
    (t : TrackedApproval) (id : RequestId) (click : Option String) (c : Coordinator)
    → get_tracked id c.approvals ≡ some t
    → Moved c (respond_question_answers t id click c)
unfolding respond_question_answers
respond-Moves t id click c h =
    Moved-if (is_stale id click c) (λ _. moves quiet (λ _ _ k. k))
      λ _.
        Moved-if (is_pending t.state) (λ p. send-Moves id click _ c t h (is_pending-eq t.state p))
          (λ _. moves quiet (λ _ _ k. k))

respond_if_all-Moves :
    (id : RequestId) (click : Option String) (c : Coordinator) (rest : Coordinator → Outcome)
    → Moved c (rest c)
    → Moved c (respond_if_all id click c rest)
respond_if_all-Moves id click c rest m = elim (Option-cases (get_tracked id c.approvals)) [
  | inl h ↦ rw (h, respond_if_all) m
  | inr (t, h) ↦
      rw (h, respond_if_all)
        (Moved-if (all_questions_answered t) (λ _. respond-Moves t id click c h) (λ _. m))
]

-- An answer is written, and then all are sent if it was the last.
answered-Moves :
    (id : RequestId) (click : Option String) (c : Coordinator)
    (f : TrackedApproval → TrackedApproval) (rest : Coordinator → Outcome)
    → IsQuiet f
    → Moved (change id f c) (rest (change id f c))
    → Moved c (respond_if_all id click (change id f c) rest)
answered-Moves id click c f rest q m =
    changed_then id f c _ q (respond_if_all-Moves id click (change id f c) rest m)

pub Found-cases :
    (F : Found)
    → ((r : Refusal) × (F ≡ missing r))
      ⊎ ((t : TrackedApproval) × (q : UserQuestion) × (F ≡ found t q))
Found-cases (missing r) = inl (r, refl)
Found-cases (found t q) = inr (t, q, refl)

answer_with-IsQuiet : (i : ℕ) (labels : List Text) → IsQuiet (answer_with i labels)
unfolding record_answer
answer_with-IsQuiet i labels = (λ t. refl, λ t. refl)

record_answer-IsQuiet : (i : ℕ) (labels : List Text) → IsQuiet (record_answer i labels)
unfolding record_answer
record_answer-IsQuiet i labels = (λ t. refl, λ t. refl)

pub toggle_answer-Moves :
    (i : ℕ) (option : Text) (id : RequestId) (click : Option String) (c : Coordinator)
    → Moved c (toggle_answer i option id click c)
unfolding toggle_answer
toggle_answer-Moves i option id click c = elim (Found-cases (get_pending_question_at id i c)) [
  | inl (r, h) ↦ rw (h, toggle_answer) (moves quiet (λ _ _ k. k))
  | inr (t, q, h) ↦
      rw (h, toggle_answer)
        (Moved-if (any (λ o. text_eq o option) q.options)
          (λ _.
            Moved-if q.multi_select
              (λ _.
                with_fresh_nonce-Moves id click c
                  (select_labels i (toggle_label option (or_else q.selected [])))
                  (λ t. refl, λ t. refl))
              (λ _.
                answered-Moves id click c (answer_with i (option ∷ [])) (push_view id)
                  (answer_with-IsQuiet i (option ∷ [])) (moves quiet (λ _ _ k. k))))
          (λ _. moves quiet (λ _ _ k. k)))
]

pub submit_answers-Moves :
    (i : ℕ) (id : RequestId) (click : Option String) (c : Coordinator)
    → Moved c (submit_answers i id click c)
unfolding submit_answers
submit_answers-Moves i id click c = elim (Found-cases (get_pending_question_at id i c)) [
  | inl (r, h) ↦ rw (h, submit_answers) (moves quiet (λ _ _ k. k))
  | inr (t, q, h) ↦
      rw (h, submit_answers)
        (Moved-if q.multi_select
          (λ _. elim (List-cases (or_else q.selected [])) [
            | inl e ↦ rw e (moves quiet (λ _ _ k. k))
            | inr (l, ls, e) ↦ rw e (
                answered-Moves id click c (record_answer i (l ∷ ls)) (done [])
                  (record_answer-IsQuiet i (l ∷ ls)) (moves quiet (λ _ _ k. k)))
          ])
          (λ _. moves quiet (λ _ _ k. k)))
]

pub answer_custom-Moves :
    (i : ℕ) (text : Text) (id : RequestId) (click : Option String) (c : Coordinator)
    → Moved c (answer_custom i text id click c)
unfolding answer_custom
answer_custom-Moves i text id click c = elim (Found-cases (get_pending_question_at id i c)) [
  | inl (r, h) ↦ rw (h, answer_custom) (moves quiet (λ _ _ k. k))
  | inr (t, q, h) ↦
      rw (h, answer_custom)
        (Moved-if q.multi_select (λ _. moves quiet (λ _ _ k. k))
          λ _. elim (List-cases (trim text)) [
            | inl e ↦ rw e (moves quiet (λ _ _ k. k))
            | inr (x, xs, e) ↦ rw e (
                answered-Moves id click c (answer_with i ((x ∷ xs) ∷ [])) (push_view id)
                  (answer_with-IsQuiet i ((x ∷ xs) ∷ [])) (moves quiet (λ _ _ k. k)))
          ])
]

pub answer_note-Moves :
    (i : ℕ) (text : Text) (id : RequestId) (click : Option String) (c : Coordinator)
    → Moved c (answer_note i text id click c)
unfolding answer_note
answer_note-Moves i text id click c = elim (Found-cases (get_pending_question_at id i c)) [
  | inl (r, h) ↦ rw (h, answer_note) (moves quiet (λ _ _ k. k))
  | inr (t, q, h) ↦
      rw (h, answer_note)
        (elim (List-cases (trim text)) [
          | inl e ↦ rw e (moves quiet (λ _ _ k. k))
          | inr (x, xs, e) ↦
              rw e
                (with_fresh_nonce-Moves id click c (write_note i (x ∷ xs)) (λ t. refl, λ t. refl))
        ])
]

pub plan_feedback-Moves :
    (text : Text) (id : RequestId) (click : Option String) (c : Coordinator)
    → Moved c (plan_feedback text id click c)
unfolding plan_feedback
plan_feedback-Moves text id click c = elim (Option-cases (get_tracked id c.approvals)) [
  | inl h ↦ rw (h, plan_feedback) (moves quiet (λ _ _ k. k))
  | inr (t, h) ↦
      rw (h, plan_feedback)
        (Moved-if (is_pending t.state)
          (λ _.
            Moved-if (is_plan t)
              (λ _. elim (List-cases (trim text)) [
                | inl e ↦ rw e (moves quiet (λ _ _ k. k))
                | inr (x, xs, e) ↦ rw e (
                    with_fresh_nonce-Moves id click c (write_feedback (x ∷ xs))
                      (λ t. refl, λ t. refl))
              ])
              (λ _. moves quiet (λ _ _ k. k)))
          (λ _. moves quiet (λ _ _ k. k)))
]

pub toggle_perm-Moves :
    (perm : String) (on : Bool) (id : RequestId) (c : Coordinator)
    → Moved c (toggle_perm perm on id c)
unfolding toggle_perm
toggle_perm-Moves perm on id c = elim (Option-cases (get_tracked id c.approvals)) [
  | inl h ↦ rw (h, toggle_perm) (moves quiet (λ _ _ k. k))
  | inr (t, h) ↦
      rw (h, toggle_perm)
        (Moved-if (asks_permissions t.kind)
          (λ _.
            Moved-if (is_pending t.state)
              (λ _. elim (Option-cases t.view.permissions) [
                | inl e ↦ rw e (moves quiet (λ _ _ k. k))
                | inr (items, e) ↦ rw e (
                    Moved-if (any (λ i. str_eq i.id perm) items)
                      (λ _.
                        changed_then id (set_permissions (select_item perm on items)) c _
                          (λ t. refl, λ t. refl) (moves quiet (λ _ _ k. k)))
                      (λ _. moves quiet (λ _ _ k. k)))
              ])
              (λ _. moves quiet (λ _ _ k. k)))
          (λ _. moves quiet (λ _ _ k. k)))
]
