-- ===== src/Approval/Clicks.antt =====
-- The nonces of src/bridge/approval-coordinator.ts: a button of a card takes effect once.
use lark_remote.Common.{
  ℕ, Bool, true, false, String, Text, trim, List, [], ◌∷◌, ◌++◌, any, none, some, ◌≡◌, refl, arith,
  eq_iff, inl, inr, Bool-cases, Option-cases, List-cases,
}
use lark_remote.RunState.Types.{RequestId}
use lark_remote.RunState.ApprovalLaws.{same_request_refl}
use lark_remote.Approval.Types.{
  ApprovalAction, Coordinator, Flight, Outcome, is_pending, get_tracked,
}
use lark_remote.Approval.Coordinator.{is_used, is_stale, consume_nonce, submit, on_response}
use lark_remote.Approval.Answers.{get_pending_question_at, answer_note, plan_feedback, is_plan}
use lark_remote.Approval.Step.{System, Event, flight_at, answered, step, steps}
use lark_remote.Approval.AnswerMoves.{Found-cases}
use lark_remote.Approval.Refinement.{step-Remembers}

-- Nothing changes and nothing is called.
abbrev pub IsIdle : Coordinator → Outcome → Type 0
IsIdle c o = (o.next ≡ c) × (o.calls ≡ []) × (o.flight ≡ none)

any-last :
    (p : RequestId × String → Bool) (xs : List (RequestId × String)) (x : RequestId × String)
    → p x ≡ true
    → any p (xs ++ x ∷ []) ≡ true
any-last p [] x h = ground arith
any-last p (y ∷ ys) x h = ground (arith, any-last p ys x h)

is_used_self : (id : RequestId) (n : String) → is_used id n (id, n) ≡ true
is_used_self id n = ground (arith, same_request_refl id, eq_iff n n)

-- A nonce that is consumed is stale.
is_stale-consume :
    (id : RequestId) (n : String) (c : Coordinator)
    → is_stale id (some n) (consume_nonce id (some n) c) ≡ true
is_stale-consume id n c = elim (Bool-cases (any (is_used id n) c.submitted_nonces)) [
  | inl e ↦ rw (e, e) refl
  | inr e ↦ rw e (any-last (is_used id n) c.submitted_nonces (id, n) (is_used_self id n))
]

steps-stale :
    (es : List Event) (s : System) (id : RequestId) (n : String)
    → is_stale id (some n) s.coordinator ≡ true
    → is_stale id (some n) (steps es s).coordinator ≡ true
steps-stale [] s id n h = h
steps-stale (e ∷ es) s id n h = steps-stale es (step e s) id n (step-Remembers e s id n h)

submit_stale :
    (a : ApprovalAction) (id : RequestId) (n : String) (c : Coordinator)
    → is_stale id (some n) c ≡ true
    → IsIdle c (submit a id (some n) c)
unfolding submit
submit_stale a id n c h = elim (Option-cases (get_tracked id c.approvals)) [
  | inl e ↦ rw (e, submit) (refl, refl, refl)
  | inr (t, e) ↦ rw (e, submit, h) (refl, refl, refl)
]

answer_note_stale :
    (i : ℕ) (text : Text) (id : RequestId) (n : String) (c : Coordinator)
    → is_stale id (some n) c ≡ true
    → IsIdle c (answer_note i text id (some n) c)
unfolding answer_note
answer_note_stale i text id n c h = elim (Found-cases (get_pending_question_at id i c)) [
  | inl (r, e) ↦ rw (e, answer_note) (refl, refl, refl)
  | inr (t, q, e) ↦
      rw (e, answer_note)
        (elim (List-cases (trim text)) [
          | inl k ↦ rw k (refl, refl, refl)
          | inr (x, xs, k) ↦ rw (k, h) (refl, refl, refl)
        ])
]

plan_feedback_stale :
    (text : Text) (id : RequestId) (n : String) (c : Coordinator)
    → is_stale id (some n) c ≡ true
    → IsIdle c (plan_feedback text id (some n) c)
unfolding plan_feedback
plan_feedback_stale text id n c h = elim (Option-cases (get_tracked id c.approvals)) [
  | inl e ↦ rw (e, plan_feedback) (refl, refl, refl)
  | inr (t, e) ↦ elim (Bool-cases (is_pending t.state)) [
    | inr p ↦ rw (e, plan_feedback, p) (refl, refl, refl)
    | inl p ↦ elim (Bool-cases (is_plan t)) [
      | inr q ↦ rw (e, plan_feedback, p, q) (refl, refl, refl)
      | inl q ↦ elim (List-cases (trim text)) [
        | inl k ↦ rw (e, plan_feedback, p, q, k) (refl, refl, refl)
        | inr (x, xs, k) ↦ rw (e, plan_feedback, p, q, k, h) (refl, refl, refl)
      ]
    ]
  ]
]

delivered_stale :
    (s : System) (now k : ℕ) (f : Flight) (n : String)
    → flight_at k s.in_flight ≡ some f
    → f.expiry ≡ false
    → f.nonce ≡ some n
    → is_stale f.request_id (some n) (step (Event.settled now k none) s).coordinator ≡ true
unfolding step on_response
delivered_stale s now k f n h e m = rw (h, answered, e, m) (is_stale-consume f.request_id n _)

-- Once a submission with a nonce was accepted, and whatever calls follow, another submission, remark
-- or plan feedback with this nonce for the request changes nothing and calls nothing.
pub click_once :
    (s : System) (now k : ℕ) (f : Flight) (n : String) (es : List Event) (a : ApprovalAction)
    (i : ℕ) (text : Text)
    → flight_at k s.in_flight ≡ some f
    → f.expiry ≡ false
    → f.nonce ≡ some n
    → let c = (steps es (step (Event.settled now k none) s)).coordinator in
      IsIdle c (submit a f.request_id (some n) c)
      × IsIdle c (answer_note i text f.request_id (some n) c)
      × IsIdle c (plan_feedback text f.request_id (some n) c)
click_once s now k f n es a i text h e m =
    let s' = step (Event.settled now k none) s in
    let c = (steps es s').coordinator in
    let stale = steps-stale es s' f.request_id n (delivered_stale s now k f n h e m) in
    (
      submit_stale a f.request_id n c stale,
      answer_note_stale i text f.request_id n c stale,
      plan_feedback_stale text f.request_id n c stale,
    )
