-- ===== src/Approval/Refinement.antt =====
-- The coordinator of src/bridge/approval-coordinator.ts keeps what Lives promises.
use mathlib.Core.Path.{subst}
use mathlib.Core.Option.{map as map_option}
use lark_remote.Common.{
  ℕ, ◌+◌, true, false, ◌||◌, Text, Option, none, some, is_some, ◌≡◌, refl, sym, ◌∙◌, inl, inr,
  Bool-cases, Option-cases,
}
use lark_remote.Approval.Types.{ApprovalState, Coordinator, Flight, Outcome, get_tracked, change}
use lark_remote.Approval.Coordinator.{
  on_requested, on_resolved, on_turn_ended, update_view, on_response, set_state, fail_submission,
  is_cancel,
}
use lark_remote.Approval.Step.{
  System, Event, handle, flight_at, is_accepted, answered, call, step, asks_again,
}
use lark_remote.Approval.Lives.{
  life, life_of, lives, alter, in_state, Moves, Lands, accepted, rejected, cancelled, lost, promise,
  Serves, idle, calls, answers,
}
use lark_remote.Approval.LifeLaws.{lives-change, lives-change_at}
use lark_remote.Approval.CallMoves.{
  Remembers, Moved, moves, on_requested-Moves, on_requested-Remembers, on_resolved-Moves,
  on_turn_ended-Moves, update_view-Moves, submit-Moves, fire-Moves,
}
use lark_remote.Approval.AnswerMoves.{
  consumed, consume_nonce-Remembers, toggle_perm-Moves, toggle_answer-Moves, submit_answers-Moves,
  answer_custom-Moves, answer_note-Moves, plan_feedback-Moves,
}

-- Proofs about the event in hand.
abbrev Handled : Event → Coordinator → Type 0
Handled e c =
    Moves (lives c) (lives (handle e c).next) (handle e c).flight (asks_again e c)
    × Remembers c (handle e c).next

handled :
    (c : Coordinator) (o : Outcome)
    → Moved c o
    → Moves (lives c) (lives o.next) o.flight false × Remembers c o.next
handled c o (moves m r) = (m, r)

is_some-map {ℓ κ} :
    {A : Type ℓ} {B : Type κ} (f : A → B) (o : Option A) → is_some (map_option f o) ≡ is_some o
is_some-map f none = refl
is_some-map f (some a) = refl

handle-Handled : (e : Event) (c : Coordinator) → Handled e c
unfolding handle on_resolved on_turn_ended update_view
handle-Handled (Event.requested now id kind view ms) c = (
  subst (Moves (lives c) (lives (on_requested now id kind view ms c)) none)
      (is_some-map life_of (get_tracked id c.approvals)) (on_requested-Moves now id kind view ms c),
  on_requested-Remembers now id kind view ms c,
)
handle-Handled (Event.resolved id) c = (on_resolved-Moves id c, λ _ _ k. k)
handle-Handled Event.turn_ended c = (on_turn_ended-Moves c, λ _ _ k. k)
handle-Handled (Event.updated id view) c = (update_view-Moves id view c, λ _ _ k. k)
handle-Handled (Event.submitted a id click) c = handled c _ (submit-Moves a id click c)
handle-Handled (Event.perm_toggled perm on id) c = handled c _ (toggle_perm-Moves perm on id c)
handle-Handled (Event.answer_toggled i o id click) c =
    handled c _ (toggle_answer-Moves i o id click c)
handle-Handled (Event.answers_submitted i id click) c =
    handled c _ (submit_answers-Moves i id click c)
handle-Handled (Event.custom_answered i text id click) c =
    handled c _ (answer_custom-Moves i text id click c)
handle-Handled (Event.noted i text id click) c = handled c _ (answer_note-Moves i text id click c)
handle-Handled (Event.plan_remarked text id click) c =
    handled c _ (plan_feedback-Moves text id click c)
handle-Handled (Event.timer_fired now id) c = handled c _ (fire-Moves now id c)
handle-Handled (Event.settled now k message) c = (Moves.quiet, λ _ _ k. k)

-- What an answer does to the lives.
lives-accepted :
    (now : ℕ) (f : Flight) (c : Coordinator)
    → f.expiry ≡ false
    → lives (on_response now f none c).next
      ≡ alter f.request_id (in_state ApprovalState.resolved) (lives c)
unfolding on_response
lives-accepted now f c e = rw e (
    consumed f.request_id f.nonce
      (record (change f.request_id (set_state ApprovalState.resolved) c) {
        user_cancelled = c.user_cancelled || is_cancel f.action;
      })
    ∙ lives-change f.request_id (set_state ApprovalState.resolved) (in_state ApprovalState.resolved)
        c (λ t. refl) (λ t. refl))

lives-cancelled :
    (now : ℕ) (f : Flight) (c : Coordinator)
    → f.expiry ≡ true
    → lives (on_response now f none c).next ≡ lives c
unfolding on_response
lives-cancelled now f c e = rw e refl

lives-lost :
    (now : ℕ) (f : Flight) (m : Text) (c : Coordinator)
    → f.expiry ≡ true
    → lives (on_response now f (some m) c).next
      ≡ alter f.request_id (in_state ApprovalState.failed) (lives c)
unfolding on_response
lives-lost now f m c e = rw e (
    lives-change f.request_id (set_state ApprovalState.failed) (in_state ApprovalState.failed) c
      (λ t. refl) (λ t. refl))

retry_at : ℕ → Flight → Coordinator → ℕ
retry_at now f c = elim (get_tracked f.request_id c.approvals) as (λ _. ℕ) [
  | none ↦ now
  | some t ↦ now + t.timeout_ms
]

lives-rejected :
    (now : ℕ) (f : Flight) (m : Text) (c : Coordinator)
    → f.expiry ≡ false
    → lives (on_response now f (some m) c).next
      ≡ alter f.request_id (λ _. life ApprovalState.pending (some (retry_at now f c))) (lives c)
unfolding on_response retry_at
lives-rejected now f m c e = rw e (
    lives-change_at f.request_id (fail_submission now m)
      (life ApprovalState.pending (some (retry_at now f c))) c (λ t. refl)
      (λ t h. rw (h, retry_at) refl))

on_response-Lands :
    (now : ℕ) (f : Flight) (message : Option Text) (c : Coordinator)
    → Lands (lives c) f (is_accepted message) (lives (on_response now f message c).next)
on_response-Lands now f none c = elim (Bool-cases f.expiry) [
  | inl e ↦ subst (Lands (lives c) f true) (sym (lives-cancelled now f c e)) (cancelled f e)
  | inr e ↦ subst (Lands (lives c) f true) (sym (lives-accepted now f c e)) (accepted f e)
]
on_response-Lands now f (some m) c = elim (Bool-cases f.expiry) [
  | inl e ↦ subst (Lands (lives c) f false) (sym (lives-lost now f m c e)) (lost f e)
  | inr e ↦
      subst (Lands (lives c) f false) (sym (lives-rejected now f m c e))
        (rejected f (retry_at now f c) e)
]

on_response-Remembers :
    (now : ℕ) (f : Flight) (message : Option Text) (c : Coordinator)
    → Remembers c (on_response now f message c).next
unfolding on_response
on_response-Remembers now f none c id n h = elim (Bool-cases f.expiry) [
  | inl e ↦ rw e h
  | inr e ↦ rw e (consume_nonce-Remembers f.request_id f.nonce _ id n h)
]
on_response-Remembers now f (some m) c id n h = elim (Bool-cases f.expiry) [
  | inl e ↦ rw e h
  | inr e ↦ rw e h
]

called :
    (e : Event) (s : System) → Serves (promise s) (promise (call e s)) (asks_again e s.coordinator)
called e s = calls (handle-Handled e s.coordinator).0

-- Every step of a coordinator moves the lives and the calls of the responder as promised: only a
-- pending request is submitted or expires, and an answer touches the request it was for.
pub step-Serves :
    (e : Event) (s : System) → Serves (promise s) (promise (step e s)) (asks_again e s.coordinator)
unfolding step
step-Serves (Event.settled now k message) s = elim (Option-cases (flight_at k s.in_flight)) [
  | inl h ↦ rw (h, answered) idle
  | inr (f, h) ↦
      rw (h, answered)
        (answers k f (is_accepted message) h (on_response-Lands now f message s.coordinator))
]
step-Serves e s = called e s

pub step-Remembers : (e : Event) (s : System) → Remembers s.coordinator (step e s).coordinator
unfolding step
step-Remembers (Event.settled now k message) s id n m =
    elim (Option-cases (flight_at k s.in_flight)) [
      | inl h ↦ rw (h, answered) m
      | inr (f, h) ↦ rw (h, answered) (on_response-Remembers now f message s.coordinator id n m)
    ]
step-Remembers e s id n m = (handle-Handled e s.coordinator).1 id n m
