-- ===== src/Approval/CallMoves.antt =====
-- Each call of src/bridge/approval-coordinator.ts moves the lives of the requests as allowed:
-- requests, decisions and timers.
use mathlib.Core.Path.{fun_ext, subst}
use mathlib.Core.Option.{map as map_option}
use lark_remote.Common.{
  leb, ℕ, ◌+◌, Bool, true, false, String, List, map, Option, none, some, is_some, or_else, ◌≡◌,
  refl, sym, ap, ◌∙◌, arith, inl, inr, Bool-cases, Option-cases, if◌then◌else◌,
}
use lark_remote.RunState.Types.{RequestId}
use lark_remote.RunState.Approvals.{same_request}
use lark_remote.RunState.ApprovalLaws.{same_request-eq}
use lark_remote.Approval.Types.{
  ApprovalState, ApprovalKind, RequestView, TrackedApproval, ApprovalAction, Coordinator, Outcome,
  is_pending, get_tracked, change, refuse, feedback_missing,
}
use lark_remote.Approval.Coordinator.{
  on_requested, resolve, on_resolved, on_turn_ended, end_pending, replace_view, update_view,
  is_stale, is_allowed, effective_action, submit, send, begin_submit, expire_approval, expire,
  clear_timer, request_again, new_tracked, add_tracked,
}
use lark_remote.Approval.Step.{fire}
use lark_remote.Approval.Lives.{
  Life, Lives, life, life_of, lives_in, lives, put_life, alter, end_life, no_deadline, Moves, quiet,
  asked, resolved, ended, sent, expired, passed,
}
use lark_remote.Approval.LifeLaws.{lives-change, lives-change_at, lives-quiet, get-map, get-append}

-- No nonce that was consumed is forgotten.
abbrev pub Remembers : Coordinator → Coordinator → Type 0
Remembers c c' =
    (id : RequestId) (n : String) → is_stale id (some n) c ≡ true → is_stale id (some n) c' ≡ true

-- What the outcome of a call that asks no request does.
pub data Moved (c : Coordinator) (o : Outcome) : Type 0 where
  moves : Moves (lives c) (lives o.next) o.flight false → Remembers c o.next → Moved c o

-- A call that only changes what the lives forget.
pub quiet-Moves : (A B : Lives) → B ≡ A → Moves A B none false
quiet-Moves A B h = rw h quiet

-- What a call does after a change that the lives forget.
pub Moved-after :
    (c c' : Coordinator) (o : Outcome)
    → lives c' ≡ lives c
    → Remembers c c'
    → Moved c' o
    → Moved c o
Moved-after c c' o h k (moves m r) =
    moves (subst (λ A. Moves A (lives o.next) o.flight false) h m) (λ id n e. r id n (k id n e))

pub on_resolved-Moves :
    (id : RequestId) (c : Coordinator) → Moves (lives c) (lives (on_resolved id c)) none false
unfolding on_resolved
on_resolved-Moves id c =
    rw (lives-change id resolve (λ _. life ApprovalState.resolved none) c (λ t. refl) (λ t. refl))
      (resolved id)

end_pending_life :
    (o : Option TrackedApproval)
    → map_option life_of (map_option end_pending o) ≡ map_option end_life (map_option life_of o)
end_pending_life none = refl
end_pending_life (some t) = ground arith

lives_ended :
    (ts : List TrackedApproval) (r : RequestId)
    → lives_in (map end_pending ts) r ≡ map_option end_life (lives_in ts r)
lives_ended ts r =
    ap (map_option life_of) (get-map r end_pending ts (λ t. ground arith))
    ∙ end_pending_life (get_tracked r ts)

pub on_turn_ended-Moves : (c : Coordinator) → Moves (lives c) (lives (on_turn_ended c)) none false
unfolding on_turn_ended
on_turn_ended-Moves c = rw (fun_ext (lives_ended c.approvals)) ended

pub update_view-Moves :
    (id : RequestId) (view : RequestView) (c : Coordinator)
    → Moves (lives c) (lives (update_view id view c)) none false
unfolding update_view
update_view-Moves id view c =
    quiet-Moves (lives c) (lives (update_view id view c))
      (lives-quiet id (replace_view view) c (λ t. ground arith) (λ t. ground arith))

pub send-Moves :
    (id : RequestId) (nonce : Option String) (a : ApprovalAction) (c : Coordinator)
    (t : TrackedApproval)
    → get_tracked id c.approvals ≡ some t
    → t.state ≡ ApprovalState.pending
    → Moved c (send id nonce a c)
send-Moves id nonce a c t h p =
    moves
      (rw
        (lives-change id begin_submit (λ _. life ApprovalState.submitting none) c (λ t. refl)
          (λ t. refl))
        (sent (record { request_id = id; action = a; nonce = nonce; expiry = false })
          t.timeout_timer (rw (h, p) refl) refl))
      (λ _ _ e. e)

pub is_pending-eq : (s : ApprovalState) → is_pending s ≡ true → s ≡ ApprovalState.pending
is_pending-eq s h = ground arith

pub Moved-if :
    {c : Coordinator} {o o' : Outcome} (b : Bool)
    → (b ≡ true → Moved c o)
    → (b ≡ false → Moved c o')
    → Moved c (if b then o else o')
Moved-if true h k = h refl
Moved-if false h k = k refl

submit_sent :
    (a : ApprovalAction) (id : RequestId) (click : Option String) (c : Coordinator)
    (t : TrackedApproval)
    → get_tracked id c.approvals ≡ some t
    → is_pending t.state ≡ true
    → Moved c (elim (effective_action a t) [
      | none ↦ refuse feedback_missing c
      | some action ↦ send id click action c
    ])
submit_sent a id click c t h p = elim (Option-cases (effective_action a t)) [
  | inl e ↦ rw e (moves quiet (λ _ _ k. k))
  | inr (sent_action, e) ↦ rw e (send-Moves id click sent_action c t h (is_pending-eq t.state p))
]

pub submit-Moves :
    (a : ApprovalAction) (id : RequestId) (nonce : Option String) (c : Coordinator)
    → Moved c (submit a id nonce c)
unfolding submit
submit-Moves a id click c = elim (Option-cases (get_tracked id c.approvals)) [
  | inl h ↦ rw (h, submit) (moves quiet (λ _ _ e. e))
  | inr (t, h) ↦
      rw (h, submit)
        (Moved-if (is_stale id click c) (λ _. moves quiet (λ _ _ e. e))
          λ _.
            Moved-if (is_pending t.state)
              (λ p.
                Moved-if (is_allowed a t.view) (λ _. submit_sent a id click c t h p)
                  (λ _. moves quiet (λ _ _ e. e)))
              (λ _. moves quiet (λ _ _ e. e)))
]

same_tracked {ℓ} : {A : Type ℓ} {o : Option A} {t u : A} → o ≡ some u → o ≡ some t → u ≡ t
same_tracked k h = ground (arith, sym k ∙ h)

expire-Moves :
    (id : RequestId) (c : Coordinator) (t : TrackedApproval) (d : ℕ)
    → get_tracked id c.approvals ≡ some t
    → t.timeout_timer ≡ some d
    → Moved c (expire_approval id c)
unfolding expire_approval
expire-Moves id c t d h e =
    rw (h, expire_approval)
      (elim (Bool-cases (is_pending t.state)) [
        | inl p ↦ rw p (
            moves
              (rw
                (lives-change id expire (λ _. life ApprovalState.expired none) c (λ t. refl)
                  (λ t. refl))
                (expired
                  (record {
                    request_id = id;
                    action = ApprovalAction.cancel;
                    nonce = none;
                    expiry = true;
                  })
                  d (rw (h, e, is_pending-eq t.state p) refl) refl))
              (λ _ _ k. k))
        | inr p ↦ rw p (
            moves
              (rw
                (lives-change_at id clear_timer (no_deadline (life_of t)) c (λ t. refl)
                  (λ u k. ap (λ x. no_deadline (life_of x)) (same_tracked k h)))
                (passed id (life_of t) (ap (map_option life_of) h) p))
              (λ _ _ k. k))
      ])

pub fire-Moves : (now : ℕ) (id : RequestId) (c : Coordinator) → Moved c (fire now id c)
unfolding fire
fire-Moves now id c = elim (Option-cases (get_tracked id c.approvals)) [
  | inl h ↦ rw (h, fire) (moves quiet (λ _ _ e. e))
  | inr (t, h) ↦ elim (Option-cases t.timeout_timer) [
    | inl e ↦ rw (h, fire, e) (moves quiet (λ _ _ e. e))
    | inr (d, e) ↦
        rw (h, fire, e)
          (Moved-if (leb d now) (λ _. expire-Moves id c t d h e) (λ _. moves quiet (λ _ _ e. e)))
  ]
]

lives_new :
    (c : Coordinator) (t : TrackedApproval)
    → get_tracked t.request_id c.approvals ≡ none
    → lives (add_tracked t c) ≡ put_life t.request_id (life_of t) (lives c)
lives_new c t h = fun_ext λ r.
    ap (map_option life_of) (get-append r t c.approvals h)
    ∙ some_life (same_request t.request_id r) (get_tracked r c.approvals)
  where
    some_life :
        (b : Bool) (o : Option TrackedApproval)
        → map_option life_of (if b then some t else o)
          ≡ (if b then some (life_of t) else map_option life_of o)
    some_life true o = refl
    some_life false o = refl

alter_tracked :
    (id : RequestId) (l old : Life) (A : Lives)
    → A id ≡ some old
    → alter id (λ _. l) A ≡ put_life id l A
alter_tracked id l old A h = fun_ext λ r. elim (Bool-cases (same_request id r)) [
  | inl e ↦ rw (e, ← same_request-eq id r e, h) refl
  | inr e ↦ rw e refl
]

requested_again :
    (now : ℕ) (id : RequestId) (kind : ApprovalKind) (view : RequestView) (timeout : Option ℕ)
    (c : Coordinator) (t : TrackedApproval)
    → get_tracked id c.approvals ≡ some t
    → on_requested now id kind view timeout c
      ≡ change id (request_again now view (or_else timeout c.approval_timeout_ms)) c
unfolding on_requested
requested_again now id kind view timeout c t h = rw (h, on_requested) refl

requested_new :
    (now : ℕ) (id : RequestId) (kind : ApprovalKind) (view : RequestView) (timeout : Option ℕ)
    (c : Coordinator)
    → get_tracked id c.approvals ≡ none
    → on_requested now id kind view timeout c
      ≡ add_tracked (new_tracked now id kind view (or_else timeout c.approval_timeout_ms)) c
unfolding on_requested
requested_new now id kind view timeout c h = rw (h, on_requested) refl

pub on_requested-Moves :
    (now : ℕ) (id : RequestId) (kind : ApprovalKind) (view : RequestView) (timeout : Option ℕ)
    (c : Coordinator)
    → Moves (lives c) (lives (on_requested now id kind view timeout c)) none (is_some (lives c id))
on_requested-Moves now id kind view timeout c =
    let ms = or_else timeout c.approval_timeout_ms in
    let l = life ApprovalState.pending (some (now + ms)) in
    elim (Option-cases (get_tracked id c.approvals)) [
      | inl h ↦
          subst (λ B. Moves (lives c) B none (is_some (lives c id)))
            (sym (
              ap lives (requested_new now id kind view timeout c h)
              ∙ lives_new c (new_tracked now id kind view ms) h))
            (asked id (now + ms))
      | inr (t, h) ↦
          subst (λ B. Moves (lives c) B none (is_some (lives c id)))
            (sym (
              ap lives (requested_again now id kind view timeout c t h)
              ∙ lives-change id (request_again now view ms) (λ _. l) c (λ t. refl) (λ t. refl)
              ∙ alter_tracked id l (life_of t) (lives c) (ap (map_option life_of) h)))
            (asked id (now + ms))
    ]

pub on_requested-Remembers :
    (now : ℕ) (id : RequestId) (kind : ApprovalKind) (view : RequestView) (timeout : Option ℕ)
    (c : Coordinator)
    → Remembers c (on_requested now id kind view timeout c)
on_requested-Remembers now id kind view timeout c r n k =
    elim (Option-cases (get_tracked id c.approvals)) [
      | inl h ↦ rw (requested_new now id kind view timeout c h) k
      | inr (t, h) ↦ rw (requested_again now id kind view timeout c t h) k
    ]
