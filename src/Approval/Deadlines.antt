-- ===== src/Approval/Deadlines.antt =====
-- No approval of src/bridge/approval-coordinator.ts waits for ever: a pending one has a deadline.
use mathlib.Core.Path.{subst}
use mathlib.Core.Option.{map as map_option}
use lark_remote.Common.{
  ℕ, ◌≤◌, Bool, true, false, List, [], ◌∷◌, Option, none, some, or_else, is_some, ◌≡◌, refl, ap,
  ◌∙◌, arith, leb, inl, inr, Option-cases, if◌then◌else◌,
}
use lark_remote.RunState.Types.{RequestId}
use lark_remote.RunState.Approvals.{same_request}
use lark_remote.RunState.ApprovalLaws.{same_request_refl}
use lark_remote.Approval.Types.{
  ApprovalState, TrackedApproval, ApprovalAction, Flight, respond, pushed_expired, is_pending,
  get_tracked, update_tracked,
}
use lark_remote.Approval.Coordinator.{expire_approval, expire}
use lark_remote.Approval.Step.{System, Event, fire, handle, step, Reach, start, next}
use lark_remote.Approval.Lives.{
  Life, Lives, life, life_of, lives, alter, end_life, Moves, quiet, asked, resolved, ended, sent,
  expired, passed, Lands, accepted, rejected, cancelled, lost, Promise, Serves, idle, calls,
  answers,
}
use lark_remote.Approval.LifeLaws.{get-update}
use lark_remote.Approval.Refinement.{step-Serves}

-- Pending with a deadline, or not pending.
abbrev pub IsTimed : Option Life → Type 0
IsTimed none = Unit
IsTimed (some l) = is_pending l.state ≡ true → is_some l.deadline ≡ true

IsTimed-alter :
    (id : RequestId) (g : Life → Life) (A : Lives)
    → ((l : Life) → IsTimed (some l) → IsTimed (some (g l)))
    → ((r : RequestId) → IsTimed (A r))
    → (r : RequestId) → IsTimed (alter id g A r)
IsTimed-alter id g A k h r = at (same_request id r) (A r) (h r)
  where
    at : (b : Bool) (o : Option Life) → IsTimed o → IsTimed (if b then map_option g o else o)
    at true none m = tt
    at true (some l) m = k l m
    at false o m = m

Moves-IsTimed :
    {A B : Lives} {f : Option Flight} {again : Bool}
    → Moves A B f again
    → ((r : RequestId) → IsTimed (A r))
    → (r : RequestId) → IsTimed (B r)
Moves-IsTimed quiet h r = h r
Moves-IsTimed {A} (asked id d) h r = at (same_request id r)
  where
    at : (b : Bool) → IsTimed (if b then some (life ApprovalState.pending (some d)) else A r)
    at true = λ e. refl
    at false = h r
Moves-IsTimed {A} (resolved id) h r = IsTimed-alter id _ A (λ l m. ground arith) h r
Moves-IsTimed {A} ended h r = at (A r) (h r)
  where
    at : (o : Option Life) → IsTimed o → IsTimed (map_option end_life o)
    at none m = tt
    at (some l) m = ground arith
Moves-IsTimed {A} (sent f d e x) h r = IsTimed-alter f.request_id _ A (λ l m. ground arith) h r
Moves-IsTimed {A} (expired f d e x) h r = IsTimed-alter f.request_id _ A (λ l m. ground arith) h r
Moves-IsTimed {A} (passed id l e p) h r = IsTimed-alter id _ A (λ _ m. ground arith) h r

Lands-IsTimed :
    {A : Lives} {f : Flight} {ok : Bool} {B : Lives}
    → Lands A f ok B
    → ((r : RequestId) → IsTimed (A r))
    → (r : RequestId) → IsTimed (B r)
Lands-IsTimed {A} (accepted f e) h r = IsTimed-alter f.request_id _ A (λ l m. ground arith) h r
Lands-IsTimed {A} (rejected f d e) h r = IsTimed-alter f.request_id _ A (λ l m. ground arith) h r
Lands-IsTimed {A} (cancelled f e) h r = h r
Lands-IsTimed {A} (lost f e) h r = IsTimed-alter f.request_id _ A (λ l m. ground arith) h r

Serves-IsTimed :
    {p q : Promise} {again : Bool}
    → Serves p q again
    → ((r : RequestId) → IsTimed (p.held r))
    → (r : RequestId) → IsTimed (q.held r)
Serves-IsTimed idle h r = h r
Serves-IsTimed (calls m) h r = Moves-IsTimed m h r
Serves-IsTimed (answers k f ok e l) h r = Lands-IsTimed l h r

Reach-IsTimed : {s : System} → Reach s → (r : RequestId) → IsTimed (lives s.coordinator r)
Reach-IsTimed (start ms) r = tt
Reach-IsTimed (next m e) r = Serves-IsTimed (step-Serves e _) (Reach-IsTimed m) r

abbrev pub cancel_of : RequestId → Flight
cancel_of id = record {
  request_id = id;
  action = ApprovalAction.cancel;
  nonce = none;
  expiry = true;
}

-- An expiry: the card and the responder are told, and the request is expired.
abbrev pub Expires : RequestId → System → Event → Type 0
Expires id s e =
    ((handle e s.coordinator).calls ≡ respond id ApprovalAction.cancel ∷ pushed_expired id ∷ [])
    × (map_option (λ t. t.state) (get_tracked id (step e s).coordinator.approvals)
        ≡ some ApprovalState.expired)
    × ((step e s).in_flight ≡ cancel_of id ∷ s.in_flight)

get-expire :
    (id : RequestId) (t : TrackedApproval) (ts : List TrackedApproval)
    → get_tracked id ts ≡ some t
    → map_option (λ t. t.state) (get_tracked id (update_tracked id expire ts))
      ≡ some ApprovalState.expired
get-expire id t ts h =
    ap (map_option (λ t. t.state)) (get-update id id expire ts (λ _. refl))
    ∙ rw (same_request_refl id, h) refl

fire-Expires :
    (s : System) (id : RequestId) (t : TrackedApproval) (now d : ℕ)
    → get_tracked id s.coordinator.approvals ≡ some t
    → is_pending t.state ≡ true
    → t.timeout_timer ≡ some d
    → leb d now ≡ true
    → Expires id s (Event.timer_fired now id)
unfolding step handle fire expire_approval
fire-Expires s id t now d h p e l =
    rw (h, fire, e, l, expire_approval, h, p)
      (refl, get-expire id t s.coordinator.approvals h, refl)

-- A pending approval of a reachable coordinator has a deadline, and when its timer fires, then or
-- later, the responder is sent a cancel, the card is told and the approval is expired.
pub pending-Expires :
    (s : System) (m : Reach s) (id : RequestId) (t : TrackedApproval) (now : ℕ)
    → get_tracked id s.coordinator.approvals ≡ some t
    → is_pending t.state ≡ true
    → or_else t.timeout_timer 0 ≤ now
    → (is_some t.timeout_timer ≡ true) × Expires id s (Event.timer_fired now id)
pending-Expires s m id t now h p l =
    let timed : IsTimed (some (life_of t)) =
      subst IsTimed (ap (map_option life_of) h) (Reach-IsTimed m id) in
    elim (Option-cases t.timeout_timer) [
      | inl e ↦ absurd (ground (arith, timed p))
      | inr (d, e) ↦ (timed p, fire-Expires s id t now d h p e (ground arith))
    ]
