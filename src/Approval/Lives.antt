-- ===== src/Approval/Lives.antt =====
-- What src/bridge/approval-coordinator.ts promises of each request, with views, answers and nonces
-- forgotten: a life of states and deadlines, and the calls of the responder that are out.
use lark_remote.Common.{ℕ, Bool, true, false, List, Option, none, some, is_some, ◌≡◌, if◌then◌else◌}
use mathlib.Core.Option.{map as map_option}
use lark_remote.RunState.Types.{RequestId}
use lark_remote.RunState.Approvals.{same_request}
use lark_remote.Approval.Types.{
  ApprovalState, TrackedApproval, Coordinator, Flight, is_pending, get_tracked,
}
use lark_remote.Approval.Step.{System, take_off, flight_at, land, note_delivered}

pub record Life : Type 0 where
  pub state : ApprovalState
  pub deadline : Option ℕ

abbrev pub Lives : Type 0
Lives = RequestId → Option Life

abbrev pub life : ApprovalState → Option ℕ → Life
life s d = record { state = s; deadline = d }

abbrev pub life_of : TrackedApproval → Life
life_of t = life t.state t.timeout_timer

abbrev pub lives_in : List TrackedApproval → Lives
lives_in ts id = map_option life_of (get_tracked id ts)

abbrev pub lives : Coordinator → Lives
lives c = lives_in c.approvals

abbrev pub put_life : RequestId → Life → Lives → Lives
put_life id l A r = if same_request id r then some l else A r

abbrev pub alter : RequestId → (Life → Life) → Lives → Lives
alter id g A r = if same_request id r then map_option g (A r) else A r

abbrev pub end_life : Life → Life
end_life l = if is_pending l.state then life ApprovalState.expired none else l

abbrev pub no_deadline : Life → Life
no_deadline l = life l.state none

abbrev pub in_state : ApprovalState → Life → Life
in_state s l = life s l.deadline

-- What a call may do: only a pending request is submitted or expires. The flag says that a tracked
-- request is asked again.
pub data Moves (A : Lives) : Lives → Option Flight → Bool → Type 0 where
  quiet : Moves A A none false
  asked :
      (id : RequestId) (d : ℕ)
      → Moves A (put_life id (life ApprovalState.pending (some d)) A) none (is_some (A id))
  resolved :
      (id : RequestId) → Moves A (alter id (λ _. life ApprovalState.resolved none) A) none false
  ended : Moves A (λ id. map_option end_life (A id)) none false
  sent :
      (f : Flight) (d : Option ℕ)
      → A f.request_id ≡ some (life ApprovalState.pending d)
      → f.expiry ≡ false
      → Moves A (alter f.request_id (λ _. life ApprovalState.submitting none) A) (some f) false
  expired :
      (f : Flight) (d : ℕ)
      → A f.request_id ≡ some (life ApprovalState.pending (some d))
      → f.expiry ≡ true
      → Moves A (alter f.request_id (λ _. life ApprovalState.expired none) A) (some f) false
  passed :
      (id : RequestId) (l : Life)
      → A id ≡ some l
      → is_pending l.state ≡ false
      → Moves A (alter id (λ _. no_deadline l) A) none false

-- What the responder's answer may do: a submission is resolved or pending again with a new
-- deadline, an expired request stays or fails.
pub data Lands (A : Lives) : Flight → Bool → Lives → Type 0 where
  accepted :
      (f : Flight)
      → f.expiry ≡ false
      → Lands A f true (alter f.request_id (in_state ApprovalState.resolved) A)
  rejected :
      (f : Flight) (d : ℕ)
      → f.expiry ≡ false
      → Lands A f false (alter f.request_id (λ _. life ApprovalState.pending (some d)) A)
  cancelled : (f : Flight) → f.expiry ≡ true → Lands A f true A
  lost :
      (f : Flight)
      → f.expiry ≡ true
      → Lands A f false (alter f.request_id (in_state ApprovalState.failed) A)

-- What a caller may rely on.
pub record Promise : Type 0 where
  pub held : Lives
  pub in_flight : List Flight
  pub delivered : List RequestId

abbrev pub promise : System → Promise
promise s = record { held = lives s.coordinator; in_flight = s.in_flight; delivered = s.delivered }

pub data Serves (p : Promise) : Promise → Bool → Type 0 where
  idle : Serves p p false
  calls :
      {B : Lives} {f : Option Flight} {again : Bool}
      → Moves p.held B f again
      → Serves p (record p { held = B; in_flight = take_off f p.in_flight }) again
  answers :
      {B : Lives} (k : ℕ) (f : Flight) (ok : Bool)
      → flight_at k p.in_flight ≡ some f
      → Lands p.held f ok B
      → Serves p
          (record {
            held = B;
            in_flight = land k p.in_flight;
            delivered = note_delivered f ok p.delivered;
          })
          false
