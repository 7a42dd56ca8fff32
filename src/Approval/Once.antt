-- ===== src/Approval/Once.antt =====
-- An approval of src/bridge/approval-coordinator.ts is decided once.
use mathlib.Core.Path.{subst}
use mathlib.Core.Option.{map as map_option}
use lark_remote.Common.{
  ℕ, zero, suc, ◌+◌, ◌≤◌, Bool, true, false, List, [], ◌∷◌, Option, none, some, is_some, ◌≡◌, refl,
  sym, ap, ◌∙◌, arith, inl, inr, Bool-cases, if◌then◌else◌,
}
use lark_remote.RunState.Types.{RequestId}
use lark_remote.RunState.Approvals.{same_request}
use lark_remote.RunState.ApprovalLaws.{same_request-eq}
use lark_remote.Approval.Types.{ApprovalState, Flight, is_pending}
use lark_remote.Approval.Step.{
  System, Event, take_off, flight_at, land, note_delivered, asks_again, step, steps, init,
}
use lark_remote.Approval.Lives.{
  Life, Lives, life, put_life, alter, end_life, in_state, Moves, quiet, asked, resolved, ended,
  sent, expired, passed, Lands, accepted, rejected, cancelled, lost, Promise, promise, Serves, idle,
  calls, answers,
}
use lark_remote.Approval.Refinement.{step-Serves}

abbrev weight : RequestId → RequestId → ℕ
weight r id = if same_request id r then 1 else 0

-- How many calls of the responder are out for the request, and how many were accepted.
abbrev pub open_for : RequestId → List Flight → ℕ
open_for r [] = 0
open_for r (f ∷ fs) = weight r f.request_id + open_for r fs

abbrev pub done_for : RequestId → List RequestId → ℕ
done_for r [] = 0
done_for r (id ∷ ids) = weight r id + done_for r ids

abbrev opens : RequestId → Option Flight → ℕ
opens r none = 0
opens r (some f) = weight r f.request_id

-- A request that may still be submitted: untracked or pending.
abbrev is_free : Option Life → Bool
is_free none = true
is_free (some l) = is_pending l.state

abbrev IsOnce : Option Life → ℕ → Type 0
IsOnce o n = (n ≤ 1) × (is_free o ≡ true → n ≡ 0)

abbrev AllOnce : Promise → Type 0
AllOnce p = (r : RequestId) → IsOnce (p.held r) (open_for r p.in_flight + done_for r p.delivered)

id_of : (g f : Flight) → some g ≡ some f → g.request_id ≡ f.request_id
id_of g f h = ground arith

open_for-land :
    (r : RequestId) (k : ℕ) (f : Flight) (fs : List Flight)
    → flight_at k fs ≡ some f
    → open_for r fs ≡ weight r f.request_id + open_for r (land k fs)
open_for-land r k f [] h = ground arith
open_for-land r zero f (g ∷ gs) h = ap (λ x. weight r x + open_for r gs) (id_of g f h)
open_for-land r (suc k) f (g ∷ gs) h = omega (arith, open_for-land r k f gs h)

open_for-take_off :
    (r : RequestId) (o : Option Flight) (fs : List Flight)
    → open_for r (take_off o fs) ≡ opens r o + open_for r fs
open_for-take_off r none fs = omega arith
open_for-take_off r (some f) fs = refl

-- The life at a request after a change of that request or another.
at_alter :
    (id r : RequestId) (g : Life → Life) (A : Lives) (m : ℕ)
    → (same_request id r ≡ true → IsOnce (map_option g (A r)) m)
    → (same_request id r ≡ false → IsOnce (A r) m)
    → IsOnce (alter id g A r) m
at_alter id r g A m h k = at (same_request id r) h k
  where
    at :
        (b : Bool)
        → (b ≡ true → IsOnce (map_option g (A r)) m)
        → (b ≡ false → IsOnce (A r) m)
        → IsOnce (if b then map_option g (A r) else A r) m
    at true h k = h refl
    at false h k = k refl

-- A change to a state that is not pending.
IsOnce-close :
    (o : Option Life) (g : Life → Life) (n : ℕ)
    → ((l : Life) → is_pending (g l).state ≡ false)
    → IsOnce o n
    → IsOnce (map_option g o) n
IsOnce-close none g n k h = h
IsOnce-close (some l) g n k h = (h.0, λ e. absurd (ground (arith, k l)))

-- A pending request is taken: one call is out, and it is no longer pending.
IsOnce-take :
    (o : Option Life) (d : Option ℕ) (l : Life) (n : ℕ)
    → o ≡ some (life ApprovalState.pending d)
    → is_pending l.state ≡ false
    → IsOnce o n
    → IsOnce (map_option (λ _. l) o) (1 + n)
IsOnce-take none d l n e p h = absurd (ground arith)
IsOnce-take (some l') d l n e p h =
    let free : is_pending l'.state ≡ true = ap (λ o. is_free o) e in ground (arith, h.1 free)

IsOnce-eq : (o : Option Life) {n m : ℕ} → n ≡ m → IsOnce o n → IsOnce o m
IsOnce-eq o e h = subst (IsOnce o) e h

IsOnce-zero : (o : Option Life) (n : ℕ) → IsOnce o n → IsOnce o (0 + n)
IsOnce-zero o n h = ground (arith, h)

IsOnce-zero' : (o : Option Life) (n : ℕ) → IsOnce o (0 + n) → IsOnce o n
IsOnce-zero' o n h = ground (arith, h)

IsOnce-none : (o : Option Life) (n : ℕ) → 1 + n ≤ 1 → IsOnce o n
IsOnce-none o n h = ground arith

IsOnce-end : (o : Option Life) (n : ℕ) → IsOnce o n → IsOnce (map_option end_life o) n
IsOnce-end none n h = h
IsOnce-end (some l) n h = ground arith

taken :
    (f : Flight) (r : RequestId) (d : Option ℕ) (l : Life) (A : Lives) (n : ℕ)
    → A f.request_id ≡ some (life ApprovalState.pending d)
    → is_pending l.state ≡ false
    → IsOnce (A r) n
    → IsOnce (alter f.request_id (λ _. l) A r) (weight r f.request_id + n)
taken f r d l A n e p h =
    at_alter f.request_id r (λ _. l) A (weight r f.request_id + n)
      (λ b. rw b (IsOnce-take (A r) d l n (ap A (sym (same_request-eq f.request_id r b)) ∙ e) p h))
      (λ b. rw b (IsOnce-zero (A r) n h))

asked_once :
    (id r : RequestId) (d : Option ℕ) (A : Lives) (n : ℕ)
    → is_some (A id) ≡ false
    → IsOnce (A r) n
    → IsOnce (put_life id (life ApprovalState.pending d) A r) n
asked_once id r d A n w h = elim (Bool-cases (same_request id r)) [
  | inl b ↦
      rw b (
        h.0,
        λ _. h.1 (none_free (A r) (ap (λ x. is_some (A x)) (sym (same_request-eq id r b)) ∙ w)),
      )
  | inr b ↦ rw b h
]
  where
    none_free : (o : Option Life) → is_some o ≡ false → is_free o ≡ true
    none_free none e = refl
    none_free (some l) e = absurd (ground arith)

closed :
    (id r : RequestId) (g : Life → Life) (A : Lives) (n : ℕ)
    → ((l : Life) → is_pending (g l).state ≡ false)
    → IsOnce (A r) n
    → IsOnce (alter id g A r) (0 + n)
closed id r g A n k h =
    IsOnce-zero (alter id g A r) n (at_alter id r g A n (λ _. IsOnce-close (A r) g n k h) (λ _. h))

Moves-IsOnce :
    {A B : Lives} {f : Option Flight} {again : Bool} (n : RequestId → ℕ)
    → Moves A B f again
    → again ≡ false
    → ((r : RequestId) → IsOnce (A r) (n r))
    → (r : RequestId) → IsOnce (B r) (opens r f + n r)
Moves-IsOnce {A} n quiet w h r = IsOnce-zero (A r) (n r) (h r)
Moves-IsOnce {A} n (asked id d) w h r =
    IsOnce-zero (put_life id (life ApprovalState.pending (some d)) A r) (n r)
      (asked_once id r (some d) A (n r) w (h r))
Moves-IsOnce {A} n (resolved id) w h r = closed id r _ A (n r) (λ _. refl) (h r)
Moves-IsOnce {A} n ended w h r =
    IsOnce-zero (map_option end_life (A r)) (n r) (IsOnce-end (A r) (n r) (h r))
Moves-IsOnce {A} n (sent f d e x) w h r = taken f r d _ A (n r) e refl (h r)
Moves-IsOnce {A} n (expired f d e x) w h r = taken f r (some d) _ A (n r) e refl (h r)
Moves-IsOnce {A} n (passed id l e p) w h r = closed id r _ A (n r) (λ _. p) (h r)

-- A call that was out comes back.
returned :
    (f : Flight) (r : RequestId) (g : Life → Life) (A : Lives) (m : ℕ)
    → IsOnce (A r) (weight r f.request_id + m)
    → IsOnce (alter f.request_id g A r) m
returned f r g A m h =
    at_alter f.request_id r g A m (λ b. IsOnce-none (map_option g (A r)) m (rw b at h.0))
      (λ b. IsOnce-zero' (A r) m (rw b at h))

Lands-IsOnce :
    {A : Lives} {f : Flight} {ok : Bool} {B : Lives} (r : RequestId) (m done : ℕ)
    → Lands A f ok B
    → IsOnce (A r) (weight r f.request_id + m + done)
    → IsOnce (B r) (m + (if ok then weight r f.request_id + done else done))
Lands-IsOnce {A} r m done (accepted f e) h =
    let total = m + (weight r f.request_id + done) in
    at_alter f.request_id r _ A total
      (λ _.
        IsOnce-close (A r) (in_state ApprovalState.resolved) total (λ _. refl)
          (IsOnce-eq (A r) (omega arith) h))
      (λ _. IsOnce-eq (A r) (omega arith) h)
Lands-IsOnce {A} r m done (rejected f d e) h =
    returned f r _ A (m + done) (IsOnce-eq (A r) (omega arith) h)
Lands-IsOnce {A} r m done (cancelled f e) h = IsOnce-eq (A r) (omega arith) h
Lands-IsOnce {A} r m done (lost f e) h =
    returned f r _ A (m + done) (IsOnce-eq (A r) (omega arith) h)

done_for-note :
    (r : RequestId) (f : Flight) (ok : Bool) (ids : List RequestId)
    → done_for r (note_delivered f ok ids)
      ≡ (if ok then weight r f.request_id + done_for r ids else done_for r ids)
done_for-note r f true ids = refl
done_for-note r f false ids = refl

Serves-AllOnce :
    {p q : Promise} {again : Bool} → Serves p q again → again ≡ false → AllOnce p → AllOnce q
Serves-AllOnce idle w h r = h r
Serves-AllOnce {p} (calls {B = B} {f = f} m) w h r =
    IsOnce-eq (B r) (omega (arith, open_for-take_off r f p.in_flight))
      (Moves-IsOnce (λ r. open_for r p.in_flight + done_for r p.delivered) m w h r)
Serves-AllOnce {p} (answers {B = B} k f ok e l) w h r =
    let out = open_for r (land k p.in_flight) in
    subst (λ n. IsOnce (B r) (out + n)) (sym (done_for-note r f ok p.delivered))
      (Lands-IsOnce r out (done_for r p.delivered) l
        (IsOnce-eq (p.held r) (omega (arith, open_for-land r k f p.in_flight e)) (h r)))

-- No request that is tracked is asked again.
abbrev pub AskedOnce : List Event → System → Type 0
AskedOnce [] s = Unit
AskedOnce (e ∷ es) s = (asks_again e s.coordinator ≡ false) × AskedOnce es (step e s)

steps-AllOnce :
    (es : List Event) (s : System)
    → AskedOnce es s
    → AllOnce (promise s)
    → AllOnce (promise (steps es s))
steps-AllOnce [] s w h = h
steps-AllOnce (e ∷ es) s w h =
    steps-AllOnce es (step e s) w.1 (Serves-AllOnce (step-Serves e s) w.0 h)

-- Whatever calls are made, if no tracked request is asked again, the responder accepts at most one
-- answer for each request, the cancel of its expiry included, and while one is out or accepted no
-- other is sent.
pub decided_once :
    (ms : ℕ) (es : List Event) (id : RequestId)
    → AskedOnce es (init ms)
    → open_for id (steps es (init ms)).in_flight + done_for id (steps es (init ms)).delivered ≤ 1
decided_once ms es id w = (steps-AllOnce es (init ms) w (λ r. (omega arith, λ _. omega arith)) id).0
