-- ===== src/Approval/Types.antt =====
-- The state of src/bridge/approval-coordinator.ts. A timer is the time at which it fires. A label, an
-- answer and a remark is a text; the name of a decision is a string. What a view shows besides is the
-- number of a value.
use lark_remote.Common.{
  ℕ, String, Text, Bool, true, false, List, [], ◌∷◌, Option, none, some, if◌then◌else◌,
}
use lark_remote.RunState.Types.{RequestId}
use lark_remote.RunState.Approvals.{same_request}

pub data ApprovalState : Type 0 where
  pending submitting resolved failed expired : ApprovalState

pub data ApprovalKind : Type 0 where
  command file permissions question tool : ApprovalKind

pub record UserQuestion : Type 0 where
  pub question : Text
  pub multi_select : Bool
  pub options : List Text
  pub selected : Option (List Text)
  pub note : Option Text

pub record PermItem : Type 0 where
  pub id : String
  pub selected : Bool

pub record RequestView : Type 0 where
  pub kind : ApprovalKind
  pub tool_name : Option String
  pub plan : Option Text
  pub plan_feedback : Option Text
  pub permissions : Option (List PermItem)
  pub questions : Option (List UserQuestion)
  pub available_decisions : List String
  pub delivery_error : Option Text
  pub shown : ℕ

pub record TrackedApproval : Type 0 where
  pub request_id : RequestId
  pub kind : ApprovalKind
  pub state : ApprovalState
  pub view : RequestView
  pub created_at : ℕ
  pub timeout_timer : Option ℕ
  pub timeout_ms : ℕ
  pub answers : List (ℕ × List Text)
  pub notes : List (ℕ × Text)
  pub feedback : Option Text

-- The answer to a question: a list where several may be chosen, else a text, which is missing when
-- nothing was chosen.
pub data Answer : Type 0 where
  one_of : Option Text → Answer
  many_of : List Text → Answer

pub data ApprovalAction : Type 0 where
  accept accept_for_session accept_with_execpolicy_amendment accept_all : ApprovalAction
  decline cancel : ApprovalAction
  decline_with_feedback accept_with_feedback : Text → ApprovalAction
  answer : List (Text × Answer) → List (Text × Text) → ApprovalAction

-- Why a call throws.
pub data Refusal : Type 0 where
  not_found duplicate_nonce not_pending not_available : Refusal
  feedback_missing text_missing not_permissions no_items item_missing : Refusal
  not_question question_missing option_missing : Refusal
  not_multiple not_single nothing_selected not_plan : Refusal

-- What the coordinator calls: the responder, the card and the interrupt of the turn.
pub data Call : Type 0 where
  respond : RequestId → ApprovalAction → Call
  view_updated : RequestId → RequestView → Call
  pushed_resolved pushed_expired : RequestId → Call
  interrupt_turn : Call

pub record Coordinator : Type 0 where
  pub approvals : List TrackedApproval
  pub submitted_nonces : List (RequestId × String)
  pub user_cancelled : Bool
  pub approval_timeout_ms : ℕ

-- A call of the responder that has not settled: of a submission, with its nonce, or of an expiry.
pub record Flight : Type 0 where
  pub request_id : RequestId
  pub action : ApprovalAction
  pub nonce : Option String
  pub expiry : Bool

-- The state after a call, the calls made, the flight begun and the refusal thrown.
pub record Outcome : Type 0 where
  pub next : Coordinator
  pub calls : List Call
  pub flight : Option Flight
  pub refused : Option Refusal

abbrev pub is_pending : ApprovalState → Bool
is_pending ApprovalState.pending = true
is_pending _ = false

-- `Map.get`.
abbrev pub get_tracked : RequestId → List TrackedApproval → Option TrackedApproval
get_tracked id [] = none
get_tracked id (t ∷ ts) =
    let rest = get_tracked id ts in if same_request t.request_id id then some t else rest

-- The object of the request is changed in place.
abbrev pub update_tracked :
    RequestId → (TrackedApproval → TrackedApproval) → List TrackedApproval → List TrackedApproval
update_tracked id f [] = []
update_tracked id f (t ∷ ts) =
    let rest = t ∷ update_tracked id f ts in if same_request t.request_id id then f t ∷ ts else rest

abbrev pub change : RequestId → (TrackedApproval → TrackedApproval) → Coordinator → Coordinator
change id f c = record c { approvals = update_tracked id f c.approvals }

abbrev pub refuse : Refusal → Coordinator → Outcome
refuse r c = record { next = c; calls = []; flight = none; refused = some r }

abbrev pub done : List Call → Coordinator → Outcome
done calls c = record { next = c; calls = calls; flight = none; refused = none }
