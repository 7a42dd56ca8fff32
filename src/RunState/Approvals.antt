-- ===== src/RunState/Approvals.antt =====
-- The approval events of src/card/run-state.ts.
use lark_remote.Common.{
  Bool, true, false, List, [], ◌∷◌, ◌++◌, map, filter, any, not, if◌then◌else◌, str_eq, ◌==◌,
}
use lark_remote.RunState.Types.{RequestId, ApprovalView, Approval, RunState}

-- `===` on request ids.
abbrev pub same_request : RequestId → RequestId → Bool
same_request (RequestId.num a) (RequestId.num b) = a == b
same_request (RequestId.str a) (RequestId.str b) = str_eq a b
same_request (RequestId.num a) (RequestId.str b) = false
same_request (RequestId.str a) (RequestId.num b) = false

abbrev pub is_request : RequestId → Approval → Bool
is_request id a = same_request a.view.request_id id

-- The first approval of the request is replaced where it stands.
abbrev pub replace_request : RequestId → Approval → List Approval → List Approval
replace_request id new [] = []
replace_request id new (a ∷ others) =
    let rest = a ∷ replace_request id new others in if is_request id a then new ∷ others else rest

unfoldable pub request_approval : RequestId → ApprovalView → List Approval → List Approval
request_approval id view approvals =
    let new : Approval = record { view = view; expired = false } in
    if any (is_request id) approvals
    then replace_request id new approvals
    else approvals ++ new ∷ []

unfoldable pub reduce_approval_requested_event : RequestId → ApprovalView → RunState → RunState
unfolding request_approval
reduce_approval_requested_event id view state = record state {
  approvals = request_approval id view state.approvals;
}

unfoldable pub reduce_approval_resolved_event : RequestId → RunState → RunState
reduce_approval_resolved_event id state = record state {
  approvals = filter (λ a. not (is_request id a)) state.approvals;
}

unfoldable pub reduce_approval_view_updated_event : RequestId → ApprovalView → RunState → RunState
reduce_approval_view_updated_event id view state = record state {
  approvals = map (λ a. if is_request id a then record a { view = view } else a) state.approvals;
}

unfoldable pub reduce_approval_expired_event : RequestId → RunState → RunState
reduce_approval_expired_event id state = record state {
  approvals = map (λ a. if is_request id a then record a { expired = true } else a) state.approvals;
  approval_expired = true;
}
