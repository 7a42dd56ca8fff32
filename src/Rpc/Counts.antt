-- ===== src/Rpc/Counts.antt =====
-- How often a request of src/runner/common/jsonrpc/client.ts was sent, waits and was settled.
use lark_remote.Common.{
  ℕ, ◌+◌, ◌≤◌, String, Bool, true, false, List, [], ◌∷◌, ◌++◌, map, filter, not, ◌==◌,
  if◌then◌else◌, ◌≡◌, refl, arith, Bool-cases, inl, inr,
}
use lark_remote.Rpc.Types.{
  Outgoing, request_message, notification, success_response, error_response, RpcFailure, rejected,
  RpcCall, wrote, settled, lost_answer, on_notification, on_server_request, on_close,
  close_transport,
}
use lark_remote.Rpc.Client.{has_request, drop_id}

abbrev pub one_if : Bool → ℕ
one_if true = 1
one_if false = 0

-- How many entries have the id.
abbrev pub count_of {ℓ} : {V : Type ℓ} → ℕ → List (ℕ × V) → ℕ
count_of id [] = 0
count_of id ((held, v) ∷ es) = one_if (held == id) + count_of id es

abbrev is_request : ℕ → Outgoing → Bool
is_request id (request_message held method params) = held == id
is_request id (notification method params) = false
is_request id (success_response key result) = false
is_request id (error_response key code message) = false

abbrev is_sending : ℕ → RpcCall → Bool
is_sending id (wrote message) = is_request id message
is_sending id (settled held outcome) = false
is_sending id (lost_answer held) = false
is_sending id (on_notification layer method params) = false
is_sending id (on_server_request layer key method params) = false
is_sending id (on_close layer) = false
is_sending id close_transport = false

abbrev is_settling : ℕ → RpcCall → Bool
is_settling id (wrote message) = false
is_settling id (settled held outcome) = held == id
is_settling id (lost_answer held) = false
is_settling id (on_notification layer method params) = false
is_settling id (on_server_request layer key method params) = false
is_settling id (on_close layer) = false
is_settling id close_transport = false

abbrev is_losing : ℕ → RpcCall → Bool
is_losing id (wrote message) = false
is_losing id (settled held outcome) = false
is_losing id (lost_answer held) = held == id
is_losing id (on_notification layer method params) = false
is_losing id (on_server_request layer key method params) = false
is_losing id (on_close layer) = false
is_losing id close_transport = false

-- How often the promise of the request was settled, and how often the request was sent.
abbrev pub settlements : ℕ → List RpcCall → ℕ
settlements id [] = 0
settlements id (c ∷ cs) = one_if (is_settling id c) + settlements id cs

abbrev pub sendings : ℕ → List RpcCall → ℕ
sendings id [] = 0
sendings id (c ∷ cs) = one_if (is_sending id c) + sendings id cs

-- How often the request was dropped with its promise open.
abbrev pub losses : ℕ → List RpcCall → ℕ
losses id [] = 0
losses id (c ∷ cs) = one_if (is_losing id c) + losses id cs

pub losses-append :
    (id : ℕ) (cs ds : List RpcCall) → losses id (cs ++ ds) ≡ losses id cs + losses id ds
losses-append id [] ds = omega arith
losses-append id (c ∷ cs) ds = omega (arith, losses-append id cs ds)

pub settlements-append :
    (id : ℕ) (cs ds : List RpcCall)
    → settlements id (cs ++ ds) ≡ settlements id cs + settlements id ds
settlements-append id [] ds = omega arith
settlements-append id (c ∷ cs) ds = omega (arith, settlements-append id cs ds)

pub sendings-append :
    (id : ℕ) (cs ds : List RpcCall) → sendings id (cs ++ ds) ≡ sendings id cs + sendings id ds
sendings-append id [] ds = omega arith
sendings-append id (c ∷ cs) ds = omega (arith, sendings-append id cs ds)

-- Rejecting all that waits settles each as often as it waits, and sends nothing.
pub settlements-rejected :
    (id : ℕ) (err : RpcFailure) (es : List (ℕ × String))
    → settlements id (map (λ (e : ℕ × String). settled e.0 (rejected err)) es) ≡ count_of id es
settlements-rejected id err [] = refl
settlements-rejected id err ((k, v) ∷ es) = omega (arith, settlements-rejected id err es)

pub sendings-rejected :
    (id : ℕ) (err : RpcFailure) (es : List (ℕ × String))
    → sendings id (map (λ (e : ℕ × String). settled e.0 (rejected err)) es) ≡ 0
sendings-rejected id err [] = refl
sendings-rejected id err ((k, v) ∷ es) = omega (arith, sendings-rejected id err es)

pub losses-rejected :
    (id : ℕ) (err : RpcFailure) (es : List (ℕ × String))
    → losses id (map (λ (e : ℕ × String). settled e.0 (rejected err)) es) ≡ 0
losses-rejected id err [] = refl
losses-rejected id err ((k, v) ∷ es) = omega (arith, losses-rejected id err es)

module _ {ℓ} {V : Type ℓ} where
  pub count_of-append :
      (id : ℕ) (es fs : List (ℕ × V)) → count_of id (es ++ fs) ≡ count_of id es + count_of id fs
  count_of-append id [] fs = omega arith
  count_of-append id ((k, v) ∷ es) fs = omega (arith, count_of-append id es fs)

  pub count_of-drop :
      (id k : ℕ) (es : List (ℕ × V))
      → count_of id (drop_id k es) ≡ (if k == id then 0 else count_of id es)
  count_of-drop id k [] = ground arith
  count_of-drop id k ((j, v) ∷ es) = ground (arith, count_of-drop id k es)

  pub has_request-le : (id : ℕ) (es : List (ℕ × V)) → one_if (has_request id es) ≤ count_of id es
  has_request-le id [] = omega arith
  has_request-le id ((k, v) ∷ es) = ground (arith, has_request-le id es)

  pub has_request-none :
      (id : ℕ) (es : List (ℕ × V)) → has_request id es ≡ false → count_of id es ≡ 0
  has_request-none id [] h = refl
  has_request-none id ((k, v) ∷ es) h = ground (arith, has_request-none id es)

  -- The timers that are left when those of the pending requests are cleared.
  pub count_of-cleared {κ} :
      {W : Type κ} (id : ℕ) (es : List (ℕ × W)) (ts : List (ℕ × V))
      → count_of id (filter (λ (t : ℕ × V). not (has_request t.0 es)) ts)
        ≡ (if has_request id es then 0 else count_of id ts)
  count_of-cleared id es [] = ground arith
  count_of-cleared id es ((k, v) ∷ ts) = elim (Bool-cases (k == id)) [
    | inl e ↦ ground (arith, count_of-cleared id es ts)
    | inr e ↦ ground (arith, count_of-cleared id es ts)
  ]
