-- ===== src/Rpc/Tests.antt =====
-- A run of the JSON-RPC client on concrete messages.
use lark_remote.Common.{◌+◌, ◌≤◌, [], ◌∷◌, none, some, ◌≡◌, refl}
use lark_remote.Rpc.Types.{
  numbered, connection_lost, resolved, rejected, RpcMessage, request_message, wrote, settled,
  lost_answer, null_error, on_close, base_hooks, finite, RpcClient,
}
use lark_remote.Rpc.Client.{handle_message, request, transport_lost, connect}
use lark_remote.Rpc.Counts.{count_of, settlements, sendings, losses}
use lark_remote.Rpc.Step.{
  fresh_client, RpcReach, here, next, connecting, requested, received, lost, null_errors,
}
use lark_remote.Rpc.Once.{settled_once}
use lark_remote.Rpc.Over.{over-settled}

abbrev first_answer : RpcMessage
first_answer = record {
  id = some (numbered 1);
  result = some "ok";
  error = none;
  method = none;
  params = none;
}

-- The handshake is answered, and the server is lost while a prompt runs.
abbrev asked_twice : RpcClient
asked_twice =
    handle_message first_answer
      (request 5 "session/prompt" none (some (finite 0)) (connect 0 none (fresh_client 60000)))

asked_twice-RpcReach : RpcReach (fresh_client 60000) asked_twice
asked_twice-RpcReach =
    next
      (next (next here (connecting 0 none)) (requested 5 "session/prompt" none (some (finite 0))))
      (received first_answer)

settled_once_example :
    (settlements 2 asked_twice.calls + losses 2 asked_twice.calls + count_of 2 asked_twice.pending
      ≡ sendings 2 asked_twice.calls)
    × (sendings 2 asked_twice.calls ≤ 1)
    × (losses 2 asked_twice.calls ≤ null_errors 2 asked_twice-RpcReach)
settled_once_example = settled_once 2 60000 asked_twice-RpcReach

abbrev after_loss : RpcClient
after_loss = transport_lost asked_twice

over-settled_example :
    (after_loss.pending ≡ [])
    × (count_of 2 after_loss.timers ≡ 0)
    × (settlements 2 after_loss.calls + losses 2 after_loss.calls ≡ sendings 2 after_loss.calls)
    × (losses 2 after_loss.calls ≤ null_errors 2 (next asked_twice-RpcReach lost))
unfolding transport_lost handle_message request connect
over-settled_example = over-settled 2 60000 (next asked_twice-RpcReach lost) refl

loss_calls :
    after_loss.calls
    ≡ wrote (request_message 1 "initialize" none)
      ∷ wrote (request_message 2 "session/prompt" none)
      ∷ settled 1 (resolved "ok")
      ∷ settled 2 (rejected (connection_lost "transport closed"))
      ∷ on_close base_hooks
      ∷ []
unfolding transport_lost handle_message request connect
loss_calls = refl

-- The prompt is answered with `"error": null`: nothing waits, and nothing was settled.
abbrev null_answer : RpcMessage
null_answer = record {
  id = some (numbered 2);
  result = none;
  error = some null_error;
  method = none;
  params = none;
}

null_error_loses :
    (handle_message null_answer asked_twice).calls
    ≡ wrote (request_message 1 "initialize" none)
      ∷ wrote (request_message 2 "session/prompt" none)
      ∷ settled 1 (resolved "ok")
      ∷ lost_answer 2
      ∷ []
unfolding handle_message request connect
null_error_loses = refl
