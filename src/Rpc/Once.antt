-- ===== src/Rpc/Once.antt =====
-- Every request of src/runner/common/jsonrpc/client.ts is settled at most once; one that is answered
-- with a null error is dropped.
use lark_remote.Common.{
  ℕ, ◌+◌, ◌≤◌, String, Bool, true, false, List, [], ◌∷◌, ◌++◌, Option, none, some, ◌≡◌, refl, arith,
  if◌then◌else◌, map, ◌==◌, or_else, Option-cases, Bool-cases, inl, inr,
}
use lark_remote.Rpc.Types.{
  RpcId, numbered, foreign, ErrorMember, null_error, error_body, Settlement, RpcFailure, rejected,
  connection_lost, RpcMessage, RpcCall, settled, lost_answer, wrote, request_message, notification,
  success_response, error_response, on_notification, on_server_request, on_close, HookLayer,
  base_hooks, run_hooks, close_transport, Budget, RpcClient, capped, default_budget,
}
use lark_remote.Rpc.Client.{
  has_request, on_layers, handle_method, handle_fields, settle_request, reject_all_pending, refusal,
  request, request_timer_fired, settle_answer, lose_answer, handle_message, transport_lost,
  server_exits, connect, dispose_client, notify, respond_result, respond_error, handshake_done,
  set_hooks,
}
use lark_remote.Rpc.Counts.{
  count_of, settlements, sendings, losses, losses-append, losses-rejected, settlements-append,
  sendings-append, settlements-rejected, sendings-rejected, count_of-append, count_of-drop,
  has_request-le, has_request-none, count_of-cleared,
}
use lark_remote.Rpc.Step.{
  null_fields, null_message, null_last, null_step, null_errors, fresh_client, RpcStep, RpcReach,
  here, next, hooked, connecting, connected, requested, timed_out, notified, responded, refused,
  received, lost, exited, disposing,
}

-- A sent request was settled, dropped by a null error or waits, with its timer; ids not yet given
-- were not sent.
pub record IsOnce (id n : ℕ) (c : RpcClient) : Type 0 where
  pub balance :
      settlements id c.calls + losses id c.calls + count_of id c.pending ≡ sendings id c.calls
  pub lost : losses id c.calls ≤ n
  pub timed : count_of id c.timers ≡ count_of id c.pending
  pub single : sendings id c.calls ≤ 1
  pub unused : c.next_id ≤ id → sendings id c.calls ≡ 0

module _ (id n : ℕ) where
  settle_request-IsOnce :
      (k : ℕ) (o : Settlement) (c : RpcClient)
      → ((k == id) ≡ true → 1 ≤ count_of id c.pending)
      → IsOnce id n c
      → IsOnce id n (settle_request k o c)
  unfolding settle_request
  settle_request-IsOnce k o c h i =
      let sent = sendings-append id c.calls (settled k o ∷ []) in
      let ended = settlements-append id c.calls (settled k o ∷ []) in
      let losing = losses-append id c.calls (settled k o ∷ []) in
      let left = count_of-drop id k c.pending in
      record {
        balance = ground (arith, has_request-le id c.pending, i.balance, i.single);
        lost = ground (arith, i.lost);
        timed = ground (arith, count_of-drop id k c.timers, i.timed);
        single = ground (arith, i.single);
        unused = λ h. ground (arith, i.unused h);
      }

  lose_answer-IsOnce :
      (key : RpcId) (c : RpcClient)
      → losses id c.calls + null_fields id (some key) none (some null_error) ≤ n
      → IsOnce id n c
      → IsOnce id n (lose_answer key c)
  unfolding lose_answer
  lose_answer-IsOnce (foreign key) c b i = i
  lose_answer-IsOnce (numbered k) c b i = elim (Bool-cases (has_request k c.pending)) [
    | inl e ↦
        rw e
          let sent = sendings-append id c.calls (lost_answer k ∷ []) in
            let ended = settlements-append id c.calls (lost_answer k ∷ []) in
            let losing = losses-append id c.calls (lost_answer k ∷ []) in
            let left = count_of-drop id k c.pending in
            record {
              balance = ground (arith, e, has_request-le id c.pending, i.balance, i.single);
              lost = ground (arith, b);
              timed = ground (arith, count_of-drop id k c.timers, i.timed);
              single = ground (arith, i.single);
              unused = λ h. ground (arith, i.unused h);
            }
    | inr e ↦ rw e i
  ]

  -- Calls that neither send nor settle_request nor drop.
  quiet-IsOnce :
      (c d : RpcClient) (cs : List RpcCall)
      → d.calls ≡ c.calls ++ cs
      → sendings id cs ≡ 0
      → settlements id cs ≡ 0
      → losses id cs ≡ 0
      → d.pending ≡ c.pending
      → d.timers ≡ c.timers
      → d.next_id ≡ c.next_id
      → IsOnce id n c
      → IsOnce id n d
  quiet-IsOnce c d cs e s t l p q m i =
      let sent = sendings-append id c.calls cs in
      let ended = settlements-append id c.calls cs in
      let losing = losses-append id c.calls cs in
      record {
        balance = rw (e, p) (omega (arith, i.balance));
        lost = rw e (omega (arith, i.lost));
        timed = rw (p, q) i.timed;
        single = rw e (omega (arith, i.single));
        unused = λ h. rw e (omega (arith, i.unused (rw (← m) h)));
      }

  reject_all-IsOnce :
      (err : RpcFailure) (c : RpcClient) → IsOnce id n c → IsOnce id n (reject_all_pending err c)
  unfolding reject_all_pending
  reject_all-IsOnce err c i =
      let rejections = map (λ (e : ℕ × String). settled e.0 (rejected err)) c.pending in
      let sent = sendings-append id c.calls rejections in
      let ended = settlements-append id c.calls rejections in
      let losing = losses-append id c.calls rejections in
      let none_lost = losses-rejected id err c.pending in
      let none_sent = sendings-rejected id err c.pending in
      let all_ended = settlements-rejected id err c.pending in
      record {
        balance = ground (arith, i.balance);
        lost = ground (arith, i.lost);
        timed =
            ground (
              arith,
              count_of-cleared id c.pending c.timers,
              has_request-none id c.pending,
              i.timed,
            );
        single = ground (arith, i.single);
        unused = λ h. ground (arith, i.unused h);
      }

  request-IsOnce :
      (now : ℕ) (method : String) (params : Option String) (timeout : Option Budget) (c : RpcClient)
      → IsOnce id n c
      → IsOnce id n (request now method params timeout c)
  unfolding request
  request-IsOnce now method params timeout c i = elim (Option-cases (refusal c)) [
    | inr (err, e) ↦ rw (e, request) i
    | inl e ↦
        rw (e, request)
          let sending = wrote (request_message c.next_id method params) ∷ [] in
            let at = now + capped (or_else timeout (default_budget c.request_timeout_ms)) in
            let sent = sendings-append id c.calls sending in
            let ended = settlements-append id c.calls sending in
            let losing = losses-append id c.calls sending in
            let waiting = count_of-append id c.pending ((c.next_id, method) ∷ []) in
            let timing = count_of-append id c.timers ((c.next_id, at) ∷ []) in
            record {
              balance = ground (arith, i.balance);
              lost = ground (arith, i.lost);
              timed = ground (arith, i.timed);
              single = ground (arith, i.single, i.unused);
              unused = λ h. ground (arith, i.unused);
            }
  ]

  recast-IsOnce :
      (c d : RpcClient)
      → d.calls ≡ c.calls
      → d.pending ≡ c.pending
      → d.timers ≡ c.timers
      → d.next_id ≡ c.next_id
      → IsOnce id n c
      → IsOnce id n d
  recast-IsOnce c d e p q m i = record {
    balance = rw (e, p) i.balance;
    lost = rw e i.lost;
    timed = rw (p, q) i.timed;
    single = rw e i.single;
    unused = λ h. rw e (i.unused (rw (← m) h));
  }

  layers-IsOnce :
      (hook : HookLayer → RpcCall) (c : RpcClient)
      → ((layer : HookLayer)
          → (sendings id (hook layer ∷ []) ≡ 0)
            × (settlements id (hook layer ∷ []) ≡ 0)
            × (losses id (hook layer ∷ []) ≡ 0))
      → IsOnce id n c
      → IsOnce id n (on_layers hook c)
  layers-IsOnce hook c h i = elim (Bool-cases c.has_run_hooks) [
    | inl e ↦ rw e (
        quiet-IsOnce c _ (hook base_hooks ∷ hook run_hooks ∷ []) refl
          (omega (arith, h base_hooks, h run_hooks)) (omega (arith, h base_hooks, h run_hooks))
          (omega (arith, h base_hooks, h run_hooks)) refl refl refl i)
    | inr e ↦ rw e (
        quiet-IsOnce c _ (hook base_hooks ∷ []) refl (h base_hooks).0 (h base_hooks).1
          (h base_hooks).2 refl refl refl i)
  ]

  transport_lost-IsOnce : (c : RpcClient) → IsOnce id n c → IsOnce id n (transport_lost c)
  unfolding transport_lost
  transport_lost-IsOnce c i =
      layers-IsOnce on_close _ (λ layer. (refl, refl, refl))
        (reject_all-IsOnce (connection_lost "transport closed") _
          (recast-IsOnce c (record c { closed = true }) refl refl refl refl i))

  if-IsOnce :
      (b : Bool) (c d : RpcClient)
      → IsOnce id n c
      → IsOnce id n d
      → IsOnce id n (if b then c else d)
  if-IsOnce true c d i j = i
  if-IsOnce false c d i j = j

  settle_answer-IsOnce :
      (key : RpcId) (o : Settlement) (c : RpcClient)
      → IsOnce id n c
      → IsOnce id n (settle_answer key o c)
  unfolding settle_answer
  settle_answer-IsOnce (foreign key) o c i = i
  settle_answer-IsOnce (numbered k) o c i = elim (Bool-cases (has_request k c.pending)) [
    | inl e ↦
        rw e (settle_request-IsOnce k o c (λ h. ground (arith, e, has_request-le id c.pending)) i)
    | inr e ↦ rw e i
  ]

  method-IsOnce :
      (key : Option RpcId) (method params : Option String) (c : RpcClient)
      → IsOnce id n c
      → IsOnce id n (handle_method key method params c)
  method-IsOnce key none params c i = i
  method-IsOnce none (some method) params c i =
      layers-IsOnce (λ l. on_notification l method params) c (λ layer. (refl, refl, refl)) i
  method-IsOnce (some key) (some method) params c i =
      layers-IsOnce (λ l. on_server_request l key method params) c (λ layer. (refl, refl, refl)) i

  fields-IsOnce :
      (key : Option RpcId) (result : Option String) (error : Option ErrorMember)
      (method params : Option String) (c : RpcClient)
      → losses id c.calls + null_fields id key result error ≤ n
      → IsOnce id n c
      → IsOnce id n (handle_fields key result error method params c)
  fields-IsOnce (some key) (some result) error method params c b i = settle_answer-IsOnce key _ c i
  fields-IsOnce (some key) none (some (error_body err)) method params c b i =
      settle_answer-IsOnce key _ c i
  fields-IsOnce (some key) none (some null_error) method params c b i = lose_answer-IsOnce key c b i
  fields-IsOnce (some key) none none method params c b i =
      method-IsOnce (some key) method params c i
  fields-IsOnce none result error method params c b i = method-IsOnce none method params c i

  handle_message-IsOnce :
      (m : RpcMessage) (c : RpcClient)
      → losses id c.calls + null_message id m ≤ n
      → IsOnce id n c
      → IsOnce id n (handle_message m c)
  unfolding handle_message
  handle_message-IsOnce m c b i = fields-IsOnce m.id m.result m.error m.method m.params c b i

  server_exits-IsOnce :
      (last : Option RpcMessage) (c : RpcClient)
      → losses id c.calls + null_last id last ≤ n
      → IsOnce id n c
      → IsOnce id n (server_exits last c)
  unfolding server_exits
  server_exits-IsOnce none c b i = transport_lost-IsOnce c i
  server_exits-IsOnce (some m) c b i = transport_lost-IsOnce _ (
      handle_message-IsOnce m _ b
        (recast-IsOnce c (record c { closed = true }) refl refl refl refl i))

  dispose_client-IsOnce : (c : RpcClient) → IsOnce id n c → IsOnce id n (dispose_client c)
  unfolding dispose_client
  dispose_client-IsOnce c i = if-IsOnce c.disposed c _ i (
      quiet-IsOnce
        (reject_all_pending (connection_lost "client disposed")
          (record c { disposed = true; ready = false }))
        _ (close_transport ∷ []) refl refl refl refl refl refl refl
        (reject_all-IsOnce (connection_lost "client disposed") _
          (recast-IsOnce c (record c { disposed = true; ready = false }) refl refl refl refl i)))

  pub RpcStep-IsOnce :
      {c d : RpcClient} (st : RpcStep c d)
      → losses id c.calls + null_step id st ≤ n
      → IsOnce id n c
      → IsOnce id n d
  unfolding set_hooks handshake_done connect notify respond_result respond_error request_timer_fired
  RpcStep-IsOnce {c} hooked b i = recast-IsOnce c _ refl refl refl refl i
  RpcStep-IsOnce {c} (connecting now params) b i =
      if-IsOnce c.closed c _ i (request-IsOnce now "initialize" params none c i)
  RpcStep-IsOnce {c} connected b i = recast-IsOnce c _ refl refl refl refl i
  RpcStep-IsOnce {c} (requested now method params timeout) b i =
      request-IsOnce now method params timeout c i
  RpcStep-IsOnce {c} (timed_out k method h) b i =
      settle_request-IsOnce k _ c (λ e. ground (arith, h, has_request-le id c.timers, i.timed)) i
  RpcStep-IsOnce {c} (notified method params) b i = if-IsOnce c.disposed c _ i (
      quiet-IsOnce c _ (wrote (notification method params) ∷ []) refl refl refl refl refl refl refl
        i)
  RpcStep-IsOnce {c} (responded key result) b i =
      quiet-IsOnce c _ (wrote (success_response key result) ∷ []) refl refl refl refl refl refl refl
        i
  RpcStep-IsOnce {c} (refused key code message) b i =
      quiet-IsOnce c _ (wrote (error_response key code message) ∷ []) refl refl refl refl refl refl
        refl i
  RpcStep-IsOnce {c} (received m) b i = handle_message-IsOnce m c b i
  RpcStep-IsOnce {c} lost b i = transport_lost-IsOnce c i
  RpcStep-IsOnce {c} (exited last) b i = server_exits-IsOnce last c b i
  RpcStep-IsOnce {c} disposing b i = dispose_client-IsOnce c i

pub RpcReach-IsOnce :
    (id timeout : ℕ) {c : RpcClient} (r : RpcReach (fresh_client timeout) c)
    → IsOnce id (null_errors id r) c
RpcReach-IsOnce id timeout here = record {
  balance = refl;
  lost = omega arith;
  timed = refl;
  single = omega arith;
  unused = λ h. refl;
}
RpcReach-IsOnce id timeout (next r st) =
    let i = RpcReach-IsOnce id timeout r in
    RpcStep-IsOnce id (null_errors id r + null_step id st) st (omega (arith, i.lost)) record {
      balance = i.balance;
      lost = omega (arith, i.lost);
      timed = i.timed;
      single = i.single;
      unused = i.unused;
    }

-- Whatever calls are made on a client, and whatever messages, timers and closes come: a request is
-- sent at most once, and if it was sent it either waits, or it was settled exactly once, or it was
-- dropped without being settled, and this at most as often as a message answered it with an error
-- that is null.
pub settled_once :
    (id timeout : ℕ) {c : RpcClient} (r : RpcReach (fresh_client timeout) c)
    → (settlements id c.calls + losses id c.calls + count_of id c.pending ≡ sendings id c.calls)
      × (sendings id c.calls ≤ 1)
      × (losses id c.calls ≤ null_errors id r)
settled_once id timeout r = let i = RpcReach-IsOnce id timeout r in (i.balance, i.single, i.lost)
