-- ===== src/Queue/Admission.antt =====
-- What the enqueue of a task behind a running one does.
use lark_remote.Common.{
  ℕ, suc, ◌+◌, ◌<◌, String, List, [], ◌∷◌, ◌++◌, none, some, or_else, Bool, true, false, ◌≡◌, refl,
  arith, any, ◌==◌, length, leb, All, find_idx?, ◌&&◌, str_eq, eq_iff,
}
use lark_remote.Common.Dict.{lookup}
use lark_remote.Queue.Types.{
  TaskMeta, Closure, Lane, Shared, ExecutingInfo, send_card, max_waiting_queue,
}
use lark_remote.Queue.Cards.{queue_status_card}
use lark_remote.Queue.Lanes.{has_id}
use lark_remote.Queue.Chain.{enqueue, has_waiting_tasks, reply_target, add_task, alloc_task}
use lark_remote.Queue.Armed.{IsArmed}
use lark_remote.Queue.Mirror.{IsMirrored, entries}

abbrev is_card_of : TaskMeta → Shared → ℕ → Bool
is_card_of meta s r = str_eq (s.tasks r).chat_id meta.chat_id && has_id s meta.message_id r

-- The task that was just registered is found behind all that waited.
find-alloc :
    (now : ℕ) (cwd : String) (meta : TaskMeta) (s : Shared) (refs : List ℕ)
    → All (λ r. r < s.next_task) refs
    → lookup meta.message_id (entries s refs) ≡ none
    → find_idx? (is_card_of meta (alloc_task now cwd meta s)) (refs ++ s.next_task ∷ [])
      ≡ some (length refs)
unfolding lookup alloc_task
find-alloc now cwd meta s [] a e =
    ground (arith, eq_iff meta.chat_id meta.chat_id, eq_iff meta.message_id meta.message_id)
find-alloc now cwd meta s (r ∷ refs) a e =
    ground
      (arith, eq_iff (s.tasks r).message_id meta.message_id, find-alloc now cwd meta s refs a.1)

abbrev after_bump : Shared → Shared
after_bump s = record s { slot_counter = suc s.slot_counter }

-- Behind a running task that was not interrupted, an accepted task joins the chain and the array,
-- raises the count, and gets a queue card as a reply to its message, which counts every task that
-- waits before it.
pub enqueue_behind :
    (now : ℕ) (cwd : String) (task : Closure) (meta : TaskMeta) (l : Lane) (s : Shared)
    (info : ExecutingInfo)
    → IsArmed l
    → IsMirrored l s
    → lookup meta.message_id l.task_index ≡ none
    → l.executing_info ≡ some info
    → any (λ t. t == info.slot_id) l.interrupted_slots ≡ false
    → length l.queued_tasks < max_waiting_queue
    → let o = enqueue now cwd task (some meta) l s in
      let card =
        queue_status_card
          (add_task s.next_task cwd meta l)
          (alloc_task now cwd meta (after_bump s))
          cwd
          (some (length l.queued_tasks))
          meta.message_id
          meta.message_preview in
      (o.lane.chain
        ≡ l.chain
          ++ record { slot_id = suc s.slot_counter; task = task; task_meta = some meta } ∷ [])
      × (o.lane.queued_tasks ≡ l.queued_tasks ++ s.next_task ∷ [])
      × (o.lane.pending_or_executing_count ≡ some (or_else l.pending_or_executing_count 0 + 1))
      × (o.actions ≡ send_card meta.chat_id card (reply_target meta) ∷ [])
unfolding enqueue
enqueue_behind now cwd task meta l s info v w fresh run counted room =
    rw (is_room, waits)
      (
        refl,
        refl,
        refl,
        rw (
            find-alloc now cwd meta (after_bump s) l.queued_tasks w.allocated
              (rw w.mirrored at fresh)),
      )
  where
    is_room : leb max_waiting_queue (length l.queued_tasks) ≡ false
    is_room = ground arith

    waits : has_waiting_tasks l ≡ true
    waits = unfold has_waiting_tasks in ground arith
