-- ===== src/Queue/Agreement.antt =====
-- The array and the index of every lane agree after any history.
use lark_remote.Common.{
  ℕ, suc, String, Text, Option, none, some, ◌≡◌, inl, inr, refl, arith, Option-cases, List-cases,
  Bool-cases, str_eq,
}
use lark_remote.Common.Dict.{lookup}
use lark_remote.Queue.Types.{TaskMeta, Closure, Entry, Lane, Shared, truthy}
use lark_remote.Queue.Lanes.{
  decrement_executing_count, reset_executing_count, remove_from_queue, update_queued_task_message,
  set_task_replacement, take_task_replacement, hold_task_run_start, release_hold,
  await_task_run_start,
}
use lark_remote.Queue.Chain.{
  advance, entry_id, register_queued_task, enqueue, take_task, begin_queued_task, begin_next,
  occupy, settle,
}
use lark_remote.Queue.Step.{
  Call, enqueues, begins, settles, removes, edits, resets, replaces, holds, releases, awaits,
  lane_step, Manager, step, Minted, Reach, start, next,
}
use lark_remote.Queue.Mirror.{
  IsMirrored, Keeps, IsMirrored-Keeps, remove-IsMirrored, same-IsMirrored, register-IsMirrored,
}

Keeps-same : {s t : Shared} → s.tasks ≡ t.tasks → s.next_task ≡ t.next_task → Keeps s t
Keeps-same {s} {t} e f = record { grows = omega arith; same_ids = λ r h. rw e }

bump : Shared → Shared
bump s = record s { slot_counter = suc s.slot_counter }

enqueue-IsMirrored :
    (cwd : String) (now : ℕ) (task : Closure) (meta : Option TaskMeta) (l : Lane) (s : Shared)
    → Minted (enqueues now task meta) l
    → IsMirrored l s
    → let o = enqueue now cwd task meta l s in IsMirrored o.lane o.shared
unfolding enqueue bump
enqueue-IsMirrored cwd now task none l s fresh v =
    IsMirrored-Keeps (Keeps-same refl refl) (same-IsMirrored l _ s v refl refl)
enqueue-IsMirrored cwd now task (some meta) l s fresh v =
    let w =
      register-IsMirrored now cwd meta l (bump s) (IsMirrored-Keeps (Keeps-same refl refl) v)
        fresh in
    elim (Bool-cases (register_queued_task now cwd meta l (bump s)).3) [
      | inl accepted ↦ rw accepted (same-IsMirrored _ _ _ w refl refl)
      | inr refused ↦ rw refused w
    ]

-- What a task leaves behind when it begins.
begun-IsMirrored :
    (now : ℕ) (e : Entry) (key : Option String) (id : String) (live : Text) (l : Lane) (s : Shared)
    → IsMirrored l s
    → IsMirrored (occupy now e key live (take_task_replacement id (take_task id s l)).0) s
unfolding occupy take_task_replacement take_task
begun-IsMirrored now e key id live l s v =
    remove-IsMirrored id l _ s v (ground arith) (ground arith)

begin-IsMirrored :
    (now : ℕ) (e : Entry) (l : Lane) (s : Shared)
    → IsMirrored l s
    → let o = begin_queued_task now e l s in IsMirrored o.lane o.shared
unfolding begin_queued_task
begin-IsMirrored now e l s v = elim (Option-cases (truthy (entry_id e))) [
  | inl anonymous ↦ rw (anonymous, begin_queued_task) (same-IsMirrored l _ s v refl refl)
  | inr (id, keyed) ↦ elim (Option-cases (lookup id l.task_index)) [
    | inl gone ↦ rw (keyed, gone, begin_queued_task) v
    | inr (r, found) ↦
        rw (keyed, found, begin_queued_task)
          (IsMirrored-Keeps (Keeps-same refl refl)
            (begun-IsMirrored now e (entry_id e) id (s.tasks r).message_preview l s v))
  ]
]

edit-Keeps :
    (id : String) (new : Text) (l : Lane) (s : Shared)
    → Keeps s (update_queued_task_message id new l s).0
unfolding update_queued_task_message
edit-Keeps id new l s = elim (Option-cases (lookup id l.task_index)) [
  | inl gone ↦ rw (gone, update_queued_task_message) (Keeps-same refl refl)
  | inr (r, found) ↦
      rw (found, update_queued_task_message)
        (record { grows = omega arith; same_ids = λ k h. ground arith })
]

begin_next-IsMirrored :
    (now : ℕ) (l : Lane) (s : Shared)
    → IsMirrored l s
    → let o = begin_next now l s in IsMirrored o.lane o.shared
unfolding begin_next
begin_next-IsMirrored now l s v = elim (Option-cases l.active) [
  | inr (slot, e) ↦ rw (e, begin_next) v
  | inl idle ↦ elim (List-cases l.chain) [
    | inl e ↦ rw (idle, e, begin_next) v
    | inr (e, rest, eq) ↦
        rw (idle, eq, begin_next)
          (begin-IsMirrored now e (advance e rest l) s
            (same-IsMirrored l (advance e rest l) s v refl refl))
  ]
]

settle-IsMirrored : (l : Lane) (s : Shared) → IsMirrored l s → IsMirrored (settle l) s
unfolding settle decrement_executing_count
settle-IsMirrored l s v = same-IsMirrored l _ s v (ground arith) (ground arith)

cancel-IsMirrored :
    (id : String) (l : Lane) (s : Shared)
    → IsMirrored l s
    → IsMirrored (remove_from_queue id s l).0 s
unfolding remove_from_queue
cancel-IsMirrored id l s v = elim (Option-cases (lookup id l.task_index)) [
  | inl gone ↦ rw (gone, remove_from_queue) (same-IsMirrored l _ s v refl refl)
  | inr (r, found) ↦ rw (found, remove_from_queue) (remove-IsMirrored id l _ s v refl refl)
]

-- Every call on a lane keeps its array and its index in agreement.
pub lane_step-IsMirrored :
    (cwd : String) (c : Call) (l : Lane) (s : Shared)
    → Minted c l
    → IsMirrored l s
    → let o = lane_step cwd c l s in IsMirrored o.lane o.shared
unfolding lane_step
lane_step-IsMirrored cwd (enqueues now task meta) l s fresh v =
    enqueue-IsMirrored cwd now task meta l s fresh v
lane_step-IsMirrored cwd (begins now) l s fresh v = begin_next-IsMirrored now l s v
lane_step-IsMirrored cwd settles l s fresh v = settle-IsMirrored l s v
lane_step-IsMirrored cwd (removes id) l s fresh v = cancel-IsMirrored id l s v
lane_step-IsMirrored cwd (edits id new) l s fresh v = IsMirrored-Keeps (edit-Keeps id new l s) v
lane_step-IsMirrored cwd (resets slot) l s fresh v =
    unfold reset_executing_count in same-IsMirrored l _ s v (ground arith) (ground arith)
lane_step-IsMirrored cwd (replaces id task) l s fresh v =
    unfold set_task_replacement in same-IsMirrored l _ s v refl refl
lane_step-IsMirrored cwd (holds id) l s fresh v =
    unfold hold_task_run_start in
    IsMirrored-Keeps (Keeps-same refl refl) (same-IsMirrored l _ s v refl refl)
lane_step-IsMirrored cwd (releases id hold) l s fresh v =
    unfold release_hold in
    IsMirrored-Keeps (Keeps-same (ground arith) (ground arith))
      (same-IsMirrored l _ s v (ground arith) (ground arith))
lane_step-IsMirrored cwd awaits l s fresh v =
    unfold await_task_run_start in same-IsMirrored l _ s v (ground arith) (ground arith)

register-Keeps :
    (now : ℕ) (cwd : String) (meta : TaskMeta) (l : Lane) (s : Shared)
    → Keeps s (register_queued_task now cwd meta l s).1
unfolding register_queued_task
register-Keeps now cwd meta l s = record { grows = ground arith; same_ids = λ r h. ground arith }

enqueue-Keeps :
    (now : ℕ) (cwd : String) (task : Closure) (meta : Option TaskMeta) (l : Lane) (s : Shared)
    → Keeps s (enqueue now cwd task meta l s).shared
unfolding enqueue bump
enqueue-Keeps now cwd task none l s = Keeps-same refl refl
enqueue-Keeps now cwd task (some meta) l s =
    let k = register-Keeps now cwd meta l (bump s) in
    record { grows = k.grows; same_ids = k.same_ids }

begin-Keeps : (now : ℕ) (l : Lane) (s : Shared) → Keeps s (begin_next now l s).shared
unfolding begin_next
begin-Keeps now l s = Keeps-same (ground arith) (ground arith)

lane_step-Keeps :
    (cwd : String) (c : Call) (l : Lane) (s : Shared) → Keeps s (lane_step cwd c l s).shared
unfolding lane_step
lane_step-Keeps cwd (enqueues now task meta) l s = enqueue-Keeps now cwd task meta l s
lane_step-Keeps cwd (begins now) l s = begin-Keeps now l s
lane_step-Keeps cwd (edits id new) l s = edit-Keeps id new l s
lane_step-Keeps cwd (holds id) l s = unfold hold_task_run_start in Keeps-same refl refl
lane_step-Keeps cwd (releases id hold) l s =
    unfold release_hold in Keeps-same (ground arith) (ground arith)
lane_step-Keeps cwd _ l s = Keeps-same refl refl

-- Whatever calls are made on whatever lanes, in whatever order, as long as every task
-- is enqueued under a key that no waiting task of its directory has: the index by key holds exactly
-- the tasks of the array, in its order and under their own keys, each key stands in it once, and at
-- most 50 tasks wait.
pub Reach-IsMirrored : {m : Manager} → Reach m → (cwd : String) → IsMirrored (m.lanes cwd) m.shared
unfolding step
Reach-IsMirrored start cwd = record {
  mirrored = refl;
  distinct = tt;
  allocated = tt;
  bounded = omega arith;
}
Reach-IsMirrored (next {m} r here c minted) cwd = elim (Bool-cases (str_eq cwd here)) [
  | inl same ↦
      rw same (lane_step-IsMirrored here c (m.lanes here) m.shared minted (Reach-IsMirrored r here))
  | inr other ↦
      rw other
        (IsMirrored-Keeps (lane_step-Keeps here c (m.lanes here) m.shared) (Reach-IsMirrored r cwd))
]
