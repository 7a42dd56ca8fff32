-- ===== src/Queue/Armed.antt =====
-- The interrupt bookkeeping of a lane.
use lark_remote.Common.{
  ℕ, ◌≤◌, String, Text, List, [], ◌∷◌, Option, none, some, or_else, true, any, ◌==◌, ◌≡◌, ◌⊎◌, inl,
  inr, refl, arith, Option-cases, List-cases, Bool-cases, str_eq,
}
use lark_remote.Queue.Types.{ExecutingInfo, TaskMeta, Closure, Entry, Lane, Shared}
use lark_remote.Queue.Lanes.{decrement_executing_count, reset_executing_count}
use lark_remote.Queue.Lanes.{
  remove_from_queue, set_task_replacement, hold_task_run_start, release_hold, await_task_run_start,
}
use lark_remote.Queue.Step.{
  Call, enqueues, begins, settles, removes, edits, resets, replaces, holds, releases, awaits,
  lane_step, Manager, step, Reach, start, next,
}
use lark_remote.Queue.Chain.{enqueue, begin_next, begin_queued_task, occupy, settle}

-- The occupant is the link that has begun, and it counts unless it was interrupted.
abbrev pub Occupied : Option ExecutingInfo → Option ℕ → Option ℕ → List ℕ → Type 0
Occupied none active count slots = Unit
Occupied (some info) active count slots =
    (active ≡ some info.slot_id)
    × ((1 ≤ or_else count 0) ⊎ (any (λ s. s == info.slot_id) slots ≡ true))

-- At most one credit is out, and it belongs to the link that has begun.
abbrev pub Credited : Option ℕ → List ℕ → Type 0
Credited active slots = (slots ≡ []) ⊎ ((slot : ℕ) × (slots ≡ slot ∷ []) × (active ≡ some slot))

pub record IsArmed (l : Lane) : Type 0 where
  pub occupied : Occupied l.executing_info l.active l.pending_or_executing_count l.interrupted_slots
  pub credited : Credited l.active l.interrupted_slots

pub settle-IsArmed : (l : Lane) → IsArmed l → IsArmed (settle l)
unfolding settle decrement_executing_count
settle-IsArmed l v = ground arith

pub reset-IsArmed : (slot : ℕ) (l : Lane) → IsArmed l → IsArmed (reset_executing_count slot l)
unfolding reset_executing_count
reset-IsArmed slot l v = ground arith

occupy-IsArmed :
    (now : ℕ) (e : Entry) (id : Option String) (preview : Text) (l : Lane)
    → l.active ≡ some e.slot_id
    → l.interrupted_slots ≡ []
    → IsArmed (occupy now e id preview l)
unfolding occupy
occupy-IsArmed now e id preview l h k = ground arith

begin-IsArmed :
    (now : ℕ) (e : Entry) (l : Lane) (s : Shared)
    → l.active ≡ some e.slot_id
    → l.interrupted_slots ≡ []
    → l.executing_info ≡ none
    → IsArmed (begin_queued_task now e l s).lane
unfolding begin_queued_task
begin-IsArmed now e l s h k i = ground arith

enqueue-IsArmed :
    (now : ℕ) (cwd : String) (task : Closure) (meta : Option TaskMeta) (l : Lane) (s : Shared)
    → IsArmed l
    → IsArmed (enqueue now cwd task meta l s).lane
unfolding enqueue
enqueue-IsArmed now cwd task none l s v = ground arith
enqueue-IsArmed now cwd task (some meta) l s v = ground arith

begin_next-IsArmed :
    (now : ℕ) (l : Lane) (s : Shared) → IsArmed l → IsArmed (begin_next now l s).lane
unfolding begin_next
begin_next-IsArmed now l s v = elim (Option-cases l.active) [
  | inr (slot, e) ↦ rw (e, begin_next) v
  | inl idle ↦ elim (List-cases l.chain) [
    | inl e ↦ rw (idle, e, begin_next) v
    | inr (e, rest, eq) ↦
        rw (idle, eq, begin_next)
          (begin-IsArmed now e (record l { chain = rest; active = some e.slot_id }) s refl
            (ground arith) (ground arith))
  ]
]

-- Every call keeps the occupant counted and leaves at most one interrupt credit out.
pub lane_step-IsArmed :
    (cwd : String) (c : Call) (l : Lane) (s : Shared)
    → IsArmed l
    → IsArmed (lane_step cwd c l s).lane
unfolding lane_step
lane_step-IsArmed cwd (enqueues now task meta) l s v = enqueue-IsArmed now cwd task meta l s v
lane_step-IsArmed cwd (begins now) l s v = begin_next-IsArmed now l s v
lane_step-IsArmed cwd settles l s v = settle-IsArmed l v
lane_step-IsArmed cwd (removes id) l s v = unfold remove_from_queue in ground arith
lane_step-IsArmed cwd (edits id new) l s v = v
lane_step-IsArmed cwd (resets slot) l s v = reset-IsArmed slot l v
lane_step-IsArmed cwd (replaces id task) l s v = unfold set_task_replacement in ground arith
lane_step-IsArmed cwd (holds id) l s v = unfold hold_task_run_start in ground arith
lane_step-IsArmed cwd (releases id hold) l s v = unfold release_hold in ground arith
lane_step-IsArmed cwd awaits l s v = unfold await_task_run_start in ground arith

-- Whatever calls are made on whatever lanes, in whatever order: the occupant of a lane is the link
-- that has begun, it counts as pending or executing unless it was interrupted, and at most one
-- interrupt credit is out, which belongs to the link that has begun.
pub Reach-IsArmed : {m : Manager} → Reach m → (cwd : String) → IsArmed (m.lanes cwd)
unfolding step
Reach-IsArmed start cwd = record { occupied = tt; credited = inl refl }
Reach-IsArmed (next {m} r here c minted) cwd = elim (Bool-cases (str_eq cwd here)) [
  | inl same ↦ rw same (lane_step-IsArmed here c (m.lanes here) m.shared (Reach-IsArmed r here))
  | inr other ↦ rw other (Reach-IsArmed r cwd)
]
