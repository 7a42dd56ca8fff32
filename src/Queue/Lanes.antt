-- ===== src/Queue/Lanes.antt =====
-- The operations of src/bridge/queue-manager.ts on a lane that are no part of the promise chain.
use lark_remote.Common.{
  ℕ, suc, ◌-◌, String, Text, Bool, true, false, List, [], ◌∷◌, ◌++◌, map, Option, none, some,
  or_else, ◌==◌, any, length, remove_first, if◌then◌else◌, str_eq,
}
use lark_remote.Common.Dict.{lookup, insert, erase}
use lark_remote.Queue.Types.{QueuedTask, Closure, Lane, Shared, store, truthy}
use lark_remote.Queue.Cards.{index_get}

abbrev pub executing_slot : Lane → Option ℕ
executing_slot l = elim l.executing_info [ none ↦ none | some info ↦ some info.slot_id ]

abbrev pub is_executing : ℕ → Lane → Bool
is_executing slot l = elim l.executing_info [ none ↦ false | some info ↦ info.slot_id == slot ]

-- A settle: the occupant leaves, and the count falls unless the slot was interrupted.
unfoldable pub decrement_executing_count : ℕ → Lane → Lane
decrement_executing_count slot l =
    let info = if is_executing slot l then none else l.executing_info in
    if any (λ s. s == slot) l.interrupted_slots
    then record l {
      executing_info = info;
      interrupted_slots = remove_first (λ s. s == slot) l.interrupted_slots;
    }
    else record l {
      executing_info = info;
      pending_or_executing_count = some (or_else l.pending_or_executing_count 1 - 1);
    }

abbrev pub add_slot : ℕ → List ℕ → List ℕ
add_slot slot slots = if any (λ s. s == slot) slots then slots else slots ++ slot ∷ []

-- An external interrupt of the task in `expected`.
unfoldable pub reset_executing_count : ℕ → Lane → Lane
reset_executing_count expected l =
    if is_executing expected l
    then if or_else l.pending_or_executing_count 0 == 0 then l else record l {
      pending_or_executing_count = some 0;
      interrupted_slots = add_slot expected l.interrupted_slots;
    }
    else l

abbrev pub has_id : Shared → String → ℕ → Bool
has_id s id r = str_eq (s.tasks r).message_id id

-- 撤销: the new lane, and whether the task was waiting.
unfoldable pub remove_from_queue : String → Shared → Lane → Lane × Bool
remove_from_queue id s l =
    let l' = record l { task_replacements = erase id l.task_replacements } in
    elim (index_get l id) [
      | none ↦ (l', false)
      | some _ ↦ (
        record l' {
          queued_tasks = remove_first (has_id s id) l.queued_tasks;
          task_index = erase id l.task_index;
        },
        true,
      )
    ]

-- An edit changes the shared task object, found through the index.
unfoldable pub update_queued_task_message : String → Text → Lane → Shared → Shared × Bool
update_queued_task_message id new l s = elim (index_get l id) [
  | none ↦ (s, false)
  | some r ↦ (
    record s {
      tasks =
          store s.tasks r (record (s.tasks r) { message_preview = new; edited_message = some new });
    },
    true,
  )
]

unfoldable pub get_queued_tasks : Lane → Shared → List QueuedTask
get_queued_tasks l s = map s.tasks l.queued_tasks

unfoldable pub set_task_replacement : String → Closure → Lane → Lane
set_task_replacement id task l = record l { task_replacements = insert id task l.task_replacements }

-- Consumed when it is taken.
unfoldable pub take_task_replacement : String → Lane → Lane × Option Closure
take_task_replacement id l = elim (lookup id l.task_replacements) [
  | none ↦ (l, none)
  | some task ↦ (record l { task_replacements = erase id l.task_replacements }, some task)
]

abbrev pub holds_of : String → Lane → List ℕ
holds_of id l = or_else (lookup id l.task_run_holds) []

-- The new hold's number, with which it is released.
unfoldable pub hold_task_run_start : String → Lane → Shared → Lane × Shared × ℕ
hold_task_run_start id l s = (
  record l { task_run_holds = insert id (holds_of id l ++ s.next_hold ∷ []) l.task_run_holds },
  record s { next_hold = suc s.next_hold },
  s.next_hold,
)

abbrev pub put_holds : String → List ℕ → List (String × List ℕ) → List (String × List ℕ)
put_holds id [] holds = erase id holds
put_holds id (h ∷ hs) holds = insert id (h ∷ hs) holds

unfoldable pub release_hold : String → ℕ → Lane → Shared → Lane × Shared
release_hold id hold l s =
    let s' = record s { released_holds = hold ∷ s.released_holds } in
    elim (lookup id l.task_run_holds) [
      | none ↦ (l, s')
      | some holds ↦ (
        record l {
          task_run_holds = put_holds id (remove_first (λ h. h == hold) holds) l.task_run_holds;
        },
        s',
      )
    ]

-- The holds that the starting run waits for, taken off the lane.
unfoldable pub await_task_run_start : Lane → Lane × List ℕ
await_task_run_start l = elim l.executing_info [
  | none ↦ (l, [])
  | some info ↦ elim (truthy info.message_id) [
    | none ↦ (l, [])
    | some id ↦ elim (holds_of id l) [
      | [] ↦ (l, [])
      | h ∷ hs ↦ (record l { task_run_holds = erase id l.task_run_holds }, h ∷ hs)
    ]
  ]
]

pub record QueueInfo : Type 0 where
  pub position : ℕ
  pub tasks_ahead : ℕ
  pub is_running : Bool

-- `is_running` is what the callback `isWorkspaceRunning` returns for the directory.
unfoldable pub get_queue_info : Bool → Lane → QueueInfo
get_queue_info is_running l = record {
  position = length l.queued_tasks;
  tasks_ahead = length l.queued_tasks - 1;
  is_running = is_running;
}

unfoldable pub has_began : String → Shared → Bool
has_began id s = any (λ b. str_eq b id) s.began_message_ids
