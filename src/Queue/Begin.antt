-- ===== src/Queue/Begin.antt =====
-- What the begin of a waiting task does.
use lark_remote.Common.{
  ℕ, ◌≤◌, String, List, [], ◌∷◌, ◌++◌, none, some, or_else, true, ◌≡◌, arith, any, remove_first,
  drop, str_eq, eq_iff,
}
use lark_remote.Common.Dict.{lookup, lookup-erase_self}
use lark_remote.Queue.Types.{Entry, Lane, Shared, truthy, run, update_to_executing}
use lark_remote.Queue.Lanes.{has_id, has_began, executing_slot}
use lark_remote.Queue.Chain.{entry_id, begin_queued_task, mark_began}
use lark_remote.Queue.Mirror.{IsMirrored}

any-concat : (id : String) (bs : List String) → any (λ b. str_eq b id) (bs ++ id ∷ []) ≡ true
any-concat id [] = ground (arith, eq_iff id id)
any-concat id (b ∷ bs) = ground (arith, any-concat id bs)

began-mark : (id : String) (bs : List String) → any (λ b. str_eq b id) (mark_began id bs) ≡ true
unfolding mark_began
began-mark id bs = ground (arith, any-concat id bs, any-concat id (drop 1 bs))

-- When a waiting task begins, it leaves the array and the index, is marked as begun whatever the
-- size of that set, becomes the occupant, and counts; its card is turned to the text that it has now,
-- and its replacement closure runs if one was set, else its own.
pub begin_effect :
    (now : ℕ) (e : Entry) (id : String) (r : ℕ) (l : Lane) (s : Shared)
    → IsMirrored l s
    → truthy (entry_id e) ≡ some id
    → lookup id l.task_index ≡ some r
    → let o = begin_queued_task now e l s in
      (o.lane.queued_tasks ≡ remove_first (has_id s id) l.queued_tasks)
      × (lookup id o.lane.task_index ≡ none)
      × (has_began id o.shared ≡ true)
      × (executing_slot o.lane ≡ some e.slot_id)
      × (1 ≤ or_else o.lane.pending_or_executing_count 0)
      × (o.actions
          ≡ update_to_executing id (s.tasks r).message_preview
            ∷ run (or_else (lookup id l.task_replacements) e.task)
            ∷ [])
unfolding begin_queued_task has_began
begin_effect now e id r l s v keyed found = (
  ground arith,
  ground (arith, lookup-erase_self id l.task_index v.distinct),
  ground (arith, began-mark id s.began_message_ids),
  ground arith,
  ground arith,
  ground arith,
)
