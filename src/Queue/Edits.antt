-- ===== src/Queue/Edits.antt =====
-- Editing and cancelling a task that waits.
use lark_remote.Common.{
  ℕ, String, Text, List, [], ◌∷◌, map, none, some, ◌≡◌, inl, inr, refl, sym, arith, if◌then◌else◌,
  str_eq, eq_iff, Option-cases, is_some,
}
use lark_remote.Common.Dict.{lookup, lookup-erase_self, lookup-insert_self, Distinct}
use lark_remote.Queue.Types.{
  QueuedTask, Closure, Entry, Lane, Shared, store, truthy, run, update_to_executing,
}
use lark_remote.Queue.Cards.{get_queued_task}
use lark_remote.Queue.Lanes.{
  update_queued_task_message, get_queued_tasks, remove_from_queue, set_task_replacement,
}
use lark_remote.Queue.Chain.{entry_id, begin_queued_task}
use lark_remote.Queue.Step.{quiet}
use lark_remote.Queue.Mirror.{IsMirrored, entries}

-- The task object with the edit, if it has the key.
abbrev pub edited : String → Text → QueuedTask → QueuedTask
edited id new t =
    if str_eq t.message_id id
    then record t { message_preview = new; edited_message = some new }
    else t

abbrev edit_at : Text → ℕ → Shared → ℕ → QueuedTask
edit_at new r s =
    store s.tasks r (record (s.tasks r) { message_preview = new; edited_message = some new })

-- Tasks without the key keep their objects.
map-edit_at-none :
    (id : String) (new : Text) (r : ℕ) (s : Shared) (refs : List ℕ)
    → (s.tasks r).message_id ≡ id
    → lookup id (entries s refs) ≡ none
    → map (edit_at new r s) refs ≡ map (edited id new) (map s.tasks refs)
unfolding lookup
map-edit_at-none id new r s [] k e = refl
map-edit_at-none id new r s (x ∷ refs) k e =
    ground (arith, eq_iff (s.tasks x).message_id id, map-edit_at-none id new r s refs k)

pub id-lookup :
    (id : String) (s : Shared) (refs : List ℕ) (r : ℕ)
    → lookup id (entries s refs) ≡ some r
    → (s.tasks r).message_id ≡ id
unfolding lookup
id-lookup id s [] r e = cc
id-lookup id s (x ∷ refs) r e =
    ground (arith, eq_iff (s.tasks x).message_id id, id-lookup id s refs r)

map-edit_at :
    (id : String) (new : Text) (r : ℕ) (s : Shared) (refs : List ℕ)
    → Distinct (entries s refs)
    → lookup id (entries s refs) ≡ some r
    → map (edit_at new r s) refs ≡ map (edited id new) (map s.tasks refs)
unfolding lookup
map-edit_at id new r s [] d e = cc
map-edit_at id new r s (x ∷ refs) d e = ground (
  arith,
  eq_iff (s.tasks x).message_id id,
  id-lookup id s refs r,
  map-edit_at id new r s refs d.1,
  map-edit_at-none id new r s refs,
  d.0,
)

map-edited-none :
    (id : String) (new : Text) (s : Shared) (refs : List ℕ)
    → lookup id (entries s refs) ≡ none
    → map (edited id new) (map s.tasks refs) ≡ map s.tasks refs
unfolding lookup
map-edited-none id new s [] e = refl
map-edited-none id new s (x ∷ refs) e =
    ground (arith, eq_iff (s.tasks x).message_id id, map-edited-none id new s refs)

-- An edit of a waiting task is seen through the array: the listed task of that key carries the new
-- text, and all others stay. The call reports whether the key was found.
pub get_queued_tasks-update :
    (id : String) (new : Text) (l : Lane) (s : Shared)
    → IsMirrored l s
    → let u = update_queued_task_message id new l s in
      (get_queued_tasks l u.0 ≡ map (edited id new) (get_queued_tasks l s))
      × (u.1 ≡ is_some (get_queued_task l s id))
unfolding update_queued_task_message get_queued_tasks
get_queued_tasks-update id new l s v = (
  elim (Option-cases (lookup id l.task_index)) [
    | inl gone ↦
        rw (gone, update_queued_task_message)
          (sym (map-edited-none id new s l.queued_tasks (rw v.mirrored at gone)))
    | inr (r, found) ↦
        rw (found, update_queued_task_message)
          (map-edit_at id new r s l.queued_tasks (rw v.mirrored at v.distinct)
            (rw v.mirrored at found))
  ],
  ground arith,
)

-- Once edited and given a replacement closure, the task begins with the new text on its card and
-- runs the replacement.
pub begin-edit-replace :
    (now : ℕ) (e : Entry) (id : String) (new : Text) (task : Closure) (l : Lane) (s : Shared)
    (r : ℕ)
    → truthy (entry_id e) ≡ some id
    → lookup id l.task_index ≡ some r
    → (begin_queued_task now e
        (set_task_replacement id task l)
        (update_queued_task_message id new l s).0).actions
      ≡ update_to_executing id new ∷ run task ∷ []
unfolding begin_queued_task update_queued_task_message set_task_replacement
begin-edit-replace now e id new task l s r keyed found =
    ground (arith, lookup-insert_self id task l.task_replacements)

begin_missing :
    (now : ℕ) (e : Entry) (id : String) (l : Lane) (s : Shared)
    → truthy (entry_id e) ≡ some id
    → lookup id l.task_index ≡ none
    → begin_queued_task now e l s ≡ quiet l s
unfolding begin_queued_task
begin_missing now e id l s keyed gone = rw (keyed, gone, begin_queued_task)

pub lookup-remove :
    (id : String) (l : Lane) (s : Shared)
    → IsMirrored l s
    → lookup id (remove_from_queue id s l).0.task_index ≡ none
unfolding remove_from_queue
lookup-remove id l s v = elim (Option-cases (lookup id l.task_index)) [
  | inl gone ↦ rw (gone, remove_from_queue) gone
  | inr (r, found) ↦ rw (found, remove_from_queue) (lookup-erase_self id l.task_index v.distinct)
]

-- A task that was cancelled, whatever its closure, edit or replacement, begins by doing nothing: it
-- runs no closure, keeps its card, and leaves the lane as the cancellation left it.
pub begin-remove :
    (now : ℕ) (e : Entry) (id : String) (l : Lane) (s : Shared)
    → IsMirrored l s
    → truthy (entry_id e) ≡ some id
    → let l' = (remove_from_queue id s l).0 in begin_queued_task now e l' s ≡ quiet l' s
begin-remove now e id l s v keyed =
    begin_missing now e id (remove_from_queue id s l).0 s keyed (lookup-remove id l s v)
