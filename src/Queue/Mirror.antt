-- ===== src/Queue/Mirror.antt =====
-- The array of waiting tasks and the index by queue key.
use lark_remote.Common.{
  ℕ, ◌≤◌, ◌<◌, String, List, [], ◌∷◌, ◌++◌, map, none, ◌≡◌, inl, inr, refl, sym, ap, ◌∙◌, arith,
  Bool-cases, All, All-append, length, length-append, remove_first, length-remove_first-le,
  All-remove_first, leb,
}
use lark_remote.Common.Dict.{lookup, erase, insert_fresh, Distinct, Distinct-erase, Distinct-concat}
use lark_remote.Queue.Types.{TaskMeta, Lane, Shared, max_waiting_queue}
use lark_remote.Queue.Chain.{
  add_task, alloc_task, send_queue_status_card, register_queued_task, has_waiting_tasks,
}
use lark_remote.Queue.Lanes.{has_id}

-- What the index must hold for the array `refs`.
abbrev pub entries : Shared → List ℕ → List (String × ℕ)
entries s refs = map (λ r. ((s.tasks r).message_id, r)) refs

pub record IsMirrored (l : Lane) (s : Shared) : Type 0 where
  pub mirrored : l.task_index ≡ entries s l.queued_tasks
  pub distinct : Distinct l.task_index
  pub allocated : All (λ r. r < s.next_task) l.queued_tasks
  pub bounded : length l.queued_tasks ≤ max_waiting_queue

-- The store changed, and the keys of the allocated tasks did not.
pub record Keeps (s t : Shared) : Type 0 where
  pub grows : s.next_task ≤ t.next_task
  pub same_ids : (r : ℕ) → r < s.next_task → (t.tasks r).message_id ≡ (s.tasks r).message_id

entries-Keeps :
    {s t : Shared} (refs : List ℕ)
    → Keeps s t
    → All (λ r. r < s.next_task) refs
    → entries t refs ≡ entries s refs
entries-Keeps [] k h = refl
entries-Keeps {s} {t} (r ∷ refs) k h =
    ground (arith, k.same_ids r h.0, entries-Keeps {s = s} {t = t} refs k h.1)

All-lt : {m n : ℕ} (refs : List ℕ) → m ≤ n → All (λ r. r < m) refs → All (λ r. r < n) refs
All-lt [] h a = tt
All-lt (r ∷ refs) h a = (omega arith, All-lt refs h a.1)

pub IsMirrored-Keeps : {l : Lane} {s t : Shared} → Keeps s t → IsMirrored l s → IsMirrored l t
IsMirrored-Keeps {l} k v = record {
  mirrored = v.mirrored ∙ sym (entries-Keeps l.queued_tasks k v.allocated);
  distinct = v.distinct;
  allocated = All-lt l.queued_tasks k.grows v.allocated;
  bounded = v.bounded;
}

-- Removal by key takes the same entry from both.
erase-entries :
    (s : Shared) (id : String) (refs : List ℕ)
    → erase id (entries s refs) ≡ entries s (remove_first (has_id s id) refs)
unfolding erase
erase-entries s id [] = refl
erase-entries s id (r ∷ refs) = ground (arith, erase-entries s id refs)

-- A lane whose task was taken out of both.
pub remove-IsMirrored :
    (id : String) (l l' : Lane) (s : Shared)
    → IsMirrored l s
    → l'.queued_tasks ≡ remove_first (has_id s id) l.queued_tasks
    → l'.task_index ≡ erase id l.task_index
    → IsMirrored l' s
remove-IsMirrored id l l' s v e f = record {
  mirrored = rw (f, e) (ap (erase id) v.mirrored ∙ erase-entries s id l.queued_tasks);
  distinct = rw f (Distinct-erase id l.task_index v.distinct);
  allocated =
      rw e (All-remove_first (λ r. r < s.next_task) (has_id s id) l.queued_tasks v.allocated);
  bounded = rw e (omega (arith, length-remove_first-le (has_id s id) l.queued_tasks, v.bounded));
}

-- A lane whose array and index are as before.
pub same-IsMirrored :
    (l l' : Lane) (s : Shared)
    → IsMirrored l s
    → l'.queued_tasks ≡ l.queued_tasks
    → l'.task_index ≡ l.task_index
    → IsMirrored l' s
same-IsMirrored l l' s v e f = record {
  mirrored = rw (f, e) v.mirrored;
  distinct = rw f v.distinct;
  allocated = rw e v.allocated;
  bounded = rw e v.bounded;
}

pub alloc-Keeps :
    (now : ℕ) (cwd : String) (meta : TaskMeta) (s : Shared) → Keeps s (alloc_task now cwd meta s)
unfolding alloc_task
alloc-Keeps now cwd meta s = record { grows = omega arith; same_ids = λ r h. ground arith }

entries-concat :
    (s : Shared) (refs : List ℕ) (r : ℕ)
    → entries s (refs ++ r ∷ []) ≡ entries s refs ++ ((s.tasks r).message_id, r) ∷ []
entries-concat s [] r = refl
entries-concat s (x ∷ refs) r = ap (◌∷◌ ((s.tasks x).message_id, x)) (entries-concat s refs r)

alloc_new :
    (now : ℕ) (cwd : String) (meta : TaskMeta) (s : Shared)
    → (((alloc_task now cwd meta s).tasks s.next_task).message_id ≡ meta.message_id)
      × (s.next_task < (alloc_task now cwd meta s).next_task)
unfolding alloc_task
alloc_new now cwd meta s = (ground arith, omega arith)

-- A fresh task goes to the end of both.
add-IsMirrored :
    (now : ℕ) (cwd : String) (meta : TaskMeta) (l : Lane) (s : Shared)
    → IsMirrored l s
    → lookup meta.message_id l.task_index ≡ none
    → length l.queued_tasks < max_waiting_queue
    → IsMirrored (add_task s.next_task cwd meta l) (alloc_task now cwd meta s)
unfolding add_task
add-IsMirrored now cwd meta l s v fresh room =
    let w = IsMirrored-Keeps (alloc-Keeps now cwd meta s) v in
    record {
      mirrored =
          rw
            (
              insert_fresh meta.message_id s.next_task l.task_index fresh,
              entries-concat t l.queued_tasks s.next_task,
            )
            (ground (arith, w.mirrored, alloc_new now cwd meta s));
      distinct =
          rw (insert_fresh meta.message_id s.next_task l.task_index fresh)
            (Distinct-concat meta.message_id s.next_task l.task_index v.distinct fresh);
      allocated =
          All-append (λ r. r < t.next_task) l.queued_tasks (s.next_task ∷ []) w.allocated
            ((alloc_new now cwd meta s).1, tt);
      bounded = omega (arith, length-append l.queued_tasks (s.next_task ∷ []));
    }
  where
    t : Shared
    t = alloc_task now cwd meta s

-- A card send changes neither.
pub send-Keeps :
    (cwd : String) (meta : TaskMeta) (l : Lane) (s : Shared)
    → Keeps s (send_queue_status_card cwd meta l s).0
unfolding send_queue_status_card
send-Keeps cwd meta l s = record { grows = omega arith; same_ids = λ r h. refl }

pub register-IsMirrored :
    (now : ℕ) (cwd : String) (meta : TaskMeta) (l : Lane) (s : Shared)
    → IsMirrored l s
    → lookup meta.message_id l.task_index ≡ none
    → let r = register_queued_task now cwd meta l s in IsMirrored r.0 r.1
unfolding register_queued_task
register-IsMirrored now cwd meta l s v fresh =
    elim (Bool-cases (leb max_waiting_queue (length l.queued_tasks))) [
      | inl full ↦ rw full v
      | inr room ↦
          let w = add-IsMirrored now cwd meta l s v fresh (ground arith) in
          elim (Bool-cases (has_waiting_tasks l)) [
            | inl waits ↦
                rw (room, waits)
                  (IsMirrored-Keeps
                    (send-Keeps cwd meta (add_task s.next_task cwd meta l)
                      (alloc_task now cwd meta s))
                    w)
            | inr idle ↦ rw (room, idle) w
          ]
    ]
