-- ===== src/Queue/Runs.antt =====
-- The tasks of a directory run in the order in which they were accepted.
use lark_remote.Common.{
  ℕ, suc, String, Bool, true, false, any, List, [], ◌∷◌, ◌++◌, map, Option, none, some, is_some,
  length, leb, if◌then◌else◌, str_eq, eq_iff, ◌≡◌, refl, sym, ap, ◌∙◌, arith, inl, inr,
  Option-cases, List-cases, Bool-cases,
}
use lark_remote.Common.Dict.{lookup, insert, erase, lookup-insert_self, lookup-erase_ne}
use mathlib.Core.List.{append-nil, append_assoc}
use lark_remote.Queue.Types.{
  Action, send_card, update_to_executing, run, Outcome, TaskMeta, Closure, Entry, Lane, Shared,
  empty_lane, max_waiting_queue, truthy,
}
use lark_remote.Queue.Lanes.{
  decrement_executing_count, reset_executing_count, hold_task_run_start, release_hold,
  await_task_run_start,
}
use lark_remote.Queue.Chain.{
  entry_id, register_queued_task, enqueue, begin_queued_task, begin_next, settle, advance, add_task,
  alloc_task, send_queue_status_card, has_waiting_tasks,
}
use mathlib.Core.Path.{subst}
use lark_remote.Queue.Step.{
  Call, enqueues, begins, settles, removes, edits, resets, replaces, holds, releases, awaits,
  lane_step, Minted,
}

-- The closures that ran, in order.
abbrev pub ran : List Action → List Closure
ran [] = []
ran (send_card chat card reply ∷ rest) = ran rest
ran (update_to_executing id preview ∷ rest) = ran rest
ran (run task ∷ rest) = task ∷ ran rest

abbrev pub task_of : Entry → Closure
task_of e = e.task

-- The task that a call hands in: a message is refused while 50 wait.
abbrev pub accepted : Call → Lane → List Closure
accepted (enqueues now task none) l = task ∷ []
accepted (enqueues now task (some meta)) l =
    if leb max_waiting_queue (length l.queued_tasks) then [] else task ∷ []
accepted c l = []

abbrev Index : Type 0
Index = List (String × ℕ)

-- Whether the task of a link is in the index, and whether no link behind it has its key.
abbrev is_found : Option String → Index → Bool
is_found none index = true
is_found (some id) index = is_some (lookup id index)

abbrev is_key : Option String → Option String → Bool
is_key none other = false
is_key (some id) none = false
is_key (some id) (some k) = str_eq k id

abbrev key_of : Entry → Option String
key_of e = truthy (entry_id e)

-- Every link that waits will find its task.
abbrev IsFound : List Entry → Index → Type 0
IsFound [] index = Unit
IsFound (e ∷ es) index =
    (is_found (key_of e) index ≡ true)
    × (any (λ f. is_key (key_of e) (key_of f)) es ≡ false)
    × IsFound es index

abbrev IsReady : Lane → Type 0
IsReady l = (l.task_replacements ≡ []) × IsFound l.chain l.task_index

found-insert :
    (k id : String) (r : ℕ) (m : Index)
    → is_some (lookup k m) ≡ true
    → is_some (lookup k (insert id r m)) ≡ true
unfolding lookup insert
found-insert k id r [] h = ground (arith, h)
found-insert k id r ((j, v) ∷ m) h =
    ground (arith, h, eq_iff j id, eq_iff j k, eq_iff id k, found-insert k id r m)

-- A new link with a new key.
is_found-insert :
    (o : Option String) (id : String) (r : ℕ) (m : Index)
    → is_found o m ≡ true
    → is_found o (insert id r m) ≡ true
is_found-insert none id r m h = refl
is_found-insert (some k) id r m h = found-insert k id r m h

found-fresh : (id : String) (r : ℕ) (m : Index) → is_found (truthy (some id)) (insert id r m) ≡ true
found-fresh id r m = ground (arith, lookup-insert_self id r m)

-- What is found has not the key of what is not found.
apart-fresh :
    (o : Option String) (id : String) (m : Index)
    → is_found o m ≡ true
    → lookup id m ≡ none
    → is_key o (truthy (some id)) ≡ false
apart-fresh none id m h n = refl
apart-fresh (some k) id m h n = ground (arith, h, n, eq_iff id k)

any-concat :
    (p : Entry → Bool) (es : List Entry) (e : Entry)
    → any p es ≡ false
    → p e ≡ false
    → any p (es ++ e ∷ []) ≡ false
any-concat p [] e h k = ground (arith, k)
any-concat p (f ∷ es) e h k = ground (arith, h, k, any-concat p es e)

-- A new link with a new key.
IsFound-append :
    (e : Entry) (id : String) (r : ℕ) (es : List Entry) (m : Index)
    → entry_id e ≡ some id
    → lookup id m ≡ none
    → IsFound es m
    → IsFound (es ++ e ∷ []) (insert id r m)
IsFound-append e id r [] m k n h =
    (ap (λ o. is_found (truthy o) (insert id r m)) k ∙ found-fresh id r m, refl, tt)
IsFound-append e id r (f ∷ es) m k n h = (
  is_found-insert (key_of f) id r m h.0,
  any-concat (λ g. is_key (key_of f) (key_of g)) es e h.1
      (ap (λ o. is_key (key_of f) (truthy o)) k ∙ apart-fresh (key_of f) id m h.0 n),
  IsFound-append e id r es m k n h.2,
)

-- A new link without a key.
IsFound-plain :
    (e : Entry) (es : List Entry) (m : Index)
    → key_of e ≡ none
    → IsFound es m
    → IsFound (es ++ e ∷ []) m
IsFound-plain e [] m k h = (ap (λ o. is_found o m) k, refl, tt)
IsFound-plain e (f ∷ es) m k h = (
  h.0,
  any-concat (λ g. is_key (key_of f) (key_of g)) es e h.1
      (ap (is_key (key_of f)) k ∙ no_key (key_of f)),
  IsFound-plain e es m k h.2,
)
  where
    no_key : (o : Option String) → is_key o none ≡ false
    no_key none = refl
    no_key (some id) = refl

is_found-erase :
    (o : Option String) (id : String) (m : Index)
    → is_key (some id) o ≡ false
    → is_found o m ≡ true
    → is_found o (erase id m) ≡ true
is_found-erase none id m a h = refl
is_found-erase (some k) id m a h =
    ground (arith, a, h, eq_iff id k, eq_iff k id, lookup-erase_ne id k m)

-- The begun link leaves the others theirs.
IsFound-erase :
    (id : String) (es : List Entry) (m : Index)
    → any (λ f. is_key (some id) (key_of f)) es ≡ false
    → IsFound es m
    → IsFound es (erase id m)
IsFound-erase id [] m a h = tt
IsFound-erase id (f ∷ es) m a h = (
  is_found-erase (key_of f) id m (ground (arith, a)) h.0,
  h.1,
  IsFound-erase id es m (ground (arith, a)) h.2,
)

-- A begun link runs its own task, and its key leaves the index.
begin-plain :
    (now : ℕ) (e : Entry) (l : Lane) (s : Shared)
    → key_of e ≡ none
    → let o = begin_queued_task now e l s in
      (ran o.actions ≡ e.task ∷ [])
      × (o.lane.chain ≡ l.chain)
      × (o.lane.task_index ≡ l.task_index)
      × (o.lane.task_replacements ≡ l.task_replacements)
unfolding begin_queued_task
begin-plain now e l s k = (
  rw (k, begin_queued_task) refl,
  rw (k, begin_queued_task) refl,
  rw (k, begin_queued_task) refl,
  rw (k, begin_queued_task) refl,
)

begin-keyed :
    (now : ℕ) (e : Entry) (l : Lane) (s : Shared) (id : String) (r : ℕ)
    → key_of e ≡ some id
    → lookup id l.task_index ≡ some r
    → l.task_replacements ≡ []
    → let o = begin_queued_task now e l s in
      (ran o.actions ≡ e.task ∷ [])
      × (o.lane.chain ≡ l.chain)
      × (o.lane.task_index ≡ erase id l.task_index)
      × (o.lane.task_replacements ≡ [])
unfolding begin_queued_task lookup
begin-keyed now e l s id r k f p = (ground arith, ground arith, ground arith, ground arith)

recast-IsReady :
    (l l' : Lane)
    → l'.chain ≡ l.chain
    → l'.task_index ≡ l.task_index
    → l'.task_replacements ≡ l.task_replacements
    → IsReady l
    → IsReady l'
recast-IsReady l l' c t p i = rw (c, t, p) i

-- Calls that neither cancel nor replace a task.
abbrev pub is_plain : Call → Bool
is_plain (removes id) = false
is_plain (replaces id task) = false
is_plain (enqueues now task meta) = true
is_plain (begins now) = true
is_plain settles = true
is_plain (edits id new) = true
is_plain (resets slot) = true
is_plain (holds id) = true
is_plain (releases id hold) = true
is_plain awaits = true

-- What ran and what waits is, in order, what waited and what is accepted; and all is ready again.
abbrev IsServed : List Action → Lane → Lane → List Closure → Type 0
IsServed actions before after tasks =
    (ran actions ++ map task_of after.chain ≡ map task_of before.chain ++ tasks) × IsReady after

-- A call that leaves the chain, the index and the replacements.
quiet-IsServed :
    (l l' : Lane)
    → l'.chain ≡ l.chain
    → l'.task_index ≡ l.task_index
    → l'.task_replacements ≡ l.task_replacements
    → IsReady l
    → IsServed [] l l' []
quiet-IsServed l l' c t p i =
    (ap (map task_of) c ∙ sym (append-nil (map task_of l.chain)), recast-IsReady l l' c t p i)

map-concat :
    (es : List Entry) (e : Entry) → map task_of (es ++ e ∷ []) ≡ map task_of es ++ e.task ∷ []
map-concat [] e = refl
map-concat (f ∷ es) e = ap (◌∷◌ f.task) (map-concat es e)

-- The head of an idle chain begins.
head-IsServed :
    (now : ℕ) (e : Entry) (rest : List Entry) (l : Lane) (s : Shared)
    → l.chain ≡ e ∷ rest
    → IsReady l
    → let o = begin_queued_task now e (advance e rest l) s in IsServed o.actions l o.lane []
head-IsServed now e rest l s c i =
    let index = l.task_index in
    let found = subst (λ es. IsFound es index) c i.1 in
    let o = begin_queued_task now e (advance e rest l) s in
    elim (Option-cases (key_of e)) [
      | inl k ↦
          let b = begin-plain now e (advance e rest l) s k in
          (
            served o.actions o.lane b.0 b.1,
            recast-IsReady (advance e rest l) o.lane b.1 b.2 b.3 (i.0, found.2),
          )
      | inr (id, k) ↦ elim (Option-cases (lookup id index)) [
        | inl n ↦ absurd (ground (arith, n, ap (λ x. is_found x index) (sym k) ∙ found.0))
        | inr (r, f) ↦
            let b = begin-keyed now e (advance e rest l) s id r k f i.0 in
            let apart = ap (λ x. any (λ g. is_key x (key_of g)) rest) (sym k) ∙ found.1 in
            (
              served o.actions o.lane b.0 b.1,
              recast-IsReady (record (advance e rest l) { task_index = erase id index }) o.lane b.1
                  b.2 (b.3 ∙ sym i.0) (i.0, IsFound-erase id rest index apart found.2),
            )
      ]
    ]
  where
    served :
        (actions : List Action) (after : Lane)
        → ran actions ≡ e.task ∷ []
        → after.chain ≡ rest
        → ran actions ++ map task_of after.chain ≡ map task_of l.chain ++ []
    served actions after a b =
        ap (λ x. x ++ map task_of after.chain) a
        ∙ ap (λ es. e.task ∷ map task_of es) b
        ∙ sym (ap (map task_of) c)
        ∙ sym (append-nil (map task_of l.chain))

begin_next-IsServed :
    (now : ℕ) (l : Lane) (s : Shared)
    → IsReady l
    → IsServed (begin_next now l s).actions l (begin_next now l s).lane []
unfolding begin_next
begin_next-IsServed now l s i = elim (Option-cases l.active) [
  | inr (slot, a) ↦ rw (a, begin_next) (quiet-IsServed l l refl refl refl i)
  | inl idle ↦ elim (List-cases l.chain) [
    | inl n ↦
        let same : begin_next now l s ≡ record { lane = l; shared = s; actions = [] } =
          ground (arith, idle, n) in
        subst (λ (o : Outcome). IsServed o.actions l o.lane []) (sym same)
          (quiet-IsServed l l refl refl refl i)
    | inr (e, rest, c) ↦
        let same : begin_next now l s ≡ begin_queued_task now e (advance e rest l) s =
          ground (arith, idle, c) in
        subst (λ (o : Outcome). IsServed o.actions l o.lane []) (sym same)
          (head-IsServed now e rest l s c i)
  ]
]

no_run :
    (b : Bool) (x y : Shared × List Action)
    → ran x.1 ≡ []
    → ran y.1 ≡ []
    → ran (if b then x else y).1 ≡ []
no_run true x y h k = h
no_run false x y h k = k

-- An accepted message, and one that is refused.
enqueue-IsServed :
    (now : ℕ) (cwd : String) (task : Closure) (meta : TaskMeta) (l : Lane) (s : Shared)
    → lookup meta.message_id l.task_index ≡ none
    → IsReady l
    → let o = enqueue now cwd task (some meta) l s in
      IsServed o.actions l o.lane (accepted (enqueues now task (some meta)) l)
unfolding enqueue register_queued_task add_task send_queue_status_card
enqueue-IsServed now cwd task meta l s n i =
    elim (Bool-cases (leb max_waiting_queue (length l.queued_tasks))) [
      | inl full ↦ rw full (quiet-IsServed l l refl refl refl i)
      | inr free ↦
          let e : Entry = record {
            slot_id = suc s.slot_counter;
            task = task;
            task_meta = some meta;
          } in
          let s' = alloc_task now cwd meta (record s { slot_counter = suc s.slot_counter }) in
          let sent =
            no_run (has_waiting_tasks l)
              (send_queue_status_card cwd meta (add_task s.next_task cwd meta l) s') (s', []) refl
              refl in
          rw free (
            ap (λ x. x ++ map task_of (l.chain ++ e ∷ [])) sent ∙ map-concat l.chain e,
            (i.0, IsFound-append e meta.message_id s.next_task l.chain l.task_index refl n i.1),
          )
    ]

-- A call that neither cancels nor replaces a task.
step-IsServed :
    (cwd : String) (c : Call) (l : Lane) (s : Shared)
    → is_plain c ≡ true
    → Minted c l
    → IsReady l
    → IsServed (lane_step cwd c l s).actions l (lane_step cwd c l s).lane (accepted c l)
unfolding lane_step
step-IsServed cwd (enqueues now task none) l s p m i =
    unfold enqueue in
    let e : Entry = record { slot_id = suc s.slot_counter; task = task; task_meta = none } in
    (map-concat l.chain e, (i.0, IsFound-plain e l.chain l.task_index refl i.1))
step-IsServed cwd (enqueues now task (some meta)) l s p m i =
    enqueue-IsServed now cwd task meta l s m i
step-IsServed cwd (begins now) l s p m i = begin_next-IsServed now l s i
step-IsServed cwd settles l s p m i =
    unfold settle decrement_executing_count in
    quiet-IsServed l (settle l) (ground arith) (ground arith) (ground arith) i
step-IsServed cwd (removes id) l s p m i = absurd (ground (arith, p))
step-IsServed cwd (replaces id task) l s p m i = absurd (ground (arith, p))
step-IsServed cwd (edits id new) l s p m i = quiet-IsServed l l refl refl refl i
step-IsServed cwd (resets slot) l s p m i =
    unfold reset_executing_count in
    quiet-IsServed l (reset_executing_count slot l) (ground arith) (ground arith) (ground arith) i
step-IsServed cwd (holds id) l s p m i =
    unfold hold_task_run_start in quiet-IsServed l (hold_task_run_start id l s).0 refl refl refl i
step-IsServed cwd (releases id hold) l s p m i =
    unfold release_hold in
    quiet-IsServed l (release_hold id hold l s).0 (ground arith) (ground arith) (ground arith) i
step-IsServed cwd awaits l s p m i =
    unfold await_task_run_start in
    quiet-IsServed l (await_task_run_start l).0 (ground arith) (ground arith) (ground arith) i

-- A history of one directory, with the calls of the others seen as changes of the shared state.
abbrev pub lane_after : String → List (Call × Shared) → Lane → Lane
lane_after cwd [] l = l
lane_after cwd ((c, s) ∷ cs) l = lane_after cwd cs (lane_step cwd c l s).lane

abbrev pub all_actions : String → List (Call × Shared) → Lane → List Action
all_actions cwd [] l = []
all_actions cwd ((c, s) ∷ cs) l =
    (lane_step cwd c l s).actions ++ all_actions cwd cs (lane_step cwd c l s).lane

abbrev pub all_accepted : String → List (Call × Shared) → Lane → List Closure
all_accepted cwd [] l = []
all_accepted cwd ((c, s) ∷ cs) l = accepted c l ++ all_accepted cwd cs (lane_step cwd c l s).lane

-- Every queue key is new when it comes, and nothing is cancelled or replaced.
abbrev pub IsMinted : String → List (Call × Shared) → Lane → Type 0
IsMinted cwd [] l = Unit
IsMinted cwd ((c, s) ∷ cs) l =
    (is_plain c ≡ true) × Minted c l × IsMinted cwd cs (lane_step cwd c l s).lane

ran-append : (xs ys : List Action) → ran (xs ++ ys) ≡ ran xs ++ ran ys
ran-append [] ys = refl
ran-append (send_card chat card reply ∷ xs) ys = ran-append xs ys
ran-append (update_to_executing id preview ∷ xs) ys = ran-append xs ys
ran-append (run task ∷ xs) ys = ap (◌∷◌ task) (ran-append xs ys)

runs-from :
    (cwd : String) (cs : List (Call × Shared)) (l : Lane)
    → IsMinted cwd cs l
    → IsReady l
    → ran (all_actions cwd cs l) ++ map task_of (lane_after cwd cs l).chain
      ≡ map task_of l.chain ++ all_accepted cwd cs l
runs-from cwd [] l m i = sym (append-nil (map task_of l.chain))
runs-from cwd ((c, s) ∷ cs) l m i =
    let actions = (lane_step cwd c l s).actions in
    let l' = (lane_step cwd c l s).lane in
    let (served, ready) = step-IsServed cwd c l s m.0 m.1 i in
    let waits = map task_of (lane_after cwd cs l').chain in
    ap (λ x. x ++ waits) (ran-append actions (all_actions cwd cs l'))
    ∙ append_assoc (ran actions) (ran (all_actions cwd cs l')) waits
    ∙ ap (λ x. ran actions ++ x) (runs-from cwd cs l' m.2 ready)
    ∙ sym (append_assoc (ran actions) (map task_of l'.chain) (all_accepted cwd cs l'))
    ∙ ap (λ x. x ++ all_accepted cwd cs l') served
    ∙ append_assoc (map task_of l.chain) (accepted c l) (all_accepted cwd cs l')

-- In a new directory, if every queue key is new and no task is cancelled or replaced, whatever else
-- is called and whatever the other directories do meanwhile: the closures that ran, with those of
-- the links that still wait behind them, are those that were handed in, each once and in that order,
-- but for the messages that came while 50 waited.
pub runs-accepted :
    (cwd : String) (cs : List (Call × Shared))
    → IsMinted cwd cs empty_lane
    → ran (all_actions cwd cs empty_lane) ++ map task_of (lane_after cwd cs empty_lane).chain
      ≡ all_accepted cwd cs empty_lane
runs-accepted cwd cs m = runs-from cwd cs empty_lane m (refl, tt)
