-- ===== src/Workspaces/Kept.antt =====
-- The file of src/workspace/index.ts is read back with the entries of the store.
use lark_remote.Common.{
  All, filter, true, Bool-cases, ℕ, String, false, List, [], ◌∷◌, ◌++◌, map, none, some, ◌≡◌, refl,
  ap, ◌∙◌, arith, str_eq, eq_iff, Option-cases, inl, inr, ◌⊎◌,
}
use lark_remote.Common.Dict.{
  lookup, insert, erase, insert_fresh, lookup-insert_self, Distinct, Distinct-erase,
  lookup-erase-none,
}
use mathlib.Core.List.{append-nil, append_assoc}
use lark_remote.Workspaces.KeyOrder.{
  is_word, lookup-in_key_order, Distinct-in_key_order, words-in_key_order, in_key_order-words,
}
use lark_remote.Workspaces.{
  WorkspaceEntryData, WorkspaceStore, Entries, saved_entry, saved_entries, load_parsed_entries,
  load_workspace, persist_workspace, in_key_order, own_entries, touched_at, touch_workspace,
  save_workspace, remove_workspace,
}

-- Any calls on a store, each at the time of its call.
pub data WorkspaceCall : Type 0 where
  saving : String → String → ℕ → WorkspaceCall
  touching : String → ℕ → WorkspaceCall
  removing : String → WorkspaceCall

unfoldable pub do_call : WorkspaceCall → WorkspaceStore → WorkspaceStore
unfolding save_workspace touch_workspace remove_workspace
do_call (saving name path now) s = save_workspace name path now s
do_call (touching name now) s = touch_workspace name now s
do_call (removing name) s = remove_workspace name s

abbrev pub do_calls : List WorkspaceCall → WorkspaceStore → WorkspaceStore
do_calls [] s = s
do_calls (c ∷ cs) s = do_calls cs (do_call c s)

lookup-insert-none :
    (k name : String) (v : WorkspaceEntryData) (m : Entries)
    → str_eq name k ≡ false
    → lookup k m ≡ none
    → lookup k (insert name v m) ≡ none
unfolding lookup insert
lookup-insert-none k name v [] n h = ground (arith, n)
lookup-insert-none k name v ((j, w) ∷ m) n h =
    ground (arith, n, h, eq_iff j name, eq_iff j k, lookup-insert-none k name v m n)

Distinct-insert :
    (name : String) (v : WorkspaceEntryData) (m : Entries) → Distinct m → Distinct (insert name v m)
unfolding insert lookup
Distinct-insert name v [] d = (refl, tt)
Distinct-insert name v ((k, w) ∷ m) d = ground (
  arith,
  d.0,
  eq_iff k name,
  eq_iff name k,
  Distinct-insert name v m d.1,
  lookup-insert-none k name v m,
)

apart_of :
    (k name : String) (e : WorkspaceEntryData) (xs m : Entries)
    → lookup k (xs ++ (name, e) ∷ m) ≡ none
    → str_eq name k ≡ false
unfolding lookup
apart_of k name e [] m h = ground (arith, h)
apart_of k name e ((j, w) ∷ xs) m h = ground (arith, h, apart_of k name e xs m)

fresh_in :
    (name : String) (e : WorkspaceEntryData) (before m : Entries)
    → Distinct (before ++ (name, e) ∷ m)
    → lookup name before ≡ none
unfolding lookup
fresh_in name e [] m d = refl
fresh_in name e ((k, v) ∷ before) m d = ground (
  arith,
  apart_of k name e before m d.0,
  fresh_in name e before m d.1,
  eq_iff k name,
  eq_iff name k,
)

-- Entries with distinct names that are read one after the other join those read before.
load_saved :
    (m before : Entries)
    → Distinct (before ++ m)
    → load_parsed_entries (map saved_entry m) (before, false) ≡ (before ++ m, false)
load_saved [] before d = rw (append-nil before)
load_saved ((name, e) ∷ m) before d =
    let regrouped = append_assoc before ((name, e) ∷ []) m in
    ap (λ (b : Entries). load_parsed_entries (map saved_entry m) (b, false))
      (insert_fresh name e before (fresh_in name e before m d))
    ∙ (rw regrouped at (load_saved m (before ++ (name, e) ∷ []) (rw regrouped d)))

own_all : (m : Entries) → lookup "__proto__" m ≡ none → own_entries m ≡ m
unfolding lookup
own_all [] h = refl
own_all ((name, e) ∷ m) h = ground (arith, h, own_all m)

saved_all :
    (m : Entries) → lookup "__proto__" m ≡ none → saved_entries m ≡ map saved_entry (in_key_order m)
saved_all m h = ap (λ (es : Entries). map saved_entry (in_key_order es)) (own_all m h)

-- Every name stands once, none is `__proto__`, and the file holds the entries, or there is none yet.
record IsKept (s : WorkspaceStore) : Type 0 where
  distinct : Distinct s.entries
  usable : lookup "__proto__" s.entries ≡ none
  filed :
      (s.file ≡ some (map saved_entry (in_key_order s.entries)))
      ⊎ ((s.entries ≡ []) × (s.file ≡ none))

persist_workspace-IsKept :
    (s : WorkspaceStore)
    → Distinct s.entries
    → lookup "__proto__" s.entries ≡ none
    → IsKept (persist_workspace s)
unfolding persist_workspace
persist_workspace-IsKept s d u = record {
  distinct = d;
  usable = u;
  filed = inl (ap (λ f. some f) (saved_all s.entries u));
}

-- A name that is there is not one that is not there.
apart_from :
    (name other : String) (v : WorkspaceEntryData) (m : Entries)
    → lookup name m ≡ some v
    → lookup other m ≡ none
    → str_eq name other ≡ false
apart_from name other v m e u = elim (Bool-cases (str_eq name other)) [
  | inl same ↦ cc (ap (λ k. lookup k m) ((eq_iff name other).0 same), e, u)
  | inr apart ↦ apart
]

-- A use of a directory that is there, whatever the file held.
touch_present :
    (name : String) (now : ℕ) (s : WorkspaceStore) (v : WorkspaceEntryData)
    → Distinct s.entries
    → lookup "__proto__" s.entries ≡ none
    → lookup name s.entries ≡ some v
    → IsKept (touch_workspace name now s)
unfolding touch_workspace
touch_present name now s v d u e =
    let used = record v { last_used_at = touched_at name now v.last_used_at s.entries } in
    rw (e, touch_workspace)
      (persist_workspace-IsKept (record s { entries = insert name used s.entries })
        (Distinct-insert name used s.entries d)
        (lookup-insert-none "__proto__" name used s.entries
          (apart_from name "__proto__" v s.entries e u) u))

-- A save under a name that an object literal can hold.
abbrev pub IsNamed : WorkspaceCall → Type 0
IsNamed (saving name path now) = str_eq name "__proto__" ≡ false
IsNamed (touching name now) = Unit
IsNamed (removing name) = Unit

do_call-IsKept :
    (c : WorkspaceCall) (s : WorkspaceStore) → IsNamed c → IsKept s → IsKept (do_call c s)
unfolding do_call
do_call-IsKept (saving name path now) s n i =
    let fresh : WorkspaceEntryData = record { path = path; last_used_at = 0 } in
    touch_present name now (record s { entries = insert name fresh s.entries }) fresh
      (Distinct-insert name fresh s.entries i.distinct)
      (lookup-insert-none "__proto__" name fresh s.entries n i.usable)
      (lookup-insert_self name fresh s.entries)
do_call-IsKept (touching name now) s n i = elim (Option-cases (lookup name s.entries)) [
  | inl e ↦ rw (e, touch_workspace) i
  | inr (v, e) ↦ touch_present name now s v i.distinct i.usable e
]
do_call-IsKept (removing name) s n i =
    persist_workspace-IsKept (record s { entries = erase name s.entries })
      (Distinct-erase name s.entries i.distinct)
      (lookup-erase-none "__proto__" name s.entries i.usable)

do_calls-IsKept :
    (cs : List WorkspaceCall) (s : WorkspaceStore)
    → All IsNamed cs
    → IsKept s
    → IsKept (do_calls cs s)
do_calls-IsKept [] s n i = i
do_calls-IsKept (c ∷ cs) s n i = do_calls-IsKept cs (do_call c s) n.1 (do_call-IsKept c s n.0 i)

-- The same names with the same paths and times, the file with them, and the names that are no array
-- indices in the same order; all in the same order if there are no others.
pub record IsReadBack (s t : WorkspaceStore) : Type 0 where
  pub same_entries : (name : String) → lookup name t.entries ≡ lookup name s.entries
  pub same_order : filter is_word t.entries ≡ filter is_word s.entries
  pub equal : All (λ e. is_word e ≡ true) s.entries → t ≡ s
  pub same_file : t.file ≡ s.file

read_back : (s : WorkspaceStore) → IsKept s → IsReadBack s (load_workspace s.file)
unfolding load_workspace
read_back s i = elim i.filed [
  | inl e ↦
      let m = in_key_order s.entries in
      let loaded = load_saved m [] (Distinct-in_key_order s.entries i.distinct) in
      rw (e, load_workspace)
        (rw loaded (record {
          same_entries = λ name. lookup-in_key_order name s.entries i.distinct;
          same_order = words-in_key_order s.entries;
          equal = λ w. rw (in_key_order-words s.entries w) refl;
          same_file = refl;
        }))
  | inr (n, e) ↦
      rw (e, load_workspace)
        (record {
          same_entries = λ name. rw n refl;
          same_order = rw n refl;
          equal = λ w. ground (arith, n, e);
          same_file = refl;
        })
]

-- Whatever is saved, used and removed in a store that had no file, if nothing is saved under the name
-- `__proto__`: the file is read back with the same names, each with its path and time, and those
-- names that are no array indices in the same order. If no name is an array index, it is read back
-- as the store. Reading it does not change it.
pub load_workspace-file :
    (cs : List WorkspaceCall)
    → All IsNamed cs
    → let s = do_calls cs (load_workspace none) in IsReadBack s (load_workspace s.file)
unfolding load_workspace lookup
load_workspace-file cs n = read_back _ (
    do_calls-IsKept cs (load_workspace none) n
      (record { distinct = tt; usable = refl; filed = inr (refl, refl) }))
