-- ===== src/Workspaces.antt =====
-- The named directories, src/workspace/index.ts: `WorkspaceStore` with its file. The file is what
-- `JSON.parse` makes of it, with its keys in the order of `Object.entries`, and `now` is what
-- `Date.now()` returns.
use lark_remote.Common.{
  ℕ, ◌+◌, ◌*◌, ◌-◌, ◌==◌, ltb, String, Bool, true, false, ◌&&◌, ◌||◌, not, List, [], ◌∷◌, map,
  Option, none, some, is_some, max, leb, str_eq, if◌then◌else◌,
}
use lark_remote.Common.Dict.{lookup, insert, erase}
use lark_remote.Common.Lines.{points}
pub mod Recent
pub mod KeyOrder
pub mod Kept
mod Tests

pub record WorkspaceEntryData : Type 0 where
  pub path : String
  pub last_used_at : ℕ

-- `lastUsedAt` of a parsed entry.
pub data ParsedTime : Type 0 where
  missing_time invalid_time : ParsedTime
  time : ℕ → ParsedTime

-- A value of the parsed file: the old format, the new one, and all else.
pub data ParsedEntry : Type 0 where
  old_path : String → ParsedEntry
  entry_object : String → ParsedTime → ParsedEntry
  unusable : ParsedEntry

abbrev pub Entries : Type 0
Entries = List (String × WorkspaceEntryData)

pub record WorkspaceStore : Type 0 where
  pub entries : Entries
  pub file : Option (List (String × ParsedEntry))

abbrev pub saved_entry : String × WorkspaceEntryData → String × ParsedEntry
saved_entry (name, e) = (name, entry_object e.path (time e.last_used_at))

-- The keys of an object that are array indices, `0` to `4294967294` without leading zeros.
abbrev read_digits : ℕ → List ℕ → Option ℕ
read_digits n [] = some n
read_digits n (c ∷ s) =
    let further = read_digits (n * 10 + (c - 48)) s in
    if leb 48 c && leb c 57 then further else none

abbrev read_index : List ℕ → Option ℕ
read_index [] = none
read_index (c ∷ []) = read_digits 0 (c ∷ [])
read_index (c ∷ d ∷ s) = if c == 48 then none else read_digits 0 (c ∷ d ∷ s)

abbrev in_range : Option ℕ → Option ℕ
in_range none = none
in_range (some n) = if ltb n 4294967295 then some n else none

unfoldable pub array_index : String → Option ℕ
array_index name = in_range (read_index (points name))

abbrev index_before : Option ℕ → Option ℕ → Bool
index_before none none = true
index_before none (some j) = false
index_before (some i) none = true
index_before (some i) (some j) = ltb i j

-- Whether a key that was written earlier stands before the other key.
unfoldable pub stands_before : String → String → Bool
unfolding array_index
stands_before name other = index_before (array_index name) (array_index other)

abbrev pub place : String → WorkspaceEntryData → Entries → Entries
place name e [] = (name, e) ∷ []
place name e ((other, v) ∷ m) =
    let further = (other, v) ∷ place name e m in
    if stands_before name other then (name, e) ∷ (other, v) ∷ m else further

-- The entries in the order of the keys of an object: array indices ascending, then the other keys as
-- they were written.
abbrev pub in_key_order : Entries → Entries
in_key_order [] = []
in_key_order ((name, e) ∷ m) = place name e (in_key_order m)

-- `obj[k] = v` on an object literal makes a key of every name but `__proto__`, which sets the
-- prototype instead.
abbrev pub own_entries : Entries → Entries
own_entries [] = []
own_entries ((name, e) ∷ m) =
    let others = own_entries m in if str_eq name "__proto__" then others else (name, e) ∷ others

abbrev pub saved_entries : Entries → List (String × ParsedEntry)
saved_entries m = map saved_entry (in_key_order (own_entries m))

unfoldable pub persist_workspace : WorkspaceStore → WorkspaceStore
unfolding stands_before
persist_workspace s = record s { file = some (saved_entries s.entries) }

abbrev entry_at : String → ℕ → WorkspaceEntryData
entry_at path at = record { path = path; last_used_at = at }

-- One key of the file, and whether it has to be written back.
abbrev pub load_parsed : String → ParsedEntry → Entries × Bool → Entries × Bool
load_parsed name (old_path path) (entries, migrated) = (insert name (entry_at path 0) entries, true)
load_parsed name (entry_object path (time at)) (entries, migrated) =
    (insert name (entry_at path at) entries, migrated)
load_parsed name (entry_object path missing_time) (entries, migrated) =
    (insert name (entry_at path 0) entries, true)
load_parsed name (entry_object path invalid_time) (entries, migrated) =
    (insert name (entry_at path 0) entries, true)
load_parsed name unusable (entries, migrated) = (entries, migrated)

abbrev pub load_parsed_entries : List (String × ParsedEntry) → Entries × Bool → Entries × Bool
load_parsed_entries [] loaded = loaded
load_parsed_entries ((name, parsed) ∷ rest) loaded =
    load_parsed_entries rest (load_parsed name parsed loaded)

unfoldable pub load_workspace : Option (List (String × ParsedEntry)) → WorkspaceStore
unfolding insert persist_workspace
load_workspace none = record { entries = []; file = none }
load_workspace (some parsed) =
    let (entries, migrated) = load_parsed_entries parsed ([], false) in
    let store : WorkspaceStore = record { entries = entries; file = some parsed } in
    if migrated then persist_workspace store else store

-- The loop over the other entries: the greatest time, and whether one of them is at `now` or later.
abbrev pub latest : String → ℕ → Entries → ℕ
latest name found [] = found
latest name found ((other, e) ∷ rest) =
    latest name (if str_eq other name then found else max found e.last_used_at) rest

abbrev pub has_peer : String → ℕ → Entries → Bool
has_peer name now [] = false
has_peer name now ((other, e) ∷ rest) =
    (not (str_eq other name) && leb now e.last_used_at) || has_peer name now rest

abbrev pub touched_at : String → ℕ → ℕ → Entries → ℕ
touched_at name now last entries =
    if has_peer name now entries
    then latest name (max now last) entries + 1
    else latest name (max now last) entries

unfoldable pub touch_workspace : String → ℕ → WorkspaceStore → WorkspaceStore
unfolding lookup insert persist_workspace
touch_workspace name now s = elim (lookup name s.entries) [
  | none ↦ s
  | some e ↦ persist_workspace record s {
    entries =
        insert name (record e { last_used_at = touched_at name now e.last_used_at s.entries })
          s.entries;
  }
]

unfoldable pub save_workspace : String → String → ℕ → WorkspaceStore → WorkspaceStore
unfolding insert touch_workspace
save_workspace name path now s =
    touch_workspace name now (record s { entries = insert name (entry_at path 0) s.entries })

unfoldable pub get_workspace : String → WorkspaceStore → Option String
unfolding lookup
get_workspace name s = elim (lookup name s.entries) [ none ↦ none | some e ↦ some e.path ]

unfoldable pub has_workspace : String → WorkspaceStore → Bool
unfolding lookup
has_workspace name s = is_some (lookup name s.entries)

unfoldable pub remove_workspace : String → WorkspaceStore → WorkspaceStore
unfolding erase persist_workspace
remove_workspace name s = persist_workspace record s { entries = erase name s.entries }
