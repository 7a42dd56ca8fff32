-- ===== src/Workspaces/Recent.antt =====
-- A directory that is saved or used becomes the most recent one, src/workspace/index.ts.
use lark_remote.Common.{
  ℕ, ◌≤◌, ◌<◌, String, true, false, [], ◌∷◌, some, max, ◌≡◌, sym, ◌∙◌, arith, str_eq, eq_iff,
  if◌then◌else◌,
}
use lark_remote.Common.Dict.{lookup, insert, lookup-insert_self}
use lark_remote.Workspaces.{
  WorkspaceEntryData, WorkspaceStore, Entries, latest, has_peer, touched_at, touch_workspace,
  save_workspace, persist_workspace,
}

latest-le : (name : String) (found : ℕ) (m : Entries) → found ≤ latest name found m
latest-le name found [] = omega arith
latest-le name found ((other, e) ∷ m) =
    ground (arith, latest-le name (if str_eq other name then found else max found e.last_used_at) m)

module _ (name other : String) (apart : str_eq other name ≡ false) where
  -- No other entry is later than the greatest time.
  latest_of :
      (found : ℕ) (m : Entries) (e : WorkspaceEntryData)
      → lookup other m ≡ some e
      → e.last_used_at ≤ latest name found m
  unfolding lookup
  latest_of found [] e h = cc h
  latest_of found ((k, v) ∷ m) e h =
      let kept = if str_eq k name then found else max found v.last_used_at in
      ground (arith, eq_iff k other, latest-le name kept m, latest_of kept m e)

  -- An entry at `now` or later is seen.
  peer_of :
      (now : ℕ) (m : Entries) (e : WorkspaceEntryData)
      → lookup other m ≡ some e
      → now ≤ e.last_used_at
      → has_peer name now m ≡ true
  unfolding lookup
  peer_of now [] e h l = cc h
  peer_of now ((k, v) ∷ m) e h l = ground (arith, eq_iff k other, peer_of now m e)

  touched-lt :
      (now last : ℕ) (m : Entries) (e : WorkspaceEntryData)
      → lookup other m ≡ some e
      → e.last_used_at < touched_at name now last m
  touched-lt now last m e h =
      ground
        (arith, latest_of (max now last) m e h, latest-le name (max now last) m, peer_of now m e h)

  lookup-insert_ne :
      (v : WorkspaceEntryData) (m : Entries) → lookup other (insert name v m) ≡ lookup other m
  unfolding lookup insert
  lookup-insert_ne v [] = ground (arith, eq_iff name other, eq_iff other name)
  lookup-insert_ne v ((k, w) ∷ m) =
      ground (arith, eq_iff k name, eq_iff k other, eq_iff other name, lookup-insert_ne v m)

-- What a use of a directory leaves of the store: its own entry, with its path, at a time that is
-- later than that of every other entry and neither before `now` nor before its last; the others as
-- they were.
pub record IsNewest (name path : String) (now : ℕ) (before after : Entries) : Type 0 where
  pub at : ℕ
  pub own : lookup name after ≡ some (record { path = path; last_used_at = at })
  pub not_before : now ≤ at
  pub newest :
      (other : String) (e : WorkspaceEntryData)
      → str_eq other name ≡ false
      → lookup other after ≡ some e
      → e.last_used_at < at
  pub others :
      (other : String) → str_eq other name ≡ false → lookup other after ≡ lookup other before

touch_workspace-IsNewest :
    (name : String) (now : ℕ) (s : WorkspaceStore) (e : WorkspaceEntryData)
    → lookup name s.entries ≡ some e
    → IsNewest name e.path now s.entries (touch_workspace name now s).entries
unfolding touch_workspace persist_workspace
touch_workspace-IsNewest name now s e h =
    let at = touched_at name now e.last_used_at s.entries in
    let used = record e { last_used_at = at } in
    rw (h, touch_workspace)
      (record {
        at = at;
        own = lookup-insert_self name used s.entries;
        not_before = ground (arith, latest-le name (max now e.last_used_at) s.entries);
        newest = λ other o n k.
            touched-lt name other n now e.last_used_at s.entries o
              (sym (lookup-insert_ne name other n used s.entries) ∙ k);
        others = λ other n. lookup-insert_ne name other n used s.entries;
      })

-- After a directory was saved, its entry has the path that was saved, at a time that is later than
-- that of every other entry and not before `now`, and the other entries are as they were.
pub save_workspace-IsNewest :
    (name path : String) (now : ℕ) (s : WorkspaceStore)
    → IsNewest name path now s.entries (save_workspace name path now s).entries
unfolding save_workspace
save_workspace-IsNewest name path now s =
    let fresh : WorkspaceEntryData = record { path = path; last_used_at = 0 } in
    let added = record s { entries = insert name fresh s.entries } in
    let i =
      touch_workspace-IsNewest name now added fresh (lookup-insert_self name fresh s.entries) in
    record {
      at = i.at;
      own = i.own;
      not_before = i.not_before;
      newest = i.newest;
      others = λ other n. i.others other n ∙ lookup-insert_ne name other n fresh s.entries;
    }
