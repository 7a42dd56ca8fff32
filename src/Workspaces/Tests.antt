-- ===== src/Workspaces/Tests.antt =====
-- The named directories on concrete calls.
use lark_remote.Common.{List, [], ◌∷◌, none, ◌≡◌, refl}
use lark_remote.Workspaces.{WorkspaceStore, load_workspace, save_workspace}
use lark_remote.Workspaces.Recent.{IsNewest, save_workspace-IsNewest}
use lark_remote.Workspaces.Kept.{
  WorkspaceCall, saving, touching, removing, do_call, do_calls, IsReadBack, load_workspace-file,
}

abbrev two_dirs : WorkspaceStore
two_dirs = record {
  entries =
      ("api", record { path = "/srv/api"; last_used_at = 9 })
      ∷ ("web", record { path = "/srv/web"; last_used_at = 4 })
      ∷ [];
  file = none;
}

-- The clock stands at 9, where another entry is already.
save_workspace-IsNewest_example :
    IsNewest "web" "/srv/www" 9 two_dirs.entries
      (save_workspace "web" "/srv/www" 9 two_dirs).entries
save_workspace-IsNewest_example = save_workspace-IsNewest "web" "/srv/www" 9 two_dirs

save_later :
    (save_workspace "web" "/srv/www" 9 two_dirs).entries
    ≡ ("api", record { path = "/srv/api"; last_used_at = 9 })
      ∷ ("web", record { path = "/srv/www"; last_used_at = 10 })
      ∷ []
unfolding save_workspace
save_later = refl

abbrev some_calls : List WorkspaceCall
some_calls =
    saving "api" "/srv/api" 5 ∷ saving "web" "/srv/web" 5 ∷ touching "api" 5 ∷ removing "web" ∷ []

load_workspace-file_example :
    IsReadBack
      (do_calls some_calls (load_workspace none))
      (load_workspace (do_calls some_calls (load_workspace none)).file)
load_workspace-file_example = load_workspace-file some_calls (refl, (refl, (tt, (tt, tt))))

-- The store names its directories as they were saved, and the file the array indices first.
indices_first :
    (load_workspace
      (do_calls
        (saving "api" "/a" 5 ∷ saving "10" "/x" 6 ∷ saving "2" "/y" 7 ∷ saving "02" "/z" 8 ∷ [])
        (load_workspace none)).file).entries
    ≡ ("2", record { path = "/y"; last_used_at = 7 })
      ∷ ("10", record { path = "/x"; last_used_at = 6 })
      ∷ ("api", record { path = "/a"; last_used_at = 5 })
      ∷ ("02", record { path = "/z"; last_used_at = 8 })
      ∷ []
unfolding load_workspace do_call
indices_first = refl

-- A directory that is saved under the name `__proto__` is not in the file.
proto_lost :
    (load_workspace (save_workspace "__proto__" "/srv" 5 (load_workspace none)).file).entries ≡ []
unfolding load_workspace save_workspace
proto_lost = refl
