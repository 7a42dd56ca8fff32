-- ===== src/Inflight.antt =====
-- The record of prompts that may outlive the program, src/runner/dsh/inflight.ts: `DshInflightStore`
-- and `reconcileInflightDshRuns`. The file is what `JSON.parse` makes of it, `now` is what `Date.now()`
-- returns, and whether a write succeeds is an argument.
use lark_remote.Common.{
  ℕ, ◌+◌, ◌-◌, String, Bool, true, false, ◌&&◌, not, List, [], ◌∷◌, ◌++◌, filter, take, take_last,
  length, Option, none, some, leb, str_eq, ◌==◌, if◌then◌else◌,
}
pub mod Listed
pub mod Reconciled
mod Tests

pub record InflightEntry : Type 0 where
  pub session_id : String
  pub prompt_request_id : String
  pub base_url : String
  pub cwd : Option String
  pub updated_at : ℕ

-- An element of the parsed list: of the shape of an entry, or not.
pub data RawEntry : Type 0 where
  shaped : InflightEntry → RawEntry
  junk : RawEntry

-- `none` is a file that is missing, or holds no list.
abbrev pub InflightFile : Type 0
InflightFile = Option (List RawEntry)

abbrev pub max_entries : ℕ
max_entries = 50

abbrev pub max_age_ms : ℕ
max_age_ms = 604800000

abbrev pub is_entry : InflightEntry → Bool
is_entry e =
    not (str_eq e.session_id "")
    && (not (str_eq e.prompt_request_id "") && not (str_eq e.base_url ""))

-- `raw.filter(isEntry)`.
abbrev pub valid_entries : List RawEntry → List InflightEntry
valid_entries [] = []
valid_entries (junk ∷ rest) = valid_entries rest
valid_entries (shaped e ∷ rest) =
    let others = valid_entries rest in if is_entry e then e ∷ others else others

abbrev pub is_same : String → String → InflightEntry → Bool
is_same session prompt e = str_eq e.session_id session && str_eq e.prompt_request_id prompt

abbrev pub is_fresh : ℕ → InflightEntry → Bool
is_fresh now e = leb (now - e.updated_at) max_age_ms

abbrev pub file_entries : InflightFile → List InflightEntry
file_entries none = []
file_entries (some raw) = valid_entries raw

unfoldable pub list_entries : ℕ → InflightFile → List InflightEntry
list_entries now file = take_last max_entries (filter (is_fresh now) (file_entries file))

abbrev pub shape_all : List InflightEntry → List RawEntry
shape_all [] = []
shape_all (e ∷ es) = shaped e ∷ shape_all es

-- A failed write is swallowed, and leaves the file.
unfoldable pub write : Bool → List InflightEntry → InflightFile → InflightFile
write succeeds entries file =
    if succeeds then some (shape_all (take_last max_entries entries)) else file

unfoldable pub record_entry : Bool → ℕ → InflightEntry → InflightFile → InflightFile
unfolding list_entries write
record_entry succeeds now e file =
    write succeeds
      (filter (λ held. not (is_same e.session_id e.prompt_request_id held)) (list_entries now file)
        ++ record e { updated_at = now } ∷ [])
      file

unfoldable pub clear_entry : Bool → ℕ → String → String → InflightFile → InflightFile
unfolding list_entries write
clear_entry succeeds now session prompt file =
    write succeeds (filter (λ e. not (is_same session prompt e)) (list_entries now file)) file

-- What the calls of the host come to for one entry: `unreachable` is a call that throws, with or
-- without the queued prompt removed before; else the entry had a queued prompt that was removed or
-- not, its turn is closed or not, and it is cleared at a time, by a write that succeeds or not.
pub data HostAnswer : Type 0 where
  unreachable : Bool → HostAnswer
  answered : Bool → Bool → ℕ → Bool → HostAnswer

pub record ReconcileResult : Type 0 where
  pub removed : ℕ
  pub open_turns : List InflightEntry
  pub skipped : Bool
  pub file : InflightFile

abbrev count_true : Bool → ℕ
count_true true = 1
count_true false = 0

abbrev push_open : Bool → InflightEntry → List InflightEntry → List InflightEntry
push_open closed e open_turns = if closed then open_turns else open_turns ++ e ∷ []

-- The loop over the entries, with the host's answers in turn.
abbrev pub reconcile_loop :
    (InflightEntry → HostAnswer) → List InflightEntry → ReconcileResult → ReconcileResult
reconcile_loop host [] r = r
reconcile_loop host (e ∷ es) r = elim (host e) [
  | unreachable removed ↦ record r { removed = r.removed + count_true removed; skipped = true }
  | answered removed closed at succeeds ↦ reconcile_loop host es (record r {
    removed = r.removed + count_true removed;
    open_turns = push_open closed e r.open_turns;
    file = clear_entry succeeds at e.session_id e.prompt_request_id r.file;
  })
]

-- The notice to the owner is sent when a turn is open and nothing was skipped.
unfoldable pub reconcile :
    ℕ → String → (InflightEntry → HostAnswer) → InflightFile → ReconcileResult
unfolding list_entries clear_entry
reconcile now base_url host file =
    reconcile_loop host (take 10 (filter (λ e. str_eq e.base_url base_url) (list_entries now file)))
      (record { removed = 0; open_turns = []; skipped = false; file = file })

abbrev pub notifies : ReconcileResult → Bool
notifies r = not r.skipped && not (length r.open_turns == 0)
