-- ===== src/Inflight/Tests.antt =====
-- Prompts that were left, on concrete entries.
use lark_remote.Common.{
  str_eq, if◌then◌else◌, ℕ, String, true, false, List, [], ◌∷◌, none, some, ◌≡◌, refl, arith,
}
use lark_remote.Inflight.{
  InflightEntry, InflightFile, shaped, junk, HostAnswer, unreachable, answered, list_entries,
  file_entries, record_entry, reconcile,
}
use lark_remote.Inflight.Listed.{Holds, InflightCall, recording, clearing, do_all, stays_listed}
use lark_remote.Inflight.Reconciled.{reconcile_keeps}

abbrev entry_of : String → String → ℕ → InflightEntry
entry_of session host at = record {
  session_id = session;
  prompt_request_id = "p1";
  base_url = host;
  cwd = none;
  updated_at = at;
}

abbrev since : List InflightCall
since =
    recording (entry_of "s2" "http://a" 0) false 20
    ∷ clearing "s3" "p1" true 30
    ∷ recording (entry_of "s4" "http://a" 0) true 40
    ∷ []

stays_listed_example :
    Holds
      (entry_of "s1" "http://a" 10)
      2
      (list_entries 50 (do_all since (record_entry true 10 (entry_of "s1" "http://a" 10) none)))
stays_listed_example =
    stays_listed (entry_of "s1" "http://a" 10) none since 50 refl
      ((refl, omega arith), ((refl, omega arith), ((refl, omega arith), tt))) (omega arith)
      (omega arith)

abbrev left_over : InflightFile
left_over = some (
    shaped (entry_of "s1" "http://b" 10)
    ∷ junk
    ∷ shaped (entry_of "s2" "http://a" 20)
    ∷ shaped (entry_of "s3" "http://a" 30)
    ∷ [])

-- The host goes away at the second entry, behind the removal of its prompt.
abbrev failing_host : InflightEntry → HostAnswer
failing_host e = if str_eq e.session_id "s2" then answered true false 60 true else unreachable true

reconcile_run :
    file_entries (reconcile 50 "http://a" failing_host left_over).file
    ≡ entry_of "s1" "http://b" 10 ∷ entry_of "s3" "http://a" 30 ∷ []
unfolding reconcile
reconcile_run = refl

-- The removal that came before the host went away counts.
reconcile_counts : (reconcile 50 "http://a" failing_host left_over).removed ≡ 2
unfolding reconcile
reconcile_counts = refl

reconcile_keeps_example :
    Holds
      (entry_of "s1" "http://b" 10)
      2
      (file_entries (reconcile 50 "http://a" failing_host left_over).file)
unfolding list_entries
reconcile_keeps_example =
    reconcile_keeps 50 2 "http://a" failing_host left_over (entry_of "s1" "http://b" 10) refl
      (omega arith)
      (record {
        older = [];
        newer = entry_of "s2" "http://a" 20 ∷ entry_of "s3" "http://a" 30 ∷ [];
        parted = refl;
        few = omega arith;
      })
      ((refl, omega arith), tt)
