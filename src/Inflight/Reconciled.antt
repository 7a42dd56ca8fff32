-- ===== src/Inflight/Reconciled.antt =====
-- What the start of the program leaves of the prompts of others, src/runner/dsh/inflight.ts.
use lark_remote.Common.{
  ◌+◌, false, ◌⊎◌, inl, inr, ℕ, ◌<◌, String, Bool, true, List, [], ◌∷◌, All, take, filter, ◌≡◌,
  refl, arith, str_eq,
}
use lark_remote.Inflight.{
  InflightEntry, InflightFile, HostAnswer, unreachable, answered, ReconcileResult, max_entries,
  is_entry, file_entries, list_entries, reconcile_loop, reconcile,
}
use lark_remote.Inflight.Listed.{
  Holds, InflightCall, clearing, do_inflight, do_all, recordings, IsOther, do_all-Holds, more-Holds,
}

-- The entries that are cleared: those before the first call that throws.
abbrev pub clear_calls : (InflightEntry → HostAnswer) → List InflightEntry → List InflightCall
clear_calls host [] = []
clear_calls host (e ∷ es) = elim (host e) [
  | unreachable removed ↦ []
  | answered removed closed at succeeds ↦
      clearing e.session_id e.prompt_request_id succeeds at ∷ clear_calls host es
]

HostAnswer-cases :
    (a : HostAnswer)
    → ((removed : Bool) × (a ≡ unreachable removed))
      ⊎ ((removed closed : Bool) × (at : ℕ) × (succeeds : Bool) × (a
            ≡ answered removed closed at succeeds))
HostAnswer-cases (unreachable removed) = inl (removed, refl)
HostAnswer-cases (answered removed closed at succeeds) = inr (removed, closed, at, succeeds, refl)

loop-file :
    (host : InflightEntry → HostAnswer) (es : List InflightEntry) (r : ReconcileResult)
    → (reconcile_loop host es r).file ≡ do_all (clear_calls host es) r.file
unfolding do_inflight
loop-file host [] r = refl
loop-file host (e ∷ es) r = elim (HostAnswer-cases (host e)) [
  | inl (removed, k) ↦ rw (k, reconcile_loop, clear_calls) refl
  | inr (removed, closed, at, succeeds, k) ↦
      rw (k, reconcile_loop, clear_calls) (loop-file host es _)
]

recordings-clear_calls :
    (host : InflightEntry → HostAnswer) (es : List InflightEntry)
    → recordings (clear_calls host es) ≡ 0
recordings-clear_calls host [] = refl
recordings-clear_calls host (e ∷ es) = ground (arith, recordings-clear_calls host es)

-- The entries that are gone through: at most ten of this host.
abbrev pub looked_at : ℕ → String → InflightFile → List InflightEntry
looked_at now base_url file =
    take 10 (filter (λ e. str_eq e.base_url base_url) (list_entries now file))

-- An entry with ids and an address that are not empty and with fewer than 50 entries behind it is
-- still in the file after the start, with no more behind it, if no prompt with its ids
-- was cleared, and no more than seven days went by when others were; whatever the host answers and
-- whichever writes fail.
pub reconcile_keeps :
    (now n : ℕ) (base_url : String) (host : InflightEntry → HostAnswer) (file : InflightFile)
    (e : InflightEntry)
    → is_entry e ≡ true
    → n < max_entries
    → Holds e n (file_entries file)
    → All (IsOther e) (clear_calls host (looked_at now base_url file))
    → Holds e n (file_entries (reconcile now base_url host file).file)
unfolding reconcile
reconcile_keeps now n base_url host file e valid l h o =
    let es = looked_at now base_url file in
    let none_recorded = recordings-clear_calls host es in
    let calls = clear_calls host es in
    rw (loop-file host es (record { removed = 0; open_turns = []; skipped = false; file = file })) (
      more-Holds e valid (n + recordings calls) n (file_entries (do_all calls file))
        (omega (arith, none_recorded))
        (do_all-Holds e valid calls n file o (omega (arith, l, none_recorded)) h))
