-- ===== src/Inbound/Kept.antt =====
-- The texts over any calls of src/inbound/turn-assembler.ts.
use mathlib.Core.List.{append-nil, append_assoc}
use lark_remote.Common.{
  arith, ℕ, ◌==◌, String, Bool, true, false, ◌&&◌, List, [], ◌∷◌, ◌++◌, none, some, or_else, ◌≡◌,
  refl, sym, ap, ◌∙◌, inl, inr, Option-cases, if◌then◌else◌,
}
use lark_remote.Inbound.Types.{CommitReason, idle, Assembly, Bucket, MediaOutcome}
use lark_remote.Inbound.Assembler.{
  no_outcomes, hold, commit_if, try_commit, timer_fired, add_outcome, drop_outcome, media_settled,
  flush, flush_rest, ingest,
}
use lark_remote.Inbound.Step.{
  InboundStep, ingested, window_ended, download_ended, flushing, flush_ended, do_inbound,
  run_inbound, fresh_assembly, text_of, said,
}
use lark_remote.Inbound.Laws.{
  committed_texts, held_texts, total, commit_if-total, held_then, ingest-total, add_outcome-texts,
}

total-if : (b : Bool) (s t : Assembly) → total t ≡ total s → total (if b then t else s) ≡ total s
total-if true s t h = h
total-if false s t h = refl

timer_fired-total : (s : Assembly) → total (timer_fired s) ≡ total s
unfolding timer_fired
timer_fired-total s = elim (Option-cases s.bucket) [
  | inl e ↦ ap total (missing e)
  | inr (b, e) ↦
      ap total (found b e)
      ∙ total-if b.timer s _ (
          held_then b (record b { timer = false; window_elapsed = true }) s (no_outcomes b)
            (or_else b.forced_reason idle) e refl)
]
  where
    found :
        (b : Bucket)
        → s.bucket ≡ some b
        → timer_fired s ≡ (
            if b.timer
            then commit_if
                (no_outcomes b)
                (or_else b.forced_reason idle)
                (hold (record b { timer = false; window_elapsed = true }) s)
            else s)
    found b e = simp (e, timer_fired)

    missing : s.bucket ≡ none → timer_fired s ≡ s
    missing e = simp (e, timer_fired)

media_settled-total :
    (number n : ℕ) (id : String) (o : MediaOutcome) (s : Assembly)
    → total (media_settled number n id o s) ≡ total s
unfolding media_settled
media_settled-total number n id o s = elim (Option-cases s.bucket) [
  | inl e ↦ ap total (missing e)
  | inr (b, e) ↦
      ap total (found b e)
      ∙ total-if (b.number == number) s _ (
          held_then b (after b) s ((after b).window_elapsed && no_outcomes (after b))
            (or_else (after b).forced_reason idle) e (add_outcome-texts id o b))
]
  where
    after : Bucket → Bucket
    after b = drop_outcome n (add_outcome id o b)

    found :
        (b : Bucket)
        → s.bucket ≡ some b
        → media_settled number n id o s ≡ (
            if b.number == number
            then commit_if
                ((after b).window_elapsed && no_outcomes (after b))
                (or_else (after b).forced_reason idle)
                (hold (after b) s)
            else s)
    found b e = simp (e, media_settled)

    missing : s.bucket ≡ none → media_settled number n id o s ≡ s
    missing e = simp (e, media_settled)

flush-total : (reason : CommitReason) (s : Assembly) → total (flush reason s) ≡ total s
unfolding flush
flush-total reason s = elim (Option-cases s.bucket) [
  | inl e ↦ ap total (missing e)
  | inr (b, e) ↦
      ap total (found b e)
      ∙ held_then b (record b { window_elapsed = true; forced_reason = some reason }) s
          (no_outcomes b) reason e refl
]
  where
    found :
        (b : Bucket)
        → s.bucket ≡ some b
        → flush reason s
          ≡ commit_if
              (no_outcomes b)
              reason
              (hold (record b { window_elapsed = true; forced_reason = some reason }) s)
    found b e = simp (e, flush)

    missing : s.bucket ≡ none → flush reason s ≡ s
    missing e = simp (e, flush)

flush_rest-total :
    (number : ℕ) (reason : CommitReason) (s : Assembly)
    → total (flush_rest number reason s) ≡ total s
unfolding flush_rest
flush_rest-total number reason s = elim (Option-cases s.bucket) [
  | inl e ↦ ap total (missing e)
  | inr (b, e) ↦ ap total (found b e) ∙ commit_if-total (b.number == number) reason s
]
  where
    found :
        (b : Bucket)
        → s.bucket ≡ some b
        → flush_rest number reason s ≡ commit_if (b.number == number) reason s
    found b e = simp (e, flush_rest)

    missing : s.bucket ≡ none → flush_rest number reason s ≡ s
    missing e = simp (e, flush_rest)

try_commit-disposed :
    (reason : CommitReason) (s : Assembly) → (try_commit reason s).disposed ≡ s.disposed
unfolding try_commit
try_commit-disposed reason s = ground arith

commit_if-disposed :
    (now : Bool) (reason : CommitReason) (s : Assembly)
    → (commit_if now reason s).disposed ≡ s.disposed
commit_if-disposed true reason s = try_commit-disposed reason s
commit_if-disposed false reason s = refl

do_inbound-disposed : (e : InboundStep) (s : Assembly) → (do_inbound e s).disposed ≡ s.disposed
unfolding do_inbound ingest timer_fired media_settled flush flush_rest
do_inbound-disposed (ingested e) s = ground arith
do_inbound-disposed window_ended s = ground arith
do_inbound-disposed (download_ended number n id outcome) s = ground arith
do_inbound-disposed (flushing reason) s = ground arith
do_inbound-disposed (flush_ended number reason) s = ground arith

-- One step adds the texts that it brings.
do_inbound-total :
    (e : InboundStep) (s : Assembly)
    → s.disposed ≡ false
    → total (do_inbound e s) ≡ total s ++ said (e ∷ [])
unfolding do_inbound
do_inbound-total (ingested e) s d =
    ingest-total e s d ∙ ap (λ ts. total s ++ ts) (sym (append-nil (text_of e.content)))
do_inbound-total window_ended s d = timer_fired-total s ∙ sym (append-nil (total s))
do_inbound-total (download_ended number n id outcome) s d =
    media_settled-total number n id outcome s ∙ sym (append-nil (total s))
do_inbound-total (flushing reason) s d = flush-total reason s ∙ sym (append-nil (total s))
do_inbound-total (flush_ended number reason) s d =
    flush_rest-total number reason s ∙ sym (append-nil (total s))

said-cons : (e : InboundStep) (es : List InboundStep) → said (e ∷ []) ++ said es ≡ said (e ∷ es)
said-cons (ingested e) es = ap (λ ts. ts ++ said es) (append-nil (text_of e.content))
said-cons window_ended es = refl
said-cons (download_ended number n id outcome) es = refl
said-cons (flushing reason) es = refl
said-cons (flush_ended number reason) es = refl

run_inbound-total :
    (es : List InboundStep) (s : Assembly)
    → s.disposed ≡ false
    → total (run_inbound es s) ≡ total s ++ said es
run_inbound-total [] s d = sym (append-nil (total s))
run_inbound-total (e ∷ es) s d =
    run_inbound-total es (do_inbound e s) (do_inbound-disposed e s ∙ d)
    ∙ ap (λ ts. ts ++ said es) (do_inbound-total e s d)
    ∙ append_assoc (total s) (said (e ∷ [])) (said es)
    ∙ ap (λ ts. total s ++ ts) (said-cons e es)

-- Whatever messages come, windows end, downloads end and flushes are made, in any order, the texts of
-- the turns given to the agent and of the one that is still held are the texts that came in, each
-- once and in order.
pub texts_kept :
    (es : List InboundStep)
    → let s = run_inbound es fresh_assembly in
      committed_texts s.calls ++ held_texts s.bucket ≡ said es
texts_kept es = run_inbound-total es fresh_assembly refl
