-- ===== src/Jsonl/Whole.antt =====
-- However the output is cut into chunks, src/runner/common/jsonl-stream.ts hands on its lines.
use mathlib.Core.List.{append-nil, append_assoc}
use lark_remote.Common.{
  ℕ, Text, false, List, [], ◌∷◌, ◌++◌, ◌≡◌, refl, sym, ap, ◌∙◌, trim, ◌≢◌, List-cases, inl, inr,
  Option,
}
use lark_remote.Common.Lines.{split_lines}
use lark_remote.Jsonl.{
  Stream, create_stream, default_partial_limit, concat, kept_line, trimmed, flush_and_finish,
  take_line, after_line, await_line,
}
use lark_remote.Jsonl.Step.{StreamReach, here, next, received, finished, took, went_on, waits}
use lark_remote.Jsonl.Glue.{split_lines-ne, split_lines-goes_on, Short-before}
use lark_remote.Jsonl.Read.{
  IsRead, AreShort, trimmed-append, concat-kept, shift-IsRead, same-IsRead, resume-IsRead,
  received-IsRead,
}

-- What was received so far.
abbrev pub all_text : {first s : Stream} → StreamReach first s → Text
all_text here = []
all_text (next r (received text)) = all_text r ++ text
all_text (next r (finished tail)) = all_text r ++ tail
all_text (next r (took parses h k)) = all_text r
all_text (next r (went_on h)) = all_text r
all_text (next r (waits h k l)) = all_text r

abbrev pub IsOpen : {first s : Stream} → StreamReach first s → Type 0
IsOpen here = Unit
IsOpen (next r (received text)) = IsOpen r
IsOpen (next r (finished tail)) = ⊥
IsOpen (next r (took parses h k)) = IsOpen r
IsOpen (next r (went_on h)) = IsOpen r
IsOpen (next r (waits h k l)) = IsOpen r

-- Every text has a last line.
split_off_last :
    (ls : List Text)
    → ls ≢ []
    → (complete : List Text) × (last : Text) × (ls ≡ complete ++ last ∷ [])
split_off_last [] h = absurd (h refl)
split_off_last (l ∷ []) h = ([], l, refl)
split_off_last (l ∷ k ∷ ls) h =
    let (complete, last, e) = split_off_last (k ∷ ls) cc in
    (l ∷ complete, last, ap (λ rest. l ∷ rest) e)

AreShort-before : (text more : Text) → AreShort (text ++ more) → AreShort text
AreShort-before text more h =
    let (complete, last, e) = split_off_last (split_lines text) (split_lines-ne text) in
    elim (List-cases (split_lines more)) [
      | inl k ↦ absurd (split_lines-ne more k)
      | inr (m, ms, k) ↦ rw e (
          Short-before default_partial_limit complete last m ms
            (rw (split_lines-goes_on text more complete last m ms e k) at h))
    ]

StreamReach-IsRead :
    (pause_at resume_at : Option ℕ) {s : Stream}
    → (r : StreamReach (create_stream pause_at resume_at) s) → IsOpen r
    → AreShort (all_text r)
    → IsRead (all_text r) s
unfolding create_stream after_line await_line take_line split_lines
StreamReach-IsRead p q here o h = record {
  complete = [];
  pending = [];
  parted = refl;
  queued = refl;
  held = refl;
  counted = refl;
  limited = refl;
}
StreamReach-IsRead p q (next r (received text)) o h =
    received-IsRead (all_text r) text _ h
      (StreamReach-IsRead p q r o (AreShort-before (all_text r) text h))
StreamReach-IsRead p q (next r (finished tail)) o h = absurd o
StreamReach-IsRead p q (next {s} r (took parses k l)) o h =
    shift-IsRead (all_text r) parses s.line_queue s refl (StreamReach-IsRead p q r o h)
StreamReach-IsRead p q (next {s} r (went_on k)) o h = resume-IsRead (all_text r) _ (
    same-IsRead (all_text r) s (record s { suspended = false }) refl refl refl refl
      (StreamReach-IsRead p q r o h))
StreamReach-IsRead p q (next {s} r (waits k l m)) o h =
    same-IsRead (all_text r) s _ refl refl refl refl (StreamReach-IsRead p q r o h)

-- However the output is cut into chunks, and whenever the generator takes lines and waits: when the
-- stream ends, the lines that were taken and those in the queue are the lines of the output without
-- the blank ones, trimmed, each once and in order, if no line is longer than 10 MiB and what the
-- decoder still holds at the end has no line break.
pub lines_whole :
    (pause_at resume_at : Option ℕ) (tail : Text) {s : Stream}
    → (r : StreamReach (create_stream pause_at resume_at) s) → IsOpen r
    → split_lines tail ≡ tail ∷ []
    → AreShort (all_text r ++ tail)
    → let end = flush_and_finish tail s in
      end.taken ++ end.line_queue ≡ trimmed (split_lines (all_text r ++ tail))
unfolding flush_and_finish
lines_whole p q tail {s} r o e h =
    let i = StreamReach-IsRead p q r o (AreShort-before (all_text r) tail h) in
    let parted = split_lines-goes_on (all_text r) tail i.complete i.pending tail [] i.parted e in
    let shown = kept_line (trim (concat (s.partial_fragments ++ kept_line tail))) in
    sym (append_assoc s.taken s.line_queue shown)
    ∙ ap (λ ls. ls ++ shown) i.queued
    ∙ ap (λ l. trimmed i.complete ++ kept_line (trim l))
        (concat-kept s.partial_fragments tail ∙ ap (λ l. l ++ tail) i.held)
    ∙ ap (λ ls. trimmed i.complete ++ ls) (sym (append-nil _))
    ∙ sym (trimmed-append i.complete ((i.pending ++ tail) ∷ []))
    ∙ ap trimmed (sym parted)
