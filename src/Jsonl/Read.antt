-- ===== src/Jsonl/Read.antt =====
-- How one chunk of src/runner/common/jsonl-stream.ts is read.
use mathlib.Core.List.{append-nil, append_assoc}
use lark_remote.Common.{
  ◌≤◌, Text, Bool, true, false, List, [], ◌∷◌, ◌++◌, length, length-append, ◌≡◌, refl, sym, ap, ◌∙◌,
  arith, trim, ◌&&◌, not, leb, ltb, if◌then◌else◌,
}
use lark_remote.Common.Lines.{split_lines}
use lark_remote.Jsonl.{
  Stream, default_partial_limit, concat, kept_line, trimmed, wake, check_partial, add_segments,
  complete_pending, handle_segments, maybe_pause, maybe_resume, on_data_chunk,
  flush_oversize_partial, shift_line, bad_line, pause_stdout, resume_stdout,
}
use lark_remote.Jsonl.Glue.{split_lines-ne, split_lines-goes_on, Short, Short-right}

pub trimmed-append : (xs ys : List Text) → trimmed (xs ++ ys) ≡ trimmed xs ++ trimmed ys
trimmed-append [] ys = refl
trimmed-append (x ∷ xs) ys =
    ap (λ rest. kept_line (trim x) ++ rest) (trimmed-append xs ys)
    ∙ sym (append_assoc (kept_line (trim x)) (trimmed xs) (trimmed ys))

pub concat-append : (xs : List Text) (t : Text) → concat (xs ++ t ∷ []) ≡ concat xs ++ t
concat-append [] t = append-nil t
concat-append (x ∷ xs) t =
    ap (λ rest. x ++ rest) (concat-append xs t) ∙ sym (append_assoc x (concat xs) t)

pub concat-kept : (xs : List Text) (t : Text) → concat (xs ++ kept_line t) ≡ concat xs ++ t
concat-kept xs [] = ap concat (append-nil xs) ∙ sym (append-nil (concat xs))
concat-kept xs (c ∷ t) = concat-append xs (c ∷ t)

-- The lines that were read are handed on, and what follows the last break is pending.
pub record IsRead (text : Text) (s : Stream) : Type 0 where
  pub complete : List Text
  pub pending : Text
  pub parted : split_lines text ≡ complete ++ pending ∷ []
  pub queued : s.taken ++ s.line_queue ≡ trimmed complete
  pub held : concat s.partial_fragments ≡ pending
  pub counted : s.partial_units ≡ length pending
  pub limited : s.partial_limit ≡ default_partial_limit

abbrev pub AreShort : Text → Type 0
AreShort text = Short default_partial_limit (split_lines text)

-- The segments behind the first break.
record Added (segments : List Text) (s t : Stream) : Type 0 where
  lines : List Text
  last : Text
  parted : segments ≡ lines ++ last ∷ []
  result : t ≡ record s {
    line_queue = s.line_queue ++ trimmed lines;
    partial_fragments = last ∷ [];
    partial_units = length last;
  }

add_segments-Added :
    (line : Text) (rest : List Text) (s : Stream)
    → Added (line ∷ rest) s (add_segments (line ∷ rest) s)
add_segments-Added line [] s = record {
  lines = [];
  last = line;
  parted = refl;
  result =
      ap
        (λ queue. record s {
          line_queue = queue;
          partial_fragments = line ∷ [];
          partial_units = length line;
        })
        (sym (append-nil s.line_queue));
}
add_segments-Added line (second ∷ rest) s =
    let t = record s { line_queue = s.line_queue ++ kept_line (trim line) } in
    let more = add_segments-Added second rest t in
    record {
      lines = line ∷ more.lines;
      last = more.last;
      parted = ap (λ ls. line ∷ ls) more.parted;
      result =
          more.result
          ∙ ap
              (λ queue. record s {
                line_queue = queue;
                partial_fragments = more.last ∷ [];
                partial_units = length more.last;
              })
              (append_assoc s.line_queue (kept_line (trim line)) (trimmed more.lines));
    }

-- No flush of a partial line that is short.
check_partial-short : (s : Stream) → s.partial_units ≤ s.partial_limit → check_partial s ≡ s
check_partial-short s h = go (ltb s.partial_limit s.partial_units) (λ e. ground (arith, e))
  where
    go : (b : Bool) → ¬ (b ≡ true) → (if b then flush_oversize_partial s else s) ≡ s
    go true k = absurd (k refl)
    go false k = refl

-- The last line of a short text is short.
last_short :
    (text : Text) (complete : List Text) (last : Text)
    → split_lines text ≡ complete ++ last ∷ []
    → AreShort text
    → length last ≤ default_partial_limit
last_short text complete last e h =
    (Short-right default_partial_limit complete (last ∷ []) (rw e at h)).0

checked : (text : Text) (s : Stream) → AreShort text → IsRead text s → IsRead text (check_partial s)
checked text s h i =
    let fits = last_short text i.complete i.pending i.parted h in
    rw (check_partial-short s (omega (arith, fits, i.counted, i.limited))) i

handle-IsRead :
    (text more : Text) (segments : List Text) (s : Stream)
    → split_lines more ≡ segments
    → AreShort (text ++ more)
    → IsRead text s
    → IsRead (text ++ more) (handle_segments segments s)
handle-IsRead text more [] s e h i = absurd (split_lines-ne more e)
handle-IsRead text more (only ∷ []) s e h i = checked (text ++ more) _ h (record {
  complete = i.complete;
  pending = i.pending ++ only;
  parted = split_lines-goes_on text more i.complete i.pending only [] i.parted e;
  queued = i.queued;
  held = concat-append s.partial_fragments only ∙ ap (λ t. t ++ only) i.held;
  counted = omega (arith, i.counted, length-append i.pending only);
  limited = i.limited;
})
handle-IsRead text more (first ∷ second ∷ rest) s e h i =
    let t = complete_pending first s in
    let a = add_segments-Added second rest t in
    let line = i.pending ++ first in
    let shown = kept_line (trim (concat (s.partial_fragments ++ first ∷ []))) in
    let joined = concat-append s.partial_fragments first ∙ ap (λ l. l ++ first) i.held in
    checked (text ++ more) (add_segments (second ∷ rest) t) h (
      rw a.result (record {
        complete = i.complete ++ line ∷ a.lines;
        pending = a.last;
        parted =
            split_lines-goes_on text more i.complete i.pending first (second ∷ rest) i.parted e
            ∙ ap (λ ls. i.complete ++ line ∷ ls) a.parted
            ∙ sym (append_assoc i.complete (line ∷ a.lines) (a.last ∷ []));
        queued =
            ap (λ q. s.taken ++ q) (append_assoc s.line_queue shown (trimmed a.lines))
            ∙ sym (append_assoc s.taken s.line_queue (shown ++ trimmed a.lines))
            ∙ ap (λ q. q ++ (shown ++ trimmed a.lines)) i.queued
            ∙ ap (λ l. trimmed i.complete ++ (kept_line (trim l) ++ trimmed a.lines)) joined
            ∙ sym (trimmed-append i.complete (line ∷ a.lines));
        held = append-nil a.last;
        counted = refl;
        limited = i.limited;
      }))

-- A stream that differs only in what this does not look at.
pub same-IsRead :
    (text : Text) (s t : Stream)
    → t.taken ++ t.line_queue ≡ s.taken ++ s.line_queue
    → t.partial_fragments ≡ s.partial_fragments
    → t.partial_units ≡ s.partial_units
    → t.partial_limit ≡ s.partial_limit
    → IsRead text s
    → IsRead text t
same-IsRead text s t q f u l i = record {
  complete = i.complete;
  pending = i.pending;
  parted = i.parted;
  queued = q ∙ i.queued;
  held = rw f i.held;
  counted = u ∙ i.counted;
  limited = l ∙ i.limited;
}

pause-IsRead : (text : Text) (s : Stream) → IsRead text s → IsRead text (maybe_pause s)
unfolding maybe_pause
pause-IsRead text s i =
    either
      (ltb 0 s.pause_threshold && (not s.paused && ltb s.pause_threshold (length s.line_queue)))
  where
    either :
        (b : Bool)
        → IsRead text
            (if b then record s { paused = true; calls = s.calls ++ pause_stdout ∷ [] } else s)
    either true = same-IsRead text s _ refl refl refl refl i
    either false = i

pub resume-IsRead : (text : Text) (s : Stream) → IsRead text s → IsRead text (maybe_resume s)
unfolding maybe_resume
resume-IsRead text s i = either (s.paused && leb (length s.line_queue) s.resume_threshold)
  where
    either :
        (b : Bool)
        → IsRead text
            (if b then record s { paused = false; calls = s.calls ++ resume_stdout ∷ [] } else s)
    either true = same-IsRead text s _ refl refl refl refl i
    either false = i

pub received-IsRead :
    (text more : Text) (s : Stream)
    → AreShort (text ++ more)
    → IsRead text s
    → IsRead (text ++ more) (on_data_chunk more s)
unfolding on_data_chunk
received-IsRead text more s h i =
    let read = handle-IsRead text more (split_lines more) s refl h i in
    pause-IsRead (text ++ more) _ (
      same-IsRead (text ++ more) (handle_segments (split_lines more) s)
        (wake (handle_segments (split_lines more) s)) refl refl refl refl read)

pub shift-IsRead :
    (text : Text) (parses : Text → Bool) (queue : List Text) (s : Stream)
    → s.line_queue ≡ queue
    → IsRead text s
    → IsRead text (shift_line queue parses s)
shift-IsRead text parses [] s e i = i
shift-IsRead text parses (line ∷ rest) s e i = either (parses line)
  where
    shifted : Stream
    shifted = record s { line_queue = rest; taken = s.taken ++ line ∷ []; suspended = true }

    moved : (s.taken ++ line ∷ []) ++ rest ≡ s.taken ++ s.line_queue
    moved = append_assoc s.taken (line ∷ []) rest ∙ ap (λ q. s.taken ++ q) (sym e)

    either :
        (b : Bool)
        → IsRead text
            (if b then shifted else record shifted { calls = s.calls ++ bad_line line ∷ [] })
    either true = same-IsRead text s shifted moved refl refl refl i
    either false = same-IsRead text s _ moved refl refl refl i
