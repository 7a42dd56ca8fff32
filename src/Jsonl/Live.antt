-- ===== src/Jsonl/Live.antt =====
-- The generator of src/runner/common/jsonl-stream.ts never sleeps over work, nor while the output is
-- paused.
use lark_remote.Common.{
  ℕ, ◌+◌, ◌≤◌, ◌<◌, Text, Bool, true, false, ◌&&◌, not, List, [], ◌∷◌, ◌++◌, length, length-append,
  ◌≡◌, refl, sym, ap, ◌∙◌, arith, ltb, leb, if◌then◌else◌, Bool-cases, inl, inr, Option, trim,
}
use lark_remote.Common.Lines.{split_lines}
use lark_remote.Jsonl.{
  Stream, create_stream, kept_line, wake, check_partial, add_segments, complete_pending,
  handle_segments, maybe_pause, maybe_resume, on_data_chunk, flush_and_finish,
  flush_oversize_partial, take_line, shift_line, after_line, await_line, pause_stdout,
  resume_stdout, bad_line,
}
use lark_remote.Jsonl.Step.{
  StreamStep, StreamReach, here, next, received, finished, took, went_on, waits,
}

record IsLive (s : Stream) : Type 0 where
  asleep :
      s.waiting ≡ true
      → (s.line_queue ≡ []) × (s.done ≡ false) × (s.paused ≡ false) × (s.suspended ≡ false)
  draining : s.paused ≡ true → s.suspended ≡ false → s.resume_threshold < length s.line_queue
  marks : s.resume_threshold ≤ s.pause_threshold

-- The queue only grows, and the flags of the flow stay.
record Grows (s t : Stream) : Type 0 where
  queue : length s.line_queue ≤ length t.line_queue
  paused : t.paused ≡ s.paused
  suspended : t.suspended ≡ s.suspended
  high : t.pause_threshold ≡ s.pause_threshold
  low : t.resume_threshold ≡ s.resume_threshold

Grows-trans : (s t u : Stream) → Grows s t → Grows t u → Grows s u
Grows-trans s t u g h = record {
  queue = omega (arith, g.queue, h.queue);
  paused = h.paused ∙ g.paused;
  suspended = h.suspended ∙ g.suspended;
  high = h.high ∙ g.high;
  low = h.low ∙ g.low;
}

check_partial-Grows : (s : Stream) → Grows s (check_partial s)
unfolding flush_oversize_partial
check_partial-Grows s = either (ltb s.partial_limit s.partial_units)
  where
    either : (b : Bool) → Grows s (if b then flush_oversize_partial s else s)
    either true = record {
      queue = omega arith;
      paused = refl;
      suspended = refl;
      high = refl;
      low = refl;
    }
    either false = record {
      queue = omega arith;
      paused = refl;
      suspended = refl;
      high = refl;
      low = refl;
    }

queue-Grows :
    (s t : Stream) (more : List Text)
    → t.line_queue ≡ s.line_queue ++ more
    → t.paused ≡ s.paused
    → t.suspended ≡ s.suspended
    → t.pause_threshold ≡ s.pause_threshold
    → t.resume_threshold ≡ s.resume_threshold
    → Grows s t
queue-Grows s t more q p u h l = record {
  queue = rw q (omega (arith, length-append s.line_queue more));
  paused = p;
  suspended = u;
  high = h;
  low = l;
}

add_segments-Grows : (segments : List Text) (s : Stream) → Grows s (add_segments segments s)
add_segments-Grows [] s = record {
  queue = omega arith;
  paused = refl;
  suspended = refl;
  high = refl;
  low = refl;
}
add_segments-Grows (last ∷ []) s = record {
  queue = omega arith;
  paused = refl;
  suspended = refl;
  high = refl;
  low = refl;
}
add_segments-Grows (line ∷ second ∷ rest) s =
    let t = record s { line_queue = s.line_queue ++ kept_line (trim line) } in
    Grows-trans s t _ (queue-Grows s t (kept_line (trim line)) refl refl refl refl refl)
      (add_segments-Grows (second ∷ rest) t)

handle-Grows : (segments : List Text) (s : Stream) → Grows s (handle_segments segments s)
handle-Grows [] s = record {
  queue = omega arith;
  paused = refl;
  suspended = refl;
  high = refl;
  low = refl;
}
handle-Grows (only ∷ []) s =
    let t = record s {
      partial_fragments = s.partial_fragments ++ only ∷ [];
      partial_units = s.partial_units + length only;
    } in
    Grows-trans s t _
      (record { queue = omega arith; paused = refl; suspended = refl; high = refl; low = refl })
      (check_partial-Grows t)
handle-Grows (first ∷ second ∷ rest) s =
    let t = complete_pending first s in
    let u = add_segments (second ∷ rest) t in
    Grows-trans s t _ (queue-Grows s t _ refl refl refl refl refl)
      (Grows-trans t u _ (add_segments-Grows (second ∷ rest) t) (check_partial-Grows u))

-- A stream that grew and whose generator was woken.
woken : (s t : Stream) → Grows s t → t.waiting ≡ false → IsLive s → IsLive t
woken s t g w i = record {
  asleep = λ h. cc (h, w);
  draining =
      λ p u. ground (arith, i.draining (sym g.paused ∙ p) (sym g.suspended ∙ u), g.queue, g.low);
  marks = omega (arith, i.marks, g.high, g.low);
}

pause-IsLive : (s : Stream) → IsLive s → IsLive (maybe_pause s)
unfolding maybe_pause
pause-IsLive s i =
    either
      (ltb 0 s.pause_threshold && (not s.paused && ltb s.pause_threshold (length s.line_queue)))
      refl
  where
    either :
        (b : Bool)
        → (ltb 0 s.pause_threshold && (not s.paused && ltb s.pause_threshold (length s.line_queue)))
          ≡ b
        → IsLive (if b then record s { paused = true; calls = s.calls ++ pause_stdout ∷ [] } else s)
    either true e = record {
      asleep = λ h. absurd (ground (arith, e, (i.asleep h).0));
      draining = λ p u. ground (arith, e, i.marks);
      marks = i.marks;
    }
    either false e = i

-- Behind the `yield` nothing waits, and a drained queue lets the output go on.
resume-IsLive :
    (s : Stream)
    → s.waiting ≡ false
    → s.resume_threshold ≤ s.pause_threshold
    → IsLive (maybe_resume s)
unfolding maybe_resume
resume-IsLive s w m = either (s.paused && leb (length s.line_queue) s.resume_threshold) refl
  where
    either :
        (b : Bool)
        → (s.paused && leb (length s.line_queue) s.resume_threshold) ≡ b
        → IsLive
            (if b then record s { paused = false; calls = s.calls ++ resume_stdout ∷ [] } else s)
    either true e = record { asleep = λ h. cc (h, w); draining = λ p u. cc p; marks = m }
    either false e = record {
      asleep = λ h. cc (h, w);
      draining = λ p u. ground (arith, e, p);
      marks = m;
    }

shift-IsLive :
    (parses : Text → Bool) (queue : List Text) (s : Stream)
    → s.waiting ≡ false
    → IsLive s
    → IsLive (shift_line queue parses s)
shift-IsLive parses [] s w i = i
shift-IsLive parses (line ∷ rest) s w i = either (parses line)
  where
    shifted : Stream
    shifted = record s { line_queue = rest; taken = s.taken ++ line ∷ []; suspended = true }

    either :
        (b : Bool)
        → IsLive (if b then shifted else record shifted { calls = s.calls ++ bad_line line ∷ [] })
    either true = record { asleep = λ h. cc (h, w); draining = λ p u. cc u; marks = i.marks }
    either false = record { asleep = λ h. cc (h, w); draining = λ p u. cc u; marks = i.marks }

not_asleep : (s : Stream) → IsLive s → s.suspended ≡ true → s.waiting ≡ false
not_asleep s i u = elim (Bool-cases s.waiting) [ inl h ↦ cc (u, (i.asleep h).3) | inr h ↦ h ]

StreamStep-IsLive : {s t : Stream} → StreamStep s t → IsLive s → IsLive t
unfolding on_data_chunk flush_and_finish take_line after_line await_line
StreamStep-IsLive {s} (received text) i =
    let read = handle_segments (split_lines text) s in
    let g = handle-Grows (split_lines text) s in
    pause-IsLive (wake read) (
      woken s (wake read)
        (record {
          queue = g.queue;
          paused = g.paused;
          suspended = g.suspended;
          high = g.high;
          low = g.low;
        })
        refl i)
StreamStep-IsLive {s} (finished tail) i =
    woken s _ (queue-Grows s _ _ refl refl refl refl refl) refl i
StreamStep-IsLive {s} (took parses u w) i = shift-IsLive parses s.line_queue s w i
StreamStep-IsLive {s} (went_on u) i =
    resume-IsLive (record s { suspended = false }) (not_asleep s i u) i.marks
StreamStep-IsLive {s} (waits u q d) i =
    let p : s.paused ≡ false = running in
    record { asleep = λ h. (q, d, p, u); draining = λ k l. cc (k, p); marks = i.marks }
  where
    running : s.paused ≡ false
    running = elim (Bool-cases s.paused) [
      | inl h ↦ absurd (omega (arith, i.draining h u, ap (length {A = Text}) q))
      | inr h ↦ h
    ]

StreamReach-IsLive :
    (pause_at resume_at : Option ℕ) {s : Stream}
    → StreamReach (create_stream pause_at resume_at) s
    → IsLive s
unfolding create_stream
StreamReach-IsLive p q here = record {
  asleep = λ h. cc h;
  draining = λ h u. cc h;
  marks = omega arith;
}
StreamReach-IsLive p q (next r st) = StreamStep-IsLive st (StreamReach-IsLive p q r)

-- For any thresholds, chunks and calls of the generator: while the generator waits to be woken, no
-- line is in the queue, the output has not ended, and it is not paused.
pub waits_for_output :
    (pause_at resume_at : Option ℕ) {s : Stream}
    → StreamReach (create_stream pause_at resume_at) s
    → s.waiting ≡ true
    → (s.line_queue ≡ []) × (s.done ≡ false) × (s.paused ≡ false)
waits_for_output p q r h = let a = (StreamReach-IsLive p q r).asleep h in (a.0, a.1, a.2)
