-- ===== src/Jsonl/Step.antt =====
-- Any chunks and calls of the generator of src/runner/common/jsonl-stream.ts.
use lark_remote.Common.{Text, Bool, true, false, [], ◌≡◌}
use lark_remote.Jsonl.{Stream, on_data_chunk, flush_and_finish, take_line, after_line, await_line}

-- The generator takes a line, goes on behind a `yield`, or waits when its queue is empty and the
-- stream is not done.
pub data StreamStep (s : Stream) : Stream → Type 0 where
  received : (text : Text) → StreamStep s (on_data_chunk text s)
  finished : (tail : Text) → StreamStep s (flush_and_finish tail s)
  took :
      (parses : Text → Bool)
      → s.suspended ≡ false
      → s.waiting ≡ false
      → StreamStep s (take_line parses s)
  went_on : s.suspended ≡ true → StreamStep s (after_line s)
  waits : s.suspended ≡ false → s.line_queue ≡ [] → s.done ≡ false → StreamStep s (await_line s)

pub data StreamReach (first : Stream) : Stream → Type 0 where
  here : StreamReach first first
  next : {s t : Stream} → StreamReach first s → StreamStep s t → StreamReach first t
