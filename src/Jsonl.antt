-- ===== src/Jsonl.antt =====
-- The JSONL stream of the agents' output, src/runner/common/jsonl-stream.ts. What the `StringDecoder`
-- makes of a chunk, and of what it still holds at the end, is an argument, and so is `JSON.parse`.
-- A suspended generator is a flag, and what it yields is a list.
use lark_remote.Common.{
  ℕ, ◌+◌, ◌/◌, Text, Bool, true, false, ◌&&◌, ◌||◌, not, List, [], ◌∷◌, ◌++◌, length, Option, none,
  some, or_else, trim, leb, ltb, min, if◌then◌else◌,
}
use lark_remote.Common.Lines.{split_lines}
pub mod Glue
pub mod Step
pub mod Read
pub mod Whole
pub mod Live
mod Tests

pub data StreamCall : Type 0 where
  pause_stdout resume_stdout : StreamCall
  bad_line : Text → StreamCall
  oversize_line : Text → StreamCall

-- `JSONLStreamState`. `waiting` says that `resolveNext` is set, `suspended` that the generator stands
-- at a `yield`; `taken` are the lines that it shifted out of the queue, and `paused` the flag.
pub record Stream : Type 0 where
  pub line_queue : List Text
  pub partial_fragments : List Text
  pub partial_units : ℕ
  pub done : Bool
  pub waiting : Bool
  pub suspended : Bool
  pub paused : Bool
  pub pause_threshold : ℕ
  pub resume_threshold : ℕ
  pub partial_limit : ℕ
  pub taken : List Text
  pub calls : List StreamCall

abbrev pub default_partial_limit : ℕ
default_partial_limit = 10485760

-- `createJSONLStream`: the low mark is by default half of the high mark, and at most the high mark.
unfoldable pub create_stream : Option ℕ → Option ℕ → Stream
create_stream pause_threshold resume_threshold =
    let high = or_else pause_threshold 100 in
    record {
      line_queue = [];
      partial_fragments = [];
      partial_units = 0;
      done = false;
      waiting = false;
      suspended = false;
      paused = false;
      pause_threshold = high;
      resume_threshold = min (or_else resume_threshold (high / 2)) high;
      partial_limit = default_partial_limit;
      taken = [];
      calls = [];
    }

abbrev pub wake : Stream → Stream
wake s = record s { waiting = false }

abbrev pub concat : List Text → Text
concat [] = []
concat (t ∷ ts) = t ++ concat ts

-- A line is kept trimmed, unless it is blank.
abbrev pub kept_line : Text → List Text
kept_line [] = []
kept_line (c ∷ s) = (c ∷ s) ∷ []

abbrev pub trimmed : List Text → List Text
trimmed [] = []
trimmed (line ∷ rest) = kept_line (trim line) ++ trimmed rest

unfoldable pub flush_and_finish : Text → Stream → Stream
unfolding trim
flush_and_finish tail s = record s {
  line_queue = s.line_queue ++ kept_line (trim (concat (s.partial_fragments ++ kept_line tail)));
  partial_fragments = [];
  partial_units = 0;
  done = true;
  waiting = false;
}

abbrev report_oversize : Text → List StreamCall
report_oversize [] = []
report_oversize (c ∷ s) = oversize_line (c ∷ s) ∷ []

unfoldable pub flush_oversize_partial : Stream → Stream
unfolding trim
flush_oversize_partial s = record s {
  partial_fragments = [];
  partial_units = 0;
  calls = s.calls ++ report_oversize (trim (concat s.partial_fragments));
}

abbrev pub check_partial : Stream → Stream
check_partial s = if ltb s.partial_limit s.partial_units then flush_oversize_partial s else s

-- The segments after the first: all but the last are complete lines.
abbrev pub add_segments : List Text → Stream → Stream
add_segments [] s = s
add_segments (last ∷ []) s = record s { partial_fragments = last ∷ []; partial_units = length last }
add_segments (line ∷ next ∷ rest) s =
    add_segments (next ∷ rest) (record s { line_queue = s.line_queue ++ kept_line (trim line) })

abbrev pub complete_pending : Text → Stream → Stream
complete_pending first s = record s {
  line_queue = s.line_queue ++ kept_line (trim (concat (s.partial_fragments ++ first ∷ [])));
  partial_fragments = [];
  partial_units = 0;
}

-- `handleChunkWithoutNewline` and `handleChunkWithNewline`, with `enqueueCompleteLines`.
abbrev pub handle_segments : List Text → Stream → Stream
handle_segments [] s = s
handle_segments (only ∷ []) s = check_partial record s {
  partial_fragments = s.partial_fragments ++ only ∷ [];
  partial_units = s.partial_units + length only;
}
handle_segments (first ∷ next ∷ rest) s =
    check_partial (add_segments (next ∷ rest) (complete_pending first s))

unfoldable pub maybe_pause : Stream → Stream
maybe_pause s =
    if ltb 0 s.pause_threshold && (not s.paused && ltb s.pause_threshold (length s.line_queue))
    then record s { paused = true; calls = s.calls ++ pause_stdout ∷ [] }
    else s

unfoldable pub maybe_resume : Stream → Stream
maybe_resume s =
    if s.paused && leb (length s.line_queue) s.resume_threshold
    then record s { paused = false; calls = s.calls ++ resume_stdout ∷ [] }
    else s

unfoldable pub on_data_chunk : Text → Stream → Stream
unfolding split_lines maybe_pause flush_oversize_partial trim
on_data_chunk text s = maybe_pause (wake (handle_segments (split_lines text) s))

-- The generator: one turn of its inner loop up to `maybeResume`. A line that `JSON.parse` takes is
-- yielded in between, and one that it refuses is reported.
abbrev pub shift_line : List Text → (Text → Bool) → Stream → Stream
shift_line [] parses s = s
shift_line (line ∷ rest) parses s =
    let shifted = record s { line_queue = rest; taken = s.taken ++ line ∷ []; suspended = true } in
    if parses line then shifted else record shifted { calls = s.calls ++ bad_line line ∷ [] }

unfoldable pub take_line : (Text → Bool) → Stream → Stream
take_line parses s = shift_line s.line_queue parses s

unfoldable pub after_line : Stream → Stream
unfolding maybe_resume
after_line s = maybe_resume record s { suspended = false }

-- The generator waits, when no line is left and more may come.
unfoldable pub await_line : Stream → Stream
await_line s = record s { waiting = true }
