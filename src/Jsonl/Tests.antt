-- ===== src/Jsonl/Tests.antt =====
-- A short run of the JSONL stream.
use lark_remote.Common.{◌++◌, Text, lit, Bool, true, false, [], ◌∷◌, none, ◌≡◌, refl, arith}
use lark_remote.Common.Lines.{split_lines}
use lark_remote.Jsonl.{
  Stream, create_stream, trimmed, on_data_chunk, flush_and_finish, take_line, after_line,
  await_line,
}
use lark_remote.Jsonl.Step.{StreamReach, here, next, received, took, went_on, waits}
use lark_remote.Jsonl.Whole.{lines_whole}
use lark_remote.Jsonl.Live.{waits_for_output}

abbrev all_parse : Text → Bool
all_parse line = true

-- Two chunks cut a line in two; the generator takes the first line, and waits.
abbrev one_taken : Stream
one_taken = after_line (
    take_line all_parse
      (on_data_chunk (lit "b\n c") (on_data_chunk (lit "a") (create_stream none none))))

one_taken-StreamReach : StreamReach (create_stream none none) one_taken
unfolding create_stream on_data_chunk take_line
one_taken-StreamReach =
    next
      (next (next (next here (received (lit "a"))) (received (lit "b\n c")))
        (took all_parse refl refl))
      (went_on refl)

lines_whole_example :
    let end = flush_and_finish (lit "!") one_taken in
    end.taken ++ end.line_queue ≡ trimmed (split_lines (lit "ab\n c!"))
unfolding split_lines one_taken-StreamReach
lines_whole_example = lines_whole none none (lit "!") one_taken-StreamReach tt refl (omega arith)

lines_run :
    let end = flush_and_finish (lit "!") one_taken in
    end.taken ++ end.line_queue ≡ lit "ab" ∷ lit "c!" ∷ []
unfolding flush_and_finish after_line take_line on_data_chunk create_stream
lines_run = refl

waits_for_output_example :
    let s = await_line one_taken in (s.line_queue ≡ []) × (s.done ≡ false) × (s.paused ≡ false)
unfolding await_line after_line take_line on_data_chunk create_stream
waits_for_output_example =
    waits_for_output none none (next one_taken-StreamReach (waits refl refl refl)) refl
