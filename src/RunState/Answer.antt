-- ===== src/RunState/Answer.antt =====
-- The final answer and the result of a run in src/card/run-state.ts.
use lark_remote.Common.{
  ℕ, Text, lit, String, Bool, true, false, List, [], ◌∷◌, ◌++◌, filter, Option, none, some, or_else,
  not, if◌then◌else◌, str_eq, trim,
}
use lark_remote.RunState.Types.{
  RunBlock, RunState, RunFooter, RunTerminal, FinalAnswer, AnswerSource, ResultSubtype,
}
use lark_remote.RunState.Blocks.{first_of, split_last, mark_thinking_inactive}

abbrev pub is_blank : Text → Bool
is_blank value = elim (trim value) [ [] ↦ true | c ∷ cs ↦ false ]

-- The text of a block that can be the answer.
abbrev pub is_answer : RunBlock → Bool
is_answer (RunBlock.text b) = not (is_blank b.content)
is_answer _ = false

abbrev pub non_blank : Option Text → Option Text
non_blank none = none
non_blank (some value) = if is_blank value then none else some value

abbrev pub answer_from : Option Text → AnswerSource → RunBlock → Option FinalAnswer
answer_from full source (RunBlock.text b) = some (record {
  content = or_else full b.content;
  timestamp = b.timestamp;
  complete = true;
  source = source;
})
answer_from full source _ = none

unfoldable pub promote_final_answer : RunState → AnswerSource → Option Text → RunState
promote_final_answer state source authoritative = elim state.final_answer [
  | some answer ↦
      if answer.complete
      then state
      else record state { final_answer = some (record answer { complete = true }) }
  | none ↦ elim (split_last is_answer state.blocks) [
    | some (before, found, behind) ↦ record state {
      blocks = before ++ behind;
      final_answer = answer_from (non_blank authoritative) source found;
    }
    | none ↦ elim (non_blank authoritative) [
      | none ↦ state
      | some full ↦ record state {
        final_answer =
            some (record { content = full; timestamp = none; complete = true; source = source });
      }
    ]
  ]
]

abbrev pub merge_subtype : Option ResultSubtype → ResultSubtype → ResultSubtype
merge_subtype (some ResultSubtype.error) incoming = ResultSubtype.error
merge_subtype _ ResultSubtype.error = ResultSubtype.error
merge_subtype (some ResultSubtype.interrupted) incoming = ResultSubtype.interrupted
merge_subtype _ ResultSubtype.interrupted = ResultSubtype.interrupted
merge_subtype _ ResultSubtype.success = ResultSubtype.success

abbrev pub incoming_error : ResultSubtype → Option Text → Option Text
incoming_error ResultSubtype.error message = some (or_else message (lit "Agent 返回错误结果"))
incoming_error _ message = none

-- A result that comes before the session has an id is from an earlier turn.
unfoldable pub reduce_result_event :
    ResultSubtype → Option Text → Option Text → Option ℕ → RunState → Option RunState
unfolding promote_final_answer
reduce_result_event subtype error_message final_text cost state = elim state.session_id [
  | none ↦ none
  | some id ↦
      let with_answer = promote_final_answer state AnswerSource.inferred final_text in
      some (record with_answer {
        terminal = RunTerminal.finalizing;
        footer = none;
        blocks = mark_thinking_inactive with_answer.blocks;
        result_subtype = some (merge_subtype with_answer.result_subtype subtype);
        error_msg = first_of with_answer.error_msg (incoming_error subtype error_message);
        cost_usd = first_of with_answer.cost_usd cost;
      })
]

abbrev pub is_copy : String → RunBlock → Bool
is_copy item (RunBlock.text b) = elim b.item_id [ none ↦ false | some id ↦ str_eq id item ]
is_copy item _ = false

-- An item id that is missing or empty names no block.
abbrev pub without_copy : Option String → List RunBlock → List RunBlock
without_copy none blocks = blocks
without_copy (some item) blocks =
    if str_eq item "" then blocks else filter (λ b. not (is_copy item b)) blocks

abbrev pub answer_content : Text → Option FinalAnswer → Text
answer_content value before =
    if is_blank value then elim before as (λ _. Text) [ none ↦ [] | some a ↦ a.content ] else value

unfoldable pub reduce_final_answer_event :
    Text → Option String → Option Bool → Option String → RunState → Option RunState
reduce_final_answer_event value item_id complete ts state =
    let before = state.final_answer in
    let next = record state {
      blocks = without_copy item_id state.blocks;
      final_answer = some (record {
        content = answer_content value before;
        timestamp = elim before as (λ _. Option String) [
          | none ↦ ts
          | some a ↦ first_of a.timestamp ts
        ];
        complete =
            or_else complete (elim before as (λ _. Bool) [ none ↦ false | some a ↦ a.complete ]);
        source = AnswerSource.protocol;
      });
      footer = some RunFooter.streaming;
    } in
    if is_blank value then elim before [ none ↦ none | some a ↦ some next ] else some next
