-- ===== src/RunState/Bounds.antt =====
-- The block list of a run card stays within its cap: the parts of an event.
use lark_remote.Common.{
  ℕ, ◌+◌, ◌-◌, ◌≤◌, Text, String, Bool, List, [], ◌∷◌, ◌++◌, Option, none, some, ◌≡◌, refl, arith,
  length, length-append, length-drop, length-filter-le, length-map, Option-cases, inl, inr, not,
}
use lark_remote.RunState.Types.{
  RunBlock, RunState, RunFooter, AnswerSource, TurnDiff, ToolEntry, ToolResult, ResultSubtype,
}
use lark_remote.RunState.Blocks.{
  max_blocks, keep_latest_blocks, with_capped_blocks, cap_stale_text_blocks, mark_thinking_inactive,
  split_last,
}
use lark_remote.RunState.TurnDiff.{
  apply_text_diff, apply_reasoning_diff, apply_plan_diff, apply_file_changes_diff, apply_next,
}
use lark_remote.RunState.Content.{update_tool, add_tool_result, add_tool_results, with_result}
use lark_remote.RunState.Answer.{
  promote_final_answer, reduce_result_event, reduce_final_answer_event, is_answer, is_copy,
}

abbrev pub IsCapped : RunState → Type 0
IsCapped s = length s.blocks ≤ max_blocks

abbrev pub CappedOption : Option RunState → Type 0
CappedOption none = Unit
CappedOption (some s) = IsCapped s

-- The cap drops the oldest blocks and counts them: none is lost uncounted.
pub with_capped_blocks_lem :
    (s : RunState) (blocks : List RunBlock) (footer : Option RunFooter)
    → let t = with_capped_blocks s blocks footer in
      IsCapped t × (t.omitted_blocks + length t.blocks ≡ s.omitted_blocks + length blocks)
unfolding with_capped_blocks keep_latest_blocks
with_capped_blocks_lem s blocks footer =
    ground (arith, length-drop (length blocks - max_blocks) blocks)

pub length-cap : (bs : List RunBlock) → length (cap_stale_text_blocks bs) ≡ length bs
unfolding cap_stale_text_blocks
length-cap [] = refl
length-cap (b ∷ bs) = omega (arith, length-cap bs)

pub length-quiet : (bs : List RunBlock) → length (mark_thinking_inactive bs) ≡ length bs
unfolding mark_thinking_inactive
length-quiet bs = length-map _ bs

pub length-update_tool :
    (id : String) (f : ToolEntry → ToolEntry) (bs : List RunBlock)
    → length (update_tool id f bs) ≡ length bs
unfolding update_tool
length-update_tool id f [] = refl
length-update_tool id f (RunBlock.tool t ∷ bs) = ground (arith, length-update_tool id f bs)
length-update_tool id f (RunBlock.thinking b ∷ bs) = omega (arith, length-update_tool id f bs)
length-update_tool id f (RunBlock.text b ∷ bs) = omega (arith, length-update_tool id f bs)
length-update_tool id f (RunBlock.plan b ∷ bs) = omega (arith, length-update_tool id f bs)
length-update_tool id f (RunBlock.file_change b ∷ bs) = omega (arith, length-update_tool id f bs)

-- The found block and what is on its two sides make up the list.
abbrev Halves : List RunBlock → Option (List RunBlock × RunBlock × List RunBlock) → Type 0
Halves bs none = Unit
Halves bs (some (before, found, behind)) = bs ≡ before ++ found ∷ behind

pub split_last-Halves : (p : RunBlock → Bool) (bs : List RunBlock) → Halves bs (split_last p bs)
split_last-Halves p [] = tt
split_last-Halves p (b ∷ bs) = ground (arith, split_last-Halves p bs)

removed-le :
    (bs before : List RunBlock) (found : RunBlock) (behind : List RunBlock)
    → bs ≡ before ++ found ∷ behind
    → length (before ++ behind) ≤ length bs
removed-le bs before found behind e =
    rw e (omega (arith, length-append before (found ∷ behind), length-append before behind))

pub promote-le :
    (s : RunState) (source : AnswerSource) (full : Option Text)
    → length (promote_final_answer s source full).blocks ≤ length s.blocks
unfolding promote_final_answer
promote-le s source full = elim (Option-cases (split_last is_answer s.blocks)) [
  | inl e ↦ ground arith
  | inr ((before, found, behind), e) ↦ ground (
    arith,
    removed-le s.blocks before found behind (rw e at (split_last-Halves is_answer s.blocks)),
  )
]

promote-IsCapped :
    (s : RunState) (source : AnswerSource) (full : Option Text)
    → IsCapped s
    → IsCapped (promote_final_answer s source full)
unfolding promote_final_answer
promote-IsCapped s source full h = omega (arith, promote-le s source full)

pub keep_latest-le : (bs : List RunBlock) → length (keep_latest_blocks bs) ≤ max_blocks
unfolding keep_latest_blocks
keep_latest-le bs = ground (arith, length-drop (length bs - max_blocks) bs)

pub with_capped_blocks-le :
    (s : RunState) (bs : List RunBlock) (footer : Option RunFooter)
    → IsCapped (with_capped_blocks s bs footer)
with_capped_blocks-le s bs footer = (with_capped_blocks_lem s bs footer).0

pub text-Capped : (event : TurnDiff) (s : RunState) → CappedOption (apply_text_diff event s)
unfolding apply_text_diff
text-Capped event s = elim (Option-cases event.text) [
  | inl e ↦ rw (e, apply_text_diff) tt
  | inr (value, e) ↦ rw (e, apply_text_diff) (search with_capped_blocks-le)
]

pub reasoning-Capped :
    (event : TurnDiff) (s : RunState) → CappedOption (apply_reasoning_diff event s)
unfolding apply_reasoning_diff
reasoning-Capped event s = elim (Option-cases event.reasoning) [
  | inl e ↦ rw (e, apply_reasoning_diff) tt
  | inr (value, e) ↦ rw (e, apply_reasoning_diff) (search with_capped_blocks-le)
]

pub plan-Capped : (event : TurnDiff) (s : RunState) → CappedOption (apply_plan_diff event s)
unfolding apply_plan_diff
plan-Capped event s = elim (Option-cases event.plan) [
  | inl e ↦ rw (e, apply_plan_diff) tt
  | inr (value, e) ↦ rw (e, apply_plan_diff) (search with_capped_blocks-le)
]

pub changes-Capped :
    (event : TurnDiff) (s : RunState) → CappedOption (apply_file_changes_diff event s)
unfolding apply_file_changes_diff
changes-Capped event s = elim (Option-cases event.file_changes) [
  | inl e ↦ rw (e, apply_file_changes_diff) tt
  | inr (value, e) ↦ rw (e, apply_file_changes_diff) (search with_capped_blocks-le)
]

pub then-Capped :
    (s : RunState) (next : Option RunState) (f : RunState → Option RunState)
    → ((t : RunState) → CappedOption (f t))
    → CappedOption next
    → CappedOption (apply_next f s next)
then-Capped s none f h k = ground (arith, h s)
then-Capped s (some t) f h k = ground (arith, h t)

result-Capped :
    (c : ToolResult) (ts : Option String) (s : RunState)
    → IsCapped s
    → CappedOption (add_tool_result c ts s)
unfolding add_tool_result
result-Capped c ts s h =
    ground (arith, length-update_tool c.tool_use_id (with_result c ts) s.blocks)

pub results-Capped :
    (cs : List ToolResult) (ts : Option String) (s : RunState) (next : Option RunState)
    → IsCapped s
    → CappedOption next
    → CappedOption (add_tool_results cs ts s next)
results-Capped [] ts s next h k = k
results-Capped (c ∷ cs) ts s none h k =
    results-Capped cs ts s _ h (ground (arith, result-Capped c ts s h))
results-Capped (c ∷ cs) ts s (some t) h k =
    results-Capped cs ts s _ h (ground (arith, result-Capped c ts t k))

pub final-Capped :
    (value : Text) (item_id : Option String) (complete : Option Bool) (ts : Option String)
    (s : RunState)
    → IsCapped s
    → CappedOption (reduce_final_answer_event value item_id complete ts s)
unfolding reduce_final_answer_event
final-Capped value none complete ts s h = ground arith
final-Capped value (some item) complete ts s h =
    ground (arith, length-filter-le (λ b. not (is_copy item b)) s.blocks)

pub result_event-Capped :
    (subtype : ResultSubtype) (message final_text : Option Text) (cost : Option ℕ) (s : RunState)
    → IsCapped s
    → CappedOption (reduce_result_event subtype message final_text cost s)
unfolding reduce_result_event
result_event-Capped subtype message final_text cost s h = elim (Option-cases s.session_id) [
  | inl e ↦ rw (e, reduce_result_event) tt
  | inr (id, e) ↦
      rw (e, reduce_result_event)
        (omega (
          arith,
          promote-le s AnswerSource.inferred final_text,
          length-quiet (promote_final_answer s AnswerSource.inferred final_text).blocks,
        ))
]
