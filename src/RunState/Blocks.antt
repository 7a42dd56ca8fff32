-- ===== src/RunState/Blocks.antt =====
-- The block list of src/card/run-state.ts: its windows, its cap and the upsert of a snapshot.
use lark_remote.Common.{
  ℕ, ◌+◌, ◌-◌, Text, lit, String, Bool, true, false, ◌&&◌, List, [], ◌∷◌, ◌++◌, map, Option, none,
  some, length, leb, take, take_last, any, if◌then◌else◌, str_eq, Text,
}
use lark_remote.RunState.Types.{RunBlock, RunState, RunFooter, RunTerminal}
use lark_remote.RunState.Marks.{keep_tail_marked}

-- `a ?? b`, of two values that may be missing.
abbrev pub first_of {ℓ} : {A : Type ℓ} → Option A → Option A → Option A
first_of none b = b
first_of (some a) b = some a

abbrev pub max_reasoning_chars : ℕ
max_reasoning_chars = 4000

abbrev pub max_text_chars : ℕ
max_text_chars = 12000

abbrev pub max_tool_detail_chars : ℕ
max_tool_detail_chars = 3000

abbrev pub max_blocks : ℕ
max_blocks = 24

unfoldable pub is_run_terminal : RunTerminal → Bool
is_run_terminal RunTerminal.running = false
is_run_terminal RunTerminal.finalizing = false
is_run_terminal RunTerminal.done = true
is_run_terminal RunTerminal.error = true
is_run_terminal RunTerminal.interrupted = true
is_run_terminal RunTerminal.idle_timeout = true
is_run_terminal RunTerminal.goal_continuing = true

abbrev pub is_text : RunBlock → Bool
is_text (RunBlock.text b) = true
is_text _ = false

abbrev pub is_plan : RunBlock → Bool
is_plan (RunBlock.plan b) = true
is_plan _ = false

-- The id of a tool block.
abbrev pub is_tool : String → RunBlock → Bool
is_tool id (RunBlock.tool t) = str_eq t.id id
is_tool id _ = false

unfoldable pub truncate_detail : Text → Text
truncate_detail value =
    if leb (length value) max_tool_detail_chars
    then value
    else take max_tool_detail_chars value ++ lit "…（已截断）"

abbrev pub quieten : RunBlock → RunBlock
quieten (RunBlock.thinking b) = RunBlock.thinking (record b { active = false })
quieten b = b

unfoldable pub mark_thinking_inactive : List RunBlock → List RunBlock
mark_thinking_inactive blocks = map quieten blocks

unfoldable pub keep_latest_blocks : List RunBlock → List RunBlock
keep_latest_blocks blocks =
    if leb (length blocks) max_blocks then blocks else take_last max_blocks blocks

-- The count of the blocks that were dropped starts at 0, where the source leaves it out.
unfoldable pub with_capped_blocks : RunState → List RunBlock → Option RunFooter → RunState
unfolding keep_latest_blocks
with_capped_blocks next blocks footer = record next {
  blocks = keep_latest_blocks blocks;
  omitted_blocks = next.omitted_blocks + (length blocks - max_blocks);
  footer = elim footer [ none ↦ next.footer | some f ↦ some f ];
}

abbrev pub window_text : RunBlock → RunBlock
window_text (RunBlock.text b) =
    RunBlock.text (record b { content = keep_tail_marked b.content max_text_chars })
window_text b = b

-- A text block that a later text block follows is windowed; the newest one is not.
unfoldable pub cap_stale_text_blocks : List RunBlock → List RunBlock
cap_stale_text_blocks [] = []
cap_stale_text_blocks (b ∷ bs) =
    let rest = cap_stale_text_blocks bs in
    (if is_text b && any is_text bs then window_text b else b) ∷ rest

-- The last block of a list that passes the test, with the blocks before and behind it.
abbrev pub split_last :
    (RunBlock → Bool) → List RunBlock → Option (List RunBlock × RunBlock × List RunBlock)
split_last p [] = none
split_last p (b ∷ bs) =
    elim (split_last p bs) as (λ _. Option (List RunBlock × RunBlock × List RunBlock)) [
      | some (before, found, behind) ↦ some (b ∷ before, found, behind)
      | none ↦ if p b then some ([], b, bs) else none
    ]

-- The found block in its place, or at the end when it moves.
abbrev pub put_back : Bool → List RunBlock → RunBlock → List RunBlock → List RunBlock
put_back move before b behind = if move then before ++ (behind ++ b ∷ []) else before ++ b ∷ behind

unfoldable pub upsert_snapshot_block :
    List RunBlock → (RunBlock → Bool) → RunBlock → (RunBlock → RunBlock) → Bool → List RunBlock
upsert_snapshot_block blocks predicate fallback update move_to_end =
    elim (split_last predicate blocks) [
      | some (before, found, behind) ↦ put_back move_to_end before (update found) behind
      | none ↦ blocks ++ fallback ∷ []
    ]
