-- ===== src/RunState/Tools.antt =====
-- A tool call on the card: its result is not undone by a late report of the call.
use lark_remote.Common.{
  ◌≤◌, Text, String, true, false, List, [], ◌∷◌, Option, none, some, is_some, length, any, ◌≡◌,
  refl, ap, ◌∙◌, arith, str_eq, if◌then◌else◌, Bool-cases, inl, inr,
}
use lark_remote.RunState.Types.{RunBlock, ToolEntry, RunState, AgentEvent, AssistantContent}
use lark_remote.RunState.Blocks.{
  max_blocks, is_text, is_run_terminal, mark_thinking_inactive, keep_latest_blocks,
  cap_stale_text_blocks,
}
use lark_remote.RunState.Content.{
  update_tool, has_tool, merge_tool_use, incoming_tool, add_tool_use, add_content,
  reduce_assistant_event,
}
use lark_remote.RunState.Reduce.{reduce_event, reduce_run_state_inner, reduce_run_state}
use lark_remote.RunState.Bounds.{IsCapped, length-quiet, length-update_tool}

-- The entry of the first tool block with the id.
abbrev pub find_tool : String → List RunBlock → Option ToolEntry
find_tool id [] = none
find_tool id (RunBlock.tool t ∷ bs) =
    let rest = find_tool id bs in if str_eq t.id id then some t else rest
find_tool id (b ∷ bs) = find_tool id bs

find-quiet :
    (id : String) (bs : List RunBlock) → find_tool id (mark_thinking_inactive bs) ≡ find_tool id bs
unfolding mark_thinking_inactive
find-quiet id [] = refl
find-quiet id (RunBlock.tool t ∷ bs) = rw (find-quiet id bs) refl
find-quiet id (RunBlock.thinking b ∷ bs) = find-quiet id bs
find-quiet id (RunBlock.text b ∷ bs) = find-quiet id bs
find-quiet id (RunBlock.plan b ∷ bs) = find-quiet id bs
find-quiet id (RunBlock.file_change b ∷ bs) = find-quiet id bs

find-cap :
    (id : String) (bs : List RunBlock) → find_tool id (cap_stale_text_blocks bs) ≡ find_tool id bs
unfolding cap_stale_text_blocks
find-cap id [] = refl
find-cap id (RunBlock.tool t ∷ bs) = rw (find-cap id bs) refl
find-cap id (RunBlock.thinking b ∷ bs) = find-cap id bs
find-cap id (RunBlock.text b ∷ bs) = elim (Bool-cases (any is_text bs)) [
  | inl e ↦ rw (e, cap_stale_text_blocks) (find-cap id bs)
  | inr e ↦ rw (e, cap_stale_text_blocks) (find-cap id bs)
]
find-cap id (RunBlock.plan b ∷ bs) = find-cap id bs
find-cap id (RunBlock.file_change b ∷ bs) = find-cap id bs

find-update :
    (id : String) (f : ToolEntry → ToolEntry) (bs : List RunBlock) (old : ToolEntry)
    → ((t : ToolEntry) → (f t).id ≡ t.id)
    → find_tool id bs ≡ some old
    → find_tool id (update_tool id f bs) ≡ some (f old)
unfolding update_tool
find-update id f [] old h e = ground arith
find-update id f (RunBlock.tool t ∷ bs) old h e = elim (Bool-cases (str_eq t.id id)) [
  | inl here ↦
      let again : str_eq (f t).id id ≡ true = ap (λ x. str_eq x id) (h t) ∙ here in
      rw (here, update_tool, again)
        (ap (λ o. elim o as (λ _. Option ToolEntry) [ none ↦ none | some x ↦ some (f x) ])
          (rw here at e))
  | inr there ↦ rw (there, update_tool) (rw there (find-update id f bs old h (rw there at e)))
]
find-update id f (RunBlock.thinking b ∷ bs) old h e = find-update id f bs old h e
find-update id f (RunBlock.text b ∷ bs) old h e = find-update id f bs old h e
find-update id f (RunBlock.plan b ∷ bs) old h e = find-update id f bs old h e
find-update id f (RunBlock.file_change b ∷ bs) old h e = find-update id f bs old h e

has-find : (id : String) (bs : List RunBlock) → has_tool id bs ≡ is_some (find_tool id bs)
has-find id [] = refl
has-find id (RunBlock.tool t ∷ bs) = ground (arith, has-find id bs)
has-find id (RunBlock.thinking b ∷ bs) = ground (arith, has-find id bs)
has-find id (RunBlock.text b ∷ bs) = ground (arith, has-find id bs)
has-find id (RunBlock.plan b ∷ bs) = ground (arith, has-find id bs)
has-find id (RunBlock.file_change b ∷ bs) = ground (arith, has-find id bs)

merge-id : (t incoming : ToolEntry) → (merge_tool_use t incoming).id ≡ t.id
unfolding merge_tool_use
merge-id t incoming = refl

keep-all : (bs : List RunBlock) → length bs ≤ max_blocks → keep_latest_blocks bs ≡ bs
unfolding keep_latest_blocks
keep-all bs h = ground arith

merge-keeps :
    (t incoming : ToolEntry)
    → let m = merge_tool_use t incoming in
      (m.status ≡ t.status) × (m.output ≡ t.output) × (m.completed_at ≡ t.completed_at)
unfolding merge_tool_use
merge-keeps t incoming = (refl, refl, refl)

module _ (as_record : Text → Option (List Text)) where
  abbrev pub tool_report : String → Text → Text → Option Text → Option String → AgentEvent
  tool_report id name input summary ts =
      AgentEvent.assistant (AssistantContent.tool_use id name input summary ∷ []) ts

  add-find :
      (t : ToolEntry) (s : RunState) (old : ToolEntry)
      → IsCapped s
      → find_tool t.id s.blocks ≡ some old
      → find_tool t.id (add_tool_use as_record t s).blocks ≡ some (merge_tool_use old t)
  unfolding add_tool_use
  add-find t s old h e =
      let quiet = mark_thinking_inactive s.blocks in
      let found : find_tool t.id quiet ≡ some old = find-quiet t.id s.blocks ∙ e in
      let present : has_tool t.id quiet ≡ true = has-find t.id quiet ∙ ap is_some found in
      let merged = update_tool t.id (λ x. merge_tool_use x t) quiet in
      rw
        (
          present,
          add_tool_use,
          keep-all merged (
              omega (
                arith,
                length-update_tool t.id (λ x. merge_tool_use x t) quiet,
                length-quiet s.blocks,
              )),
        )
        (find-update t.id (λ x. merge_tool_use x t) quiet old (λ x. merge-id x t) found)

  report-reduce :
      (id : String) (name input : Text) (summary : Option Text) (ts : Option String) (s : RunState)
      → is_run_terminal s.terminal ≡ false
      → let t = add_tool_use as_record (incoming_tool as_record id name input summary ts) s in
        reduce_run_state as_record s (tool_report id name input summary ts)
        ≡ record t { blocks = cap_stale_text_blocks t.blocks }
  unfolding reduce_run_state reduce_run_state_inner reduce_event reduce_assistant_event add_content
  report-reduce id name input summary ts s h = rw (h, reduce_run_state) refl

  -- A later report of a tool call that an open card already shows, whether its result has come or
  -- not, leaves the entry's status, its output and its time of completion as they are.
  pub late_tool_report :
      (id : String) (name input : Text) (summary : Option Text) (ts : Option String) (s : RunState)
      (old : ToolEntry)
      → is_run_terminal s.terminal ≡ false
      → IsCapped s
      → find_tool id s.blocks ≡ some old
      → (new : ToolEntry) × (find_tool id
            (reduce_run_state as_record s (tool_report id name input summary ts)).blocks
          ≡ some new)
        × (new.status ≡ old.status)
        × (new.output ≡ old.output)
        × (new.completed_at ≡ old.completed_at)
  late_tool_report id name input summary ts s old a h e =
      let incoming = incoming_tool as_record id name input summary ts in
      (
        merge_tool_use old incoming,
        rw (report-reduce id name input summary ts s a)
            (find-cap id (add_tool_use as_record incoming s).blocks ∙ add-find incoming s old h e),
        (merge-keeps old incoming).0,
        (merge-keeps old incoming).1,
        (merge-keeps old incoming).2,
      )
