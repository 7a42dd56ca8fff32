-- ===== src/RunState/Content.antt =====
-- The assistant and tool result events of src/card/run-state.ts.
use lark_remote.Common.{
  Text, String, Bool, true, false, List, [], ◌∷◌, ◌++◌, Option, none, some, or_else, is_some,
  length, ltb, last?, take, find_idx?, if◌then◌else◌, str_eq, ◌-◌,
}
use lark_remote.RunState.Types.{
  RunBlock, ToolEntry, ToolStatus, RunState, RunFooter, AssistantContent, ToolResult,
}
use lark_remote.RunState.Marks.{keep_tail_marked}
use lark_remote.RunState.Blocks.{
  first_of, max_reasoning_chars, is_tool, truncate_detail, mark_thinking_inactive,
  keep_latest_blocks, with_capped_blocks,
}

-- The list without its last block.
abbrev pub but_last : List RunBlock → List RunBlock
but_last blocks = take (length blocks - 1) blocks

-- The two ids are both missing or the same.
abbrev pub same_id : Option String → Option String → Bool
same_id none none = true
same_id none (some b) = false
same_id (some a) none = false
same_id (some a) (some b) = str_eq a b

abbrev pub new_thinking : Text → Option String → Option String → List RunBlock → List RunBlock
new_thinking value item_id ts blocks =
    mark_thinking_inactive blocks
    ++ RunBlock.thinking (record {
      item_id = item_id;
      content = keep_tail_marked value max_reasoning_chars;
      active = true;
      timestamp = ts;
      completed_at = none;
    })
      ∷ []

-- The blocks with one more piece of thinking, whose last block was `last`.
unfoldable pub add_thinking :
    Text → Option String → Option String → List RunBlock → Option RunBlock → List RunBlock
add_thinking value item_id ts blocks (some (RunBlock.thinking prev)) =
    if same_id prev.item_id item_id
    then but_last blocks
      ++ RunBlock.thinking (record prev {
        content = keep_tail_marked (prev.content ++ value) max_reasoning_chars;
        active = true;
      })
        ∷ []
    else new_thinking value item_id ts blocks
add_thinking value item_id ts blocks _ = new_thinking value item_id ts blocks

-- The blocks with one more piece of text, whose last block was `last`.
unfoldable pub add_text : Text → Option String → List RunBlock → Option RunBlock → List RunBlock
add_text value ts blocks (some (RunBlock.text prev)) =
    but_last blocks
    ++ RunBlock.text (record {
      item_id = none;
      content = prev.content ++ value;
      timestamp = first_of prev.timestamp ts;
      completed_at = none;
    })
      ∷ []
add_text value ts blocks _ =
    blocks
    ++ RunBlock.text
        (record { item_id = none; content = value; timestamp = ts; completed_at = none })
      ∷ []

abbrev pub has_input : ToolEntry → Bool
has_input t = elim t.parsed_input [ none ↦ false | some keys ↦ ltb 0 (length keys) ]

unfoldable pub merge_tool_use : ToolEntry → ToolEntry → ToolEntry
merge_tool_use existing incoming = record existing {
  input = if has_input incoming then incoming.input else existing.input;
  parsed_input = if has_input incoming then incoming.parsed_input else existing.parsed_input;
  name = elim existing.name [ [] ↦ incoming.name | c ∷ cs ↦ c ∷ cs ];
  summary = first_of incoming.summary existing.summary;
  started_at = first_of existing.started_at incoming.started_at;
}

-- The first tool block with the id is replaced by what `f` makes of its entry.
unfoldable pub update_tool : String → (ToolEntry → ToolEntry) → List RunBlock → List RunBlock
update_tool id f [] = []
update_tool id f (RunBlock.tool t ∷ bs) =
    let rest = update_tool id f bs in
    if str_eq t.id id then RunBlock.tool (f t) ∷ bs else RunBlock.tool t ∷ rest
update_tool id f (b ∷ bs) = b ∷ update_tool id f bs

abbrev pub has_tool : String → List RunBlock → Bool
has_tool id blocks = is_some (find_idx? (is_tool id) blocks)

module _ (as_record : Text → Option (List Text)) where
  abbrev pub incoming_tool : String → Text → Text → Option Text → Option String → ToolEntry
  incoming_tool id name input summary ts = record {
    id = id;
    name = name;
    input = truncate_detail input;
    parsed_input = as_record (truncate_detail input);
    output = none;
    status = ToolStatus.running;
    started_at = ts;
    completed_at = none;
    tool_hint = none;
    summary = summary;
  }

  unfoldable pub add_tool_use : ToolEntry → RunState → RunState
  unfolding with_capped_blocks
  add_tool_use entry next =
      let blocks = mark_thinking_inactive next.blocks in
      if has_tool entry.id blocks
      then record next {
        blocks = keep_latest_blocks (update_tool entry.id (λ t. merge_tool_use t entry) blocks);
        footer = some RunFooter.tool_running;
      }
      else with_capped_blocks next (blocks ++ RunBlock.tool entry ∷ [])
          (some RunFooter.tool_running)

  unfoldable pub add_content : AssistantContent → Option String → RunState → RunState
  unfolding with_capped_blocks add_tool_use add_thinking add_text
  add_content (AssistantContent.thinking value item_id) ts next =
      with_capped_blocks next (add_thinking value item_id ts next.blocks (last? next.blocks))
        (some RunFooter.thinking)
  add_content (AssistantContent.text value) ts next =
      let blocks = mark_thinking_inactive next.blocks in
      with_capped_blocks next (add_text value ts blocks (last? blocks)) (some RunFooter.streaming)
  add_content (AssistantContent.tool_use id name input summary) ts next =
      add_tool_use (incoming_tool id name input summary ts) next

  abbrev pub add_contents : List AssistantContent → Option String → RunState → RunState
  add_contents [] ts next = next
  add_contents (c ∷ cs) ts next = add_contents cs ts (add_content c ts next)

  -- `none` is the state given, with no content.
  unfoldable pub reduce_assistant_event :
      List AssistantContent → Option String → RunState → Option RunState
  unfolding add_content
  reduce_assistant_event [] ts state = none
  reduce_assistant_event (c ∷ cs) ts state = some (add_contents (c ∷ cs) ts state)

abbrev pub is_streaming : Option RunFooter → Bool
is_streaming (some RunFooter.streaming) = true
is_streaming _ = false

abbrev pub with_result : ToolResult → Option String → ToolEntry → ToolEntry
with_result content ts t = record t {
  output = some (truncate_detail content.content);
  status = if content.is_error then ToolStatus.error else ToolStatus.ok;
  completed_at = ts;
}

unfoldable pub add_tool_result : ToolResult → Option String → RunState → Option RunState
add_tool_result content ts next =
    if has_tool content.tool_use_id next.blocks
    then some (record next {
      blocks = update_tool content.tool_use_id (with_result content ts) next.blocks;
      footer = some RunFooter.streaming;
    })
    else if is_streaming next.footer
    then none
    else some (record next { footer = some RunFooter.streaming })

-- The state so far: the one given, until a result changes it.
abbrev pub add_tool_results :
    List ToolResult → Option String → RunState → Option RunState → Option RunState
add_tool_results [] ts state next = next
add_tool_results (c ∷ cs) ts state next =
    add_tool_results cs ts state
      (elim (add_tool_result c ts (or_else next state)) [ none ↦ next | some s ↦ some s ])

unfoldable pub reduce_tool_result_event :
    List ToolResult → Option String → RunState → Option RunState
unfolding add_tool_result
reduce_tool_result_event contents ts state = add_tool_results contents ts state none
