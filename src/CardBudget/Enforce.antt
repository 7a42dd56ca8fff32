-- ===== src/CardBudget/Enforce.antt =====
-- `enforceCardBudget` of src/card/card-budget.ts. How many bytes a card takes,
-- `Buffer.byteLength(JSON.stringify(card), 'utf8')`, is a parameter.
use lark_remote.Common.{
  ℕ, zero, suc, ◌+◌, ◌-◌, Bool, true, false, ◌&&◌, ◌||◌, List, [], ◌∷◌, ◌++◌, length, remove_first,
  leb, ltb, if◌then◌else◌,
}
use lark_remote.CardBudget.Nodes.{CardNode, is_panel, count_card_elements}
use lark_remote.CardBudget.TableCap.{cap_card_markdown_tables}
use lark_remote.CardBudget.Budget.{
  max_card_elements, feishu_max_tables, card_budget_bytes, BudgetReason, table_count_limited,
  element_budget_panels_dropped, element_budget_elements_dropped, extreme_fallback,
  CardBudgetOptions, BudgetResult, BudgetContext, make_context, push_reason, panel_count,
  with_elements, truncate_panel_contents, limit_panel_count, drop_all_panels,
  truncate_top_level_divs, shift_excess, insert_omitted_hint, minimal_card,
}

-- The loop of stage 1 of `enforceElementBudget`: the oldest panel goes while there are too many
-- elements and a panel is left. The fuel is the number of panels.
unfoldable pub drop_panels_while : ℕ → CardNode → CardNode
unfolding count_card_elements
drop_panels_while zero card = card
drop_panels_while (suc fuel) card =
    let further =
      drop_panels_while fuel (with_elements (remove_first is_panel card.elements) card) in
    if ltb max_card_elements (count_card_elements card) && ltb 0 (panel_count card.elements)
    then further
    else card

module _ (bytes_of : CardNode → ℕ) where
  unfoldable pub fits_budget : CardNode → Bool
  unfolding count_card_elements
  fits_budget card =
      leb (bytes_of card) card_budget_bytes && leb (count_card_elements card) max_card_elements

  unfoldable pub byte_budget_fits : BudgetContext → Bool
  unfolding count_card_elements
  byte_budget_fits ctx =
      leb (bytes_of ctx.truncated) card_budget_bytes
      && leb (count_card_elements ctx.truncated + (if ltb 0 ctx.omitted then 1 else 0))
          max_card_elements

  -- `byteBudgetDone` behind `insertOmittedHint`.
  unfoldable pub byte_budget_done : BudgetContext → Bool → BudgetResult
  unfolding insert_omitted_hint
  byte_budget_done ctx was_truncated =
      let card = insert_omitted_hint ctx.omitted ctx.truncation_hint ctx.truncated in
      record {
        card = card;
        was_truncated = was_truncated;
        reasons = ctx.reasons;
        bytes_before = ctx.bytes_before;
        bytes_after = bytes_of card;
      }

  unfoldable pub byte_budget_minimal_card : BudgetContext → BudgetResult
  byte_budget_minimal_card ctx = record {
    card = minimal_card;
    was_truncated = true;
    reasons = extreme_fallback ∷ [];
    bytes_before = ctx.bytes_before;
    bytes_after = bytes_of minimal_card;
  }

  -- `byteBudgetTryFinish`, and what is done if the card does not fit.
  unfoldable pub finish_or : BudgetContext → Bool → BudgetResult → BudgetResult
  unfolding byte_budget_fits byte_budget_done
  finish_or ctx was_truncated rest =
      if byte_budget_fits ctx then byte_budget_done ctx was_truncated else rest

  -- The elements that stage 4.5 leaves.
  unfoldable pub shift_elements : BudgetContext → BudgetContext
  unfolding count_card_elements
  shift_elements ctx =
      let left = shift_excess ctx.truncated ctx.truncated.elements in
      record ctx {
        truncated = with_elements left ctx.truncated;
        omitted = ctx.omitted + (length ctx.truncated.elements - length left);
        reasons = ctx.reasons ++ element_budget_elements_dropped ∷ [];
      }

  unfoldable pub drop_excess_elements : BudgetContext → BudgetResult
  unfolding count_card_elements finish_or shift_elements byte_budget_minimal_card
  drop_excess_elements ctx =
      if ltb max_card_elements (count_card_elements ctx.truncated)
      then finish_or (shift_elements ctx) true (byte_budget_minimal_card (shift_elements ctx))
      else byte_budget_minimal_card ctx

  unfoldable pub enforce_byte_budget : CardNode → CardBudgetOptions → ℕ → BudgetResult
  unfolding make_context truncate_panel_contents limit_panel_count drop_all_panels
      truncate_top_level_divs finish_or drop_excess_elements
  enforce_byte_budget card opts bytes_before =
      let limited =
        limit_panel_count (truncate_panel_contents (make_context card opts bytes_before)) in
      let without_panels = drop_all_panels limited in
      let cut = truncate_top_level_divs without_panels in
      finish_or limited (ltb 0 limited.modifications || ltb 0 limited.omitted)
        (finish_or without_panels true (finish_or cut true (drop_excess_elements cut)))

  -- The card as it is, if it fits.
  unfoldable pub kept_or : CardNode → Bool → List BudgetReason → ℕ → BudgetResult → BudgetResult
  unfolding fits_budget
  kept_or card was_truncated reasons bytes_before rest =
      if fits_budget card
      then record {
        card = card;
        was_truncated = was_truncated;
        reasons = reasons;
        bytes_before = bytes_before;
        bytes_after = bytes_of card;
      }
      else rest

  unfoldable pub enforce_element_budget : CardNode → CardBudgetOptions → ℕ → BudgetResult
  unfolding drop_panels_while kept_or enforce_byte_budget
  enforce_element_budget card opts bytes_before =
      let left = drop_panels_while (panel_count card.elements) card in
      let dropped = ltb (panel_count left.elements) (panel_count card.elements) in
      kept_or left true (push_reason dropped element_budget_panels_dropped []) bytes_before
        (enforce_byte_budget left opts bytes_before)

  -- Where no table had to go: `capped` is the parsed copy of the card.
  unfoldable pub enforce_without_tables : CardNode → CardNode → CardBudgetOptions → BudgetResult
  unfolding kept_or enforce_element_budget
  enforce_without_tables card capped opts = kept_or card false [] (bytes_of card) (
      if leb (bytes_of card) card_budget_bytes && ltb max_card_elements (count_card_elements card)
      then enforce_element_budget capped opts (bytes_of card)
      else enforce_byte_budget card opts (bytes_of card))

  unfoldable pub enforce_card_budget : CardNode → CardBudgetOptions → BudgetResult
  unfolding cap_card_markdown_tables enforce_without_tables
  enforce_card_budget card opts =
      let (capped, dropped) = cap_card_markdown_tables card feishu_max_tables in
      if ltb 0 dropped
      then kept_or capped true (table_count_limited ∷ []) (bytes_of card)
          (enforce_element_budget capped opts (bytes_of card))
      else enforce_without_tables card capped opts
