-- ===== src/CardBudget/Budget.antt =====
-- The stages of `enforceByteBudget` of src/card/card-budget.ts.
use lark_remote.Common.{
  ℕ, zero, suc, ◌+◌, ◌-◌, Bool, true, false, ◌&&◌, List, [], ◌∷◌, ◌++◌, map, length, filter, Option,
  none, some, or_else, ltb, ◌==◌, if◌then◌else◌, str_eq, strip_prefix?, min,
}
use lark_remote.Common.Lines.{points}
use lark_remote.RunState.Decimal.{print}
use lark_remote.Truncate.{size, measure, truncate_utf8}
use lark_remote.CardBudget.Nodes.{
  OtherFields, CardText, ElementHead, CardElement, element, Elements, no_elements, more_elements,
  no_columns, CardNode, head_of, is_panel, count_card_elements,
}

abbrev pub max_card_elements : ℕ
max_card_elements = 90

abbrev pub feishu_max_tables : ℕ
feishu_max_tables = 5

abbrev pub card_budget_bytes : ℕ
card_budget_bytes = 28000

pub data BudgetReason : Type 0 where
  table_count_limited element_budget_panels_dropped panel_content_truncated : BudgetReason
  event_count_limited panels_dropped text_truncated : BudgetReason
  element_budget_elements_dropped extreme_fallback : BudgetReason

pub record CardBudgetOptions : Type 0 where
  pub max_event_panels : Option ℕ
  pub max_panel_content_bytes : Option ℕ
  pub truncation_hint : Option (List ℕ)

pub record BudgetResult : Type 0 where
  pub card : CardNode
  pub was_truncated : Bool
  pub reasons : List BudgetReason
  pub bytes_before : ℕ
  pub bytes_after : ℕ

-- `ByteBudgetContext`.
pub record BudgetContext : Type 0 where
  pub truncated : CardNode
  pub reasons : List BudgetReason
  pub omitted : ℕ
  pub modifications : ℕ
  pub text_truncations : ℕ
  pub max_event_panels : ℕ
  pub max_panel_content_bytes : ℕ
  pub truncation_hint : List ℕ
  pub bytes_before : ℕ

unfoldable pub make_context : CardNode → CardBudgetOptions → ℕ → BudgetContext
make_context card opts bytes = record {
  truncated = card;
  reasons = [];
  omitted = 0;
  modifications = 0;
  text_truncations = 0;
  max_event_panels = or_else opts.max_event_panels 5;
  max_panel_content_bytes = or_else opts.max_panel_content_bytes 2000;
  truncation_hint = or_else opts.truncation_hint (points "📜 还有 {count} 个事件未显示");
  bytes_before = bytes;
}

abbrev pub push_reason : Bool → BudgetReason → List BudgetReason → List BudgetReason
push_reason b reason reasons = if b then reasons ++ reason ∷ [] else reasons

-- `getPanelIndices(elements).length`.
abbrev pub panel_count : List CardElement → ℕ
panel_count es = length (filter is_panel es)

-- `dropOldestPanels`: without the first `count` panels.
abbrev pub drop_oldest_panels : ℕ → List CardElement → List CardElement
drop_oldest_panels count [] = []
drop_oldest_panels zero (e ∷ es) = e ∷ es
drop_oldest_panels (suc n) (e ∷ es) =
    let dropped = drop_oldest_panels n es in
    let kept = e ∷ drop_oldest_panels (suc n) es in if is_panel e then dropped else kept

abbrev pub with_elements : List CardElement → CardNode → CardNode
with_elements es card = record card { elements = es }

-- A text over the limit, truncated, and whether it was.
abbrev pub is_long : ℕ → Option CardText → Bool
is_long limit none = false
is_long limit (some text) = ltb limit (measure size text.content)

abbrev pub cut_text : ℕ → Option CardText → Option CardText
cut_text limit none = none
cut_text limit (some text) =
    some record text { content = truncate_utf8 text.content limit false (points "…（已截断）") }

abbrev pub is_long_div : ℕ → ElementHead → Bool
is_long_div limit head = str_eq head.tag "div" && is_long limit head.text

abbrev pub cut_div : ℕ → CardElement → CardElement
cut_div limit (element head inner cols) =
    if is_long_div limit head
    then element (record head { text = cut_text limit head.text }) inner cols
    else element head inner cols

abbrev pub cut_divs : ℕ → Elements → Elements
cut_divs limit no_elements = no_elements
cut_divs limit (more_elements e es) = more_elements (cut_div limit e) (cut_divs limit es)

abbrev pub count_if : Bool → ℕ
count_if true = 1
count_if false = 0

abbrev pub long_divs : ℕ → Elements → ℕ
long_divs limit no_elements = 0
long_divs limit (more_elements e es) = count_if (is_long_div limit (head_of e)) + long_divs limit es

abbrev pub inner_of : CardElement → Elements
inner_of (element head inner cols) = inner

abbrev pub cut_panel : ℕ → CardElement → CardElement
cut_panel limit (element head inner cols) =
    if str_eq head.tag "collapsible_panel"
    then element head (cut_divs limit inner) cols
    else element head inner cols

abbrev pub cut_in_panels : ℕ → List CardElement → ℕ
cut_in_panels limit [] = 0
cut_in_panels limit (e ∷ es) =
    (if is_panel e then long_divs limit (inner_of e) else 0) + cut_in_panels limit es

abbrev cut_at_top : ℕ → List CardElement → ℕ
cut_at_top limit [] = 0
cut_at_top limit (e ∷ es) = count_if (is_long_div limit (head_of e)) + cut_at_top limit es

-- Stage 1.
unfoldable pub truncate_panel_contents : BudgetContext → BudgetContext
unfolding truncate_utf8
truncate_panel_contents ctx =
    let limit = ctx.max_panel_content_bytes in
    let cut = cut_in_panels limit ctx.truncated.elements in
    record ctx {
      truncated = with_elements (map (cut_panel limit) ctx.truncated.elements) ctx.truncated;
      modifications = ctx.modifications + cut;
      reasons = push_reason (ltb 0 (ctx.modifications + cut)) panel_content_truncated ctx.reasons;
    }

abbrev pub drop_panels_of : ℕ → BudgetContext → BudgetContext
drop_panels_of count ctx = record ctx {
  truncated = with_elements (drop_oldest_panels count ctx.truncated.elements) ctx.truncated;
  omitted = ctx.omitted + min count (panel_count ctx.truncated.elements);
}

-- Stage 2.
unfoldable pub limit_panel_count : BudgetContext → BudgetContext
limit_panel_count ctx =
    let panels = panel_count ctx.truncated.elements in
    if ltb ctx.max_event_panels panels
    then record (drop_panels_of (panels - ctx.max_event_panels) ctx) {
      reasons = ctx.reasons ++ event_count_limited ∷ [];
    }
    else ctx

-- Stage 3.
unfoldable pub drop_all_panels : BudgetContext → BudgetContext
drop_all_panels ctx =
    let dropped = drop_panels_of (panel_count ctx.truncated.elements) ctx in
    record dropped { reasons = push_reason (ltb 0 dropped.omitted) panels_dropped dropped.reasons }

-- Stage 4.
unfoldable pub truncate_top_level_divs : BudgetContext → BudgetContext
unfolding truncate_utf8
truncate_top_level_divs ctx =
    let limit = ctx.max_panel_content_bytes in
    let cut = cut_at_top limit ctx.truncated.elements in
    record ctx {
      truncated = with_elements (map (cut_div limit) ctx.truncated.elements) ctx.truncated;
      text_truncations = ctx.text_truncations + cut;
      reasons = push_reason (ltb 0 (ctx.text_truncations + cut)) text_truncated ctx.reasons;
    }

-- The loop of stage 4.5: the oldest elements go while there are too many and more than three.
abbrev pub shift_excess : CardNode → List CardElement → List CardElement
unfolding count_card_elements
shift_excess card [] = []
shift_excess card (e ∷ es) =
    let shifted = shift_excess card es in
    if ltb max_card_elements (count_card_elements (with_elements (e ∷ es) card))
      && ltb 3 (length (e ∷ es))
    then shifted
    else e ∷ es

-- `truncationHint.replace('{count}', String(omitted))`.
abbrev pub replace_count : List ℕ → List ℕ → List ℕ
unfolding strip_prefix?
replace_count shown [] = []
replace_count shown (c ∷ s) =
    let further = c ∷ replace_count shown s in
    elim (strip_prefix? (points "{count}") (c ∷ s)) [ some rest ↦ shown ++ rest | none ↦ further ]

abbrev plain_fields : OtherFields
plain_fields = record { members = 0; content = 0 }

abbrev pub markdown_div : List ℕ → CardElement
markdown_div content =
    element
      (record {
        tag = "div";
        text = some (record { tag = "lark_md"; content = content });
        other = plain_fields;
      })
      no_elements no_columns

-- `insertOmittedHint`.
unfoldable pub insert_omitted_hint : ℕ → List ℕ → CardNode → CardNode
unfolding print strip_prefix?
insert_omitted_hint omitted hint card =
    if omitted == 0
    then card
    else with_elements (markdown_div (replace_count (print omitted) hint) ∷ card.elements) card

-- The other fields of the minimal card are its schema, configuration and header.
abbrev pub minimal_card : CardNode
minimal_card = record {
  elements = markdown_div (points "会话内容过大，已自动截断。\n\n请使用 `/active` 查看完整列表。") ∷ [];
  other = record { members = 0; content = 1 };
}
