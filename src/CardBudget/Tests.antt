-- ===== src/CardBudget/Tests.antt =====
-- The budgets on concrete cards. A card here takes 300 bytes for each element at its top.
use lark_remote.Common.{ℕ, zero, suc, ◌*◌, ◌≤◌, List, [], ◌∷◌, length, none, ◌≡◌, refl}
use lark_remote.Common.Lines.{points}
use lark_remote.CardBudget.Tables.{drop_oldest_markdown_tables}
use lark_remote.CardBudget.Nodes.{
  CardElement, element, no_elements, more_elements, no_columns, CardNode, count_card_elements,
}
use lark_remote.CardBudget.Budget.{
  max_card_elements, feishu_max_tables, card_budget_bytes, CardBudgetOptions, markdown_div,
}
use lark_remote.CardBudget.Enforce.{enforce_card_budget}
use lark_remote.CardBudget.Accounted.{hint_of}
use lark_remote.CardBudget.TableCap.{cap_card_markdown_tables}
use lark_remote.CardBudget.Laws.{IsWithin, enforce_card_budget-IsWithin}
use lark_remote.CardBudget.Reported.{enforce_card_budget-untouched}

abbrev many : ℕ → CardElement → List CardElement
many zero e = []
many (suc n) e = e ∷ many n e

abbrev panel : CardElement
panel =
    element
      (record {
        tag = "collapsible_panel";
        text = none;
        other = record { members = 0; content = 0 };
      })
      (more_elements (markdown_div (points "event")) no_elements) no_columns

abbrev card_of : List CardElement → CardNode
card_of es = record { elements = es; other = record { members = 0; content = 7 } }

abbrev bytes_of : CardNode → ℕ
bytes_of card = 300 * length card.elements

abbrev no_options : CardBudgetOptions
no_options = record {
  max_event_panels = none;
  max_panel_content_bytes = none;
  truncation_hint = none;
}

abbrev crowded : CardNode
crowded = card_of (markdown_div (points "title") ∷ many 46 panel)

enforce_card_budget-IsWithin_example :
    IsWithin bytes_of
      (hint_of no_options)
      (length crowded.elements)
      (count_card_elements (cap_card_markdown_tables crowded feishu_max_tables).0)
      (enforce_card_budget bytes_of crowded no_options)
enforce_card_budget-IsWithin_example = enforce_card_budget-IsWithin bytes_of crowded no_options

-- Two of 46 panels go, which leaves the title, 44 panels and what they hold.
crowded_left :
    (enforce_card_budget bytes_of crowded no_options).card
    ≡ card_of (markdown_div (points "title") ∷ many 44 panel)
unfolding enforce_card_budget
crowded_left = refl

abbrev small : CardNode
small = card_of (markdown_div (points "hi") ∷ [])

enforce_card_budget-untouched_example :
    ((enforce_card_budget bytes_of small no_options).card ≡ small)
    × (count_card_elements small ≤ max_card_elements)
    × (bytes_of small ≤ card_budget_bytes)
unfolding enforce_card_budget
enforce_card_budget-untouched_example = enforce_card_budget-untouched bytes_of small no_options refl

-- The older of two tables goes, with its heading.
older_dropped :
    drop_oldest_markdown_tables (points "## A\n|a|\n|-|\n|1|\ntext\n|b|\n|-|") 1
    ≡ points "_💡 前 1 个表格已省略_\ntext\n|b|\n|-|"
unfolding drop_oldest_markdown_tables
older_dropped = refl

-- Two separators in a row: the second block is within the first, and no note is put.
no_note : drop_oldest_markdown_tables (points "|a|\n|-|\n|-|\nend") 2 ≡ points "end"
unfolding drop_oldest_markdown_tables
no_note = refl
