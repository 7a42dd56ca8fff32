-- ===== src/CardBudget/TableCap.antt =====
-- `capCardMarkdownTables` of src/card/card-budget.ts: the oldest tables of a whole card are dropped.
use lark_remote.Common.{
  ℕ, ◌+◌, ◌-◌, List, [], ◌∷◌, Option, none, some, min, str_eq, ◌==◌, if◌then◌else◌,
}
use lark_remote.CardBudget.Tables.{count_markdown_tables, drop_oldest_markdown_tables}
use lark_remote.CardBudget.Nodes.{
  CardText, CardElement, element, Elements, no_elements, more_elements, Columns, no_columns,
  more_columns, CardNode,
}

-- The tables of one field: those of a `lark_md` text.
unfoldable pub text_tables : Option CardText → ℕ
unfolding count_markdown_tables
text_tables none = 0
text_tables (some text) =
    if str_eq text.tag "lark_md" then count_markdown_tables text.content else 0

-- `tableFields`, in the order of the document, summed up.
unfoldable mutual
  pub tables_of : CardElement → ℕ
  tables_of (element head inner cols) =
      text_tables head.text + tables_in inner + tables_in_columns cols

  pub tables_in : Elements → ℕ
  tables_in no_elements = 0
  tables_in (more_elements e es) = tables_of e + tables_in es

  pub tables_in_columns : Columns → ℕ
  tables_in_columns no_columns = 0
  tables_in_columns (more_columns other es rest) = tables_in es + tables_in_columns rest

unfoldable pub count_tables : List CardElement → ℕ
unfolding tables_of text_tables
count_tables [] = 0
count_tables (e ∷ es) = tables_of e + count_tables es

-- One field, when `excess` is the number of tables over the limit at first and `dropped` were
-- dropped so far.
unfoldable pub cap_text : ℕ → ℕ → Option CardText → Option CardText
unfolding drop_oldest_markdown_tables text_tables
cap_text excess dropped none = none
cap_text excess dropped (some text) =
    let tables = text_tables (some text) in
    if excess - dropped == 0
    then some text
    else if tables == 0
    then some text
    else some record text {
      content = drop_oldest_markdown_tables text.content (min (excess - dropped) tables);
    }

-- How many tables are dropped after that field.
unfoldable pub dropped_after : ℕ → ℕ → Option CardText → ℕ
unfolding cap_text
dropped_after excess dropped text =
    dropped + (text_tables text - text_tables (cap_text excess dropped text))

unfoldable mutual
  pub cap_element : ℕ → ℕ → CardElement → CardElement × ℕ
  cap_element excess dropped (element head inner cols) =
      let (inner', then_dropped) =
        cap_elements excess (dropped_after excess dropped head.text) inner in
      let (cols', at_last) = cap_columns excess then_dropped cols in
      (element (record head { text = cap_text excess dropped head.text }) inner' cols', at_last)

  pub cap_elements : ℕ → ℕ → Elements → Elements × ℕ
  cap_elements excess dropped no_elements = (no_elements, dropped)
  cap_elements excess dropped (more_elements e es) =
      let (e', then_dropped) = cap_element excess dropped e in
      let (es', at_last) = cap_elements excess then_dropped es in (more_elements e' es', at_last)

  pub cap_columns : ℕ → ℕ → Columns → Columns × ℕ
  cap_columns excess dropped no_columns = (no_columns, dropped)
  cap_columns excess dropped (more_columns other es rest) =
      let (es', then_dropped) = cap_elements excess dropped es in
      let (rest', at_last) = cap_columns excess then_dropped rest in
      (more_columns other es' rest', at_last)

unfoldable pub cap_list : ℕ → ℕ → List CardElement → List CardElement × ℕ
unfolding cap_element cap_text dropped_after
cap_list excess dropped [] = ([], dropped)
cap_list excess dropped (e ∷ es) =
    let (e', then_dropped) = cap_element excess dropped e in
    let (es', at_last) = cap_list excess then_dropped es in (e' ∷ es', at_last)

-- The capped card and how many tables it lost.
unfoldable pub cap_card_markdown_tables : CardNode → ℕ → CardNode × ℕ
unfolding cap_list count_tables
cap_card_markdown_tables card max_tables =
    let (capped, dropped) = cap_list (count_tables card.elements - max_tables) 0 card.elements in
    (record card { elements = capped }, dropped)
