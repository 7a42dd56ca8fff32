-- ===== src/CardBudget/Reported.antt =====
-- When `enforceCardBudget` of src/card/card-budget.ts says that it changed nothing.
use lark_remote.Common.{
  ℕ, ◌≤◌, Bool, true, false, ◌||◌, List, [], ◌∷◌, ◌≡◌, refl, inl, inr, ap, arith, Bool-cases, ltb,
  if◌then◌else◌,
}
use lark_remote.CardBudget.Nodes.{CardNode, count_card_elements}
use lark_remote.CardBudget.TableCap.{cap_card_markdown_tables}
use lark_remote.CardBudget.Budget.{
  max_card_elements, card_budget_bytes, feishu_max_tables, CardBudgetOptions, BudgetResult,
  BudgetContext, BudgetReason, panel_count, limit_panel_count, drop_all_panels,
  truncate_top_level_divs, truncate_panel_contents, make_context, table_count_limited,
}
use lark_remote.CardBudget.Enforce.{
  drop_panels_while, fits_budget, byte_budget_fits, byte_budget_done, byte_budget_minimal_card,
  finish_or, shift_elements, drop_excess_elements, kept_or, enforce_byte_budget,
  enforce_element_budget, enforce_without_tables, enforce_card_budget,
}
use lark_remote.CardBudget.Untouched.{stages-quiet}

module _ (bytes_of : CardNode → ℕ) where
  -- A card that is over a budget with no hint is over the budget.
  fits-no_hint :
      (ctx : BudgetContext)
      → ctx.omitted ≡ 0
      → byte_budget_fits bytes_of ctx ≡ true
      → fits_budget bytes_of ctx.truncated ≡ true
  unfolding byte_budget_fits fits_budget
  fits-no_hint ctx e h = ground (arith, h)

  finish_or-true :
      (ctx : BudgetContext) (b : Bool) (rest : BudgetResult)
      → rest.was_truncated ≡ true
      → (byte_budget_fits bytes_of ctx ≡ true → b ≡ true)
      → (finish_or bytes_of ctx b rest).was_truncated ≡ true
  unfolding finish_or byte_budget_done
  finish_or-true ctx b rest h f = go (byte_budget_fits bytes_of ctx) f
    where
      go :
          (t : Bool)
          → (t ≡ true → b ≡ true)
          → (if t then byte_budget_done bytes_of ctx b else rest).was_truncated ≡ true
      go true g = g refl
      go false g = h

  -- The flag of the first finish.
  noted :
      (card : CardNode) (opts : CardBudgetOptions) (n : ℕ)
      → fits_budget bytes_of card ≡ false
      → let limited = limit_panel_count (truncate_panel_contents (make_context card opts n)) in
        byte_budget_fits bytes_of limited ≡ true
        → (ltb 0 limited.modifications || ltb 0 limited.omitted) ≡ true
  noted card opts n h f =
      let limited = limit_panel_count (truncate_panel_contents (make_context card opts n)) in
      elim (Bool-cases (ltb 0 limited.modifications || ltb 0 limited.omitted)) [
        | inl e ↦ e
        | inr e ↦
            let quiet =
              (λ (k : limited.omitted ≡ 0). stages-quiet card opts n (ground (arith, e)) k) in
            let k : limited.omitted ≡ 0 = ground (arith, e) in
            cc (ap (fits_budget bytes_of) (quiet k), fits-no_hint limited k f, h)
      ]

  excess-true : (ctx : BudgetContext) → (drop_excess_elements bytes_of ctx).was_truncated ≡ true
  unfolding drop_excess_elements byte_budget_minimal_card
  excess-true ctx = go (ltb max_card_elements (count_card_elements ctx.truncated)) _ (
      finish_or-true (shift_elements bytes_of ctx) true
        (byte_budget_minimal_card bytes_of (shift_elements bytes_of ctx)) refl (λ _. refl))
    where
      go :
          (t : Bool) (r : BudgetResult)
          → r.was_truncated ≡ true
          → (if t then r else byte_budget_minimal_card bytes_of ctx).was_truncated ≡ true
      go true r h = h
      go false r h = refl

  byte-true :
      (card : CardNode) (opts : CardBudgetOptions) (n : ℕ)
      → fits_budget bytes_of card ≡ false
      → (enforce_byte_budget bytes_of card opts n).was_truncated ≡ true
  unfolding enforce_byte_budget
  byte-true card opts n h =
      let limited = limit_panel_count (truncate_panel_contents (make_context card opts n)) in
      let without_panels = drop_all_panels limited in
      let cut = truncate_top_level_divs without_panels in
      let last = drop_excess_elements bytes_of cut in
      let third = finish_or bytes_of cut true last in
      finish_or-true limited (ltb 0 limited.modifications || ltb 0 limited.omitted)
        (finish_or bytes_of without_panels true third)
        (finish_or-true without_panels true third
          (finish_or-true cut true last (excess-true cut) (λ _. refl)) (λ _. refl))
        (noted card opts n h)

  -- A card that is kept, or what follows.
  kept_or-true :
      (card : CardNode) (reasons : List BudgetReason) (n : ℕ) (rest : BudgetResult)
      → (fits_budget bytes_of card ≡ false → rest.was_truncated ≡ true)
      → (kept_or bytes_of card true reasons n rest).was_truncated ≡ true
  unfolding kept_or
  kept_or-true card reasons n rest f = elim (Bool-cases (fits_budget bytes_of card)) [
    | inl e ↦ rw e refl
    | inr e ↦ rw e (f e)
  ]

  element-true :
      (card : CardNode) (opts : CardBudgetOptions) (n : ℕ)
      → (enforce_element_budget bytes_of card opts n).was_truncated ≡ true
  unfolding enforce_element_budget
  element-true card opts n =
      let left = drop_panels_while (panel_count card.elements) card in
      kept_or-true left _ n (enforce_byte_budget bytes_of left opts n) (byte-true left opts n)

  within :
      (card : CardNode)
      → fits_budget bytes_of card ≡ true
      → (count_card_elements card ≤ max_card_elements) × (bytes_of card ≤ card_budget_bytes)
  unfolding fits_budget
  within card h = ground (arith, h)

  -- What holds of a result that says that nothing was truncated.
  abbrev IsUntouched : CardNode → BudgetResult → Type 0
  IsUntouched card r =
      r.was_truncated ≡ false
      → (r.card ≡ card)
        × (count_card_elements card ≤ max_card_elements)
        × (bytes_of card ≤ card_budget_bytes)

  if-IsUntouched :
      (b : Bool) (card : CardNode) (r s : BudgetResult)
      → IsUntouched card r
      → IsUntouched card s
      → IsUntouched card (if b then r else s)
  if-IsUntouched true card r s i j = i
  if-IsUntouched false card r s i j = j

  of_true : (card : CardNode) (r : BudgetResult) → r.was_truncated ≡ true → IsUntouched card r
  of_true card r h k = absurd (cc (h, k))

  without_tables-IsUntouched :
      (card capped : CardNode) (opts : CardBudgetOptions)
      → IsUntouched card (enforce_without_tables bytes_of card capped opts)
  unfolding enforce_without_tables kept_or
  without_tables-IsUntouched card capped opts = elim (Bool-cases (fits_budget bytes_of card)) [
    | inl e ↦ rw e (λ _. (refl, (within card e).0, (within card e).1))
    | inr e ↦ rw e (
        if-IsUntouched _ card _ _
          (of_true card (enforce_element_budget bytes_of capped opts (bytes_of card))
            (element-true capped opts (bytes_of card)))
          (of_true card (enforce_byte_budget bytes_of card opts (bytes_of card))
            (byte-true card opts (bytes_of card) e)))
  ]

  -- When it says that nothing was truncated, the card is the one that was given, and it is within
  -- both budgets.
  pub enforce_card_budget-untouched :
      (card : CardNode) (opts : CardBudgetOptions)
      → (enforce_card_budget bytes_of card opts).was_truncated ≡ false
      → ((enforce_card_budget bytes_of card opts).card ≡ card)
        × (count_card_elements card ≤ max_card_elements)
        × (bytes_of card ≤ card_budget_bytes)
  unfolding enforce_card_budget
  enforce_card_budget-untouched card opts h =
      let (capped, dropped) = cap_card_markdown_tables card feishu_max_tables in
      let element = enforce_element_budget bytes_of capped opts (bytes_of card) in
      let kept = kept_or bytes_of capped true (table_count_limited ∷ []) (bytes_of card) element in
      let plain = enforce_without_tables bytes_of card capped opts in
      if-IsUntouched (ltb 0 dropped) card kept plain
        (of_true card kept (
          kept_or-true capped (table_count_limited ∷ []) (bytes_of card) element
            (λ _. element-true capped opts (bytes_of card))))
        (without_tables-IsUntouched card capped opts) h
