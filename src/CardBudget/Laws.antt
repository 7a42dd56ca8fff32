-- ===== src/CardBudget/Laws.antt =====
-- What `enforceCardBudget` of src/card/card-budget.ts leaves keeps to the budgets.
use lark_remote.Common.{
  ℕ, zero, suc, ◌+◌, ◌≤◌, Bool, true, false, ◌||◌, List, [], ◌∷◌, ◌≡◌, refl, ◌⊎◌, inl, inr, arith,
  ltb, leb, ◌-◌, ◌<◌, length, ap, Bool-cases, if◌then◌else◌,
}
use lark_remote.CardBudget.Nodes.{CardNode, count_card_elements}
use lark_remote.CardBudget.TableCap.{cap_card_markdown_tables}
use lark_remote.CardBudget.Budget.{
  max_card_elements, card_budget_bytes, CardBudgetOptions, BudgetResult, BudgetContext,
  BudgetReason, panel_count, table_count_limited, feishu_max_tables, insert_omitted_hint,
  minimal_card, limit_panel_count, truncate_panel_contents, make_context, drop_all_panels,
  truncate_top_level_divs,
}
use lark_remote.CardBudget.Accounted.{
  IsAccounted, hint_of, length-cap, length-drop_panels_while, drop_panels_while-few,
  contents-IsAccounted, limit-IsAccounted, all-IsAccounted, divs-IsAccounted, shift-IsAccounted,
  make-IsAccounted,
}
use lark_remote.CardBudget.Enforce.{
  fits_budget, kept_or, enforce_without_tables, byte_budget_fits, byte_budget_done,
  byte_budget_minimal_card, finish_or, shift_elements, drop_excess_elements, enforce_byte_budget,
  enforce_element_budget, enforce_card_budget, drop_panels_while,
}

-- A hint is one more element.
count-insert_omitted_hint :
    (n : ℕ) (hint : List ℕ) (c : CardNode)
    → count_card_elements (insert_omitted_hint n hint c)
      ≡ count_card_elements c + (if ltb 0 n then 1 else 0)
unfolding insert_omitted_hint count_card_elements
count-insert_omitted_hint zero hint c = ground arith
count-insert_omitted_hint (suc n) hint c = ground arith

module _ (bytes_of : CardNode → ℕ) where
  -- A card that fits in the bytes, with the hint put on top for the `n` elements that the byte stages
  -- left out. `total` elements were given, `many` counts those of the whole card: with those that
  -- stage 1 left out for there being too many, they are all that are not there.
  pub record IsCut (hint : List ℕ) (total many : ℕ) (card : CardNode) : Type 0 where
    pub base : CardNode
    pub n : ℕ
    pub uncounted : ℕ
    pub base_fits : bytes_of base ≤ card_budget_bytes
    pub hint_on_top : card ≡ insert_omitted_hint n hint base
    pub all_counted : length base.elements + n + uncounted ≡ total
    pub too_many : 0 < uncounted → max_card_elements < many

  -- The elements are within the budget, and so are the bytes of the card before the hint, unless it
  -- is the minimal card.
  pub record IsWithin (hint : List ℕ) (total many : ℕ) (r : BudgetResult) : Type 0 where
    pub elements_fit : count_card_elements r.card ≤ max_card_elements
    pub bytes_fit : (r.card ≡ minimal_card) ⊎ IsCut hint total many r.card
    pub measured : r.bytes_after ≡ bytes_of r.card

  module _ (hint : List ℕ) (total many : ℕ) where
    if-IsWithin :
        (b : Bool) (r s : BudgetResult)
        → (b ≡ true → IsWithin hint total many r)
        → IsWithin hint total many s
        → IsWithin hint total many (if b then r else s)
    if-IsWithin true r s i j = i refl
    if-IsWithin false r s i j = j

    minimal-IsWithin :
        (ctx : BudgetContext) → IsWithin hint total many (byte_budget_minimal_card bytes_of ctx)
    unfolding byte_budget_minimal_card count_card_elements
    minimal-IsWithin ctx = record {
      elements_fit = omega arith;
      bytes_fit = inl refl;
      measured = refl;
    }

    -- With `given` elements at the start of the byte stages.
    module _ (given : ℕ) (below : given ≤ total)
        (why : given < total → max_card_elements < many) where
      finish_or-IsWithin :
          (ctx : BudgetContext) (b : Bool) (rest : BudgetResult)
          → IsAccounted hint given ctx
          → IsWithin hint total many rest
          → IsWithin hint total many (finish_or bytes_of ctx b rest)
      unfolding finish_or byte_budget_done byte_budget_fits
      finish_or-IsWithin ctx b rest a i =
          if-IsWithin _ _ rest
            (λ (h : byte_budget_fits bytes_of ctx ≡ true). record {
              elements_fit = ground (
                arith,
                h,
                count-insert_omitted_hint ctx.omitted ctx.truncation_hint ctx.truncated,
              );
              bytes_fit = inr (record {
                base = ctx.truncated;
                n = ctx.omitted;
                uncounted = total - given;
                base_fits = ground (arith, h);
                hint_on_top = ap (λ x. insert_omitted_hint ctx.omitted x ctx.truncated) a.hinted;
                all_counted = omega (arith, a.left_out, below);
                too_many = λ u. why (omega (arith, u));
              });
              measured = refl;
            })
            i

      excess-IsWithin :
          (ctx : BudgetContext)
          → IsAccounted hint given ctx
          → IsWithin hint total many (drop_excess_elements bytes_of ctx)
      unfolding drop_excess_elements
      excess-IsWithin ctx a =
          if-IsWithin _ _ _
            (λ h.
              finish_or-IsWithin (shift_elements bytes_of ctx) true _
                (shift-IsAccounted hint given bytes_of ctx a)
                (minimal-IsWithin (shift_elements bytes_of ctx)))
            (minimal-IsWithin ctx)

      -- The stages behind the context.
      stages-IsWithin :
          (start : BudgetContext)
          → IsAccounted hint given start
          → let limited = limit_panel_count (truncate_panel_contents start) in
            let without_panels = drop_all_panels limited in
            let cut = truncate_top_level_divs without_panels in
            IsWithin hint total many (
              finish_or bytes_of limited (ltb 0 limited.modifications || ltb 0 limited.omitted) (
                finish_or bytes_of without_panels true
                  (finish_or bytes_of cut true (drop_excess_elements bytes_of cut))))
      stages-IsWithin start a =
          let limited = limit_panel_count (truncate_panel_contents start) in
          let without_panels = drop_all_panels limited in
          let cut = truncate_top_level_divs without_panels in
          let last = drop_excess_elements bytes_of cut in
          let third = finish_or bytes_of cut true last in
          let l = limit-IsAccounted hint given _ (contents-IsAccounted hint given start a) in
          let w = all-IsAccounted hint given limited l in
          let c = divs-IsAccounted hint given without_panels w in
          finish_or-IsWithin limited (ltb 0 limited.modifications || ltb 0 limited.omitted)
            (finish_or bytes_of without_panels true third) l
            (finish_or-IsWithin without_panels true third w
              (finish_or-IsWithin cut true last c (excess-IsWithin cut c)))

  module _ (opts : CardBudgetOptions) (total many : ℕ) where
    byte-IsWithin :
        (card : CardNode) (n : ℕ)
        → length card.elements ≤ total
        → (length card.elements < total → max_card_elements < many)
        → IsWithin (hint_of opts) total many (enforce_byte_budget bytes_of card opts n)
    unfolding enforce_byte_budget
    byte-IsWithin card n below why =
        stages-IsWithin (hint_of opts) total many (length card.elements) below why
          (make_context card opts n) (make-IsAccounted card opts n)

    kept_or-IsWithin :
        (card : CardNode) (b : Bool) (reasons : List BudgetReason) (n : ℕ) (rest : BudgetResult)
        → length card.elements ≤ total
        → (length card.elements < total → max_card_elements < many)
        → IsWithin (hint_of opts) total many rest
        → IsWithin (hint_of opts) total many (kept_or bytes_of card b reasons n rest)
    unfolding kept_or fits_budget insert_omitted_hint
    kept_or-IsWithin card b reasons n rest below why i =
        if-IsWithin (hint_of opts) total many (fits_budget bytes_of card)
          (record {
            card = card;
            was_truncated = b;
            reasons = reasons;
            bytes_before = n;
            bytes_after = bytes_of card;
          })
          rest
          (λ h. record {
            elements_fit = ground (arith, h);
            bytes_fit = inr (record {
              base = card;
              n = 0;
              uncounted = total - length card.elements;
              base_fits = ground (arith, h);
              hint_on_top = refl;
              all_counted = omega (arith, below);
              too_many = λ u. why (omega (arith, u));
            });
            measured = refl;
          })
          i

    -- What stage 1 leaves, and why it leaves out something.
    left-why :
        (card : CardNode)
        → length card.elements ≡ total
        → count_card_elements card ≡ many
        → length (drop_panels_while (panel_count card.elements) card).elements < total
        → max_card_elements < many
    left-why card same all h =
        elim (Bool-cases (leb (count_card_elements card) max_card_elements)) [
          | inl few ↦
              let kept =
                ap (λ (c : CardNode). length c.elements)
                  (drop_panels_while-few (panel_count card.elements) card (ground (arith, few))) in
              absurd (omega (arith, h, kept, same))
          | inr over ↦ ground (arith, over, all)
        ]

    element-IsWithin :
        (card : CardNode) (n : ℕ)
        → length card.elements ≡ total
        → count_card_elements card ≡ many
        → IsWithin (hint_of opts) total many (enforce_element_budget bytes_of card opts n)
    unfolding enforce_element_budget
    element-IsWithin card n same all =
        let left = drop_panels_while (panel_count card.elements) card in
        let below : length left.elements ≤ total =
          omega (arith, length-drop_panels_while (panel_count card.elements) card, same) in
        kept_or-IsWithin left _ _ n _ below (left-why card same all)
          (byte-IsWithin left n below (left-why card same all))

    without_tables-IsWithin :
        (card capped : CardNode)
        → length card.elements ≡ total
        → length capped.elements ≡ total
        → count_card_elements capped ≡ many
        → IsWithin (hint_of opts) total many (enforce_without_tables bytes_of card capped opts)
    unfolding enforce_without_tables
    without_tables-IsWithin card capped same same' all =
        let below : length card.elements ≤ total = omega (arith, same) in
        let why : length card.elements < total → max_card_elements < many =
          λ h. absurd (omega (arith, h, same)) in
        kept_or-IsWithin card false [] (bytes_of card) _ below why (
          if-IsWithin (hint_of opts) total many _ _ _
            (λ _. element-IsWithin capped (bytes_of card) same' all)
            (byte-IsWithin card (bytes_of card) below why))

  -- For any way to count bytes, any card and any options: the card that is left has at most 90
  -- elements, and it is the minimal card, or a card of at most 28000 bytes with the hint of the
  -- options put on top for the elements of the body that it lacks, if any. Not counted in the hint
  -- are only elements that were left out of a card with more than 90 elements, its tables capped.
  -- The size that is reported is the result's own.
  pub enforce_card_budget-IsWithin :
      (card : CardNode) (opts : CardBudgetOptions)
      → IsWithin
          (hint_of opts)
          (length card.elements)
          (count_card_elements (cap_card_markdown_tables card feishu_max_tables).0)
          (enforce_card_budget bytes_of card opts)
  unfolding enforce_card_budget
  enforce_card_budget-IsWithin card opts =
      let capped = (cap_card_markdown_tables card feishu_max_tables).0 in
      let dropped = (cap_card_markdown_tables card feishu_max_tables).1 in
      let total = length card.elements in
      let many = count_card_elements capped in
      let same = length-cap card feishu_max_tables in
      if-IsWithin (hint_of opts) total many (ltb 0 dropped) _ _
        (λ _.
          kept_or-IsWithin opts total many capped true (table_count_limited ∷ []) (bytes_of card) _
            (omega (arith, same)) (λ h. absurd (omega (arith, h, same)))
            (element-IsWithin opts total many capped (bytes_of card) same refl))
        (without_tables-IsWithin opts total many card capped refl same refl)
