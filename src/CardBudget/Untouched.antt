-- ===== src/CardBudget/Untouched.antt =====
-- How far the loop over the panels of src/card/card-budget.ts goes, and what its stages note.
use lark_remote.Common.{
  ℕ, zero, suc, ◌+◌, ◌-◌, ◌≤◌, ◌<◌, Bool, true, false, ◌&&◌, List, [], ◌∷◌, ◌++◌, map, remove_first,
  ◌≡◌, refl, ◌⊎◌, inr, ap, arith, str_eq, ltb, if◌then◌else◌, ◌∙◌,
}
use lark_remote.CardBudget.Nodes.{
  CardElement, element, Elements, no_elements, more_elements, CardNode, is_panel,
  count_card_elements,
}
use lark_remote.CardBudget.Budget.{
  max_card_elements, CardBudgetOptions, BudgetContext, panel_count, with_elements,
  limit_panel_count, truncate_panel_contents, make_context, cut_divs, cut_panel, long_divs,
  cut_in_panels, is_long_div, drop_panels_of, event_count_limited,
}
use lark_remote.CardBudget.Enforce.{drop_panels_while}

panel_count-remove :
    (es : List CardElement) → panel_count es ≤ suc (panel_count (remove_first is_panel es))
panel_count-remove [] = omega arith
panel_count-remove (e ∷ es) = ground (arith, panel_count-remove es)

remove_first-panels :
    (es : List CardElement)
    → 0 < panel_count es
    → suc (panel_count (remove_first is_panel es)) ≡ panel_count es
remove_first-panels [] h = absurd (omega arith)
remove_first-panels (e ∷ es) h = ground (arith, remove_first-panels es)

abbrev Stops : CardNode → Type 0
Stops card = (count_card_elements card ≤ max_card_elements) ⊎ (panel_count card.elements ≡ 0)

-- With as much fuel as there are panels, the loop ends by its test.
pub drop_panels_while_lem :
    (fuel : ℕ) (card : CardNode)
    → panel_count card.elements ≤ fuel
    → Stops (drop_panels_while fuel card)
unfolding drop_panels_while
drop_panels_while_lem zero card h = inr (omega arith)
drop_panels_while_lem (suc fuel) card h =
    go (ltb max_card_elements (count_card_elements card) && ltb 0 (panel_count card.elements))
      (λ e. drop_panels_while_lem fuel _ (ground (arith, e, remove_first-panels card.elements)))
      (λ e. ground (arith, e))
  where
    go :
        (b : Bool)
        → (b ≡ true
            → Stops
                (drop_panels_while fuel (with_elements (remove_first is_panel card.elements) card)))
        → (b ≡ false → Stops card)
        → Stops (
            if b
            then drop_panels_while fuel (with_elements (remove_first is_panel card.elements) card)
            else card)
    go true i j = i refl
    go false i j = j refl

-- A case of a test that both sides share.
if-cons {ℓ} :
    {A : Type ℓ} (b : Bool) {x y : A} (count rest : ℕ)
    → (if b then count else 0) + rest ≡ 0
    → (count ≡ 0 → x ≡ y)
    → (if b then x else y) ≡ y
if-cons true count rest h f = f (omega arith)
if-cons false count rest h f = refl

cut_divs-none : (limit : ℕ) (es : Elements) → long_divs limit es ≡ 0 → cut_divs limit es ≡ es
cut_divs-none limit no_elements h = refl
cut_divs-none limit (more_elements (element head inner cols) es) h =
    rw (cut_divs-none limit es (omega arith)) (
      ap (λ e. more_elements e es)
        (if-cons (is_long_div limit head) 1 (long_divs limit es) (ground (arith, h))
          (λ k. absurd (omega arith))))

cut_panel-none :
    (limit : ℕ) (es : List CardElement) → cut_in_panels limit es ≡ 0 → map (cut_panel limit) es ≡ es
cut_panel-none limit [] h = refl
cut_panel-none limit (element head inner cols ∷ es) h = rw (cut_panel-none limit es (omega arith)) (
    ap (λ e. e ∷ es)
      (if-cons (str_eq head.tag "collapsible_panel") (long_divs limit inner)
        (cut_in_panels limit es) h
        (λ k. ap (λ kept. element head kept cols) (cut_divs-none limit inner k))))

limit-quiet :
    (ctx : BudgetContext) → (limit_panel_count ctx).omitted ≡ 0 → limit_panel_count ctx ≡ ctx
unfolding limit_panel_count
limit-quiet ctx = go (ltb ctx.max_event_panels (panel_count ctx.truncated.elements)) refl
  where
    dropped : BudgetContext
    dropped =
        record (drop_panels_of (panel_count ctx.truncated.elements - ctx.max_event_panels) ctx) {
          reasons = ctx.reasons ++ event_count_limited ∷ [];
        }

    go :
        (b : Bool)
        → ltb ctx.max_event_panels (panel_count ctx.truncated.elements) ≡ b
        → (if b then dropped else ctx).omitted ≡ 0
        → (if b then dropped else ctx) ≡ ctx
    go true e h = absurd (ground (arith, e, h))
    go false e h = refl

-- Stages 1 and 2 leave the card, or they note what they changed.
pub stages-quiet :
    (card : CardNode) (opts : CardBudgetOptions) (n : ℕ)
    → let limited = limit_panel_count (truncate_panel_contents (make_context card opts n)) in
      limited.modifications ≡ 0 → limited.omitted ≡ 0 → (limited.truncated ≡ card)
unfolding truncate_panel_contents make_context
stages-quiet card opts n h k =
    let first = make_context card opts n in
    let same = limit-quiet (truncate_panel_contents first) k in
    let none_cut = ap (λ (c : BudgetContext). c.modifications) same in
    ap (λ (c : BudgetContext). c.truncated) same
    ∙ ap (λ es. with_elements es card)
        (cut_panel-none first.max_panel_content_bytes card.elements (omega (arith, h, none_cut)))
