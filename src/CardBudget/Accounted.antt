-- ===== src/CardBudget/Accounted.antt =====
-- How many elements the stages of src/card/card-budget.ts leave out, and how many they count.
use lark_remote.Common.{
  ℕ, zero, suc, ◌+◌, ◌-◌, ◌≤◌, Bool, List, [], ◌∷◌, map, length, min, remove_first, or_else, ◌≡◌,
  refl, ap, inl, inr, arith, Bool-cases, ltb,
}
use lark_remote.CardBudget.Nodes.{CardElement, CardNode, is_panel, count_card_elements}
use lark_remote.CardBudget.TableCap.{cap_list, cap_card_markdown_tables}
use lark_remote.Common.Lines.{points}
use lark_remote.CardBudget.Budget.{
  max_card_elements, CardBudgetOptions, BudgetContext, panel_count, drop_oldest_panels,
  drop_panels_of, cut_panel, cut_div, with_elements, make_context, truncate_panel_contents,
  limit_panel_count, drop_all_panels, truncate_top_level_divs, shift_excess,
}
use lark_remote.CardBudget.Enforce.{shift_elements, drop_panels_while}

-- The elements that are left and those that were counted as left out are the elements of the card
-- that the byte stages were given, and the hint is still the one of the options.
pub record IsAccounted (hint : List ℕ) (total : ℕ) (ctx : BudgetContext) : Type 0 where
  pub left_out : length ctx.truncated.elements + ctx.omitted ≡ total
  pub hinted : ctx.truncation_hint ≡ hint

abbrev pub hint_of : CardBudgetOptions → List ℕ
hint_of opts = or_else opts.truncation_hint (points "📜 还有 {count} 个事件未显示")

length-map {ℓ} : {A : Type ℓ} (f : A → A) (es : List A) → length (map f es) ≡ length es
length-map f [] = refl
length-map f (e ∷ es) = ap suc (length-map f es)

length-drop_oldest_panels :
    (n : ℕ) (es : List CardElement)
    → length (drop_oldest_panels n es) + min n (panel_count es) ≡ length es
length-drop_oldest_panels n [] = ground arith
length-drop_oldest_panels zero (e ∷ es) = ground arith
length-drop_oldest_panels (suc n) (e ∷ es) =
    ground (arith, length-drop_oldest_panels n es, length-drop_oldest_panels (suc n) es)

length-shift_excess :
    (card : CardNode) (es : List CardElement) → length (shift_excess card es) ≤ length es
unfolding count_card_elements
length-shift_excess card [] = ground arith
length-shift_excess card (e ∷ es) = ground (arith, length-shift_excess card es)

length-remove_first :
    (p : CardElement → Bool) (es : List CardElement) → length (remove_first p es) ≤ length es
length-remove_first p [] = ground arith
length-remove_first p (e ∷ es) = ground (arith, length-remove_first p es)

length-cap_list :
    (es : List CardElement) (excess dropped : ℕ) → length (cap_list excess dropped es).0 ≡ length es
unfolding cap_list
length-cap_list [] excess dropped = refl
length-cap_list (e ∷ es) excess dropped = ap suc (length-cap_list es excess _)

pub length-cap :
    (card : CardNode) (n : ℕ)
    → length (cap_card_markdown_tables card n).0.elements ≡ length card.elements
unfolding cap_card_markdown_tables
length-cap card n = length-cap_list card.elements _ 0

pub length-drop_panels_while :
    (fuel : ℕ) (card : CardNode)
    → length (drop_panels_while fuel card).elements ≤ length card.elements
unfolding drop_panels_while count_card_elements
length-drop_panels_while zero card = omega arith
length-drop_panels_while (suc fuel) card =
    let rest = with_elements (remove_first is_panel card.elements) card in
    ground (arith, length-drop_panels_while fuel rest, length-remove_first is_panel card.elements)

-- A card with few enough elements keeps its panels.
pub drop_panels_while-few :
    (fuel : ℕ) (card : CardNode)
    → count_card_elements card ≤ max_card_elements
    → drop_panels_while fuel card ≡ card
unfolding drop_panels_while
drop_panels_while-few zero card h = refl
drop_panels_while-few (suc fuel) card h = ground (arith, h)

module _ (hint : List ℕ) (total : ℕ) where
  pub contents-IsAccounted :
      (ctx : BudgetContext)
      → IsAccounted hint total ctx
      → IsAccounted hint total (truncate_panel_contents ctx)
  unfolding truncate_panel_contents
  contents-IsAccounted ctx i = record {
    left_out = omega (
      arith,
      i.left_out,
      length-map (cut_panel ctx.max_panel_content_bytes) ctx.truncated.elements,
    );
    hinted = i.hinted;
  }

  dropped-IsAccounted :
      (n : ℕ) (ctx : BudgetContext)
      → IsAccounted hint total ctx
      → IsAccounted hint total (drop_panels_of n ctx)
  dropped-IsAccounted n ctx i = record {
    left_out = omega (arith, i.left_out, length-drop_oldest_panels n ctx.truncated.elements);
    hinted = i.hinted;
  }

  pub limit-IsAccounted :
      (ctx : BudgetContext)
      → IsAccounted hint total ctx
      → IsAccounted hint total (limit_panel_count ctx)
  unfolding limit_panel_count
  limit-IsAccounted ctx i =
      let panels = panel_count ctx.truncated.elements in
      let d = dropped-IsAccounted (panels - ctx.max_event_panels) ctx i in
      elim (Bool-cases (ltb ctx.max_event_panels panels)) [
        | inl e ↦ rw e (record { left_out = d.left_out; hinted = d.hinted })
        | inr e ↦ rw e i
      ]

  pub all-IsAccounted :
      (ctx : BudgetContext)
      → IsAccounted hint total ctx
      → IsAccounted hint total (drop_all_panels ctx)
  unfolding drop_all_panels
  all-IsAccounted ctx i =
      let d = dropped-IsAccounted (panel_count ctx.truncated.elements) ctx i in
      record { left_out = d.left_out; hinted = d.hinted }

  pub divs-IsAccounted :
      (ctx : BudgetContext)
      → IsAccounted hint total ctx
      → IsAccounted hint total (truncate_top_level_divs ctx)
  unfolding truncate_top_level_divs
  divs-IsAccounted ctx i = record {
    left_out = omega (
      arith,
      i.left_out,
      length-map (cut_div ctx.max_panel_content_bytes) ctx.truncated.elements,
    );
    hinted = i.hinted;
  }

  pub shift-IsAccounted :
      (bytes_of : CardNode → ℕ) (ctx : BudgetContext)
      → IsAccounted hint total ctx
      → IsAccounted hint total (shift_elements bytes_of ctx)
  unfolding shift_elements
  shift-IsAccounted bytes_of ctx i = record {
    left_out = omega (arith, i.left_out, length-shift_excess ctx.truncated ctx.truncated.elements);
    hinted = i.hinted;
  }

pub make-IsAccounted :
    (card : CardNode) (opts : CardBudgetOptions) (n : ℕ)
    → IsAccounted (hint_of opts) (length card.elements) (make_context card opts n)
unfolding make_context
make-IsAccounted card opts n = record { left_out = omega arith; hinted = refl }
