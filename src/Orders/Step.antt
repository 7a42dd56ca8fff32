-- ===== src/Orders/Step.antt =====
-- Any calls of src/order/index.ts on a store, one after the other.
use lark_remote.Common.{
  ◌+◌, ◌≤◌, String, Text, Bool, false, List, [], ◌∷◌, ◌++◌, any, length, length-append, All-append,
  Option, none, some, ltb, leb, ◌≡◌, refl, arith, eq_iff, inl, inr, Bool-cases,
}
use lark_remote.Orders.{
  OrderEntry, max_text_length, max_orders, load, OrderStore, persist, reload, has_order, new_order,
  save, update_used_at, update_text, set_alias, remove,
}
use lark_remote.Orders.Laws.{
  IsEntry, IdsApart, AliasesApart, clash, IsOrders, load-stored, or_false, or_left, or_right,
}

pub data OrderCall : Type 0 where
  saved : Text → String → String → OrderCall
  used : String → String → OrderCall
  edited : String → Text → OrderCall
  aliased : String → Option Text → OrderCall
  removed : String → OrderCall
  reloaded : OrderCall

unfoldable pub do_call : OrderCall → OrderStore → OrderStore
unfolding save update_used_at update_text set_alias remove load
do_call (OrderCall.saved text id now) s = (save text id now s).0
do_call (OrderCall.used id now) s = update_used_at id now s
do_call (OrderCall.edited id text) s = (update_text id text s).0
do_call (OrderCall.aliased id name) s = (set_alias id name s).0
do_call (OrderCall.removed id) s = remove id s
do_call OrderCall.reloaded s = reload s

abbrev pub do_calls : List OrderCall → OrderStore → OrderStore
do_calls [] s = s
do_calls (c ∷ cs) s = do_calls cs (do_call c s)

-- What `crypto.randomUUID` promises: the new id is that of no order.
abbrev pub IsFresh : OrderCall → OrderStore → Type 0
IsFresh (OrderCall.saved text id now) s = any (has_order id) s.orders ≡ false
IsFresh _ s = Unit

abbrev pub AllFresh : List OrderCall → OrderStore → Type 0
AllFresh [] s = Unit
AllFresh (c ∷ cs) s = IsFresh c s × AllFresh cs (do_call c s)

-- The orders are well-formed and the file holds them.
abbrev pub IsKept : OrderStore → Type 0
IsKept s = IsOrders s.orders × (load s.file ≡ s.orders)

pub persist-IsKept : (es : List OrderEntry) → IsOrders es → IsKept (persist es)
persist-IsKept es h = (h, load-stored es h.entries)

has_order_comm :
    (e : OrderEntry) (n : OrderEntry) → has_order n.id e ≡ false → has_order e.id n ≡ false
has_order_comm e n h = ground (arith, eq_iff e.id n.id, eq_iff n.id e.id)

any-last-false :
    (p : OrderEntry → Bool) (es : List OrderEntry) (n : OrderEntry)
    → any p es ≡ false
    → p n ≡ false
    → any p (es ++ n ∷ []) ≡ false
any-last-false p [] n h k = ground arith
any-last-false p (e ∷ es) n h k =
    or_false (p e) (any p (es ++ n ∷ [])) (or_left (p e) (any p es) h)
      (any-last-false p es n (or_right (p e) (any p es) h) k)

IdsApart-last :
    (es : List OrderEntry) (n : OrderEntry)
    → IdsApart es
    → any (has_order n.id) es ≡ false
    → IdsApart (es ++ n ∷ [])
IdsApart-last [] n h k = (refl, tt)
IdsApart-last (e ∷ es) n h k = (
  any-last-false (has_order e.id) es n h.0
      (has_order_comm e n (or_left (has_order n.id e) (any (has_order n.id) es) k)),
  IdsApart-last es n h.1 (or_right (has_order n.id e) (any (has_order n.id) es) k),
)

clash-no_alias : (a : Option Text) (n : OrderEntry) → n.alias ≡ none → clash a n ≡ false
clash-no_alias none n h = refl
clash-no_alias (some name) n h = rw h refl

AliasesApart-last :
    (es : List OrderEntry) (n : OrderEntry)
    → AliasesApart es
    → n.alias ≡ none
    → AliasesApart (es ++ n ∷ [])
AliasesApart-last [] n h k = (refl, tt)
AliasesApart-last (e ∷ es) n h k = (
  any-last-false (clash e.alias) es n h.0 (clash-no_alias e.alias n k),
  AliasesApart-last es n h.1 k,
)

pub save-IsKept :
    (text : Text) (id now : String) (s : OrderStore)
    → any (has_order id) s.orders ≡ false
    → IsKept s
    → IsKept (save text id now s).0
unfolding save
save-IsKept text id now s f h = elim (Bool-cases (ltb max_text_length (length text))) [
  | inl b ↦ rw b h
  | inr b ↦ elim (Bool-cases (leb max_orders (length s.orders))) [
    | inl c ↦ rw (b, c) h
    | inr c ↦
        rw (b, c)
          (persist-IsKept (s.orders ++ new_order id text now ∷ []) (record {
            entries =
                All-append IsEntry s.orders (new_order id text now ∷ []) h.0.entries
                  ((ground arith, refl), tt);
            bounded = omega (arith, length-append s.orders (new_order id text now ∷ []), room c);
            ids = IdsApart-last s.orders (new_order id text now) h.0.ids f;
            aliases = AliasesApart-last s.orders (new_order id text now) h.0.aliases refl;
          }))
  ]
]
  where
    room : leb max_orders (length s.orders) ≡ false → length s.orders + 1 ≤ max_orders
    room c = ground arith
