-- ===== src/Orders/Kept.antt =====
-- Every call of src/order/index.ts keeps the orders well-formed and the file in step.
use mathlib.Core.Path.{subst}
use lark_remote.Common.{
  ◌≤◌, String, Text, text_eq, trim, Bool, true, false, not, List, [], ◌∷◌, filter, any, length,
  length-filter-le, find?, All-filter, Option, none, some, ltb, ◌≡◌, refl, sym, arith, inl, inr,
  Bool-cases, Option-cases,
}
use lark_remote.Orders.{
  OrderEntry, max_text_length, is_valid_alias, load, OrderStore, reload, open_store, unreadable,
  persist, has_order, change_order, used_now, with_text, with_alias, update_used_at, update_text,
  set_alias, remove,
}
use lark_remote.Orders.Laws.{
  IsEntry, IdsApart, AliasesApart, clash, IsOrders, or_left, or_right, or_false, length-change,
  All-change, IdsApart-change, AliasesApart-change, AliasesApart-none, AliasesApart-some, taken,
  KeepsId,
}
use lark_remote.Orders.Step.{
  OrderCall, do_call, do_calls, AllFresh, IsFresh, IsKept, persist-IsKept, save-IsKept,
}

-- A change in place, with what it does to the aliases.
change-IsKept :
    (id : String) (f : OrderEntry → OrderEntry) (es : List OrderEntry)
    → KeepsId f
    → ((e : OrderEntry) → IsEntry e → IsEntry (f e))
    → IsOrders es
    → AliasesApart (change_order id f es)
    → IsKept (persist (change_order id f es))
change-IsKept id f es k v h a = persist-IsKept (change_order id f es) (record {
  entries = All-change id f es v h.entries;
  bounded = omega (arith, length-change id f es, h.bounded);
  ids = IdsApart-change id f es k h.ids;
  aliases = a;
})

update_used_at-IsKept :
    (id now : String) (s : OrderStore) → IsKept s → IsKept (update_used_at id now s)
unfolding update_used_at
update_used_at-IsKept id now s h = elim (Bool-cases (any (has_order id) s.orders)) [
  | inr b ↦ rw b h
  | inl b ↦ rw b (
      change-IsKept id (used_now now) s.orders (λ _. refl) (λ _ v. v) h.0
        (AliasesApart-change id (used_now now) s.orders (λ _. refl) h.0.aliases))
]

fits : (text : Text) → ltb max_text_length (length text) ≡ false → length text ≤ max_text_length
fits text h = ground arith

update_text-IsKept :
    (id : String) (text : Text) (s : OrderStore) → IsKept s → IsKept (update_text id text s).0
unfolding update_text
update_text-IsKept id text s h = elim (Bool-cases (text_eq (trim text) [])) [
  | inl b ↦ rw b h
  | inr b ↦ elim (Bool-cases (ltb max_text_length (length (trim text)))) [
    | inl c ↦ rw (b, c) h
    | inr c ↦ elim (Option-cases (find? (has_order id) s.orders)) [
      | inl f ↦ rw (b, c, f) h
      | inr (e, f) ↦ elim (Bool-cases (text_eq e.text (trim text))) [
        | inl q ↦ rw (b, c, f, q) h
        | inr q ↦
            rw (b, c, f, q)
              (change-IsKept id (with_text (trim text)) s.orders (λ _. refl)
                (λ _ v. (fits (trim text) c, v.1)) h.0
                (AliasesApart-change id (with_text (trim text)) s.orders (λ _. refl) h.0.aliases))
      ]
    ]
  ]
]

no_alias-IsKept :
    (id : String) (s : OrderStore)
    → IsKept s
    → IsKept (persist (change_order id (with_alias none) s.orders))
no_alias-IsKept id s h =
    change-IsKept id (with_alias none) s.orders (λ _. refl) (λ _ v. (v.0, refl)) h.0
      (AliasesApart-none id s.orders h.0.aliases)

set_alias-IsKept :
    (id : String) (name : Option Text) (s : OrderStore) → IsKept s → IsKept (set_alias id name s).0
unfolding set_alias
set_alias-IsKept id name s h = elim (Option-cases (find? (has_order id) s.orders)) [
  | inl f ↦ rw (f, set_alias) h
  | inr (e, f) ↦ at e f name
]
  where
    at :
        (e : OrderEntry)
        → find? (has_order id) s.orders ≡ some e
        → (name : Option Text) → IsKept (set_alias id name s).0
    at e f none = rw (f, set_alias) (no_alias-IsKept id s h)
    at e f (some []) = rw (f, set_alias) (no_alias-IsKept id s h)
    at e f (some (c ∷ cs)) = elim (Bool-cases (is_valid_alias (c ∷ cs))) [
      | inr b ↦ rw (f, set_alias, b) h
      | inl b ↦ elim (Bool-cases (any (taken id (c ∷ cs)) s.orders)) [
        | inl q ↦ rw (f, set_alias, b, q) h
        | inr q ↦
            rw (f, set_alias, b, q)
              (change-IsKept id (with_alias (some (c ∷ cs))) s.orders (λ _. refl) (λ _ v. (v.0, b))
                h.0 (AliasesApart-some id (c ∷ cs) s.orders h.0.ids q h.0.aliases))
      ]
    ]

module _ (q : OrderEntry → Bool) (e : OrderEntry) (es : List OrderEntry) where
  filter_in : q e ≡ true → filter q (e ∷ es) ≡ e ∷ filter q es
  filter_in b = rw (b, filter) refl

  filter_out : q e ≡ false → filter q (e ∷ es) ≡ filter q es
  filter_out b = rw (b, filter) refl

any-filter-false :
    (p q : OrderEntry → Bool) (es : List OrderEntry)
    → any p es ≡ false
    → any p (filter q es) ≡ false
any-filter-false p q [] h = refl
any-filter-false p q (e ∷ es) h = elim (Bool-cases (q e)) [
  | inl b ↦ rw (filter_in q e es b) (
      or_false (p e) (any p (filter q es)) (or_left (p e) (any p es) h)
        (any-filter-false p q es (or_right (p e) (any p es) h)))
  | inr b ↦ rw (filter_out q e es b) (any-filter-false p q es (or_right (p e) (any p es) h))
]

IdsApart-filter :
    (q : OrderEntry → Bool) (es : List OrderEntry) → IdsApart es → IdsApart (filter q es)
IdsApart-filter q [] h = tt
IdsApart-filter q (e ∷ es) h = elim (Bool-cases (q e)) [
  | inl b ↦
      rw (filter_in q e es b) (any-filter-false (has_order e.id) q es h.0, IdsApart-filter q es h.1)
  | inr b ↦ rw (filter_out q e es b) (IdsApart-filter q es h.1)
]

AliasesApart-filter :
    (q : OrderEntry → Bool) (es : List OrderEntry) → AliasesApart es → AliasesApart (filter q es)
AliasesApart-filter q [] h = tt
AliasesApart-filter q (e ∷ es) h = elim (Bool-cases (q e)) [
  | inl b ↦
      rw (filter_in q e es b)
        (any-filter-false (clash e.alias) q es h.0, AliasesApart-filter q es h.1)
  | inr b ↦ rw (filter_out q e es b) (AliasesApart-filter q es h.1)
]

remove-IsKept : (id : String) (s : OrderStore) → IsKept s → IsKept (remove id s)
unfolding remove
remove-IsKept id s h =
    let q : OrderEntry → Bool = λ e. not (has_order id e) in
    persist-IsKept (filter q s.orders) (record {
      entries = All-filter IsEntry q s.orders h.0.entries;
      bounded = omega (arith, length-filter-le q s.orders, h.0.bounded);
      ids = IdsApart-filter q s.orders h.0.ids;
      aliases = AliasesApart-filter q s.orders h.0.aliases;
    })

reload-IsKept : (s : OrderStore) → IsKept s → IsKept (reload s)
reload-IsKept s h = (subst IsOrders (sym h.1) h.0, refl)

do_call-IsKept : (c : OrderCall) (s : OrderStore) → IsFresh c s → IsKept s → IsKept (do_call c s)
unfolding do_call
do_call-IsKept (OrderCall.saved text id now) s f h = save-IsKept text id now s f h
do_call-IsKept (OrderCall.used id now) s f h = update_used_at-IsKept id now s h
do_call-IsKept (OrderCall.edited id text) s f h = update_text-IsKept id text s h
do_call-IsKept (OrderCall.aliased id name) s f h = set_alias-IsKept id name s h
do_call-IsKept (OrderCall.removed id) s f h = remove-IsKept id s h
do_call-IsKept OrderCall.reloaded s f h = reload-IsKept s h

do_calls-IsKept :
    (cs : List OrderCall) (s : OrderStore) → AllFresh cs s → IsKept s → IsKept (do_calls cs s)
do_calls-IsKept [] s f h = h
do_calls-IsKept (c ∷ cs) s f h = do_calls-IsKept cs (do_call c s) f.1 (do_call-IsKept c s f.0 h)

-- Whatever calls are made on a store that had no file, if every new id is that of no order, there
-- are at most 50 orders with texts of at most 200 code units and well-formed aliases, no two with
-- one id or one alias, and what the file holds is read back as these orders.
pub orders-IsKept :
    (cs : List OrderCall)
    → AllFresh cs (open_store unreadable)
    → IsKept (do_calls cs (open_store unreadable))
unfolding load
orders-IsKept cs f =
    do_calls-IsKept cs (open_store unreadable) f
      (record { entries = tt; bounded = omega arith; ids = tt; aliases = tt }, refl)
