-- ===== src/Orders/Laws.antt =====
-- What every call of src/order/index.ts keeps.
use mathlib.Core.Path.{subst}
use lark_remote.Common.{
  take-all, ◌≤◌, String, str_eq, Text, text_eq, text_eq_iff, Bool, true, false, ◌&&◌, ◌||◌, not,
  List, [], ◌∷◌, map, any, length, All, Option, none, some, ◌≡◌, refl, ap, ◌∙◌, arith, eq_iff, inl,
  inr, Bool-cases,
}
use lark_remote.Orders.{
  OrderEntry, max_text_length, max_orders, is_valid_alias, valid_alias, load_entry, load_entries,
  load, array, stored, put_entry, has_order, change_order, has_alias, with_alias,
}

abbrev pub alias_valid : Option Text → Bool
alias_valid none = true
alias_valid (some name) = is_valid_alias name

-- A text within the limit and a well-formed alias.
abbrev pub IsEntry : OrderEntry → Type 0
IsEntry e = (length e.text ≤ max_text_length) × (alias_valid e.alias ≡ true)

abbrev pub IdsApart : List OrderEntry → Type 0
IdsApart [] = Unit
IdsApart (e ∷ es) = (any (has_order e.id) es ≡ false) × IdsApart es

abbrev pub clash : Option Text → OrderEntry → Bool
clash none e = false
clash (some name) e = has_alias name e

abbrev pub AliasesApart : List OrderEntry → Type 0
AliasesApart [] = Unit
AliasesApart (e ∷ es) = (any (clash e.alias) es ≡ false) × AliasesApart es

pub record IsOrders (es : List OrderEntry) : Type 0 where
  pub entries : All IsEntry es
  pub bounded : length es ≤ max_orders
  pub ids : IdsApart es
  pub aliases : AliasesApart es

valid_alias-eq : (a : Option Text) → alias_valid a ≡ true → valid_alias a ≡ a
valid_alias-eq none h = refl
valid_alias-eq (some name) h = rw h refl

-- An entry that is written is read back.
load_entry-stored : (e : OrderEntry) → IsEntry e → load_entry (stored e) ≡ some e
unfolding load_entry
load_entry-stored e h = rw (take-all max_text_length e.text h.0, valid_alias-eq e.alias h.1) refl

pub load-stored : (es : List OrderEntry) → All IsEntry es → load (array (map stored es)) ≡ es
unfolding load
load-stored [] h = refl
load-stored (e ∷ es) h =
    ap (λ x. put_entry x (load_entries (map stored es))) (load_entry-stored e h.0)
    ∙ ap (λ rest. e ∷ rest) (load-stored es h.1)

-- Changes that keep the id.
abbrev pub KeepsId : (OrderEntry → OrderEntry) → Type 0
KeepsId f = (e : OrderEntry) → (f e).id ≡ e.id

abbrev pub KeepsAlias : (OrderEntry → OrderEntry) → Type 0
KeepsAlias f = (e : OrderEntry) → (f e).alias ≡ e.alias

clash_kept : (a : Option Text) (e e' : OrderEntry) → e'.alias ≡ e.alias → clash a e' ≡ clash a e
clash_kept none e e' h = refl
clash_kept (some name) e e' h =
    ap (λ al. elim al as (λ _. Bool) [ none ↦ false | some n ↦ text_eq n name ]) h

pub or_false : (a b : Bool) → a ≡ false → b ≡ false → (a || b) ≡ false
or_false a b h k = ground arith

pub or_left : (a b : Bool) → (a || b) ≡ false → a ≡ false
or_left a b h = ground arith

pub or_right : (a b : Bool) → (a || b) ≡ false → b ≡ false
or_right a b h = ground arith

module _ (id : String) (f : OrderEntry → OrderEntry) where
  pub length-change : (es : List OrderEntry) → length (change_order id f es) ≡ length es
  length-change [] = refl
  length-change (e ∷ es) = ground (arith, length-change es)

  pub All-change :
      (es : List OrderEntry)
      → ((e : OrderEntry) → IsEntry e → IsEntry (f e))
      → All IsEntry es
      → All IsEntry (change_order id f es)
  All-change [] k h = tt
  All-change (e ∷ es) k h = elim (Bool-cases (has_order id e)) [
    | inl b ↦ rw b (k e h.0, h.1)
    | inr b ↦ rw b (h.0, All-change es k h.1)
  ]

  any-change :
      (p : OrderEntry → Bool) (es : List OrderEntry)
      → ((e : OrderEntry) → p (f e) ≡ p e)
      → any p (change_order id f es) ≡ any p es
  any-change p [] k = refl
  any-change p (e ∷ es) k = elim (Bool-cases (has_order id e)) [
    | inl b ↦ rw b (ap (λ x. x || any p es) (k e))
    | inr b ↦ rw b (ap (λ x. p e || x) (any-change p es k))
  ]

  pub IdsApart-change :
      (es : List OrderEntry) → KeepsId f → IdsApart es → IdsApart (change_order id f es)
  IdsApart-change [] k h = tt
  IdsApart-change (e ∷ es) k h = elim (Bool-cases (has_order id e)) [
    | inl b ↦ rw b (rw (k e) h.0, h.1)
    | inr b ↦ rw b (
      any-change (has_order e.id) es (λ e'. ap (λ x. str_eq x e.id) (k e')) ∙ h.0,
      IdsApart-change es k h.1,
    )
  ]

  pub AliasesApart-change :
      (es : List OrderEntry) → KeepsAlias f → AliasesApart es → AliasesApart (change_order id f es)
  AliasesApart-change [] k h = tt
  AliasesApart-change (e ∷ es) k h = elim (Bool-cases (has_order id e)) [
    | inl b ↦ rw b (rw (k e) h.0, h.1)
    | inr b ↦ rw b (
      any-change (clash e.alias) es (λ e'. clash_kept e.alias e' (f e') (k e')) ∙ h.0,
      AliasesApart-change es k h.1,
    )
  ]

  -- No entry that did not clash clashes after the change.
  any-change-false :
      (p : OrderEntry → Bool) (es : List OrderEntry)
      → ((e : OrderEntry) → has_order id e ≡ true → p (f e) ≡ false)
      → any p es ≡ false
      → any p (change_order id f es) ≡ false
  any-change-false p [] k h = refl
  any-change-false p (e ∷ es) k h = elim (Bool-cases (has_order id e)) [
    | inl b ↦ rw b (or_false (p (f e)) (any p es) (k e b) (or_right (p e) (any p es) h))
    | inr b ↦ rw b (
        or_false (p e) (any p (change_order id f es)) (or_left (p e) (any p es) h)
          (any-change-false p es k (or_right (p e) (any p es) h)))
  ]

any-clash-none : (es : List OrderEntry) → any (clash none) es ≡ false
any-clash-none [] = refl
any-clash-none (e ∷ es) = any-clash-none es

clash-with_none : (a : Option Text) (e : OrderEntry) → clash a (with_alias none e) ≡ false
clash-with_none none e = refl
clash-with_none (some name) e = refl

-- Taking an alias away.
pub AliasesApart-none :
    (id : String) (es : List OrderEntry)
    → AliasesApart es
    → AliasesApart (change_order id (with_alias none) es)
AliasesApart-none id [] h = tt
AliasesApart-none id (e ∷ es) h = elim (Bool-cases (has_order id e)) [
  | inl b ↦ rw b (any-clash-none es, h.1)
  | inr b ↦ rw b (
    any-change-false id (with_alias none) (clash e.alias) es (λ e' _. clash-with_none e.alias e')
        h.0,
    AliasesApart-none id es h.1,
  )
]

-- Whether another order has the alias.
abbrev pub taken : String → Text → OrderEntry → Bool
taken id name e = not (has_order id e) && has_alias name e

untaken :
    (id : String) (name : Text) (e : OrderEntry)
    → has_order id e ≡ false
    → taken id name e ≡ false
    → has_alias name e ≡ false
untaken id name e h k = at (has_order id e) (has_alias name e) h k
  where
    at : (a b : Bool) → a ≡ false → (not a && b) ≡ false → b ≡ false
    at a b h k = ground arith

any-clash-alone :
    (id : String) (name : Text) (es : List OrderEntry)
    → any (has_order id) es ≡ false
    → any (taken id name) es ≡ false
    → any (clash (some name)) es ≡ false
any-clash-alone id name [] h k = refl
any-clash-alone id name (e ∷ es) h k =
    or_false (has_alias name e) (any (clash (some name)) es)
      (untaken id name e (or_left (has_order id e) (any (has_order id) es) h)
        (or_left (taken id name e) (any (taken id name) es) k))
      (any-clash-alone id name es (or_right (has_order id e) (any (has_order id) es) h)
        (or_right (taken id name e) (any (taken id name) es) k))

pub text_eq_comm : (a b : Text) → text_eq a b ≡ false → text_eq b a ≡ false
text_eq_comm a b h = ground (arith, text_eq_iff a b, text_eq_iff b a)

clash-with_some :
    (name : Text) (e e' : OrderEntry)
    → has_alias name e ≡ false
    → clash e.alias (with_alias (some name) e') ≡ false
clash-with_some name e e' h = at e.alias h
  where
    at :
        (a : Option Text)
        → elim a as (λ _. Bool) [ none ↦ false | some n ↦ text_eq n name ] ≡ false
        → clash a (with_alias (some name) e') ≡ false
    at none k = refl
    at (some n) k = text_eq_comm n name k

-- Giving an alias that no other order has.
pub AliasesApart-some :
    (id : String) (name : Text) (es : List OrderEntry)
    → IdsApart es
    → any (taken id name) es ≡ false
    → AliasesApart es
    → AliasesApart (change_order id (with_alias (some name)) es)
AliasesApart-some id name [] u t h = tt
AliasesApart-some id name (e ∷ es) u t h = elim (Bool-cases (has_order id e)) [
  | inl b ↦ rw b (
    any-clash-alone id name es
        (subst (λ i. any (has_order i) es ≡ false) ((eq_iff e.id id).0 b) u.0)
        (or_right (taken id name e) (any (taken id name) es) t),
    h.1,
  )
  | inr b ↦ rw b (
    any-change-false id (with_alias (some name)) (clash e.alias) es
        (λ e' _.
          clash-with_some name e e'
            (untaken id name e b (or_left (taken id name e) (any (taken id name) es) t)))
        h.0,
    AliasesApart-some id name es u.1 (or_right (taken id name e) (any (taken id name) es) t) h.1,
  )
]
