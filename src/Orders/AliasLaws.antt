-- ===== src/Orders/AliasLaws.antt =====
-- The expansion of an alias, src/order/alias-resolve.ts, over orders that are kept apart.
use mathlib.Core.Path.{subst}
use lark_remote.Common.{
  ℕ, Text, text_eq, text_eq_iff, Bool, true, false, ◌&&◌, ◌||◌, List, [], ◌∷◌, ◌++◌, any, all,
  find?, All, none, some, or_else, ◌≡◌, refl, sym, ap, ◌⊎◌, inl, inr, arith, ◌==◌, Option-cases,
  leb, length,
}
use lark_remote.Orders.{
  OrderEntry, OrderStore, is_letter, is_name_char, is_alias_name, max_alias_name_length,
}
use lark_remote.Orders.Alias.{
  AliasEntry, name_of, after_name, ends_name, match_alias, resolve_alias, aliases_of,
  expand_alias_message,
}
use lark_remote.Orders.Laws.{
  IsEntry, alias_valid, AliasesApart, clash, IsOrders, or_left, or_right, text_eq_comm,
}

-- The order is among these.
abbrev pub Held : OrderEntry → List OrderEntry → Type 0
Held e [] = ⊥
Held e (x ∷ xs) = (x ≡ e) ⊎ Held e xs

any-Held :
    (p : OrderEntry → Bool) (e : OrderEntry) (es : List OrderEntry)
    → any p es ≡ false
    → Held e es
    → p e ≡ false
any-Held p e [] h m = absurd m
any-Held p e (x ∷ xs) h (inl q) = subst (λ y. p y ≡ false) q (or_left (p x) (any p xs) h)
any-Held p e (x ∷ xs) h (inr m) = any-Held p e xs (or_right (p x) (any p xs) h) m

IsEntry-Held : (e : OrderEntry) (es : List OrderEntry) → All IsEntry es → Held e es → IsEntry e
IsEntry-Held e [] h m = absurd m
IsEntry-Held e (x ∷ xs) h (inl q) = subst IsEntry q h.0
IsEntry-Held e (x ∷ xs) h (inr m) = IsEntry-Held e xs h.1 m

-- What ends a name is no character of it.
ends_name-not : (c : ℕ) → (c == 32 || c == 9) ≡ true → is_name_char c ≡ false
ends_name-not c h = ground arith

and_left : (a b : Bool) → (a && b) ≡ true → a ≡ true
and_left a b h = ground arith

and_right : (a b : Bool) → (a && b) ≡ true → b ≡ true
and_right a b h = ground arith

name_of-end : (rest : Text) → ends_name rest ≡ true → name_of rest ≡ []
unfolding name_of
name_of-end [] h = refl
name_of-end (c ∷ cs) h = rw (ends_name-not c h) refl

after_name-end : (rest : Text) → ends_name rest ≡ true → after_name rest ≡ rest
unfolding after_name
after_name-end [] h = refl
after_name-end (c ∷ cs) h = rw (ends_name-not c h) refl

module _ (rest : Text) (ends : ends_name rest ≡ true) where
  name_of-append : (name : Text) → all is_name_char name ≡ true → name_of (name ++ rest) ≡ name
  unfolding name_of
  name_of-append [] h = name_of-end rest ends
  name_of-append (c ∷ cs) h =
      rw
        (
          and_left (is_name_char c) (all is_name_char cs) h,
          name_of-append cs (and_right (is_name_char c) (all is_name_char cs) h),
        )
        refl

  after_name-append :
      (name : Text) → all is_name_char name ≡ true → after_name (name ++ rest) ≡ rest
  unfolding after_name
  after_name-append [] h = after_name-end rest ends
  after_name-append (c ∷ cs) h =
      rw
        (
          and_left (is_name_char c) (all is_name_char cs) h,
          after_name-append cs (and_right (is_name_char c) (all is_name_char cs) h),
        )
        refl

  -- The name of a valid alias at the head of a message is matched whole.
  match_alias-append :
      (name : Text)
      → is_alias_name name ≡ true
      → match_alias (b'$' ∷ name ++ rest) ≡ some (name, rest)
  unfolding match_alias is_alias_name
  match_alias-append [] h = absurd (ground (arith, h))
  match_alias-append (c ∷ cs) h =
      let letter = and_left (is_letter c) (all is_name_char cs) h in
      let chars = and_right (is_letter c) (all is_name_char cs) h in
      rw (letter, name_of-append cs chars, after_name-append cs chars, ends) refl

abbrev alias_entry : Text → Text → AliasEntry
alias_entry name text = record { name = name; text = text }

text_eq_refl : (s : Text) → text_eq s s ≡ true
text_eq_refl s = (text_eq_iff s s).1 refl

other_name :
    (x e : OrderEntry) (name other : Text)
    → x.alias ≡ some other
    → e.alias ≡ some name
    → clash x.alias e ≡ false
    → text_eq other name ≡ false
other_name x e name other n h k = text_eq_comm name other (
    subst (λ al. elim al as (λ _. Bool) [ none ↦ false | some l ↦ text_eq l other ] ≡ false) h
      (subst (λ al. clash al e ≡ false) n k))

-- The order that has an alias is the one that is found by it.
find-aliases_of :
    (e : OrderEntry) (name : Text) (es : List OrderEntry)
    → e.alias ≡ some name
    → AliasesApart es
    → Held e es
    → find? (λ (a : AliasEntry). text_eq a.name name) (aliases_of es)
      ≡ some (alias_entry name e.text)
find-aliases_of e name [] h a m = absurd m
find-aliases_of e name (x ∷ xs) h a (inl q) =
    rw (subst (λ y. y.alias ≡ some name) (sym q) h, find?, text_eq_refl name)
      (ap (λ (y : OrderEntry). some (alias_entry name y.text)) q)
find-aliases_of e name (x ∷ xs) h a (inr m) = elim (Option-cases x.alias) [
  | inl n ↦ rw n (find-aliases_of e name xs h a.1 m)
  | inr (other, n) ↦
      rw (n, find?, other_name x e name other n h (any-Held (clash x.alias) e xs a.0 m))
        (find-aliases_of e name xs h a.1 m)
]

resolved :
    (message : Text) (aliases : List AliasEntry) (m : Text × Text) (a : AliasEntry)
    → match_alias message ≡ some m
    → find? (λ (a : AliasEntry). text_eq a.name m.0) aliases ≡ some a
    → resolve_alias message aliases ≡ some (a.text ++ m.1)
unfolding resolve_alias
resolved message aliases m a h k = rw (h, resolve_alias, k) refl

alias_name :
    (e : OrderEntry) (name : Text) → e.alias ≡ some name → IsEntry e → is_alias_name name ≡ true
alias_name e name a v =
    and_left (is_alias_name name) (leb (length name) max_alias_name_length)
      (subst (λ o. alias_valid o ≡ true) a v.1)

-- A message that begins with the alias of an order and then ends or goes on with a blank becomes the
-- text of this order with what followed.
pub expand_alias-kept :
    (s : OrderStore) (e : OrderEntry) (name rest : Text)
    → IsOrders s.orders
    → Held e s.orders
    → e.alias ≡ some name
    → ends_name rest ≡ true
    → expand_alias_message (b'$' ∷ name ++ rest) s ≡ e.text ++ rest
unfolding expand_alias_message
expand_alias-kept s e name rest h m a ends =
    ap (λ r. or_else r (b'$' ∷ name ++ rest))
      (resolved (b'$' ∷ name ++ rest) (aliases_of s.orders) (name, rest) (alias_entry name e.text)
        (match_alias-append rest ends name
          (alias_name e name a (IsEntry-Held e s.orders h.entries m)))
        (find-aliases_of e name s.orders a h.aliases m))
