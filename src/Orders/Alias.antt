-- ===== src/Orders/Alias.antt =====
-- `resolveAlias` of src/order/alias-resolve.ts and `expandAliasMessage` of src/router/index.ts.
use lark_remote.Common.{
  Text, text_eq, Bool, true, false, ◌&&◌, ◌||◌, List, [], ◌∷◌, ◌++◌, find?, Option, none, some,
  or_else, ◌==◌, if◌then◌else◌,
}
use lark_remote.Orders.{OrderEntry, OrderStore, is_letter, is_name_char}

pub record AliasEntry : Type 0 where
  pub name : Text
  pub text : Text

-- The longest run of name characters, and what follows it.
unfoldable pub name_of : Text → Text
name_of [] = []
name_of (c ∷ cs) = let more = c ∷ name_of cs in if is_name_char c then more else []

unfoldable pub after_name : Text → Text
after_name [] = []
after_name (c ∷ cs) = let more = after_name cs in if is_name_char c then more else c ∷ cs

-- The lookahead: the end, a space or a tab.
abbrev pub ends_name : Text → Bool
ends_name [] = true
ends_name (c ∷ cs) = c == 32 || c == 9

abbrev pub starts_name : Text → Bool
starts_name [] = false
starts_name (c ∷ cs) = is_letter c

-- The name that `match` captures with what follows it. A shorter name is followed by a name
-- character, so that only the longest can match.
unfoldable pub match_alias : Text → Option (Text × Text)
unfolding name_of after_name
match_alias [] = none
match_alias (c ∷ cs) =
    if (c == b'$') && starts_name cs && ends_name (after_name cs)
    then some (name_of cs, after_name cs)
    else none

unfoldable pub resolve_alias : Text → List AliasEntry → Option Text
unfolding match_alias
resolve_alias message aliases = elim (match_alias message) [
  | none ↦ none
  | some m ↦ elim (find? (λ (a : AliasEntry). text_eq a.name m.0) aliases) [
    | none ↦ none
    | some a ↦ some (a.text ++ m.1)
  ]
]

abbrev pub alias_of : OrderEntry → List AliasEntry → List AliasEntry
alias_of o rest = elim o.alias as (λ _. List AliasEntry) [
  | none ↦ rest
  | some name ↦ record { name = name; text = o.text } ∷ rest
]

abbrev pub aliases_of : List OrderEntry → List AliasEntry
aliases_of [] = []
aliases_of (o ∷ os) = alias_of o (aliases_of os)

unfoldable pub expand_alias_message : Text → OrderStore → Text
unfolding resolve_alias
expand_alias_message message s = or_else (resolve_alias message (aliases_of s.orders)) message
