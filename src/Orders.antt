-- ===== src/Orders.antt =====
-- The saved orders of src/order/index.ts, and their aliases at the head of a message,
-- src/order/alias-resolve.ts and `expandAlias` of src/router/index.ts. The file is what `JSON.parse`
-- makes of it; a new id and the time are arguments.
use lark_remote.Common.{
  ℕ, String, str_eq, Text, text_eq, trim, within, Bool, true, false, ◌&&◌, ◌||◌, not, List, [], ◌∷◌,
  ◌++◌, map, filter, any, all, take, length, find?, Option, none, some, ltb, leb, ◌==◌,
  if◌then◌else◌,
}
pub mod Alias
pub mod Laws
pub mod Step
pub mod Kept
pub mod AliasLaws
mod Tests

pub record OrderEntry : Type 0 where
  pub id : String
  pub text : Text
  pub created_at : String
  pub used_at : Option String
  pub alias : Option Text

abbrev pub max_text_length : ℕ
max_text_length = 200

abbrev pub max_orders : ℕ
max_orders = 50

abbrev pub max_alias_name_length : ℕ
max_alias_name_length = 20

abbrev pub is_letter : ℕ → Bool
is_letter c = within b'A' b'Z' c || within b'a' b'z' c || c == b'_'

abbrev pub is_name_char : ℕ → Bool
is_name_char c = is_letter c || within b'0' b'9' c

-- `ALIAS_NAME_PATTERN.test`.
unfoldable pub is_alias_name : Text → Bool
is_alias_name [] = false
is_alias_name (c ∷ cs) = is_letter c && all is_name_char cs

abbrev pub is_valid_alias : Text → Bool
is_valid_alias name = is_alias_name name && leb (length name) max_alias_name_length

-- An element of the file; a field that is missing or no string is `none`.
pub data Stored : Type 0 where
  no_entry : Stored
  fields : Option String → Option Text → Option String → Option String → Option Text → Stored

pub data OrderFile : Type 0 where
  unreadable no_array : OrderFile
  array : List Stored → OrderFile

abbrev pub valid_alias : Option Text → Option Text
valid_alias none = none
valid_alias (some name) = if is_valid_alias name then some name else none

unfoldable pub load_entry : Stored → Option OrderEntry
unfolding is_alias_name
load_entry (fields (some id) (some text) (some created_at) used_at alias) = some (record {
  id = id;
  text = take max_text_length text;
  created_at = created_at;
  used_at = used_at;
  alias = valid_alias alias;
})
load_entry _ = none

abbrev pub put_entry : Option OrderEntry → List OrderEntry → List OrderEntry
put_entry none es = es
put_entry (some e) es = e ∷ es

abbrev pub load_entries : List Stored → List OrderEntry
load_entries [] = []
load_entries (x ∷ xs) = put_entry (load_entry x) (load_entries xs)

unfoldable pub load : OrderFile → List OrderEntry
unfolding load_entry
load unreadable = []
load no_array = []
load (array xs) = load_entries xs

abbrev pub stored : OrderEntry → Stored
stored e = fields (some e.id) (some e.text) (some e.created_at) e.used_at e.alias

pub record OrderStore : Type 0 where
  pub file : OrderFile
  pub orders : List OrderEntry

abbrev pub persist : List OrderEntry → OrderStore
persist es = record { file = array (map stored es); orders = es }

abbrev pub open_store : OrderFile → OrderStore
open_store f = record { file = f; orders = load f }

abbrev pub reload : OrderStore → OrderStore
reload s = open_store s.file

-- What a call returns, or why it throws.
pub data OrderResult : Type 0 where
  entry : OrderEntry → OrderResult
  nothing text_too_long too_many_orders blank_text bad_alias alias_taken : OrderResult

abbrev pub has_order : String → OrderEntry → Bool
has_order id e = str_eq e.id id

-- The entry that `find` finds is changed in place.
abbrev pub change_order : String → (OrderEntry → OrderEntry) → List OrderEntry → List OrderEntry
change_order id f [] = []
change_order id f (e ∷ es) =
    let rest = e ∷ change_order id f es in if has_order id e then f e ∷ es else rest

abbrev pub new_order : String → Text → String → OrderEntry
new_order id text now = record {
  id = id;
  text = text;
  created_at = now;
  used_at = none;
  alias = none;
}

unfoldable pub save : Text → String → String → OrderStore → OrderStore × OrderResult
save text id now s =
    if ltb max_text_length (length text)
    then (s, text_too_long)
    else if leb max_orders (length s.orders)
    then (s, too_many_orders)
    else (persist (s.orders ++ new_order id text now ∷ []), entry (new_order id text now))

abbrev pub used_now : String → OrderEntry → OrderEntry
used_now now e = record e { used_at = some now }

unfoldable pub update_used_at : String → String → OrderStore → OrderStore
update_used_at id now s =
    if any (has_order id) s.orders then persist (change_order id (used_now now) s.orders) else s

abbrev pub with_text : Text → OrderEntry → OrderEntry
with_text text e = record e { text = text }

unfoldable pub update_text : String → Text → OrderStore → OrderStore × OrderResult
unfolding trim
update_text id new_text s =
    let trimmed = trim new_text in
    if text_eq trimmed []
    then (s, blank_text)
    else if ltb max_text_length (length trimmed)
    then (s, text_too_long)
    else elim (find? (has_order id) s.orders) [
      | none ↦ (s, nothing)
      | some e ↦
          if text_eq e.text trimmed
          then (s, entry e)
          else (persist (change_order id (with_text trimmed) s.orders), entry (with_text trimmed e))
    ]

abbrev pub has_alias : Text → OrderEntry → Bool
has_alias name e = elim e.alias as (λ _. Bool) [ none ↦ false | some n ↦ text_eq n name ]

abbrev pub with_alias : Option Text → OrderEntry → OrderEntry
with_alias alias e = record e { alias = alias }

-- The missing and the empty name take the alias away.
unfoldable pub set_alias : String → Option Text → OrderStore → OrderStore × OrderResult
unfolding is_alias_name
set_alias id name s = elim (find? (has_order id) s.orders) [
  | none ↦ (s, nothing)
  | some e ↦ elim name [
    | none ↦ (persist (change_order id (with_alias none) s.orders), entry (with_alias none e))
    | some [] ↦ (persist (change_order id (with_alias none) s.orders), entry (with_alias none e))
    | some (c ∷ cs) ↦
        if is_valid_alias (c ∷ cs)
        then if any (λ o. not (has_order id o) && has_alias (c ∷ cs) o) s.orders
          then (s, alias_taken)
          else (
            persist (change_order id (with_alias (some (c ∷ cs))) s.orders),
            entry (with_alias (some (c ∷ cs)) e),
          )
        else (s, bad_alias)
  ]
]

unfoldable pub remove : String → OrderStore → OrderStore
remove id s = persist (filter (λ e. not (has_order id e)) s.orders)
