-- ===== src/Workspaces/KeyOrder.antt =====
-- The order in which the file of src/workspace/index.ts holds the names changes nothing else.
use lark_remote.Common.{
  All, Bool, String, true, [], ◌∷◌, filter, none, some, ◌≡◌, refl, ap, ◌∙◌, arith, str_eq, eq_iff,
  is_some, not, if◌then◌else◌,
}
use lark_remote.Common.Dict.{lookup, Distinct}
use lark_remote.Workspaces.{
  WorkspaceEntryData, Entries, array_index, stands_before, place, in_key_order,
}

-- Whether the name is no array index.
abbrev pub is_word : String × WorkspaceEntryData → Bool
is_word (name, e) = not (is_some (array_index name))

lookup-place :
    (k name : String) (e : WorkspaceEntryData) (m : Entries)
    → lookup name m ≡ none
    → lookup k (place name e m) ≡ (if str_eq name k then some e else lookup k m)
unfolding lookup
lookup-place k name e [] h = ground arith
lookup-place k name e ((other, v) ∷ m) h =
    ground (arith, h, lookup-place k name e m, eq_iff other name, eq_iff name k, eq_iff other k)

pub lookup-in_key_order :
    (k : String) (m : Entries) → Distinct m → lookup k (in_key_order m) ≡ lookup k m
unfolding lookup
lookup-in_key_order k [] d = refl
lookup-in_key_order k ((name, e) ∷ m) d =
    lookup-place k name e (in_key_order m) (lookup-in_key_order name m d.1 ∙ d.0)
    ∙ ground (arith, lookup-in_key_order k m d.1)

Distinct-place :
    (name : String) (e : WorkspaceEntryData) (m : Entries)
    → lookup name m ≡ none
    → Distinct m
    → Distinct (place name e m)
unfolding lookup
Distinct-place name e [] h d = (refl, tt)
Distinct-place name e ((other, v) ∷ m) h d = ground (
  arith,
  h,
  d.0,
  d.1,
  lookup-place other name e m,
  Distinct-place name e m,
  eq_iff other name,
  eq_iff name other,
)

pub Distinct-in_key_order : (m : Entries) → Distinct m → Distinct (in_key_order m)
unfolding lookup
Distinct-in_key_order [] d = tt
Distinct-in_key_order ((name, e) ∷ m) d =
    Distinct-place name e (in_key_order m) (lookup-in_key_order name m d.1 ∙ d.0)
      (Distinct-in_key_order m d.1)

words-place :
    (name : String) (e : WorkspaceEntryData) (m : Entries)
    → filter is_word (place name e m) ≡ filter is_word ((name, e) ∷ m)
unfolding stands_before
words-place name e [] = refl
words-place name e ((other, v) ∷ m) = ground (arith, words-place name e m)

pub words-in_key_order : (m : Entries) → filter is_word (in_key_order m) ≡ filter is_word m
words-in_key_order [] = refl
words-in_key_order ((name, e) ∷ m) =
    words-place name e (in_key_order m) ∙ ground (arith, words-in_key_order m)

place-words :
    (name : String) (e : WorkspaceEntryData) (m : Entries)
    → is_word (name, e) ≡ true
    → All (λ x. is_word x ≡ true) m
    → place name e m ≡ (name, e) ∷ m
unfolding stands_before
place-words name e [] w h = refl
place-words name e ((other, v) ∷ m) w h = ground (arith, w, h.0)

pub in_key_order-words : (m : Entries) → All (λ x. is_word x ≡ true) m → in_key_order m ≡ m
in_key_order-words [] h = refl
in_key_order-words ((name, e) ∷ m) h =
    ap (place name e) (in_key_order-words m h.1) ∙ place-words name e m h.0 h.1
