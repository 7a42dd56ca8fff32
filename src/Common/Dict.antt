-- ===== src/Common/Dict.antt =====
-- A JavaScript `Map` with text keys: its entries in insertion order.
use Prim.Native.String.{String}
use mathlib.Core.Path.{◌≡◌, refl}
use mathlib.Core.Bool.{false}
use mathlib.Core.List.{List, [], ◌∷◌, ◌++◌}
use mathlib.Core.Option.{Option, none, some}
use native.Mathlib.Omega.{arith}
use text.Mathlib.Text.{◌==◌}
use text.Mathlib.TextEquality.{eq_iff}
use lark_remote.Common.Tests.{if◌then◌else◌}

module _ {ℓ} {V : Type ℓ} where
  -- `map.get(key)`.
  unfoldable pub lookup : String → List (String × V) → Option V
  lookup key [] = none
  lookup key ((held, value) ∷ rest) =
      let further = lookup key rest in if held == key then some value else further

  -- `map.set(key, value)`: in place, or at the end.
  unfoldable pub insert : String → V → List (String × V) → List (String × V)
  insert key value [] = (key, value) ∷ []
  insert key value ((held, old) ∷ rest) =
      let further = (held, old) ∷ insert key value rest in
      if held == key then (held, value) ∷ rest else further

  -- `map.delete(key)`.
  unfoldable pub erase : String → List (String × V) → List (String × V)
  erase key [] = []
  erase key ((held, old) ∷ rest) =
      let further = (held, old) ∷ erase key rest in if held == key then rest else further

  -- What was set is got.
  pub lookup-insert_self :
      (key : String) (value : V) (map : List (String × V))
      → lookup key (insert key value map) ≡ some value
  unfolding lookup insert
  lookup-insert_self key value [] = ground (arith, eq_iff key key)
  lookup-insert_self key value ((held, old) ∷ rest) =
      ground (arith, eq_iff held key, lookup-insert_self key value rest)

  -- A fresh key goes to the end.
  pub insert_fresh :
      (k : String) (v : V) (m : List (String × V))
      → lookup k m ≡ none
      → insert k v m ≡ m ++ (k, v) ∷ []
  unfolding lookup insert
  insert_fresh k v [] h = refl
  insert_fresh k v ((j, w) ∷ m) h = ground (arith, insert_fresh k v m)

  pub lookup-erase_ne :
      (k j : String) (m : List (String × V)) → (k == j) ≡ false → lookup j (erase k m) ≡ lookup j m
  unfolding lookup erase
  lookup-erase_ne k j [] h = refl
  lookup-erase_ne k j ((i, w) ∷ m) h =
      ground (arith, eq_iff k j, eq_iff i k, eq_iff i j, lookup-erase_ne k j m h)

-- No key stands twice.
abbrev pub Distinct : {V : Type 0} → List (String × V) → Type 0
Distinct [] = Unit
Distinct ((k, v) ∷ m) = (lookup k m ≡ none) × Distinct m

pub lookup-erase-none :
    {V : Type 0} (k id : String) (m : List (String × V))
    → lookup k m ≡ none
    → lookup k (erase id m) ≡ none
unfolding lookup erase
lookup-erase-none k id [] h = refl
lookup-erase-none k id ((j, v) ∷ m) h = ground (arith, lookup-erase-none k id m)

pub Distinct-erase :
    {V : Type 0} (id : String) (m : List (String × V)) → Distinct m → Distinct (erase id m)
unfolding erase
Distinct-erase id [] d = tt
Distinct-erase id ((j, v) ∷ m) d =
    ground (arith, Distinct-erase id m d.1, lookup-erase-none j id m d.0)

-- In a map, an erased key is gone.
pub lookup-erase_self :
    {V : Type 0} (id : String) (m : List (String × V)) → Distinct m → lookup id (erase id m) ≡ none
unfolding lookup erase
lookup-erase_self id [] d = refl
lookup-erase_self id ((j, v) ∷ m) d = ground (arith, eq_iff j id, lookup-erase_self id m d.1)

pub lookup-concat_ne :
    {V : Type 0} (k j : String) (v : V) (m : List (String × V))
    → lookup k m ≡ none
    → (j == k) ≡ false
    → lookup k (m ++ (j, v) ∷ []) ≡ none
unfolding lookup
lookup-concat_ne k j v [] h e = ground arith
lookup-concat_ne k j v ((i, w) ∷ m) h e = ground (arith, lookup-concat_ne k j v m)

pub Distinct-concat :
    {V : Type 0} (j : String) (v : V) (m : List (String × V))
    → Distinct m
    → lookup j m ≡ none
    → Distinct (m ++ (j, v) ∷ [])
unfolding lookup
Distinct-concat j v [] d h = (refl, tt)
Distinct-concat j v ((i, w) ∷ m) d h =
    ground (arith, Distinct-concat j v m d.1, lookup-concat_ne i j v m d.0, eq_iff i j, eq_iff j i)
