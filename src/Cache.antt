-- ===== src/Cache.antt =====
-- The TTL cache with a bounded number of entries, src/common/ttl-cache.ts: a `Map` whose iteration
-- order is the order of use, the least recently used entry first. `now` is what `Date.now()` returns.
use lark_remote.Common.{
  ℕ, ◌+◌, ◌-◌, String, Bool, true, false, List, [], ◌∷◌, ◌++◌, Option, none, some, length, drop,
  leb, if◌then◌else◌,
}
use lark_remote.Common.Dict.{lookup, insert, erase}
pub mod Laws
mod Tests

pub record CacheEntry {ℓ} (V : Type ℓ) : Type ℓ where
  pub at : ℕ
  pub value : V

module _ {ℓ} {V : Type ℓ} where
  -- The value, if it is fresh, and the map with the entry moved to the end or dropped.
  unfoldable pub cache_get :
      ℕ → ℕ → String → List (String × CacheEntry V) → Option V × List (String × CacheEntry V)
  cache_get ttl now key map = elim (lookup key map) [
    | none ↦ (none, map)
    | some entry ↦
        if leb (entry.at + ttl) now
        then (none, erase key map)
        else (some entry.value, insert key entry (erase key map))
  ]

  -- The loop that drops the oldest entry while there are too many.
  abbrev pub evict : Option ℕ → List (String × CacheEntry V) → List (String × CacheEntry V)
  evict none map = map
  evict (some max_entries) map = drop (length map - max_entries) map

  unfoldable pub cache_set :
      Option ℕ → ℕ → String → V → List (String × CacheEntry V) → List (String × CacheEntry V)
  cache_set max_entries now key value map =
      evict max_entries (insert key (record { at = now; value = value }) (erase key map))

  abbrev pub cache_clear : List (String × CacheEntry V) → List (String × CacheEntry V)
  cache_clear map = []
