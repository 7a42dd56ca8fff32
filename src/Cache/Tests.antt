-- ===== src/Cache/Tests.antt =====
-- The cache on concrete entries.
use lark_remote.Common.{ℕ, String, List, [], ◌∷◌, some, ◌≡◌, refl, arith}
use lark_remote.Common.Dict.{lookup, insert, erase}
use lark_remote.Cache.{CacheEntry, cache_get, cache_set}
use lark_remote.Cache.Laws.{IsCache, cache_get-set}

abbrev full_cache : List (String × CacheEntry ℕ)
full_cache = ("a", record { at = 1; value = 5 }) ∷ ("b", record { at = 2; value = 6 }) ∷ []

full_cache-IsCache : IsCache (some 2) ℕ full_cache
unfolding lookup
full_cache-IsCache = record { distinct = (refl, (refl, tt)); bounded = omega arith }

cache_get-set_example : (cache_get 10 12 "c" (cache_set (some 2) 3 "c" 7 full_cache)).0 ≡ some 7
cache_get-set_example = cache_get-set 2 10 3 12 "c" 7 full_cache full_cache-IsCache (omega arith)

-- A hit saves its entry from the next eviction.
hit_survives :
    (cache_get 10 5 "a" (cache_set (some 2) 4 "c" 7 (cache_get 10 3 "a" full_cache).1)).0 ≡ some 5
unfolding cache_get cache_set lookup insert erase
hit_survives = refl
