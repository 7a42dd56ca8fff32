-- ===== src/Cache/Laws.antt =====
-- The entries of the cache are bounded and fresh.
use lark_remote.Common.{
  ◌+◌, ℕ, zero, suc, ◌-◌, ◌≤◌, ◌<◌, String, List, [], ◌∷◌, ◌++◌, Option, none, some, length,
  length-append, length-drop, drop, leb, if◌then◌else◌, eq_iff, ◌≡◌, arith, Bool-cases,
  Option-cases, inl, inr,
}
use lark_remote.Common.Dict.{
  lookup, insert, erase, insert_fresh, Distinct, Distinct-erase, lookup-erase_self, Distinct-concat,
}
use lark_remote.Cache.{CacheEntry, cache_get, cache_set}

abbrev Full : Option ℕ → ℕ → Type 0
Full none n = Unit
Full (some max_entries) n = n ≤ max_entries

-- Each key once, and no more entries than the cache may hold.
pub record IsCache (max_entries : Option ℕ) (V : Type 0) (map : List (String × CacheEntry V))
    : Type 0 where
  pub distinct : Distinct map
  pub bounded : Full max_entries (length map)

module _ {V : Type 0} where
  length-erase :
      (key : String) (entry : V) (map : List (String × V))
      → lookup key map ≡ some entry
      → suc (length (erase key map)) ≡ length map
  unfolding lookup erase
  length-erase key entry [] h = ground arith
  length-erase key entry ((held, old) ∷ rest) h = ground (arith, length-erase key entry rest)

  Distinct-drop : (n : ℕ) (map : List (String × V)) → Distinct map → Distinct (drop n map)
  Distinct-drop zero map h = h
  Distinct-drop (suc n) [] h = tt
  Distinct-drop (suc n) ((k, v) ∷ map) h = Distinct-drop n map h.1

  -- The last entry is found when older ones are dropped.
  lookup-drop :
      (key : String) (value : V) (n : ℕ) (map : List (String × V))
      → lookup key map ≡ none
      → n ≤ length map
      → lookup key (drop n (map ++ (key, value) ∷ [])) ≡ some value
  unfolding lookup
  lookup-drop key value zero [] h k = ground (arith, eq_iff key key)
  lookup-drop key value (suc n) [] h k = absurd (omega arith)
  lookup-drop key value zero ((held, old) ∷ rest) h k =
      ground (arith, lookup-drop key value zero rest)
  lookup-drop key value (suc n) ((held, old) ∷ rest) h k =
      lookup-drop key value n rest (ground arith) (omega arith)

  put :
      (key : String) (value : V) (map : List (String × V))
      → Distinct map
      → insert key value (erase key map) ≡ erase key map ++ (key, value) ∷ []
  put key value map d = insert_fresh key value (erase key map) (lookup-erase_self key map d)

  put-Distinct :
      (key : String) (value : V) (map : List (String × V))
      → Distinct map
      → Distinct (insert key value (erase key map))
  put-Distinct key value map d = rw (put key value map d) (
      Distinct-concat key value (erase key map) (Distinct-erase key map d)
        (lookup-erase_self key map d))

module _ {V : Type 0} where
  -- A write keeps the cache within its bound, each key once.
  pub cache_set-IsCache :
      (max_entries : Option ℕ) (now : ℕ) (key : String) (value : V)
      (map : List (String × CacheEntry V))
      → IsCache max_entries V map
      → IsCache max_entries V (cache_set max_entries now key value map)
  unfolding cache_set
  cache_set-IsCache none now key value map v = record {
    distinct = put-Distinct key (record { at = now; value = value }) map v.distinct;
    bounded = tt;
  }
  cache_set-IsCache (some max_entries) now key value map v = record {
    distinct =
        Distinct-drop _ _ (put-Distinct key (record { at = now; value = value }) map v.distinct);
    bounded = omega (
      arith,
      length-drop
          (length (insert key (record { at = now; value = value }) (erase key map)) - max_entries)
          (insert key (record { at = now; value = value }) (erase key map)),
    );
  }

  -- A read keeps it so, on a miss, on an entry that has expired, and on a hit, which moves the entry.
  pub cache_get-IsCache :
      (max_entries : Option ℕ) (ttl now : ℕ) (key : String) (map : List (String × CacheEntry V))
      → IsCache max_entries V map
      → IsCache max_entries V (cache_get ttl now key map).1
  unfolding cache_get
  cache_get-IsCache max_entries ttl now key map v = elim (Option-cases (lookup key map)) [
    | inl e ↦ rw (e, cache_get) v
    | inr (entry, e) ↦ elim (Bool-cases (leb (entry.at + ttl) now)) [
      | inl old ↦
          rw (e, old, cache_get)
            (record {
              distinct = Distinct-erase key map v.distinct;
              bounded = fewer max_entries entry e v.bounded;
            })
      | inr fresh ↦
          rw (e, fresh, cache_get)
            (record {
              distinct = put-Distinct key entry map v.distinct;
              bounded = same max_entries entry e v.bounded;
            })
    ]
  ]
    where
      fewer :
          (m : Option ℕ) (entry : CacheEntry V)
          → lookup key map ≡ some entry
          → Full m (length map)
          → Full m (length (erase key map))
      fewer none entry e h = tt
      fewer (some m) entry e h = omega (arith, length-erase key entry map e)

      same :
          (m : Option ℕ) (entry : CacheEntry V)
          → lookup key map ≡ some entry
          → Full m (length map)
          → Full m (length (insert key entry (erase key map)))
      same none entry e h = tt
      same (some m) entry e h = rw (put key entry map v.distinct) (
          omega (
            arith,
            length-erase key entry map e,
            length-append (erase key map) ((key, entry) ∷ []),
          ))

  -- In a cache that may hold an entry at all, what was written is read back until its time to live
  -- has passed, and not from then on.
  pub cache_get-set :
      (max_entries ttl now later : ℕ) (key : String) (value : V)
      (map : List (String × CacheEntry V))
      → IsCache (some max_entries) V map
      → 0 < max_entries
      → (cache_get ttl later key (cache_set (some max_entries) now key value map)).0
        ≡ (if leb (now + ttl) later then none else some value)
  unfolding cache_get cache_set
  cache_get-set max_entries ttl now later key value map v room =
      let entry : CacheEntry V = record { at = now; value = value } in
      let older = erase key map in
      let kept : lookup key (cache_set (some max_entries) now key value map) ≡ some entry =
        rw (put key entry map v.distinct) (
          lookup-drop key entry (length (older ++ (key, entry) ∷ []) - max_entries) older
            (lookup-erase_self key map v.distinct)
            (omega (arith, length-append older ((key, entry) ∷ [])))) in
      rw (kept, cache_get) (ground arith)
