-- ===== src/Truncate.antt =====
-- `truncateUtf8` and `truncate` of src/common/truncate.ts. A string is the list of its code points, as
-- `for … of` and `Array.from` give them.
use lark_remote.Common.{
  ℕ, ◌+◌, ◌-◌, Bool, true, false, List, [], ◌∷◌, ◌++◌, reverse, is_space, trim, leb, ltb, ◌==◌,
  if◌then◌else◌,
}
pub mod Laws
mod Tests

-- `Buffer.byteLength` of one code point in UTF-8; an unpaired surrogate becomes U+FFFD, of 3 bytes.
abbrev pub size : ℕ → ℕ
size c = if ltb c 0x80 then 1 else if ltb c 0x800 then 2 else if ltb c 0x10000 then 3 else 4

-- The length of one code point in UTF-16.
abbrev pub units_of : ℕ → ℕ
units_of c = if ltb c 0x10000 then 1 else 2

-- The length of a string, measured by `m` in bytes or in code units.
abbrev pub measure : (ℕ → ℕ) → List ℕ → ℕ
measure m [] = 0
measure m (c ∷ s) = m c + measure m s

-- The longest head that fits, when `used` is taken already: the loop stops at the first code point
-- that does not fit.
unfoldable pub fit_head : (ℕ → ℕ) → ℕ → ℕ → List ℕ → List ℕ
fit_head m budget used [] = []
fit_head m budget used (c ∷ s) =
    let more = c ∷ fit_head m budget (used + m c) s in if ltb budget (used + m c) then [] else more

-- The loop from the end keeps the longest tail that fits.
unfoldable pub fit_utf8 : List ℕ → ℕ → Bool → List ℕ
unfolding fit_head
fit_utf8 value max_bytes from_end =
    if from_end
    then reverse (fit_head size max_bytes 0 (reverse value))
    else fit_head size max_bytes 0 value

-- The line break between the suffix and the tail is code point 10.
unfoldable pub truncate_utf8 : List ℕ → ℕ → Bool → List ℕ → List ℕ
unfolding fit_utf8
truncate_utf8 value max_bytes from_end suffix =
    if leb (measure size value) max_bytes
    then value
    else let budget = max_bytes - measure size suffix in
      if budget == 0
      then suffix
      else if from_end
      then suffix ++ 10 ∷ fit_utf8 value budget true
      else fit_utf8 value budget false ++ suffix

-- `s.replace(/\s+/g, ' ')`; `inside` says whether a run of spaces was met already.
unfoldable pub squeeze : Bool → List ℕ → List ℕ
unfolding is_space
squeeze inside [] = []
squeeze inside (c ∷ s) =
    let within_run = squeeze true s in
    let after_run = squeeze false s in
    if is_space c then (if inside then within_run else 32 ∷ within_run) else c ∷ after_run

unfoldable pub truncate : List ℕ → ℕ → List ℕ → Bool → List ℕ
unfolding fit_head squeeze trim
truncate value limit suffix normalize =
    let s = if normalize then trim (squeeze false value) else value in
    if leb (measure units_of s) limit
    then s
    else let budget = limit - measure units_of suffix in
      if budget == 0 then suffix else fit_head units_of budget 0 s ++ suffix
