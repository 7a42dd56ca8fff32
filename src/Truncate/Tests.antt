-- ===== src/Truncate/Tests.antt =====
-- Truncation on concrete strings.
use lark_remote.Common.{
  ℕ, zero, suc, ◌+◌, ◌≤◌, ◌<◌, false, true, List, [], ◌∷◌, ◌++◌, ◌≡◌, refl, arith,
}
use lark_remote.Truncate.{size, measure, truncate_utf8}
use lark_remote.Truncate.Laws.{truncate_utf8-head, truncate_utf8-tail}

abbrev letters : ℕ → List ℕ
letters zero = []
letters (suc n) = 97 ∷ letters n

-- A suffix of 3 bytes.
abbrev dots : List ℕ
dots = 0x2026 ∷ []

truncate_utf8-head_example :
    let out = truncate_utf8 (letters 12) 10 false dots in
    (kept : List ℕ) × (c : ℕ) × (rest : List ℕ) × (letters 12 ≡ kept ++ c ∷ rest)
    × (out ≡ kept ++ dots)
    × (measure size out ≤ 10)
    × (10 < measure size out + size c)
truncate_utf8-head_example = truncate_utf8-head (letters 12) 10 dots (omega arith) (omega arith)

truncate_utf8-tail_example :
    let out = truncate_utf8 (letters 12) 10 true dots in
    (kept : List ℕ) × (c : ℕ) × (rest : List ℕ) × (letters 12 ≡ rest ++ c ∷ kept)
    × (out ≡ dots ++ 10 ∷ kept)
    × (measure size out ≤ 11)
    × (11 < measure size out + size c)
truncate_utf8-tail_example = truncate_utf8-tail (letters 12) 10 dots (omega arith) (omega arith)

-- Eleven bytes where ten are the limit.
tail_over_limit : measure size (truncate_utf8 (letters 12) 10 true dots) ≡ 11
unfolding truncate_utf8
tail_over_limit = refl
