-- ===== src/Width.antt =====
-- The width of a text on a card, src/common/text-width.ts: a wide code point counts two. A string is
-- the list of its code points.
use lark_remote.Common.{
  ℕ, ◌+◌, ◌-◌, ◌/◌, max, Bool, List, [], ◌∷◌, ◌++◌, reverse, any, within, leb, if◌then◌else◌,
}
use lark_remote.Truncate.{measure, fit_head}
pub mod Laws
mod Tests

-- `WIDE_CODE_POINT_RANGES`.
abbrev pub wide_code_point_ranges : List (ℕ × ℕ)
wide_code_point_ranges =
    (0x1100, 0x115f)
    ∷ (0x2329, 0x2329)
    ∷ (0x232a, 0x232a)
    ∷ (0x2e80, 0xa4cf)
    ∷ (0xac00, 0xd7a3)
    ∷ (0xf900, 0xfaff)
    ∷ (0xfe30, 0xfe6f)
    ∷ (0xff00, 0xff60)
    ∷ (0xffe0, 0xffe6)
    ∷ (0x1f300, 0x1faff)
    ∷ (0x2600, 0x27bf)
    ∷ (0x2300, 0x23ff)
    ∷ []

unfoldable pub is_wide_code_point : ℕ → Bool
is_wide_code_point c = any (λ r. within r.0 r.1 c) wide_code_point_ranges

unfoldable pub char_width : ℕ → ℕ
unfolding is_wide_code_point
char_width c = if is_wide_code_point c then 2 else 1

unfoldable pub display_width : List ℕ → ℕ
unfolding char_width
display_width text = measure char_width text

-- `…`.
abbrev pub ellipsis : List ℕ
ellipsis = 0x2026 ∷ []

-- The loop stops before the code point that leaves no room for the ellipsis.
unfoldable pub truncate_to_display_width : List ℕ → ℕ → List ℕ
unfolding display_width fit_head
truncate_to_display_width text max_units =
    if leb (display_width text) max_units
    then text
    else fit_head char_width (max_units - 1) 0 text ++ ellipsis

-- The two loops: from the start and from the end.
unfoldable pub truncate_middle_to_display_width : List ℕ → ℕ → List ℕ
unfolding display_width fit_head
truncate_middle_to_display_width text max_units =
    if leb (display_width text) max_units
    then text
    else let budget = max 1 (max_units - 1) in
      let head_budget = (budget + 1) / 2 in
      let tail_budget = budget - head_budget in
      let head = fit_head char_width head_budget 0 text in
      let tail = reverse (fit_head char_width tail_budget 0 (reverse text)) in
      head ++ ellipsis ++ tail
