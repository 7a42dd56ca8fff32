-- ===== src/Width/Tests.antt =====
-- Texts cut to a width.
use lark_remote.Common.{ℕ, ◌+◌, ◌≤◌, ◌<◌, List, [], ◌∷◌, ◌++◌, ◌≡◌, refl, arith}
use lark_remote.Width.{
  char_width, display_width, ellipsis, truncate_to_display_width, truncate_middle_to_display_width,
}
use lark_remote.Width.Laws.{truncate_to_display_width_lem}

-- Two narrow letters, a wide one and two narrow ones.
abbrev mixed : List ℕ
mixed = b'a' ∷ b'b' ∷ 0x4e2d ∷ b'c' ∷ b'd' ∷ []

mixed_width : display_width mixed ≡ 6
unfolding display_width
mixed_width = refl

abbrev wide_text : 4 < display_width mixed
unfolding display_width
wide_text = omega arith

truncate_to_display_width_lem_example :
    let out = truncate_to_display_width mixed 4 in
    (kept : List ℕ) × (c : ℕ) × (rest : List ℕ) × (mixed ≡ kept ++ c ∷ rest)
    × (out ≡ kept ++ ellipsis)
    × (display_width out ≤ 4)
    × (4 < display_width out + char_width c)
truncate_to_display_width_lem_example =
    truncate_to_display_width_lem mixed 4 (omega arith) wide_text

cut_before_the_wide : truncate_to_display_width mixed 4 ≡ b'a' ∷ b'b' ∷ 0x2026 ∷ []
unfolding truncate_to_display_width
cut_before_the_wide = refl

cut_in_the_middle : truncate_middle_to_display_width mixed 4 ≡ b'a' ∷ b'b' ∷ 0x2026 ∷ b'd' ∷ []
unfolding truncate_middle_to_display_width
cut_in_the_middle = refl
