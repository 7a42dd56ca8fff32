-- ===== src/Width/Laws.antt =====
-- What a text keeps when it is cut to a width.
use lark_remote.Common.{ℕ, ◌+◌, ◌-◌, ◌≤◌, ◌<◌, List, ◌∷◌, ◌++◌, ◌≡◌, ap, ◌∙◌, arith}
use lark_remote.Truncate.{measure, fit_head}
use lark_remote.Truncate.Laws.{measure-append, fit_head-Longest}
use lark_remote.Width.{char_width, display_width, ellipsis, truncate_to_display_width}

width-append : (s t : List ℕ) → display_width (s ++ t) ≡ display_width s + display_width t
unfolding display_width
width-append s t = measure-append char_width s t

-- A text that is too wide is cut to its longest head that leaves room for the ellipsis: the result
-- is within the width, and with one more code point it would not be.
pub truncate_to_display_width_lem :
    (text : List ℕ) (width : ℕ)
    → 0 < width
    → width < display_width text
    → let out = truncate_to_display_width text width in
      (kept : List ℕ) × (c : ℕ) × (rest : List ℕ) × (text ≡ kept ++ c ∷ rest)
      × (out ≡ kept ++ ellipsis)
      × (display_width out ≤ width)
      × (width < display_width out + char_width c)
unfolding truncate_to_display_width char_width
truncate_to_display_width_lem text width h long =
    let kept = fit_head char_width (width - 1) 0 text in
    let (c, rest, e, low, high) =
      fit_head-Longest char_width (width - 1) 0 text (omega arith) (omega arith) in
    let cut : truncate_to_display_width text width ≡ kept ++ ellipsis = ground arith in
    let size : display_width (truncate_to_display_width text width) ≡ measure char_width kept + 1 =
      ap display_width cut ∙ width-append kept ellipsis in
    (kept, c, rest, e, cut, omega (arith, size), omega (arith, size))
