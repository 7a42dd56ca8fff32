-- ===== src/Truncate/Laws.antt =====
-- What truncation keeps, and how long the result is.
use mathlib.Core.List.{reverse-reverse, reverse-append, append_assoc}
use lark_remote.Common.{
  trim, ℕ, ◌+◌, ◌-◌, ◌≤◌, ◌<◌, Bool, true, false, List, [], ◌∷◌, ◌++◌, reverse, ◌≡◌, refl, sym, ap,
  ◌∙◌, arith, ltb, if◌then◌else◌, Bool-cases, inl, inr,
}
use lark_remote.Truncate.{
  size, units_of, measure, fit_head, fit_utf8, squeeze, truncate_utf8, truncate,
}

pub measure-append : (m : ℕ → ℕ) (s t : List ℕ) → measure m (s ++ t) ≡ measure m s + measure m t
measure-append m [] t = omega arith
measure-append m (c ∷ s) t = omega (arith, measure-append m s t)

module _ (m : ℕ → ℕ) (budget : ℕ) where
  -- The head that fits, and the code point that does not.
  pub fit_head-Longest :
      (used : ℕ) (s : List ℕ)
      → used ≤ budget
      → budget < used + measure m s
      → let kept = fit_head m budget used s in
        (c : ℕ) × (rest : List ℕ) × (s ≡ kept ++ c ∷ rest)
        × (used + measure m kept ≤ budget)
        × (budget < used + measure m kept + m c)
  unfolding fit_head
  fit_head-Longest used [] h k = absurd (omega arith)
  fit_head-Longest used (c ∷ s) h k = elim (Bool-cases (ltb budget (used + m c))) [
    | inl over ↦ (c, s, rw over refl, rw over (omega arith), rw over (ground arith))
    | inr fits ↦
        let (d, rest, e, low, high) =
          fit_head-Longest (used + m c) s (ground arith) (omega arith) in
        (d, rest, rw fits (ap (◌∷◌ c) e), rw fits (omega arith), rw fits (omega arith))
  ]

pub measure-reverse : (m : ℕ → ℕ) (s : List ℕ) → measure m (reverse s) ≡ measure m s
measure-reverse m [] = refl
measure-reverse m (c ∷ s) =
    ap (measure m) (reverse-append (c ∷ []) s)
    ∙ omega (arith, measure-append m (reverse s) (c ∷ []), measure-reverse m s)

-- A string longer than the limit, with a suffix shorter than it, is cut to a head and the suffix: the
-- result is within the limit in bytes, and one more code point would not be.
pub truncate_utf8-head :
    (value : List ℕ) (max_bytes : ℕ) (suffix : List ℕ)
    → max_bytes < measure size value
    → measure size suffix < max_bytes
    → let out = truncate_utf8 value max_bytes false suffix in
      (kept : List ℕ) × (c : ℕ) × (rest : List ℕ) × (value ≡ kept ++ c ∷ rest)
      × (out ≡ kept ++ suffix)
      × (measure size out ≤ max_bytes)
      × (max_bytes < measure size out + size c)
unfolding truncate_utf8 fit_utf8
truncate_utf8-head value max_bytes suffix long short =
    let budget = max_bytes - measure size suffix in
    let kept = fit_head size budget 0 value in
    let (c, rest, e, low, high) =
      fit_head-Longest size budget 0 value (omega arith) (omega arith) in
    let cut : truncate_utf8 value max_bytes false suffix ≡ kept ++ suffix = ground arith in
    (
      kept,
      c,
      rest,
      e,
      cut,
      rw cut (omega (arith, measure-append size kept suffix)),
      rw cut (omega (arith, measure-append size kept suffix)),
    )

-- With `from_end` the result is the suffix, a line break and a tail. The line break is not counted:
-- the result can be one byte over the limit, and is no more than that; and one more code point would
-- be over that too.
pub truncate_utf8-tail :
    (value : List ℕ) (max_bytes : ℕ) (suffix : List ℕ)
    → max_bytes < measure size value
    → measure size suffix < max_bytes
    → let out = truncate_utf8 value max_bytes true suffix in
      (kept : List ℕ) × (c : ℕ) × (rest : List ℕ) × (value ≡ rest ++ c ∷ kept)
      × (out ≡ suffix ++ 10 ∷ kept)
      × (measure size out ≤ max_bytes + 1)
      × (max_bytes + 1 < measure size out + size c)
unfolding truncate_utf8 fit_utf8
truncate_utf8-tail value max_bytes suffix long short =
    let budget = max_bytes - measure size suffix in
    let tail = fit_head size budget 0 (reverse value) in
    let (c, rest, e, low, high) =
      fit_head-Longest size budget 0 (reverse value) (omega arith)
        (omega (arith, measure-reverse size value)) in
    let cut : truncate_utf8 value max_bytes true suffix ≡ suffix ++ 10 ∷ reverse tail =
      ground arith in
    let bytes : measure size (truncate_utf8 value max_bytes true suffix)
        ≡ measure size suffix + 1 + measure size tail =
      rw cut (
        omega (arith, measure-append size suffix (10 ∷ reverse tail), measure-reverse size tail)) in
    (
      reverse tail,
      c,
      reverse rest,
      sym (reverse-reverse value)
          ∙ ap reverse e
          ∙ reverse-append tail (c ∷ rest)
          ∙ ap (λ x. x ++ reverse tail) (reverse-append (c ∷ []) rest)
          ∙ append_assoc (reverse rest) (c ∷ []) (reverse tail),
      cut,
      omega (arith, bytes),
      omega (arith, bytes),
    )

pub fit_head-le :
    (m : ℕ → ℕ) (budget used : ℕ) (s : List ℕ)
    → used ≤ budget
    → used + measure m (fit_head m budget used s) ≤ budget
unfolding fit_head
fit_head-le m budget used [] h = omega arith
fit_head-le m budget used (c ∷ s) h = elim (Bool-cases (ltb budget (used + m c))) [
  | inl over ↦ rw over (omega arith)
  | inr fits ↦ rw fits (omega (arith, fit_head-le m budget (used + m c) s (ground arith)))
]

-- On every path, with or without normalization of white space, a truncated string is within the
-- limit in UTF-16 code units, if the suffix is.
pub truncate-le :
    (value : List ℕ) (limit : ℕ) (suffix : List ℕ) (normalize : Bool)
    → measure units_of suffix ≤ limit
    → measure units_of (truncate value limit suffix normalize) ≤ limit
unfolding truncate
truncate-le value limit suffix normalize h =
    let s = if normalize then trim (squeeze false value) else value in
    let kept = fit_head units_of (limit - measure units_of suffix) 0 s in
    ground (
      arith,
      fit_head-le units_of (limit - measure units_of suffix) 0 s (omega arith),
      measure-append units_of kept suffix,
    )
