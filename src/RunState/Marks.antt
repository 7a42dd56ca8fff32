-- ===== src/RunState/Marks.antt =====
-- `keepTailMarked` of src/card/run-state.ts: the tail of a text behind a mark that counts what was
-- dropped, and `keepTail` of src/common/truncate.ts.
use lark_remote.Common.{
  ℕ, zero, suc, ◌+◌, ◌-◌, ◌*◌, or_else, Text, lit, [], ◌∷◌, ◌++◌, Option, none, some, length, leb,
  ◌==◌, ◌&&◌, drop, take_last, max, strip_prefix?, if◌then◌else◌,
}
use lark_remote.RunState.Decimal.{print, read_from, digits, starts_with_digit}

unfoldable pub keep_tail : Text → ℕ → Text
keep_tail value max_chars =
    if leb (length value) max_chars then value else take_last max_chars value

abbrev pub mark_head : Text
mark_head = lit "…（前 "

-- The line break that ends the mark is code unit 10.
abbrev pub mark_tail : Text
mark_tail = lit " 字符已省略）" ++ 10 ∷ []

unfoldable pub mark : ℕ → Text → Text
mark n kept = mark_head ++ (print n ++ (mark_tail ++ kept))

-- `TRUNCATION_MARKER_RE`: the number of the mark at the start, and the text behind it.
unfoldable pub read_mark : Text → Option (ℕ × Text)
unfolding strip_prefix?
read_mark value = elim (strip_prefix? mark_head value) [
  | none ↦ none
  | some body ↦
      if starts_with_digit body
      then elim (strip_prefix? mark_tail (read_from 0 body).1) as (λ _. Option (ℕ × Text)) [
        | none ↦ none
        | some kept ↦ some ((read_from 0 body).0, kept)
      ]
      else none
]

-- `Math.max(priorDropped, K + String(total).length)`, with the source's K, which may be negative,
-- written out.
unfoldable pub next_total : ℕ → ℕ → ℕ → ℕ → ℕ
next_total prior len max_chars total = max prior (prior + len + 12 + digits total - max_chars)

-- The loop that looks for a number whose mark leaves room; with `none` the fuel ran out.
unfoldable pub fix_total : ℕ → ℕ → ℕ → ℕ → ℕ → Option ℕ
unfolding next_total
fix_total zero prior len max_chars total = none
fix_total (suc fuel) prior len max_chars total =
    let rest = fix_total fuel prior len max_chars (next_total prior len max_chars total) in
    if next_total prior len max_chars total == total then some total else rest

-- Fuel enough for the loop: no total exceeds it.
abbrev pub total_bound : ℕ → ℕ → ℕ
total_bound prior len = 2 * (prior + len) + 40

abbrev pub first_total : ℕ → ℕ → ℕ → ℕ
first_total prior len max_chars = max prior (prior + len + 12 - max_chars)

-- The fuel is never used up: see `fix_total_total`.
unfoldable pub total_dropped : ℕ → ℕ → ℕ → ℕ
unfolding fix_total
total_dropped prior len max_chars =
    or_else
      (fix_total (suc (total_bound prior len)) prior len max_chars
        (first_total prior len max_chars))
      0

abbrev pub prior_of : Text → ℕ
prior_of value = elim (read_mark value) [ none ↦ 0 | some (n, kept) ↦ n ]

abbrev pub body_of : Text → Text
body_of value = elim (read_mark value) [ none ↦ value | some (n, kept) ↦ kept ]

unfoldable pub keep_tail_marked : Text → ℕ → Text
unfolding total_dropped
keep_tail_marked value max_chars =
    let prior = prior_of value in
    let body = body_of value in
    let total = total_dropped prior (length body) max_chars in
    if prior == 0 && leb (length body) max_chars
    then value
    else mark total (drop (total - prior) body)
