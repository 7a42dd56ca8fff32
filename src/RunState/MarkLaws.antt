-- ===== src/RunState/MarkLaws.antt =====
-- The marks of truncated texts are true.
use mathlib.Core.List.{append_assoc}
use lark_remote.Common.{
  ℕ, zero, suc, ◌+◌, ◌-◌, ◌≤◌, ◌<◌, ◌≡◌, ◌⊎◌, inl, inr, refl, sym, ap, ◌∙◌, Text, [], ◌++◌, none,
  some, length, length-append, length-drop, leb, ◌==◌, drop, take, arith, false, Bool-cases,
  take-append-drop, length-take,
}
use lark_remote.RunState.Decimal.{
  print, read_from, digits, digits_mono, digits-le, length-print, read-print, starts-print,
}
use lark_remote.RunState.Marks.{
  mark_head, mark_tail, mark, read_mark, next_total, fix_total, total_bound, first_total,
  total_dropped, keep_tail_marked,
}

next_total-le :
    (prior len max_chars total : ℕ)
    → total ≤ total_bound prior len
    → next_total prior len max_chars total ≤ total_bound prior len
unfolding next_total
next_total-le prior len max_chars total h = omega (arith, digits-le total)

next_total_mono :
    (prior len max_chars a b : ℕ)
    → a ≤ b
    → next_total prior len max_chars a ≤ next_total prior len max_chars b
unfolding next_total
next_total_mono prior len max_chars a b h = omega (arith, digits_mono a b h)

module _ (prior len max_chars : ℕ) where
  abbrev next : ℕ → ℕ
  next = next_total prior len max_chars

  -- From below, the loop ends at a fixed point, which no other number with room for its mark is
  -- below.
  fix_total-Returns :
      (fuel total : ℕ)
      → total ≤ next total
      → total ≤ total_bound prior len
      → total_bound prior len - total < fuel
      → (r : ℕ) × (fix_total fuel prior len max_chars total ≡ some r)
        × (next r ≡ r)
        × ((m : ℕ) → total ≤ m → next m ≤ m → r ≤ m)
  unfolding fix_total
  fix_total-Returns zero total up below enough = absurd (omega arith)
  fix_total-Returns (suc fuel) total up below enough = elim (Bool-cases (next total == total)) [
    | inl found ↦ (total, rw found, ground arith, λ m h k. h)
    | inr more ↦
        let (r, run, fixed, least) =
          fix_total-Returns fuel (next total)
            (next_total_mono prior len max_chars total (next total) up)
            (next_total-le prior len max_chars total below)
            (ground (arith, next_total-le prior len max_chars total below)) in
        (
          r,
          rw more run,
          fixed,
          λ m h k. least m (omega (arith, next_total_mono prior len max_chars total m h)) k,
        )
  ]

  first-le-next : first_total prior len max_chars ≤ next (first_total prior len max_chars)
  unfolding next_total
  first-le-next = omega arith

  first-le : (m : ℕ) → next m ≤ m → first_total prior len max_chars ≤ m
  unfolding next_total
  first-le m h = omega arith

  first-le-bound : first_total prior len max_chars ≤ total_bound prior len
  first-le-bound = omega arith

  -- The loop ends, at the smallest number whose mark leaves room for the rest.
  pub total_dropped_lem :
      (next (total_dropped prior len max_chars) ≡ total_dropped prior len max_chars)
      × ((m : ℕ) → next m ≤ m → total_dropped prior len max_chars ≤ m)
  unfolding total_dropped
  total_dropped_lem =
      let (r, run, fixed, least) =
        fix_total-Returns (suc (total_bound prior len)) (first_total prior len max_chars)
          first-le-next first-le-bound (omega arith) in
      (rw run fixed, λ m h. rw run (least m (first-le m h) h))

length-mark : (n : ℕ) (kept : Text) → length (mark n kept) ≡ 12 + digits n + length kept
unfolding mark
length-mark n kept = omega (arith, length-append (print n) (mark_tail ++ kept), length-print n)

read-mark_aux :
    (n : ℕ) (kept : Text) → read_from 0 (print n ++ (mark_tail ++ kept)) ≡ (n, mark_tail ++ kept)
unfolding read_from
read-mark_aux n kept = read-print n (mark_tail ++ kept)

-- A mark that was written is read back.
pub read_mark-mark : (n : ℕ) (kept : Text) → read_mark (mark n kept) ≡ some (n, kept)
unfolding read_mark mark
read_mark-mark n kept =
    rw (starts-print n (mark_tail ++ kept)) (ground (arith, read-mark_aux n kept))

mark-append : (n : ℕ) (kept more : Text) → mark n kept ++ more ≡ mark n (kept ++ more)
unfolding mark
mark-append n kept more = ap (◌++◌ mark_head) (append_assoc (print n) (mark_tail ++ kept) more)

-- What is stored of a text: all of it, or its tail behind a mark that counts exactly what is gone.
abbrev pub Stored : Text → Text → Type 0
Stored full stored =
    (stored ≡ full)
    ⊎ ((gone : Text) × (kept : Text) × (full ≡ gone ++ kept)
        × (stored ≡ mark (length gone) kept)
        × (0 < length gone))

-- The arithmetic of a total with room for its mark.
total_fits :
    (prior len max_chars : ℕ)
    → 12 + digits (total_bound prior len) ≤ max_chars
    → let total = total_dropped prior len max_chars in
      (prior ≤ total)
      × (total - prior ≤ len)
      × (12 + digits total + (len - (total - prior)) ≤ max_chars)
      × (max_chars < len → prior < total)
unfolding next_total
total_fits prior len max_chars room =
    let (fixed, least) = total_dropped_lem prior len max_chars in
    let below = least (total_bound prior len) (next_total-le prior len max_chars _ (omega arith)) in
    let few = digits_mono (total_dropped prior len max_chars) (total_bound prior len) below in
    (
      omega (arith, fixed),
      omega (arith, fixed, few),
      omega (arith, fixed, few),
      λ h. omega (arith, fixed),
    )

-- The tail of a text of which `gone` was dropped before, with the total of the loop.
cut-Stored :
    (gone body : Text) (max_chars : ℕ)
    → 12 + digits (total_bound (length gone) (length body)) ≤ max_chars
    → 0 < total_dropped (length gone) (length body) max_chars
    → let total = total_dropped (length gone) (length body) max_chars in
      Stored (gone ++ body) (mark total (drop (total - length gone) body))
      × (length (mark total (drop (total - length gone) body)) ≤ max_chars)
cut-Stored gone body max_chars room some_gone =
    let total = total_dropped (length gone) (length body) max_chars in
    let new = total - length gone in
    let (up, inside, fits, grew) = total_fits (length gone) (length body) max_chars room in
    let counted : length (gone ++ take new body) ≡ total =
      omega (arith, length-append gone (take new body), length-take new body, up, inside) in
    (
      inr (
        gone ++ take new body,
        drop new body,
        ap (◌++◌ gone) (sym (take-append-drop new body))
            ∙ sym (append_assoc gone (take new body) (drop new body)),
        rw counted refl,
        rw counted some_gone,
      ),
      omega (arith, length-mark total (drop new body), length-drop new body, fits),
    )

keep_fresh :
    (value : Text) (max_chars : ℕ)
    → 12 + digits (total_bound 0 (length value)) ≤ max_chars
    → read_mark value ≡ none
    → Stored value (keep_tail_marked value max_chars)
      × (length (keep_tail_marked value max_chars) ≤ max_chars)
unfolding keep_tail_marked read_mark mark
keep_fresh value max_chars room unmarked = elim (Bool-cases (leb (length value) max_chars)) [
  | inl fits ↦ rw (unmarked, fits) (inl refl, ground arith)
  | inr long ↦
      rw (unmarked, long)
        (cut-Stored [] value max_chars room
          ((total_fits 0 (length value) max_chars room).3 (ground arith)))
]

==-Positive : (n : ℕ) → 0 < n → (n == 0) ≡ false
==-Positive n h = ground arith

-- On a marked text the mark's number is where the count goes on.
keep_marked :
    (value : Text) (max_chars n : ℕ) (kept : Text)
    → read_mark value ≡ some (n, kept)
    → 0 < n
    → let total = total_dropped n (length kept) max_chars in
      keep_tail_marked value max_chars ≡ mark total (drop (total - n) kept)
unfolding keep_tail_marked read_mark mark
keep_marked value max_chars n kept e h = rw (e, ==-Positive n h) refl

keep_again :
    (gone body : Text) (max_chars : ℕ)
    → 12 + digits (total_bound (length gone) (length body)) ≤ max_chars
    → 0 < length gone
    → let out = keep_tail_marked (mark (length gone) body) max_chars in
      Stored (gone ++ body) out × (length out ≤ max_chars)
keep_again gone body max_chars room some_gone =
    rw
      (keep_marked (mark (length gone) body) max_chars (length gone) body
        (read_mark-mark (length gone) body) some_gone)
      (cut-Stored gone body max_chars room
        (omega (arith, (total_fits (length gone) (length body) max_chars room).0)))

-- Whatever pieces a text arrives in, what is stored is the whole text, or its tail behind a mark
-- whose number is exactly the count of the code units dropped since the start, and it fits the
-- window. The text as a whole must not itself begin with a mark, and the window must have room for
-- the mark of a number twice as large as the text.
pub keep_tail_marked-Stored :
    (full stored more : Text) (max_chars : ℕ)
    → Stored full stored
    → read_mark (full ++ more) ≡ none
    → 12 + digits (total_bound (length full) (length more)) ≤ max_chars
    → let out = keep_tail_marked (stored ++ more) max_chars in
      Stored (full ++ more) out × (length out ≤ max_chars)
keep_tail_marked-Stored full stored more max_chars (inl same) unmarked room =
    rw same (keep_fresh (full ++ more) max_chars (fewer room) unmarked)
  where
    fewer :
        12 + digits (total_bound (length full) (length more)) ≤ max_chars
        → 12 + digits (total_bound 0 (length (full ++ more))) ≤ max_chars
    fewer h = omega (
      arith,
      digits_mono (total_bound 0 (length (full ++ more))) (total_bound (length full) (length more))
          (omega (arith, length-append full more)),
    )
keep_tail_marked-Stored full stored more max_chars (inr (gone, kept, parts, marked, some_gone))
      unmarked room =
    rw (marked, mark-append (length gone) kept more, parts, append_assoc gone kept more)
      (keep_again gone (kept ++ more) max_chars
        (omega (
          arith,
          digits_mono (total_bound (length gone) (length (kept ++ more)))
              (total_bound (length full) (length more))
              (rw parts (omega (arith, length-append kept more, length-append gone kept))),
        ))
        some_gone)
