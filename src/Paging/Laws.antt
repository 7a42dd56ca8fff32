-- ===== src/Paging/Laws.antt =====
-- The pages of a list.
use native.Mathlib.Nat.{div-le_of_le-mul, div-mul-le_self}
use lark_remote.Common.{
  take-all, ℕ, zero, suc, ◌+◌, ◌-◌, ◌*◌, ◌/◌, ◌≤◌, ◌<◌, min, max, List, [], ◌∷◌, ◌++◌, take, drop,
  length, length-take, length-drop, some, ◌≡◌, refl, sym, ap, ◌∙◌, arith,
}
use lark_remote.Paging.{page_slice, paginate, slice, ceil_div, clamp_int}

-- The pages that a reader gets, from an offset on, a page at a time.
abbrev pub pages_from {ℓ} : {A : Type ℓ} → List A → ℕ → ℕ → ℕ → List A
pages_from items limit offset zero = []
pages_from items limit offset (suc n) =
    (paginate items (some limit) (some offset)).0 ++ pages_from items limit (offset + limit) n

plus_suc : (m n : ℕ) → suc (m + n) ≡ suc m + n
plus_suc m n = omega arith

zero_pages : (limit : ℕ) → 0 ≡ 0 * limit
zero_pages limit = omega arith

max_zero : (n : ℕ) → max 0 n ≡ n
max_zero n = omega arith

span : (m n : ℕ) → (m + n) - m ≡ n
span m n = omega arith

next_page : (limit n : ℕ) → limit + n * limit ≡ suc n * limit
next_page limit n = grind arith

-- The last offset is that of an item.
last_offset :
    (total size q : ℕ)
    → 0 < total
    → 0 < size
    → q * size ≤ total + (size - 1)
    → (max 1 q - 1) * size < total
last_offset total size zero h k e = grind arith
last_offset total size (suc q) h k e = rw (before q) (grind arith)
  where
    before : (q : ℕ) → max 1 (suc q) - 1 ≡ q
    before q = omega arith

before_last : {from last total : ℕ} → from ≤ last → last < total → from < total
before_last h k = omega arith

shown :
    (total size from : ℕ)
    → 0 < size
    → (0 < total → from < total)
    → min 1 total ≤ min size (total - from)
shown zero size from h g = omega arith
shown (suc n) size from h g = omega (arith, g (omega arith))

clamp_int-le : (v m : ℕ) → clamp_int v 0 (max 0 m) ≤ m
unfolding clamp_int
clamp_int-le v m = omega arith

page_number-le :
    (offset pages size : ℕ)
    → 0 < size
    → offset ≤ (max 1 pages - 1) * size
    → offset / size + 1 ≤ max 1 pages
page_number-le offset pages size h e =
    omega (arith, div-le_of_le-mul size {m = offset} {n = max 1 pages - 1} (grind arith))

module _ {ℓ} {A : Type ℓ} where
  drop-nil : (n : ℕ) → drop {A = A} n [] ≡ []
  drop-nil zero = refl
  drop-nil (suc n) = refl

  take-nil : (n : ℕ) → take {A = A} n [] ≡ []
  take-nil zero = refl
  take-nil (suc n) = refl

  drop-drop : (m n : ℕ) (xs : List A) → drop n (drop m xs) ≡ drop (m + n) xs
  drop-drop zero n xs = ap (λ k. drop k xs) (omega arith)
  drop-drop (suc m) n [] = drop-nil n ∙ sym (drop-nil (suc m + n))
  drop-drop (suc m) n (x ∷ xs) = drop-drop m n xs ∙ ap (λ k. drop k (x ∷ xs)) (plus_suc m n)

  take-append : (m n : ℕ) (xs : List A) → take m xs ++ take n (drop m xs) ≡ take (m + n) xs
  take-append zero n xs = ap (λ k. take k xs) (omega arith)
  take-append (suc m) n [] = take-nil n ∙ sym (take-nil (suc m + n))
  take-append (suc m) n (x ∷ xs) =
      ap (λ ys. x ∷ ys) (take-append m n xs) ∙ ap (λ k. take k (x ∷ xs)) (plus_suc m n)

  page_then :
      (items : List A) (limit offset k : ℕ)
      → slice (max 0 offset) (max 0 offset + limit) items ++ take k (drop (offset + limit) items)
        ≡ take (limit + k) (drop offset items)
  page_then items limit offset k =
      ap (λ ys. ys ++ take k (drop (offset + limit) items)) (slice_at items limit offset)
      ∙ ap (λ ys. take limit (drop offset items) ++ take k ys) (sym (drop-drop offset limit items))
      ∙ take-append limit k (drop offset items)
    where
      slice_at :
          (items : List A) (limit offset : ℕ)
          → slice (max 0 offset) (max 0 offset + limit) items ≡ take limit (drop offset items)
      slice_at items limit offset = rw (max_zero offset, span offset limit) refl

  -- The pages of a list, one after the other, are its elements in order.
  pub pages_from-take :
      (items : List A) (limit offset n : ℕ)
      → pages_from items limit offset n ≡ take (n * limit) (drop offset items)
  unfolding paginate
  pages_from-take items limit offset zero = ap (λ k. take k (drop offset items)) (zero_pages limit)
  pages_from-take items limit offset (suc n) =
      ap (λ ys. slice (max 0 offset) (max 0 offset + limit) items ++ ys)
        (pages_from-take items limit (offset + limit) n)
      ∙ page_then items limit offset (n * limit)
      ∙ ap (λ k. take k (drop offset items)) (next_page limit n)

  -- Enough pages, read one after the other from the start, are the whole list, each item once and in
  -- order.
  pub pages_whole :
      (items : List A) (limit n : ℕ) → length items ≤ n * limit → pages_from items limit 0 n ≡ items
  pages_whole items limit n h = pages_from-take items limit 0 n ∙ take-all (n * limit) items h

  length-slice :
      (items : List A) (from size : ℕ)
      → length (slice from (from + size) items) ≡ min size (length items - from)
  length-slice items from size =
      length-take ((from + size) - from) (drop from items)
      ∙ rw (span from size, length-drop from items) refl

  -- The page that is shown, whatever offset is asked for: it has at most a page of items, it is one
  -- of the pages that are counted, and it is empty only if there are no items.
  pub page_slice_lem :
      (items : List A) (offset size : ℕ)
      → 0 < size
      → let p = page_slice items offset size in
        (length p.page_items ≤ size)
        × (p.info.current_page ≤ p.info.total_pages)
        × (min 1 (length items) ≤ length p.page_items)
  unfolding page_slice
  page_slice_lem items offset size h =
      let pages = ceil_div (length items) size in
      let last = (max 1 pages - 1) * size in
      let from = clamp_int offset 0 (max 0 last) in
      let room = length-slice items from size in
      (
        omega (arith, room),
        page_number-le from pages size h (clamp_int-le offset last),
        omega (
          arith,
          room,
          shown (length items) size from h (λ k. before_last (clamp_int-le offset last) (
              last_offset (length items) size pages k h
                (div-mul-le_self (length items + (size - 1)) size))),
        ),
      )
