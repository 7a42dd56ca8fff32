-- ===== src/Paging.antt =====
-- `pageInfo` and `pageSlice` of src/router/paging.ts, `paginate` and `capEvents` of
-- src/session/common/pagination.ts and `clampInt` of src/common/clamp.ts. Offsets and limits are not
-- negative, and a page has room for an item.
use lark_remote.Common.{
  ℕ, ◌+◌, ◌-◌, ◌*◌, ◌/◌, min, max, Bool, true, false, List, [], take, take_last, drop, length,
  Option, none, some, or_else, ltb, ◌==◌, if◌then◌else◌,
}
pub mod Laws
mod Tests

unfoldable pub clamp_int : ℕ → ℕ → ℕ → ℕ
clamp_int v lo hi = min (max v lo) hi

pub record PageInfo : Type 0 where
  pub total_pages : ℕ
  pub safe_offset : ℕ
  pub current_page : ℕ

-- `Math.ceil(a / b)` for a positive `b`.
abbrev pub ceil_div : ℕ → ℕ → ℕ
ceil_div a b = (a + (b - 1)) / b

unfoldable pub page_info : ℕ → ℕ → ℕ → PageInfo
unfolding clamp_int
page_info total_count offset page_size =
    let total_pages = max 1 (ceil_div total_count page_size) in
    let max_offset = max 0 ((total_pages - 1) * page_size) in
    let safe_offset = clamp_int offset 0 max_offset in
    record {
      total_pages = total_pages;
      safe_offset = safe_offset;
      current_page = safe_offset / page_size + 1;
    }

-- `items.slice(from, to)`.
abbrev pub slice {ℓ} : {A : Type ℓ} → ℕ → ℕ → List A → List A
slice from to items = take (to - from) (drop from items)

pub record Page {ℓ} (A : Type ℓ) : Type ℓ where
  pub total_count : ℕ
  pub info : PageInfo
  pub page_items : List A
  pub has_pagination : Bool

unfoldable pub page_slice {ℓ} : {A : Type ℓ} → List A → ℕ → ℕ → Page A
unfolding page_info
page_slice items offset page_size =
    let info = page_info (length items) offset page_size in
    record {
      total_count = length items;
      info = info;
      page_items = slice info.safe_offset (info.safe_offset + page_size) items;
      has_pagination = ltb page_size (length items);
    }

abbrev pub default_list_limit : ℕ
default_list_limit = 20

unfoldable pub paginate {ℓ} : {A : Type ℓ} → List A → Option ℕ → Option ℕ → List A × ℕ
paginate items limit offset =
    let size = or_else limit default_list_limit in
    let from = max 0 (or_else offset 0) in (slice from (from + size) items, length items)

unfoldable pub cap_events {ℓ} : {A : Type ℓ} → List A → Option ℕ → List A
cap_events events none = events
cap_events events (some max_events) =
    if ltb (length events) max_events
    then events
    else if max_events == 0
    then []
    else take_last max_events events
