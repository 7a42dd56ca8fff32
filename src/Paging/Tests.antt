-- ===== src/Paging/Tests.antt =====
-- Pages of short lists.
use lark_remote.Common.{ℕ, List, [], ◌∷◌, some, ◌≡◌, refl, arith}
use lark_remote.Paging.{page_slice, cap_events}
use lark_remote.Paging.Laws.{pages_from, pages_whole}

abbrev five : List ℕ
five = 1 ∷ 2 ∷ 3 ∷ 4 ∷ 5 ∷ []

pages_whole_example : pages_from five 2 0 3 ≡ five
pages_whole_example = pages_whole five 2 3 (omega arith)

beyond_the_end : (page_slice five 9 2).page_items ≡ 5 ∷ []
unfolding page_slice
beyond_the_end = refl

last_events : cap_events five (some 2) ≡ 4 ∷ 5 ∷ []
unfolding cap_events
last_events = refl

no_events : cap_events five (some 0) ≡ []
unfolding cap_events
no_events = refl
