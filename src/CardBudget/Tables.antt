-- ===== src/CardBudget/Tables.antt =====
-- The markdown tables of a text, src/card/text-truncate.ts. A text is the list of its code points.
use lark_remote.Common.{
  ℕ, zero, suc, ◌+◌, ◌-◌, Bool, true, false, ◌&&◌, ◌||◌, List, [], ◌∷◌, ◌++◌, all, take, length,
  Option, none, some, is_space, trim, join, ◌==◌, leb, ltb, if◌then◌else◌,
}
use lark_remote.Common.Lines.{split_lines, points}
use lark_remote.RunState.Decimal.{print}

abbrev is_separator_code : ℕ → Bool
is_separator_code c = c == b'-' || c == b':' || c == b' ' || c == b'|'

-- `/^\|[-: |]+$/`, on a line that was trimmed.
abbrev is_separator_row : List ℕ → Bool
is_separator_row [] = false
is_separator_row (c ∷ []) = false
is_separator_row (c ∷ d ∷ rest) = c == b'|' && all is_separator_code (d ∷ rest)

unfoldable pub is_separator : List ℕ → Bool
unfolding trim
is_separator line = is_separator_row (trim line)

abbrev pub count_separators : List (List ℕ) → ℕ
count_separators [] = 0
count_separators (line ∷ rest) = (if is_separator line then 1 else 0) + count_separators rest

unfoldable pub count_markdown_tables : List ℕ → ℕ
unfolding split_lines is_separator
count_markdown_tables text = count_separators (split_lines text)

pub record TableBlock : Type 0 where
  pub start : ℕ
  pub end : ℕ

-- The rest of `/^#{1,6}\s/` behind `n` marks.
abbrev heading_rest : ℕ → List ℕ → Bool
heading_rest n [] = false
heading_rest n (c ∷ s) =
    let further = heading_rest (n + 1) s in
    if c == b'#' then ltb n 6 && further else leb 1 n && is_space c

-- A blank line or a heading, on a line that was trimmed.
abbrev is_gap_row : List ℕ → Bool
is_gap_row [] = true
is_gap_row (c ∷ s) = heading_rest 0 (c ∷ s)

unfoldable pub is_gap : List ℕ → Bool
unfolding trim is_space
is_gap line = is_gap_row (trim line)

abbrev starts_row : List ℕ → Bool
starts_row [] = false
starts_row (c ∷ s) = c == b'|'

unfoldable pub is_row : List ℕ → Bool
unfolding trim
is_row line = starts_row (trim line)

abbrev pub line_at : List (List ℕ) → ℕ → List ℕ
line_at [] i = []
line_at (line ∷ rest) zero = line
line_at (line ∷ rest) (suc i) = line_at rest i

-- `while (start > 0)`: up over blank lines and headings.
abbrev pub expand_start : List (List ℕ) → ℕ → ℕ
expand_start lines zero = 0
expand_start lines (suc k) =
    let further = expand_start lines k in if is_gap (line_at lines k) then further else suc k

-- `while (end < lines.length && …)`: down over the rows, which are the lines from `end` on.
abbrev pub expand_end : List (List ℕ) → ℕ → ℕ
expand_end [] end = end
expand_end (line ∷ rest) end =
    let further = expand_end rest (end + 1) in if is_row line then further else end

-- The blocks from line `i` on, where `rest` is what follows line `i - 1`.
abbrev pub blocks_from : List (List ℕ) → List (List ℕ) → ℕ → List TableBlock
blocks_from lines [] i = []
blocks_from lines (line ∷ rest) i =
    let further = blocks_from lines rest (i + 1) in
    if is_separator line
    then (if i == 0
        then further
        else record { start = expand_start lines (i - 1); end = expand_end rest (i + 1) } ∷ further)
    else further

unfoldable pub find_markdown_table_blocks : List ℕ → List TableBlock
unfolding split_lines is_separator is_gap is_row
find_markdown_table_blocks text = blocks_from (split_lines text) (split_lines text) 0

-- `blockByStart.get(i)`: the last block with this start.
abbrev pub block_at : List TableBlock → ℕ → Option TableBlock
block_at [] i = none
block_at (b ∷ bs) i = elim (block_at bs i) [
  | some later ↦ some later
  | none ↦ if b.start == i then some b else none
]

abbrev pub omitted_note : ℕ → List ℕ
unfolding print
omitted_note n = points "_💡 前 " ++ (print n ++ points " 个表格已省略_")

-- The loop that copies the lines: those before line `resume` belong to a dropped block.
abbrev pub copy_lines : List TableBlock → List (List ℕ) → ℕ → ℕ → ℕ → List (List ℕ)
copy_lines blocks [] i resume dropped = []
copy_lines blocks (line ∷ rest) i resume dropped =
    let skipped = copy_lines blocks rest (i + 1) resume dropped in
    let kept = line ∷ copy_lines blocks rest (i + 1) resume dropped in
    if ltb i resume then skipped else elim (block_at blocks i) [
      | none ↦ kept
      | some block ↦
          let further = copy_lines blocks rest (i + 1) block.end (dropped + 1) in
          if dropped + 1 == length blocks then omitted_note (dropped + 1) ∷ further else further
    ]

abbrev pub drop_blocks : List TableBlock → List ℕ → List ℕ
unfolding split_lines join print
drop_blocks [] text = text
drop_blocks (b ∷ bs) text = join (10 ∷ []) (copy_lines (b ∷ bs) (split_lines text) 0 0 0)

unfoldable pub drop_oldest_markdown_tables : List ℕ → ℕ → List ℕ
unfolding find_markdown_table_blocks split_lines join print
drop_oldest_markdown_tables text max_drop =
    if max_drop == 0
    then text
    else drop_blocks (take max_drop (find_markdown_table_blocks text)) text

unfoldable pub truncate_markdown_tables : List ℕ → ℕ → List ℕ
unfolding drop_oldest_markdown_tables find_markdown_table_blocks
truncate_markdown_tables text max_tables =
    if max_tables == 0
    then text
    else let drop_count = length (find_markdown_table_blocks text) - max_tables in
      if drop_count == 0 then text else drop_oldest_markdown_tables text drop_count
