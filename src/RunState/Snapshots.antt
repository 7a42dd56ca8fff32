-- ===== src/RunState/Snapshots.antt =====
-- The upsert of a snapshot into the block list of src/card/run-state.ts.
use lark_remote.Common.{
  Text, ℕ, ◌+◌, max, Bool, true, List, [], ◌∷◌, ◌++◌, filter, Option, none, some, not, ◌≡◌, refl,
  sym, ap, ◌∙◌, arith, if◌then◌else◌, Bool-cases, inl, inr,
}
use lark_remote.RunState.Types.{RunBlock, TurnDiff}
use lark_remote.RunState.TurnDiff.{text_diff_matches, update_text_diff_block}
use lark_remote.RunState.Blocks.{split_last, put_back, upsert_snapshot_block}

-- How many blocks pass the test.
abbrev pub count : (RunBlock → Bool) → List RunBlock → ℕ
count p [] = 0
count p (b ∷ bs) = (if p b then 1 else 0) + count p bs

-- The blocks of the other items.
abbrev pub others : (RunBlock → Bool) → List RunBlock → List RunBlock
others p bs = filter (λ b. not (p b)) bs

count-append :
    (p : RunBlock → Bool) (xs ys : List RunBlock) → count p (xs ++ ys) ≡ count p xs + count p ys
count-append p [] ys = omega arith
count-append p (x ∷ xs) ys = omega (arith, count-append p xs ys)

others-append :
    (p : RunBlock → Bool) (xs ys : List RunBlock) → others p (xs ++ ys) ≡ others p xs ++ others p ys
others-append p [] ys = refl
others-append p (x ∷ xs) ys = ground (arith, others-append p xs ys)

-- What the search for the last match says of the list.
abbrev Found :
    (RunBlock → Bool) → List RunBlock → Option (List RunBlock × RunBlock × List RunBlock) → Type 0
Found p bs none = count p bs ≡ 0
Found p bs (some (before, found, behind)) = (bs ≡ before ++ found ∷ behind) × (p found ≡ true)

split_last-Found : (p : RunBlock → Bool) (bs : List RunBlock) → Found p bs (split_last p bs)
split_last-Found p [] = refl
split_last-Found p (b ∷ bs) = ground (arith, split_last-Found p bs)

append-nil : (xs : List RunBlock) → xs ++ [] ≡ xs
append-nil [] = refl
append-nil (x ∷ xs) = rw (append-nil xs) refl

others-pass :
    (p : RunBlock → Bool) (b : RunBlock) (bs : List RunBlock)
    → p b ≡ true
    → others p (b ∷ bs) ≡ others p bs
others-pass p b bs h = ground arith

module _ (p : RunBlock → Bool) (fallback : RunBlock) (update : RunBlock → RunBlock)
    (move : Bool) where
  abbrev Kept : List RunBlock → List RunBlock → Type 0
  Kept bs out = (count p out ≡ max 1 (count p bs)) × (others p out ≡ others p bs)

  put_back-Kept :
      (before : List RunBlock) (found : RunBlock) (behind : List RunBlock)
      → p found ≡ true
      → p (update found) ≡ true
      → Kept (before ++ found ∷ behind) (put_back move before (update found) behind)
  put_back-Kept before found behind h k = elim (Bool-cases move) [
    | inl moved ↦
        rw (moved, put_back)
          (
            ground (
              arith,
              count-append p before (behind ++ update found ∷ []),
              count-append p behind (update found ∷ []),
              count-append p before (found ∷ behind),
            ),
            others-append p before (behind ++ update found ∷ [])
                ∙ ap (◌++◌ (others p before)) (
                    others-append p behind (update found ∷ [])
                    ∙ ap (◌++◌ (others p behind)) (others-pass p (update found) [] k)
                    ∙ append-nil (others p behind)
                    ∙ sym (others-pass p found behind h))
                ∙ sym (others-append p before (found ∷ behind)),
          )
    | inr stays ↦
        rw (stays, put_back)
          (
            ground (
              arith,
              count-append p before (update found ∷ behind),
              count-append p before (found ∷ behind),
            ),
            others-append p before (update found ∷ behind)
                ∙ ap (◌++◌ (others p before))
                    (others-pass p (update found) behind k ∙ sym (others-pass p found behind h))
                ∙ sym (others-append p before (found ∷ behind)),
          )
  ]

  new-Kept :
      (bs : List RunBlock) → p fallback ≡ true → count p bs ≡ 0 → Kept bs (bs ++ fallback ∷ [])
  new-Kept bs h k = (
    ground (arith, count-append p bs (fallback ∷ [])),
    others-append p bs (fallback ∷ [])
        ∙ ap (◌++◌ (others p bs)) (others-pass p fallback [] h)
        ∙ append-nil (others p bs),
  )

  -- A snapshot never doubles the block of its item: if the blocks that it makes and updates are of
  -- the item, the list has one block of the item afterwards, or as many as before if it had more,
  -- and all other blocks stay as they are and in their order, whether the block moves to the end or
  -- not.
  pub upsert_snapshot_block_lem :
      (bs : List RunBlock)
      → p fallback ≡ true
      → ((b : RunBlock) → p b ≡ true → p (update b) ≡ true)
      → let out = upsert_snapshot_block bs p fallback update move in
        (count p out ≡ max 1 (count p bs)) × (others p out ≡ others p bs)
  unfolding upsert_snapshot_block
  upsert_snapshot_block_lem bs h k = go (split_last p bs) refl (split_last-Found p bs)
    where
      go :
          (o : Option (List RunBlock × RunBlock × List RunBlock))
          → split_last p bs ≡ o
          → Found p bs o
          → Kept bs (upsert_snapshot_block bs p fallback update move)
      go none e f = rw (e, upsert_snapshot_block) (new-Kept bs h f)
      go (some (before, found, behind)) e f =
          rw (e, upsert_snapshot_block, f.0) (put_back-Kept before found behind f.1 (k found f.1))

-- A text block of the item stays one of the item when it is updated.
pub text_diff_matches-update :
    (event : TurnDiff) (value : Text) (b : RunBlock)
    → text_diff_matches event b ≡ true
    → text_diff_matches event (update_text_diff_block event value b) ≡ true
text_diff_matches-update event value (RunBlock.text b) h = h
text_diff_matches-update event value (RunBlock.thinking b) h = h
text_diff_matches-update event value (RunBlock.tool b) h = h
text_diff_matches-update event value (RunBlock.plan b) h = h
text_diff_matches-update event value (RunBlock.file_change b) h = h
