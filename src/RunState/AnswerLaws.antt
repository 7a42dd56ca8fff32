-- ===== src/RunState/AnswerLaws.antt =====
-- The answer that a run streams is the answer that its card shows at the end.
use lark_remote.Common.{
  trim, ℕ, zero, suc, ◌-◌, ◌<◌, Text, String, Bool, true, false, List, [], ◌∷◌, ◌++◌, Option, none,
  some, last?, drop, length, ◌≡◌, refl, sym, ap, ◌∙◌, arith, Bool-cases, inl, inr, leb,
}
use lark_remote.RunState.Types.{
  RunBlock, RunState, RunTerminal, AgentEvent, AssistantContent, FinalAnswer, AnswerSource,
}
use lark_remote.RunState.Blocks.{
  max_blocks, is_run_terminal, mark_thinking_inactive, quieten, keep_latest_blocks,
  with_capped_blocks, cap_stale_text_blocks, split_last,
}
use lark_remote.RunState.Content.{add_text, add_content, reduce_assistant_event, but_last}
use lark_remote.RunState.Answer.{is_blank, is_answer, promote_final_answer}
use lark_remote.RunState.Reduce.{
  reduce_event, reduce_run_state_inner, reduce_run_state, FinishMeta, apply_meta, finish_run,
}

-- The text of the last block, which is empty when the last block is no text.
abbrev pub text_of : Option RunBlock → Text
text_of (some (RunBlock.text b)) = b.content
text_of _ = []

abbrev pub last_text : List RunBlock → Text
last_text blocks = text_of (last? blocks)

last-append : (bs : List RunBlock) (b : RunBlock) → last? (bs ++ b ∷ []) ≡ some b
last-append [] b = refl
last-append (x ∷ []) b = refl
last-append (x ∷ y ∷ ys) b = last-append (y ∷ ys) b

text_of-quiet : (b : RunBlock) → text_of (some (quieten b)) ≡ text_of (some b)
text_of-quiet (RunBlock.thinking b) = refl
text_of-quiet (RunBlock.text b) = refl
text_of-quiet (RunBlock.tool b) = refl
text_of-quiet (RunBlock.plan b) = refl
text_of-quiet (RunBlock.file_change b) = refl

last_text-quiet : (bs : List RunBlock) → last_text (mark_thinking_inactive bs) ≡ last_text bs
unfolding mark_thinking_inactive
last_text-quiet [] = refl
last_text-quiet (b ∷ []) = text_of-quiet b
last_text-quiet (b ∷ c ∷ cs) = last_text-quiet (c ∷ cs)

last_text-add :
    (value : Text) (ts : Option String) (blocks : List RunBlock) (o : Option RunBlock)
    → last? blocks ≡ o
    → last_text (add_text value ts blocks o) ≡ text_of o ++ value
unfolding add_text
last_text-add value ts blocks none h = rw (last-append blocks _) refl
last_text-add value ts blocks (some (RunBlock.text b)) h = rw (last-append (but_last blocks) _) refl
last_text-add value ts blocks (some (RunBlock.thinking b)) h = rw (last-append blocks _) refl
last_text-add value ts blocks (some (RunBlock.tool b)) h = rw (last-append blocks _) refl
last_text-add value ts blocks (some (RunBlock.plan b)) h = rw (last-append blocks _) refl
last_text-add value ts blocks (some (RunBlock.file_change b)) h = rw (last-append blocks _) refl

last-drop : (n : ℕ) (bs : List RunBlock) → n < length bs → last? (drop n bs) ≡ last? bs
last-drop zero bs h = refl
last-drop (suc n) [] h = elim h [ ]
last-drop (suc n) (b ∷ []) h = ground arith
last-drop (suc n) (b ∷ c ∷ cs) h = last-drop n (c ∷ cs) (omega arith)

last-keep : (bs : List RunBlock) → last? (keep_latest_blocks bs) ≡ last? bs
unfolding keep_latest_blocks
last-keep bs = elim (Bool-cases (leb (length bs) max_blocks)) [
  | inl e ↦ rw (e, keep_latest_blocks) refl
  | inr e ↦ rw (e, keep_latest_blocks) (last-drop (length bs - max_blocks) bs (ground arith))
]

-- The newest text is left whole by the window on the older ones.
last-cap : (bs : List RunBlock) → last? (cap_stale_text_blocks bs) ≡ last? bs
unfolding cap_stale_text_blocks
last-cap [] = refl
last-cap (RunBlock.thinking b ∷ []) = refl
last-cap (RunBlock.text b ∷ []) = refl
last-cap (RunBlock.tool b ∷ []) = refl
last-cap (RunBlock.plan b ∷ []) = refl
last-cap (RunBlock.file_change b ∷ []) = refl
last-cap (b ∷ c ∷ cs) = last-cap (c ∷ cs)

split_last-last :
    (p : RunBlock → Bool) (bs : List RunBlock) (b : RunBlock)
    → last? bs ≡ some b
    → p b ≡ true
    → (before : List RunBlock) × (split_last p bs ≡ some (before, b, []))
split_last-last p [] b h k = ground arith
split_last-last p (x ∷ []) b h k = ([], ground arith)
split_last-last p (x ∷ y ∷ ys) b h k =
    let (before, e) = split_last-last p (y ∷ ys) b h k in (x ∷ before, rw e refl)

blank-empty : is_blank [] ≡ true
unfolding trim
blank-empty = refl

-- An answer that the card may still choose: none was named, and the last block has a text.
promote-last :
    (s : RunState) (source : AnswerSource) (o : Option RunBlock)
    → s.final_answer ≡ none
    → last? s.blocks ≡ o
    → is_blank (text_of o) ≡ false
    → (a : FinalAnswer) × ((promote_final_answer s source none).final_answer ≡ some a)
      × (a.content ≡ text_of o)
      × (a.complete ≡ true)
unfolding promote_final_answer
promote-last s source (some (RunBlock.text b)) h e k =
    let (before, found) = split_last-last is_answer s.blocks (RunBlock.text b) e (rw k refl) in
    (
      record { content = b.content; timestamp = b.timestamp; complete = true; source = source },
      rw (h, found, promote_final_answer) refl,
      refl,
      refl,
    )
promote-last s source none h e k = absurd (ground (arith, blank-empty))
promote-last s source (some (RunBlock.thinking b)) h e k = absurd (ground (arith, blank-empty))
promote-last s source (some (RunBlock.tool b)) h e k = absurd (ground (arith, blank-empty))
promote-last s source (some (RunBlock.plan b)) h e k = absurd (ground (arith, blank-empty))
promote-last s source (some (RunBlock.file_change b)) h e k = absurd (ground (arith, blank-empty))

finish-answer :
    (now : ℕ) (s : RunState) (terminal : RunTerminal) (meta : FinishMeta)
    → (finish_run now s terminal meta).final_answer
      ≡ (promote_final_answer s AnswerSource.inferred none).final_answer
unfolding finish_run apply_meta
finish-answer now s terminal meta = ground arith

-- A run that streams: it is open and no answer has been named.
abbrev pub IsStreaming : RunState → Type 0
IsStreaming s = (is_run_terminal s.terminal ≡ false) × (s.final_answer ≡ none)

module _ (as_record : Text → Option (List Text)) where
  abbrev pub piece : Text → Option String → AgentEvent
  piece value ts = AgentEvent.assistant (AssistantContent.text value ∷ []) ts

  add_text-last :
      (value : Text) (ts : Option String) (s : RunState)
      → last_text (add_content as_record (AssistantContent.text value) ts s).blocks
        ≡ last_text s.blocks ++ value
  unfolding add_content with_capped_blocks
  add_text-last value ts s =
      ap text_of (
        last-keep (
          add_text value ts (mark_thinking_inactive s.blocks)
            (last? (mark_thinking_inactive s.blocks))))
      ∙ last_text-add value ts (mark_thinking_inactive s.blocks) _ refl
      ∙ ap (λ x. x ++ value) (last_text-quiet s.blocks)

  piece-reduce :
      (value : Text) (ts : Option String) (s : RunState)
      → is_run_terminal s.terminal ≡ false
      → let t = add_content as_record (AssistantContent.text value) ts s in
        reduce_run_state as_record s (piece value ts)
        ≡ record t { blocks = cap_stale_text_blocks t.blocks }
  unfolding reduce_run_state reduce_run_state_inner reduce_event reduce_assistant_event
  piece-reduce value ts s h = rw (h, reduce_run_state) refl

  piece-last :
      (value : Text) (ts : Option String) (s : RunState)
      → IsStreaming s
      → let t = reduce_run_state as_record s (piece value ts) in
        IsStreaming t × (last_text t.blocks ≡ last_text s.blocks ++ value)
  unfolding add_content with_capped_blocks
  piece-last value ts s v = rw (piece-reduce value ts s v.0) (
    v,
    ap text_of (last-cap (add_content as_record (AssistantContent.text value) ts s).blocks)
        ∙ add_text-last value ts s,
  )

  abbrev pub stream : List (Text × Option String) → RunState → RunState
  stream [] s = s
  stream ((value, ts) ∷ rest) s = stream rest (reduce_run_state as_record s (piece value ts))

  abbrev pub whole : List (Text × Option String) → Text
  whole [] = []
  whole ((value, ts) ∷ rest) = value ++ whole rest

  append_assoc : (a b c : Text) → (a ++ b) ++ c ≡ a ++ (b ++ c)
  append_assoc [] b c = refl
  append_assoc (x ∷ a) b c = rw (append_assoc a b c) refl

  append-nil : (a : Text) → a ++ [] ≡ a
  append-nil [] = refl
  append-nil (x ∷ a) = rw (append-nil a) refl

  stream-last :
      (pieces : List (Text × Option String)) (s : RunState)
      → IsStreaming s
      → IsStreaming (stream pieces s)
        × (last_text (stream pieces s).blocks ≡ last_text s.blocks ++ whole pieces)
  stream-last [] s v = (v, sym (append-nil (last_text s.blocks)))
  stream-last ((value, ts) ∷ rest) s v =
      let (w, e) = piece-last value ts s v in
      let (x, f) = stream-last rest (reduce_run_state as_record s (piece value ts)) w in
      (x, f ∙ ap (λ a. a ++ whole rest) e ∙ append_assoc (last_text s.blocks) value (whole rest))

  -- The pieces of a text that an open run streams one after the other, when no answer was named,
  -- end on the card as one complete answer: what the last block held, if it was a text, and behind
  -- it every piece whole and in order, however long it is, unless that is blank.
  pub streamed_answer :
      (pieces : List (Text × Option String)) (s : RunState) (now : ℕ) (terminal : RunTerminal)
      (meta : FinishMeta)
      → IsStreaming s
      → is_blank (last_text s.blocks ++ whole pieces) ≡ false
      → (a : FinalAnswer) × ((finish_run now (stream pieces s) terminal meta).final_answer ≡ some a)
        × (a.content ≡ last_text s.blocks ++ whole pieces)
        × (a.complete ≡ true)
  streamed_answer pieces s now terminal meta v k =
      let (w, e) = stream-last pieces s v in
      let (a, f, g, c) = promote-last (stream pieces s) AnswerSource.inferred _ w.1 refl (rw e k) in
      (a, finish-answer now (stream pieces s) terminal meta ∙ f, g ∙ e, c)
