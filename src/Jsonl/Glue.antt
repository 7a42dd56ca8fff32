-- ===== src/Jsonl/Glue.antt =====
-- The lines of two texts put together.
use lark_remote.Common.{
  ℕ, ◌≤◌, Text, Bool, true, false, List, [], ◌∷◌, ◌++◌, length, length-append, All, All-append, ◌≡◌,
  ◌≢◌, refl, ap, sym, arith, ◌==◌, if◌then◌else◌,
}
use lark_remote.Common.Lines.{onto_first, split_lines}

-- The last line of the one goes on with the first line of the other.
abbrev pub glue : List Text → List Text → List Text
glue [] ms = ms
glue (l ∷ []) [] = l ∷ []
glue (l ∷ []) (m ∷ ms) = (l ++ m) ∷ ms
glue (l ∷ k ∷ ls) ms = l ∷ glue (k ∷ ls) ms

glue-onto_first :
    (c : ℕ) (ls ms : List Text) → ls ≢ [] → glue (onto_first c ls) ms ≡ onto_first c (glue ls ms)
glue-onto_first c [] ms h = absurd (h refl)
glue-onto_first c (l ∷ []) [] h = refl
glue-onto_first c (l ∷ []) (m ∷ ms) h = refl
glue-onto_first c (l ∷ k ∷ ls) ms h = refl

pub split_lines-ne : (s : Text) → split_lines s ≢ []
unfolding split_lines
split_lines-ne [] h = cc
split_lines-ne (c ∷ s) h = go (c == 10) (split_lines s) h
  where
    go : (b : Bool) (rest : List Text) → ¬ ((if b then [] ∷ rest else onto_first c rest) ≡ [])
    go true rest k = cc
    go false [] k = cc
    go false (l ∷ ls) k = cc

glue-empty_line : (ms : List Text) → ms ≢ [] → glue ([] ∷ []) ms ≡ ms
glue-empty_line [] h = absurd (h refl)
glue-empty_line (m ∷ ms) h = refl

glue-break : (ls ms : List Text) → ls ≢ [] → glue ([] ∷ ls) ms ≡ [] ∷ glue ls ms
glue-break [] ms h = absurd (h refl)
glue-break (l ∷ ls) ms h = refl

pub split_lines-append : (s t : Text) → split_lines (s ++ t) ≡ glue (split_lines s) (split_lines t)
unfolding split_lines
split_lines-append [] t = sym (glue-empty_line (split_lines t) (split_lines-ne t))
split_lines-append (c ∷ s) t = rw (split_lines-append s t) (go (c == 10))
  where
    go :
        (b : Bool)
        → (if b
            then [] ∷ glue (split_lines s) (split_lines t)
            else onto_first c (glue (split_lines s) (split_lines t)))
          ≡ glue (if b then [] ∷ split_lines s else onto_first c (split_lines s)) (split_lines t)
    go true = sym (glue-break (split_lines s) (split_lines t) (split_lines-ne s))
    go false = sym (glue-onto_first c (split_lines s) (split_lines t) (split_lines-ne s))

glue-append :
    (xs : List Text) (l : Text) (ms : List Text) → glue (xs ++ l ∷ []) ms ≡ xs ++ glue (l ∷ []) ms
glue-append [] l ms = refl
glue-append (x ∷ []) l ms = refl
glue-append (x ∷ y ∷ xs) l ms = ap (λ rest. x ∷ rest) (glue-append (y ∷ xs) l ms)

-- What follows goes on with the last line.
pub split_lines-goes_on :
    (s t : Text) (complete : List Text) (last m : Text) (ms : List Text)
    → split_lines s ≡ complete ++ last ∷ []
    → split_lines t ≡ m ∷ ms
    → split_lines (s ++ t) ≡ complete ++ (last ++ m) ∷ ms
split_lines-goes_on s t complete last m ms h k =
    rw (split_lines-append s t, h, k) (glue-append complete last (m ∷ ms))

-- A limit on the lines.
module _ (limit : ℕ) where
  abbrev pub Short : List Text → Type 0
  Short ls = All (λ l. length l ≤ limit) ls

  pub Short-left : (xs ys : List Text) → Short (xs ++ ys) → Short xs
  Short-left [] ys h = tt
  Short-left (x ∷ xs) ys h = (h.0, Short-left xs ys h.1)

  pub Short-right : (xs ys : List Text) → Short (xs ++ ys) → Short ys
  Short-right [] ys h = h
  Short-right (x ∷ xs) ys h = Short-right xs ys h.1

  -- The lines of a text are no longer than those of a text that goes on.
  pub Short-before :
      (complete : List Text) (last m : Text) (ms : List Text)
      → Short (complete ++ (last ++ m) ∷ ms)
      → Short (complete ++ last ∷ [])
  Short-before complete last m ms h =
      let after = Short-right complete _ h in
      All-append _ complete _ (Short-left complete _ h)
        (omega (arith, after.0, length-append last m), tt)
