-- ===== src/Inflight/Listed.antt =====
-- A prompt that was recorded stays on the list of src/runner/dsh/inflight.ts.
use mathlib.Core.List.{append_assoc}
use native.Mathlib.Numerals.{add-one}
use lark_remote.Common.{
  All, zero, suc, ℕ, ◌+◌, ◌-◌, ◌≤◌, ◌<◌, String, Bool, true, false, not, List, [], ◌∷◌, ◌++◌,
  filter, drop, take_last, length, length-append, length-filter-le, ◌≡◌, refl, ap, ◌∙◌, arith,
}
use lark_remote.Inflight.{
  InflightEntry, InflightFile, max_entries, max_age_ms, is_entry, valid_entries, is_same, is_fresh,
  file_entries, list_entries, shape_all, write, record_entry, clear_entry,
}

-- The entry is held, with at most `n` others behind it.
pub record Holds (e : InflightEntry) (n : ℕ) (es : List InflightEntry) : Type 0 where
  pub older : List InflightEntry
  pub newer : List InflightEntry
  pub parted : es ≡ older ++ e ∷ newer
  pub few : length newer ≤ n

filter-append :
    (p : InflightEntry → Bool) (xs ys : List InflightEntry)
    → filter p (xs ++ ys) ≡ filter p xs ++ filter p ys
filter-append p [] ys = refl
filter-append p (x ∷ xs) ys = ground (arith, filter-append p xs ys)

filter-kept :
    (p : InflightEntry → Bool) (e : InflightEntry) (es : List InflightEntry)
    → p e ≡ true
    → filter p (e ∷ es) ≡ e ∷ filter p es
filter-kept p e es k = ground (arith, k)

filter-Holds :
    (p : InflightEntry → Bool) (e : InflightEntry) (n : ℕ) (es : List InflightEntry)
    → p e ≡ true
    → Holds e n es
    → Holds e n (filter p es)
filter-Holds p e n es k h = record {
  older = filter p h.older;
  newer = filter p h.newer;
  parted = rw h.parted (
      filter-append p h.older (e ∷ h.newer)
      ∙ ap (λ r. filter p h.older ++ r) (filter-kept p e h.newer k));
  few = omega (arith, h.few, length-filter-le p h.newer);
}

drop-older :
    (k : ℕ) (xs ys : List InflightEntry) → k ≤ length xs → drop k (xs ++ ys) ≡ drop k xs ++ ys
drop-older zero xs ys h = refl
drop-older (suc k) [] ys h = absurd (omega arith)
drop-older (suc k) (x ∷ xs) ys h = drop-older k xs ys (omega arith)

take_last-Holds :
    (e : InflightEntry) (n : ℕ) (es : List InflightEntry)
    → n < max_entries
    → Holds e n es
    → Holds e n (take_last max_entries es)
take_last-Holds e n es l h = record {
  older = drop (length es - max_entries) h.older;
  newer = h.newer;
  parted = rw h.parted (
      drop-older (length (h.older ++ e ∷ h.newer) - max_entries) h.older (e ∷ h.newer)
        (omega (arith, h.few, length-append h.older (e ∷ h.newer))));
  few = h.few;
}

valid_entries-shape_all :
    (es : List InflightEntry) → valid_entries (shape_all es) ≡ filter is_entry es
valid_entries-shape_all [] = refl
valid_entries-shape_all (e ∷ es) = ground (arith, valid_entries-shape_all es)

-- Any calls on the file: the entry that is recorded, or the prompt that is cleared, with the success
-- of the write and the time.
pub data InflightCall : Type 0 where
  recording : InflightEntry → Bool → ℕ → InflightCall
  clearing : String → String → Bool → ℕ → InflightCall

unfoldable pub do_inflight : InflightCall → InflightFile → InflightFile
unfolding record_entry clear_entry
do_inflight (recording e succeeds now) file = record_entry succeeds now e file
do_inflight (clearing session prompt succeeds now) file =
    clear_entry succeeds now session prompt file

abbrev pub do_all : List InflightCall → InflightFile → InflightFile
do_all [] file = file
do_all (c ∷ cs) file = do_all cs (do_inflight c file)

abbrev pub recordings : List InflightCall → ℕ
recordings [] = 0
recordings (recording e succeeds now ∷ cs) = suc (recordings cs)
recordings (clearing session prompt succeeds now ∷ cs) = recordings cs

-- A call for another prompt, no more than seven days later.
abbrev pub IsOther : InflightEntry → InflightCall → Type 0
IsOther e (recording other succeeds now) =
    (is_same other.session_id other.prompt_request_id e ≡ false) × (now ≤ e.updated_at + max_age_ms)
IsOther e (clearing session prompt succeeds now) =
    (is_same session prompt e ≡ false) × (now ≤ e.updated_at + max_age_ms)

recordings-cons :
    (c : InflightCall) (cs : List InflightCall)
    → recordings (c ∷ cs) ≡ recordings (c ∷ []) + recordings cs
recordings-cons (recording e succeeds now) cs = omega arith
recordings-cons (clearing session prompt succeeds now) cs = omega arith

module _ (e : InflightEntry) (valid : is_entry e ≡ true) where
  list-Holds :
      (now n : ℕ) (file : InflightFile)
      → now ≤ e.updated_at + max_age_ms
      → n < max_entries
      → Holds e n (file_entries file)
      → Holds e n (list_entries now file)
  unfolding list_entries
  list-Holds now n file t l h =
      take_last-Holds e n _ l
        (filter-Holds (is_fresh now) e n (file_entries file) (ground (arith, t)) h)

  pub more-Holds : (n m : ℕ) (es : List InflightEntry) → n ≤ m → Holds e n es → Holds e m es
  more-Holds n m es l h = record {
    older = h.older;
    newer = h.newer;
    parted = h.parted;
    few = omega (arith, h.few);
  }

  written-Holds :
      (n : ℕ) (es : List InflightEntry) (file : InflightFile)
      → n < max_entries
      → Holds e n es
      → Holds e n (file_entries (write true es file))
  unfolding write
  written-Holds n es file l h =
      rw (valid_entries-shape_all (take_last max_entries es))
        (filter-Holds is_entry e n (take_last max_entries es) valid (take_last-Holds e n es l h))

  write-Holds :
      (succeeds : Bool) (n : ℕ) (es : List InflightEntry) (file : InflightFile)
      → n < max_entries
      → Holds e n es
      → Holds e n (file_entries file)
      → Holds e n (file_entries (write succeeds es file))
  write-Holds true n es file l h k = written-Holds n es file l h
  write-Holds false n es file l h k = unfold write in k

  others_kept :
      (session prompt : String) (n : ℕ) (es : List InflightEntry)
      → is_same session prompt e ≡ false
      → Holds e n es
      → Holds e n (filter (λ held. not (is_same session prompt held)) es)
  others_kept session prompt n es s h =
      filter-Holds (λ held. not (is_same session prompt held)) e n es (ground (arith, s)) h

  push-Holds :
      (n : ℕ) (es : List InflightEntry) (last : InflightEntry)
      → Holds e n es
      → Holds e (suc n) (es ++ last ∷ [])
  push-Holds n es last h = record {
    older = h.older;
    newer = h.newer ++ last ∷ [];
    parted = rw h.parted (append_assoc h.older (e ∷ h.newer) (last ∷ []));
    few = omega (arith, h.few, length-append h.newer (last ∷ []));
  }

  do_inflight-Holds :
      (c : InflightCall) (n : ℕ) (file : InflightFile)
      → IsOther e c
      → n + recordings (c ∷ []) < max_entries
      → Holds e n (file_entries file)
      → Holds e (n + recordings (c ∷ [])) (file_entries (do_inflight c file))
  unfolding do_inflight record_entry clear_entry
  do_inflight-Holds (recording other succeeds now) n file o l h =
      let listed = list-Holds now n file o.1 (omega (arith, l)) h in
      rw (add-one n) (
        write-Holds succeeds (suc n) _ file (omega (arith, l))
          (push-Holds n _ (record other { updated_at = now })
            (others_kept other.session_id other.prompt_request_id n _ o.0 listed))
          (more-Holds n (suc n) (file_entries file) (omega arith) h))
  do_inflight-Holds (clearing session prompt succeeds now) n file o l h =
      let listed = list-Holds now n file o.1 (omega (arith, l)) h in
      more-Holds n (n + 0) _ (omega arith) (
        write-Holds succeeds n _ file (omega (arith, l)) (others_kept session prompt n _ o.0 listed)
          h)

  pub do_all-Holds :
      (cs : List InflightCall) (n : ℕ) (file : InflightFile)
      → All (IsOther e) cs
      → n + recordings cs < max_entries
      → Holds e n (file_entries file)
      → Holds e (n + recordings cs) (file_entries (do_all cs file))
  do_all-Holds [] n file o l h = more-Holds n (n + 0) _ (omega arith) h
  do_all-Holds (c ∷ cs) n file o l h =
      more-Holds (n + recordings (c ∷ []) + recordings cs) (n + recordings (c ∷ cs)) _
        (omega (arith, recordings-cons c cs))
        (do_all-Holds cs (n + recordings (c ∷ [])) (do_inflight c file) o.1
          (omega (arith, recordings-cons c cs, l))
          (do_inflight-Holds c n file o.0 (omega (arith, recordings-cons c cs, l)) h))

-- A prompt that was recorded is on the list, with no more entries behind it than were recorded since,
-- whatever the file held, if the write succeeded, its ids and address are not empty, fewer than 50
-- prompts were recorded since, no call was for the same prompt, and no more than seven days went by;
-- writes may fail since.
pub stays_listed :
    (e : InflightEntry) (file : InflightFile) (cs : List InflightCall) (now : ℕ)
    → is_entry e ≡ true
    → All (IsOther e) cs
    → recordings cs < max_entries
    → now ≤ e.updated_at + max_age_ms
    → Holds e (recordings cs) (list_entries now (do_all cs (record_entry true e.updated_at e file)))
unfolding record_entry
stays_listed e file cs now valid o l t =
    let first = written-Holds e valid 0 _ file (omega arith) (record {
      older =
          filter (λ held. not (is_same e.session_id e.prompt_request_id held))
            (list_entries e.updated_at file);
      newer = [];
      parted = refl;
      few = omega arith;
    }) in
    list-Holds e valid now (recordings cs) (do_all cs (record_entry true e.updated_at e file)) t l (
      more-Holds e valid (0 + recordings cs) (recordings cs) _ (omega arith) (
        do_all-Holds e valid cs 0 (record_entry true e.updated_at e file) o (omega (arith, l))
          first))
