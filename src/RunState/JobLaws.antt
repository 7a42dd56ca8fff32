-- ===== src/RunState/JobLaws.antt =====
-- The background jobs of a card against the roster of the host.
use lark_remote.Common.{
  if◌then◌else◌, All-filter, String, Bool, true, false, List, [], ◌∷◌, ◌++◌, map, filter, any,
  Option, none, some, ◌≡◌, refl, arith, str_eq, eq_iff, Bool-cases, Option-cases, inl, inr, ◌||◌,
  All,
}
use lark_remote.RunState.Types.{Job}
use lark_remote.RunState.Jobs.{
  collect_new_jobs, sync_jobs, is_running_word, is_live_background_job, has_ended, sync_tracked_job,
  by_id, is_tracked,
}

-- A roster names each job once.
abbrev pub IsRoster : List Job → Type 0
IsRoster [] = Unit
IsRoster (row ∷ rows) = (is_tracked rows row.id ≡ false) × IsRoster rows

-- A second sync with the same roster changes no tracked job.
sync_tracked_twice :
    (job : Job) (row : Option Job)
    → sync_tracked_job (sync_tracked_job job row) row ≡ sync_tracked_job job row
unfolding sync_tracked_job
sync_tracked_twice job none = refl
sync_tracked_twice job (some row) = ground arith

sync_tracked-id : (job : Job) (row : Option Job) → (sync_tracked_job job row).id ≡ job.id
unfolding sync_tracked_job
sync_tracked-id job none = refl
sync_tracked-id job (some row) = ground arith

running_word-ended : (w : String) → is_running_word w ≡ true → str_eq w "ended" ≡ false
running_word-ended w h = elim (Bool-cases (str_eq w "running")) [
  | inl hit ↦ rw ((eq_iff w "running").0 hit) refl
  | inr miss ↦ elim (Bool-cases (str_eq w "stopping")) [
    | inl hit ↦ rw ((eq_iff w "stopping").0 hit) refl
    | inr other ↦ ground arith
  ]
]

pub live-has_ended : (row : Job) → is_live_background_job row ≡ true → has_ended row ≡ false
unfolding is_live_background_job
live-has_ended row live = elim (Option-cases row.status) [
  | inl e ↦ rw e refl
  | inr (w, e) ↦ rw e (running_word-ended w (rw e at live))
]

-- A live row that was just added is as the roster has it.
sync_tracked_same :
    (row : Job) → is_live_background_job row ≡ true → sync_tracked_job row (some row) ≡ row
unfolding sync_tracked_job is_live_background_job
sync_tracked_same row live = ground (arith, live-has_ended row live)

module _ {ℓ κ} {A : Type ℓ} {P Q : A → Type κ} where
  All-imp : ((x : A) → P x → Q x) → (xs : List A) → All P xs → All Q xs
  All-imp f [] h = tt
  All-imp f (x ∷ xs) h = (f x h.0, All-imp f xs h.1)

module _ {ℓ} {A : Type ℓ} where
  map-same : (f : A → A) (xs : List A) → All (λ x. f x ≡ x) xs → map f xs ≡ xs
  map-same f [] h = refl
  map-same f (x ∷ xs) h = rw (h.0, map-same f xs h.1) refl

  map_append : (f : A → A) (xs ys : List A) → map f (xs ++ ys) ≡ map f xs ++ map f ys
  map_append f [] ys = refl
  map_append f (x ∷ xs) ys = rw (map_append f xs ys) refl

  filter-none : (p : A → Bool) (xs : List A) → All (λ x. p x ≡ false) xs → filter p xs ≡ []
  filter-none p [] h = refl
  filter-none p (x ∷ xs) h = rw (h.0, filter) (filter-none p xs h.1)

  append-nil : (xs : List A) → xs ++ [] ≡ xs
  append-nil [] = refl
  append-nil (x ∷ xs) = rw (append-nil xs) refl

  All-pass : (p : A → Bool) (xs : List A) → All (λ x. p x ≡ true) (filter p xs)
  All-pass p [] = tt
  All-pass p (x ∷ xs) = elim (Bool-cases (p x)) [
    | inl h ↦ rw (h, filter) (h, All-pass p xs)
    | inr h ↦ rw (h, filter) (All-pass p xs)
  ]

  any-append : (p : A → Bool) (xs ys : List A) → any p (xs ++ ys) ≡ (any p xs || any p ys)
  any-append p [] ys = refl
  any-append p (x ∷ xs) ys = ground (arith, any-append p xs ys)

str_eq_refl : (a : String) → str_eq a a ≡ true
str_eq_refl a = (eq_iff a a).1 refl

-- The rows that pass are tracked by the rows that pass.
is_tracked-filter :
    (p : Job → Bool) (rows : List Job)
    → All (λ row. p row ≡ true → is_tracked (filter p rows) row.id ≡ true) rows
is_tracked-filter p [] = tt
is_tracked-filter p (row ∷ rows) = (
  λ h. rw (h, filter, str_eq_refl row.id) refl,
  All-imp
      (λ x k h. elim (Bool-cases (p row)) [
        | inl pass ↦ rw (pass, filter) (ground arith)
        | inr fail ↦ rw (fail, filter) (k h)
      ])
      rows (is_tracked-filter p rows),
)

sync_tracked-is_tracked :
    (tracked roster : List Job) (id : String)
    → is_tracked (map (λ job. sync_tracked_job job (by_id job.id roster)) tracked) id
      ≡ is_tracked tracked id
sync_tracked-is_tracked [] roster id = refl
sync_tracked-is_tracked (job ∷ jobs) roster id =
    rw (sync_tracked-id job (by_id job.id roster), sync_tracked-is_tracked jobs roster id) refl

by_id-none : (rows : List Job) (id : String) → is_tracked rows id ≡ false → by_id id rows ≡ none
by_id-none [] id h = refl
by_id-none (row ∷ rows) id h = ground (arith, by_id-none rows id)

-- In a roster every row is the one that its id finds.
by_id-found : (rows : List Job) → IsRoster rows → All (λ row. by_id row.id rows ≡ some row) rows
by_id-found [] h = tt
by_id-found (row ∷ rows) h = (
  rw (by_id-none rows row.id h.0, str_eq_refl row.id) refl,
  All-imp (λ x k. rw k refl) rows (by_id-found rows h.1),
)

module _ (tracked roster : List Job) where
  abbrev synced : List Job
  synced = map (λ job. sync_tracked_job job (by_id job.id roster)) tracked

  synced-same :
      (jobs : List Job)
      → map
          (λ job. sync_tracked_job job (by_id job.id roster))
          (map (λ job. sync_tracked_job job (by_id job.id roster)) jobs)
        ≡ map (λ job. sync_tracked_job job (by_id job.id roster)) jobs
  unfolding sync_tracked_job
  synced-same [] = refl
  synced-same (job ∷ jobs) =
      rw
        (
          sync_tracked-id job (by_id job.id roster),
          sync_tracked_twice job (by_id job.id roster),
          synced-same jobs,
        )
        refl

  abbrev is_new : Job → Bool
  is_new row = if is_tracked tracked row.id then false else is_live_background_job row

  collect_new_jobs-filter : collect_new_jobs tracked roster ≡ filter is_new roster
  unfolding collect_new_jobs
  collect_new_jobs-filter = refl

  is_new-live : (row : Job) → is_new row ≡ true → is_live_background_job row ≡ true
  is_new-live row h = ground arith

  new-same :
      IsRoster roster
      → map (λ job. sync_tracked_job job (by_id job.id roster)) (filter is_new roster)
        ≡ filter is_new roster
  new-same h =
      map-same (λ job. sync_tracked_job job (by_id job.id roster)) (filter is_new roster)
        (both (filter is_new roster) (All-pass is_new roster)
          (All-filter (λ row. by_id row.id roster ≡ some row) is_new roster (by_id-found roster h)))
    where
      both :
          (rows : List Job)
          → All (λ row. is_new row ≡ true) rows
          → All (λ row. by_id row.id roster ≡ some row) rows
          → All (λ row. sync_tracked_job row (by_id row.id roster) ≡ row) rows
      both [] a b = tt
      both (row ∷ rows) a b =
          (rw b.0 (sync_tracked_same row (is_new-live row a.0)), both rows a.1 b.1)

  -- What is live in the roster is tracked after a sync.
  nothing-new : collect_new_jobs (synced ++ filter is_new roster) roster ≡ []
  unfolding collect_new_jobs
  nothing-new = filter-none _ roster (
      All-imp
        (λ row k. elim (Bool-cases (is_new row)) [
          | inl new ↦
              rw (any-append (λ job. str_eq job.id row.id) synced (filter is_new roster), k new)
                (ground arith)
          | inr old ↦
              rw
                (
                  any-append (λ job. str_eq job.id row.id) synced (filter is_new roster),
                  sync_tracked-is_tracked tracked roster row.id,
                )
                (ground arith)
        ])
        roster (is_tracked-filter is_new roster))

  -- A second sync with the same roster changes nothing, so that the card is not patched again.
  pub sync_jobs_twice :
      IsRoster roster → sync_jobs (sync_jobs tracked roster) roster ≡ sync_jobs tracked roster
  unfolding sync_jobs
  sync_jobs_twice h =
      rw
        (
          nothing-new,
          map_append (λ job. sync_tracked_job job (by_id job.id roster)) synced
              (filter is_new roster),
          synced-same tracked,
          new-same h,
        )
        (append-nil _)
