-- ===== src/Approval/Questions.antt =====
-- The questions of a request in src/bridge/approval-coordinator.ts: recorded answers, their shape
-- when they are sent, and the view that shows them.
use lark_remote.Common.{
  ℕ, zero, suc, ◌==◌, Text, text_eq, Bool, true, false, ◌&&◌, not, List, [], ◌∷◌, ◌++◌, filter, any,
  lit, Option, none, some, or_else, if◌then◌else◌,
}
use lark_remote.Approval.Types.{
  ApprovalKind, UserQuestion, RequestView, TrackedApproval, Answer, one_of, many_of,
}

-- `Map.get` and `Map.set` on question indices.
abbrev pub get_at {ℓ} : {A : Type ℓ} → ℕ → List (ℕ × A) → Option A
get_at i [] = none
get_at i ((j, a) ∷ rest) = let further = get_at i rest in if j == i then some a else further

abbrev pub put_at {ℓ} : {A : Type ℓ} → ℕ → A → List (ℕ × A) → List (ℕ × A)
put_at i a [] = (i, a) ∷ []
put_at i a ((j, b) ∷ rest) =
    let further = (j, b) ∷ put_at i a rest in if j == i then (j, a) ∷ rest else further

-- The field is replaced, or added.
abbrev pub set_key {ℓ} : {A : Type ℓ} → Text → A → List (Text × A) → List (Text × A)
set_key k a [] = (k, a) ∷ []
set_key k a ((j, b) ∷ rest) =
    let further = (j, b) ∷ set_key k a rest in if text_eq j k then (j, a) ∷ rest else further

-- `__proto__`.
abbrev pub proto_key : Text
proto_key = lit "__proto__"

-- `record[key] = value` on an object literal, by its own fields: of every text it makes one, but for
-- `__proto__`, which sets the prototype, if the value is an object, and makes no field.
abbrev pub put_key {ℓ} : {A : Type ℓ} → Text → A → List (Text × A) → List (Text × A)
put_key k a m = if text_eq k proto_key then m else set_key k a m

abbrev pub question_at : ℕ → List UserQuestion → Option UserQuestion
question_at i [] = none
question_at zero (q ∷ qs) = some q
question_at (suc i) (q ∷ qs) = question_at i qs

abbrev pub change_question :
    ℕ → (UserQuestion → UserQuestion) → List UserQuestion → List UserQuestion
change_question i f [] = []
change_question zero f (q ∷ qs) = f q ∷ qs
change_question (suc i) f (q ∷ qs) = q ∷ change_question i f qs

abbrev pub questions_of : RequestView → List UserQuestion
questions_of v = or_else v.questions []

abbrev pub change_view_question : ℕ → (UserQuestion → UserQuestion) → RequestView → RequestView
change_view_question i f v = record v {
  questions = elim v.questions [ none ↦ none | some qs ↦ some (change_question i f qs) ];
}

abbrev pub has_answer : TrackedApproval → ℕ → Bool
has_answer t i = elim (or_else (get_at i t.answers) []) as (λ _. Bool) [
  | [] ↦ false
  | a ∷ rest ↦ true
]

-- Whether the questions from the index on are all answered.
abbrev pub answered_from : TrackedApproval → ℕ → List UserQuestion → Bool
answered_from t i [] = true
answered_from t i (q ∷ qs) = has_answer t i && answered_from t (suc i) qs

unfoldable pub all_questions_answered : TrackedApproval → Bool
all_questions_answered t = elim (questions_of t.view) as (λ _. Bool) [
  | [] ↦ false
  | q ∷ qs ↦ answered_from t 0 (q ∷ qs)
]

unfoldable pub record_answer : ℕ → List Text → TrackedApproval → TrackedApproval
record_answer i values t = record t { answers = put_at i values t.answers }

abbrev pub first_answer : List Text → Option Text
first_answer [] = none
first_answer (a ∷ rest) = some a

abbrev pub answer_for : UserQuestion → List Text → Answer
answer_for q selected = if q.multi_select then many_of selected else one_of (first_answer selected)

-- The loop that builds `answers`, an object by question text.
abbrev pub answers_from :
    TrackedApproval → ℕ → List UserQuestion → List (Text × Answer) → List (Text × Answer)
answers_from t i [] out = out
answers_from t i (q ∷ qs) out =
    answers_from t (suc i) qs
      (put_key q.question (answer_for q (or_else (get_at i t.answers) [])) out)

-- A remark that is missing or empty is left out.
abbrev pub put_note : Text → Option Text → List (Text × Text) → List (Text × Text)
put_note q none out = out
put_note q (some []) out = out
put_note q (some (c ∷ cs)) out = put_key q (c ∷ cs) out

abbrev pub notes_from :
    TrackedApproval → ℕ → List UserQuestion → List (Text × Text) → List (Text × Text)
notes_from t i [] out = out
notes_from t i (q ∷ qs) out = notes_from t (suc i) qs (put_note q.question (get_at i t.notes) out)

abbrev pub reapply_one : TrackedApproval → ℕ → UserQuestion → UserQuestion
reapply_one t i q = record q {
  selected = elim (get_at i t.answers) [ none ↦ q.selected | some a ↦ some a ];
  note = elim (get_at i t.notes) [ none ↦ q.note | some n ↦ some n ];
}

abbrev pub reapply_from : TrackedApproval → ℕ → List UserQuestion → List UserQuestion
reapply_from t i [] = []
reapply_from t i (q ∷ qs) = reapply_one t i q ∷ reapply_from t (suc i) qs

abbrev pub asks : ApprovalKind → Bool
asks ApprovalKind.question = true
asks _ = false

-- A view without questions stays as it is.
unfoldable pub reapply_recorded_answers : TrackedApproval → RequestView → RequestView
reapply_recorded_answers t v =
    if asks v.kind && asks t.kind
    then elim v.questions [
      | none ↦ v
      | some qs ↦ record v { questions = some (reapply_from t 0 qs) }
    ]
    else v

-- The labels of a `Set`: each once, where it stood first.
abbrev pub as_set : List Text → List Text
as_set [] = []
as_set (l ∷ ls) = l ∷ filter (λ x. not (text_eq x l)) (as_set ls)

-- A label is taken out of the `Set`, or put in at the end.
abbrev pub toggle_label : Text → List Text → List Text
toggle_label l labels =
    let chosen = as_set labels in
    if any (λ x. text_eq x l) chosen
    then filter (λ x. not (text_eq x l)) chosen
    else chosen ++ l ∷ []
