-- ===== src/Approval/Batch.antt =====
-- The batch of answers that src/bridge/approval-coordinator.ts sends for a request with questions.
use mathlib.Core.Path.{subst}
use lark_remote.Common.{
  ℕ, zero, suc, ◌+◌, Bool, true, false, String, Text, text_eq, text_eq_iff, List, [], ◌∷◌, any,
  Option, none, some, or_else, ◌≡◌, refl, ap, ◌∙◌, arith, if◌then◌else◌, Bool-cases, inl, inr, sym,
}
use lark_remote.RunState.Types.{RequestId}
use lark_remote.Approval.Types.{
  UserQuestion, TrackedApproval, Answer, ApprovalAction, Coordinator, respond, is_pending,
}
use lark_remote.Approval.Questions.{
  get_at, proto_key, set_key, put_key, question_at, questions_of, answer_for, answers_from,
  notes_from,
}
use lark_remote.Approval.Coordinator.{is_stale}
use lark_remote.Approval.Answers.{respond_question_answers}

-- A field of the object that is sent.
abbrev pub get_key {ℓ} : {A : Type ℓ} → Text → List (Text × A) → Option A
get_key k [] = none
get_key k ((j, a) ∷ rest) = let further = get_key k rest in if text_eq j k then some a else further

-- Whether a question with the text is among them.
abbrev pub is_asked : Text → List UserQuestion → Bool
is_asked k qs = any (λ q. text_eq q.question k) qs

-- No two questions have the same text.
abbrev pub AskedApart : List UserQuestion → Type 0
AskedApart [] = Unit
AskedApart (q ∷ qs) = (is_asked q.question qs ≡ false) × AskedApart qs

get-set_key_self {ℓ} :
    {A : Type ℓ} (k : Text) (a : A) (m : List (Text × A)) → get_key k (set_key k a m) ≡ some a
get-set_key_self k a [] = ground (arith, text_eq_iff k k)
get-set_key_self k a ((j, b) ∷ m) = ground (arith, text_eq_iff j k, get-set_key_self k a m)

get-put_key_self {ℓ} :
    {A : Type ℓ} (k : Text) (a : A) (m : List (Text × A))
    → text_eq k proto_key ≡ false
    → get_key k (put_key k a m) ≡ some a
get-put_key_self k a m p = rw p (get-set_key_self k a m)

get-set_key_ne {ℓ} :
    {A : Type ℓ} (k j : Text) (a : A) (m : List (Text × A))
    → text_eq j k ≡ false
    → get_key k (set_key j a m) ≡ get_key k m
get-set_key_ne k j a [] h = ground arith
get-set_key_ne k j a ((i, b) ∷ m) h =
    ground (arith, text_eq_iff i j, text_eq_iff j k, text_eq_iff i k, get-set_key_ne k j a m h)

get-put_key_ne {ℓ} :
    {A : Type ℓ} (k j : Text) (a : A) (m : List (Text × A))
    → text_eq j k ≡ false
    → get_key k (put_key j a m) ≡ get_key k m
get-put_key_ne k j a m h = elim (Bool-cases (text_eq j proto_key)) [
  | inl p ↦ rw p refl
  | inr p ↦ rw p (get-set_key_ne k j a m h)
]

-- A text that is not among the questions keeps its field.
get-answers_from_ne :
    (t : TrackedApproval) (i : ℕ) (qs : List UserQuestion) (m : List (Text × Answer)) (k : Text)
    → is_asked k qs ≡ false
    → get_key k (answers_from t i qs m) ≡ get_key k m
get-answers_from_ne t i [] m k h = refl
get-answers_from_ne t i (q ∷ qs) m k h =
    get-answers_from_ne t (suc i) qs _ k (ground arith)
    ∙ get-put_key_ne k q.question _ m (ground arith)

get-answers_from :
    (t : TrackedApproval) (i j : ℕ) (q : UserQuestion) (qs : List UserQuestion)
    (m : List (Text × Answer))
    → AskedApart qs
    → question_at j qs ≡ some q
    → text_eq q.question proto_key ≡ false
    → get_key q.question (answers_from t i qs m)
      ≡ some (answer_for q (or_else (get_at (i + j) t.answers) []))
get-answers_from t i j q [] m d h u = absurd (ground arith)
get-answers_from t i zero q (p ∷ qs) m d h u =
    let e = ap (λ o. or_else o p) h in
    subst
      (λ x.
        get_key x.question (answers_from t i (p ∷ qs) m)
        ≡ some (answer_for x (or_else (get_at (i + 0) t.answers) [])))
      e
      (subst
        (λ n.
          get_key p.question (answers_from t i (p ∷ qs) m)
          ≡ some (answer_for p (or_else (get_at n t.answers) [])))
        (omega arith)
        (get-answers_from_ne t (suc i) qs _ p.question d.0
          ∙ get-put_key_self p.question _ m
              (subst (λ x. text_eq x.question proto_key ≡ false) (sym e) u)))
get-answers_from t i (suc j) q (p ∷ qs) m d h u =
    subst
      (λ n.
        get_key q.question (answers_from t i (p ∷ qs) m)
        ≡ some (answer_for q (or_else (get_at n t.answers) [])))
      (omega arith) (get-answers_from t (suc i) j q qs _ d.1 h u)

-- When the answers of a pending request are sent under a fresh nonce, one call of the responder is
-- made, and if no two questions have the same text, its answer to each question whose text is not
-- `__proto__` is the one that was recorded for it.
pub batch_complete :
    (t : TrackedApproval) (id : RequestId) (n : Option String) (c : Coordinator) (j : ℕ)
    (q : UserQuestion)
    → is_pending t.state ≡ true
    → is_stale id n c ≡ false
    → AskedApart (questions_of t.view)
    → question_at j (questions_of t.view) ≡ some q
    → text_eq q.question proto_key ≡ false
    → (answers : List (Text × Answer)) × (notes : List (Text × Text)) × ((respond_question_answers t
          id n c).calls
        ≡ respond id (ApprovalAction.answer answers notes) ∷ [])
      × (get_key q.question answers ≡ some (answer_for q (or_else (get_at j t.answers) [])))
unfolding respond_question_answers
batch_complete t id n c j q p f d h u =
    let qs = questions_of t.view in
    (
      answers_from t 0 qs [],
      notes_from t 0 qs [],
      rw (f, p) refl,
      subst
          (λ k.
            get_key q.question (answers_from t 0 qs [])
            ≡ some (answer_for q (or_else (get_at k t.answers) [])))
          (omega arith) (get-answers_from t 0 j q qs [] d h u),
    )
