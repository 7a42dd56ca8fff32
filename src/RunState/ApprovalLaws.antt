-- ===== src/RunState/ApprovalLaws.antt =====
-- The approvals of a card stay one per request.
use lark_remote.Common.{
  Bool, true, false, List, [], ◌∷◌, ◌++◌, map, filter, any, ◌≡◌, refl, sym, ap, ◌∙◌, arith, eq_iff,
  ==_iff, Bool-cases, inl, inr, ◌||◌,
}
use lark_remote.RunState.Types.{RequestId, ApprovalView, Approval}
use lark_remote.RunState.Approvals.{same_request, is_request, replace_request, request_approval}

-- The approval requests that a card shows, each once.
abbrev pub OnePerRequest : List Approval → Type 0
OnePerRequest [] = Unit
OnePerRequest (a ∷ others) =
    (any (is_request a.view.request_id) others ≡ false) × OnePerRequest others

pub same_request_refl : (a : RequestId) → same_request a a ≡ true
same_request_refl (RequestId.num a) = ground arith
same_request_refl (RequestId.str a) = (eq_iff a a).1 refl

pub same_request-eq : (a b : RequestId) → same_request a b ≡ true → a ≡ b
same_request-eq (RequestId.num a) (RequestId.num b) h = ap RequestId.num ((==_iff a b).0 h)
same_request-eq (RequestId.str a) (RequestId.str b) h = ap RequestId.str ((eq_iff a b).0 h)
same_request-eq (RequestId.num a) (RequestId.str b) h = ground arith
same_request-eq (RequestId.str a) (RequestId.num b) h = ground arith

any-filter :
    (p q : Approval → Bool) (xs : List Approval) → any p xs ≡ false → any p (filter q xs) ≡ false
any-filter p q [] h = refl
any-filter p q (a ∷ others) h = ground (arith, any-filter p q others)

pub filter-OnePerRequest :
    (q : Approval → Bool) (xs : List Approval) → OnePerRequest xs → OnePerRequest (filter q xs)
filter-OnePerRequest q [] h = tt
filter-OnePerRequest q (a ∷ others) h = ground (
  arith,
  filter-OnePerRequest q others h.1,
  any-filter (is_request a.view.request_id) q others h.0,
)

-- A change that keeps every request id keeps them apart.
any-map :
    (id : RequestId) (f : Approval → Approval) (xs : List Approval)
    → ((a : Approval) → (f a).view.request_id ≡ a.view.request_id)
    → any (is_request id) (map f xs) ≡ any (is_request id) xs
any-map id f [] h = refl
any-map id f (a ∷ others) h = rw (h a, any-map id f others h) refl

pub map-OnePerRequest :
    (f : Approval → Approval) (xs : List Approval)
    → ((a : Approval) → (f a).view.request_id ≡ a.view.request_id)
    → OnePerRequest xs
    → OnePerRequest (map f xs)
map-OnePerRequest f [] h k = tt
map-OnePerRequest f (a ∷ others) h k =
    (rw (h a, any-map a.view.request_id f others h) (k.0), map-OnePerRequest f others h k.1)

pub same_request_comm : (a b : RequestId) → same_request a b ≡ false → same_request b a ≡ false
same_request_comm a b h = elim (Bool-cases (same_request b a)) [
  | inr e ↦ e
  | inl e ↦
      absurd_true
        (sym (same_request_refl b) ∙ ap (λ x. same_request x b) (same_request-eq b a e) ∙ h)
]
  where
    absurd_true : true ≡ false → same_request b a ≡ false
    absurd_true k = ground arith

any-replace :
    (r id : RequestId) (new : Approval) (xs : List Approval)
    → new.view.request_id ≡ id
    → any (is_request r) (replace_request id new xs) ≡ any (is_request r) xs
any-replace r id new [] h = refl
any-replace r id new (a ∷ others) h = elim (Bool-cases (is_request id a)) [
  | inl e ↦ rw (e, replace_request, h, same_request-eq a.view.request_id id e) refl
  | inr e ↦ rw (e, replace_request, any-replace r id new others h) refl
]

replace-OnePerRequest :
    (id : RequestId) (new : Approval) (xs : List Approval)
    → new.view.request_id ≡ id
    → OnePerRequest xs
    → OnePerRequest (replace_request id new xs)
replace-OnePerRequest id new [] h k = tt
replace-OnePerRequest id new (a ∷ others) h k = elim (Bool-cases (is_request id a)) [
  | inl e ↦ rw (e, replace_request, h, sym (same_request-eq a.view.request_id id e)) k
  | inr e ↦
      rw (e, replace_request)
        (
          any-replace a.view.request_id id new others h ∙ k.0,
          replace-OnePerRequest id new others h k.1,
        )
]

any-append :
    (p : Approval → Bool) (xs ys : List Approval) → any p (xs ++ ys) ≡ (any p xs || any p ys)
any-append p [] ys = refl
any-append p (a ∷ others) ys = ground (arith, any-append p others ys)

append-OnePerRequest :
    (id : RequestId) (new : Approval) (xs : List Approval)
    → new.view.request_id ≡ id
    → any (is_request id) xs ≡ false
    → OnePerRequest xs
    → OnePerRequest (xs ++ new ∷ [])
append-OnePerRequest id new [] h i k = (refl, tt)
append-OnePerRequest id new (a ∷ others) h i k = (
  rw (any-append (is_request a.view.request_id) others (new ∷ []), h)
      (ground (arith, same_request_comm a.view.request_id id)),
  append-OnePerRequest id new others h (ground arith) k.1,
)

pub request-OnePerRequest :
    (id : RequestId) (view : ApprovalView) (xs : List Approval)
    → view.request_id ≡ id
    → OnePerRequest xs
    → OnePerRequest (request_approval id view xs)
unfolding request_approval
request-OnePerRequest id view xs h k = elim (Bool-cases (any (is_request id) xs)) [
  | inl e ↦
      rw (e, request_approval)
        (replace-OnePerRequest id (record { view = view; expired = false }) xs h k)
  | inr e ↦
      rw (e, request_approval)
        (append-OnePerRequest id (record { view = view; expired = false }) xs h e k)
]
