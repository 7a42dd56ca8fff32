-- ===== src/Approval/LifeLaws.antt =====
-- The life of a request after a change of the tracked approvals.
use mathlib.Core.Path.{fun_ext}
use mathlib.Core.Option.{map as map_option}
use lark_remote.Common.{
  Bool, true, false, List, [], ◌∷◌, ◌++◌, map, Option, none, some, ◌≡◌, refl, sym, ap, ◌∙◌, arith,
  inl, inr, Bool-cases, if◌then◌else◌,
}
use lark_remote.RunState.Types.{RequestId}
use lark_remote.RunState.Approvals.{same_request}
use lark_remote.RunState.ApprovalLaws.{same_request-eq, same_request_comm}
use lark_remote.Approval.Types.{TrackedApproval, Coordinator, get_tracked, update_tracked, change}
use lark_remote.Approval.Lives.{Life, life_of, lives, alter}

abbrev pub KeepsId : (TrackedApproval → TrackedApproval) → Type 0
KeepsId f = (t : TrackedApproval) → (f t).request_id ≡ t.request_id

if_same {ℓ} : {A : Type ℓ} (b : Bool) (x : A) → (if b then x else x) ≡ x
if_same b x = ground arith

apart :
    (a id r : RequestId)
    → same_request a id ≡ false
    → same_request a r ≡ true
    → same_request id r ≡ false
apart a id r e h = ap (same_request id) (sym (same_request-eq a r h)) ∙ same_request_comm a id e

-- The first of a list is changed and looked up, by equal tests.
pick_first {ℓ} :
    {A : Type ℓ} (f : A → A) (t : A) (o : Option A) (b before after : Bool)
    → before ≡ b
    → after ≡ b
    → (if after then some (f t) else o)
      ≡ (if b then map_option f (if before then some t else o) else if before then some t else o)
pick_first f t o true before after h k = rw (h, k) refl
pick_first f t o false before after h k = rw (h, k) refl

map_first {ℓ κ} :
    {A : Type ℓ} {B : Type κ} (f : A → B) (t : A) (o : Option A) (before after : Bool)
    → after ≡ before
    → (if after then some (f t) else map_option f o) ≡ map_option f (if before then some t else o)
map_first f t o true after h = rw h refl
map_first f t o false after h = rw h refl

seen_as : (r a b : RequestId) → a ≡ b → same_request a r ≡ same_request b r
seen_as r a b h = ap (λ x. same_request x r) h

-- A change is seen at its request and at no other.
pub get-update :
    (r id : RequestId) (f : TrackedApproval → TrackedApproval) (ts : List TrackedApproval)
    → KeepsId f
    → get_tracked r (update_tracked id f ts)
      ≡ (if same_request id r then map_option f (get_tracked r ts) else get_tracked r ts)
get-update r id f [] k = sym (if_same (same_request id r) none)
get-update r id f (t ∷ ts) k = elim (Bool-cases (same_request t.request_id id)) [
  | inl e ↦
      let same = same_request-eq t.request_id id e in
      simp e (
        pick_first f t (get_tracked r ts) (same_request id r) (same_request t.request_id r)
          (same_request (f t).request_id r) (seen_as r t.request_id id same)
          (seen_as r (f t).request_id id (k t ∙ same)))
  | inr e ↦ elim (Bool-cases (same_request t.request_id r)) [
    | inl h ↦ rw (e, h, apart t.request_id id r e h) refl
    | inr h ↦ rw (e, h) (get-update r id f ts k)
  ]
]

map_life :
    (f : TrackedApproval → TrackedApproval) (g : Life → Life) (b : Bool)
    (o : Option TrackedApproval)
    → ((t : TrackedApproval) → life_of (f t) ≡ g (life_of t))
    → map_option life_of (if b then map_option f o else o)
      ≡ (if b then map_option g (map_option life_of o) else map_option life_of o)
map_life f g true none l = refl
map_life f g true (some t) l = ap some (l t)
map_life f g false o l = refl

map_quiet :
    (f : TrackedApproval → TrackedApproval) (b : Bool) (o : Option TrackedApproval)
    → ((t : TrackedApproval) → life_of (f t) ≡ life_of t)
    → map_option life_of (if b then map_option f o else o) ≡ map_option life_of o
map_quiet f true none l = refl
map_quiet f true (some t) l = ap some (l t)
map_quiet f false o l = refl

-- What a change does to the lives, when it does `g` to the life of a request.
pub lives-change :
    (id : RequestId) (f : TrackedApproval → TrackedApproval) (g : Life → Life) (c : Coordinator)
    → KeepsId f
    → ((t : TrackedApproval) → life_of (f t) ≡ g (life_of t))
    → lives (change id f c) ≡ alter id g (lives c)
lives-change id f g c k l = fun_ext λ r.
    ap (map_option life_of) (get-update r id f c.approvals k)
    ∙ map_life f g (same_request id r) (get_tracked r c.approvals) l

-- A change that leaves states and deadlines leaves all lives.
pub lives-quiet :
    (id : RequestId) (f : TrackedApproval → TrackedApproval) (c : Coordinator)
    → KeepsId f
    → ((t : TrackedApproval) → life_of (f t) ≡ life_of t)
    → lives (change id f c) ≡ lives c
lives-quiet id f c k l = fun_ext λ r.
    ap (map_option life_of) (get-update r id f c.approvals k)
    ∙ map_quiet f (same_request id r) (get_tracked r c.approvals) l

-- What a change does, when it gives the one request that has it the life `l`.
pub lives-change_at :
    (id : RequestId) (f : TrackedApproval → TrackedApproval) (l : Life) (c : Coordinator)
    → KeepsId f
    → ((t : TrackedApproval) → get_tracked id c.approvals ≡ some t → life_of (f t) ≡ l)
    → lives (change id f c) ≡ alter id (λ _. l) (lives c)
lives-change_at id f l c k h = fun_ext λ r.
    ap (map_option life_of) (get-update r id f c.approvals k)
    ∙ at (same_request id r) (get_tracked r c.approvals)
        (λ e. ap (λ x. get_tracked x c.approvals) (same_request-eq id r e))
  where
    at :
        (b : Bool) (o : Option TrackedApproval)
        → (b ≡ true → get_tracked id c.approvals ≡ o)
        → map_option life_of (if b then map_option f o else o)
          ≡ (if b then map_option (λ _. l) (map_option life_of o) else map_option life_of o)
    at true none g = refl
    at true (some t) g = ap some (h t (g refl))
    at false o g = refl

pub get-map :
    (r : RequestId) (f : TrackedApproval → TrackedApproval) (ts : List TrackedApproval)
    → KeepsId f
    → get_tracked r (map f ts) ≡ map_option f (get_tracked r ts)
get-map r f [] k = refl
get-map r f (t ∷ ts) k = simp (get-map r f ts k) (
    map_first f t (get_tracked r ts) (same_request t.request_id r) (same_request (f t).request_id r)
      (seen_as r (f t).request_id t.request_id (k t)))

none_of_if {ℓ} :
    {A : Type ℓ} (b : Bool) (u : A) (o : Option A)
    → (if b then some u else o) ≡ none
    → (b ≡ false) × (o ≡ none)
none_of_if true u o h = ground arith
none_of_if false u o h = (refl, h)

swap_if {ℓ} :
    {A : Type ℓ} (u t : A) (o : Option A) (b b' : Bool)
    → (b ≡ true → b' ≡ false)
    → (if b then some u else if b' then some t else o)
      ≡ (if b' then some t else if b then some u else o)
swap_if u t o true b' h = rw (h refl) refl
swap_if u t o false b' h = refl

-- A new request goes to the end.
pub get-append :
    (r : RequestId) (t : TrackedApproval) (ts : List TrackedApproval)
    → get_tracked t.request_id ts ≡ none
    → get_tracked r (ts ++ t ∷ [])
      ≡ (if same_request t.request_id r then some t else get_tracked r ts)
get-append r t [] h = refl
get-append r t (u ∷ ts) h =
    let split =
      none_of_if (same_request u.request_id t.request_id) u (get_tracked t.request_id ts) h in
    simp (get-append r t ts split.1) (
      swap_if u t (get_tracked r ts) (same_request u.request_id r) (same_request t.request_id r)
        (apart u.request_id t.request_id r split.0))
