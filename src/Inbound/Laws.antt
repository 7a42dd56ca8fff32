-- ===== src/Inbound/Laws.antt =====
-- No text that comes in is lost, doubled or put out of order by src/inbound/turn-assembler.ts.
use mathlib.Core.List.{append-nil, append_assoc}
use lark_remote.Common.{
  String, Text, Bool, true, false, ◌&&◌, ◌||◌, List, [], ◌∷◌, ◌++◌, any, Option, none, some, ◌≡◌,
  refl, sym, ap, ◌∙◌, inl, inr, Bool-cases, Option-cases, List-cases, if◌then◌else◌,
}
use lark_remote.Inbound.Types.{
  PlaceholderKind, InboundContent, text, media, refused, InboundEvent, RejectedItem, Bucket,
  InboundCall, on_commit, on_receipt, on_failure, Assembly, CommitReason, MediaOutcome, stored,
  lost, is_downloadable_placeholder, is_forwarded,
}
use lark_remote.Inbound.Assembler.{
  no_outcomes, push_rejected, push_all_rejected, reject_placeholders, push_text, add_content,
  ingest, receipt, commit, try_commit, hold, commit_if, add_outcome, is_same_item, ensure_bucket,
  note_message,
}
use lark_remote.Inbound.Step.{text_of}

-- The texts of the turns that were given to the agent, in order.
abbrev pub committed_texts : List InboundCall → List Text
committed_texts [] = []
committed_texts (on_commit id turn ∷ cs) = turn.texts ++ committed_texts cs
committed_texts (on_receipt id saved rejected hint ∷ cs) = committed_texts cs
committed_texts (on_failure id ∷ cs) = committed_texts cs

abbrev pub held_texts : Option Bucket → List Text
held_texts none = []
held_texts (some b) = b.texts

abbrev pub total : Assembly → List Text
total s = committed_texts s.calls ++ held_texts s.bucket

committed_texts-append :
    (cs ds : List InboundCall)
    → committed_texts (cs ++ ds) ≡ committed_texts cs ++ committed_texts ds
committed_texts-append [] ds = refl
committed_texts-append (on_commit id turn ∷ cs) ds =
    ap (λ ts. turn.texts ++ ts) (committed_texts-append cs ds)
    ∙ sym (append_assoc turn.texts (committed_texts cs) (committed_texts ds))
committed_texts-append (on_receipt id saved rejected hint ∷ cs) ds = committed_texts-append cs ds
committed_texts-append (on_failure id ∷ cs) ds = committed_texts-append cs ds

receipt_texts :
    (id : String) (saved : List String) (rejected : List RejectedItem) (hint : Bool)
    → committed_texts (receipt id saved rejected hint) ≡ []
receipt_texts id [] [] hint = refl
receipt_texts id (p ∷ ps) rejected hint = refl
receipt_texts id [] (r ∷ rs) hint = refl

commit_texts : (b : Bucket) (reason : CommitReason) → committed_texts (commit b reason) ≡ b.texts
unfolding commit
commit_texts b reason = elim (List-cases b.texts) [
  | inl e ↦ rw (e, commit) (receipt_texts _ _ _ _)
  | inr (t, ts, e) ↦ rw (e, commit) (append-nil b.texts ∙ e)
]

try_commit-total : (reason : CommitReason) (s : Assembly) → total (try_commit reason s) ≡ total s
unfolding try_commit
try_commit-total reason s = elim (Option-cases s.bucket) [
  | inl e ↦ rw (e, try_commit) (ap (λ o. committed_texts s.calls ++ held_texts o) e)
  | inr (b, e) ↦ elim (Bool-cases (no_outcomes b)) [
    | inl p ↦
        rw (e, try_commit, p)
          (append-nil (committed_texts (s.calls ++ commit b reason))
            ∙ committed_texts-append s.calls (commit b reason)
            ∙ ap (λ ts. committed_texts s.calls ++ ts) (commit_texts b reason))
    | inr p ↦ rw (e, try_commit, p) (ap (λ o. committed_texts s.calls ++ held_texts o) e)
  ]
]

pub commit_if-total :
    (now : Bool) (reason : CommitReason) (s : Assembly) → total (commit_if now reason s) ≡ total s
commit_if-total true reason s = try_commit-total reason s
commit_if-total false reason s = refl

-- A bucket with the same texts.
hold-total :
    (b b' : Bucket) (s : Assembly)
    → s.bucket ≡ some b
    → b'.texts ≡ b.texts
    → total (hold b' s) ≡ total s
hold-total b b' s e h = ap (λ ts. committed_texts s.calls ++ ts) (h ∙ ap held_texts (sym e))

pub held_then :
    (b b' : Bucket) (s : Assembly) (now : Bool) (reason : CommitReason)
    → s.bucket ≡ some b
    → b'.texts ≡ b.texts
    → total (commit_if now reason (hold b' s)) ≡ total s
held_then b b' s now reason e h = commit_if-total now reason (hold b' s) ∙ hold-total b b' s e h

push_rejected-texts : (i : RejectedItem) (b : Bucket) → (push_rejected i b).texts ≡ b.texts
push_rejected-texts i b = elim (Bool-cases (any (is_same_item i) b.rejected)) [
  | inl e ↦ rw e refl
  | inr e ↦ rw e refl
]

push_all_rejected-texts :
    (is : List RejectedItem) (b : Bucket) → (push_all_rejected is b).texts ≡ b.texts
push_all_rejected-texts [] b = refl
push_all_rejected-texts (i ∷ is) b =
    push_all_rejected-texts is (push_rejected i b) ∙ push_rejected-texts i b

reject_placeholders-texts :
    (id : String) (has_text : Bool) (ks : List PlaceholderKind) (b : Bucket)
    → (reject_placeholders id has_text ks b).texts ≡ b.texts
unfolding reject_placeholders
reject_placeholders-texts id h [] b = refl
reject_placeholders-texts id h (k ∷ ks) b =
    reject_placeholders-texts id h ks _
    ∙ one (is_downloadable_placeholder k || is_forwarded k && h) _
  where
    one : (skip : Bool) (i : RejectedItem) → (if skip then b else push_rejected i b).texts ≡ b.texts
    one true i = refl
    one false i = push_rejected-texts i b

pub add_outcome-texts :
    (id : String) (o : MediaOutcome) (b : Bucket) → (add_outcome id o b).texts ≡ b.texts
unfolding add_outcome
add_outcome-texts id (stored attachments rejected) b = push_all_rejected-texts rejected _
add_outcome-texts id (lost message) b = push_rejected-texts _ b

add_content-texts :
    (id : String) (c : InboundContent) (b : Bucket)
    → (add_content id c b).texts ≡ b.texts ++ text_of c
unfolding add_content
add_content-texts id (text [] kinds) b =
    reject_placeholders-texts id _ kinds b ∙ sym (append-nil b.texts)
add_content-texts id (text (c ∷ cs) kinds) b =
    reject_placeholders-texts id _ kinds (push_text (c ∷ cs) b)
add_content-texts id (media n) b = sym (append-nil b.texts)
add_content-texts id (refused kind reason) b = push_rejected-texts _ b ∙ sym (append-nil b.texts)

ensure_texts : (s : Assembly) → (ensure_bucket s).texts ≡ held_texts s.bucket
ensure_texts s = elim (Option-cases s.bucket) [ inl e ↦ rw e refl | inr (b, e) ↦ rw e refl ]

pub ingest-total :
    (e : InboundEvent) (s : Assembly)
    → s.disposed ≡ false
    → total (ingest e s) ≡ total s ++ text_of e.content
unfolding ingest
ingest-total e s d = rw d (
    ap (λ ts. committed_texts s.calls ++ ts)
      (add_content-texts e.message_id e.content (note_message e (ensure_bucket s))
        ∙ ap (λ ts. ts ++ text_of e.content) (ensure_texts s))
    ∙ sym (append_assoc (committed_texts s.calls) (held_texts s.bucket) (text_of e.content)))
