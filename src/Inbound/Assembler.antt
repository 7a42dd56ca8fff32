-- ===== src/Inbound/Assembler.antt =====
-- The operations of src/inbound/turn-assembler.ts. The end of a download is a step of its own, and
-- `flush` is two: up to its first `await`, and behind it.
use lark_remote.Common.{
  ℕ, ◌+◌, String, str_eq, Text, text_eq, lit, Bool, true, false, ◌&&◌, ◌||◌, not, List, [], ◌∷◌,
  ◌++◌, map, filter, any, last?, Option, none, some, or_else, ◌==◌, if◌then◌else◌,
}
use lark_remote.Inbound.Types.{
  Assembly, Bucket, CommitReason, InboundAttachment, InboundCall, InboundContent, InboundEvent,
  InboundTurn, MediaOutcome, PlaceholderKind, RejectedItem, idle, is_downloadable_placeholder,
  is_forwarded, lost, media, named, on_commit, on_failure, on_receipt, placeholder, refused, stored,
  text, unsupported_reason,
}

abbrev pub new_bucket : ℕ → Bucket
new_bucket n = record {
  number = n;
  texts = [];
  attachments = [];
  rejected = [];
  message_ids = [];
  reply_to_message_id = none;
  pending_outcomes = [];
  window_elapsed = false;
  forced_reason = none;
  timer = false;
}

abbrev pub no_outcomes : Bucket → Bool
no_outcomes b = elim b.pending_outcomes as (λ _. Bool) [ [] ↦ true | n ∷ ns ↦ false ]

abbrev pub is_same_item : RejectedItem → RejectedItem → Bool
is_same_item i r = str_eq r.source_msg_id i.source_msg_id && text_eq r.reason i.reason

abbrev pub push_rejected : RejectedItem → Bucket → Bucket
push_rejected i b =
    if any (is_same_item i) b.rejected then b else record b { rejected = b.rejected ++ i ∷ [] }

abbrev pub push_all_rejected : List RejectedItem → Bucket → Bucket
push_all_rejected [] b = b
push_all_rejected (i ∷ is) b = push_all_rejected is (push_rejected i b)

-- The loop over the placeholders of a text.
unfoldable pub reject_placeholders : String → Bool → List PlaceholderKind → Bucket → Bucket
unfolding is_downloadable_placeholder unsupported_reason
reject_placeholders id has_text [] b = b
reject_placeholders id has_text (k ∷ ks) b = reject_placeholders id has_text ks (
    if is_downloadable_placeholder k || is_forwarded k && has_text
    then b
    else push_rejected
        (record { kind = placeholder k; reason = unsupported_reason k; source_msg_id = id }) b)

abbrev pub push_text : Text → Bucket → Bucket
push_text [] b = b
push_text (c ∷ cs) b = record b { texts = b.texts ++ (c ∷ cs) ∷ [] }

unfoldable pub add_content : String → InboundContent → Bucket → Bucket
unfolding reject_placeholders
add_content id (text t kinds) b = reject_placeholders id (not (text_eq t [])) kinds (push_text t b)
add_content id (media n) b = record b { pending_outcomes = b.pending_outcomes ++ n ∷ [] }
add_content id (refused kind reason) b =
    push_rejected
      (record { kind = named (or_else kind "unknown"); reason = reason; source_msg_id = id }) b

abbrev pub note_message : InboundEvent → Bucket → Bucket
note_message e b = record b {
  message_ids =
      if any (λ m. str_eq m e.message_id) b.message_ids
      then b.message_ids
      else b.message_ids ++ e.message_id ∷ [];
  reply_to_message_id = elim b.reply_to_message_id as (λ _. Option String) [
    | none ↦ e.reply_to_message_id
    | some r ↦ some r
  ];
}

abbrev pub arm_timer : Bucket → Bucket
arm_timer b = record b { window_elapsed = false; timer = true }

abbrev pub ensure_bucket : Assembly → Bucket
ensure_bucket s = or_else s.bucket (new_bucket s.next_number)

unfoldable pub ingest : InboundEvent → Assembly → Assembly
unfolding add_content
ingest e s = if s.disposed then s else record s {
  bucket = some (arm_timer (add_content e.message_id e.content (note_message e (ensure_bucket s))));
  next_number = s.next_number + 1;
}

abbrev pub last_message : Bucket → String
last_message b = or_else (last? b.message_ids) ""

abbrev pub turn_of : Bucket → CommitReason → InboundTurn
turn_of b reason = record {
  reply_to_message_id = b.reply_to_message_id;
  texts = b.texts;
  attachments = b.attachments;
  rejected = b.rejected;
  message_ids = b.message_ids;
  commit_reason = reason;
}

-- A receipt with nothing to say is not sent.
abbrev pub receipt : String → List String → List RejectedItem → Bool → List InboundCall
receipt id [] [] hint = []
receipt id (p ∷ ps) rejected hint = on_receipt id (p ∷ ps) rejected hint ∷ []
receipt id [] (r ∷ rs) hint = on_receipt id [] (r ∷ rs) hint ∷ []

-- What `commit` calls first: without a text only a receipt.
unfoldable pub commit : Bucket → CommitReason → List InboundCall
commit b reason = elim b.texts as (λ _. List InboundCall) [
  | [] ↦
      receipt (last_message b) (map (λ (a : InboundAttachment). a.path) b.attachments) b.rejected
        true
  | t ∷ ts ↦ on_commit (last_message b) (turn_of b reason) ∷ []
]

-- What follows when the agent has taken the turn, or has failed to.
unfoldable pub after_commit : String → InboundTurn → Bool → List InboundCall
after_commit id turn true = receipt id [] turn.rejected false
after_commit id turn false = on_failure id ∷ []

unfoldable pub try_commit : CommitReason → Assembly → Assembly
unfolding commit
try_commit reason s = elim s.bucket [
  | none ↦ s
  | some b ↦
      if no_outcomes b then record s { bucket = none; calls = s.calls ++ commit b reason } else s
]

abbrev pub hold : Bucket → Assembly → Assembly
hold b s = record s { bucket = some b }

abbrev pub commit_if : Bool → CommitReason → Assembly → Assembly
commit_if now reason s = if now then try_commit reason s else s

-- The timer of the window.
unfoldable pub timer_fired : Assembly → Assembly
unfolding try_commit
timer_fired s = elim s.bucket [
  | none ↦ s
  | some b ↦
      if b.timer
      then commit_if (no_outcomes b) (or_else b.forced_reason idle)
          (hold (record b { timer = false; window_elapsed = true }) s)
      else s
]

unfoldable pub add_outcome : String → MediaOutcome → Bucket → Bucket
add_outcome id (stored attachments rejected) b =
    push_all_rejected rejected (record b { attachments = b.attachments ++ attachments })
add_outcome id (lost message) b =
    push_rejected
      (record {
        kind = placeholder PlaceholderKind.file;
        reason = lit "下载失败: " ++ message;
        source_msg_id = id;
      })
      b

abbrev pub drop_outcome : ℕ → Bucket → Bucket
drop_outcome n b = record b { pending_outcomes = filter (λ x. not (x == n)) b.pending_outcomes }

-- A download of the bucket with the number has ended.
unfoldable pub media_settled : ℕ → ℕ → String → MediaOutcome → Assembly → Assembly
unfolding try_commit add_outcome
media_settled number n id outcome s = elim s.bucket [
  | none ↦ s
  | some b ↦
      if b.number == number
      then (let b' = drop_outcome n (add_outcome id outcome b) in
          commit_if (b'.window_elapsed && no_outcomes b') (or_else b'.forced_reason idle)
            (hold b' s))
      else s
]

-- `flush` up to its first `await`.
unfoldable pub flush : CommitReason → Assembly → Assembly
unfolding try_commit
flush reason s = elim s.bucket [
  | none ↦ s
  | some b ↦
      commit_if (no_outcomes b) reason
        (hold (record b { window_elapsed = true; forced_reason = some reason }) s)
]

-- `flush` when the downloads it waited for have ended, if its bucket is still there.
unfoldable pub flush_rest : ℕ → CommitReason → Assembly → Assembly
unfolding try_commit
flush_rest number reason s = elim s.bucket [
  | none ↦ s
  | some b ↦ commit_if (b.number == number) reason s
]

unfoldable pub dispose : Assembly → Assembly
dispose s = record s { bucket = none; disposed = true }
