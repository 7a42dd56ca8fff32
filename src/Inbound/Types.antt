-- ===== src/Inbound/Types.antt =====
-- The types of src/inbound/turn.ts and src/inbound/event.ts, the kinds of placeholders with their
-- labels, and what src/inbound/turn-assembler.ts holds of one user in one chat. A download is a
-- number. A call carries what a prompt or a receipt is made of.
use lark_remote.Common.{ℕ, String, Text, lit, Bool, true, false, List, ◌++◌, Option}

pub data PlaceholderKind : Type 0 where
  image file video audio sticker share location folder : PlaceholderKind
  vote todo meeting calendar hongbao forwarded unsupported unknown : PlaceholderKind

unfoldable pub is_downloadable_placeholder : PlaceholderKind → Bool
is_downloadable_placeholder PlaceholderKind.image = true
is_downloadable_placeholder PlaceholderKind.file = true
is_downloadable_placeholder PlaceholderKind.video = true
is_downloadable_placeholder PlaceholderKind.audio = true
is_downloadable_placeholder PlaceholderKind.sticker = true
is_downloadable_placeholder _ = false

abbrev pub is_forwarded : PlaceholderKind → Bool
is_forwarded PlaceholderKind.forwarded = true
is_forwarded _ = false

-- `PLACEHOLDER_LABELS`.
abbrev pub placeholder_label : PlaceholderKind → Text
placeholder_label PlaceholderKind.image = lit "图片"
placeholder_label PlaceholderKind.file = lit "文件"
placeholder_label PlaceholderKind.video = lit "视频"
placeholder_label PlaceholderKind.audio = lit "语音"
placeholder_label PlaceholderKind.sticker = lit "表情"
placeholder_label PlaceholderKind.share = lit "名片/群分享"
placeholder_label PlaceholderKind.location = lit "位置"
placeholder_label PlaceholderKind.folder = lit "文件夹"
placeholder_label PlaceholderKind.vote = lit "投票"
placeholder_label PlaceholderKind.todo = lit "待办"
placeholder_label PlaceholderKind.meeting = lit "视频会议"
placeholder_label PlaceholderKind.calendar = lit "日程"
placeholder_label PlaceholderKind.hongbao = lit "红包"
placeholder_label PlaceholderKind.forwarded = lit "合并转发"
placeholder_label PlaceholderKind.unsupported = lit "此类"
placeholder_label PlaceholderKind.unknown = lit "未知类型"

unfoldable pub unsupported_reason : PlaceholderKind → Text
unsupported_reason kind = lit "暂不支持" ++ (placeholder_label kind ++ lit "消息")

pub data RejectedKind : Type 0 where
  placeholder : PlaceholderKind → RejectedKind
  named : String → RejectedKind

pub record InboundAttachment : Type 0 where
  pub path : String
  pub kind : PlaceholderKind
  pub source_msg_id : String

pub record RejectedItem : Type 0 where
  pub kind : RejectedKind
  pub reason : Text
  pub source_msg_id : String

pub data CommitReason : Type 0 where
  idle timeout flushed no_text : CommitReason

pub record InboundTurn : Type 0 where
  pub reply_to_message_id : Option String
  pub texts : List Text
  pub attachments : List InboundAttachment
  pub rejected : List RejectedItem
  pub message_ids : List String
  pub commit_reason : CommitReason

pub data InboundContent : Type 0 where
  text : Text → List PlaceholderKind → InboundContent
  media : ℕ → InboundContent
  refused : Option String → Text → InboundContent

pub record InboundEvent : Type 0 where
  pub message_id : String
  pub reply_to_message_id : Option String
  pub content : InboundContent

pub record Bucket : Type 0 where
  pub number : ℕ
  pub texts : List Text
  pub attachments : List InboundAttachment
  pub rejected : List RejectedItem
  pub message_ids : List String
  pub reply_to_message_id : Option String
  pub pending_outcomes : List ℕ
  pub window_elapsed : Bool
  pub forced_reason : Option CommitReason
  pub timer : Bool

-- A turn that is given to the agent, with the message it ends with, or a receipt of what was saved
-- and rejected.
pub data InboundCall : Type 0 where
  on_commit : String → InboundTurn → InboundCall
  on_receipt : String → List String → List RejectedItem → Bool → InboundCall
  on_failure : String → InboundCall

pub record Assembly : Type 0 where
  pub bucket : Option Bucket
  pub next_number : ℕ
  pub disposed : Bool
  pub calls : List InboundCall

pub data MediaOutcome : Type 0 where
  stored : List InboundAttachment → List RejectedItem → MediaOutcome
  lost : Text → MediaOutcome
