-- ===== src/Inbound/Tests.antt =====
-- A turn of several messages.
use lark_remote.Common.{ℕ, String, lit, true, List, [], ◌∷◌, ◌++◌, none, ◌≡◌, refl}
use lark_remote.Inbound.Types.{
  text, media, PlaceholderKind, CommitReason, idle, stored, InboundAttachment, on_commit,
  on_receipt, Assembly,
}
use lark_remote.Inbound.Step.{
  InboundStep, ingested, window_ended, download_ended, flushing, run_inbound, do_inbound,
  fresh_assembly,
}
use lark_remote.Inbound.Laws.{committed_texts, held_texts}
use lark_remote.Inbound.Kept.{texts_kept}

abbrev says : String → String → InboundStep
says id t =
    ingested (record { message_id = id; reply_to_message_id = none; content = text (lit t) [] })

abbrev sends : String → ℕ → InboundStep
sends id n = ingested (record { message_id = id; reply_to_message_id = none; content = media n })

abbrev photo : InboundAttachment
photo = record { path = "/tmp/p.png"; kind = PlaceholderKind.image; source_msg_id = "m2" }

-- Two messages with a photo between, whose download ends after the window; then one more message.
abbrev talk : List InboundStep
talk =
    says "m1" "look"
    ∷ sends "m2" 7
    ∷ says "m3" "at this"
    ∷ window_ended
    ∷ download_ended 0 7 "m2" (stored (photo ∷ []) [])
    ∷ says "m4" "thanks"
    ∷ []

abbrev after_talk : Assembly
after_talk = run_inbound talk fresh_assembly

texts_kept_example :
    committed_texts after_talk.calls ++ held_texts after_talk.bucket
    ≡ lit "look" ∷ lit "at this" ∷ lit "thanks" ∷ []
texts_kept_example = texts_kept talk

talk_lem :
    after_talk.calls
    ≡ on_commit "m3" (record {
      reply_to_message_id = none;
      texts = lit "look" ∷ lit "at this" ∷ [];
      attachments = photo ∷ [];
      rejected = [];
      message_ids = "m1" ∷ "m2" ∷ "m3" ∷ [];
      commit_reason = idle;
    })
      ∷ []
unfolding do_inbound
talk_lem = refl

-- A photo alone gets a receipt.
photo_alone :
    (run_inbound
      (sends "m2" 7
        ∷ flushing CommitReason.flushed
        ∷ download_ended 0 7 "m2" (stored (photo ∷ []) [])
        ∷ [])
      fresh_assembly).calls
    ≡ on_receipt "m2" ("/tmp/p.png" ∷ []) [] true ∷ []
unfolding do_inbound
photo_alone = refl
