-- ===== src/Inbound/Step.antt =====
-- Any calls of src/inbound/turn-assembler.ts for one user in one chat, before it is disposed.
use lark_remote.Common.{ℕ, String, Text, false, List, [], ◌∷◌, ◌++◌, none}
use lark_remote.Inbound.Types.{
  CommitReason, InboundEvent, InboundContent, text, media, refused, MediaOutcome, Assembly,
}
use lark_remote.Inbound.Assembler.{ingest, timer_fired, media_settled, flush, flush_rest}

pub data InboundStep : Type 0 where
  ingested : InboundEvent → InboundStep
  window_ended : InboundStep
  download_ended : ℕ → ℕ → String → MediaOutcome → InboundStep
  flushing : CommitReason → InboundStep
  flush_ended : ℕ → CommitReason → InboundStep

unfoldable pub do_inbound : InboundStep → Assembly → Assembly
unfolding ingest timer_fired media_settled flush flush_rest
do_inbound (ingested e) s = ingest e s
do_inbound window_ended s = timer_fired s
do_inbound (download_ended number n id outcome) s = media_settled number n id outcome s
do_inbound (flushing reason) s = flush reason s
do_inbound (flush_ended number reason) s = flush_rest number reason s

abbrev pub run_inbound : List InboundStep → Assembly → Assembly
run_inbound [] s = s
run_inbound (e ∷ es) s = run_inbound es (do_inbound e s)

abbrev pub fresh_assembly : Assembly
fresh_assembly = record { bucket = none; next_number = 0; disposed = false; calls = [] }

-- The texts that came in, the empty ones left out.
abbrev pub text_of : InboundContent → List Text
text_of (text [] kinds) = []
text_of (text (c ∷ cs) kinds) = (c ∷ cs) ∷ []
text_of (media n) = []
text_of (refused kind reason) = []

abbrev pub said : List InboundStep → List Text
said [] = []
said (ingested e ∷ es) = text_of e.content ++ said es
said (window_ended ∷ es) = said es
said (download_ended number n id outcome ∷ es) = said es
said (flushing reason ∷ es) = said es
said (flush_ended number reason ∷ es) = said es
