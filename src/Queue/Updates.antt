-- ===== src/Queue/Updates.antt =====
-- The card updates of src/bridge/queue-manager.ts, resumed after the `await` of the card's send.
-- `card` is what that send resolved to; `updates` says of each attempt whether the call succeeds.
use lark_remote.Common.{
  String, Text, List, [], ◌∷◌, Option, none, some, Bool, ◌&&◌, not, if◌then◌else◌, is_some,
}
use lark_remote.Common.Dict.{erase}
use lark_remote.Queue.Types.{QueuedTask, Lane, Shared, Card}
use lark_remote.Queue.Cards.{get_queued_task, executing_card, cancelled_card}

-- The calls of `updateCard`: one, and one more after a failure.
unfoldable pub update_card_with_retry : Bool → String → Card → List (String × Card)
update_card_with_retry first id card = (id, card) ∷ (if first then [] else (id, card) ∷ [])

abbrev pub forget_card : String → Shared → Shared
forget_card id s = record s { card_messages = erase id s.card_messages }

-- A failed card send drops the mapping.
unfoldable pub card_sent : String → Option String → Shared → Shared
card_sent id none s = forget_card id s
card_sent id (some _) s = s

abbrev pub live_preview : Option QueuedTask → Text → Text
live_preview none preview = preview
live_preview (some t) preview = t.message_preview

unfoldable pub update_queue_card_to_executing :
    Bool
    → String
    → String
    → Text
    → Bool
    → Option String
    → Lane
    → Shared
    → Shared × List (String × Card)
unfolding update_card_with_retry
update_queue_card_to_executing first cwd id preview started none l s = (s, [])
update_queue_card_to_executing first cwd id preview started (some card) l s =
    let task = get_queued_task l s id in
    (
      forget_card id s,
      if not (is_some task) && not started
          then []
          else update_card_with_retry first card (executing_card cwd (live_preview task preview)),
    )

unfoldable pub update_queue_card_to_cancelled :
    Bool → String → String → Option String → Shared → Shared × List (String × Card)
unfolding update_card_with_retry
update_queue_card_to_cancelled first cwd id none s = (s, [])
update_queue_card_to_cancelled first cwd id (some card) s =
    (forget_card id s, update_card_with_retry first card (cancelled_card cwd))
