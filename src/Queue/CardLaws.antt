-- ===== src/Queue/CardLaws.antt =====
-- What the queue cards show and offer.
use lark_remote.Common.{
  if◌then◌else◌, ℕ, ◌≡◌, refl, String, Text, List, [], ◌∷◌, Option, none, some, Bool, true, false,
  ◌&&◌, not, arith, is_some,
}
use lark_remote.Common.Dict.{erase}
use lark_remote.Queue.Types.{
  compact, ExecutingInfo, Lane, Shared, Button, edit, cancel, immediate, Element, button,
}
use lark_remote.Queue.Cards.{
  get_queued_task, is_editable, build_queue_status_card_elements, executing_card,
}
use lark_remote.Queue.Lanes.{remove_from_queue}
use lark_remote.Queue.Updates.{update_queue_card_to_executing}
use lark_remote.Queue.Mirror.{IsMirrored}
use lark_remote.Queue.Edits.{lookup-remove}

-- The buttons of a card, in order.
abbrev pub buttons : List Element → List Button
buttons [] = []
buttons (button b ∷ es) = b ∷ buttons es
buttons (_ ∷ es) = buttons es

-- A press that reaches the queue: the button is not greyed out.
abbrev pub offers_immediate : List Button → Bool
offers_immediate [] = false
offers_immediate (immediate _ false ∷ bs) = true
offers_immediate (_ ∷ bs) = offers_immediate bs

abbrev pub offers_cancel : List Button → Bool
offers_cancel [] = false
offers_cancel (cancel false ∷ bs) = true
offers_cancel (_ ∷ bs) = offers_cancel bs

abbrev pub offers_edit : List Button → Bool
offers_edit [] = false
offers_edit (edit ∷ bs) = true
offers_edit (_ ∷ bs) = offers_edit bs

abbrev pub is_compacting : Option ExecutingInfo → Bool
is_compacting none = false
is_compacting (some info) = elim info.kind [ compact ↦ true | _ ↦ false ]

abbrev pub is_empty : Text → Bool
is_empty [] = true
is_empty (_ ∷ _) = false

-- The card of a waiting task can always be cancelled, can be run at once exactly while no
-- compaction holds the lane, and can be edited exactly if it has a preview and was not enqueued as
-- uneditable.
pub waiting_card_buttons :
    (l : Lane) (s : Shared) (cwd : String) (position ahead : ℕ) (id : String) (preview : Text)
    → let bs = buttons (build_queue_status_card_elements l s cwd position ahead id preview) in
      (offers_cancel bs ≡ true)
      × (offers_immediate bs ≡ not (is_compacting l.executing_info))
      × (offers_edit bs ≡ (not (is_empty preview) && is_editable (get_queued_task l s id)))
unfolding build_queue_status_card_elements
waiting_card_buttons l s cwd position ahead id preview = (ground arith, ground arith, ground arith)

-- An executing card offers nothing.
pub settled_card_buttons :
    (cwd : String) (preview : Text)
    → (offers_cancel (buttons (executing_card cwd preview).elements) ≡ false)
      × (offers_immediate (buttons (executing_card cwd preview).elements) ≡ false)
      × (offers_edit (buttons (executing_card cwd preview).elements) ≡ false)
unfolding executing_card
settled_card_buttons cwd preview = (refl, refl, refl)

-- Marking a task as started never turns the card of a cancelled task: with the task gone from the
-- queue and not begun, no update is sent, and the card's mapping is dropped if there was a card.
pub executing-remove :
    (first : Bool) (cwd id : String) (preview : Text) (card : Option String) (l : Lane) (s : Shared)
    → IsMirrored l s
    → let l' = (remove_from_queue id s l).0 in
      let u = update_queue_card_to_executing first cwd id preview false card l' s in
      (u.1 ≡ [])
      × (u.0.card_messages ≡ (if is_some card then erase id s.card_messages else s.card_messages))
unfolding update_queue_card_to_executing
executing-remove first cwd id preview none l s v = (refl, refl)
executing-remove first cwd id preview (some card) l s v =
    (ground (arith, lookup-remove id l s v), refl)
