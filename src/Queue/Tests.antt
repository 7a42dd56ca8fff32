-- ===== src/Queue/Tests.antt =====
-- The queue on concrete histories.
use lark_remote.Common.{String, Text, lit, map, List, [], ◌∷◌, ◌++◌, none, some, ◌≡◌, refl}
use lark_remote.Common.Dict.{lookup, insert, erase}
use lark_remote.Queue.Types.{TaskMeta, Entry, Shared, message, ExecutingInfo, empty_lane}
use lark_remote.Queue.Lanes.{remove_from_queue}
use lark_remote.Queue.Chain.{enqueue, begin_queued_task, begin_next}
use lark_remote.Queue.Step.{
  Call, enqueues, begins, lane_step, Manager, init, step, Reach, start, next, quiet,
}
use lark_remote.Queue.Armed.{IsArmed, Reach-IsArmed}
use lark_remote.Queue.Mirror.{IsMirrored}
use lark_remote.Queue.Agreement.{Reach-IsMirrored}
use lark_remote.Queue.Edits.{begin-remove}
use lark_remote.Queue.Runs.{ran, task_of, all_actions, lane_after, all_accepted, runs-accepted}

abbrev meta_of : String → Text → TaskMeta
meta_of id preview = record {
  user_id = "u";
  chat_id = "c";
  message_id = id;
  message_preview = preview;
  feishu_reply_to = none;
  editable = none;
  binding = none;
  kind = none;
}

abbrev one : Manager
one = step "/w" (enqueues 1 10 (some (meta_of "a" (lit "A")))) init

abbrev two : Manager
two = step "/w" (begins 2) one

abbrev three : Manager
three = step "/w" (enqueues 3 11 (some (meta_of "b" (lit "B")))) two

three-Reach : Reach three
unfolding step lane_step lookup insert erase enqueue begin_next
three-Reach =
    next
      (next (next start "/w" (enqueues 1 10 (some (meta_of "a" (lit "A")))) refl) "/w" (begins 2)
        tt)
      "/w" (enqueues 3 11 (some (meta_of "b" (lit "B")))) refl

Reach-IsArmed_example : IsArmed (three.lanes "/w")
Reach-IsArmed_example = Reach-IsArmed three-Reach "/w"

Reach-IsMirrored_example : IsMirrored (three.lanes "/w") three.shared
Reach-IsMirrored_example = Reach-IsMirrored three-Reach "/w"

abbrev second : Entry
second = record { slot_id = 2; task = 11; task_meta = some (meta_of "b" (lit "B")) }

begin-remove_example :
    let l = (remove_from_queue "b" three.shared (three.lanes "/w")).0 in
    begin_queued_task 4 second l three.shared ≡ quiet l three.shared
begin-remove_example =
    begin-remove 4 second "b" (three.lanes "/w") three.shared Reach-IsMirrored_example refl

abbrev occupant : ExecutingInfo
occupant = record {
  slot_id = 1;
  message_id = some "a";
  kind = message;
  label = lit "💬 消息";
  preview = some (lit "A");
  started_at = 2;
}

abbrev history : List (Call × Shared)
history =
    (enqueues 1 10 (some (meta_of "a" (lit "A"))), init.shared)
    ∷ (begins 2, one.shared)
    ∷ (enqueues 3 11 (some (meta_of "b" (lit "B"))), two.shared)
    ∷ []

runs-accepted_example :
    ran (all_actions "/w" history empty_lane)
      ++ map task_of (lane_after "/w" history empty_lane).chain
    ≡ all_accepted "/w" history empty_lane
unfolding lookup lane_step begin_next enqueue insert erase
runs-accepted_example = runs-accepted "/w" history ((refl, refl, (refl, tt, (refl, refl, tt))))

-- The second message waits; its queue card is the only one sent.
three_test : ((three.lanes "/w").queued_tasks ≡ 1 ∷ []) × (three.shared.next_send ≡ 1)
unfolding step lane_step lookup insert erase enqueue begin_next
three_test = (refl, refl)
