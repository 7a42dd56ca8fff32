-- ===== src/Lib.antt =====
-- Parts of the bridge between chat and coding agents, modelled from their TypeScript source.
--
-- * The message queue of a workspace, src/bridge/queue-manager.ts, in Queue. Each directory has a
--   lane: a promise chain of tasks, the array of waiting tasks with its index by queue key, the
--   count of pending or executing tasks, the record of the task that occupies the lane, and the
--   interrupt credits. Queue/Types holds the state: `Lane` is what the `QueueManager` keeps for one
--   directory and `Shared` is the rest, with the task objects in a store, since the array and the
--   index share them and an edit changes them in place. Queue/Lanes holds removal, edit,
--   replacement, holds, `decrementExecutingCount` and `resetExecutingCount`; Queue/Chain holds
--   `enqueue` with `registerQueuedTask`, and the two moments of a link of the chain as steps of
--   their own: `begin_next`, when the link before has settled, with `beginQueuedTask`, and `settle`,
--   the code behind it. Queue/Cards and Queue/Updates hold the queue cards and what is sent to the
--   chat service. Queue/Step puts the calls together to a step of the whole manager and says which
--   managers are reachable. Queue/Mirror, Agreement, Armed, Runs, Edits, Admission, Begin
--   and CardLaws hold the proofs.
-- * The state of a run card, src/card/run-state.ts, in RunState. An agent's events (`AgentEvent` of
--   src/runner/types.ts, in RunState/Types) are reduced to the state that the card shows.
--   RunState/Decimal and RunState/Marks hold the marks of truncated texts (`keepTailMarked`, and
--   `keepTail` of src/common/truncate.ts), RunState/Blocks the windows, the cap and the upsert,
--   RunState/TurnDiff the snapshots of app-server items, RunState/Content assistant content and tool
--   results, RunState/Answer the final answer and the result, RunState/Jobs the background jobs,
--   RunState/Approvals the approvals, and RunState/Reduce `reduceRunState` and `finishRun`.
--   RunState/MarkLaws, Frame, Verdict, Bounds, Capped, Life, AnswerLaws, ApprovalLaws,
--   ApprovalEvents, JobLaws, JobEnd, Tools and Snapshots hold the proofs.
-- * The approvals of a run, src/bridge/approval-coordinator.ts, in Approval. Approval/Types holds the
--   state of `ApprovalCoordinator` and what it is given, Approval/Questions the answers of a request
--   with questions, Approval/Coordinator requests, decisions, `submit`, expiry and the code behind
--   the responder's `await` (`on_response`), and Approval/Answers the calls on items and questions.
--   Approval/Step puts the calls, the timers and the responder's answers together to a system with
--   the calls that are out and a record of those that were accepted, and says which systems are
--   reachable. Approval/Lives is what the coordinator promises of each request: a state and a
--   deadline, and the moves allowed. Approval/LifeLaws, CallMoves, AnswerMoves and Refinement show
--   that every call keeps to it, and Deadlines, Once, Clicks and Batch hold the other proofs. What a
--   card shows of an approval is in RunState.
-- * The saved orders, src/order/index.ts, in Orders: `OrderStore` with its file. Orders/Alias holds
--   `resolveAlias` of src/order/alias-resolve.ts and `expandAliasMessage` of src/router/index.ts,
--   which makes the aliases of the orders. Orders/Step puts the calls together; Orders/Laws, Kept and
--   AliasLaws hold the proofs.
-- * The assembly of a turn from several messages, src/inbound/turn-assembler.ts, in Inbound: what
--   `InboundTurnAssembler` holds of one user in one chat, with the types of src/inbound/turn.ts and
--   src/inbound/event.ts, in Inbound/Types, and its operations in Inbound/Assembler. A download is a
--   number and its end is a step; `flush` and the code behind its `await` are two. Inbound/Step puts
--   the calls together; Inbound/Laws and Kept hold the proofs.
-- * The JSON-RPC client of the agent servers, src/runner/common/jsonrpc/client.ts, in Rpc: Rpc/Types
--   holds the state of `JsonRpcClient` and its messages, Rpc/Client its operations with
--   `rejectAllPending` and `disposeRpcClient`, Rpc/Step puts the calls, the messages, the timers and
--   the closes of the transport together; Rpc/Counts, Once and Over hold the proofs.
-- * The stream of JSON lines that an agent writes, src/runner/common/jsonl-stream.ts, in Jsonl: the
--   handlers of `JSONLStreamState` and the generator, put together by Jsonl/Step. Jsonl/Glue, Read,
--   Whole and Live hold the proofs.
-- * The prompts that may outlive the program, src/runner/dsh/inflight.ts, in Inflight:
--   `DshInflightStore` with its file, and `reconcileInflightDshRuns` over the answers of the host.
--   Inflight/Listed and Reconciled hold the proofs.
-- * The named directories, src/workspace/index.ts, in Workspaces: `WorkspaceStore` with its file.
--   Workspaces/Recent and Kept hold the proofs.
-- * The budgets of static cards, src/card/card-budget.ts, in CardBudget: CardBudget/Nodes holds the
--   tree of a card, CardBudget/Tables the markdown tables of src/card/text-truncate.ts,
--   CardBudget/TableCap `capCardMarkdownTables`, CardBudget/Budget the stages of
--   `enforceByteBudget`, and CardBudget/Enforce `enforceCardBudget`. CardBudget/Laws, Untouched and
--   Reported hold the proofs.
-- * Pages of lists, src/router/paging.ts, src/session/common/pagination.ts and src/common/clamp.ts, in
--   Paging; Paging/Laws holds the proofs.
-- * Texts cut to a display width, src/common/text-width.ts, in Width, with the loop of Truncate;
--   Width/Laws holds the proofs.
-- * The truncation of strings, src/common/truncate.ts, in Truncate: `truncateUtf8` with `fitUtf8`, which
--   count bytes, and `truncate`, which counts UTF-16 code units, both over code points. Truncate/Laws
--   holds the proofs.
-- * The cache with a time to live, src/common/ttl-cache.ts, in Cache: its map in order of use, with
--   `get`, `set` and `clear`. Cache/Laws holds the proofs.
-- * Common passes on library names and holds lists, options, texts and insertion-ordered maps.
--
-- How values are modelled: an id is a native string; a text that is measured, cut or searched is
-- the list of its UTF-16 code units, as JavaScript counts them. A closure is a number, and running it
-- is an entry in the list of calls that an operation makes. What `Date.now()` returns is an argument.
-- An optional field is an option, and an optional list or flag that the source leaves out is empty or
-- false. A card keeps the values that are printed into it. The keys of the object that `JSON.parse`
-- reads from a tool input are a parameter, `as_record`. A payload of unknown type is the text that
-- the source makes of it.
--
-- A timer is the time at which it fires, and fires then or later. The parts of an approval view
-- that the coordinator does not read are one number; that the card holds the same view object is
-- left out. A file is what `JSON.parse` makes of it, with its keys in the order of
-- `Object.entries`; the files of the orders and of the directories are always written. The object
-- of answers is the list of its own fields, whose order is left out: a write makes a field of every
-- text but `__proto__`. A new id is an argument, and so is the success of a write that is allowed
-- to fail. Offsets and page sizes are natural numbers. A payload of JSON-RPC is a text, an error is
-- null or an object, and the transport is a flag and a list of calls; a write that breaks the pipe
-- is a write and a lost transport. The bytes that a card takes as JSON are a parameter, and of what
-- is not named in its tree the number of elements is kept. What the string decoder makes of a chunk
-- is an argument.
--
-- Bounds: at most 50 tasks wait in a lane, at most 10000 begun keys are remembered, a card holds at
-- most 24 blocks, an older text 12000 code units, thinking 4000, a plan 8000 and a tool detail
-- 3000; there are at most 50 orders of at most 200 code units, with aliases of at most 20.
-- At most 50 prompts in flight are kept, for seven days, and 10 are looked at when the program starts.
-- The budget of a card sent whole is 90 elements, 5 tables and 28000 bytes; a line of an agent's output
-- may have 10 MiB. The loop that drops panels runs on fuel, the number of the panels, which is enough.
-- The loop that looks for the number of a mark runs on fuel: 41 and twice the number of code units
-- dropped before and still there, which its totals never reach. All other loops are structural.
--
-- Not modelled: the guard of `enqueue` against a value that is no function, which the type rules out;
-- `enqueueImmediate`, which runs its closure; log lines; the display name of a directory; all but four
-- of the usage fields; the renderers of the cards, the runners, the session readers, the commands,
-- the prompt of a turn, the wording of its receipts
-- and the stripping of placeholders, the configuration and the chat connector.
pub mod Common
pub mod Queue
pub mod Rpc
pub mod RunState
pub mod Truncate
pub mod Cache
pub mod CardBudget
pub mod Approval
pub mod Orders
pub mod Paging
pub mod Width
pub mod Workspaces
pub mod Inbound
pub mod Inflight
pub mod Jsonl
