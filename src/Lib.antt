-- ===== src/Lib.antt =====
-- PartyBridge: a bridge server (pkg/) that takes coins on one chain and has a shim server mint
-- tokens for them on another, or takes tokens and has the coins paid out.
--
-- A client orders over a websocket and gets the address of a fresh key. The order becomes a watch
-- request in Redis. A worker starts a watch, which looks at the balance of the address until the
-- amount is there or the time is up. Then `Dispatch` books the key as a bridge account, asks a shim to
-- mint or to pay, and takes the request off the list.
--
-- Parts and files:
--   pkg/types.go: Types, Messages and Server hold its structs, and Types/Unused those that
--     no code uses. `*big.Int` is `Option ℤ`.
--   pkg/redis.go: Store. Store/Requests and Store/Accounts hold the operations, under their names in
--     the source; Store/Search is the binary search of Go's library. Store/Tables says what it means
--     that the three keys hold three tables; Store/Refinement and Store/Balances compare each
--     operation with its operation on the tables, Store/Sequences two of them that follow each other
--     or overlap. Store/Removal is about the loop that deletes from the slice it ranges over,
--     Store/Nearest and Store/Choice about the account that is chosen.
--   pkg/shim.go: Shim, and Shim/Requests on one request by its reply.
--   pkg/adapter.go: Session (`handleWebSocketConnection`, `handleClientRequests`), with the numbers
--     that a message and its session share in Session/Heap, Session/Orders on orders that are
--     confirmed, Session/Sent on the tick after them, Session/Complete on the whole way of an order
--     through every part, and Session/Refusals on the other orders. Adapter is `NewAdapter`,
--     Lifecycle `Start` and `shutdown`, with Lifecycle/Restart on what is watched again.
--     `sendStatusMsg` and pkg/metrics.go: Notify.
--   pkg/util.go: Units. pkg/failsafe.go: Failsafe.
--   pkg/helper.go: Dispatch (`Dispatch`, `createBridgeRequest`), with the table of routes in
--     Dispatch/Routes and its branches in Dispatch/Deposit and Dispatch/Payout, and two calls in
--     Dispatch/Twice; WatchAccount (`watchAccount`), with the table of watched orders in
--     WatchAccount/Routes, its end in WatchAccount/Endings, and WatchAccount/Begin and
--     WatchAccount/Complete on a request whose coins arrive.
--   pkg/adapter.go (`StartWarren`, `Warren`, `warrenWorker`): Warren, one tick and one request at a
--     time, with Warren/Laws on what a tick sends; and Warren/Service, the loop, the channel, the
--     workers and the signal of several pods over one store, as a relation of steps, with
--     Warren/Invariant and Warren/Twice on the states that it reaches.
--   pkg/evm.go: Watch, with Watch/Laws on the watch for a chain's own coins, Watch/Tokens on the four
--     for tokens, Watch/Endings on the end of each, and Watch/Complete and Watch/Payout on a watch
--     together with the dispatch, the shim and the store. SendAsset is `sendCoreEVMAsset`.
--   pkg/bscusdt.go: Watch/Bsc, and Watch/BscLaws on amounts beyond 64 bits.
--   System: the whole program as one relation of steps, and what holds in every state. A step is a
--     request to a shim, another effect on the outside, a change of the sessions, or an operation on
--     Redis; those that store a request do so for one under two ids drawn for it. What the steps of a
--     part ask of a shim is said with them: a session nothing, a worker for its own request only.
--     System/Follows has how steps follow from the parts of a call and System/Returns what a call
--     returns; System/Calls, System/Watches, System/Workers, System/Answers, System/Confirms and
--     System/Sessions go through the code with them. System/Unchanged, System/Writes and
--     System/ReadBack say what an operation on Redis leaves, also where Redis or JSON fail, System/Ids
--     what drawn ids are, System/Growth what becomes of the trace, System/Distinct, System/Lists and
--     System/Charged what the operations make of lists. System/Sound says what a sound state is;
--     System/Kept is about steps from such a state, System/Service about sessions and workers,
--     System/Cleanup about the deferred end of a session, System/Pods about the pods of Warren/Service
--     among the steps of the rest, and System/Orders about an order.
--   Base holds shared tests, lists, integers and texts; Examples a concrete server to run on.
--
-- State and effects: Exec has the state of one process (`World`) and what a call may do: return,
-- return an error, or die (`Crash`), with all that was done before kept. `World.trace` lists what the
-- outside saw. Redis, JSON, HTTP, the nodes, the clock and the random sources are the fields of
-- `Platform`; a reply may depend on all that was asked and done before, but what Redis answers to a Get
-- depends on the key and the database only, so that a Get which is repeated with no write in between
-- answers the same: a Get that fails once and then works again is not modelled. Logging is left out.
-- The deferred end of a session runs where the session returns or panics, and not where the process
-- exits or its stack is full.
--
-- Loops: the ticks and timeouts of a watch are a list of wakes, one round each, so no fuel is needed.
-- The binary search gets as many rounds as the list is long, and it is proved to turn within them. The
-- request to pay out repeats itself on one kind of error; its argument `room` is the number of calls
-- that the stack has room for, and running out of it is a crash, as it is in Go. The theorems hold for
-- every `room` above zero.
--
-- Interleaving: an operation on Redis is one step of one process, except in Store/Sequences, where two
-- updates overlap. In Warren/Service the step of a watch is to store its lock; what it does afterwards,
-- like all that sessions do, is a step that may change the world in any way, and in System/Pods a step
-- of the program. In System any step may come between two others; a call is followed to its steps as a
-- whole, without others between them.
--
-- Failures: the theorems of System ask for no Redis that works. A write stores its text or changes
-- nothing, a key that was not written may be unreadable, and a text that is not JSON is an error. They
-- ask that JSON reads what it wrote, that drawn ids parse, and that no id is drawn twice in one run.
--
-- Not modelled: the HTTP router with its root page and headers (pkg/adapter.go) and cmd/, which are
-- calls of libraries; hack/shimtest, a manual test; and
-- the generated contract bindings (pkg/contract), of which the program calls `BalanceOf`, a parameter.
pub mod Base
pub mod Types
pub mod Messages
pub mod Platform
pub mod Exec
pub mod Server
pub mod Store
pub mod Shim
pub mod Notify
pub mod Dispatch
pub mod Watch
pub mod WatchAccount
pub mod Warren
pub mod Session
pub mod Units
pub mod Failsafe
pub mod Adapter
pub mod SendAsset
pub mod Lifecycle
pub mod System
pub mod Examples
