-- ===== src/Lib.antt =====
-- SerialAgent: the core of the gateway, an agent server that keeps a record of agent turns, routes
-- tool calls to remote nodes, and runs queued tasks that can be cancelled.
--
-- How the parts interact. The gateway receives messages over HTTP and runs an agent turn for each.
-- A turn is a run of the run store; a turn that was queued is a task, whose worker starts the turn
-- and copies its events. The tools of a turn go to local executors or, by the longest matching
-- capability, to a node that is connected over a WebSocket; the requests in flight are kept by the
-- tool router. A cancel token per session, with groups for child sessions, stops a running turn.
--
-- Which file models which part:
--
--   Prelude, Prelude/*     Boolean tests on native numbers and bytes, lists, and association lists
--                          for `HashMap`, with the laws that all parts share.
--   Positions              sequences searched by key: the specification of an indexed ring.
--   Runs, Runs/*           crates/gateway/src/runtime/runs.rs. `RunStoreInner` is the record of that
--                          name; get, push_back, pop_front, insert and update are get_run, push_back,
--                          pop_front, insert_run and update_run. Index and Ring hold the laws of the
--                          index, History the specification by a log that forgets nothing, Loading
--                          the JSONL file read back, Listing the pages and the counts.
--   Nodes, Nodes/*         crates/gateway/src/nodes/registry.rs. register, remove, touch, prune_stale
--                          and list are register, remove_node, touch, prune_stale and list_nodes;
--                          Routing is find_for_tool_with_affinity and the resolve of router.rs,
--                          and Choice says what the search promises.
--   Nodes/Pending/*        crates/gateway/src/nodes/router.rs. `PendingState` is the record of that
--                          name. dispatch_to_node is split where it lets go of its lock:
--                          check_limits, enter_request, end_wait.
--   Strings, Strings/*     Rust's `str` on bytes, as cron.rs and validation.rs use it, with the laws of
--                          printed numbers and joined pieces.
--   Schedules, ...         crates/gateway/src/runtime/schedules and schedule_runner.rs: model.rs is
--                          Schedules, cron.rs is Cron, store.rs is Store, validation.rs is Validation,
--                          the runner is Runner and Complete. Field and Expression describe a cron
--                          expression as data, Next the search, Missed, Skip and Slots a tick, Overlap
--                          and Repeats the hour that comes twice, Backoff the cooldown, Accepted the
--                          validation, Writes and Calls the map of the store, Reload its file while
--                          calls overlap, Url, Userinfo and Internal the check of URLs, Address the
--                          parsers of std.
--   Search, Search/*       crates/sessions/src/search.rs; Counts is the index by the words of the
--                          contents, Matches what a query finds.
--   Locks, Locks/*         crates/gateway/src/runtime/session_lock.rs as the step relation `Step`;
--                          Exclusion shows one turn at a time.
--   Quotas, Quotas/*       crates/gateway/src/runtime/quota.rs; Sums adds up the uses of a day, and
--                          Day says what the check makes of them.
--   Turn, Turn/*           crates/gateway/src/runtime/turn.rs: Stream reads a response, Nodes and Loop are
--                          run_turn_inner, Endings and Closing say how a turn ends, Limit and
--                          Asking what the limit does, Assembly and Answered the tool calls and
--                          their results.
--   Transcripts, ...       crates/sessions/src/transcript.rs: the files by session id and the cache; Files
--                          reads back what is written, Coherence relates the cache to the files.
--   Sse, Sse/*             crates/providers/src/sse.rs; Chunks shows that the cuts do not matter.
--   Providers, ...         crates/providers/src/router.rs, and smart_router.rs in Smart; Retriable and
--                          Suited say in words of their own which errors and models go on, and Fallback
--                          has the search as a relation.
--   Cancel, Cancel/*       crates/gateway/src/runtime/cancel.rs. A token is a number, and the flags
--                          are a store shared by all who hold the token.
--   Tasks, Tasks/*         crates/gateway/src/runtime/tasks.rs. The worker of `enqueue` is the step
--                          relation `Step`, with a step for each access of the store and steps for
--                          the cancellations and evictions that may come between.
--   Pruning, Pruning/*     crates/gateway/src/pruning.rs; the threshold products are arguments.
--   Compaction, ...        crates/gateway/src/runtime/compact.rs, and what turn.rs reads after it: Split
--                          is about split_for_compaction, Lost about run_compaction.
--   Deliveries, ...        crates/gateway/src/runtime/deliveries.rs: Ring is about insert and get, Moved
--                          about mark_read, Deadlock about the order of the two locks.
--   ContextPack, ...       crates/contextpack/src: truncation.rs is ContextPack, with the laws of the
--                          cuts in Cut and Cap; builder.rs and injection.rs are Builder and Assembly;
--                          Report relates the report to the text.
--   Sessions, Sessions/*   crates/sessions/src: session_key.rs and identity.rs are Key, with Isolation
--                          on who shares a session; lifecycle.rs is Lifecycle, with Boundary.
--
-- Numbers. Sizes and sequence numbers are natural numbers: a `usize` count is bounded by memory.
-- The generation counter of the registry wraps at 2^64, as `fetch_add` does. Differences of times
-- that the code holds at 0 are the truncated difference. An index that would underflow, and panic
-- in a debug build, is `none` in `deque_idx`.
--
-- Bounds and fuel. Loops recurse on the list or the index that they go over. Fuel is taken by the
-- printing of a number in decimal, with one round more than the number, since each round takes off
-- a digit, by the count of missed windows, with one round more than its cap, by the draining of an
-- SSE buffer, with one round more than its length, of which each round takes off two bytes or
-- more, and by the tool loop of a turn, with the 25 rounds of the code. The search for a cron time
-- has the bound of the code, 527040 minutes. The capacity of a ring is a variable; in the program
-- it is 2000 for runs and 1000 for deliveries.
--
-- Parameters. The clock, the cancel flag at each look of a turn, chrono's calendar and time zones,
-- fresh UUIDs (numbers or bytes that the caller gives), serde_json on run records, transcript
-- lines, tool arguments and the file of the schedules, the answers of models and tools, the
-- prices, `f64` in the quotas with the conversion from `u64`, lower case and the split into words
-- in the search, and the channels and sinks (numbers). Freshness of an id is a hypothesis where a
-- property needs it. The iteration order of a `HashMap` is the order of the association list.
--
-- Not modelled. Locks, but for the two of the delivery store, that of the schedule store in Reload
-- and those of the sessions: an operation that holds its lock throughout is one function, and one
-- that lets go of it is one function or step for each time it holds it. The exceptions are
-- enter_request of the tool router, which is its two parts, the entry and send_request, with
-- nothing between them, and the calls of the schedule store as functions, which change the map and
-- write the file in one: Reload has them apart. There a call is taken to run to its end; one that
-- is dropped during its write would let go of the lock before the write ends. The stream of a
-- model's response is a finite list. Event channels, logging, the writing of files, the semaphore
-- of a session (the order in which workers start), HTTP, WebSocket and the calls of language
-- models. PROJECT.json lists every part with the reason.
pub mod Prelude
pub mod Positions
pub mod Strings
pub mod Schedules
pub mod Transcripts
pub mod Sse
pub mod Providers
pub mod Turn
pub mod Quotas
pub mod Locks
pub mod Search
pub mod Runs
pub mod Nodes
pub mod Cancel
pub mod Tasks
pub mod ContextPack
pub mod Sessions
pub mod Compaction
pub mod Deliveries
pub mod Pruning
