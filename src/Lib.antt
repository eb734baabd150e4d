-- ===== src/Lib.antt =====
-- Verification of the programs of this repository.
--
-- Each folder stepNN_... is a program of its own. Modelled are the state machine server of
-- step11_ws_state_machine/code/src/main.rs, the store of trades of
-- step12_ws_feed/code/src/main.rs, the store of checked sums of step07_redb/code/src/main.rs with
-- the queue of its database of step07_redb/code/src/db.rs, the helpers of lib/http.rs, the
-- generator of diagrams of step03_mermaid/code/src/main.rs, the outline of
-- step04_pest/code/src/main.rs, and the broadcast of step10_websocket/code/src/main.rs.
--
-- The state machine (Maroon). A request becomes a task: an explicit stack of states, return
-- addresses and values, and a heap. `global_step` executes one state. Maroon/Types has the data,
-- Maroon/Format the texts (a test build and a release build print differently), Maroon/GlobalStep
-- `global_step` with one function per arm of its match, and Maroon/TaskStep what
-- `execute_pending_operations_inner` does around it: `debug_validate_maroon_stack`, taking the
-- state and its variables from the stack, and applying the step's result. A vector's end is the
-- head of the list, so that `push` and `pop` are at the head; a vector that a step returns keeps
-- its order. Maroon/TaskStep/Validation has the frames of a stack. Maroon/Runs is the relation of
-- a task, the texts that it writes and the time of its end; Maroon/Tasks has one file per kind of
-- task, with the description that the code is held against.
--
-- The runtime (Runtime). Runtime/Defs has `MaroonRuntime`, `AppState::schedule` and the loop of
-- `execute_pending_operations_inner`, Runtime/Handlers the four handlers that schedule a task. The
-- standard library's `BinaryHeap` is the interface of Runtime/BinaryHeap/Defs (what the standard
-- library promises of `push`, `peek` and `pop`, with no order between equal timestamps);
-- Runtime/BinaryHeap/ListHeap fills it with a list. The standard library's `HashMap` is a list of
-- entries. `schedule` and each round of the loop hold the lock on the runtime, so each is one
-- step, and the steps interleave in any order (Runtime/System). Runtime/Live has the invariant,
-- Runtime/Rounds and Runtime/Loop a round and the loop under it, Runtime/Serve the handlers and
-- the loop together, Runtime/Scenarios the program's own tests, as lists of their calls and
-- assertions.
--
-- The store of trades (Feed). Store/Table is the interface of a table of the redb database, a map;
-- Store/ListTable fills it with a list. Feed/Services has what else the program takes from its
-- libraries: a JSON library that reads what it wrote, and how a JSON number prints. Feed/Defs has
-- the requests to the database, each one transaction, and the part of `handle_ws_message` that
-- stores the trades of a message; Feed/Consumer `handle_ws_message` whole, with the publication
-- through Redis, and the loop that reads the messages of a connection; Feed/Spec the abstract
-- view, the list of all trades; Feed/Storing and Feed/Messages a message under that view,
-- Feed/Paging the requests that read trades. The requests run one after the other, as the thread
-- of the database executes them, and only the task that reads the feed writes. Feed/Handling has
-- one message, Feed/Reading the loop, Feed/Redis the publication, and Feed/Connections,
-- Feed/Reconnecting the task that connects again and again. What an attempt to connect to Redis
-- would come to is an input of each round. In these files the storage does not fail.
--
-- The store of checked sums (Sums). Sums/Defs has the requests to the database and `sums_handler`,
-- over the same tables; Sums/Journal has the invariant of the journal, and Sums/Handler one
-- request, and any number of them one after the other, under that invariant. Sums/Halves parts
-- `sums_handler` at its second wait for the database, and Sums/Interleaved has the states that the
-- parts of many requests reach in any order. Sums/Pages has the handlers that answer with a page.
-- A panic in the handler is marked by a value of the replies, `crashed`, since it ends only its
-- request, whose client gets no response; a panic in the thread of the database is a panic of the
-- whole.
--
-- Failures of the storage (Store). Every call of redb can fail, which ends a request by `?`.
-- Store/Transaction has the database as a parameter, with what it documents (nothing but a commit
-- that succeeds changes what is committed, and reading a table that was never created fails), and
-- the monad of its calls; Store/Atomic has the calls of a run up to the first one that fails, and
-- the rules for what holds however a request ends, Store/AllOrNothing the contract of a request,
-- and Store/FaultList a database for the examples whose calls fail as a list says.
-- Sums/Transactions and Feed/Transactions have the requests
-- again, call by call, and Sums/Atomicity and Feed/Atomicity hold them against the requests on a
-- storage that does not fail. Sums/Unreliable has `sums_handler` over such requests, with
-- Sums/Losses; and Feed/Unreliable a message of trades, with Feed/Slots (the abstract view, in
-- which an index may have no trade), Feed/Rounds, Feed/Gaps, Feed/Following and Feed/GapReading.
-- Feed/Creation has the tables that `main` creates, and Feed/Routes the two routes that read
-- trades.
--
-- The queue of the database (Async) of step07_redb/code/src/db.rs, which step12 has again. The
-- bounded channel of the async runtime is the interface of Async/Channel; Async/ListChannel fills
-- it with a list. Async/Defs has `AsyncRedb`, generic in the database and the types of the
-- responses: `send_request` and `receive` are `run` on the two sides of its waits, and `serve_one`
-- is a round of the thread. Async/Serial has the abstract view, requests that run one after the
-- other; Async/Answers the relation of the states that senders and the thread reach in any order,
-- and what a caller gets. Sums/Requests has the requests of step07 as those of the queue.
--
-- The helpers for requests (Http) of lib/http.rs: Http/Str has the operations on `str`, on code
-- points, Http/Defs `json_or_html`, `markdown_or_html` and the test of the header `Accept`;
-- Http/Ranges has the header as a list of media ranges, with its text. The web framework's header
-- map, the templates, and the rendering and cleaning of Markdown are the parameter `Web`.
--
-- The generator of diagrams (Mermaid) of step03_mermaid/code/src/main.rs: Mermaid/Defs has the
-- canvas, with the borrow of its `RefCell`, its participants and `main`; Mermaid/Diagram the
-- diagram as events, and what a diagram may say; Mermaid/Clients the relation of the calls of a
-- canvas. An arrow of these joins participants of the same canvas; the code also takes one of
-- another canvas, and prints the number that it has there.
--
-- The outline of a parsed text (Outline) of step04_pest/code/src/main.rs: Outline/Defs has
-- `traverse`, over the pairs of the parser, whose rules are a parameter, with the text that it
-- prints for them; Outline/Lines and Outline/Reading read this text back.
--
-- The broadcast to websockets (Broadcast) of step10_websocket/code/src/main.rs: Broadcast/Defs has
-- the loop that sends the values of a channel to a websocket, step by step, with the watch channel
-- of the async runtime as a parameter; Broadcast/Order the relation of the states that its steps
-- and new values reach in any order.
--
-- The Ackermann function (Ackermann) of step11_ws_state_machine/code/src/main.rs: Ackermann/Defs
-- has `ackermann` and `async_ack`, whose fuel bounds the depth of the recursion (`ack_depth` is
-- enough), and Ackermann/Correct the function that both are held against.
--
-- Numbers (Machine, Int, Text). A `u64` is a natural number below 2^64. Arithmetic is checked or
-- wraps around, as the build's overflow checks say; a panic is a value of `Outcome`. The loop
-- `divisor_from` is structural. The loop of the runtime has fuel, one unit per round: the steps of
-- the tasks that are left, and one more, are enough. The timer is a function of the round.
-- Text/Reading reads a decimal text back.
--
-- Not modelled: the routes and websockets of the web framework, the clock, the background task
-- that calls the loop, the dump of the state, and the programs that only call a library or do I/O.
-- The writer of a task is known by a number; that a write fails is ignored, as the code ignores
-- it. Of the feed is left out how long it pauses between two connections, and of its failures of
-- the storage the publication and the loops around a message.
pub mod Prelude
pub mod Machine
pub mod Text
pub mod Maroon
pub mod Mermaid
pub mod Outline
pub mod Runtime
pub mod Broadcast
pub mod Feed
pub mod Store
pub mod Sums
pub mod Ackermann
pub mod Int
pub mod Async
pub mod Http
