-- ===== src/Lib.antt =====
-- game-net-core is a C++ foundation for game servers: an event-driven TCP core, and on top of it a
-- framing protocol, player sessions, a game logic loop and broadcasts. This library models the parts
-- that carry its own logic and proves what makes them correct.
--
-- Parts, and how they interact:
-- - A connection's bytes go into a packet framer, which cuts them into frames.
-- - The session manager ties players to transport endpoints. Each session hands out bindings, copies
--   of which share a cell with it: revoking the cell makes all copies stale. Idle sessions expire
--   through a deadline queue.
-- - Commands carry a binding into the logic loop's bounded queue; the loop drops stale ones, and takes
--   a batch of commands each tick.
-- - The core bounds what it buffers: a budget for all unsent bytes, shared by the connections of
--   several threads, and read backpressure with two marks for each connection. A connection's unread
--   and unsent bytes stand in buffers, whose storage grows and is trimmed.
-- - An event loop runs timers from a queue; their callbacks may add and cancel timers.
-- - The router sorts a broadcast's targets by the loops that own them; the dispatcher reserves memory
--   and posts tasks to these loops, and each task sends to its endpoints.
--
-- Files and sources (paths from the repository's root; headers stand below include/gamenet):
-- - Prelude: Boolean tests over the native numbers, lists, 64-bit words, association lists.
-- - Protocol.Ring, Protocol.Framer: src/protocol/PacketFramer.cc. The ring is `storage_`; `push`,
--   `encode`, `reset`, `trim_retained_capacity` are the methods; `append_bytes`, `grow`, `round`,
--   `decode` and `finish` the parts of `push`.
-- - GameLogic.CommandQueue: src/game_logic/GameCommandQueue.cc, one step for each call under its mutex.
-- - GameLogic.LogicLoop: src/game_logic/LogicLoop.cc. The handler and the output callback may call
--   back into the loop: an `Action` is what happens while one runs.
-- - Session.Binding, Session.Manager: src/game_session/PlayerSession.cc and SessionManager.cc. A
--   shared pointer to a session is its id, looked up in a heap; exceptions are `none`.
-- - Core.DeadlineQueue: src/core/net/DeadlineQueue.cc.
-- - Core.OutputBudget: src/core/net/TcpOutputMemoryBudget.cc, a step for each atomic access, and
--   runs of any number of threads in any order.
-- - Core.Backpressure: src/core/net/detail/ConnectionBackpressureController.cc.
-- - Core.Buffer: src/core/net/Buffer.cc.
-- - Core.TimerQueue: src/core/net/TimerQueue.cc. A shared pointer to a timer is its sequence number,
--   looked up in a heap; the callbacks are a parameter that answers with the calls they make. Other
--   threads' calls draw a number or are posted, and run as steps of their own.
-- - Broadcast.Reservations, Broadcast.Progress, Broadcast.Dispatcher, Broadcast.Delivery:
--   src/broadcast/BroadcastDispatcher.cc; `reserve` and `give_back` are the methods of `AtomicLimit`,
--   `try_reserve` and `release` those of `State`, `run_task` the posted function.
-- - Broadcast.Router: src/broadcast/BroadcastRouter.cc. The targets' sessions and endpoints are values
--   read when the router reads them.
--
-- Choices:
-- - Sizes and counters are numbers; where the source can wrap around, `add64` and `sub64` do. Bytes are
--   numbers below 256, time points count clock ticks, and the clock is an argument. A vector of char is
--   shorter than 2 ^ 63.
-- - The capacity that an allocation gives, and whether trimming can allocate, are parameters of the
--   framer. An append whose allocation throws is not modelled.
-- - So are the allocations of a buffer, which may fail, and the answer of `readv`; a chunk's post, an
--   endpoint's `send` and `isOpen`, and another thread's shutdown are parameters of the dispatcher.
-- - A call of the dispatcher's reservations is one step, and a posted task runs after the dispatch.
-- - Fuel: growing storage takes the required size as fuel, since each round adds one byte at least;
--   decoding takes one more than the number of buffered bytes, since each round but the last consumes
--   four at least; the chunks of a dispatch take the number of endpoints, since each holds one at
--   least.
--
-- Not modelled: sockets, pollers, threads, event loops and connections, whose code is mostly calls of
-- the operating system; endpoints; the calls that post work to the session manager's loop; logging and
-- metrics; tasks of the dispatcher that run while it dispatches.
pub mod Prelude
pub mod Protocol
pub mod GameLogic
pub mod Session
pub mod Core
pub mod Broadcast
