-- ===== src/Lib.antt =====
-- Verification of the C++ client of CodisClient: a library that sends Redis commands to the proxies
-- of a Codis cluster over hiredis.
--
-- The parts and how they interact:
--
-- * BfdCodis (cpp/src/BfdCodis.cpp, BfdCodis.antt and its children) is what a user calls. Each
--   method takes the next proxy from RoundRobinCodisPool and calls the method of that name of its
--   client: `forward`. The clients are positions in a list, the memory that holds them.
--   BfdCodis/Async is its `mget2`. BfdCodis/Forwarding and BfdCodis/Requests hold the proofs, and
--   BfdCodis/Interface compares all methods with those of the clients.
-- * RoundRobin (cpp/src/RoundRobinCodisPool.cpp) holds the clients of the proxies that are
--   online. `get_proxy` is `GetProxy`; `node_info` is what a round of `GetProxyInfos` makes of
--   the data of a node, with JsonCpp as the record `Json`. RoundRobin/Turns and
--   RoundRobin/Addresses hold the proofs, and RoundRobin/Handing has `GetProxy` in several
--   threads under the mutex of the pool.
-- * Session (the rest of cpp/src/RoundRobinCodisPool.cpp) is the life of that pool: the
--   constructor (`new_round_robin`) and the destructor (`delete_round_robin`), `Init`,
--   `GetProxyInfos`, `ZkGet`, `InitProxyConns` and `proxy_watcher`. The state is the `BfdCodis`
--   with the memory of the clients, where `new` adds a position and `delete` empties one;
--   position 0 is `NULL`. Session/Memory and Session/Deletion are about that memory,
--   Session/Creation and Session/Installation about `InitProxyConns` (`Managed` is the
--   invariant), Session/Reading about `ZkGet`, Session/Watching about the constructor and the
--   watcher, Session/Startup about when the constructor returns, Session/Calls about one call of
--   a method, and Session/Steps about all states that calls of methods and of the watcher reach.
-- * Methods (the methods of `CodisClient` in cpp/src/CodisClient.cpp, a child for each group of
--   cpp/include/CodisClient.h) build a command, send it and read the reply. Methods/Interface
--   lists the methods as data. Methods/SizeLimit, Methods/Requests, Methods/Pairs, Methods/Tame
--   and Methods/Store, which has a server that stores values as the record `Server`, hold the
--   proofs.
-- * Client (the rest of that file) is `RedisCommand`: `redis_command` checks the length, puts the
--   business ID in front of the keys (KeyPrefix.antt), and `send` takes the read lock, borrows a
--   connection (`attempt`), sends, reconnects and sends again (`first_reply`, `retry`,
--   `second_reply`), and returns the connection (`finish`). Client/Answers follows two of the
--   runs to the end; Client/Outcomes covers all of them, with the lemmas of Client/Steps.
-- * Threads is `RedisCommand` again, cut into the steps of a thread: `Stage` is where a call
--   stands, `step` its next step, `run` the steps of several threads over one client in the order
--   of a schedule, a list of thread numbers. A call takes at most ten steps. Threads/Alone
--   compares the steps with `redis_command`, Threads/Holding says what a thread holds at each
--   stage, Threads/Safety, Threads/Progress and Threads/Race follow runs, Threads/Shutdown the
--   destructor after one. Threads/Lifetime has the destructor `~CodisClient`, and the end of the
--   object after it, among the steps of the threads: Lifetime/Closing is about calls that have
--   begun, Lifetime/Late about one that has not. Threads/Serial and its children compare a run
--   with a server that executes the commands one after the other, and that may lose replies: the
--   record `Server` of Threads/Server. Serial/Twice has a server that does.
-- * AsyncMget (`mget2` and `mget2Callback` of that file) sends over the asynchronous pool. Its
--   state adds to the client the requests that are allocated and the local variables whose
--   addresses they hold; the callback is a function of the reply and the position of its request.
--   AsyncMget/Dangling, AsyncMget/Failures and AsyncMget/Answered hold the proofs.
-- * ConnPool (cpp/src/RedisClientPool.cpp) is `RedisClientPool`; ConnPool/AsyncPool is its
--   asynchronous half. ConnPool/Ownership says who owns which connection, ConnPool/Reconnect what
--   `Reconnect` leaves behind, ConnPool/Reuse and ConnPool/AsyncReuse how connections are used
--   again, ConnPool/Deletion what the destructor does.
-- * ScopedLock (cpp/include/ScopedLock.h) marks the critical sections of the pools. `interleave`
--   is a run of threads under one mutex, a step of a section at a time, in the order of a
--   schedule; ScopedLock/Whole has the sections one after the other, ScopedLock/Steps and
--   ScopedLock/Atomic compare the two, and ScopedLock/Pool has `returnItem` as such a section.
-- * Command, Reply and Utils (cpp/src/Command.cpp, cpp/src/Reply.cpp, cpp/include/Utils.h) are
--   the data that go in and out, with the copy of a reply (Reply/Copy), the decimal texts
--   (Utils/Numbers) and `split` (Utils/Split). Utils/Clock is `TimeUtil`.
-- * Log (cpp/include/Log.h) is the function `Log`: as one step, with its proof in Log/Entries,
--   and as a section of several steps, `log_section` of Log/Section, that threads run under its
--   mutex; Log/Together has the proof. It writes to a file of its own only, and the other modules
--   leave its calls out.
--
-- hiredis is a parameter, the record `Hiredis` of Hiredis.antt: its world, which holds the contexts
-- and all that stands behind them, may do anything; Hiredis/Laws says which contexts a call makes
-- and frees, as its documentation has it. Stateful code is a function from a state, the object and
-- the world, to an outcome (Run.antt): it returns, it throws an exception, it ends the process, or
-- its behaviour is undefined, as where a context is used that is not allocated. ZooKeeper's
-- library, `malloc`, the event loop's allocation and the threads of the operating system are a
-- second parameter, the record `Environment`; a theorem says what it needs of it. The clock and the
-- files of the log are a third, the record `System`, with the laws of its files. Each critical
-- section of a mutex is one step of a call, except in the runs of ScopedLock. Examples.antt has a
-- small hiredis that satisfies the laws, and the children of Examples apply the theorems to
-- concrete states.
--
-- Numbers: `int` is an integer whose conversions from wider types keep 32 bits (`to_int`); the
-- counters of the pool are `size_t`, modulo 2 ^ 64; `++proxyIndex` is undefined beyond 2 ^ 31 - 1;
-- a `long` of `TimeUtil` does not overflow for the times that its theorem is about. The only fuel
-- is that of `decimal_loop`, which prints `n` with fuel `n + 1`; a number has at most as many
-- digits. The wait for the session makes at most 10000 rounds, as the code does. All other loops
-- follow a list.
--
-- Not modelled: the event loop, which decides when a callback runs; the interleaving of threads
-- inside another call than those of `RedisCommand`, `GetProxy` and `Log`, as of the watcher, and of
-- the steps of hiredis inside one of its calls; the exhaustion of memory in C++'s own code. The
-- files ae.c, ae_epoll.c, ae_select.c and zmalloc.c of cpp/src are copies from Redis, and the
-- clients in Java and Python are programs of their own.
pub mod Prelude
pub mod Utils
pub mod Reply
pub mod Command
pub mod Run
pub mod Hiredis
pub mod ConnPool
pub mod KeyPrefix
pub mod Client
pub mod Methods
pub mod RoundRobin
pub mod BfdCodis
pub mod Environment
pub mod System
pub mod Log
pub mod AsyncMget
pub mod ScopedLock
pub mod Threads
pub mod Session
pub mod Examples
