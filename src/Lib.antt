-- ===== src/Lib.antt =====
-- Verification library of the proxy EnhancedProxy.
--
-- The program is a caching HTTP proxy. A master process forks workers, and each of them has a TCP
-- server on the same port. A mutex in shared memory decides which worker listens; a worker with
-- many connections gives the mutex up and wakes the next one through an eventfd. A server hands
-- its connections to I/O loops in turn. An I/O loop puts requests as tasks into a circular queue,
-- from which the threads of a pool take them. A task parses the request, looks its url up in a
-- cache with two levels, memory and Redis, and otherwise forwards it to the web server.
--
-- Files, by the part of the repository that they model:
--
-- - Common: shared names, lists over the native numbers, and texts as lists of code points.
-- - CircleQueue: ThreadPool/CircleQueue.{h,cpp}; `try_write_space`, `try_read_space_by_cv`, `read`
--   and `write` are the functions of those names. Its child modules have the ordered set of
--   ranges (Ranges) and what a grant gives (Grants).
-- - ThreadPool: `Producer::write` (`produce`) and `Consumer::read` (`consume`) of
--   ThreadPool/Producer.h and ThreadPool/Consumer.h, and the step relation of their threads.
--   Ownership has the invariant on who holds an index, Safety and Refusal its consequences, and
--   Calls the whole calls as runs of steps. Loop is the loop of a pool thread,
--   ThreadPool/MyThreadPool.cpp; Filling and Batches have how its tasks arrive.
-- - ProcessMutex: Process/ProcessMutex.h, and processes that call it in any order.
-- - Lru: cache/LRU.h. Nodes and Valid have the list with its index, Recency the abstract list,
--   Refine the refinement, Copies the copy constructor, and Reads the reads after a `put`. Gets has
--   what a `get` leaves, and Stores an entry through all operations.
-- - HttpContext: Http/_HttpContext.{h,cpp}. Scan and Rounds have the parts of the loop, Total its
--   end, Complete printed requests, Stable longer buffers, and Pieces the parts of a request. Words
--   and Rest read an accepted buffer back, for Sound, and Announced has the length that headers
--   announce.
-- - Redis: Cache/Redis.h over the parameter `Hiredis`, the two calls of hiredis that reach the
--   server. A `Session` counts what is allocated and lists the commands.
-- - MemoryCache and Cache: cache/memoryCache.h and cache/cache.h. Snapshots and Moves have the single
--   operations; in Isolation and Lasting other threads move while a read is under way or after a
--   write.
-- - EventLoopThread: ModifiedMuduo/EventLoopThread.{h,cpp}. Handshake has the moves of the thread and
--   of the caller of `startLoop` with their invariant, and Returns what `startLoop` returns.
-- - EventLoopThreadPool: ModifiedMuduo/EventLoopThreadPool.{h,cpp}, with the producer pointers of its
--   threads. RoundRobin has the choice of loops, and Starts the two overloads of `start`.
-- - TcpServer: the listening, the connection table and the load balance of
--   ModifiedMuduo/Acceptor.{h,cpp} and ModifiedMuduo/TcpServer.{h,cpp}. Connections has the table
--   of connections, Erase the lemmas on its `erase`, and Accepting `handleRead` over the parameter
--   `Os`.
-- - ProxyServer: the constructor, `start`, `enableListen`, `setHandler` and `setIOThreadNum` of
--   ProxyServer/ProxyServer.{h,cpp}, and `start` of ThreadPool/MyThreadPool.h.
-- - WorkerProcess: Process/WorkerProcess.{h,cpp}, and the workers as a system whose steps are their
--   handlers in any order. Moves has what a handler does, Protocol the invariant, and Handover the
--   pass from one worker to the next.
-- - MasterProcess: `start`, `notify`, `checkWorkerStatus` and `checkWorkerExit` of
--   Process/MasterProcess.{h,cpp}. Workers has the table that `start` makes, Exits what the master
--   does with it, and Signals its timer, `signalProcessInit` and `signalHandlers`.
-- - Muduo: the calls of muduo that the two next files make, as a log, and the parameter `Net`: what
--   muduo and the peers answer, which may depend on the whole log.
-- - Tunnel: ProxyServer/Tunnel.h. Flow has the back pressure between the two connections, and
--   Responses what becomes of the web server's bytes.
-- - Relay: `onServerConnection`, `onServerMessage` and `solveOnMessage` of ProxyServer/ProxyServer.cpp.
--   Rounds and Requests have one round of the loop, Replies whole calls, Failures the ways in which a
--   call fails, Waiting, Progress and Ends its end, Routing and Events the map of tunnels through all
--   callbacks, Threads the same with pool threads that interleave, Calls a whole call among them,
--   Clients and Others what a call leaves of another client, and Pipelines a buffer with many requests.
-- - SystemChecker: Process/SystemChecker.h. Lines has the lines that `getMemoryToInt` reads, and Names
--   the name of the file.
--
-- The loop of a pool thread leaves open what a task is.
--
-- Tests in each part have runs on small inputs.
--
-- State is passed explicitly. `none` is a fault, a failed assertion or a wait, as each file says.
-- Numbers are natural numbers; where the source wraps around (the time difference and the size in
-- cache/LRU.h, the length that the parser returns, the ints that count connections and calls of
-- `notify`), the wrap-around is written out. The loop of the
-- parser has the length of the buffer plus 3 as fuel, which is enough: each round but three takes
-- at least the two bytes of a line end. The steps of the queue, of the mutex and of the workers
-- are atomic where the source holds a mutex or uses one compare-and-swap.
--
-- The fuel of `solveOnMessage` is its caller's. If a tunnel connects within `delay` looks at the
-- client and no server closes between two looks, `delay + 2` rounds for each byte of the buffer and
-- `delay + 2` more are enough.
--
-- Not modelled: threads that interleave inside one move of Relay/Threads; a `get` of the memory cache
-- that meets another access to its list (there is no lock for either); the parts of muduo that are
-- used unchanged; logging; destructors other than that of EventLoopThread; and Process/TestProcess, a test program.
pub mod Common
pub mod CircleQueue
pub mod ThreadPool
pub mod ProcessMutex
pub mod Lru
pub mod HttpContext
pub mod Redis
pub mod MemoryCache
pub mod Cache
pub mod EventLoopThread
pub mod EventLoopThreadPool
pub mod TcpServer
pub mod ProxyServer
pub mod WorkerProcess
pub mod MasterProcess
pub mod Muduo
pub mod Tunnel
pub mod Relay
pub mod SystemChecker
