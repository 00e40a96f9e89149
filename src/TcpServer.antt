-- ===== src/TcpServer.antt =====
-- ModifiedMuduo/Acceptor.{h,cpp} and ModifiedMuduo/TcpServer.{h,cpp}: the acceptor that can be
-- switched off, and the server that switches it off when it has many connections.
-- `none` is a failed assertion. The sockets and the channels of muduo are seen through the calls
-- that reach them. The number of the next connection is an int, as its 32 bits: it overflows at
-- 2 ^ 31, and is taken to wrap around then.
pub mod Erase
pub mod Connections
pub mod Accepting
mod Tests
use enhanced_proxy.Common.{
  ℕ, ◌+◌, ◌%◌, ◌^◌, Bool, true, false, ◌&&◌, Option, none, some, List, [], ◌∷◌, ltb, ◌==◌,
  if◌then◌else◌, length,
}
use enhanced_proxy.EventLoopThreadPool
use enhanced_proxy.EventLoopThreadPool.{EventLoopThreadPool, LoopThread, new_pool, get_next_loop}

-- `start_listen_time` is `none` for -1. `socket_listens` says that `listen` of the socket was
-- called, and `reading` that the channel is watched for reading.
pub record Acceptor : Type 0 where
  pub listenning : Bool
  pub start_listen_time : Option ℕ
  pub socket_listens : Bool
  pub reading : Bool

abbrev pub new_acceptor : Acceptor
new_acceptor = record {
  listenning = false;
  start_listen_time = none;
  socket_listens = false;
  reading = false;
}

-- `listen`, at the time `now`
unfoldable pub listen : ℕ → Acceptor → Acceptor
listen now a = record a {
  listenning = true;
  socket_listens = elim a.start_listen_time [ none ↦ true | some t ↦ a.socket_listens ];
  reading = true;
  start_listen_time = some now;
}

unfoldable pub enable_listen : Acceptor → Acceptor
enable_listen a = record a { listenning = true; reading = true }

unfoldable pub disable_listen : Acceptor → Acceptor
disable_listen a = record a { listenning = false; reading = false }

-- A connection is its number, which ends its name, and its I/O loop. `notify` is the member
-- `notifyOtherWorkerToListen` by the descriptor that it is bound to, or `none` while it is empty.
-- No constructor sets `start_listen_time`: it begins as the memory has it.
pub record TcpServer : Type 0 where
  pub acceptor : Acceptor
  pub pool : EventLoopThreadPool
  pub started : Bool
  pub next_conn_id : ℕ
  pub connections : List (ℕ × ℕ)
  pub notify : Option ℕ
  pub start_listen_time : ℕ

unfoldable pub new_server : ℕ → ℕ → TcpServer
new_server loop uninitialised = record {
  acceptor = new_acceptor;
  pool = new_pool loop;
  started = false;
  next_conn_id = 1;
  connections = [];
  notify = none;
  start_listen_time = uninitialised;
}

abbrev pub max_connections_num : ℕ
max_connections_num = 512

-- `setThreadNum`; the assertion holds for every natural number.
unfoldable pub set_thread_num : ℕ → TcpServer → TcpServer
set_thread_num n s = record s { pool = EventLoopThreadPool.set_thread_num n s.pool }

-- `start` at the time `now`, with the threads that the pool makes.
unfoldable pub start : ℕ → (ℕ → LoopThread) → TcpServer → Option TcpServer
unfolding listen
start now threads s =
    if s.started then some s else elim (EventLoopThreadPool.start threads s.pool) [
      | none ↦ none
      | some pool ↦
          if s.acceptor.listenning
          then none
          else some (record s { started = true; pool = pool; acceptor = listen now s.acceptor })
    ]

unfoldable pub acceptor_scheduling_handler : ℕ → TcpServer → TcpServer
unfolding enable_listen disable_listen
acceptor_scheduling_handler now s =
    if s.acceptor.listenning
    then record s { acceptor = disable_listen s.acceptor }
    else record s { acceptor = enable_listen s.acceptor; start_listen_time = now }

-- How `newConnection` ends: nothing more, a call of the handler, or the call of an empty
-- `std::function`, which throws.
pub data Notice : Type 0 where
  quiet : Notice
  notified : ℕ → Notice
  bad_function_call : Notice

abbrev pub call : Option ℕ → Notice
call none = bad_function_call
call (some fd) = notified fd

-- Whether `newConnection` gives up listening, in 64-bit arithmetic that does not overflow.
unfoldable pub is_crowded : ℕ → TcpServer → Bool
is_crowded now s =
    ltb max_connections_num (length s.connections) && ltb (s.start_listen_time + 10) now

unfoldable pub balance : ℕ → TcpServer → Notice × TcpServer
unfolding is_crowded acceptor_scheduling_handler
balance now s =
    if is_crowded now s then (call s.notify, acceptor_scheduling_handler now s) else (quiet, s)

-- `newConnection` at the time `now`.
unfoldable pub new_connection : ℕ → TcpServer → Option (Notice × TcpServer)
unfolding balance
new_connection now s = elim (get_next_loop s.pool) [
  | none ↦ none
  | some (io_loop, pool) ↦ some (
      balance now (record s {
        pool = pool;
        next_conn_id = (s.next_conn_id + 1) % 2 ^ 32;
        connections = (s.next_conn_id, io_loop) ∷ s.connections;
      }))
]

-- `connections_.erase` on one key.
unfoldable pub erase_connection : ℕ → List (ℕ × ℕ) → Option (List (ℕ × ℕ))
erase_connection id [] = none
erase_connection id ((k, io_loop) ∷ rest) =
    let rest' = erase_connection id rest in
    if k == id then some rest else elim rest' [ none ↦ none | some r ↦ some ((k, io_loop) ∷ r) ]

-- `removeConnectionInLoop` for the connection of the given number; its assertion is `none`.
unfoldable pub remove_connection_in_loop : ℕ → TcpServer → Option TcpServer
unfolding erase_connection
remove_connection_in_loop id s = elim (erase_connection id s.connections) [
  | none ↦ none
  | some rest ↦ some (record s { connections = rest })
]

-- `setSchedulCallback`
unfoldable pub set_schedul_callback : ℕ → TcpServer → TcpServer
set_schedul_callback fd s = record s { notify = some fd }
