-- ===== src/WorkerProcess.antt =====
-- Process/WorkerProcess.{h,cpp}: a worker, and the workers that hand the listening socket round.
pub mod Handover
pub mod Moves
pub mod Protocol
mod Tests
use enhanced_proxy.Common.{
  ℕ, ◌+◌, ◌%◌, ◌≡◌, Bool, true, false, Option, none, some, List, [], ◌∷◌, get_elem?, update,
}
use enhanced_proxy.EventLoopThreadPool.{LoopThread}
use enhanced_proxy.ProcessMutex.{unlock}
use enhanced_proxy.TcpServer.{
  TcpServer, Notice, quiet, notified, bad_function_call, new_connection, remove_connection_in_loop,
}
use enhanced_proxy.ProxyServer
use enhanced_proxy.ProxyServer.{ProxyServer, new_proxy_server, set_handler, set_io_thread_num}

-- The shared memory: the byte of the mutex, and the eventfds that the master has put there, of
-- which the mapping of a worker holds `process_num - 1`. `written` are the values written to
-- eventfds, the last one first.
pub record Shared : Type 0 where
  pub byte : ℕ
  pub event_fds : List ℕ
  pub written : List (ℕ × ℕ)

pub record Worker : Type 0 where
  pub shm_id : ℕ
  pub process_num : ℕ
  pub server : ProxyServer

-- The members of a new worker, where the memory has `owner` false.
unfoldable pub new_worker : ℕ → ℕ → ℕ → ℕ → Worker
unfolding new_proxy_server
new_worker shm_id process_num loop uninitialised = record {
  shm_id = shm_id;
  process_num = process_num;
  server = new_proxy_server loop uninitialised;
}

-- The call `server.start()`; `none` is a failed assertion.
unfoldable pub start_server : ℕ → (ℕ → LoopThread) → Shared → Worker → Option (Shared × Worker)
unfolding ProxyServer.start
start_server now threads m w = elim (ProxyServer.start now threads m.byte w.server) [
  | none ↦ none
  | some (byte, server) ↦ some (record m { byte = byte }, record w { server = server })
]

-- `start` of a worker, as far as its server is concerned, up to the call of `loop`.
unfoldable pub start : ℕ → (ℕ → LoopThread) → Shared → Worker → Option (Shared × Worker)
unfolding set_io_thread_num start_server
start now threads m w =
    start_server now threads m (record w { server = set_io_thread_num 2 w.server })

-- The read of the next eventfd in `EventHandler`; `none` is a read behind the mapping.
unfoldable pub next_event_fd : Shared → Worker → Option ℕ
next_event_fd m w = get_elem? m.event_fds ((w.shm_id + 1) % w.process_num)

-- `EventHandler` behind its `read`, which is taken to succeed.
unfoldable pub event_handler : ℕ → (ℕ → LoopThread) → Shared → Worker → Option (Shared × Worker)
unfolding next_event_fd set_handler start_server
event_handler now threads m w = elim (next_event_fd m w) [
  | none ↦ none
  | some fd ↦ start_server now threads m (record w { server = set_handler fd w.server })
]

-- `acceptorScheduling`; `none` is a failed assertion of `unlock`.
unfoldable pub acceptor_scheduling : ℕ → Shared → Worker → Option (Shared × Worker)
unfolding unlock
acceptor_scheduling event_fd m w = elim (unlock m.byte w.server.owner) [
  | none ↦ none
  | some (byte, owner) ↦ some (
    record m { byte = byte; written = (event_fd, w.shm_id) ∷ m.written },
    record w { server = record w.server { owner = owner } },
  )
]

-- The callback at the end of `newConnection`. A `bad_function_call` leaves the loop of the worker,
-- which ends it.
unfoldable pub on_notice : Notice → Shared → Worker → Option (Shared × Worker)
unfolding acceptor_scheduling
on_notice quiet m w = some (m, w)
on_notice (notified fd) m w = acceptor_scheduling fd m w
on_notice bad_function_call m w = none

-- `newConnection` of a worker's server, with the handler that the worker has set.
unfoldable pub accept : ℕ → Shared → Worker → Option (Shared × Worker)
unfolding on_notice
accept now m w = elim (new_connection now w.server.server) [
  | none ↦ none
  | some (notice, server) ↦
      on_notice notice m (record w { server = record w.server { server = server } })
]

-- The end of a connection of a worker's server.
unfoldable pub close : ℕ → Worker → Option Worker
close id w = elim (remove_connection_in_loop id w.server.server) [
  | none ↦ none
  | some server ↦ some (record w { server = record w.server { server = server } })
]

pub record System : Type 0 where
  pub shared : Shared
  pub worker : ℕ → Worker

abbrev pub after : System → ℕ → Shared × Worker → System
after s i (m, w) = record { shared = m; worker = update s.worker i w }

-- The handlers of the workers in any order. Each of them reaches the shared byte once, so they
-- are taken as one step each. A server accepts only while its channel is watched. Any process may
-- end and be replaced.
pub data Step (s : System) : System → Type 0 where
  starts :
      (i now : ℕ) (threads : ℕ → LoopThread) {r : Shared × Worker}
      → start now threads s.shared (s.worker i) ≡ some r
      → Step s (after s i r)
  wakes :
      (i now : ℕ) (threads : ℕ → LoopThread) {r : Shared × Worker}
      → event_handler now threads s.shared (s.worker i) ≡ some r
      → Step s (after s i r)
  accepts :
      (i now : ℕ) {r : Shared × Worker}
      → (s.worker i).server.server.acceptor.reading ≡ true
      → accept now s.shared (s.worker i) ≡ some r
      → Step s (after s i r)
  closes :
      (i id : ℕ) {w : Worker} → close id (s.worker i) ≡ some w → Step s (after s i (s.shared, w))
  restarts :
      (i process_num loop uninitialised : ℕ)
      → Step s (after s i (s.shared, new_worker i process_num loop uninitialised))

pub data Steps (s : System) : System → Type 0 where
  here : Steps s s
  next : {t u : System} → Steps s t → Step t u → Steps s u

-- What the master leaves: a free mutex and new workers.
unfoldable pub initial : List ℕ → ℕ → (ℕ → ℕ) → System
unfolding new_worker
initial event_fds process_num memory = record {
  shared = record { byte = 0; event_fds = event_fds; written = [] };
  worker = λ i. new_worker i process_num i (memory i);
}
