-- ===== src/WorkerProcess/Handover.antt =====
-- A crowded worker hands the listening socket to the next one.
use native.Mathlib.Nat.{mod-eq_of_lt}
use enhanced_proxy.Common.{
  ◌%◌, ◌^◌, get_elem?, [], ℕ, ◌≡◌, ◌≤◌, ◌<◌, refl, ap, true, false, none, some, arith, inl, inr,
  ◌∙◌, Bool-cases, length, ◌%◌, ◌+◌, List, ◌∷◌,
}
use enhanced_proxy.EventLoopThreadPool
use enhanced_proxy.TcpServer
use enhanced_proxy.EventLoopThreadPool.{EventLoopThreadPool, LoopThread, add_threads, get_next_loop}
use enhanced_proxy.ProcessMutex.{try_lock, unlock}
use enhanced_proxy.TcpServer.{
  listen, TcpServer, new_connection, balance, is_crowded, acceptor_scheduling_handler,
  disable_listen, enable_listen, set_schedul_callback,
}
use enhanced_proxy.ProxyServer
use enhanced_proxy.ProxyServer.{ProxyServer, set_handler, start_threads, try_listen}
use enhanced_proxy.WorkerProcess.{
  Shared, Worker, accept, on_notice, acceptor_scheduling, start_server, event_handler,
  next_event_fd,
}

-- A worker that listens, owns the mutex and has been woken before, so that its handler writes to
-- the descriptor `fd`.
pub record IsListening (m : Shared) (w : Worker) (fd : ℕ) : Type 0 where
  pub listenning : w.server.server.acceptor.listenning ≡ true
  pub owner : w.server.owner ≡ true
  pub byte : m.byte ≡ 1
  pub notify : w.server.server.notify ≡ some fd

-- The worker that has accepted one connection too many.
abbrev retired : ℕ → Worker → ℕ × EventLoopThreadPool → Worker
retired now w (io_loop, pool) =
    let s = w.server.server in
    record w {
      server = record w.server {
        owner = false;
        server = acceptor_scheduling_handler now (record s {
          pool = pool;
          next_conn_id = (s.next_conn_id + 1) % 2 ^ 32;
          connections = (s.next_conn_id, io_loop) ∷ s.connections;
        });
      };
    }

gives-up :
    (now : ℕ) (m : Shared) (w : Worker) (fd : ℕ) (next : _)
    → IsListening m w fd
    → get_next_loop w.server.server.pool ≡ some next
    → 512 ≤ length w.server.server.connections
    → w.server.server.start_listen_time + 10 < now
    → accept now m w
      ≡ some (record m { byte = 0; written = (fd, w.shm_id) ∷ m.written }, retired now w next)
unfolding accept new_connection balance is_crowded acceptor_scheduling_handler disable_listen
    on_notice acceptor_scheduling unlock
gives-up now m w fd next l some_loop many late =
    ground (arith, l.listenning, l.owner, l.byte, l.notify)

-- A worker that does not listen, before its first start or after it.
pub record IsIdle (p : ProxyServer) : Type 0 where
  pub listenning : p.server.acceptor.listenning ≡ false
  pub owner : p.owner ≡ false
  pub started : p.server.started ≡ p.is_start
  pub pool : p.server.pool.started ≡ p.is_start

Enables : ℕ → (ℕ → LoopThread) → ProxyServer → Type 0
Enables now threads p =
    (q : ProxyServer) × (ProxyServer.enable_listen now threads p ≡ some q)
    × (q.server.acceptor.listenning ≡ true)
    × (q.owner ≡ p.owner)
    × (q.server.notify ≡ p.server.notify)

Enables-first :
    (now : ℕ) (threads : _) (p : ProxyServer)
    → p.is_start ≡ false
    → p.server.acceptor.listenning ≡ false
    → p.server.started ≡ false
    → p.server.pool.started ≡ false
    → Enables now threads p
unfolding Enables ProxyServer.enable_listen TcpServer.start EventLoopThreadPool.start listen
Enables-first now threads p first off started pool = (
  record p {
    is_start = true;
    server = record p.server {
      started = true;
      pool =
          add_threads p.server.pool.num_threads threads (record p.server.pool { started = true });
      acceptor = listen now p.server.acceptor;
    };
  },
  ground (arith, first, off, started, pool),
  refl,
  refl,
  refl,
)

Enables-again :
    (now : ℕ) (threads : _) (p : ProxyServer)
    → p.is_start ≡ true
    → p.server.acceptor.listenning ≡ false
    → Enables now threads p
unfolding Enables ProxyServer.enable_listen acceptor_scheduling_handler enable_listen
Enables-again now threads p again off = (
  record p {
    server = record p.server {
      acceptor = enable_listen p.server.acceptor;
      start_listen_time = now;
    };
  },
  ground (arith, again, off),
  refl,
  refl,
  refl,
)

Enables-now :
    (now : ℕ) (threads : _) (p : ProxyServer)
    → p.server.acceptor.listenning ≡ false
    → p.server.started ≡ p.is_start
    → p.server.pool.started ≡ p.is_start
    → Enables now threads p
Enables-now now threads p off started pool = elim (Bool-cases p.is_start) [
  | inl again ↦ Enables-again now threads p again off
  | inr first ↦ Enables-first now threads p first off (started ∙ first) (pool ∙ first)
]

takes-over :
    (now : ℕ) (threads : _) (m : Shared) (v : Worker) (fd : ℕ)
    → IsIdle v.server
    → m.byte ≡ 0
    → next_event_fd m v ≡ some fd
    → (r : Shared × Worker) × (event_handler now threads m v ≡ some r) × IsListening r.0 r.1 fd
unfolding Enables event_handler start_server ProxyServer.start start_threads try_listen try_lock
    set_handler set_schedul_callback
takes-over now threads m v fd idle free slot =
    let p : ProxyServer = record (start_threads (set_handler fd v.server)) { owner = true } in
    let (q, e, on, owner, notify) =
      Enables-now now threads p idle.listenning idle.started idle.pool in
    (
      (record m { byte = 1 }, record v { server = q }),
      ground (arith, free, slot, e),
      record { listenning = on; owner = owner; byte = refl; notify = notify },
    )

-- A worker that listens, owns the mutex and has been woken before gets its 513th connection more
-- than 10 seconds after its time stamp, while its pool has a loop for it. Then it stops listening,
-- frees the mutex, and writes its index to the eventfd that its handler is bound to. If a worker
-- that does not listen, before its first start or after it, and whose next slot is filled is woken
-- after that, it listens and owns the mutex, and its handler is bound to the eventfd of that slot.
pub handover :
    (now later : ℕ) (threads : ℕ → LoopThread) (m : Shared) (w v : Worker) (fd fd' : ℕ)
    (next : ℕ × EventLoopThreadPool)
    → IsListening m w fd
    → get_next_loop w.server.server.pool ≡ some next
    → 512 ≤ length w.server.server.connections
    → w.server.server.start_listen_time + 10 < now
    → IsIdle v.server
    → next_event_fd m v ≡ some fd'
    → (m₁ : Shared) × (w' : Worker) × (r : Shared × Worker) × (accept now m w ≡ some (m₁, w'))
      × (m₁.written ≡ (fd, w.shm_id) ∷ m.written)
      × (w'.server.server.acceptor.listenning ≡ false)
      × (w'.server.owner ≡ false)
      × (event_handler later threads m₁ v ≡ some r)
      × IsListening r.0 r.1 fd'
unfolding acceptor_scheduling_handler disable_listen next_event_fd
handover now later threads m w v fd fd' next l some_loop many late idle slot =
    let m₁ : Shared = record m { byte = 0; written = (fd, w.shm_id) ∷ m.written } in
    let (r, e, listens) = takes-over later threads m₁ v fd' idle refl slot in
    (
      m₁,
      retired now w next,
      r,
      gives-up now m w fd next l some_loop many late,
      refl,
      ground (arith, l.listenning),
      refl,
      e,
      listens,
    )

behind : {A : Type 0} (l : List A) → get_elem? l (length l) ≡ none
behind [] = refl
behind (x ∷ l) = behind l

slot_of : (l n : ℕ) → l + 1 ≡ n → l % n ≡ l
slot_of l n e = mod-eq_of_lt (omega arith)

no_slot :
    (m : Shared) (w : Worker)
    → (w.shm_id + 1) % w.process_num ≡ length m.event_fds
    → next_event_fd m w ≡ none
unfolding next_event_fd
no_slot m w e = ap (get_elem? m.event_fds) e ∙ behind m.event_fds

-- The worker with the last of the `process_num - 1` slots reads behind the shared array when it is
-- woken, whatever its server does: its `EventHandler` has no next eventfd.
last_worker_faults :
    (now : ℕ) (threads : ℕ → LoopThread) (m : Shared) (w : Worker)
    → length m.event_fds + 1 ≡ w.process_num
    → w.shm_id + 1 ≡ length m.event_fds
    → event_handler now threads m w ≡ none
unfolding event_handler
last_worker_faults now threads m w slots last =
    let e : (w.shm_id + 1) % w.process_num ≡ length m.event_fds =
      ap (λ k. k % w.process_num) last ∙ slot_of (length m.event_fds) w.process_num slots in
    ground (arith, no_slot m w e)
