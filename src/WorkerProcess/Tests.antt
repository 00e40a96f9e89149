-- ===== src/WorkerProcess/Tests.antt =====
-- Workers of a master with three or four processes.
use enhanced_proxy.Common.{ℕ, zero, suc, ◌≡◌, refl, true, false, List, [], ◌∷◌, some, arith}
use enhanced_proxy.EventLoopThreadPool.{
  EventLoopThreadPool, LoopThread, new_pool, get_next_loop, next_of, add_threads, add_thread,
}
use enhanced_proxy.EventLoopThreadPool
use enhanced_proxy.ProcessMutex.{try_lock}
use enhanced_proxy.ProxyServer.{new_proxy_server}
use enhanced_proxy.TcpServer.{
  TcpServer, new_server, listen, acceptor_scheduling_handler, disable_listen, set_schedul_callback,
}
use enhanced_proxy.TcpServer
use enhanced_proxy.ProxyServer
use enhanced_proxy.ProxyServer.{
  ProxyServer, start_threads, try_listen, set_handler, set_io_thread_num,
}
use enhanced_proxy.WorkerProcess.{
  Shared, Worker, System, Steps, here, next, starts, initial, new_worker, start, start_server,
  event_handler, next_event_fd, accept,
}
use enhanced_proxy.WorkerProcess.Protocol.{one_listener}
use enhanced_proxy.WorkerProcess.Handover.{IsListening, handover}

abbrev threads : ℕ → LoopThread
threads n = record { loop = n; producer = 0 }

-- Worker 0 starts and listens, and the start of worker 1 waits.
abbrev started : (s : System) × Steps (initial (3 ∷ 4 ∷ []) 3 (λ _. 0)) s
unfolding initial new_worker new_proxy_server new_server start start_server set_io_thread_num
    ProxyServer.start start_threads try_listen try_lock ProxyServer.enable_listen TcpServer.start
    EventLoopThreadPool.start add_threads listen
started = (
  _,
  next (next here (starts 0 100 threads {r = (_, _)} refl))
      (starts 1 101 threads {r = (_, _)} refl),
)

one_listener_example :
    (◌≡◌ {A = ℕ} 0 0)
    × (started.0.shared.byte ≡ 1)
    × ((started.0.worker 0).server.owner ≡ true)
    × ((started.0.worker 1).server.server.acceptor.reading
        ≡ (started.0.worker 1).server.server.acceptor.listenning)
unfolding initial new_worker new_proxy_server new_server start start_server set_io_thread_num
    ProxyServer.start start_threads try_listen try_lock ProxyServer.enable_listen TcpServer.start
    EventLoopThreadPool.start add_threads listen
one_listener_example = one_listener (3 ∷ 4 ∷ []) 3 (λ _. 0) 0 0 1 started.1 refl refl

abbrev crowd : ℕ → List (ℕ × ℕ)
crowd zero = []
crowd (suc n) = (suc n, 0) ∷ crowd n

abbrev shared : Shared
shared = record { byte = 1; event_fds = 3 ∷ 4 ∷ 5 ∷ []; written = [] }

abbrev loops : EventLoopThreadPool
loops = record (new_pool 9) { started = true }

abbrev busy : Worker
busy = record {
  shm_id = 0;
  process_num = 4;
  server = record {
    is_start = true;
    owner = true;
    threads = 8;
    server = record {
      acceptor = record {
        listenning = true;
        start_listen_time = some 5;
        socket_listens = true;
        reading = true;
      };
      pool = loops;
      started = true;
      next_conn_id = 513;
      connections = crowd 512;
      notify = some 4;
      start_listen_time = 5;
    };
  };
}

abbrev idle : Worker
unfolding new_worker new_proxy_server new_server
idle = new_worker 1 4 9 0

handover_example :
    (m₁ : Shared) × (w' : Worker) × (r : Shared × Worker) × (accept 100 shared busy ≡ some (m₁, w'))
    × (m₁.written ≡ (4, 0) ∷ [])
    × (w'.server.server.acceptor.listenning ≡ false)
    × (w'.server.owner ≡ false)
    × (event_handler 101 threads m₁ idle ≡ some r)
    × IsListening r.0 r.1 5
unfolding new_worker new_proxy_server new_server get_next_loop next_event_fd
handover_example =
    handover 100 101 threads shared busy idle 4 5 (9, loops)
      (record { listenning = refl; owner = refl; byte = refl; notify = refl }) refl (omega arith)
      (omega arith) (record { listenning = refl; owner = refl; started = refl; pool = refl }) refl
