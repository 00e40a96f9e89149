-- ===== src/ProxyServer.antt =====
-- ProxyServer/ProxyServer.{h,cpp}, the part that starts and stops listening, and the threads that
-- ThreadPool/MyThreadPool.{h,cpp} starts for it.
use enhanced_proxy.Common.{Str, false, ℕ, ◌+◌, Bool, true, Option, none, some, if◌then◌else◌}
use enhanced_proxy.EventLoopThreadPool.{LoopThread}
use enhanced_proxy.ProcessMutex.{try_lock}
use enhanced_proxy.TcpServer
use enhanced_proxy.Cache
use enhanced_proxy.Cache.{Cache}
use enhanced_proxy.TcpServer.{
  TcpServer, new_server, acceptor_scheduling_handler, set_schedul_callback,
}

-- `owner` is the member of the process mutex, `threads` the threads that `threadpool` has started.
pub record ProxyServer : Type 0 where
  pub is_start : Bool
  pub owner : Bool
  pub server : TcpServer
  pub threads : ℕ

-- The constructor, up to the cache: `loop` is its loop, and `memory` what stands in a member of the
-- TCP server that no constructor sets. The mutex is the worker's, and `false` its `owner`.
unfoldable pub new_proxy_server : ℕ → ℕ → ProxyServer
unfolding new_server
new_proxy_server loop memory = record {
  is_start = false;
  owner = false;
  server = new_server loop memory;
  threads = 0;
}

abbrev pub default_cache_capacity : ℕ
default_cache_capacity = 128

abbrev pub default_expired_time : ℕ
default_expired_time = 20

-- The cache that the constructor makes. Its password, a constant of the class, is an argument.
unfoldable pub new_cache : {W : Type 0} → Str → ℕ → W → Cache W
unfolding Cache.init
new_cache passwd memory world =
    Cache.init default_cache_capacity default_expired_time passwd memory world

abbrev pub thread_num : ℕ
thread_num = 4

-- `MyThreadPool::start`: every call adds its threads.
unfoldable pub start_threads : ProxyServer → ProxyServer
start_threads p = record p { threads = p.threads + thread_num }

unfoldable pub enable_listen : ℕ → (ℕ → LoopThread) → ProxyServer → Option ProxyServer
enable_listen now loop_threads p =
    if p.is_start
    then some (record p { server = acceptor_scheduling_handler now p.server })
    else elim (TcpServer.start now loop_threads p.server) [
      | none ↦ none
      | some server ↦ some (record p { server = server; is_start = true })
    ]

-- `start` behind the call of the thread pool, with the byte of the mutex, and that byte afterwards.
unfoldable pub try_listen : ℕ → (ℕ → LoopThread) → ℕ → ProxyServer → Option (ℕ × ProxyServer)
unfolding try_lock enable_listen
try_listen now loop_threads byte p =
    let (locked, byte', owner') = try_lock byte p.owner in
    if locked
    then elim (enable_listen now loop_threads (record p { owner = owner' })) [
      | none ↦ none
      | some p' ↦ some (byte', p')
    ]
    else some (byte', record p { owner = owner' })

unfoldable pub start : ℕ → (ℕ → LoopThread) → ℕ → ProxyServer → Option (ℕ × ProxyServer)
unfolding start_threads try_listen
start now loop_threads byte p = try_listen now loop_threads byte (start_threads p)

unfoldable pub set_handler : ℕ → ProxyServer → ProxyServer
set_handler fd p = record p { server = set_schedul_callback fd p.server }

-- `setIOThreadNum`; its assertion holds for every natural number.
unfoldable pub set_io_thread_num : ℕ → ProxyServer → ProxyServer
set_io_thread_num num p = record p {
  server = record p.server { pool = record p.server.pool { num_threads = num } };
}
