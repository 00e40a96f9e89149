-- ===== src/TcpServer/Tests.antt =====
-- A server that is started and takes two connections.
use enhanced_proxy.Common.{ℕ, ◌≡◌, ◌⊎◌, ◌+◌, ◌-◌, ltb, arith, if◌then◌else◌, refl, some, none}
use enhanced_proxy.EventLoopThreadPool
use enhanced_proxy.EventLoopThreadPool.{LoopThread, get_next_loop, add_threads}
use enhanced_proxy.TcpServer
use enhanced_proxy.TcpServer.{
  TcpServer, Notice, quiet, new_server, new_connection, balance, is_crowded, listen,
  remove_connection_in_loop, erase_connection,
}
use enhanced_proxy.TcpServer.Accepting.{
  accepted, emfile, Os, handle_read, IsHanded, IsLevel, handle_read-count,
}
use enhanced_proxy.TcpServer.Connections.{Steps, here, next, starts, opens, opens_fresh}

abbrev threads : ℕ → LoopThread
threads n = record { loop = n; producer = 0 }

abbrev one : (s : TcpServer) × Steps (new_server 9 0) s
unfolding new_server new_connection get_next_loop balance is_crowded TcpServer.start listen
    EventLoopThreadPool.start add_threads
one = (_, next (next here (starts 1 threads refl)) (opens 2 {notice = quiet} (omega arith) refl))

abbrev two : (s : TcpServer) × (new_connection 3 one.0 ≡ some (quiet, s))
unfolding new_server new_connection get_next_loop balance is_crowded TcpServer.start listen
    EventLoopThreadPool.start add_threads
two = (_, refl)

opens_fresh_example :
    (remove_connection_in_loop one.0.next_conn_id one.0 ≡ none)
    × (remove_connection_in_loop one.0.next_conn_id two.0
        ≡ some (record two.0 { connections = one.0.connections }))
opens_fresh_example = opens_fresh 9 0 3 quiet one.1 two.1

abbrev again : (s : TcpServer) × (remove_connection_in_loop 1 one.0 ≡ some s)
unfolding new_server new_connection get_next_loop balance is_crowded TcpServer.start listen
    EventLoopThreadPool.start add_threads remove_connection_in_loop erase_connection
again = (_, refl)

-- A process that may have five descriptors open, which are the state.
abbrev few : Os ℕ
few = record {
  accept = λ w. if ltb w 5 then (accepted w, w + 1) else (emfile, w);
  open_null = λ w. (some w, w + 1);
  close = λ fd w. w - 1;
}

-- The sixth connection is accepted and closed in place of the idle descriptor.
full_run : handle_read few (some (λ fd w. w)) (some 0) 5 ≡ (some 4, 5)
unfolding handle_read
full_run = refl

handle_read-count_example :
    IsHanded few (some (λ fd w. w)) 0 5
    ⊎ IsLevel (λ w. w) 5 (handle_read few (some (λ fd w. w)) (some 0) 5)
handle_read-count_example =
    handle_read-count few (λ w. w) (λ w fd. ltb 0 w)
      (λ w fd w' e. (ground (arith, e), ground (arith, e)))
      (λ w w' conn e f. (ground (arith, e, f), λ fd. ground (arith, e, f)))
      (λ w fd w' e. ground (arith, e)) (λ w w' e. ground (arith, e)) (λ w fd e. ground (arith, e))
      (some (λ fd w. w)) 0 5 refl
