-- ===== src/EventLoopThreadPool/Tests.antt =====
-- A pool of two loops.
use enhanced_proxy.Common.{ℕ, ◌≡◌, refl, true, some, [], ◌∷◌, ◌%◌, get_elem?, arith}
use enhanced_proxy.EventLoopThreadPool.{EventLoopThreadPool, new_pool, get_next_loop}
use enhanced_proxy.EventLoopThreadPool.RoundRobin.{after_calls, takes_turns}

abbrev pool : EventLoopThreadPool
pool = record (new_pool 9) { started = true; loops = 5 ∷ 6 ∷ []; num_threads = 2 }

takes_turns_example :
    (x : ℕ) × (after_calls 3 pool ≡ some (record pool { next = 3 % 2 }))
    × (get_elem? pool.loops (3 % 2) ≡ some x)
    × (get_next_loop (record pool { next = 3 % 2 }) ≡ some (x, record pool { next = 4 % 2 }))
takes_turns_example = takes_turns pool 3 refl (omega arith) refl
