-- ===== src/EventLoopThread/Tests.antt =====
-- A thread whose loop has the address 40.
use enhanced_proxy.Common.{inr, ℕ, Option, ◌≡◌, refl, true, some, [], ◌∷◌}
use enhanced_proxy.EventLoopThread.{
  EventLoopThread, with_init_callback, init_calls, System, start_thread, wait_loop, return_loop,
  run_callback, publish_loop, new_system,
}
use enhanced_proxy.EventLoopThread.Handshake.{
  Steps, here, next, starts, waits, returns, calls_back, publishes,
}
use enhanced_proxy.EventLoopThread.Returns.{Returns, returns_own_loop, start_loop_returns}

-- The memory of `producer_` holds 99.
abbrev thread : EventLoopThread
thread = with_init_callback 99 true

-- The caller looks once too early, and again when the loop is there.
abbrev run : (s : System) × Steps (new_system thread 40) s
unfolding start_thread run_callback publish_loop wait_loop return_loop
run = (
  _,
  next
      (next
        (next (next (next (next here (starts refl refl)) (waits refl)) (calls_back refl))
          (publishes refl))
        (waits refl))
      (returns refl),
)

returns_own_loop_example :
    ◌≡◌ {A = Option ℕ} (some 40) (some 40)
    × (run.0.object.loop ≡ some 40)
    × (run.0.log ≡ init_calls 99 40 ∷ [])
    × (run.0.object.producer ≡ 99)
unfolding start_thread run_callback publish_loop wait_loop return_loop
returns_own_loop_example = returns_own_loop thread 40 refl run.1 refl

-- The caller sleeps before the thread has its loop.
abbrev early : (s : System) × Steps (new_system thread 40) s
unfolding start_thread wait_loop
early = (_, next (next here (starts refl refl)) (waits refl))

start_loop_returns_example : Returns 40 early.0
unfolding start_thread wait_loop
start_loop_returns_example = start_loop_returns thread 40 refl early.1 (inr refl)
