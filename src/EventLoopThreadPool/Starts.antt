-- ===== src/EventLoopThreadPool/Starts.antt =====
-- The two overloads of `start`, compared.
use enhanced_proxy.Common.{
  ℕ, zero, suc, ◌≡◌, refl, ap, Bool, true, false, some, List, [], ◌∷◌, ◌++◌, arith, ◌==◌, ◌&&◌,
  if◌then◌else◌,
}
use enhanced_proxy.EventLoopThreadPool.{
  EventLoopThreadPool, LoopThread, add_thread, add_threads, add_loops, start, start_with_callback,
}

add_threads-loops :
    (n : ℕ) (threads : ℕ → LoopThread) (p : EventLoopThreadPool)
    → (add_threads n threads p).loops ≡ (add_loops n (λ i. (threads i).loop) p).loops
unfolding add_threads add_loops add_thread
add_threads-loops zero threads p = refl
add_threads-loops (suc n) threads p =
    ap (λ l. l ++ ((threads n).loop ∷ [])) (add_threads-loops n threads p)

-- A pool that has not been started: whichever kind of callback `start` is given, it ends with the
-- same loops in the same order.
starts_alike :
    (threads : ℕ → LoopThread) (cb : Bool) (p : EventLoopThreadPool)
    → p.started ≡ false
    → (q : EventLoopThreadPool) × (called : List ℕ) × (q' : EventLoopThreadPool) × (start threads p
        ≡ some q)
      × (start_with_callback (λ i. (threads i).loop) cb p ≡ some (called, q'))
      × (q.loops ≡ q'.loops)
unfolding start start_with_callback
starts_alike threads cb p fresh =
    let p' : EventLoopThreadPool = record p { started = true } in
    (
      add_threads p.num_threads threads p',
      (if p.num_threads == 0 && cb then p.base_loop ∷ [] else []),
      add_loops p.num_threads (λ i. (threads i).loop) p',
      ground (arith, fresh),
      ground (arith, fresh),
      add_threads-loops p.num_threads threads p',
    )
