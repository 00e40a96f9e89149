-- ===== src/EventLoopThread/Returns.antt =====
-- `startLoop` returns, and what it returns.
use enhanced_proxy.Common.{ℕ, ◌≡◌, ◌≢◌, ap, refl, false, ◌⊎◌, inl, inr, Option, none, some, arith}
use enhanced_proxy.EventLoopThread.{
  EventLoopThread, ThreadAt, not_started, constructed, initialised, looping, ended, waiting,
  sleeping, notified, woken, returned, System, wait_loop, return_loop, run_callback, publish_loop,
  new_system,
}
use enhanced_proxy.EventLoopThread.Handshake.{
  Step, waits, returns, calls_back, publishes, Steps, here, next, made, Fits, AllNotified,
  IsNotified, at_thread, at_caller, Steps-Fits, new-Fits,
}

-- In every interleaving of a thread with the caller of `startLoop`, from a new object with `loop_`
-- NULL: if `startLoop` has returned, and the object is not being destroyed, then it returned the
-- loop of that thread and not NULL, `loop_` is that loop, the thread has called the init callback
-- once, if there is one, with what the memory of `producer_` was and with the loop, and nothing
-- else, and `producer_` is still what its memory was.
pub returns_own_loop :
    (object : EventLoopThread) (own : ℕ) {s : System} {r : Option ℕ}
    → object.loop ≡ none
    → Steps (new_system object own) s
    → s.caller ≡ returned r
    → (r ≡ some own)
      × (s.object.loop ≡ some own)
      × (s.log ≡ made object own)
      × (s.object.producer ≡ object.producer)
returns_own_loop object own {s} {r} e run at =
    let h = Steps-Fits object own run (new-Fits object own e) in
    let fits = at_caller object own s (returned r) h at in
    let seen = at_thread object own s looping h fits.1 in (fits.0, seen.1, seen.0, h.same_producer)

module _ (own : ℕ) where
  -- A run to the return with the thread's loop, in which no wait ends without a notify.
  abbrev pub Returns : System → Type 0
  Returns s = (t : System) × (r : Steps s t) × AllNotified r × (t.caller ≡ returned (some own))

  prepend : {s t u : System} (st : Step s t) → Steps t u → Steps s u
  prepend st here = next here st
  prepend st (next r st') = next (prepend st r) st'

  prepend_notified :
      {s t u : System} (st : Step s t) (r : Steps t u)
      → IsNotified st
      → AllNotified r
      → AllNotified (prepend st r)
  unfolding prepend
  prepend_notified st here h k = (tt, h)
  prepend_notified st (next r st') h (k, l) = (prepend_notified st r h k, l)

  after : (s t : System) (st : Step s t) → IsNotified st → Returns t → Returns s
  after s t st h (u, run, k, e) = (u, prepend st run, prepend_notified st run h k, e)

  looping-Returns : (s : System) → s.caller ≡ waiting → s.object.loop ≡ some own → Returns s
  unfolding wait_loop return_loop
  looping-Returns s e l =
      let woke : (wait_loop s).caller ≡ woken = ground (arith, l) in
      (
        return_loop (wait_loop s),
        next (next here (waits e)) (returns woke),
        ((tt, tt), tt),
        ground (arith, l),
      )

  initialised-Returns :
      (s : System) → notified s.caller ≡ waiting → s.thread ≡ initialised → s.own ≡ own → Returns s
  unfolding publish_loop
  initialised-Returns s e p o =
      after s (publish_loop s) (publishes p) tt (looping-Returns (publish_loop s) e (ap some o))

  constructed-Returns :
      (s : System) → notified s.caller ≡ waiting → s.thread ≡ constructed → s.own ≡ own → Returns s
  unfolding run_callback
  constructed-Returns s e p o =
      after s (run_callback s) (calls_back p) tt (initialised-Returns (run_callback s) e refl o)

-- From every state that an interleaving reaches in which the caller of `startLoop` stands before the
-- test of its `while` or sleeps in `cond_.wait()`, a run in which nothing but the notify of the
-- thread ends that wait leads to its return with the thread's loop.
pub start_loop_returns :
    (object : EventLoopThread) (own : ℕ) {s : System}
    → object.loop ≡ none
    → Steps (new_system object own) s
    → (s.caller ≡ waiting) ⊎ (s.caller ≡ sleeping)
    → Returns own s
start_loop_returns object own {s} e run at = go s.thread refl
  where
    h : Fits object own s
    h = Steps-Fits object own run (new-Fits object own e)

    fits : (s.thread ≢ not_started) × (s.quit ≡ false)
    fits = elim at [
      | inl tests ↦ at_caller object own s waiting h tests
      | inr sleeps ↦ let f = at_caller object own s sleeping h sleeps in (f.0, f.2)
    ]

    called : notified s.caller ≡ waiting
    called = elim at [ inl tests ↦ ap notified tests | inr sleeps ↦ ap notified sleeps ]

    awake : s.thread ≡ looping → s.caller ≡ waiting
    awake f = elim at [
      | inl tests ↦ tests
      | inr sleeps ↦ absurd ((at_caller object own s sleeping h sleeps).1 f)
    ]

    go : (p : ThreadAt) → s.thread ≡ p → Returns own s
    go not_started f = absurd (fits.0 f)
    go constructed f = constructed-Returns own s called f h.same_own
    go initialised f = initialised-Returns own s called f h.same_own
    go looping f = looping-Returns own s (awake f) (at_thread object own s looping h f).1
    go ended f = absurd (ground (arith, fits.1, (at_thread object own s ended h f).2))
