-- ===== src/EventLoopThread/Handshake.antt =====
-- What `startLoop` returns, in every interleaving of its caller with the thread.
use mathlib.Core.Path.{subst}
use enhanced_proxy.Common.{
  ℕ, ◌≡◌, ◌≢◌, ◌∙◌, ap, refl, true, false, Option, none, some, List, [], ◌∷◌, arith, if◌then◌else◌,
  inl, inr, Option-cases,
}
use enhanced_proxy.EventLoopThread.{
  EventLoopThread, ThreadAt, not_started, constructed, initialised, looping, ended, CallerAt,
  before, waiting, sleeping, notified, woken, returned, joining, joined, Call, init_calls, System,
  start_thread, wait_loop, return_loop, run_callback, publish_loop, leave_loop, destroy,
  join_thread, new_system,
}

-- The moves of both threads. muduo's `loop` returns once `quit` was called, which is what the
-- destructor does. A wait on a condition may also end without a notify: `wakes`.
pub data Step (s : System) : System → Type 0 where
  starts : {t : System} → s.caller ≡ before → start_thread s ≡ some t → Step s t
  waits : s.caller ≡ waiting → Step s (wait_loop s)
  wakes : s.caller ≡ sleeping → Step s (record s { caller = waiting })
  returns : s.caller ≡ woken → Step s (return_loop s)
  calls_back : s.thread ≡ constructed → Step s (run_callback s)
  publishes : s.thread ≡ initialised → Step s (publish_loop s)
  leaves : s.thread ≡ looping → s.quit ≡ true → Step s (leave_loop s)
  destroys : {r : Option ℕ} → s.caller ≡ returned r → Step s (destroy s)
  joins : s.caller ≡ joining → Step s (join_thread s)

pub data Steps (s : System) : System → Type 0 where
  here : Steps s s
  next : {t u : System} → Steps s t → Step t u → Steps s u

-- No wait ended without a notify.
abbrev pub IsNotified : {s t : System} → Step s t → Type 0
IsNotified (wakes e) = ⊥
IsNotified _ = Unit

abbrev pub AllNotified : {s t : System} → Steps s t → Type 0
AllNotified here = Unit
AllNotified (next r st) = AllNotified r × IsNotified st

-- The calls that the thread makes before its loop is seen.
abbrev pub made : EventLoopThread → ℕ → List Call
made object own = if object.init_callback then init_calls object.producer own ∷ [] else []

module _ (object : EventLoopThread) (own : ℕ) where
  -- What each position of the caller and of the thread says about the rest.
  abbrev pub CallerFits : System → CallerAt → Type 0
  CallerFits s before = (s.thread ≡ not_started) × (s.quit ≡ false)
  CallerFits s waiting = (s.thread ≢ not_started) × (s.quit ≡ false)
  CallerFits s sleeping = (s.thread ≢ not_started) × (s.thread ≢ looping) × (s.quit ≡ false)
  CallerFits s woken = (s.thread ≡ looping) × (s.quit ≡ false)
  CallerFits s (returned r) = (r ≡ some own) × (s.thread ≡ looping) × (s.quit ≡ false)
  CallerFits s joining = Unit
  CallerFits s joined = Unit

  abbrev pub ThreadFits : System → ThreadAt → Type 0
  ThreadFits s not_started = (s.log ≡ []) × (s.object.loop ≡ none)
  ThreadFits s constructed = (s.log ≡ []) × (s.object.loop ≡ none)
  ThreadFits s initialised = (s.log ≡ made object own) × (s.object.loop ≡ none)
  ThreadFits s looping = (s.log ≡ made object own) × (s.object.loop ≡ some own)
  ThreadFits s ended = (s.log ≡ made object own) × (s.object.loop ≡ none) × (s.quit ≡ true)

  pub record Fits (s : System) : Type 0 where
    pub caller : CallerFits s s.caller
    pub thread : ThreadFits s s.thread
    pub same_own : s.own ≡ own
    pub same_callback : s.object.init_callback ≡ object.init_callback
    pub same_producer : s.object.producer ≡ object.producer

  -- A move of the thread, as the caller sees it.
  thread-CallerFits :
      (s t : System) (c : CallerAt)
      → CallerFits s c
      → s.thread ≢ not_started
      → s.thread ≢ looping
      → t.thread ≢ not_started
      → t.thread ≢ looping
      → t.quit ≡ s.quit
      → CallerFits t c
  thread-CallerFits s t before h a b n m e = absurd (a h.0)
  thread-CallerFits s t waiting h a b n m e = (n, e ∙ h.1)
  thread-CallerFits s t sleeping h a b n m e = (n, m, e ∙ h.2)
  thread-CallerFits s t woken h a b n m e = absurd (b h.0)
  thread-CallerFits s t (returned r) h a b n m e = absurd (b h.1)
  thread-CallerFits s t joining h a b n m e = tt
  thread-CallerFits s t joined h a b n m e = tt

  -- A move of the caller, as the thread sees it.
  caller-ThreadFits :
      (s t : System) (p : ThreadAt)
      → ThreadFits s p
      → t.log ≡ s.log
      → t.object.loop ≡ s.object.loop
      → (s.quit ≡ true → t.quit ≡ true)
      → ThreadFits t p
  caller-ThreadFits s t not_started h e f g = (e ∙ h.0, f ∙ h.1)
  caller-ThreadFits s t constructed h e f g = (e ∙ h.0, f ∙ h.1)
  caller-ThreadFits s t initialised h e f g = (e ∙ h.0, f ∙ h.1)
  caller-ThreadFits s t looping h e f g = (e ∙ h.0, f ∙ h.1)
  caller-ThreadFits s t ended h e f g = (e ∙ h.0, f ∙ h.1, g h.2)

  -- The loop is there only while it runs.
  loop-looping :
      (s : System) (p : ThreadAt) {loop : ℕ}
      → ThreadFits s p
      → s.quit ≡ false
      → s.object.loop ≡ some loop
      → (p ≡ looping) × (loop ≡ own)
  loop-looping s not_started h q e = absurd (ground (arith, e, h))
  loop-looping s constructed h q e = absurd (ground (arith, e, h))
  loop-looping s initialised h q e = absurd (ground (arith, e, h))
  loop-looping s looping h q e = (refl, ground (arith, e, h))
  loop-looping s ended h q e = absurd (ground (arith, e, h))

  pub at_thread : (s : System) (p : ThreadAt) → Fits s → s.thread ≡ p → ThreadFits s p
  at_thread s p h e = subst (ThreadFits s) e h.thread

  pub at_caller : (s : System) (c : CallerAt) → Fits s → s.caller ≡ c → CallerFits s c
  at_caller s c h e = subst (CallerFits s) e h.caller

  calls_back-Fits : (s : System) → s.thread ≡ constructed → Fits s → Fits (run_callback s)
  unfolding run_callback
  calls_back-Fits s e h =
      let at = at_thread s constructed h e in
      record {
        caller =
            thread-CallerFits s (run_callback s) s.caller h.caller (λ f. ground (arith, e, f))
              (λ f. ground (arith, e, f)) (λ f. cc) (λ f. cc) refl;
        thread = (ground (arith, at, h.same_own, h.same_callback, h.same_producer), at.1);
        same_own = h.same_own;
        same_callback = h.same_callback;
        same_producer = h.same_producer;
      }

  publishes-CallerFits :
      (s t : System) (c : CallerAt)
      → CallerFits s c
      → s.thread ≡ initialised
      → t.thread ≢ not_started
      → t.quit ≡ s.quit
      → CallerFits t (notified c)
  publishes-CallerFits s t before h p n e = absurd (ground (arith, h, p))
  publishes-CallerFits s t waiting h p n e = (n, e ∙ h.1)
  publishes-CallerFits s t sleeping h p n e = (n, e ∙ h.2)
  publishes-CallerFits s t woken h p n e = absurd (ground (arith, h, p))
  publishes-CallerFits s t (returned r) h p n e = absurd (ground (arith, h, p))
  publishes-CallerFits s t joining h p n e = tt
  publishes-CallerFits s t joined h p n e = tt

  publishes-Fits : (s : System) → s.thread ≡ initialised → Fits s → Fits (publish_loop s)
  unfolding publish_loop
  publishes-Fits s e h =
      let at = at_thread s initialised h e in
      record {
        caller = publishes-CallerFits s (publish_loop s) s.caller h.caller e (λ f. cc) refl;
        thread = (at.0, ap some h.same_own);
        same_own = h.same_own;
        same_callback = h.same_callback;
        same_producer = h.same_producer;
      }

  -- The loop is left only once the destructor has called `quit`.
  leaves-CallerFits :
      (s t : System) (c : CallerAt) → CallerFits s c → s.quit ≡ true → CallerFits t c
  leaves-CallerFits s t before h q = absurd (ground (arith, h, q))
  leaves-CallerFits s t waiting h q = absurd (ground (arith, h, q))
  leaves-CallerFits s t sleeping h q = absurd (ground (arith, h, q))
  leaves-CallerFits s t woken h q = absurd (ground (arith, h, q))
  leaves-CallerFits s t (returned r) h q = absurd (ground (arith, h, q))
  leaves-CallerFits s t joining h q = tt
  leaves-CallerFits s t joined h q = tt

  leaves-Fits : (s : System) → s.thread ≡ looping → s.quit ≡ true → Fits s → Fits (leave_loop s)
  unfolding leave_loop
  leaves-Fits s e q h = record {
    caller = leaves-CallerFits s (leave_loop s) s.caller h.caller q;
    thread = ((at_thread s looping h e).0, refl, q);
    same_own = h.same_own;
    same_callback = h.same_callback;
    same_producer = h.same_producer;
  }

  -- A move of the caller to a place where it fits.
  moved-Fits :
      (s : System) (c : CallerAt)
      → Fits s
      → CallerFits (record s { caller = c }) c
      → Fits (record s { caller = c })
  moved-Fits s c h f = record {
    caller = f;
    thread = caller-ThreadFits s (record s { caller = c }) s.thread h.thread refl refl (λ q. q);
    same_own = h.same_own;
    same_callback = h.same_callback;
    same_producer = h.same_producer;
  }

  starts-Fits : (s t : System) → s.caller ≡ before → start_thread s ≡ some t → Fits s → Fits t
  unfolding start_thread
  starts-Fits s t e f h =
      let at = at_caller s before h e in
      let seen = at_thread s not_started h at.0 in
      let same : record s { thread = constructed; caller = waiting } ≡ t =
        ground (arith, at.0, f) in
      subst Fits same (record {
        caller = ((λ g. cc), at.1);
        thread = seen;
        same_own = h.same_own;
        same_callback = h.same_callback;
        same_producer = h.same_producer;
      })

  waits-Fits : (s : System) → s.caller ≡ waiting → Fits s → Fits (wait_loop s)
  unfolding wait_loop
  waits-Fits s e h =
      let quiet = (at_caller s waiting h e).1 in
      elim (Option-cases s.object.loop) [
        | inl missing ↦
            let same : record s { caller = sleeping } ≡ wait_loop s = ground (arith, missing) in
            let not_yet : s.thread ≢ looping =
              λ f. ground (arith, missing, (at_thread s looping h f).1) in
            subst Fits same (moved-Fits s sleeping h ((at_caller s waiting h e).0, not_yet, quiet))
        | inr (loop, there) ↦
            let at = loop-looping s s.thread h.thread quiet there in
            let same : record s { caller = woken } ≡ wait_loop s = ground (arith, there) in
            subst Fits same (moved-Fits s woken h (at.0, quiet))
      ]

  wakes-Fits : (s : System) → s.caller ≡ sleeping → Fits s → Fits (record s { caller = waiting })
  wakes-Fits s e h = let at = at_caller s sleeping h e in moved-Fits s waiting h (at.0, at.2)

  returns-Fits : (s : System) → s.caller ≡ woken → Fits s → Fits (return_loop s)
  unfolding return_loop
  returns-Fits s e h =
      let at = at_caller s woken h e in
      let seen = at_thread s looping h at.0 in
      moved-Fits s (returned s.object.loop) h (seen.1, at.0, at.1)

  destroys-Fits : (s : System) {r : Option ℕ} → s.caller ≡ returned r → Fits s → Fits (destroy s)
  unfolding destroy
  destroys-Fits s {r} e h =
      let at = at_caller s (returned r) h e in
      let seen = at_thread s looping h at.1 in
      let t : System = record s {
        object = record s.object { exiting = true };
        quit = true;
        caller = joining;
      } in
      let same : t ≡ destroy s = ground (arith, seen) in
      subst Fits same (record {
        caller = tt;
        thread = caller-ThreadFits s t s.thread h.thread refl refl (λ q. refl);
        same_own = h.same_own;
        same_callback = h.same_callback;
        same_producer = h.same_producer;
      })

  joins-Fits : (s : System) → s.caller ≡ joining → Fits s → Fits (join_thread s)
  unfolding join_thread
  joins-Fits s e h = go s.thread refl
    where
      stays : s ≡ join_thread s → Fits (join_thread s)
      stays same = subst Fits same h

      go : (p : ThreadAt) → s.thread ≡ p → Fits (join_thread s)
      go not_started f = stays (ground (arith, f))
      go constructed f = stays (ground (arith, f))
      go initialised f = stays (ground (arith, f))
      go looping f = stays (ground (arith, f))
      go ended f =
          let same : record s { caller = joined } ≡ join_thread s = ground (arith, f) in
          subst Fits same (moved-Fits s joined h tt)

  Step-Fits : {s t : System} → Step s t → Fits s → Fits t
  Step-Fits {s} {t} (starts e f) h = starts-Fits s t e f h
  Step-Fits {s} (waits e) h = waits-Fits s e h
  Step-Fits {s} (wakes e) h = wakes-Fits s e h
  Step-Fits {s} (returns e) h = returns-Fits s e h
  Step-Fits {s} (calls_back e) h = calls_back-Fits s e h
  Step-Fits {s} (publishes e) h = publishes-Fits s e h
  Step-Fits {s} (leaves e q) h = leaves-Fits s e q h
  Step-Fits {s} (destroys e) h = destroys-Fits s e h
  Step-Fits {s} (joins e) h = joins-Fits s e h

  pub Steps-Fits : {s t : System} → Steps s t → Fits s → Fits t
  Steps-Fits here h = h
  Steps-Fits (next r st) h = Step-Fits st (Steps-Fits r h)

  pub new-Fits : object.loop ≡ none → Fits (new_system object own)
  new-Fits e = record {
    caller = (refl, refl);
    thread = (refl, e);
    same_own = refl;
    same_callback = refl;
    same_producer = refl;
  }
