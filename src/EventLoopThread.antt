-- ===== src/EventLoopThread.antt =====
-- ModifiedMuduo/EventLoopThread.{h,cpp}: a thread with an I/O loop of its own, and the handshake in
-- which `startLoop` waits for that loop. A loop and a producer are named by their addresses, and a
-- `loop_` that is NULL is `none`.
pub mod Handshake
pub mod Returns
mod Tests
use enhanced_proxy.Common.{ℕ, Bool, true, false, Option, none, some, List, [], ◌∷◌, if◌then◌else◌}

-- `callback` and `init_callback` say whether the two std::functions hold something. The memory of
-- `producer` is not initialised by the constructors.
pub record EventLoopThread : Type 0 where
  pub loop : Option ℕ
  pub producer : ℕ
  pub exiting : Bool
  pub callback : Bool
  pub init_callback : Bool

-- The constructors for the two kinds of callback.
abbrev pub with_callback : ℕ → Bool → EventLoopThread
with_callback memory cb = record {
  loop = none;
  producer = memory;
  exiting = false;
  callback = cb;
  init_callback = false;
}

abbrev pub with_init_callback : ℕ → Bool → EventLoopThread
with_init_callback memory cb = record {
  loop = none;
  producer = memory;
  exiting = false;
  callback = false;
  init_callback = cb;
}

-- Where `threadFunc` stands: before its call, with its loop but before the callback, before the
-- lock, in `loop.loop()`, and behind it.
pub data ThreadAt : Type 0 where
  not_started constructed initialised looping ended : ThreadAt

-- Where the caller of `startLoop` stands: before the call, before the test of its `while`, asleep in
-- `cond_.wait()`, behind the lock, and with what it returned; and in the destructor, waiting for the
-- thread or behind it.
pub data CallerAt : Type 0 where
  before waiting sleeping woken : CallerAt
  returned : Option ℕ → CallerAt
  joining joined : CallerAt

-- What an observer notes: calls of a callback.
pub data Call : Type 0 where
  calls : ℕ → Call
  init_calls : ℕ → ℕ → Call

-- The object with both threads; `own` is the loop on the stack of `threadFunc`, and `quit` whether
-- its `quit` was called.
pub record System : Type 0 where
  pub object : EventLoopThread
  pub thread : ThreadAt
  pub caller : CallerAt
  pub own : ℕ
  pub quit : Bool
  pub log : List Call

-- `startLoop` up to the lock; `none` is the failed assertion.
unfoldable pub start_thread : System → Option System
start_thread s = elim s.thread [
  | not_started ↦ some (record s { thread = constructed; caller = waiting })
  | _ ↦ none
]

-- The `while` of `startLoop` under its lock: one test, which leads to the wait or out of the loop.
unfoldable pub wait_loop : System → System
wait_loop s = elim s.object.loop [
  | none ↦ record s { caller = sleeping }
  | some loop ↦ record s { caller = woken }
]

-- `cond_.notify()`: a caller that sleeps comes back to the test, and another one does not see it.
abbrev pub notified : CallerAt → CallerAt
notified sleeping = waiting
notified c = c

-- The `return`, which reads `loop_` without the lock.
unfoldable pub return_loop : System → System
return_loop s = record s { caller = returned s.object.loop }

-- `threadFunc` up to its lock, the part under the lock, and the part behind `loop.loop()`.
unfoldable pub run_callback : System → System
run_callback s = record s {
  thread = initialised;
  log = if s.object.init_callback then init_calls s.object.producer s.own ∷ s.log else s.log;
}

unfoldable pub publish_loop : System → System
publish_loop s = record s {
  thread = looping;
  caller = notified s.caller;
  object = record s.object { loop = some s.own };
}

unfoldable pub leave_loop : System → System
leave_loop s = record s { thread = ended; object = record s.object { loop = none } }

-- The destructor up to `join`, and `join`, which waits for the end of the thread.
unfoldable pub destroy : System → System
destroy s = elim s.object.loop [
  | none ↦ record s { object = record s.object { exiting = true }; caller = joined }
  | some loop ↦ record s {
    object = record s.object { exiting = true };
    quit = true;
    caller = joining;
  }
]

unfoldable pub join_thread : System → System
join_thread s = elim s.thread [ ended ↦ record s { caller = joined } | _ ↦ s ]

abbrev pub new_system : EventLoopThread → ℕ → System
new_system object own = record {
  object = object;
  thread = not_started;
  caller = before;
  own = own;
  quit = false;
  log = [];
}
