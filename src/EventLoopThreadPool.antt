-- ===== src/EventLoopThreadPool.antt =====
-- ModifiedMuduo/EventLoopThreadPool.{h,cpp} and the producer pointer of
-- ModifiedMuduo/EventLoopThread.h: the I/O loops of a server and the choice among them.
-- A loop and a producer are named by their addresses. `none` is a failed assertion, or an access
-- out of range.
pub mod RoundRobin
pub mod Starts
mod Tests
use enhanced_proxy.Common.{
  ℕ, zero, suc, ◌+◌, ◌%◌, Bool, true, false, Option, none, some, List, [], ◌∷◌, ◌++◌, leb, ◌==◌,
  ◌&&◌, if◌then◌else◌, length, get_elem?,
}

pub record EventLoopThreadPool : Type 0 where
  pub base_loop : ℕ
  pub started : Bool
  pub num_threads : ℕ
  pub next : ℕ
  pub loops : List ℕ
  pub producer_map : ℕ → Option ℕ

abbrev pub new_pool : ℕ → EventLoopThreadPool
new_pool base_loop = record {
  base_loop = base_loop;
  started = false;
  num_threads = 0;
  next = 0;
  loops = [];
  producer_map = λ _. none;
}

-- `EventLoopThread`, by the address of the loop that its thread runs and its member `producer_`.
-- `threadFunc` hands the callback a copy of that member, so it stays as the memory has it.
pub record LoopThread : Type 0 where
  pub loop : ℕ
  pub producer : ℕ

-- One round of the `for` of `start`: the new thread's loop, and its producer in the map.
unfoldable pub add_thread : LoopThread → EventLoopThreadPool → EventLoopThreadPool
add_thread t p = record p {
  loops = p.loops ++ (t.loop ∷ []);
  producer_map = λ l. if t.loop == l then some t.producer else p.producer_map l;
}

-- The `for` of `start`, with the threads that it constructs.
unfoldable pub add_threads : ℕ → (ℕ → LoopThread) → EventLoopThreadPool → EventLoopThreadPool
unfolding add_thread
add_threads zero threads p = p
add_threads (suc n) threads p = add_thread (threads n) (add_threads n threads p)

-- `start` with a producer callback.
unfoldable pub start : (ℕ → LoopThread) → EventLoopThreadPool → Option EventLoopThreadPool
unfolding add_threads
start threads p =
    if p.started
    then none
    else some (add_threads p.num_threads threads (record p { started = true }))

-- The `for` of the other `start`, with the loops of the threads that it constructs.
unfoldable pub add_loops : ℕ → (ℕ → ℕ) → EventLoopThreadPool → EventLoopThreadPool
add_loops zero loops p = p
add_loops (suc n) loops p =
    let p' = add_loops n loops p in record p' { loops = p'.loops ++ (loops n ∷ []) }

-- `start` with a plain callback, which says whether it holds something: the pool, and the loops
-- with which `start` itself calls it.
unfoldable pub start_with_callback :
    (ℕ → ℕ) → Bool → EventLoopThreadPool → Option (List ℕ × EventLoopThreadPool)
unfolding add_loops
start_with_callback loops cb p =
    if p.started
    then none
    else some (
      (if p.num_threads == 0 && cb then p.base_loop ∷ [] else []),
      add_loops p.num_threads loops (record p { started = true }),
    )

-- `setThreadNum`
unfoldable pub set_thread_num : ℕ → EventLoopThreadPool → EventLoopThreadPool
set_thread_num n p = record p { num_threads = n }

-- The part of `getNextLoop` that chooses among the loops.
unfoldable pub next_of : EventLoopThreadPool → Option (ℕ × EventLoopThreadPool)
next_of p = elim (get_elem? p.loops p.next) [
  | none ↦ none
  | some loop ↦
      let next' = p.next + 1 in
      some (loop, record p { next = if leb (length p.loops) next' then 0 else next' })
]

unfoldable pub get_next_loop : EventLoopThreadPool → Option (ℕ × EventLoopThreadPool)
unfolding next_of
get_next_loop p =
    if p.started then (if length p.loops == 0 then some (p.base_loop, p) else next_of p) else none

unfoldable pub get_loop_for_hash : EventLoopThreadPool → ℕ → Option ℕ
get_loop_for_hash p hash_code =
    if length p.loops == 0 then some p.base_loop else get_elem? p.loops (hash_code % length p.loops)

unfoldable pub get_all_loops : EventLoopThreadPool → Option (List ℕ)
get_all_loops p =
    if p.started
    then (if length p.loops == 0 then some (p.base_loop ∷ []) else some p.loops)
    else none

-- `none` is `nullptr` here.
unfoldable pub get_producer : EventLoopThreadPool → ℕ → Option ℕ
get_producer p io_loop = p.producer_map io_loop
