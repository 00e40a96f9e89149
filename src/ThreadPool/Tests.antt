-- ===== src/ThreadPool/Tests.antt =====
-- The thread pool's queue at a small size: eight cells, and ranges of two.
use enhanced_proxy.Common.{ℕ, ◌+◌, ◌≡◌, refl, true, none, some, [], ◌∷◌, arith, update}
use enhanced_proxy.CircleQueue.{
  CircleQueue, try_write_space, try_read_space_by_cv, insert, write, read,
}
use enhanced_proxy.ThreadPool.{
  Producer, System, start, Steps, Reach, here, next, claim, put, fetch, store, load, produce,
  consume, new_producer, new_consumer,
}
use enhanced_proxy.ThreadPool.Ownership.{producing}
use enhanced_proxy.ThreadPool.Safety.{IsNew, exclusive, load-stored}
use enhanced_proxy.ThreadPool.Refusal.{IsLate, stuck_forever}
use enhanced_proxy.ThreadPool.Calls.{Consumes, consume-Steps}
use enhanced_proxy.ThreadPool.Filling.{writes}
use enhanced_proxy.ThreadPool.Batches.{batch_waits}
use enhanced_proxy.ThreadPool.Loop.{run_in_my_thread, batch_runs}

abbrev ring : CircleQueue ℕ
ring = record { size = 8; circle_array = λ _. 0; readable_queue = []; try_size = 2; write_id = 0 }

ring-IsNew : IsNew ring
ring-IsNew = record { empty = refl; first = refl; positive = omega arith }

-- Producer 0 fills its first range and publishes it with the next claim; consumer 0 takes it.
abbrev handed : (s : System ℕ) × Reach ring s
unfolding try_write_space try_read_space_by_cv insert store write
handed = (
  _,
  next
      (next
        (next (next (next here (claim 0 (omega arith))) (put 0 10 (omega arith)))
          (put 0 11 (omega arith)))
        (claim 0 (omega arith)))
      (fetch 0 (omega arith)),
)

load-stored_example :
    (handed.0.stored 0 ≡ some (load (handed.0.consumers 0) handed.0.queue).0)
    × (handed.0.loads 0 ≡ 0)
unfolding try_write_space try_read_space_by_cv insert store write
load-stored_example = load-stored ring-IsNew 0 handed.1 (omega arith) (omega arith)

handed_task : (load (handed.0.consumers 0) handed.0.queue).0 ≡ 10
unfolding try_write_space try_read_space_by_cv insert store write load read
handed_task = refl

exclusive_example : producing 0 ≡ producing 0
unfolding try_write_space try_read_space_by_cv insert store write
exclusive_example =
    exclusive ring-IsNew (producing 0) (producing 0) 2 handed.1 (omega arith) (omega arith)
      (omega arith)

-- The ring near its end: the next range is the last one.
abbrev late_ring : CircleQueue ℕ
late_ring = record {
  size = 8;
  circle_array = λ i. i;
  readable_queue = [];
  try_size = 2;
  write_id = 6;
}

late_ring-IsLate : IsLate late_ring
late_ring-IsLate = record { full = omega arith; even_id = refl; even_step = refl }

abbrev used : Producer
used = record { write_id = 4; cur_write_id = 6; writable_id = 6 }

abbrev late : System ℕ
late = record {
  queue = late_ring;
  producers = update (λ _. new_producer) 0 used;
  consumers = λ _. record { read_id = 0; readable_id = 0 };
  stored = λ _. none;
  loads = λ _. 0;
}

-- The producer claims in vain, a consumer takes what that published, and it claims again.
abbrev refused_twice : (t : System ℕ) × Steps late t
unfolding try_write_space try_read_space_by_cv insert
refused_twice = (
  _,
  next (next (next here (claim 0 (omega arith))) (fetch 0 (omega arith))) (claim 0 (omega arith)),
)

stuck_forever_example :
    (refused_twice.0.producers 0 ≡ late.producers 0) × IsLate refused_twice.0.queue
unfolding try_write_space try_read_space_by_cv insert
stuck_forever_example = stuck_forever 0 late_ring-IsLate (omega arith) refused_twice.1

-- Both the consumer and the set have the range 4 to 6 now: its tasks will be loaded twice.
published_again :
    (refused_twice.0.queue.readable_queue ≡ (4, 6) ∷ [])
    × (refused_twice.0.consumers 0 ≡ record { read_id = 4; readable_id = 6 })
unfolding try_write_space try_read_space_by_cv insert
published_again = (refl, refl)

abbrev published_ring : CircleQueue ℕ
published_ring = record ring {
  readable_queue = (0, 2) ∷ [];
  write_id = 2;
  circle_array = λ i. i + 5;
}

consume-Steps_example : Consumes (start published_ring) 3 (
  5,
  true,
  record { read_id = 1; readable_id = 2 },
  record published_ring { readable_queue = [] },
)
unfolding consume try_read_space_by_cv read
consume-Steps_example = consume-Steps (start published_ring) 3 0 (omega arith) refl

batch_waits_example : consume 0 new_consumer (writes (10 ∷ []) new_producer ring).1 ≡ none
batch_waits_example = batch_waits 0 ring (10 ∷ []) ring-IsNew (omega arith) (omega arith)

-- The thread notes the tasks that it runs, the newest first.
batch_runs_example :
    (let (p, q) = writes (10 ∷ 11 ∷ []) new_producer ring in
      (run_in_my_thread ◌∷◌ 0 true 5 new_consumer (produce p q 12).2 []).2)
    ≡ 11 ∷ 10 ∷ []
batch_runs_example =
    batch_runs ◌∷◌ 0 ring (10 ∷ 11 ∷ []) 12 5 [] ring-IsNew (omega arith) refl (omega arith)
