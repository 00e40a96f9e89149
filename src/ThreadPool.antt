-- ===== src/ThreadPool.antt =====
-- ThreadPool/Producer.h and ThreadPool/Consumer.h over the shared CircleQueue, and their
-- interleavings as the threads of ThreadPool/MyThreadPool run them.
pub mod Ownership
pub mod Safety
pub mod Refusal
pub mod Calls
pub mod Filling
pub mod Batches
pub mod Loop
mod Tests
use enhanced_proxy.Common.{
  ℕ, ◌+◌, ◌%◌, ◌≤◌, ◌<◌, ◌≡◌, Bool, true, false, Option, none, some, leb, if◌then◌else◌, update,
}
use enhanced_proxy.CircleQueue.{
  Range, CircleQueue, init, try_write_space, try_read_space_by_cv, read, write,
}

-- `Producer`, without its reference to the queue.
pub record Producer : Type 0 where
  pub write_id : ℕ
  pub cur_write_id : ℕ
  pub writable_id : ℕ

-- `Consumer`, without its reference to the queue.
pub record Consumer : Type 0 where
  pub read_id : ℕ
  pub readable_id : ℕ

-- The constructors' values.
abbrev pub new_producer : Producer
new_producer = record { write_id = 0; cur_write_id = 0; writable_id = 0 }

abbrev pub new_consumer : Consumer
new_consumer = record { read_id = 0; readable_id = 0 }

-- What `Producer::write` does with a granted range.
abbrev pub accept : Producer → Range → Producer
accept p (a, b) = record { write_id = a; cur_write_id = a; writable_id = b }

-- What `Consumer::read` does with a range that it got.
abbrev pub adopt : Range → Consumer
adopt (a, b) = record { read_id = a; readable_id = b }

module _ {ℓ} {T : Type ℓ} where
  -- `circleArray.write(curWriteId++, obj)`
  unfoldable pub store : Producer → CircleQueue T → T → Producer × CircleQueue T
  store p q obj = (record p { cur_write_id = p.cur_write_id + 1 }, write q p.cur_write_id obj)

  -- The rest of `Producer::write` after the call of `tryWriteSpace`.
  unfoldable pub write_granted :
      Producer → Option Range → CircleQueue T → T → Bool × Producer × CircleQueue T
  write_granted p none q obj = (false, p, q)
  write_granted p (some r) q obj = let (p', q') = store (accept p r) q obj in (true, p', q')

  -- `Producer::write`
  unfoldable pub produce : Producer → CircleQueue T → T → Bool × Producer × CircleQueue T
  unfolding store write_granted
  produce p q obj =
      if leb p.writable_id p.cur_write_id
      then (let (space, q') = try_write_space q p.write_id p.writable_id in
          write_granted p space q' obj)
      else (let (p', q') = store p q obj in (true, p', q'))

  -- `circleArray.read(readId++)`
  unfoldable pub load : Consumer → CircleQueue T → T × Consumer
  load c q = (read q c.read_id, record c { read_id = c.read_id + 1 })

  -- The rest of `Consumer::read` after the call of `tryReadSpaceByCV`; `default` is `T()`.
  unfoldable pub read_taken :
      T → Consumer → Option Range → CircleQueue T → T × Bool × Consumer × CircleQueue T
  read_taken default c none q = (default, false, c, q)
  read_taken default c (some r) q = let (t, c') = load (adopt r) q in (t, true, c', q)

  -- `Consumer::read`; `none` while it waits.
  unfoldable pub consume :
      T → Consumer → CircleQueue T → Option (T × Bool × Consumer × CircleQueue T)
  unfolding load read_taken
  consume default c q =
      if leb c.readable_id c.read_id
      then (elim (try_read_space_by_cv q) [
        | none ↦ none
        | some (space, q') ↦ some (read_taken default c space q')
      ])
      else (let (t, c') = load c q in some (t, true, c', q))

-- The queue with all producers and consumers, and what an observer notes: the task that was stored
-- under each index, and how often each index was loaded. No step looks at the last two.
pub record System {ℓ} (T : Type ℓ) : Type ℓ where
  pub queue : CircleQueue T
  pub producers : ℕ → Producer
  pub consumers : ℕ → Consumer
  pub stored : ℕ → Option T
  pub loads : ℕ → ℕ

abbrev pub start {ℓ} : {T : Type ℓ} → CircleQueue T → System T
start q = record {
  queue = q;
  producers = λ _. new_producer;
  consumers = λ _. new_consumer;
  stored = λ _. none;
  loads = λ _. 0;
}

-- Where a claim of producer `i` and a fetch of consumer `j` leave the system.
abbrev pub after_claim {ℓ} : {T : Type ℓ} → System T → ℕ → Option Range × CircleQueue T → System T
after_claim s i (none, q) = record s { queue = q }
after_claim s i (some r, q) = record s {
  queue = q;
  producers = update s.producers i (accept (s.producers i) r);
}

abbrev pub after_fetch {ℓ} :
    {T : Type ℓ} → System T → ℕ → Option (Option Range × CircleQueue T) → System T
after_fetch s j none = s
after_fetch s j (some (none, q)) = record s { queue = q }
after_fetch s j (some (some r, q)) = record s {
  queue = q;
  consumers = update s.consumers j (adopt r);
}

abbrev pub after_put {ℓ} : {T : Type ℓ} → System T → ℕ → T → System T
after_put s i obj = record s {
  queue = (store (s.producers i) s.queue obj).1;
  producers = update s.producers i (store (s.producers i) s.queue obj).0;
  stored = update s.stored (s.producers i).cur_write_id (some obj);
}

abbrev pub after_get {ℓ} : {T : Type ℓ} → System T → ℕ → System T
after_get s j = record s {
  consumers = update s.consumers j (load (s.consumers j) s.queue).1;
  loads = update s.loads (s.consumers j).read_id (s.loads (s.consumers j).read_id + 1);
}

-- The accesses of the threads, in any order. A call of `produce` is a claim, if the range is used
-- up, and then a put, unless the claim is refused; a call of `consume` is a fetch, if the range is
-- used up, and then a get; a fetch that has to wait changes nothing. Other threads may move in
-- between.
pub data Step {ℓ} {T : Type ℓ} (s : System T) : System T → Type ℓ where
  claim :
      (i : ℕ)
      → (s.producers i).writable_id ≤ (s.producers i).cur_write_id
      → Step s (
          after_claim s i
            (try_write_space s.queue (s.producers i).write_id (s.producers i).writable_id))
  put :
      (i : ℕ) (obj : T)
      → (s.producers i).cur_write_id < (s.producers i).writable_id
      → Step s (after_put s i obj)
  fetch :
      (j : ℕ)
      → (s.consumers j).readable_id ≤ (s.consumers j).read_id
      → Step s (after_fetch s j (try_read_space_by_cv s.queue))
  get : (j : ℕ) → (s.consumers j).read_id < (s.consumers j).readable_id → Step s (after_get s j)

pub data Steps {ℓ} {T : Type ℓ} (s : System T) : System T → Type ℓ where
  here : Steps s s
  next : {t u : System T} → Steps s t → Step t u → Steps s u

abbrev pub Reach {ℓ} : {T : Type ℓ} → CircleQueue T → System T → Type ℓ
Reach q s = Steps (start q) s
