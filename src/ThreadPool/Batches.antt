-- ===== src/ThreadPool/Batches.antt =====
-- One producer and one consumer on a new queue: how a whole range of tasks arrives.
use native.Mathlib.Nat.{mod-eq_of_lt}
use mathlib.Core.Path.{subst}
use enhanced_proxy.Common.{
  ℕ, ◌+◌, ◌*◌, ◌%◌, ◌≤◌, ◌<◌, ◌≡◌, sym, ◌∙◌, true, none, some, List, [], ◌∷◌, arith, length,
}
use enhanced_proxy.CircleQueue.{CircleQueue, publish, insert, read, write}
use enhanced_proxy.CircleQueue.Grants.{try_write_space_early, read_waits, read_takes_first}
use enhanced_proxy.ThreadPool.{
  Producer, Consumer, new_producer, new_consumer, store, write_granted, produce, load, read_taken,
  consume,
}
use enhanced_proxy.ThreadPool.Safety.{IsNew}
use enhanced_proxy.ThreadPool.Filling.{
  writes, IsFilling, Holds, get_elem?-lt, with_array, new_batch,
}

-- A consumer at `k` of a range that ends at `last`.
pub record IsReading (k last : ℕ) (c : Consumer) : Type 0 where
  pub current : c.read_id ≡ k
  pub end : c.readable_id ≡ last

module _ {ℓ} {T : Type ℓ} where
  pub consume-inside :
      (default : T) (k last : ℕ) (c : Consumer) (q : CircleQueue T)
      → IsReading k last c
      → k < last
      → k < q.size
      → consume default c q ≡ some (q.circle_array k, true, (load c q).1, q)
  unfolding consume load read
  consume-inside default k last c q r h small =
      let at : c.read_id % q.size ≡ k = (λ i. r.current i % q.size) ∙ mod-eq_of_lt small in
      ground (arith, r.end, r.current, at)

  -- What a call of a producer with a used-up range leaves of the queue, if it is granted another.
  abbrev claimed_queue : Producer → CircleQueue T → T → CircleQueue T
  claimed_queue p q obj =
      write
        (with_array q (publish q.readable_queue p.write_id p.writable_id) (q.write_id + q.try_size))
        q.write_id obj

  produce-claims :
      (p : Producer) (q : CircleQueue T) (obj : T)
      → p.writable_id ≤ p.cur_write_id
      → q.write_id + q.try_size < q.size
      → (produce p q obj).2 ≡ claimed_queue p q obj
  unfolding produce write_granted store
  produce-claims p q obj h room =
      ground (arith, try_write_space_early q p.write_id p.writable_id room)

  -- The range is used up: the next call publishes it and claims another.
  produce-publishes :
      (size step : ℕ) (p : Producer) (q : CircleQueue T) (obj : T)
      → IsFilling size step step p q
      → 0 < step
      → 2 * step < size
      → (let r = (produce p q obj).2 in
          (r.readable_queue ≡ (0, step) ∷ [])
          × (r.size ≡ size)
          × ((j : ℕ) → j < step → r.circle_array j ≡ q.circle_array j))
  unfolding write publish insert
  produce-publishes size step p q obj f pos small =
      let claims =
        produce-claims p q obj (omega (arith, f.current, f.last))
          (omega (arith, f.claimed, f.same_step, f.whole)) in
      subst
        (λ r.
          (r.readable_queue ≡ (0, step) ∷ [])
          × (r.size ≡ size)
          × ((j : ℕ) → j < step → r.circle_array j ≡ q.circle_array j))
        (sym claims) (published_range, f.whole, other_cells)
    where
      published_range : (claimed_queue p q obj).readable_queue ≡ (0, step) ∷ []
      published_range = ground (arith, f.first, f.last, f.empty)

      at : q.write_id % q.size ≡ step
      at = (λ i. f.claimed i % f.whole i) ∙ mod-eq_of_lt (omega arith)

      other_cells : (j : ℕ) → j < step → (claimed_queue p q obj).circle_array j ≡ q.circle_array j
      other_cells j h = ground (arith, at)

  pub consume-first :
      (default : T) (step : ℕ) (r : CircleQueue T)
      → r.readable_queue ≡ (0, step) ∷ []
      → 0 < step
      → consume default new_consumer r
        ≡ consume default record { read_id = 0; readable_id = step } (with_array r [] r.write_id)
  unfolding consume read_taken load read
  consume-first default step r e pos = ground (arith, read_takes_first r (0, step) [] e)

  waits :
      (default : T) (r : CircleQueue T)
      → r.readable_queue ≡ []
      → consume default new_consumer r ≡ none
  unfolding consume
  waits default r e = ground (arith, read_waits r e)

  -- On a new queue whose steps are shorter than the ring, a new producer's tasks stay out of every
  -- consumer's reach until it writes more than a whole step of them: after any number of writes up
  -- to `try_size`, a consumer that has no range waits.
  pub batch_waits :
      (default : T) (q : CircleQueue T) (objs : List T)
      → IsNew q
      → q.try_size < q.size
      → length objs ≤ q.try_size
      → consume default new_consumer (writes objs new_producer q).1 ≡ none
  unfolding writes
  batch_waits default q [] new small h = waits default q new.empty
  batch_waits default q (obj ∷ objs) new small h =
      let (filled, holds) = new_batch q obj objs new small h in
      waits default (writes (obj ∷ objs) new_producer q).1 filled.empty

  -- What a whole step of tasks and one task more leave of a new queue with room for two steps: the
  -- first step is published, and its cells hold the tasks.
  pub batch_published :
      (q : CircleQueue T) (objs : List T) (obj : T)
      → IsNew q
      → 2 * q.try_size < q.size
      → length objs ≡ q.try_size
      → (let (p', q') = writes objs new_producer q in
          let r = (produce p' q' obj).2 in
          (r.readable_queue ≡ (0, q.try_size) ∷ []) × (r.size ≡ q.size) × Holds r 0 objs)
  batch_published q [] obj new small h = absurd (omega (arith, new.positive))
  batch_published q (x ∷ objs) obj new small h =
      let (filled, holds) = new_batch q x objs new (omega arith) (omega (arith, h)) in
      let (p', q1) = writes (x ∷ objs) new_producer q in
      let (readable, size, kept) =
        produce-publishes q.size q.try_size p' q1 obj
          (subst (λ n. IsFilling q.size q.try_size n p' q1) h filled) new.positive small in
      (
        readable,
        size,
        λ i y e. kept (0 + i) (omega (arith, h, get_elem?-lt (x ∷ objs) i y e)) ∙ holds i y e,
      )
