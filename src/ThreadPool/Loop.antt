-- ===== src/ThreadPool/Loop.antt =====
-- ThreadPool/MyThreadPool: the loop of a pool thread.
use enhanced_proxy.Common.{
  ℕ, zero, suc, ◌+◌, ◌*◌, ◌≤◌, ◌<◌, ◌≡◌, ◌≢◌, refl, sym, ap, ◌∙◌, Bool, true, false, none, some,
  List, [], ◌∷◌, arith, length, if◌then◌else◌,
}
use enhanced_proxy.CircleQueue.{CircleQueue}
use enhanced_proxy.CircleQueue.Grants.{read_waits}
use enhanced_proxy.ThreadPool.{Consumer, load, new_producer, new_consumer, produce, consume}
use enhanced_proxy.ThreadPool.Safety.{IsNew}
use enhanced_proxy.ThreadPool.Filling.{writes, Holds, with_array}
use enhanced_proxy.ThreadPool.Batches.{IsReading, consume-inside, consume-first, batch_published}

module _ {ℓ} {T : Type ℓ} {W : Type 0} (run : T → W → W) (default : T) where
  -- `MyThreadPool::runInMyThread` for at most as many rounds, or until `consumer.read` waits; `run`
  -- is the call of a task, and `yield` changes nothing.
  unfoldable pub run_in_my_thread :
      Bool → ℕ → Consumer → CircleQueue T → W → Consumer × CircleQueue T × W
  run_in_my_thread running zero c q w = (c, q, w)
  run_in_my_thread running (suc rounds) c q w = elim running [
    | false ↦ (c, q, w)
    | true ↦ elim (consume default c q) [
      | none ↦ (c, q, w)
      | some (entry, second, c', q') ↦
          run_in_my_thread running rounds c' q' (if second then run entry w else w)
    ]
  ]

  -- The tasks, one after the other.
  abbrev pub run_all : List T → W → W
  run_all [] w = w
  run_all (obj ∷ objs) w = run_all objs (run obj w)

  run_waits :
      (rounds k : ℕ) (c : Consumer) (q : CircleQueue T) (w : W)
      → IsReading k k c
      → q.readable_queue ≡ []
      → (run_in_my_thread true rounds c q w).2 ≡ w
  unfolding run_in_my_thread consume
  run_waits zero k c q w r e = refl
  run_waits (suc rounds) k c q w r e = ground (arith, r.current, r.end, read_waits q e)

  run_same :
      (rounds : ℕ) (c d : Consumer) (q r : CircleQueue T) (w : W)
      → consume default c q ≡ consume default d r
      → consume default d r ≢ none
      → run_in_my_thread true (suc rounds) c q w ≡ run_in_my_thread true (suc rounds) d r w
  unfolding run_in_my_thread
  run_same rounds c d q r w e n = ground (arith, e, n)

  run_inside :
      (rounds k last : ℕ) (obj : T) (c : Consumer) (q : CircleQueue T) (w : W)
      → IsReading k last c
      → k < last
      → k < q.size
      → q.circle_array k ≡ obj
      → run_in_my_thread true (suc rounds) c q w
        ≡ run_in_my_thread true rounds (load c q).1 q (run obj w)
  unfolding run_in_my_thread
  run_inside rounds k last obj c q w r h small e =
      ground (arith, consume-inside default k last c q r h small, e)

  run_reads :
      (rounds k last : ℕ) (objs : List T) (c : Consumer) (q : CircleQueue T) (w : W)
      → IsReading k last c
      → k + length objs ≡ last
      → last ≤ q.size
      → q.readable_queue ≡ []
      → Holds q k objs
      → length objs ≤ rounds
      → (run_in_my_thread true rounds c q w).2 ≡ run_all objs w
  unfolding load
  run_reads rounds k last [] c q w r h small e holds enough =
      run_waits rounds k c q w (record { current = r.current; end = omega (arith, r.end) }) e
  run_reads zero k last (obj ∷ objs) c q w r h small e holds enough = absurd (omega (arith, enough))
  run_reads (suc rounds) k last (obj ∷ objs) c q w r h small e holds enough =
      let there : k + 0 ≡ k = omega arith in
      ap (λ x. x.2)
        (run_inside rounds k last obj c q w r (omega arith) (omega arith)
          (sym (ap q.circle_array there) ∙ holds 0 obj refl))
      ∙ run_reads rounds (k + 1) last objs (load c q).1 q (run obj w)
          (record { current = omega (arith, r.current); end = r.end }) (omega arith) small e
          (λ i x f.
            let same : k + 1 + i ≡ k + suc i = omega arith in
            ap q.circle_array same ∙ holds (suc i) x f)
          (omega (arith, enough))

  -- Once a new producer has written a whole step of tasks and one task more into a new queue with
  -- room for two steps and more, a pool thread that starts reading runs exactly the tasks of that
  -- step, each once and in the order in which they were written, and nothing more: so it is after
  -- every number of rounds that is at least the number of these tasks.
  pub batch_runs :
      (q : CircleQueue T) (objs : List T) (obj : T) (rounds : ℕ) (w : W)
      → IsNew q
      → 2 * q.try_size < q.size
      → length objs ≡ q.try_size
      → length objs ≤ rounds
      → (let (p', q') = writes objs new_producer q in
          (run_in_my_thread true rounds new_consumer (produce p' q' obj).2 w).2)
        ≡ run_all objs w
  batch_runs q objs obj zero w new small h enough = absurd (omega (arith, new.positive))
  batch_runs q objs obj (suc rounds) w new small h enough =
      let (p', q') = writes objs new_producer q in
      let r = (produce p' q' obj).2 in
      let (readable, size, holds) = batch_published q objs obj new small h in
      let c : Consumer = record { read_id = 0; readable_id = q.try_size } in
      let taken : CircleQueue T = with_array r [] r.write_id in
      let at_start : IsReading 0 q.try_size c = record { current = refl; end = refl } in
      let small : q.try_size ≤ r.size = omega (arith, size) in
      let loads =
        consume-inside default 0 q.try_size c taken at_start new.positive
          (omega (arith, new.positive)) in
      ap (λ x. x.2)
        (run_same rounds new_consumer c r taken w
          (consume-first default q.try_size r readable new.positive)
          (λ e. ground (arith, e, loads)))
      ∙ run_reads (suc rounds) 0 q.try_size objs c taken w at_start (omega (arith, h)) small refl
          holds enough
