-- ===== src/ThreadPool/Calls.antt =====
-- The calls `produce` and `consume` as runs of the steps.
use mathlib.Core.Path.{subst}
use enhanced_proxy.Common.{
  ℕ, ◌+◌, ◌≤◌, ◌<◌, ◌≡◌, refl, Option, none, some, List, [], ◌∷◌, arith, inl, inr, Bool-cases, Bool,
  true, false, suc, ◌-◌, leb, ==_refl, All,
}
use enhanced_proxy.CircleQueue.{Range, CircleQueue, try_write_space}
use enhanced_proxy.CircleQueue.Ranges.{IsFull}
use enhanced_proxy.CircleQueue.Grants.{read_waits, read_takes_first}
use enhanced_proxy.ThreadPool.{
  Producer, Consumer, System, Steps, here, next, claim, put, fetch, get, load, consume, after_claim,
  after_put, after_fetch, after_get, read_taken,
}
use enhanced_proxy.CircleQueue.{read, try_read_space_by_cv}

abbrev IsFullRange : Option Range → Type 0
IsFullRange none = Unit
IsFullRange (some r) = IsFull r

module _ {ℓ} {T : Type ℓ} (s : System T) (i : ℕ) where
  -- Steps of producer `i` alone, and how many.
  pub data ProducerRun : ℕ → System T → Type ℓ where
    rests : ProducerRun 0 s
    claims :
        {n : ℕ} {t : System T}
        → ProducerRun n t
        → (t.producers i).writable_id ≤ (t.producers i).cur_write_id
        → ProducerRun (suc n) (
            after_claim t i
              (try_write_space t.queue (t.producers i).write_id (t.producers i).writable_id))
    puts :
        {n : ℕ} {t : System T} (obj : T)
        → ProducerRun n t
        → (t.producers i).cur_write_id < (t.producers i).writable_id
        → ProducerRun (suc n) (after_put t i obj)

  -- Steps of consumer `i` alone, and how many.
  pub data ConsumerRun : ℕ → System T → Type ℓ where
    rests_too : ConsumerRun 0 s
    fetches :
        {n : ℕ} {t : System T}
        → ConsumerRun n t
        → (t.consumers i).readable_id ≤ (t.consumers i).read_id
        → ConsumerRun (suc n) (after_fetch t i (try_read_space_by_cv t.queue))
    gets :
        {n : ℕ} {t : System T}
        → ConsumerRun n t
        → (t.consumers i).read_id < (t.consumers i).readable_id
        → ConsumerRun (suc n) (after_get t i)

  ProducerRun-Steps : {n : ℕ} {t : System T} → ProducerRun n t → Steps s t
  ProducerRun-Steps rests = here
  ProducerRun-Steps (claims r h) = next (ProducerRun-Steps r) (claim i h)
  ProducerRun-Steps (puts obj r h) = next (ProducerRun-Steps r) (put i obj h)

  ConsumerRun-Steps : {n : ℕ} {t : System T} → ConsumerRun n t → Steps s t
  ConsumerRun-Steps rests_too = here
  ConsumerRun-Steps (fetches r h) = next (ConsumerRun-Steps r) (fetch i h)
  ConsumerRun-Steps (gets r h) = next (ConsumerRun-Steps r) (get i h)

  -- What a call of `Producer::write` on `obj` returns is what the steps leave: the producer, the
  -- queue, and as its Boolean whether the task was stored, under the index before the producer's.
  pub record Produces (obj : T) (r : Bool × Producer × CircleQueue T) : Type ℓ where
    pub steps : ℕ
    pub end : System T
    pub run : ProducerRun steps end
    pub few : steps ≤ 2
    pub producer : end.producers i ≡ r.1
    pub queue : end.queue ≡ r.2
    pub put_there : r.0 ≡ true → end.stored (r.1.cur_write_id - 1) ≡ some obj
    pub refused : r.0 ≡ false → end.stored ≡ s.stored

  -- The same of a call of `Consumer::read`: its Boolean says whether a task was loaded, and the task
  -- is the one under the index before the consumer's.
  pub record Consumes (r : T × Bool × Consumer × CircleQueue T) : Type ℓ where
    pub steps : ℕ
    pub end : System T
    pub run : ConsumerRun steps end
    pub few : steps ≤ 2
    pub consumer : end.consumers i ≡ r.2
    pub queue : end.queue ≡ r.3
    pub task : r.1 ≡ true → r.0 ≡ read end.queue (r.2.read_id - 1)
    pub loaded : r.1 ≡ true → end.loads (r.2.read_id - 1) ≡ s.loads (r.2.read_id - 1) + 1
    pub nothing : r.1 ≡ false → end.loads ≡ s.loads

  abbrev p : Producer
  p = s.producers i

  abbrev c : Consumer
  c = s.consumers i

  fetch_then_get :
      (default : T) (r : Range) (l : List Range)
      → c.readable_id ≤ c.read_id
      → s.queue.readable_queue ≡ r ∷ l
      → IsFull r
      → Consumes (read_taken default c (some r) (record s.queue { readable_queue = l }))
  unfolding read_taken load
  fetch_then_get default (a, b) l h e f =
      let q = record s.queue { readable_queue = l } in
      let t = after_fetch s i (some (some (a, b), q)) in
      record {
        steps = 2;
        end = after_get t i;
        run =
            gets
              (subst (λ x. ConsumerRun 1 (after_fetch s i x)) (read_takes_first s.queue (a, b) l e)
                (fetches rests_too h))
              (rw ==_refl f);
        few = omega arith;
        consumer = ground arith;
        queue = refl;
        task = λ ok. ground arith;
        loaded = λ ok. ground arith;
        nothing = λ ok. cc;
      }

  -- A call of `Consumer::read` that does not wait is a run of at most two steps of its thread alone,
  -- if no published range is empty: it leaves the consumer and the queue that the call leaves; if it
  -- returns true, it returns the task under the index before the consumer's, which was loaded once
  -- more, and if it returns false, nothing was loaded.
  pub consume-Steps :
      (default : T) {r : T × Bool × Consumer × CircleQueue T}
      → All IsFull s.queue.readable_queue
      → consume default c s.queue ≡ some r
      → Consumes r
  unfolding consume load
  consume-Steps default {r} full e = elim (Bool-cases (leb c.readable_id c.read_id)) [
    | inl f ↦ go s.queue.readable_queue refl f
    | inr f ↦
        let same : (read s.queue c.read_id, true, record c { read_id = c.read_id + 1 }, s.queue)
            ≡ r =
          ground (arith, e, f) in
        subst Consumes same (record {
          steps = 1;
          end = after_get s i;
          run = gets rests_too (ground arith);
          few = omega arith;
          consumer = ground arith;
          queue = refl;
          task = λ ok. ground arith;
          loaded = λ ok. ground arith;
          nothing = λ ok. cc;
        })
  ]
    where
      go :
          (l : List Range)
          → s.queue.readable_queue ≡ l
          → leb c.readable_id c.read_id ≡ true
          → Consumes r
      go [] d f = absurd (ground (arith, read_waits s.queue d, e, f))
      go (x ∷ l) d f =
          let found = fetch_then_get default x l (ground arith) d (subst (All IsFull) d full).0 in
          let same : read_taken default c (some x) (record s.queue { readable_queue = l }) ≡ r =
            ground (arith, read_takes_first s.queue x l d, e, f) in
          subst Consumes same found
