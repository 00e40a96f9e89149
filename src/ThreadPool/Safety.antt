-- ===== src/ThreadPool/Safety.antt =====
-- What holds in every interleaving as long as the indices stay in the first lap of the ring.
use enhanced_proxy.Common.{
  ℕ, ◌+◌, ◌≤◌, ◌<◌, ◌≡◌, refl, Option, none, some, List, [], ◌∷◌, arith, inl, inr, Bool-cases, ◌⊎◌,
  All, sym, ◌∙◌,
}
use enhanced_proxy.CircleQueue.Ranges.{Within}
use enhanced_proxy.CircleQueue.{
  Range, CircleQueue, try_write_space, try_read_space_by_cv, has_space, publish, write, read,
}
use enhanced_proxy.CircleQueue.Grants.{read_waits, read_takes_first}
use enhanced_proxy.ThreadPool.{
  System, start, Step, claim, put, fetch, get, Reach, here, next, after_claim, after_fetch, store,
  load,
}
use enhanced_proxy.ThreadPool.Ownership.{
  IsPublished, published, Owner, unclaimed, producing, consuming, loaded, Inv, claim-Inv, put-Inv,
  fetch-Inv, get-Inv,
}

-- No claim can be refused from here on: the next range still ends before the last cell.
abbrev pub InFirstLap {ℓ} : {T : Type ℓ} → System T → Type 0
InFirstLap s = s.queue.write_id + s.queue.try_size < s.queue.size

record Grows {ℓ} {T : Type ℓ} (q r : CircleQueue T) : Type 0 where
  size : r.size ≡ q.size
  try_size : r.try_size ≡ q.try_size
  write_id : q.write_id ≤ r.write_id

module _ {ℓ} {T : Type ℓ} where
  try_write_space-Grows : (q : CircleQueue T) (a b : ℕ) → Grows q (try_write_space q a b).1
  unfolding try_write_space
  try_write_space-Grows q a b =
      elim (Bool-cases (has_space q (publish q.readable_queue a b) (q.write_id + q.try_size))) [
        | inl e ↦ rw e (record { size = refl; try_size = refl; write_id = omega arith })
        | inr e ↦ rw e (record { size = refl; try_size = refl; write_id = omega arith })
      ]

  claim-Grows :
      (s : System T) (i : ℕ) (r : Option Range × CircleQueue T)
      → Grows s.queue r.1
      → Grows s.queue (after_claim s i r).queue
  claim-Grows s i (none, q) g = g
  claim-Grows s i (some r, q) g = g

  fetch-Grows :
      (s : System T) (j : ℕ) → Grows s.queue (after_fetch s j (try_read_space_by_cv s.queue)).queue
  fetch-Grows s j = go s.queue.readable_queue refl
    where
      go :
          (l : List Range)
          → s.queue.readable_queue ≡ l
          → Grows s.queue (after_fetch s j (try_read_space_by_cv s.queue)).queue
      go [] e =
          rw (read_waits s.queue e)
            (record { size = refl; try_size = refl; write_id = omega arith })
      go (r ∷ l) e =
          rw (read_takes_first s.queue r l e)
            (record { size = refl; try_size = refl; write_id = omega arith })

  Step-Grows : {s t : System T} → Step s t → Grows s.queue t.queue
  unfolding store write
  Step-Grows {s = s} (claim i h) =
      claim-Grows s i (try_write_space s.queue (s.producers i).write_id (s.producers i).writable_id)
        (try_write_space-Grows s.queue (s.producers i).write_id (s.producers i).writable_id)
  Step-Grows (put i obj h) = record { size = refl; try_size = refl; write_id = omega arith }
  Step-Grows {s = s} (fetch j h) = fetch-Grows s j
  Step-Grows (get j h) = record { size = refl; try_size = refl; write_id = omega arith }

  Step-Inv :
      {s t : System T} {owner : ℕ → Owner}
      → Step s t
      → InFirstLap s
      → Inv owner s
      → (owner' : ℕ → Owner) × Inv owner' t
  Step-Inv (claim i h) room inv = (_, claim-Inv inv i h room)
  Step-Inv (put i obj h) room inv = (_, put-Inv inv i obj h)
  Step-Inv (fetch j h) room inv = fetch-Inv inv j
  Step-Inv (get j h) room inv = (_, get-Inv inv j h)

  start-Inv :
      (q : CircleQueue T)
      → q.readable_queue ≡ []
      → q.write_id ≡ 0
      → 0 < q.try_size
      → Inv (λ _. unclaimed) (start q)
  start-Inv q e z pos = record {
    positive = pos;
    first_lap = omega arith;
    producers = λ i. record {
      ordered = omega arith;
      nonempty = λ h. absurd (h refl);
      below = omega arith;
      owned = λ x g h. absurd (omega arith);
    };
    consumers = λ j. record {
      ordered = omega arith;
      below = omega arith;
      owned = λ x g h. absurd (omega arith);
    };
    sorted = rw e tt;
    ranges = rw e tt;
    fresh = λ x h. refl;
    filled = λ i x g h. absurd (omega arith);
    kept = λ x h. cc;
    taken = λ j x h. cc;
    once = λ x. refl;
  }

-- One of the ranges contains `x`.
abbrev pub Covers : List Range → ℕ → Type 0
Covers [] x = ⊥
Covers (r ∷ l) x = Within r x ⊎ Covers l x

-- `x` is in the range of a producer, in a published range, or among what a consumer has to load.
abbrev pub IsHeldBy {ℓ} : {T : Type ℓ} → System T → Owner → ℕ → Type 0
IsHeldBy s (producing i) x = Within ((s.producers i).write_id, (s.producers i).writable_id) x
IsHeldBy s (consuming j) x = Within ((s.consumers j).read_id, (s.consumers j).readable_id) x
IsHeldBy s published x = Covers s.queue.readable_queue x
IsHeldBy s _ x = ⊥

covered_published :
    (owner : ℕ → Owner) (limit x : ℕ) (l : List Range)
    → All (IsPublished owner limit) l
    → Covers l x
    → owner x ≡ published
covered_published owner limit x [] h c = absurd c
covered_published owner limit x (r ∷ l) h (inl w) = h.0.2 x w.0 w.1
covered_published owner limit x (r ∷ l) h (inr c) = covered_published owner limit x l h.1 c

owner_of_held {ℓ} :
    {T : Type ℓ} {s : System T} {owner : ℕ → Owner}
    → Inv owner s
    → (h : Owner) (x : ℕ) → IsHeldBy s h x
    → owner x ≡ h
owner_of_held inv (producing i) x w = (inv.producers i).owned x w.0 w.1
owner_of_held inv (consuming j) x w = (inv.consumers j).owned x w.0 w.1
owner_of_held {s} {owner} inv published x c =
    covered_published owner s.queue.write_id x s.queue.readable_queue inv.ranges c
owner_of_held inv unclaimed x h = absurd h
owner_of_held inv loaded x h = absurd h

-- A queue as its constructor leaves it, but for the sizes.
pub record IsNew {ℓ} {T : Type ℓ} (q : CircleQueue T) : Type ℓ where
  pub empty : q.readable_queue ≡ []
  pub first : q.write_id ≡ 0
  pub positive : 0 < q.try_size

module _ {ℓ} {T : Type ℓ} {q : CircleQueue T} (new : IsNew q) where
  Reach-Inv : {s : System T} → Reach q s → InFirstLap s → (owner : ℕ → Owner) × Inv owner s
  Reach-Inv here lap = (_, start-Inv q new.empty new.first new.positive)
  Reach-Inv (next {t = s} {u = t} r st) lap =
      let g : Grows s.queue t.queue = Step-Grows st in
      let early : InFirstLap s = omega (arith, g.size, g.try_size, g.write_id) in
      let (owner, inv) = Reach-Inv r early in Step-Inv st early inv

  -- In every interleaving from a new queue, while it is in its first lap, no index is held by two:
  -- whoever holds an index, a producer, a consumer or the set of published ranges, is its only
  -- holder.
  pub exclusive :
      {s : System T} (h k : Owner) (x : ℕ)
      → Reach q s
      → InFirstLap s
      → IsHeldBy s h x
      → IsHeldBy s k x
      → h ≡ k
  exclusive h k x r lap held held' =
      let (owner, inv) = Reach-Inv r lap in
      sym (owner_of_held inv h x held) ∙ owner_of_held inv k x held'

  -- In every interleaving from a new queue, while it is in its first lap, no index is loaded twice.
  loads-le-one : {s : System T} (x : ℕ) → Reach q s → InFirstLap s → s.loads x ≤ 1
  loads-le-one x r lap = let (owner, inv) = Reach-Inv r lap in ground (arith, inv.once x)

  -- In every interleaving from a new queue, while it is in its first lap, a consumer that has an
  -- index left loads the task that was stored under that index, and no consumer loaded it before.
  pub load-stored :
      {s : System T} (j : ℕ)
      → Reach q s
      → InFirstLap s
      → (s.consumers j).read_id < (s.consumers j).readable_id
      → (s.stored (s.consumers j).read_id ≡ some (load (s.consumers j) s.queue).0)
        × (s.loads (s.consumers j).read_id ≡ 0)
  unfolding load read
  load-stored {s} j r lap h =
      let (owner, inv) = Reach-Inv r lap in
      let mine : owner (s.consumers j).read_id ≡ consuming j =
        (inv.consumers j).owned (s.consumers j).read_id (omega arith) h in
      (inv.taken j (s.consumers j).read_id mine, ground (arith, inv.once (s.consumers j).read_id))
