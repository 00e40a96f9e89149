-- ===== src/ThreadPool/Ownership/Claim.antt =====
-- A granted claim keeps the invariant.
use enhanced_proxy.Common.{
  ℕ, ◌+◌, ◌≤◌, ◌<◌, ◌≡◌, some, arith, ◌==◌, leb, ltb, if◌then◌else◌, All, ◌&&◌, inl, inr,
  Bool-cases,
}
use enhanced_proxy.CircleQueue.{Range, try_write_space, publish}
use enhanced_proxy.CircleQueue.Ranges.{
  IsSorted, Apart, All-insert, All-map, insert-IsSorted, Apart-of_disjoint,
}
use enhanced_proxy.CircleQueue.Grants.{try_write_space_early}
use enhanced_proxy.ThreadPool.{Producer, System, after_claim}
use enhanced_proxy.ThreadPool.Ownership.Defs.{
  Owner, published, loaded, producing, consuming, IsProducing, IsConsuming, IsPublished, Holds, Inv,
}

module _ {ℓ} {T : Type ℓ} {owner : ℕ → Owner} {s : System T} (inv : Inv owner s) (i : ℕ)
    (used : (s.producers i).writable_id ≤ (s.producers i).cur_write_id)
    (room : s.queue.write_id + s.queue.try_size < s.queue.size) where
  abbrev p : Producer
  p = s.producers i

  abbrev limit : ℕ
  limit = s.queue.write_id

  abbrev limit' : ℕ
  limit' = s.queue.write_id + s.queue.try_size

  -- The old range is published, the new one is producer `i`'s.
  abbrev owner' : ℕ → Owner
  owner' x =
      if leb limit x && ltb x limit'
      then producing i
      else (if leb p.write_id x && ltb x p.writable_id then published else owner x)

  abbrev s' : System T
  s' = after_claim s i (
    some (limit, limit'),
    record s.queue {
      readable_queue = publish s.queue.readable_queue p.write_id p.writable_id;
      write_id = limit';
    },
  )

  claim-producers : (k : ℕ) → IsProducing owner' limit' k (s'.producers k)
  claim-producers k = elim (Bool-cases (i == k)) [
    | inl e ↦ record {
      ordered = ground arith;
      nonempty = ground (arith, inv.positive);
      below = ground arith;
      owned = λ x g h. ground arith;
    }
    | inr e ↦ record {
      ordered = ground (arith, (inv.producers k).ordered);
      nonempty = ground (arith, (inv.producers k).nonempty);
      below = ground (arith, (inv.producers k).below);
      owned = λ x g h.
          ground
            (arith, (inv.producers k).owned x, (inv.producers i).owned x, (inv.producers k).below);
    }
  ]

  claim-consumers : (k : ℕ) → IsConsuming owner' limit' k (s'.consumers k)
  claim-consumers k = record {
    ordered = (inv.consumers k).ordered;
    below = omega (arith, (inv.consumers k).below);
    owned = λ x g h.
        ground
          (arith, (inv.consumers k).owned x, (inv.producers i).owned x, (inv.consumers k).below);
  }

  keep-IsPublished : (r : Range) → IsPublished owner limit r → IsPublished owner' limit' r
  keep-IsPublished r (f, b, o) =
      (f, omega arith, λ x g h. ground (arith, o x, (inv.producers i).owned x))

  old_range : Range
  old_range = (p.write_id, p.writable_id)

  Apart-of : (0 < p.writable_id) → (r : Range) → IsPublished owner limit r → Apart old_range r
  unfolding old_range
  Apart-of pos r (f, b, o) =
      Apart-of_disjoint old_range r ((inv.producers i).nonempty (omega arith)) f
        (λ x w v. ground (arith, o x v.0 v.1, (inv.producers i).owned x w.0 w.1))

  claim-IsSorted : IsSorted s'.queue.readable_queue
  unfolding publish old_range
  claim-IsSorted = elim (Bool-cases (p.writable_id == 0)) [
    | inl e ↦ rw e inv.sorted
    | inr e ↦ rw e (
        insert-IsSorted old_range s.queue.readable_queue ((inv.producers i).nonempty (ground arith))
          (All-map (Apart-of (ground arith)) s.queue.readable_queue inv.ranges)
          (All-map (λ r h. h.0) s.queue.readable_queue inv.ranges) inv.sorted)
  ]

  claim-ranges : All (IsPublished owner' limit') s'.queue.readable_queue
  unfolding publish old_range
  claim-ranges = elim (Bool-cases (p.writable_id == 0)) [
    | inl e ↦ rw e (All-map keep-IsPublished s.queue.readable_queue inv.ranges)
    | inr e ↦ rw e (
        All-insert (IsPublished owner' limit') old_range (old_IsPublished (ground arith))
          s.queue.readable_queue (All-map keep-IsPublished s.queue.readable_queue inv.ranges))
  ]
    where
      old_IsPublished : 0 < p.writable_id → IsPublished owner' limit' old_range
      old_IsPublished pos = (
        (inv.producers i).nonempty (omega arith),
        omega (arith, (inv.producers i).below),
        λ x g h. ground (arith, (inv.producers i).below),
      )

  claim-filled :
      (k x : ℕ) → (s'.producers k).write_id ≤ x → x < (s'.producers k).cur_write_id → Holds s' x
  claim-filled k x g h = elim (Bool-cases (i == k)) [
    | inl e ↦ absurd (ground arith)
    | inr e ↦ inv.filled k x (ground arith) (ground arith)
  ]

  claim-kept : (x : ℕ) → owner' x ≡ published → Holds s' x
  claim-kept x e = elim (Bool-cases (leb p.write_id x && ltb x p.writable_id)) [
    | inl f ↦ inv.filled i x (ground arith) (ground arith)
    | inr f ↦ inv.kept x (ground arith)
  ]

  claim-taken : (j x : ℕ) → owner' x ≡ consuming j → Holds s' x
  claim-taken j x e = inv.taken j x (ground arith)

  claim-once : (x : ℕ) → s.loads x ≡ (elim (owner' x) [ loaded ↦ 1 | _ ↦ 0 ])
  claim-once x = ground (arith, inv.once x, inv.fresh x, (inv.producers i).owned x)

  granted-Inv : Inv owner' s'
  granted-Inv = record {
    positive = inv.positive;
    first_lap = omega arith;
    producers = claim-producers;
    consumers = claim-consumers;
    sorted = claim-IsSorted;
    ranges = claim-ranges;
    fresh = λ x h. ground (arith, inv.fresh x, (inv.producers i).below);
    filled = claim-filled;
    kept = claim-kept;
    taken = claim-taken;
    once = claim-once;
  }

  pub claim-Inv : Inv owner' (
      after_claim s i
        (try_write_space s.queue (s.producers i).write_id (s.producers i).writable_id))
  claim-Inv = rw (try_write_space_early s.queue p.write_id p.writable_id room) granted-Inv
