-- ===== src/ThreadPool/Ownership/Take.antt =====
-- The steps of a consumer keep the invariant.
use enhanced_proxy.Common.{
  ℕ, ◌<◌, ◌≡◌, refl, some, List, [], ◌∷◌, arith, ◌==◌, leb, ltb, if◌then◌else◌, update, All, ◌&&◌,
  inl, inr, Bool-cases,
}
use mathlib.Core.Path.{subst}
use enhanced_proxy.CircleQueue.{Range, try_read_space_by_cv}
use enhanced_proxy.CircleQueue.Ranges.{IsSorted, All-map, Before}
use enhanced_proxy.CircleQueue.Grants.{read_waits, read_takes_first}
use enhanced_proxy.ThreadPool.{load, System, after_get, after_fetch}
use enhanced_proxy.ThreadPool.Ownership.Defs.{
  Owner, loaded, consuming, IsProducing, IsConsuming, IsPublished, Holds, Inv,
}

module _ {ℓ} {T : Type ℓ} {owner : ℕ → Owner} {s : System T} (inv : Inv owner s) (j : ℕ) where
  module _ (a b : ℕ) (rest : List Range) (split : s.queue.readable_queue ≡ (a, b) ∷ rest) where
    abbrev owner' : ℕ → Owner
    owner' x = if leb a x && ltb x b then consuming j else owner x

    abbrev s' : System T
    s' = after_fetch s j (some (some (a, b), record s.queue { readable_queue = rest }))

    first_range : IsPublished owner s.queue.write_id (a, b)
    first_range = (subst (All (IsPublished owner s.queue.write_id)) split inv.ranges).0

    other_ranges : All (IsPublished owner s.queue.write_id) rest
    other_ranges = (subst (All (IsPublished owner s.queue.write_id)) split inv.ranges).1

    order : All (Before (a, b)) rest × IsSorted rest
    order = subst IsSorted split inv.sorted

    both {κ κ'} :
        (P : Range → Type κ) (Q : Range → Type κ') (l : List Range)
        → All P l
        → All Q l
        → All (λ r. P r × Q r) l
    both P Q [] h k = tt
    both P Q (r ∷ l) h k = ((h.0, k.0), both P Q l h.1 k.1)

    fetch-ranges : All (IsPublished owner' s.queue.write_id) rest
    fetch-ranges =
        All-map (λ r h. (h.1.0, h.1.1, λ x f g. ground (arith, h.1.2 x, h.0))) rest
          (both (Before (a, b)) (IsPublished owner s.queue.write_id) rest order.0 other_ranges)

    fetch-consumers : (k : ℕ) → IsConsuming owner' s.queue.write_id k (s'.consumers k)
    fetch-consumers k = elim (Bool-cases (j == k)) [
      | inl e ↦ record {
        ordered = ground (arith, first_range.0);
        below = ground (arith, first_range.1);
        owned = λ x g h. ground arith;
      }
      | inr e ↦ record {
        ordered = ground (arith, (inv.consumers k).ordered);
        below = ground (arith, (inv.consumers k).below);
        owned = λ x g h. ground (arith, (inv.consumers k).owned x, first_range.2 x);
      }
    ]

    fetch-producers : (k : ℕ) → IsProducing owner' s.queue.write_id k (s.producers k)
    fetch-producers k = record {
      ordered = (inv.producers k).ordered;
      nonempty = (inv.producers k).nonempty;
      below = (inv.producers k).below;
      owned = λ x g h. ground (arith, (inv.producers k).owned x, first_range.2 x);
    }

    fetch-taken : (k x : ℕ) → owner' x ≡ consuming k → Holds s x
    fetch-taken k x e = elim (Bool-cases (leb a x && ltb x b)) [
      | inl f ↦ inv.kept x (first_range.2 x (ground arith) (ground arith))
      | inr f ↦ inv.taken k x (ground arith)
    ]

    fetched-Inv : Inv owner' s'
    fetched-Inv = record {
      positive = inv.positive;
      first_lap = inv.first_lap;
      producers = fetch-producers;
      consumers = fetch-consumers;
      sorted = order.1;
      ranges = fetch-ranges;
      fresh = λ x h. ground (arith, inv.fresh x h, first_range.1);
      filled = inv.filled;
      kept = λ x e. inv.kept x (ground arith);
      taken = fetch-taken;
      once = λ x. ground (arith, inv.once x, first_range.2 x);
    }

  pub fetch-Inv : (owner' : ℕ → Owner) × Inv owner' (after_fetch s j (try_read_space_by_cv s.queue))
  fetch-Inv = go s.queue.readable_queue refl
    where
      go :
          (l : List Range)
          → s.queue.readable_queue ≡ l
          → (owner' : ℕ → Owner) × Inv owner' (after_fetch s j (try_read_space_by_cv s.queue))
      go [] e = (owner, rw (read_waits s.queue e) inv)
      go ((a, b) ∷ l) e =
          (owner' a b l e, rw (read_takes_first s.queue (a, b) l e) (fetched-Inv a b l e))

  pub get-Inv :
      (s.consumers j).read_id < (s.consumers j).readable_id
      → Inv (update owner (s.consumers j).read_id loaded) (after_get s j)
  unfolding load
  get-Inv h = record {
    positive = inv.positive;
    first_lap = inv.first_lap;
    producers = λ k. record {
      ordered = (inv.producers k).ordered;
      nonempty = (inv.producers k).nonempty;
      below = (inv.producers k).below;
      owned = λ x f g. ground (arith, (inv.producers k).owned x, mine);
    };
    consumers = λ k. record {
      ordered = ground (arith, (inv.consumers k).ordered);
      below = ground (arith, (inv.consumers k).below);
      owned = λ x f g. ground (arith, (inv.consumers k).owned x, mine);
    };
    sorted = inv.sorted;
    ranges =
        All-map (λ r o. (o.0, o.1, λ x f g. ground (arith, o.2 x, mine))) s.queue.readable_queue
          inv.ranges;
    fresh = λ x f. ground (arith, inv.fresh x, (inv.consumers j).below);
    filled = inv.filled;
    kept = λ x e. inv.kept x (ground arith);
    taken = λ k x e. inv.taken k x (ground arith);
    once = λ x. ground (arith, inv.once x, mine);
  }
    where
      mine : owner (s.consumers j).read_id ≡ consuming j
      mine = (inv.consumers j).owned (s.consumers j).read_id (omega arith) h
