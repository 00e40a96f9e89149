-- ===== src/ThreadPool/Ownership/Put.antt =====
-- A store into the own range keeps the invariant.
use enhanced_proxy.Common.{ℕ, ◌≤◌, ◌<◌, ◌≡◌, ◌≢◌, arith, ◌==◌, inl, inr, Bool-cases, ==_iff}
use mathlib.Core.Path.{subst, sym}
use native.Mathlib.Nat.{mod-eq_of_lt}
use enhanced_proxy.CircleQueue.{write}
use enhanced_proxy.ThreadPool.{store, System, after_put}
use enhanced_proxy.ThreadPool.Ownership.Defs.{Owner, unclaimed, producing, IsProducing, Holds, Inv}

module _ {ℓ} {T : Type ℓ} {owner : ℕ → Owner} {s : System T} (inv : Inv owner s) (i : ℕ) (obj : T)
    (mine : (s.producers i).cur_write_id < (s.producers i).writable_id) where
  abbrev cur : ℕ
  cur = (s.producers i).cur_write_id

  owner-cur : owner cur ≡ producing i
  owner-cur = (inv.producers i).owned cur (inv.producers i).ordered.0 mine

  cur-lt : cur < s.queue.size
  cur-lt = omega (arith, (inv.producers i).below, inv.first_lap)

  -- Another claimed index keeps its cell.
  Holds-put : (x : ℕ) → x ≢ cur → x < s.queue.size → Holds s x → Holds (after_put s i obj) x
  unfolding store write
  Holds-put x ne lt h = ground (arith, mod-eq_of_lt lt, mod-eq_of_lt cur-lt)

  Holds-put_self : Holds (after_put s i obj) cur
  unfolding store write
  Holds-put_self = ground arith

  below_size : (x : ℕ) → owner x ≢ unclaimed → x < s.queue.size
  below_size x h = ground (arith, inv.fresh x, inv.first_lap)

  put-producers : (k : ℕ) → IsProducing owner s.queue.write_id k ((after_put s i obj).producers k)
  unfolding store
  put-producers k = record {
    ordered = ground (arith, (inv.producers k).ordered);
    nonempty = ground (arith, (inv.producers k).nonempty);
    below = ground (arith, (inv.producers k).below);
    owned = λ x g h. ground (arith, (inv.producers k).owned x);
  }

  put-filled :
      (k x : ℕ)
      → ((after_put s i obj).producers k).write_id ≤ x
      → x < ((after_put s i obj).producers k).cur_write_id
      → Holds (after_put s i obj) x
  unfolding store
  put-filled k x g h = elim (Bool-cases (x == cur)) [
    | inl e ↦ subst (Holds (after_put s i obj)) (sym ((==_iff x cur).0 e)) Holds-put_self
    | inr e ↦
        Holds-put x (ground arith)
          (ground (arith, (inv.producers k).ordered, (inv.producers k).below, inv.first_lap))
          (inv.filled k x (ground arith) (ground arith))
  ]

  pub put-Inv : Inv owner (after_put s i obj)
  unfolding store write
  put-Inv = record {
    positive = inv.positive;
    first_lap = inv.first_lap;
    producers = put-producers;
    consumers = inv.consumers;
    sorted = inv.sorted;
    ranges = inv.ranges;
    fresh = inv.fresh;
    filled = put-filled;
    kept =
        λ x e. Holds-put x (ground (arith, owner-cur)) (below_size x (ground arith)) (inv.kept x e);
    taken = λ j x e.
        Holds-put x (ground (arith, owner-cur)) (below_size x (ground arith)) (inv.taken j x e);
    once = inv.once;
  }
