-- ===== src/ThreadPool/Filling.antt =====
-- A producer that fills its first range of a new queue.
use native.Mathlib.Nat.{mod-eq_of_lt}
use mathlib.Core.Path.{subst}
use enhanced_proxy.Common.{
  ℕ, zero, suc, ◌+◌, ◌%◌, ◌≤◌, ◌<◌, ◌≡◌, refl, sym, ap, ◌∙◌, true, some, List, [], ◌∷◌, arith,
  length, get_elem?, update,
}
use enhanced_proxy.CircleQueue.{Range, CircleQueue, publish, write}
use enhanced_proxy.CircleQueue.Grants.{try_write_space_early}
use enhanced_proxy.ThreadPool.{Producer, new_producer, store, write_granted, produce}
use enhanced_proxy.ThreadPool.Safety.{IsNew}

module _ {ℓ} {T : Type ℓ} where
  -- Calls of `Producer::write`, one after the other.
  unfoldable pub writes : List T → Producer → CircleQueue T → Producer × CircleQueue T
  writes [] p q = (p, q)
  writes (obj ∷ objs) p q = let (ok, p', q') = produce p q obj in writes objs p' q'

  -- The producer has the first range and has written below `k`; nothing is published.
  pub record IsFilling (size step k : ℕ) (p : Producer) (q : CircleQueue T) : Type ℓ where
    pub first : p.write_id ≡ 0
    pub current : p.cur_write_id ≡ k
    pub last : p.writable_id ≡ step
    pub empty : q.readable_queue ≡ []
    pub claimed : q.write_id ≡ step
    pub whole : q.size ≡ size
    pub same_step : q.try_size ≡ step

  -- The cells from `k` on hold the tasks.
  abbrev pub Holds : CircleQueue T → ℕ → List T → Type ℓ
  Holds q k objs = (i : ℕ) (obj : T) → get_elem? objs i ≡ some obj → q.circle_array (k + i) ≡ obj

  produce-inside :
      (p : Producer) (q : CircleQueue T) (obj : T)
      → p.cur_write_id < p.writable_id
      → produce p q obj ≡ (true, (store p q obj).0, (store p q obj).1)
  unfolding produce
  produce-inside p q obj h = ground arith

  pub get_elem?-lt : (xs : List T) (i : ℕ) (x : T) → get_elem? xs i ≡ some x → i < length xs
  get_elem?-lt [] i x e = cc
  get_elem?-lt (y ∷ ys) zero x e = omega arith
  get_elem?-lt (y ∷ ys) (suc i) x e = omega (arith, get_elem?-lt ys i x e)

  cell :
      (size k : ℕ) (p : Producer) (q : CircleQueue T)
      → p.cur_write_id ≡ k
      → q.size ≡ size
      → k < size
      → p.cur_write_id % q.size ≡ k
  cell size k p q e f h = (λ i. e i % f i) ∙ mod-eq_of_lt h

  store-IsFilling :
      (size step k : ℕ) (p : Producer) (q : CircleQueue T) (obj : T)
      → IsFilling size step k p q
      → k < size
      → IsFilling size step (k + 1) (store p q obj).0 (store p q obj).1
        × ((store p q obj).1.circle_array ≡ update q.circle_array k obj)
  unfolding store write
  store-IsFilling size step k p q obj f h = (
    record {
      first = f.first;
      current = omega (arith, f.current);
      last = f.last;
      empty = f.empty;
      claimed = f.claimed;
      whole = f.whole;
      same_step = f.same_step;
    },
    λ i. update q.circle_array (cell size k p q f.current f.whole h i) obj,
  )

  update_same : (f : ℕ → T) (k : ℕ) (obj : T) → update f k obj k ≡ obj
  update_same f k obj = ground arith

  update_other : (f : ℕ → T) (k j : ℕ) (obj : T) → j < k → update f k obj j ≡ f j
  update_other f k j obj h = ground arith

  Holds-cons :
      (q : CircleQueue T) (k : ℕ) (obj : T) (objs : List T)
      → q.circle_array k ≡ obj
      → Holds q (k + 1) objs
      → Holds q k (obj ∷ objs)
  Holds-cons q k obj objs e holds zero x f = ground (arith, e, f)
  Holds-cons q k obj objs e holds (suc i) x f =
      let same : k + suc i ≡ k + 1 + i = omega arith in ap q.circle_array same ∙ holds i x f

  writes-cons :
      (p : Producer) (q : CircleQueue T) (obj : T) (objs : List T)
      → p.cur_write_id < p.writable_id
      → writes (obj ∷ objs) p q ≡ writes objs (store p q obj).0 (store p q obj).1
  unfolding writes
  writes-cons p q obj objs h = ap (λ r. writes objs r.1 r.2) (produce-inside p q obj h)

  writes-IsFilling :
      (size step : ℕ) (objs : List T) (k : ℕ) (p : Producer) (q : CircleQueue T)
      → IsFilling size step k p q
      → k + length objs ≤ step
      → step < size
      → IsFilling size step (k + length objs) (writes objs p q).0 (writes objs p q).1
        × Holds (writes objs p q).1 k objs
        × ((j : ℕ) → j < k → (writes objs p q).1.circle_array j ≡ q.circle_array j)
  unfolding writes
  writes-IsFilling size step [] k p q f h small = (
    record {
      first = f.first;
      current = omega (arith, f.current);
      last = f.last;
      empty = f.empty;
      claimed = f.claimed;
      whole = f.whole;
      same_step = f.same_step;
    },
    λ i obj e. cc,
    λ j lt. refl,
  )
  writes-IsFilling size step (obj ∷ objs) k p q f h small =
      let (g, array) = store-IsFilling size step k p q obj f (omega arith) in
      let inside = writes-cons p q obj objs (omega (arith, f.current, f.last)) in
      let p' : Producer = (store p q obj).0 in
      let q' : CircleQueue T = (store p q obj).1 in
      let (filled, holds, kept) =
        writes-IsFilling size step objs (k + 1) p' q' g (omega arith) small in
      rw inside (
        subst (λ n. IsFilling size step n (writes objs p' q').0 (writes objs p' q').1) (omega arith)
            filled,
        Holds-cons (writes objs p' q').1 k obj objs
            (kept k (omega arith) ∙ (λ i. array i k) ∙ update_same q.circle_array k obj) holds,
        λ j lt. kept j (omega arith) ∙ (λ i. array i j) ∙ update_other q.circle_array k j obj lt,
      )

  abbrev pub with_array : CircleQueue T → List Range → ℕ → CircleQueue T
  with_array q s id = record q { readable_queue = s; write_id = id }

  claim-first :
      (step : ℕ) (q : CircleQueue T) (obj : T)
      → IsNew q
      → q.try_size ≡ step
      → step < q.size
      → produce new_producer q obj
        ≡ produce
            record { write_id = 0; cur_write_id = 0; writable_id = step }
            (with_array q [] step)
            obj
  unfolding produce write_granted store publish
  claim-first step q obj new f h =
      let room = try_write_space_early q 0 0 (omega (arith, new.first, f)) in
      ground (arith, room, new.first, new.empty, new.positive)

  -- A new producer's first call claims the first range, as a call on that range would find it.
  writes-first :
      (size step : ℕ) (q : CircleQueue T) (obj : T) (objs : List T)
      → IsNew q
      → q.size ≡ size
      → q.try_size ≡ step
      → step < size
      → (p' : Producer) × (q' : CircleQueue T) × (writes (obj ∷ objs) new_producer q
          ≡ writes (obj ∷ objs) p' q')
        × IsFilling size step 0 p' q'
  unfolding writes
  writes-first size step q obj objs new f g h = (
    record { write_id = 0; cur_write_id = 0; writable_id = step },
    with_array q [] step,
    ap (λ r. writes objs r.1 r.2) (claim-first step q obj new g (omega (arith, f))),
    record {
      first = refl;
      current = refl;
      last = refl;
      empty = refl;
      claimed = refl;
      whole = f;
      same_step = g;
    },
  )

  pub new_batch :
      (q : CircleQueue T) (x : T) (objs : List T)
      → IsNew q
      → q.try_size < q.size
      → length (x ∷ objs) ≤ q.try_size
      → (let (p', q') = writes (x ∷ objs) new_producer q in
          IsFilling q.size q.try_size (length (x ∷ objs)) p' q' × Holds q' 0 (x ∷ objs))
  new_batch q x objs new small h =
      let (p', q', same, f) = writes-first q.size q.try_size q x objs new refl refl small in
      let (filled, holds, kept) =
        writes-IsFilling q.size q.try_size (x ∷ objs) 0 p' q' f (omega (arith, h)) small in
      let whole : IsFilling q.size q.try_size (length (x ∷ objs)) (writes (x ∷ objs) p' q').0
          (writes (x ∷ objs) p' q').1 =
        subst
          (λ n.
            IsFilling q.size q.try_size n (writes (x ∷ objs) p' q').0 (writes (x ∷ objs) p' q').1)
          (omega arith) filled in
      subst (λ r. IsFilling q.size q.try_size (length (x ∷ objs)) r.0 r.1 × Holds r.1 0 (x ∷ objs))
        (sym same) (whole, holds)
