-- ===== src/ThreadPool/Refusal.antt =====
-- What happens once the next range would end after the last cell of the ring.
use enhanced_proxy.Common.{
  ℕ, ◌+◌, ◌%◌, ◌≤◌, ◌<◌, ◌≡◌, ◌≢◌, refl, Option, none, some, List, [], ◌∷◌, arith, ◌==◌, inl, inr,
  Bool-cases, true, false, leb, ◌∙◌,
}
use enhanced_proxy.CircleQueue.{
  Range, CircleQueue, try_write_space, try_read_space_by_cv, has_space, publish, write,
}
use enhanced_proxy.CircleQueue.Grants.{read_waits, read_takes_first, has_space_late, insert-ne-nil}
use enhanced_proxy.ThreadPool.{
  Producer, System, Step, Steps, here, next, claim, put, fetch, get, after_claim, after_fetch,
  store, produce,
}

-- The next range does not end before the last cell. The ids and the step between them are even, as
-- they are in the program, where they are multiples of 1024.
pub record IsLate {ℓ} {T : Type ℓ} (q : CircleQueue T) : Type 0 where
  pub full : q.size ≤ q.write_id + q.try_size
  pub even_id : q.write_id % 2 ≡ 0
  pub even_step : q.try_size % 2 ≡ 0

-- A producer that has used up a range.
abbrev pub HasUsedUp : Producer → Type 0
HasUsedUp p = (0 < p.writable_id) × (p.writable_id ≤ p.cur_write_id)

publish-ne-nil : (s : List Range) (a b : ℕ) → 0 < b → publish s a b ≢ []
unfolding publish
publish-ne-nil s a b h = elim (Bool-cases (b == 0)) [
  | inl e ↦ absurd (ground arith)
  | inr e ↦ rw e (insert-ne-nil (a, b) s)
]

module _ {ℓ} {T : Type ℓ} where
  refused :
      (q : CircleQueue T) (a b : ℕ)
      → IsLate q
      → 0 < b
      → try_write_space q a b ≡ (none, record q { readable_queue = publish q.readable_queue a b })
  unfolding try_write_space
  refused q a b late h = rw (
      has_space_late q (publish q.readable_queue a b) (q.write_id + q.try_size)
        (publish-ne-nil q.readable_queue a b h) late.full
        (omega (arith, late.even_id, late.even_step)))

  -- If the next range does not end before the last cell and the ids are even, `Producer::write` of
  -- a producer that has used up a range returns false, stores nothing and leaves the producer as it
  -- was; all that it does is to publish the used up range again.
  produce-refused :
      (p : Producer) (q : CircleQueue T) (obj : T)
      → IsLate q
      → HasUsedUp p
      → produce p q obj ≡ (
        false,
        p,
        record q { readable_queue = publish q.readable_queue p.write_id p.writable_id },
      )
  unfolding produce
  produce-refused p q obj late used =
      rw (
        leb_true p.writable_id p.cur_write_id used.1,
        refused q p.write_id p.writable_id late used.0,
      )
    where
      leb_true : (a b : ℕ) → a ≤ b → leb a b ≡ true
      leb_true a b h = ground arith

  Late-claim : (q : CircleQueue T) (a b : ℕ) → IsLate q → IsLate (try_write_space q a b).1
  unfolding try_write_space
  Late-claim q a b late =
      elim (Bool-cases (has_space q (publish q.readable_queue a b) (q.write_id + q.try_size))) [
        | inl e ↦ rw e (record {
          full = omega (arith, late.full);
          even_id = omega (arith, late.even_id, late.even_step);
          even_step = late.even_step;
        })
        | inr e ↦
            rw e (record { full = late.full; even_id = late.even_id; even_step = late.even_step })
      ]

  -- A late queue, and a producer that stays as it was.
  record IsStuck (i : ℕ) (p : Producer) (s : System T) : Type 0 where
    same : s.producers i ≡ p
    late : IsLate s.queue

  claim-Late :
      (s : System T) (k : ℕ) (r : Option Range × CircleQueue T)
      → IsLate r.1
      → IsLate (after_claim s k r).queue
  claim-Late s k (none, q) h = h
  claim-Late s k (some r, q) h = h

  claim-other :
      (s : System T) (i k : ℕ) (r : Option Range × CircleQueue T)
      → i ≢ k
      → (after_claim s k r).producers i ≡ s.producers i
  claim-other s i k (none, q) h = refl
  claim-other s i k (some r, q) h = ground arith

  claim-IsStuck :
      (s : System T) (i k : ℕ) (p : Producer)
      → HasUsedUp p
      → IsStuck i p s
      → IsStuck i p (
          after_claim s k
            (try_write_space s.queue (s.producers k).write_id (s.producers k).writable_id))
  claim-IsStuck s i k p used st = record {
    same = elim (Bool-cases (i == k)) [
      | inl e ↦
          rw
            (refused s.queue (s.producers k).write_id (s.producers k).writable_id st.late
              (ground (arith, st.same)))
            st.same
      | inr e ↦ claim-other s i k _ (ground arith) ∙ st.same
    ];
    late = claim-Late s k _ (Late-claim s.queue _ _ st.late);
  }

  fetch-IsStuck :
      (s : System T) (i j : ℕ) (p : Producer)
      → IsStuck i p s
      → IsStuck i p (after_fetch s j (try_read_space_by_cv s.queue))
  fetch-IsStuck s i j p st = go s.queue.readable_queue refl
    where
      go :
          (l : List Range)
          → s.queue.readable_queue ≡ l
          → IsStuck i p (after_fetch s j (try_read_space_by_cv s.queue))
      go [] e = rw (read_waits s.queue e) st
      go (r ∷ l) e = rw (read_takes_first s.queue r l e) (record {
        same = st.same;
        late = record {
          full = st.late.full;
          even_id = st.late.even_id;
          even_step = st.late.even_step;
        };
      })

  Step-IsStuck :
      {s t : System T} (i : ℕ) (p : Producer)
      → HasUsedUp p
      → Step s t
      → IsStuck i p s
      → IsStuck i p t
  unfolding store write
  Step-IsStuck {s = s} i p used (claim k h) st = claim-IsStuck s i k p used st
  Step-IsStuck {s = s} i p used (put k obj h) st = record {
    same = ground (arith, st.same);
    late = record { full = st.late.full; even_id = st.late.even_id; even_step = st.late.even_step };
  }
  Step-IsStuck {s = s} i p used (fetch j h) st = fetch-IsStuck s i j p st
  Step-IsStuck i p used (get j h) st = record { same = st.same; late = st.late }

  Steps-IsStuck :
      {s t : System T} (i : ℕ) (p : Producer)
      → HasUsedUp p
      → IsStuck i p s
      → Steps s t
      → IsStuck i p t
  Steps-IsStuck i p used st here = st
  Steps-IsStuck i p used st (next r step) = Step-IsStuck i p used step (Steps-IsStuck i p used st r)

  -- Once the next range does not end before the last cell, and with even ids, a producer that has
  -- used up a range stays as it is in every interleaving of all threads, whatever they read, and
  -- the queue stays late.
  pub stuck_forever :
      {s t : System T} (i : ℕ)
      → IsLate s.queue
      → HasUsedUp (s.producers i)
      → Steps s t
      → (t.producers i ≡ s.producers i) × IsLate t.queue
  stuck_forever {s} i late used steps =
      let st = Steps-IsStuck i (s.producers i) used (record { same = refl; late = late }) steps in
      (st.same, st.late)
