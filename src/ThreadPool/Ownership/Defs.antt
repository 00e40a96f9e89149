-- ===== src/ThreadPool/Ownership/Defs.antt =====
-- Who holds which index while no claim has been refused, and what stands in its cell.
use enhanced_proxy.Common.{ℕ, ◌%◌, ◌≤◌, ◌<◌, ◌≡◌, ◌≢◌, some, All}
use enhanced_proxy.CircleQueue.{Range}
use enhanced_proxy.CircleQueue.Ranges.{IsFull, IsSorted}
use enhanced_proxy.ThreadPool.{Producer, Consumer, System}

-- The holder of an index: no one yet, a producer that fills its range, the set of published
-- ranges, a consumer that has still to load it, or no one any more.
pub data Owner : Type 0 where
  unclaimed published loaded : Owner
  producing : ℕ → Owner
  consuming : ℕ → Owner

-- What is known of the range of producer `i`.
pub record IsProducing (owner : ℕ → Owner) (limit i : ℕ) (p : Producer) : Type 0 where
  pub ordered : (p.write_id ≤ p.cur_write_id) × (p.cur_write_id ≤ p.writable_id)
  pub nonempty : p.writable_id ≢ 0 → p.write_id < p.writable_id
  pub below : p.writable_id ≤ limit
  pub owned : (x : ℕ) → p.write_id ≤ x → x < p.writable_id → owner x ≡ producing i

-- What is known of the range of consumer `j`.
pub record IsConsuming (owner : ℕ → Owner) (limit j : ℕ) (c : Consumer) : Type 0 where
  pub ordered : c.read_id ≤ c.readable_id
  pub below : c.readable_id ≤ limit
  pub owned : (x : ℕ) → c.read_id ≤ x → x < c.readable_id → owner x ≡ consuming j

abbrev pub IsPublished : (ℕ → Owner) → ℕ → Range → Type 0
IsPublished owner limit r =
    IsFull r × (r.1 ≤ limit) × ((x : ℕ) → r.0 ≤ x → x < r.1 → owner x ≡ published)

-- The cell of `x` holds what was stored under `x`.
abbrev pub Holds {ℓ} : {T : Type ℓ} → System T → ℕ → Type ℓ
Holds s x = s.stored x ≡ some (s.queue.circle_array (x % s.queue.size))

pub record Inv {ℓ} {T : Type ℓ} (owner : ℕ → Owner) (s : System T) : Type ℓ where
  pub positive : 0 < s.queue.try_size
  pub first_lap : s.queue.write_id ≤ s.queue.size
  pub producers : (i : ℕ) → IsProducing owner s.queue.write_id i (s.producers i)
  pub consumers : (j : ℕ) → IsConsuming owner s.queue.write_id j (s.consumers j)
  pub sorted : IsSorted s.queue.readable_queue
  pub ranges : All (IsPublished owner s.queue.write_id) s.queue.readable_queue
  pub fresh : (x : ℕ) → s.queue.write_id ≤ x → owner x ≡ unclaimed
  pub filled :
      (i x : ℕ) → (s.producers i).write_id ≤ x → x < (s.producers i).cur_write_id → Holds s x
  pub kept : (x : ℕ) → owner x ≡ published → Holds s x
  pub taken : (j x : ℕ) → owner x ≡ consuming j → Holds s x
  pub once : (x : ℕ) → s.loads x ≡ (elim (owner x) [ loaded ↦ 1 | _ ↦ 0 ])
