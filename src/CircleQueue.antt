-- ===== src/CircleQueue.antt =====
-- ThreadPool/CircleQueue.h and ThreadPool/CircleQueue.cpp: the ring of task cells, and the set of
-- published index ranges from which readers take.
-- A `long` index is a natural number, and the pair (-1, -1) is `none`: no index is negative.
-- Each of the three `try…` functions runs under the queue's mutex, so it is one atomic function.
-- The notifications of the condition variable change no data and are left out.
pub mod Ranges
pub mod Grants
use Prim.Native.Nat.{bit_and}
use enhanced_proxy.Common.{
  ℕ, ◌+◌, ◌-◌, ◌*◌, ◌%◌, Bool, true, false, not, ◌&&◌, ◌||◌, Option, none, some, List, [], ◌∷◌, ltb,
  ◌==◌, if◌then◌else◌, update,
}

-- `pair<long, long>`: the indices from `.0` up to `.1`, exclusive.
abbrev pub Range : Type 0
Range = ℕ × ℕ

-- `circle_array` has `size` cells, and every access reduces its index modulo `size`.
-- `readable_queue` is the std::set in its order.
pub record CircleQueue {ℓ} (T : Type ℓ) : Type ℓ where
  pub size : ℕ
  pub circle_array : ℕ → T
  pub readable_queue : List Range
  pub try_size : ℕ
  pub write_id : ℕ

-- `std::pair`'s operator<.
abbrev pub range_lt : Range → Range → Bool
range_lt (a, b) (c, d) = ltb a c || (a == c && ltb b d)

-- `std::set::insert`: an element that is there already is not added again.
unfoldable pub insert : Range → List Range → List Range
insert r [] = r ∷ []
insert r (q ∷ s) =
    if range_lt r q then r ∷ q ∷ s else (if range_lt q r then q ∷ insert r s else q ∷ s)

-- `w & b` for a comparison `b`, which C++ promotes to 1 or 0.
abbrev pub and_flag : ℕ → Bool → ℕ
and_flag w true = w % 2
and_flag w false = 0

-- The set after the first `if` of `tryWriteSpace`.
unfoldable pub publish : List Range → ℕ → ℕ → List Range
publish s has_write_start has_write_end =
    if has_write_end == 0 then s else insert (has_write_start, has_write_end) s

module _ {ℓ} {T : Type ℓ} where
  -- The constructor; `T()` is the default task.
  unfoldable pub init : T → CircleQueue T
  init default = record {
    size = 1024 * 1024 * 16;
    circle_array = λ _. default;
    readable_queue = [];
    try_size = 1024;
    write_id = 0;
  }

  -- The condition of `tryWriteSpace` after its three `||`: in C++ `<` binds tighter than `&`, so
  -- `a & (size - 1) < first & (size - 1)` is `(a & ((size - 1) < first)) & (size - 1)`.
  unfoldable pub has_space : CircleQueue T → List Range → ℕ → Bool
  has_space q [] writable_id = true
  has_space q ((first, _) ∷ _) writable_id =
      ltb writable_id q.size
      || not (bit_and (and_flag writable_id (ltb (q.size - 1) first)) (q.size - 1) == 0)

  unfoldable pub try_write_space : CircleQueue T → ℕ → ℕ → Option Range × CircleQueue T
  unfolding has_space publish
  try_write_space q has_write_start has_write_end =
      let s = publish q.readable_queue has_write_start has_write_end in
      let writable_id = q.write_id + q.try_size in
      if has_space q s writable_id
      then (some (q.write_id, writable_id), record q { readable_queue = s; write_id = writable_id })
      else (none, record q { readable_queue = s })

  unfoldable pub try_read_space : CircleQueue T → Option Range × CircleQueue T
  try_read_space q = elim q.readable_queue [
    | [] ↦ (none, q)
    | r ∷ s ↦ (some r, record q { readable_queue = s })
  ]

  -- `none` while the caller waits for the condition variable.
  unfoldable pub try_read_space_by_cv : CircleQueue T → Option (Option Range × CircleQueue T)
  try_read_space_by_cv q = elim q.readable_queue [
    | [] ↦ none
    | r ∷ s ↦ some (some r, record q { readable_queue = s })
  ]

  unfoldable pub read : CircleQueue T → ℕ → T
  read q index = q.circle_array (index % q.size)

  unfoldable pub write : CircleQueue T → ℕ → T → CircleQueue T
  write q index obj = record q { circle_array = update q.circle_array (index % q.size) obj }
