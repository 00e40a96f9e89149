-- ===== src/CircleQueue/Grants.antt =====
-- `tryWriteSpace`: which ranges it grants, and when it refuses.
use Prim.Native.Nat.{bit_and, bit_and-bitwise}
use enhanced_proxy.Common.{
  ℕ, ◌+◌, ◌-◌, ◌%◌, ◌≤◌, ◌<◌, ◌≡◌, ◌≢◌, refl, true, false, none, some, List, [], ◌∷◌, arith,
  Bool-cases, inl, inr, ltb,
}
use enhanced_proxy.CircleQueue.{
  Range, CircleQueue, insert, and_flag, has_space, publish, try_write_space, range_lt,
  try_read_space_by_cv,
}

zero-bit_and : (b : ℕ) → bit_and 0 b ≡ 0
zero-bit_and b = bit_and-bitwise 0 b

and_flag-even : (w : ℕ) → w % 2 ≡ 0 → (b : _) → and_flag w b ≡ 0
and_flag-even w e true = e
and_flag-even w e false = refl

pub insert-ne-nil : (r : Range) (s : List Range) → insert r s ≢ []
unfolding insert
insert-ne-nil r [] = λ h. cc
insert-ne-nil r (q ∷ s) = elim (Bool-cases (range_lt r q)) [
  | inl e ↦ rw e (λ h. cc)
  | inr e ↦ elim (Bool-cases (range_lt q r)) [
    | inl f ↦ rw (e, f) (λ h. cc)
    | inr f ↦ rw (e, f) (λ h. cc)
  ]
]

module _ {ℓ} {T : Type ℓ} (q : CircleQueue T) where
  -- With an even id the last part of the condition never holds: what is left is an empty set, or
  -- room before the end of the first lap.
  pub has_space_iff :
      (r : Range) (s : List Range) (w : ℕ) → w % 2 ≡ 0 → has_space q (r ∷ s) w ≡ ltb w q.size
  unfolding has_space
  has_space_iff (a, b) s w e =
      rw (and_flag-even w e (ltb (q.size - 1) a), zero-bit_and (q.size - 1)) (ground arith)

  pub has_space_early : (s : List Range) (w : ℕ) → w < q.size → has_space q s w ≡ true
  unfolding has_space
  has_space_early [] w h = refl
  has_space_early ((a, b) ∷ s) w h = ground arith

  pub has_space_late :
      (s : List Range) (w : ℕ) → s ≢ [] → q.size ≤ w → w % 2 ≡ 0 → has_space q s w ≡ false
  has_space_late [] w n h e = absurd (n refl)
  has_space_late (r ∷ s) w n h e = rw (has_space_iff r s w e) (ground arith)

  pub try_write_space_early :
      (a b : ℕ)
      → q.write_id + q.try_size < q.size
      → try_write_space q a b ≡ (
        some (q.write_id, q.write_id + q.try_size),
        record q {
          readable_queue = publish q.readable_queue a b;
          write_id = q.write_id + q.try_size;
        },
      )
  unfolding try_write_space
  try_write_space_early a b h =
      rw (has_space_early (publish q.readable_queue a b) (q.write_id + q.try_size) h)

  pub read_waits : q.readable_queue ≡ [] → try_read_space_by_cv q ≡ none
  unfolding try_read_space_by_cv
  read_waits e = ground arith

  pub read_takes_first :
      (r : Range) (s : List Range)
      → q.readable_queue ≡ r ∷ s
      → try_read_space_by_cv q ≡ some (some r, record q { readable_queue = s })
  unfolding try_read_space_by_cv
  read_takes_first r s e = ground arith
