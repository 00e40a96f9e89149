-- ===== src/CircleQueue/Ranges.antt =====
-- The set of published ranges: apart from each other, in the order of their indices.
use Prim.Native.Nat.{max}
use enhanced_proxy.Common.{
  ℕ, ◌≤◌, ◌<◌, ◌≡◌, ◌⊎◌, inl, inr, true, false, List, [], ◌∷◌, arith, Bool-cases, All,
}
use enhanced_proxy.CircleQueue.{Range, range_lt, insert}

abbrev pub Within : Range → ℕ → Type 0
Within (a, b) x = (a ≤ x) × (x < b)

abbrev pub IsFull : Range → Type 0
IsFull (a, b) = a < b

abbrev pub Apart : Range → Range → Type 0
Apart (a, b) (c, d) = (b ≤ c) ⊎ (d ≤ a)

abbrev pub Before : Range → Range → Type 0
Before (a, b) (c, d) = b ≤ c

-- The ranges do not overlap, and each ends before the next begins.
abbrev pub IsSorted : List Range → Type 0
IsSorted [] = Unit
IsSorted (r ∷ s) = All (Before r) s × IsSorted s

module _ {ℓ} (P : Range → Type ℓ) (r : Range) (h : P r) where
  pub All-insert : (s : List Range) → All P s → All P (insert r s)
  unfolding insert
  All-insert [] _ = (h, tt)
  All-insert (q ∷ s) k = elim (Bool-cases (range_lt r q)) [
    | inl e ↦ rw e (h, k)
    | inr e ↦ elim (Bool-cases (range_lt q r)) [
      | inl f ↦ rw (e, f) (k.0, All-insert s k.1)
      | inr f ↦ rw (e, f) k
    ]
  ]

pub All-map {ℓ κ} :
    {P : Range → Type ℓ} {Q : Range → Type κ}
    → ((r : Range) → P r → Q r)
    → (s : List Range) → All P s
    → All Q s
All-map f [] h = tt
All-map f (r ∷ s) h = (f r h.0, All-map f s h.1)

Before-of_lt : (r q : Range) → Apart r q → IsFull r → IsFull q → range_lt r q ≡ true → Before r q
Before-of_lt (a, b) (c, d) apart fr fq h = ground arith

Before-of_ge : (r q : Range) → Apart r q → IsFull r → IsFull q → range_lt r q ≡ false → Before q r
Before-of_ge (a, b) (c, d) apart fr fq h = ground arith

lt_of_Before : (r q : Range) → IsFull q → Before q r → range_lt q r ≡ true
lt_of_Before (a, b) (c, d) fq h = ground arith

-- Inserting a range that overlaps no other keeps the order.
pub insert-IsSorted :
    (r : Range) (s : List Range)
    → IsFull r
    → All (Apart r) s
    → All IsFull s
    → IsSorted s
    → IsSorted (insert r s)
unfolding insert
insert-IsSorted r [] f a g k = (tt, tt)
insert-IsSorted r (q ∷ s) f a g k = elim (Bool-cases (range_lt r q)) [
  | inl e ↦
      let b : Before r q = Before-of_lt r q a.0 f g.0 e in
      rw e ((b, All-map (λ p h. before_trans r q p g.0 b h) s k.0), k)
  | inr e ↦
      let b : Before q r = Before-of_ge r q a.0 f g.0 e in
      rw (e, lt_of_Before r q g.0 b)
        (All-insert (Before q) r b s k.0, insert-IsSorted r s f a.1 g.1 k.1)
]
  where
    before_trans : (r q p : Range) → IsFull q → Before r q → Before q p → Before r p
    before_trans (a, b) (c, d) (e, f) g h k = omega arith

-- Two ranges with no index in common are apart.
pub Apart-of_disjoint :
    (r q : Range) → IsFull r → IsFull q → ((x : ℕ) → Within r x → Within q x → ⊥) → Apart r q
Apart-of_disjoint (a, b) (c, d) f g h = ground (arith, h (max a c))
