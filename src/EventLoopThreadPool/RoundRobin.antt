-- ===== src/EventLoopThreadPool/RoundRobin.antt =====
-- The loops take turns.
use enhanced_proxy.Common.{
  ℕ, zero, suc, ◌+◌, ◌%◌, ◌≤◌, ◌<◌, ◌≡◌, refl, true, Option, none, some, List, [], ◌∷◌, leb,
  if◌then◌else◌, length, get_elem?, arith, inl, inr, ◌⊎◌,
}
use native.Mathlib.Nat.{mod-lt, mod-add-mod, mod_self, zero-mod, mod-eq_of_lt}
use enhanced_proxy.EventLoopThreadPool.{EventLoopThreadPool, next_of, get_next_loop}

-- The pool after `k` calls of `get_next_loop`.
unfoldable pub after_calls : ℕ → EventLoopThreadPool → Option EventLoopThreadPool
after_calls zero p = some p
after_calls (suc k) p = elim (after_calls k p) [
  | none ↦ none
  | some q ↦ elim (get_next_loop q) [ none ↦ none | some (loop, q') ↦ some q' ]
]

in_range : (l : List ℕ) (i : ℕ) → i < length l → (x : ℕ) × (get_elem? l i ≡ some x)
in_range [] i h = elim h [ ]
in_range (x ∷ l) zero h = (x, refl)
in_range (x ∷ l) (suc i) h = in_range l i (omega arith)

total : (a n : ℕ) → (n ≤ a) ⊎ (a < n)
total a n = omega arith

next-mod : (k n : ℕ) → 0 < n → (k + 1) % n ≡ (if leb n (k % n + 1) then 0 else k % n + 1)
next-mod k n h =
    let below = mod-lt k h in
    let step = mod-add-mod k n 1 in
    elim (total (k % n + 1) n) [
      | inl last ↦ ground (arith, step, mod_self n)
      | inr inside ↦ ground (arith, step, mod-eq_of_lt inside)
    ]

at_next : (l : List ℕ) (i j x : ℕ) → i ≡ j → get_elem? l j ≡ some x → get_elem? l i ≡ some x
at_next l i j x e h = rw (e, h)

step-next :
    (p : EventLoopThreadPool) (k : ℕ)
    → p.started ≡ true
    → 0 < length p.loops
    → p.next ≡ k % length p.loops
    → (x : ℕ) × (get_elem? p.loops (k % length p.loops) ≡ some x)
      × (get_next_loop p ≡ some (x, record p { next = (k + 1) % length p.loops }))
unfolding get_next_loop next_of
step-next p k started some_loops at =
    let (x, found) = in_range p.loops (k % length p.loops) (mod-lt k some_loops) in
    let m = next-mod k (length p.loops) some_loops in
    let found' = at_next p.loops p.next (k % length p.loops) x at found in
    (x, found, ground (arith, found', m))

suc-add_one : (k : ℕ) → suc k ≡ k + 1
suc-add_one k = omega arith

reached :
    (p : EventLoopThreadPool) (k : ℕ)
    → p.started ≡ true
    → 0 < length p.loops
    → p.next ≡ 0
    → after_calls k p ≡ some (record p { next = k % length p.loops })
unfolding after_calls
reached p zero started some_loops at = let z = zero-mod (length p.loops) in cc
reached p (suc k) started some_loops at =
    let ih = reached p k started some_loops at in
    let (x, found, e) =
      step-next (record p { next = k % length p.loops }) k started some_loops refl in
    rw (ih, e, suc-add_one k)

-- A started pool with some loops, whose `next_` is 0, hands them out in turn: `k` calls of
-- `getNextLoop` succeed, change nothing but `next_`, and the call after them returns the loop
-- at the index `k` modulo the number of loops.
pub takes_turns :
    (p : EventLoopThreadPool) (k : ℕ)
    → p.started ≡ true
    → 0 < length p.loops
    → p.next ≡ 0
    → (x : ℕ) × (after_calls k p ≡ some (record p { next = k % length p.loops }))
      × (get_elem? p.loops (k % length p.loops) ≡ some x)
      × (get_next_loop (record p { next = k % length p.loops })
          ≡ some (x, record p { next = (k + 1) % length p.loops }))
takes_turns p k started some_loops at =
    let (x, found, e) =
      step-next (record p { next = k % length p.loops }) k started some_loops refl in
    (x, reached p k started some_loops at, found, e)
