-- ===== src/Relay/Calls.antt =====
-- Calls of `solveOnMessage` as moves of a pool thread.
use enhanced_proxy.Common.{ℕ, ◌≡◌, some}
use enhanced_proxy.Redis.{Hiredis}
use enhanced_proxy.Muduo.{Net}
use enhanced_proxy.Relay.{Relay, Solving}
use enhanced_proxy.Relay.Threads.{
  testing, closing, Pool, Step, io_loop, begins, tests, acts, closes,
}

module _ {W : Type 0} (net : Net) (redis : Hiredis W) where
  -- A move of the thread `i` in its call of `solveOnMessage`, and no callback of an I/O loop.
  abbrev pub IsOf : ℕ → {p q : Pool W} → Step net redis p q → Type 0
  IsOf i (begins j conn buff idle) = j ≡ i
  IsOf i (tests j c ok at place e) = j ≡ i
  IsOf i (acts j c at place e) = j ≡ i
  IsOf i (closes j c at place) = j ≡ i
  IsOf i (io_loop e) = ⊥

  -- Moves of the thread `i` alone.
  pub data Alone (i : ℕ) (p : Pool W) : Pool W → Type 0 where
    still : Alone i p p
    and_then : {q t : Pool W} → Alone i p q → (st : Step net redis q t) → IsOf i st → Alone i p t

  -- A thread whose call stands before the test.
  abbrev At : Pool W → ℕ → ℕ → Solving W → Type 0
  At p i conn s =
      (p.relay ≡ s.relay)
      × (p.running i ≡ some (record { conn = conn; place = testing; solving = s }))

  -- A thread that has left the loop.
  abbrev Done : Pool W → ℕ → ℕ → Solving W → Type 0
  Done p i conn s =
      (p.relay ≡ s.relay)
      × (p.running i ≡ some (record { conn = conn; place = closing; solving = s }))
