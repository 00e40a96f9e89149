-- ===== src/Relay/Waiting.antt =====
-- How many rounds of the loop of `solveOnMessage` are left: the waits for a tunnel, and the bytes.
use enhanced_proxy.Common.{
  ℕ, zero, suc, ◌+◌, ◌-◌, ◌==◌, ◌*◌, ◌^◌, ◌≤◌, ◌<◌, ◌≡◌, true, Option, none, some, List, [], ◌∷◌,
  arith, length, if◌then◌else◌,
}
use mathlib.Core.Option
use mathlib.Core.Path.{subst}
use enhanced_proxy.Muduo.{Call, looks, retrieve, set_high_water_mark_callback, server}
use enhanced_proxy.Relay.{Solving}

-- How often the connection was looked at since its tunnel was set up, if no request was taken out
-- of its buffer since then.
unfoldable pub waited : ℕ → List Call → Option ℕ
waited conn [] = none
waited conn (looks c ∷ log) =
    let rest = waited conn log in if c == conn then Option.map suc rest else rest
waited conn (set_high_water_mark_callback c t server ∷ log) =
    let rest = waited conn log in if c == conn then some 0 else rest
waited conn (retrieve c n ∷ log) = let rest = waited conn log in if c == conn then none else rest
waited conn (_ ∷ log) = waited conn log

-- How many more looks there can be until a tunnel is connected that takes `delay` of them.
abbrev pub looks_left : ℕ → Option ℕ → ℕ
looks_left delay none = delay
looks_left delay (some k) = delay - k

abbrev pub allowance : {W : Type 0} → ℕ → ℕ → Solving W → ℕ
allowance delay conn s =
    if s.is_check then looks_left delay (waited conn s.relay.log) else delay + 1

-- How many more rounds there can be: for each byte the looks of one wait and two more.
abbrev pub rounds_left : {W : Type 0} → ℕ → ℕ → Solving W → ℕ
rounds_left delay conn s = (delay + 2) * length s.buff + allowance delay conn s

-- What a round leaves.
pub record IsSane {W : Type 0} (conn : ℕ) (s : Solving W) : Type 0 where
  pub small : length s.buff < 2 ^ 31
  pub asked : s.is_check ≡ true → (k : ℕ) × (waited conn s.relay.log ≡ some k)
  pub some_used : s.is_check ≡ true → 0 < s.used
  pub all_used : s.is_check ≡ true → s.used ≤ length s.buff

-- The state in which the body begins.
pub record IsReady {W : Type 0} (conn : ℕ) (s : Solving W) : Type 0 where
  pub small : length s.buff < 2 ^ 31
  pub asked : s.is_check ≡ true → (k : ℕ) × (waited conn s.relay.log ≡ some k)
  pub some_used : 0 < s.used
  pub all_used : s.used ≤ length s.buff

-- A round that goes on leaves fewer rounds.
pub record Goes {W : Type 0} (delay conn : ℕ) (s s' : Solving W) : Type 0 where
  pub sane : IsSane conn s'
  pub fewer : rounds_left delay conn s' < rounds_left delay conn s

-- One more look is one look less to wait for.
pub waited-looks :
    (conn k : ℕ) (log : List Call)
    → waited conn log ≡ some k
    → waited conn (looks conn ∷ log) ≡ some (suc k)
unfolding waited
waited-looks conn k log e = ground (arith, e)

cut_sum : (n m u : ℕ) → suc u ≤ n → m ≡ n - suc u → m + suc u ≡ n
cut_sum n m u h e = omega (arith, h, e)

-- A request of at least one byte pays for a whole wait.
pub cut-fewer :
    (delay n m used x : ℕ)
    → 0 < used
    → used ≤ n
    → m ≡ n - used
    → (delay + 2) * m + (delay + 1) < (delay + 2) * n + x
cut-fewer delay n m zero x some_used all_used e = elim some_used [ ]
cut-fewer delay n m (suc u) x some_used all_used e =
    subst (λ n. (delay + 2) * m + (delay + 1) < (delay + 2) * n + x) (cut_sum n m u all_used e)
      (omega arith)
