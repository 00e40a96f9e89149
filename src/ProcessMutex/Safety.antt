-- ===== src/ProcessMutex/Safety.antt =====
-- At most one process owns the mutex.
use enhanced_proxy.Common.{ℕ, ◌≡◌, refl, true, false, some, arith, inl, ◌⊎◌, Bool}
use enhanced_proxy.ProcessMutex.{
  System, Step, Steps, FindsFalse, AllFindFalse, here, next, start, after, lock, try_lock, unlock,
  attach, locks, tries, unlocks, restarts,
}

record Inv (s : System) : Type 0 where
  byte : (s.byte ≡ 0) ⊎ (s.byte ≡ 1)
  held : (i : ℕ) → s.owner i ≡ true → s.byte ≡ 1
  unique : (i j : ℕ) → s.owner i ≡ true → s.owner j ≡ true → i ≡ j

lock-Inv :
    (s : System) (i : ℕ) (r : ℕ × Bool)
    → Inv s
    → lock s.byte (s.owner i) ≡ some r
    → Inv (after s i r)
unfolding lock
lock-Inv s i (b, o) inv e = record {
  byte = ground (arith, inv.byte);
  held = λ k h. ground (arith, inv.byte, inv.held k, inv.held i);
  unique = λ k l h g. ground (
    arith,
    inv.byte,
    inv.held k,
    inv.held l,
    inv.held i,
    inv.unique k l,
    inv.unique i k,
    inv.unique i l,
  );
}

try_lock-Inv :
    (s : System) (i : ℕ)
    → Inv s
    → Inv (after s i ((try_lock s.byte (s.owner i)).1, (try_lock s.byte (s.owner i)).2))
unfolding try_lock
try_lock-Inv s i inv = record {
  byte = ground (arith, inv.byte);
  held = λ k h. ground (arith, inv.byte, inv.held k, inv.held i);
  unique = λ k l h g. ground (
    arith,
    inv.byte,
    inv.held k,
    inv.held l,
    inv.held i,
    inv.unique k l,
    inv.unique i k,
    inv.unique i l,
  );
}

unlock-Inv :
    (s : System) (i : ℕ) (r : ℕ × Bool)
    → Inv s
    → unlock s.byte (s.owner i) ≡ some r
    → Inv (after s i r)
unfolding unlock
unlock-Inv s i (b, o) inv e = record {
  byte = ground (arith, inv.byte);
  held = λ k h. ground (arith, inv.byte, inv.held k, inv.held i, inv.unique i k);
  unique = λ k l h g. ground (arith, inv.unique k l);
}

Step-Inv : {s t : System} (st : Step s t) → FindsFalse st → Inv s → Inv t
unfolding attach
Step-Inv {s} (locks i {r} e) f inv = lock-Inv s i r inv e
Step-Inv {s} (tries i) f inv = try_lock-Inv s i inv
Step-Inv {s} (unlocks i {r} e) f inv = unlock-Inv s i r inv e
Step-Inv {s} (restarts i uninitialised) f inv = record {
  byte = inv.byte;
  held = λ k h. ground (arith, f, inv.held k);
  unique = λ k l h g. ground (arith, f, inv.unique k l);
}

abbrev AreFalse : (ℕ → Bool) → Type 0
AreFalse memory = (i : ℕ) → memory i ≡ false

Steps-Inv :
    (memory : ℕ → Bool) {s : System}
    → AreFalse memory
    → (r : Steps (start memory) s) → AllFindFalse r
    → Inv s
Steps-Inv memory clear here f = record {
  byte = inl refl;
  held = λ i h. absurd (ground (arith, h, clear i));
  unique = λ i j h g. absurd (ground (arith, h, clear i));
}
Steps-Inv memory clear (next r st) (fs, f) = Step-Inv st f (Steps-Inv memory clear r fs)

-- The constructor of a worker does not set `owner`. If every process, at first and after each
-- restart, finds `owner` false in its memory, then in every interleaving of `lock`, `tryLock`,
-- `unlock` and restarts from the free byte of the master, two processes that own the mutex are
-- one, and the shared byte is then 1.
pub mutual_exclusion :
    (memory : ℕ → Bool) {s : System} (i j : ℕ)
    → ((k : ℕ) → memory k ≡ false)
    → (r : Steps (start memory) s) → AllFindFalse r
    → s.owner i ≡ true
    → s.owner j ≡ true
    → (i ≡ j) × (s.byte ≡ 1)
mutual_exclusion memory i j clear r f h g =
    let inv = Steps-Inv memory clear r f in (inv.unique i j h g, inv.held i h)

-- In every such interleaving the owner can unlock: the assertions of `unlock` hold, the byte becomes 0 and the caller is no owner any more, and the
-- `tryLock` of any process then succeeds.
unlock_frees :
    (memory : ℕ → Bool) {s : System} (i : ℕ) (owner : Bool)
    → AreFalse memory
    → (r : Steps (start memory) s) → AllFindFalse r
    → s.owner i ≡ true
    → (unlock s.byte (s.owner i) ≡ some (0, false)) × (try_lock 0 owner ≡ (true, 1, true))
unfolding unlock try_lock
unlock_frees memory i owner clear r f h =
    let inv = Steps-Inv memory clear r f in (ground (arith, inv.held i), refl)

record IsAbandoned (s : System) : Type 0 where
  taken : s.byte ≡ 1
  free : (i : ℕ) → s.owner i ≡ false

Step-IsAbandoned : {s t : System} (st : Step s t) → FindsFalse st → IsAbandoned s → IsAbandoned t
unfolding lock try_lock unlock attach
Step-IsAbandoned {s} (locks i {r} e) f a = absurd (ground (arith, a.taken, a.free i))
Step-IsAbandoned {s} (tries i) f a = record {
  taken = ground (arith, a.taken);
  free = λ k. ground (arith, a.taken, a.free i, a.free k);
}
Step-IsAbandoned {s} (unlocks i {r} e) f a = absurd (ground (arith, a.taken, a.free i))
Step-IsAbandoned {s} (restarts i uninitialised) f a = record {
  taken = a.taken;
  free = λ k. ground (arith, f, a.free k);
}

Steps-IsAbandoned :
    {s t : System} → IsAbandoned s → (r : Steps s t) → AllFindFalse r → IsAbandoned t
Steps-IsAbandoned a here f = a
Steps-IsAbandoned a (next r st) (fs, f) = Step-IsAbandoned st f (Steps-IsAbandoned a r fs)

-- If the byte is 1 and no process owns the mutex, as after the owner has ended, then nothing that
-- the processes do frees it, as long as each process that starts finds `owner` false in its memory,
-- which the constructor does not set: no process ever owns it again, and `tryLock` fails.
pub abandoned_forever :
    {s t : System} (i : ℕ)
    → s.byte ≡ 1
    → ((k : ℕ) → s.owner k ≡ false)
    → (r : Steps s t) → AllFindFalse r
    → (t.owner i ≡ false) × (try_lock t.byte (t.owner i) ≡ (false, 1, false))
unfolding try_lock
abandoned_forever i taken free steps f =
    let a = Steps-IsAbandoned (record { taken = taken; free = free }) steps f in
    (a.free i, ground (arith, a.taken, a.free i))
