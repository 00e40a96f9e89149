-- ===== src/ProcessMutex.antt =====
-- Process/ProcessMutex.h: a spin lock in one byte of shared memory, and the processes that use it.
pub mod Safety
mod Tests
use enhanced_proxy.Common.{
  ℕ, ◌≡◌, Bool, true, false, not, ◌&&◌, Option, none, some, ◌==◌, if◌then◌else◌, update,
}

-- `__sync_bool_compare_and_swap` on the shared byte: whether it swapped, and the byte afterwards.
unfoldable pub compare_and_swap : ℕ → ℕ → ℕ → Bool × ℕ
compare_and_swap byte old new = if byte == old then (true, new) else (false, byte)

-- The constructor of the master creates the byte and resets it; its object is no owner.
abbrev pub create : ℕ × Bool
create = (0, false)

-- The constructor of a worker maps the byte and leaves the member `owner` as the memory has it.
unfoldable pub attach : ℕ → Bool → ℕ × Bool
attach byte uninitialised = (byte, uninitialised)

-- `lock`: the byte and `owner` when it returns; `none` if the test of its `while` sends this round
-- to `yield` and back.
unfoldable pub lock : ℕ → Bool → Option (ℕ × Bool)
unfolding compare_and_swap
lock byte true = some (byte, true)
lock byte false =
    let (swapped, byte') = compare_and_swap byte 0 1 in if swapped then some (byte', true) else none

-- `tryLock`
unfoldable pub try_lock : ℕ → Bool → Bool × ℕ × Bool
unfolding compare_and_swap
try_lock byte owner =
    let (swapped, byte') = compare_and_swap byte 0 1 in
    if swapped then (true, byte', true) else (false, byte', owner)

-- `unlock`; `none` if its assertion ends the process. The early return behind the assertion is
-- kept: it is what remains of the test where assertions are compiled out.
unfoldable pub unlock : ℕ → Bool → Option (ℕ × Bool)
unfolding compare_and_swap
unlock byte owner =
    if owner && byte == 1
    then (if not owner then some (byte, owner) else some ((compare_and_swap byte 1 0).1, false))
    else none

-- The byte, and the member `owner` of each process. A process that is not there owns nothing.
pub record System : Type 0 where
  pub byte : ℕ
  pub owner : ℕ → Bool

abbrev pub after : System → ℕ → ℕ × Bool → System
after s i (byte, owner) = record { byte = byte; owner = update s.owner i owner }

-- The calls of the processes in any order, a process that ends, and one that starts in its place
-- and finds a value of `owner` in its memory.
pub data Step (s : System) : System → Type 0 where
  locks : (i : ℕ) {r : ℕ × Bool} → lock s.byte (s.owner i) ≡ some r → Step s (after s i r)
  tries :
      (i : ℕ)
      → Step s (after s i ((try_lock s.byte (s.owner i)).1, (try_lock s.byte (s.owner i)).2))
  unlocks : (i : ℕ) {r : ℕ × Bool} → unlock s.byte (s.owner i) ≡ some r → Step s (after s i r)
  restarts : (i : ℕ) (uninitialised : Bool) → Step s (after s i (attach s.byte uninitialised))

pub data Steps (s : System) : System → Type 0 where
  here : Steps s s
  next : {t u : System} → Steps s t → Step t u → Steps s u

-- What the master leaves, with the value of `owner` that each process finds in its memory.
abbrev pub start : (ℕ → Bool) → System
start memory = record { byte = 0; owner = memory }

-- Every process that starts during a run finds `owner` false.
abbrev pub FindsFalse : {s t : System} → Step s t → Type 0
FindsFalse (restarts i uninitialised) = uninitialised ≡ false
FindsFalse _ = Unit

abbrev pub AllFindFalse : {s t : System} → Steps s t → Type 0
AllFindFalse here = Unit
AllFindFalse (next r st) = AllFindFalse r × FindsFalse st
