-- ===== src/MemoryCache.antt =====
-- cache/memoryCache.h: the first level of the cache. The list is shared through a std::shared_ptr,
-- and a writer copies it first if a reader holds it. A pointer is a number, `lists` is what it
-- points to, and `readers` counts the copies of a pointer that calls of `readCache` hold; the
-- member `lru_cache` holds one more. `none` is a fault of the list.
pub mod Snapshots
pub mod Moves
pub mod Isolation
pub mod Lasting
mod Tests
use enhanced_proxy.Common.{ℕ, ◌+◌, ◌-◌, Option, none, some, ◌==◌, if◌then◌else◌, update, Str}
use enhanced_proxy.Lru
use enhanced_proxy.Lru.{Lru, copy}

pub record MemoryCache : Type 0 where
  pub lists : ℕ → Lru
  pub readers : ℕ → ℕ
  pub lru_cache : ℕ
  pub next : ℕ

-- The constructor.
unfoldable pub init : ℕ → ℕ → MemoryCache
init n uninitialised = record {
  lists = λ _. Lru.init n uninitialised;
  readers = λ _. 0;
  lru_cache = 0;
  next = 1;
}

-- `readCache` up to the end of its block under the mutex: the pointer that it copied. The
-- assertion in the block holds, since the copy is there.
unfoldable pub begin_read : MemoryCache → ℕ × MemoryCache
begin_read m =
    (m.lru_cache, record m { readers = update m.readers m.lru_cache (m.readers m.lru_cache + 1) })

-- The rest of `readCache`: the call of `get`, which changes the list that the pointer points to, and
-- the end of the copied pointer. The source does not hold the mutex here: this is what the call does
-- while no other thread reads, changes or copies that list. What happens otherwise, when two calls
-- of `get` or a `get` and the copy of a writer meet on one list, has no defined outcome in C++ and
-- is left out: the theorems ask that it does not happen.
unfoldable pub end_read : ℕ → Str → ℕ → MemoryCache → Option (Str × MemoryCache)
end_read now url p m = elim (Lru.get now url (m.lists p)) [
  | none ↦ none
  | some (content, lru) ↦ some (
    content,
    record m { lists = update m.lists p lru; readers = update m.readers p (m.readers p - 1) },
  )
]

-- `lru_cache.reset(new Lru(*lru_cache))`, if the pointer is not unique.
unfoldable pub make_unique : ℕ → MemoryCache → MemoryCache
make_unique now m = if m.readers m.lru_cache == 0 then m else record m {
  lists = update m.lists m.next (copy now (m.lists m.lru_cache));
  readers = update m.readers m.next 0;
  lru_cache = m.next;
  next = m.next + 1;
}

unfoldable pub put_current : ℕ → Str → Str → MemoryCache → Option MemoryCache
put_current now url respond m = elim (Lru.put now url respond (m.lists m.lru_cache)) [
  | none ↦ none
  | some lru ↦ some (record m { lists = update m.lists m.lru_cache lru })
]

-- `writeCache`, which runs under the mutex.
unfoldable pub write_cache : ℕ → Str → Str → MemoryCache → Option MemoryCache
unfolding make_unique put_current
write_cache now url respond m = put_current now url respond (make_unique now m)

-- A call of `readCache` that no other call interrupts.
unfoldable pub read_cache : ℕ → Str → MemoryCache → Option (Str × MemoryCache)
unfolding begin_read end_read
read_cache now url m = let (p, m') = begin_read m in end_read now url p m'
