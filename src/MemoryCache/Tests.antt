-- ===== src/MemoryCache/Tests.antt =====
-- A reader that is under way while a writer changes the cache.
use enhanced_proxy.Common.{str_eq, ◌≡◌, refl, some, codes, arith, update}
use enhanced_proxy.Lru
use enhanced_proxy.Lru.{Lru, copy}
use enhanced_proxy.Lru.Valid.{with_new}
use enhanced_proxy.MemoryCache.{MemoryCache, init, begin_read, end_read, write_cache, read_cache}
use enhanced_proxy.MemoryCache.Isolation.{begins, ends, writes, Run, here, next}
use enhanced_proxy.MemoryCache.Lasting.{
  Moves, none_yet, and_then, starts, finishes, stores, written_lasts,
}
use enhanced_proxy.MemoryCache.Snapshots.{IsSound, init-IsSound}

abbrev fresh : MemoryCache
unfolding init
fresh = init 2 0

abbrev reading : MemoryCache
unfolding init
reading = record fresh { readers = update fresh.readers 0 1 }

begun : begin_read fresh ≡ (0, reading)
unfolding begin_read init
begun = refl

fresh-IsSound : IsSound fresh
unfolding init
fresh-IsSound = init-IsSound 2 0 (omega arith)

-- What the writer leaves: the reader's list 0, and a copy of it with the new entry.
abbrev written : MemoryCache
unfolding init Lru.init
written = record reading {
  lists =
      update (update reading.lists 1 (copy 50 (reading.lists 0))) 1
        (with_new 50 (codes "/a") (codes "A") (copy 50 (reading.lists 0)));
  readers = update reading.readers 1 0;
  lru_cache = 1;
  next = 2;
}

wrote : write_cache 50 (codes "/a") (codes "A") reading ≡ some written
unfolding write_cache init Lru.init Lru.put copy
wrote = refl

-- A cache with one entry. A second url is written while a first reader has begun, and another one
-- while a second reader has; then the first reader goes on.
abbrev stored : (m : MemoryCache) × (write_cache 50 (codes "/a") (codes "A") fresh ≡ some m)
unfolding write_cache init Lru.init Lru.put copy
stored = (_, refl)

-- For the first reader, which holds list 0: a writer, the second reader on list 1, a writer, and the
-- end of the second reader.
abbrev busy : (m : MemoryCache) × Run 0 (begin_read stored.0).1 m
unfolding write_cache init Lru.init Lru.put copy begin_read end_read Lru.get str_eq
busy = (
  _,
  next
      (next (next (next here (writes 60 (codes "/b") (codes "B") refl)) begins)
        (writes 65 (codes "/b") (codes "C") refl))
      (ends 70 (codes "/b") 1 (λ e. omega (arith, e))
        (record { one = refl; old = λ e. omega (arith, e) }) refl),
)

-- After the write of `/a`, a reader begins, another url is written, and the reader goes on.
abbrev later : (m : MemoryCache) × Moves (codes "/a") 50 stored.0 70 m
unfolding write_cache init Lru.init Lru.put copy begin_read end_read Lru.get str_eq
later = (
  _,
  and_then {now = 70}
      (and_then {now = 65} (and_then {now = 60} none_yet (omega arith) starts) (omega arith)
        (stores (codes "/b") (codes "B") refl refl))
      (omega arith)
      (finishes (codes "/b") 0 (record { one = refl; old = λ e. omega (arith, e) }) refl),
)

written_lasts_example :
    (after : MemoryCache) × (read_cache 80 (codes "/a") later.0 ≡ some (codes "A", after))
unfolding write_cache init Lru.init Lru.put copy begin_read end_read Lru.get str_eq
written_lasts_example =
    written_lasts 50 70 80 (codes "/a") (codes "A") fresh-IsSound (λ q url n e. cc) stored.1 later.1
      (omega arith) (omega arith) (omega arith)
