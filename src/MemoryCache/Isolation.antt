-- ===== src/MemoryCache/Isolation.antt =====
-- A reader and the other threads that read and write the cache until it goes on.
use enhanced_proxy.Common.{ℕ, ◌<◌, ◌≡◌, ◌≢◌, some, Str}
use enhanced_proxy.Lru
use enhanced_proxy.Lru.{Lru}
use enhanced_proxy.MemoryCache.{MemoryCache, begin_read, end_read, write_cache}
use enhanced_proxy.MemoryCache.Snapshots.{IsSound}
use enhanced_proxy.MemoryCache.Moves.{IsAlone}

-- A move of another thread while a reader holds the pointer `p`: it begins a read, ends one whose
-- list no other thread can reach, or writes.
pub data Step (p : ℕ) (m : MemoryCache) : MemoryCache → Type 0 where
  begins : Step p m (begin_read m).1
  ends :
      (now : ℕ) (url : Str) (q : ℕ) {content : Str} {m' : MemoryCache}
      → p ≢ q
      → IsAlone q m
      → end_read now url q m ≡ some (content, m')
      → Step p m m'
  writes :
      (now : ℕ) (url respond : Str) {m' : MemoryCache}
      → write_cache now url respond m ≡ some m'
      → Step p m m'

pub data Run (p : ℕ) (m : MemoryCache) : MemoryCache → Type 0 where
  here : Run p m m
  next : {m' m'' : MemoryCache} → Run p m m' → Step p m' m'' → Run p m m''

-- A sound cache whose pointer `p` is held and points to the list `l`.
record Held (p : ℕ) (l : Lru) (m : MemoryCache) : Type 0 where
  sound : IsSound m
  held : 0 < m.readers p
  same : m.lists p ≡ l
