-- ===== src/Cache/Tests.antt =====
-- Both levels together, with a server that answers nothing.
use enhanced_proxy.Common.{ℕ, ◌≡◌, refl, some, none, codes, arith, [], update, ◌+◌}
use enhanced_proxy.Lru
use enhanced_proxy.Lru.Valid.{with_new}
use enhanced_proxy.MemoryCache
use enhanced_proxy.MemoryCache.{MemoryCache}
use enhanced_proxy.MemoryCache.Snapshots.{IsSound, init-IsSound}
use enhanced_proxy.Redis
use enhanced_proxy.Redis.{Hiredis, Connected, Session}
use enhanced_proxy.Cache.{Cache, read_cache, write_cache}
use enhanced_proxy.Cache.Levels.{read_cache-write_cache}

abbrev offline : Hiredis ℕ
offline = record { connect = λ w. (Connected.null, w + 1); command = λ w text. (none, w + 1) }

abbrev fresh : Cache ℕ
unfolding MemoryCache.init
fresh = record {
  memory_cache = MemoryCache.init 2 0;
  passwd = codes "p";
  redis = record { world = 0; contexts = 0; replies = 0; sent = [] };
}

fresh-IsSound : IsSound fresh.memory_cache
unfolding MemoryCache.init
fresh-IsSound = init-IsSound 2 0 (omega arith)

abbrev written : Cache ℕ
unfolding MemoryCache.init Lru.init
written = record fresh {
  memory_cache = record fresh.memory_cache {
    lists =
        update fresh.memory_cache.lists 0
          (with_new 50 (codes "/a") (codes "A") (fresh.memory_cache.lists 0));
  };
  redis = record fresh.redis { world = 1 };
}

wrote : write_cache offline 50 (codes "/a") (codes "A") fresh ≡ some written
unfolding write_cache MemoryCache.write_cache MemoryCache.init Lru.init Lru.put
    Redis.update_redis_cache Redis.connect
wrote = refl

read_cache-write_cache_example :
    (c'' : Cache ℕ) × (read_cache offline 60 (codes "/a") written ≡ some (codes "A", c''))
    × (c''.redis
        ≡ (Redis.update_redis_cache offline (codes "p") (codes "/a") (codes "A") fresh.redis).1)
unfolding fresh
read_cache-write_cache_example =
    read_cache-write_cache offline 50 60 (codes "/a") (codes "A") fresh written fresh-IsSound wrote
      (λ h. cc) (omega arith) (omega arith) (omega arith)
