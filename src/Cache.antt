-- ===== src/Cache.antt =====
-- cache/cache.h: the two levels of the cache, memory first and Redis behind it.
pub mod Levels
mod Tests
use enhanced_proxy.Common.{Option, none, some, List, [], ◌∷◌, ℕ, Str}
use enhanced_proxy.MemoryCache
use enhanced_proxy.MemoryCache.{MemoryCache}
use enhanced_proxy.Redis
use enhanced_proxy.Redis.{Hiredis, Session}

pub record Cache (W : Type 0) : Type 0 where
  pub memory_cache : MemoryCache
  pub passwd : Str
  pub redis : Session W

-- The constructor: `memory` is what stands in a member of the list that no constructor sets. The
-- expiry time that it is given goes nowhere, and the address of Redis is in the parameter `Hiredis`.
unfoldable pub init : {W : Type 0} → ℕ → ℕ → Str → ℕ → W → Cache W
unfolding MemoryCache.init
init init_capacity expire_time passwd memory world = record {
  memory_cache = MemoryCache.init init_capacity memory;
  passwd = passwd;
  redis = record { world = world; contexts = 0; replies = 0; sent = [] };
}

module _ {W : Type 0} (hiredis : Hiredis W) where
  -- What `readCache` does with the answer of the memory: only an empty one sends it to Redis.
  unfoldable pub read_behind : Str → Str → Cache W → Option (Str × Cache W)
  read_behind url [] c = elim (Redis.read_redis_cache hiredis c.passwd url c.redis) [
    | none ↦ none
    | some (res, s) ↦ some (res, record c { redis = s })
  ]
  read_behind url (b ∷ res) c = some (b ∷ res, c)

  -- `readCache`; `none` is a fault of one of the levels.
  unfoldable pub read_cache : ℕ → Str → Cache W → Option (Str × Cache W)
  unfolding read_behind
  read_cache now url c = elim (MemoryCache.read_cache now url c.memory_cache) [
    | none ↦ none
    | some (res, m) ↦ read_behind url res (record c { memory_cache = m })
  ]

  -- `writeCache`; the answer of Redis is not looked at.
  unfoldable pub write_cache : ℕ → Str → Str → Cache W → Option (Cache W)
  write_cache now url response c = elim (MemoryCache.write_cache now url response c.memory_cache) [
    | none ↦ none
    | some m ↦ some (record c {
      memory_cache = m;
      redis = (Redis.update_redis_cache hiredis c.passwd url response c.redis).1;
    })
  ]
