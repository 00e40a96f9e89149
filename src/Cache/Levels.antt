-- ===== src/Cache/Levels.antt =====
-- When the second level is asked, and what a read after a write returns.
use mathlib.Core.Path.{subst}
use enhanced_proxy.Common.{
  ℕ, ◌-◌, ◌^◌, ◌≤◌, ◌<◌, ◌≡◌, ◌≢◌, refl, some, [], ◌∷◌, Str, arith, inl, inr, Option-cases, sym,
}
use enhanced_proxy.MemoryCache
use enhanced_proxy.MemoryCache.{MemoryCache}
use enhanced_proxy.MemoryCache.Snapshots.{IsSound, read_cache-write}
use enhanced_proxy.Redis
use enhanced_proxy.Redis.{Hiredis, Session}
use enhanced_proxy.Cache.{Cache, read_cache, write_cache}

module _ {W : Type 0} (hiredis : Hiredis W) where
  -- A url that memory answers with some content is answered with it, and Redis is left alone.
  pub read_cache-hit :
      (now : ℕ) (url res : Str) (c : Cache W) (m : MemoryCache)
      → res ≢ []
      → MemoryCache.read_cache now url c.memory_cache ≡ some (res, m)
      → read_cache hiredis now url c ≡ some (res, record c { memory_cache = m })
  unfolding read_cache
  read_cache-hit now url [] c m ne e = absurd (ne refl)
  read_cache-hit now url (b ∷ res) c m ne e = ground arith

  -- After a write that returns, in a sound cache, a read of the same url that is not earlier,
  -- within INT_MAX seconds and before the time 2 ^ 64 returns the response, if it is not empty, and
  -- sends nothing to Redis beyond what the write sent.
  pub read_cache-write_cache :
      (now now' : ℕ) (url response : Str) (c c' : Cache W)
      → IsSound c.memory_cache
      → write_cache hiredis now url response c ≡ some c'
      → response ≢ []
      → now ≤ now'
      → now' - now < 2 ^ 31
      → now' < 2 ^ 64
      → (c'' : Cache W) × (read_cache hiredis now' url c' ≡ some (response, c''))
        × (c''.redis ≡ (Redis.update_redis_cache hiredis c.passwd url response c.redis).1)
  unfolding write_cache
  read_cache-write_cache now now' url response c c' sound e ne later within range =
      elim (Option-cases (MemoryCache.write_cache now url response c.memory_cache)) [
        | inl n ↦ absurd (ground arith)
        | inr (m, n) ↦
            let (m', found) = read_cache-write now url response sound n now' later within range in
            let memory : c'.memory_cache ≡ m = ground arith in
            (
              record c' { memory_cache = m' },
              read_cache-hit now' url response c' m' ne (
                  subst
                    (λ (k : MemoryCache). MemoryCache.read_cache now' url k ≡ some (response, m'))
                    (sym memory) found),
              ground arith,
            )
      ]
