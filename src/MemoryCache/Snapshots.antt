-- ===== src/MemoryCache/Snapshots.antt =====
-- Readers and writers do not meet on one list.
use enhanced_proxy.Common.{
  ℕ, ◌+◌, ◌-◌, ◌^◌, ◌≤◌, ◌<◌, ◌≡◌, ◌≢◌, refl, some, ◌==◌, update, Str, arith, inl, inr, Bool-cases,
  Option-cases, length, ◌∙◌, ==_refl,
}
use mathlib.Core.Path.{subst}
use enhanced_proxy.Lru
use enhanced_proxy.Lru.{Lru, copy}
use enhanced_proxy.Lru.Valid.{IsValid}
use enhanced_proxy.Lru.Reads.{put-IsValid, put-limits, get-put}
use enhanced_proxy.Lru.Copies.{copy-IsValid, copy-limits, init-IsValid, init-limits}
use enhanced_proxy.MemoryCache.{
  MemoryCache, init, begin_read, make_unique, put_current, write_cache, read_cache,
}

-- The lists are valid and within a capacity that `int` holds, and pointers below `next` were given
-- out: the member's, and each that a reader holds.
pub record IsSound (m : MemoryCache) : Type 0 where
  pub valid : (p : ℕ) → IsValid (m.lists p)
  pub fits : (p : ℕ) → length (m.lists p).list ≤ (m.lists p).max_size
  pub small : (p : ℕ) → (m.lists p).max_size + 1 < 2 ^ 31
  pub expiry : (p : ℕ) → (m.lists p).expired_time ≡ 2 ^ 31 - 1
  pub current : m.lru_cache < m.next
  pub held : (p : ℕ) → 0 < m.readers p → p < m.next

make_unique-keeps :
    (now : ℕ) (m : MemoryCache) (p : ℕ)
    → IsSound m
    → 0 < m.readers p
    → ((make_unique now m).lists p ≡ m.lists p)
      × ((make_unique now m).readers p ≡ m.readers p)
      × ((make_unique now m).lru_cache ≢ p)
unfolding make_unique
make_unique-keeps now m p sound h = elim (Bool-cases (m.readers m.lru_cache == 0)) [
  | inl e ↦ rw e (refl, refl, ground arith)
  | inr e ↦
      rw e
        (ground (arith, sound.held p), ground (arith, sound.held p), ground (arith, sound.held p))
]

put_current-keeps :
    (now : ℕ) (url respond : Str) (m m' : MemoryCache) (p : ℕ)
    → m.lru_cache ≢ p
    → put_current now url respond m ≡ some m'
    → (m'.lists p ≡ m.lists p) × (m'.readers p ≡ m.readers p) × (m'.lru_cache ≡ m.lru_cache)
unfolding put_current
put_current-keeps now url respond m m' p ne e =
    elim (Option-cases (Lru.put now url respond (m.lists m.lru_cache))) [
      | inl n ↦ absurd (ground arith)
      | inr (l, n) ↦ (ground arith, ground arith, ground arith)
    ]

-- In a sound cache, a write that returns leaves the list of every reader that is under way as it
-- was, still held, and from then on no longer the current one.
pub write_cache-snapshot :
    (now : ℕ) (url respond : Str) {m m' : MemoryCache} (p : ℕ)
    → IsSound m
    → 0 < m.readers p
    → write_cache now url respond m ≡ some m'
    → (m'.lists p ≡ m.lists p) × (m'.readers p ≡ m.readers p) × (m'.lru_cache ≢ p)
unfolding write_cache
write_cache-snapshot now url respond {m} {m'} p sound h e =
    let (same, held, other) = make_unique-keeps now m p sound h in
    let (same', held', current) =
      put_current-keeps now url respond (make_unique now m) m' p other e in
    (same' ∙ same, held' ∙ held, ground arith)

module _ (now : ℕ) {m : MemoryCache} (sound : IsSound m) where
  pub make_unique-IsSound : IsSound (make_unique now m)
  unfolding make_unique
  make_unique-IsSound = elim (Bool-cases (m.readers m.lru_cache == 0)) [
    | inl e ↦ rw e sound
    | inr e ↦ rw e (record {
      valid = λ p. elim (Bool-cases (m.next == p)) [
        | inl f ↦ rw f (copy-IsValid now (sound.valid m.lru_cache)).0
        | inr f ↦ rw f (sound.valid p)
      ];
      fits = λ p.
          ground
            (arith, sound.fits p, sound.fits m.lru_cache, copy-limits now (m.lists m.lru_cache));
      small = λ p.
          ground
            (arith, sound.small p, sound.small m.lru_cache, copy-limits now (m.lists m.lru_cache));
      expiry = λ p. ground (arith, sound.expiry p, copy-limits now (m.lists m.lru_cache));
      current = omega arith;
      held = λ p h. ground (arith, sound.held p);
    })
  ]

module _ (now : ℕ) (url respond : Str) {m : MemoryCache} (sound : IsSound m) where
  put_current-IsSound : (m' : MemoryCache) → put_current now url respond m ≡ some m' → IsSound m'
  unfolding put_current
  put_current-IsSound m' e = elim (Option-cases (Lru.put now url respond (m.lists m.lru_cache))) [
    | inl n ↦ absurd (ground arith)
    | inr (l, n) ↦
        let c = m.lru_cache in
        let after = put-IsValid now url respond (sound.valid c) (sound.fits c) (sound.small c) n in
        let limits = put-limits now url respond (sound.valid c) (sound.fits c) (sound.small c) n in
        let same : record m { lists = update m.lists m.lru_cache l } ≡ m' = ground arith in
        subst IsSound same (record {
          valid = λ p. elim (Bool-cases (c == p)) [
            | inl f ↦ rw f after.0
            | inr f ↦ rw f (sound.valid p)
          ];
          fits = λ p. ground (arith, sound.fits p, after.1);
          small = λ p. ground (arith, sound.small p, limits.0);
          expiry = λ p. ground (arith, sound.expiry p, limits.1);
          current = sound.current;
          held = sound.held;
        })
  ]

  pub put_current-list :
      (m' : MemoryCache)
      → put_current now url respond m ≡ some m'
      → Lru.put now url respond (m.lists m.lru_cache) ≡ some (m'.lists m'.lru_cache)
  unfolding put_current
  put_current-list m' e = elim (Option-cases (Lru.put now url respond (m.lists m.lru_cache))) [
    | inl n ↦ absurd (ground arith)
    | inr (l, n) ↦
        let same : record m { lists = update m.lists m.lru_cache l } ≡ m' = ground arith in
        subst
          (λ (k : MemoryCache).
            Lru.put now url respond (m.lists m.lru_cache) ≡ some (k.lists k.lru_cache))
          same (rw ==_refl n)
  ]

-- A sequential read returns what the current list returns.
pub read_cache-found :
    (now : ℕ) (url content : Str) (m : MemoryCache) (l : Lru)
    → Lru.get now url (m.lists m.lru_cache) ≡ some (content, l)
    → (m' : MemoryCache) × (read_cache now url m ≡ some (content, m'))
unfolding read_cache
read_cache-found now url content m l e =
    let (p, m1) = begin_read m in
    (
      record m1 { lists = update m1.lists p l; readers = update m1.readers p (m1.readers p - 1) },
      ground arith,
    )

module _ (now : ℕ) (url respond : Str) {m m' : MemoryCache} (sound : IsSound m)
    (done : write_cache now url respond m ≡ some m') where
  -- A write that returns, in a sound cache, leaves a sound cache.
  pub write_cache-IsSound : IsSound m'
  unfolding write_cache
  write_cache-IsSound = put_current-IsSound now url respond (make_unique-IsSound now sound) m' done

  -- After a write that returns, in a sound cache, a read of the same url that begins not earlier,
  -- within the expiry time of INT_MAX seconds and before the time 2 ^ 64, and is not interrupted
  -- returns what was written.
  pub read_cache-write :
      (now' : ℕ)
      → now ≤ now'
      → now' - now < 2 ^ 31
      → now' < 2 ^ 64
      → (m'' : MemoryCache) × (read_cache now' url m' ≡ some (respond, m''))
  unfolding write_cache
  read_cache-write now' later within range =
      let unique = make_unique-IsSound now sound in
      let k = make_unique now m in
      let c = k.lru_cache in
      let (l, found) =
        get-put now url respond (unique.valid c) (unique.fits c) (unique.small c)
          (put_current-list now url respond unique m' done) now' later
          (omega (arith, unique.expiry c)) range in
      read_cache-found now' url respond m' l found

-- A new cache is sound, if its capacity is below INT_MAX.
pub init-IsSound : (n uninitialised : ℕ) → n + 1 < 2 ^ 31 → IsSound (init n uninitialised)
unfolding init
init-IsSound n uninitialised small = record {
  valid = λ p. init-IsValid n uninitialised;
  fits = λ p. omega (arith, init-limits n uninitialised);
  small = λ p. omega (arith, init-limits n uninitialised);
  expiry = λ p. (init-limits n uninitialised).2;
  current = omega arith;
  held = λ p h. absurd (omega arith);
}
