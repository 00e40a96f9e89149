-- ===== src/MemoryCache/Lasting.antt =====
-- A written content and the reads and writes of other threads that come after it.
use enhanced_proxy.Common.{
  ℕ, ◌-◌, ◌^◌, ◌≤◌, ◌<◌, ◌≡◌, sym, false, some, ◌==◌, Str, str_eq, arith, inl, inr, Bool-cases,
  ==_refl,
}
use mathlib.Core.Path.{subst}
use enhanced_proxy.Lru
use enhanced_proxy.Lru.{Lru, copy}
use enhanced_proxy.Lru.Gets.{shown, IsPast, get-shown, get-IsPast}
use enhanced_proxy.Lru.Stores.{
  Stores, Stores-shown, get-Stores, copy-Stores, put-Stores, put_other-Stores,
}
use enhanced_proxy.MemoryCache.{
  MemoryCache, begin_read, end_read, make_unique, write_cache, read_cache,
}
use enhanced_proxy.MemoryCache.Snapshots.{
  IsSound, make_unique-IsSound, put_current-list, write_cache-IsSound, read_cache-found,
}
use enhanced_proxy.MemoryCache.Moves.{
  IsAlone, begin_read-IsSound, ended, get-end_read, ended-IsSound, make_unique-IsPast,
  put_current-IsPast,
}

-- A move of a thread at the time `now` that does not write `url`: it begins a read, ends one whose
-- list no other thread can reach, or writes another url.
pub data Move (url : Str) (now : ℕ) (m : MemoryCache) : MemoryCache → Type 0 where
  starts : Move url now m (begin_read m).1
  finishes :
      (other : Str) (q : ℕ) {content : Str} {m' : MemoryCache}
      → IsAlone q m
      → end_read now other q m ≡ some (content, m')
      → Move url now m m'
  stores :
      (other respond : Str) {m' : MemoryCache}
      → str_eq other url ≡ false
      → write_cache now other respond m ≡ some m'
      → Move url now m m'

-- Moves at times that do not go back.
pub data Moves (url : Str) (t : ℕ) (m : MemoryCache) : ℕ → MemoryCache → Type 0 where
  none_yet : Moves url t m t m
  and_then :
      {s now : ℕ} {m' m'' : MemoryCache}
      → Moves url t m s m'
      → s ≤ now
      → Move url now m' m''
      → Moves url t m now m''

-- The content is in the current list, written at `since` or later.
pub record Lasts (url content : Str) (since now : ℕ) (m : MemoryCache) : Type 0 where
  pub sound : IsSound m
  pub past : (q : ℕ) → IsPast now (m.lists q)
  pub kept : Stores url content since (m.lists m.lru_cache)

module _ {url content : Str} {since now : ℕ} {m : MemoryCache} (h : Lasts url content since now m)
    (le : since ≤ now) (within : now - since < 2 ^ 31) (range : now < 2 ^ 64) where
  starts-Lasts : Lasts url content since now (begin_read m).1
  unfolding begin_read
  starts-Lasts = record { sound = begin_read-IsSound h.sound; past = h.past; kept = h.kept }

  finishes-Lasts :
      (other : Str) (q : ℕ) (l : Lru) {found : Str}
      → Lru.get now other (m.lists q) ≡ some (found, l)
      → Lasts url content since now (ended now other q m l)
  finishes-Lasts other q l e = record {
    sound = ended-IsSound now other q m h.sound e;
    past = λ r. elim (Bool-cases (q == r)) [
      | inl f ↦ rw f (get-IsPast (h.sound.valid q) now other e now (h.past q))
      | inr f ↦ rw f (h.past r)
    ];
    kept = elim (Bool-cases (q == m.lru_cache)) [
      | inr f ↦ rw f h.kept
      | inl f ↦
          let same : m.lru_cache ≡ q = ground (arith, f) in
          let kept : Stores url content since (m.lists q) = rw (sym same) h.kept in
          rw f (
            get-Stores kept now (h.past q) (omega (arith, within, h.sound.expiry q)) range other
              (h.sound.valid q) e)
    ];
  }

  unique-Stores : Stores url content since ((make_unique now m).lists (make_unique now m).lru_cache)
  unfolding make_unique
  unique-Stores = elim (Bool-cases (m.readers m.lru_cache == 0)) [
    | inl f ↦ rw f h.kept
    | inr f ↦ rw (f, ==_refl) (copy-Stores now (h.sound.valid m.lru_cache) le h.kept)
  ]

  stores-Lasts :
      (other respond : Str) (m' : MemoryCache)
      → str_eq other url ≡ false
      → write_cache now other respond m ≡ some m'
      → Lasts url content since now m'
  unfolding write_cache
  stores-Lasts other respond m' ne done =
      let k = make_unique now m in
      let unique = make_unique-IsSound now h.sound in
      record {
        sound = write_cache-IsSound now other respond h.sound done;
        past =
            put_current-IsPast now other respond m' unique (make_unique-IsPast now h.sound h.past)
              done;
        kept =
            put_other-Stores now other respond (unique.valid k.lru_cache) (unique.fits k.lru_cache)
              (unique.small k.lru_cache) (put_current-list now other respond unique m' done) ne
              unique-Stores;
      }

  Move-Lasts : {m' : MemoryCache} → Move url now m m' → Lasts url content since now m'
  Move-Lasts starts = starts-Lasts
  Move-Lasts (finishes other q {m' = m'} held done) =
      let (l, e, same) = get-end_read now other q m done in
      subst (Lasts url content since now) same (finishes-Lasts other q l e)
  Move-Lasts (stores other respond {m' = m'} ne done) = stores-Lasts other respond m' ne done

waits-Lasts :
    {url content : Str} {since now later : ℕ} {m : MemoryCache}
    → now ≤ later
    → Lasts url content since now m
    → Lasts url content since later m
waits-Lasts le h = record {
  sound = h.sound;
  past = λ q url n e. omega (arith, h.past q url n e, le);
  kept = h.kept;
}

Moves-after :
    {url : Str} {t : ℕ} {m : MemoryCache} {now : ℕ} {m' : MemoryCache}
    → Moves url t m now m'
    → t ≤ now
Moves-after none_yet = omega arith
Moves-after (and_then moves le move) = omega (arith, Moves-after moves, le)

Moves-Lasts :
    {url content : Str} {since : ℕ} {m : MemoryCache} {now : ℕ} {m' : MemoryCache}
    → Lasts url content since since m
    → now - since < 2 ^ 31
    → now < 2 ^ 64
    → Moves url since m now m'
    → Lasts url content since now m'
Moves-Lasts h within range none_yet = h
Moves-Lasts h within range (and_then moves le move) =
    let before = Moves-Lasts h (omega (arith, within, le)) (omega (arith, range, le)) moves in
    let since = Moves-after moves in
    Move-Lasts (waits-Lasts le before) (omega (arith, since, le)) within range move

-- `get` runs outside of the mutex. In a sound cache without entries from the future, a write that
-- returns may be followed by any number of moves of other threads at times that do not go back:
-- they begin reads, write other urls, and end reads whose list a writer has replaced and no other
-- reader holds, so that no other thread can reach it during the `get`. A read of the written url
-- that begins after them, within the expiry time of INT_MAX seconds from the write and before the
-- time 2 ^ 64, and is not interrupted returns what was written.
pub written_lasts :
    (since s now : ℕ) (url respond : Str) {m m' m'' : MemoryCache}
    → IsSound m
    → ((q : ℕ) → IsPast since (m.lists q))
    → write_cache since url respond m ≡ some m'
    → Moves url since m' s m''
    → s ≤ now
    → now - since < 2 ^ 31
    → now < 2 ^ 64
    → (after : MemoryCache) × (read_cache now url m'' ≡ some (respond, after))
unfolding write_cache
written_lasts since s now url respond {m} {m'} {m''} sound past done moves le within range =
    let k = make_unique since m in
    let unique = make_unique-IsSound since sound in
    let first : Lasts url respond since since m' = record {
      sound = write_cache-IsSound since url respond sound done;
      past =
          put_current-IsPast since url respond m' unique (make_unique-IsPast since sound past) done;
      kept =
          put-Stores since url respond (unique.valid k.lru_cache) (unique.fits k.lru_cache)
            (unique.small k.lru_cache) (put_current-list since url respond unique m' done);
    } in
    let h = Moves-Lasts first (omega (arith, within, le)) (omega (arith, range, le)) moves in
    let c = m''.lru_cache in
    let (l, found) = get-shown (h.sound.valid c) now url in
    let expiry = h.sound.expiry c in
    let same : shown now url (m''.lists c) ≡ respond =
      Stores-shown h.kept now (λ u n e. omega (arith, h.past c u n e, le))
        (omega (arith, within, expiry)) range in
    read_cache-found now url respond m'' l
      (subst (λ (x : Str). Lru.get now url (m''.lists c) ≡ some (x, l)) same found)
