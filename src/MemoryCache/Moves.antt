-- ===== src/MemoryCache/Moves.antt =====
-- What the operations leave: a sound cache, and no entries from the future.
use enhanced_proxy.Common.{
  ℕ, ◌-◌, ◌≢◌, ◌≡◌, some, ◌==◌, update, Str, arith, inl, inr, Bool-cases, Option-cases,
}
use enhanced_proxy.Lru
use enhanced_proxy.Lru.{Lru, Node, copy}
use enhanced_proxy.Lru.Reads.{put-times}
use enhanced_proxy.Lru.Copies.{copy-IsValid}
use enhanced_proxy.Lru.Gets.{IsPast, get-IsValid, get-limits}
use enhanced_proxy.MemoryCache.{MemoryCache, begin_read, end_read, make_unique, put_current}
use enhanced_proxy.MemoryCache.Snapshots.{IsSound}

-- One reader holds the pointer, and the cache has another list by now: as a pointer is copied from the
-- member `lru_cache` only, no other thread reaches the list that it points to any more.
pub record IsAlone (p : ℕ) (m : MemoryCache) : Type 0 where
  pub one : m.readers p ≡ 1
  pub old : m.lru_cache ≢ p

pub begin_read-IsSound : {m : MemoryCache} → IsSound m → IsSound (begin_read m).1
unfolding begin_read
begin_read-IsSound {m} sound = record {
  valid = sound.valid;
  fits = sound.fits;
  small = sound.small;
  expiry = sound.expiry;
  current = sound.current;
  held = λ p h. ground (arith, sound.held p, sound.current);
}

module _ (now : ℕ) (url : Str) (q : ℕ) (m : MemoryCache) where
  -- What `end_read` leaves.
  abbrev pub ended : Lru → MemoryCache
  ended l = record m { lists = update m.lists q l; readers = update m.readers q (m.readers q - 1) }

  pub end_read-get :
      {content : Str} {l : Lru}
      → Lru.get now url (m.lists q) ≡ some (content, l)
      → end_read now url q m ≡ some (content, ended l)
  unfolding end_read
  end_read-get e = ground (arith, e)

  pub get-end_read :
      {content : Str} {m' : MemoryCache}
      → end_read now url q m ≡ some (content, m')
      → (l : Lru) × (Lru.get now url (m.lists q) ≡ some (content, l)) × (ended l ≡ m')
  unfolding end_read
  get-end_read done = elim (Option-cases (Lru.get now url (m.lists q))) [
    | inl n ↦ absurd (ground (arith, n, done))
    | inr ((c, l), n) ↦ (l, ground (arith, n, done), ground (arith, n, done))
  ]

  module _ (sound : IsSound m) {content : Str} {l : Lru}
      (e : Lru.get now url (m.lists q) ≡ some (content, l)) where
    pub ended-IsSound : IsSound (ended l)
    ended-IsSound =
        let limits = get-limits (sound.valid q) now url e in
        record {
          valid = λ p. elim (Bool-cases (q == p)) [
            | inl f ↦ rw f (get-IsValid (sound.valid q) now url e)
            | inr f ↦ rw f (sound.valid p)
          ];
          fits = λ p. ground (arith, sound.fits p, sound.fits q, limits.0, limits.1);
          small = λ p. ground (arith, sound.small p, sound.small q, limits.1);
          expiry = λ p. ground (arith, sound.expiry p, sound.expiry q, limits.2);
          current = sound.current;
          held = λ p h. ground (arith, sound.held p, sound.held q);
        }

-- Writing leaves entries of the time of the write, or as they were.
pub make_unique-IsPast :
    (now : ℕ) {m : MemoryCache}
    → IsSound m
    → ((q : ℕ) → IsPast now (m.lists q))
    → (q : ℕ) → IsPast now ((make_unique now m).lists q)
unfolding make_unique
make_unique-IsPast now {m} sound past q url n e = elim (Bool-cases (m.readers m.lru_cache == 0)) [
  | inl f ↦ past q url n (ground (arith, e, f))
  | inr f ↦ elim (Bool-cases (m.next == q)) [
    | inl g ↦
        let times = (copy-IsValid now (sound.valid m.lru_cache)).2 url in
        ground (arith, e, f, g, times)
    | inr g ↦ past q url n (ground (arith, e, f, g))
  ]
]

pub put_current-IsPast :
    (now : ℕ) (url respond : Str) {m : MemoryCache} (m' : MemoryCache)
    → IsSound m
    → ((q : ℕ) → IsPast now (m.lists q))
    → put_current now url respond m ≡ some m'
    → (q : ℕ) → IsPast now (m'.lists q)
unfolding put_current
put_current-IsPast now url respond {m} m' sound past done q other n e =
    elim (Option-cases (Lru.put now url respond (m.lists m.lru_cache))) [
      | inl f ↦ absurd (ground (arith, f, done))
      | inr (l, f) ↦ elim (Bool-cases (m.lru_cache == q)) [
        | inl g ↦
            let c = m.lru_cache in
            let node : l.map other ≡ some n = ground (arith, e, f, g, done) in
            elim (put-times now url respond (sound.valid c) (sound.fits c) (sound.small c) f other n
              node) [ inl new ↦ omega (arith, new) | inr old ↦ past c other n old ]
        | inr g ↦ past q other n (ground (arith, e, f, g, done))
      ]
    ]
