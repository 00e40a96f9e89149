-- ===== src/Lru/Reads.antt =====
-- What can be read after a `put`, and the bound on the list.
use enhanced_proxy.Common.{
  ℕ, ◌+◌, ◌-◌, ◌^◌, ◌≤◌, ◌<◌, ◌≡◌, refl, false, none, some, List, [], ◌∷◌, arith, ltb, Str, str_eq,
  str_eq_refl, inl, inr, ◌⊎◌, Bool-cases, Option-cases, length, length-append,
}
use enhanced_proxy.Lru.{Node, Cell, Lru, put, get, has_expired}
use enhanced_proxy.Lru.Nodes.{find, remove, find-append, find-url, find-remove}
use enhanced_proxy.Lru.Valid.{
  IsValid, with_new, with_old, put-with_new, put_full, put-with_old, with_new-IsValid,
  with_old-IsValid, found, absent, get-moved, pair_cell,
}

pub length-remove :
    (c : Cell) (url : Str) (l : List Cell)
    → find url l ≡ some c
    → length (remove url l) + 1 ≡ length l
unfolding find remove
length-remove c url [] e = cc
length-remove c url (x ∷ l) e = ground (arith, length-remove c url l)

fresh_enough :
    (now now' limit : ℕ)
    → now ≤ now'
    → now' - now ≤ limit
    → now' < 2 ^ 64
    → has_expired now' now limit ≡ false
fresh_enough now now' limit h g k = ground arith

module _ (now : ℕ) (url content : Str) {lru lru' : Lru} (v : IsValid lru)
    (fits : length lru.list ≤ lru.max_size) (small : lru.max_size + 1 < 2 ^ 31)
    (done : put now url content lru ≡ some lru') where
  -- A `put` that returns has written the url into a new node or into the old one.
  pub put-cases :
      ((lru.map url ≡ none)
        × (length lru.list < lru.max_size)
        × (lru' ≡ with_new now url content lru))
      ⊎ ((c : Cell) × (find url lru.list ≡ some c) × (lru' ≡ with_old now url content c lru))
  put-cases = elim (Option-cases (lru.map url)) [
    | inl e ↦ elim (Bool-cases (ltb (length lru.list) lru.max_size)) [
      | inl room ↦ inl (e, ground arith, ground (arith, put-with_new now url content lru e))
      | inr over ↦ absurd (ground (arith, put_full now url content lru e))
    ]
    | inr (n, e) ↦
        let (c, f, a) = found v url n e in
        inr (c, f, ground (arith, put-with_old now url content lru c v f))
  ]

  -- A `put` that returns, on a valid list within a capacity below 2 ^ 31 - 1, leaves a valid list
  -- within its capacity.
  pub put-IsValid : IsValid lru' × (length lru'.list ≤ lru'.max_size)
  put-IsValid = elim put-cases [
    | inl (e, room, same) ↦ rw same (
      with_new-IsValid v url content now e,
      omega (arith, length-append lru.list (pair_cell lru url content ∷ [])),
    )
    | inr (c, f, same) ↦ rw same (
      with_old-IsValid v url content now c f,
      omega (
        arith,
        length-append (remove url lru.list) (record c { content = content } ∷ []),
        length-remove c url lru.list f,
      ),
    )
  ]

  -- After a `put` that returns, on a valid list within a capacity below 2 ^ 31 - 1, a `get` of the
  -- same url that is not earlier, within the expiry time and before the time 2 ^ 64 returns the
  -- content that was put.
  pub get-put :
      (now' : ℕ)
      → now ≤ now'
      → now' - now ≤ lru.expired_time
      → now' < 2 ^ 64
      → (lru'' : Lru) × (get now' url lru' ≡ some (content, lru''))
  get-put now' later within range = elim put-cases [
    | inl (e, room, same) ↦ rw same (
      _,
      get-moved (with_new-IsValid v url content now e) url (pair_cell lru url content)
          (ground (
            arith,
            find-append url lru.list (pair_cell lru url content),
            absent v url e,
            str_eq_refl url,
          ))
          now' (record { time = now; position = lru.next }) (ground (arith, str_eq_refl url))
          (fresh_enough now now' lru.expired_time later within range),
    )
    | inr (c, f, same) ↦ rw same (
      _,
      get-moved (with_old-IsValid v url content now c f) url (record c { content = content })
          (ground (
            arith,
            find-append url (remove url lru.list) (record c { content = content }),
            find-remove url url lru.list v.distinct,
            find-url c url lru.list f,
            str_eq_refl url,
          ))
          now' (record { time = now; position = c.address }) (ground (arith, str_eq_refl url))
          (fresh_enough now now' lru.expired_time later within range),
    )
  ]

  -- A `put` that returns, on a valid list within a capacity below 2 ^ 31 - 1, changes nothing at
  -- another url: neither its node nor its content.
  pub put-other :
      (other : Str)
      → str_eq url other ≡ false
      → (lru'.map other ≡ lru.map other) × (find other lru'.list ≡ find other lru.list)
  put-other other ne = elim put-cases [
    | inl (e, room, same) ↦
        rw same
          (ground arith, ground (arith, find-append other lru.list (pair_cell lru url content)))
    | inr (c, f, same) ↦ rw same (
      ground arith,
      ground (
        arith,
        find-append other (remove url lru.list) (record c { content = content }),
        find-remove url other lru.list v.distinct,
        find-url c url lru.list f,
      ),
    )
  ]

  pub put-limits : (lru'.max_size ≡ lru.max_size) × (lru'.expired_time ≡ lru.expired_time)
  put-limits = elim put-cases [
    | inl (e, room, same) ↦ rw same (refl, refl)
    | inr (c, f, same) ↦ rw same (refl, refl)
  ]

  pub put-times :
      (other : Str) (n : Node) → lru'.map other ≡ some n → (n.time ≡ now) ⊎ (lru.map other ≡ some n)
  put-times other n e = elim put-cases [
    | inl (f, room, same) ↦ elim (Bool-cases (str_eq url other)) [
      | inl u ↦ inl (ground (arith, e, same, u))
      | inr u ↦ inr (ground (arith, e, same, u))
    ]
    | inr (c, f, same) ↦ elim (Bool-cases (str_eq url other)) [
      | inl u ↦ inl (ground (arith, e, same, u))
      | inr u ↦ inr (ground (arith, e, same, u))
    ]
  ]
