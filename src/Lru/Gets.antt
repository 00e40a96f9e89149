-- ===== src/Lru/Gets.antt =====
-- What a `get` leaves for the calls of `get` that follow it, on the same url or another.
use enhanced_proxy.Common.{
  ℕ, ◌≤◌, ◌≡◌, refl, true, Option, none, some, [], ◌∷◌, ◌⊎◌, inl, inr, Bool-cases, Option-cases,
  arith, if◌then◌else◌, Str, length, length-append,
}
use enhanced_proxy.Lru.{Node, Cell, Lru, has_expired, get}
use enhanced_proxy.Lru.Nodes.{find, remove}
use enhanced_proxy.Lru.Valid.{
  IsValid, found, moved, erased, moved-IsValid, erased-IsValid, get-moved, get-erased, get-absent,
}
use enhanced_proxy.Lru.Reads.{length-remove}

abbrev content_of : Option Cell → Str
content_of none = []
content_of (some c) = c.content

abbrev content_at : ℕ → ℕ → Option Node → Option Cell → Str
content_at now limit none c = []
content_at now limit (some n) c = if has_expired now n.time limit then [] else content_of c

-- What a `get` at the time `now` would return.
abbrev pub shown : ℕ → Str → Lru → Str
shown now url lru = content_at now lru.expired_time (lru.map url) (find url lru.list)

-- No entry of the list was written after the time `now`.
abbrev pub IsPast : ℕ → Lru → Type 0
IsPast now lru = (url : Str) (n : Node) → lru.map url ≡ some n → n.time ≤ now

module _ {lru : Lru} (v : IsValid lru) (now : ℕ) (url : Str) where
  -- On a valid list a `get` never faults, and returns what is shown.
  pub get-shown : (lru' : Lru) × (get now url lru ≡ some (shown now url lru, lru'))
  get-shown = elim (Option-cases (lru.map url)) [
    | inl e ↦ rw e (lru, get-absent now url lru e)
    | inr (n, e) ↦
        let (c, f, a) = found v url n e in
        elim (Bool-cases (has_expired now n.time lru.expired_time)) [
          | inl x ↦ rw (e, x) (erased url lru, get-erased v url c f now n e x)
          | inr x ↦ rw (e, x, f) (moved url c lru, get-moved v url c f now n e x)
        ]
  ]

  -- A `get` leaves the list alone, or without an expired entry, or with an entry moved to its end.
  pub get-cases :
      {content : Str} {lru' : Lru}
      → get now url lru ≡ some (content, lru')
      → (lru' ≡ lru)
        ⊎ ((n : Node) × (c : Cell) × (lru.map url ≡ some n)
            × (has_expired now n.time lru.expired_time ≡ true)
            × (find url lru.list ≡ some c)
            × (lru' ≡ erased url lru))
        ⊎ ((c : Cell) × (find url lru.list ≡ some c) × (lru' ≡ moved url c lru))
  get-cases done = elim (Option-cases (lru.map url)) [
    | inl e ↦ inl (ground (arith, get-absent now url lru e))
    | inr (n, e) ↦
        let (c, f, a) = found v url n e in
        elim (Bool-cases (has_expired now n.time lru.expired_time)) [
          | inl x ↦ inr (inl (n, c, e, x, f, ground (arith, get-erased v url c f now n e x)))
          | inr x ↦ inr (inr (c, f, ground (arith, get-moved v url c f now n e x)))
        ]
  ]

  module _ {content : Str} {lru' : Lru} (done : get now url lru ≡ some (content, lru')) where
    pub get-IsValid : IsValid lru'
    get-IsValid = elim (get-cases done) [
      | inl same ↦ rw same v
      | inr (inl (n, c, e, x, f, same)) ↦ rw same (erased-IsValid v url c f)
      | inr (inr (c, f, same)) ↦ rw same (moved-IsValid v url c f)
    ]

    pub get-limits :
        (length lru'.list ≤ length lru.list)
        × (lru'.max_size ≡ lru.max_size)
        × (lru'.expired_time ≡ lru.expired_time)
    get-limits = elim (get-cases done) [
      | inl same ↦ rw same (omega arith, refl, refl)
      | inr (inl (n, c, e, x, f, same)) ↦
          rw same (omega (arith, length-remove c url lru.list f), refl, refl)
      | inr (inr (c, f, same)) ↦ rw same (
        omega (arith, length-append (remove url lru.list) (c ∷ []), length-remove c url lru.list f),
        refl,
        refl,
      )
    ]

    pub get-IsPast : (t : ℕ) → IsPast t lru → IsPast t lru'
    get-IsPast t past = elim (get-cases done) [
      | inl same ↦ rw same past
      | inr (inl (n, c, e, x, f, same)) ↦ rw same (λ u n g. ground (arith, past u n))
      | inr (inr (c, f, same)) ↦ rw same past
    ]
