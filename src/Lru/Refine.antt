-- ===== src/Lru/Refine.antt =====
-- The list with its index refines the recency list.
use mathlib.Core.Option
use enhanced_proxy.Common.{
  ℕ, ◌+◌, ◌^◌, ◌≤◌, ◌<◌, ◌≡◌, refl, true, false, Option, none, some, List, [], ◌∷◌, ◌++◌, arith,
  ltb, Str, inl, inr, Bool-cases, Option-cases, length,
}
use enhanced_proxy.Lru
use enhanced_proxy.Lru.{Node, Cell, Lru, has_expired}
use enhanced_proxy.Lru.Nodes.{find, remove, find-url}
use enhanced_proxy.Lru.Valid.{
  IsValid, with_new, with_old, moved, erased, put-with_new, put_full, put-with_old,
  with_new-IsValid, with_old-IsValid, found, absent, moved-IsValid, erased-IsValid, get-moved,
  get-erased, get-absent, pair_cell,
}
use enhanced_proxy.Lru.Recency
use enhanced_proxy.Lru.Recency.{Recency, lookup, without, note}

unfoldable pub contents : List Cell → List (Str × Str)
contents [] = []
contents (c ∷ l) = (c.url, c.content) ∷ contents l

pub record Matches (lru : Lru) (r : Recency) : Type 0 where
  pub capacity : r.capacity ≡ lru.max_size
  pub expired_time : r.expired_time ≡ lru.expired_time
  pub entries : r.entries ≡ contents lru.list
  pub written : (u : Str) → r.written u ≡ Option.map (λ n. n.time) (lru.map u)

lookup-contents :
    (url : Str) (l : List Cell) → lookup url (contents l) ≡ Option.map (λ c. c.content) (find url l)
unfolding lookup contents find
lookup-contents url [] = refl
lookup-contents url (c ∷ l) = ground (arith, lookup-contents url l)

without-contents : (url : Str) (l : List Cell) → without url (contents l) ≡ contents (remove url l)
unfolding without contents remove
without-contents url [] = refl
without-contents url (c ∷ l) = ground (arith, without-contents url l)

without_absent : (url : Str) (l : List Cell) → find url l ≡ none → remove url l ≡ l
unfolding remove find
without_absent url [] e = refl
without_absent url (c ∷ l) e = ground (arith, without_absent url l)

contents-append :
    (l : List Cell) (c : Cell) → contents (l ++ (c ∷ [])) ≡ contents l ++ ((c.url, c.content) ∷ [])
unfolding contents
contents-append [] c = refl
contents-append (x ∷ l) c = ground (arith, contents-append l c)

length-contents : (l : List Cell) → length (contents l) ≡ length l
unfolding contents
length-contents [] = refl
length-contents (c ∷ l) = omega (arith, length-contents l)

module _ (now : ℕ) (url : Str) (r : Recency) where
  get-none : lookup url r.entries ≡ none → Recency.get now url r ≡ ([], r)
  unfolding Recency.get
  get-none e = ground arith

  get_stale :
      (content : Str) (time : ℕ)
      → lookup url r.entries ≡ some content
      → r.written url ≡ some time
      → has_expired now time r.expired_time ≡ true
      → Recency.get now url r
        ≡ ([], record r { entries = without url r.entries; written = note r.written url none })
  unfolding Recency.get
  get_stale content time e w x = ground arith

  get_hit :
      (content : Str) (time : ℕ)
      → lookup url r.entries ≡ some content
      → r.written url ≡ some time
      → has_expired now time r.expired_time ≡ false
      → Recency.get now url r
        ≡ (content, record r { entries = without url r.entries ++ ((url, content) ∷ []) })
  unfolding Recency.get
  get_hit content time e w x = ground arith

module _ {lru : Lru} {r : Recency} (v : IsValid lru) (m : Matches lru r) (now : ℕ) (url : Str) where
  moved_entries :
      (c : Cell)
      → find url lru.list ≡ some c
      → without url r.entries ++ ((url, c.content) ∷ [])
        ≡ contents (remove url lru.list ++ (c ∷ []))
  moved_entries c f = ground (
    arith,
    m.entries,
    without-contents url lru.list,
    contents-append (remove url lru.list) c,
    find-url c url lru.list f,
  )

  moved-Matches :
      (c : Cell)
      → find url lru.list ≡ some c
      → Matches
          (moved url c lru)
          (record r { entries = without url r.entries ++ ((url, c.content) ∷ []) })
  moved-Matches c f = record {
    capacity = m.capacity;
    expired_time = m.expired_time;
    entries = moved_entries c f;
    written = m.written;
  }

  erased-Matches :
      Matches
        (erased url lru)
        (record r { entries = without url r.entries; written = note r.written url none })
  erased-Matches = record {
    capacity = m.capacity;
    expired_time = m.expired_time;
    entries = ground (arith, m.entries, without-contents url lru.list);
    written = λ u. ground (arith, m.written u);
  }

  -- A call of `get` never faults on a valid list that matches a recency list: it returns the
  -- content that the recency list returns, and leaves a valid list that matches the recency list
  -- after its `get`.
  pub get_refines :
      (lru' : Lru) × (Lru.get now url lru ≡ some ((Recency.get now url r).0, lru'))
      × IsValid lru'
      × Matches lru' (Recency.get now url r).1
  get_refines = elim (Option-cases (lru.map url)) [
    | inl e ↦
        rw
          (get-none now url r
            (ground (arith, m.entries, lookup-contents url lru.list, absent v url e)))
          (lru, get-absent now url lru e, v, m)
    | inr (n, e) ↦
        let (c, f, a) = found v url n e in
        let held : lookup url r.entries ≡ some c.content =
          ground (arith, m.entries, lookup-contents url lru.list) in
        let written : r.written url ≡ some n.time = ground (arith, m.written url) in
        elim (Bool-cases (has_expired now n.time lru.expired_time)) [
          | inl x ↦ rw (get_stale now url r c.content n.time held written (rw m.expired_time x)) (
            erased url lru,
            get-erased v url c f now n e x,
            erased-IsValid v url c f,
            erased-Matches,
          )
          | inr x ↦ rw (get_hit now url r c.content n.time held written (rw m.expired_time x)) (
            moved url c lru,
            get-moved v url c f now n e x,
            moved-IsValid v url c f,
            moved-Matches c f,
          )
        ]
  ]

-- Both fault, or both go on in states that match.
abbrev pub Agree : Option Lru → Option Recency → Type 0
Agree none none = Unit
Agree (some lru) (some r) = IsValid lru × Matches lru r
Agree _ _ = ⊥

module _ (now : ℕ) (url content : Str) (r : Recency) where
  abbrev pub rewritten : Recency
  rewritten = record r {
    entries = without url r.entries ++ ((url, content) ∷ []);
    written = note r.written url (some now);
  }

  put_present :
      (old : Str) → lookup url r.entries ≡ some old → Recency.put now url content r ≡ some rewritten
  unfolding Recency.put
  put_present old e = ground arith

  put_absent :
      lookup url r.entries ≡ none
      → length r.entries < r.capacity
      → Recency.put now url content r ≡ some rewritten
  unfolding Recency.put
  put_absent e h = ground arith

  put_overfull :
      lookup url r.entries ≡ none
      → r.capacity ≤ length r.entries
      → Recency.put now url content r ≡ none
  unfolding Recency.put
  put_overfull e h = ground arith

module _ {lru : Lru} {r : Recency} (v : IsValid lru) (m : Matches lru r) (now : ℕ)
    (url content : Str) where
  with_new-Matches :
      lru.map url ≡ none → Matches (with_new now url content lru) (rewritten now url content r)
  with_new-Matches e = record {
    capacity = m.capacity;
    expired_time = m.expired_time;
    entries = ground (
      arith,
      m.entries,
      without-contents url lru.list,
      without_absent url lru.list (absent v url e),
      contents-append lru.list (pair_cell lru url content),
    );
    written = λ u. ground (arith, m.written u);
  }

  with_old-Matches :
      (c : Cell)
      → find url lru.list ≡ some c
      → Matches (with_old now url content c lru) (rewritten now url content r)
  with_old-Matches c f = record {
    capacity = m.capacity;
    expired_time = m.expired_time;
    entries = ground (
      arith,
      m.entries,
      without-contents url lru.list,
      contents-append (remove url lru.list) (record c { content = content }),
      find-url c url lru.list f,
    );
    written = λ u. ground (arith, m.written u);
  }

  -- A call of `put` on a valid list that matches a recency list, is within its capacity, and has a
  -- capacity below 2 ^ 31 - 1 does what the recency list does: it faults
  -- exactly for a new url in a full list, and otherwise leaves a valid list that matches.
  pub put_refines :
      length lru.list ≤ lru.max_size
      → lru.max_size + 1 < 2 ^ 31
      → Agree (Lru.put now url content lru) (Recency.put now url content r)
  put_refines fits small = elim (Option-cases (lru.map url)) [
    | inl e ↦
        let missing : lookup url r.entries ≡ none =
          ground (arith, m.entries, lookup-contents url lru.list, absent v url e) in
        elim (Bool-cases (ltb (length lru.list) lru.max_size)) [
          | inl room ↦
              rw
                (
                  put-with_new now url content lru e (ground arith) (omega arith),
                  put_absent now url content r missing
                      (ground (arith, m.entries, m.capacity, length-contents lru.list)),
                )
                (with_new-IsValid v url content now e, with_new-Matches e)
          | inr over ↦
              rw
                (
                  put_full now url content lru e (ground arith) (ground arith),
                  put_overfull now url content r missing
                      (ground (arith, m.entries, m.capacity, length-contents lru.list)),
                )
                tt
        ]
    | inr (n, e) ↦
        let (c, f, a) = found v url n e in
        let held : lookup url r.entries ≡ some c.content =
          ground (arith, m.entries, lookup-contents url lru.list) in
        rw (put-with_old now url content lru c v f, put_present now url content r c.content held)
          (with_old-IsValid v url content now c f, with_old-Matches c f)
  ]
