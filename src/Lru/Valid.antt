-- ===== src/Lru/Valid.antt =====
-- The representation of the list and its index, what each operation computes on it, and that every
-- operation keeps it.
use mathlib.Core.Option
use enhanced_proxy.Common.{
  ℕ, ◌+◌, ◌^◌, ◌≤◌, ◌<◌, ◌≡◌, ◌≢◌, true, false, none, some, List, [], ◌∷◌, ◌++◌, arith, Str,
  str_eq_iff, str_eq_refl, inl, inr, Option-cases, All, length, length-append,
}
use enhanced_proxy.Lru.{
  Node, Cell, Lru, StringNodeMap, set_node, erase_node, evict, put_new, put_old, put, erase,
  read_moved, get, has_expired, as_int,
}
use enhanced_proxy.Lru.Nodes.{
  find, remove, assign, IsDistinct, find-url, cell_at-find, remove_at-find, assign_at-find,
  move_back-find, find-append, none-find, find-remove, All-remove, All-append, remove-IsDistinct,
  append-IsDistinct, assign-IsDistinct, find-assign_self, remove-assign, All-find, moved-IsDistinct,
}

-- Addresses and urls are distinct, addresses were given out, and the index has exactly the urls of
-- the list, each with the address of its node.
pub record IsValid (lru : Lru) : Type 0 where
  pub distinct : IsDistinct lru.list
  pub below : All (λ c. c.address < lru.next) lru.list
  pub indexed :
      (u : Str)
      → Option.map (λ n. n.position) (lru.map u) ≡ Option.map (λ c. c.address) (find u lru.list)

abbrev pub pair_cell : Lru → Str → Str → Cell
pair_cell lru url content = record { address = lru.next; url = url; content = content }

module _ {lru : Lru} (v : IsValid lru) (url : Str) where
  pub found :
      (n : Node)
      → lru.map url ≡ some n
      → (c : Cell) × (find url lru.list ≡ some c) × (c.address ≡ n.position)
  found n e = elim (Option-cases (find url lru.list)) [
    | inl f ↦ absurd (ground (arith, v.indexed url))
    | inr f ↦ (f.0, f.1, ground (arith, v.indexed url, f.1))
  ]

  pub absent : lru.map url ≡ none → find url lru.list ≡ none
  absent e = ground (arith, v.indexed url)

evict_none_over :
    (size_now max_size : ℕ) (l : List Cell) (m : StringNodeMap)
    → size_now ≤ max_size
    → evict size_now max_size l m ≡ some (l, m)
unfolding evict
evict_none_over size_now max_size [] m h = ground arith
evict_none_over size_now max_size (c ∷ l) m h = ground arith

evict_faults :
    (size_now max_size : ℕ) (l : List Cell) (m : StringNodeMap)
    → max_size < size_now
    → evict size_now max_size l m ≡ none
unfolding evict
evict_faults size_now max_size [] m h = ground arith
evict_faults size_now max_size (c ∷ l) m h =
    ground (arith, evict_faults size_now max_size l (erase_node m c.url))

-- What `put` leaves of a list with room for the new url.
abbrev pub with_new : ℕ → Str → Str → Lru → Lru
with_new now url content lru = record lru {
  list = lru.list ++ (pair_cell lru url content ∷ []);
  map = set_node lru.map url (record { time = now; position = lru.next });
  next = lru.next + 1;
}

-- What `put` leaves of a list that has the url, in the node `c`.
abbrev pub with_old : ℕ → Str → Str → Cell → Lru → Lru
with_old now url content c lru = record lru {
  list = remove url lru.list ++ (record c { content = content } ∷ []);
  map = set_node lru.map url (record { time = now; position = c.address });
  size = length (remove url lru.list ++ (record c { content = content } ∷ []));
}

module _ (now : ℕ) (url content : Str) (lru : Lru) where
  as_int_grown :
      length lru.list + 1 < 2 ^ 31
      → as_int (length (lru.list ++ (pair_cell lru url content ∷ []))) ≡ length lru.list + 1
  as_int_grown h = ground (arith, length-append lru.list (pair_cell lru url content ∷ []))

  put_new-with_new :
      length lru.list < lru.max_size
      → lru.max_size < 2 ^ 31
      → put_new now url content lru ≡ some (with_new now url content lru)
  unfolding put_new
  put_new-with_new room small = rw (
    evict_none_over (as_int (length (lru.list ++ (pair_cell lru url content ∷ [])))) lru.max_size
        (lru.list ++ (pair_cell lru url content ∷ []))
        (set_node lru.map url (record { time = now; position = lru.next }))
        (omega (arith, as_int_grown (omega arith))),
    put_new,
  )

  pub put-with_new :
      lru.map url ≡ none
      → length lru.list < lru.max_size
      → lru.max_size < 2 ^ 31
      → put now url content lru ≡ some (with_new now url content lru)
  unfolding put
  put-with_new e room small = ground (arith, put_new-with_new room small)

  put_new_full :
      lru.max_size ≤ length lru.list
      → length lru.list + 1 < 2 ^ 31
      → put_new now url content lru ≡ none
  unfolding put_new
  put_new_full full small = rw (
    evict_faults (as_int (length (lru.list ++ (pair_cell lru url content ∷ [])))) lru.max_size
        (lru.list ++ (pair_cell lru url content ∷ []))
        (set_node lru.map url (record { time = now; position = lru.next }))
        (omega (arith, as_int_grown small)),
    put_new,
  )

  -- A `put` of a new url into a list that has reached its capacity, and has fewer than 2 ^ 31 - 1
  -- entries, faults.
  pub put_full :
      lru.map url ≡ none
      → lru.max_size ≤ length lru.list
      → length lru.list + 1 < 2 ^ 31
      → put now url content lru ≡ none
  unfolding put
  put_full e full small = ground (arith, put_new_full full small)

  pub put-with_old :
      (c : Cell)
      → IsValid lru
      → find url lru.list ≡ some c
      → put now url content lru ≡ some (with_old now url content c lru)
  unfolding put put_old
  put-with_old c v e = ground (
    arith,
    v.indexed url,
    assign_at-find {c = c} url content lru.list v.distinct e,
    move_back-find {c = record c { content = content }} url (assign url content lru.list)
        (assign-IsDistinct url content lru.list v.distinct)
        (find-assign_self c url content lru.list e),
    remove-assign url content lru.list,
  )

-- The index of a list that an operation changed at one url.
abbrev pub position_of : Node → ℕ
position_of n = n.position

abbrev pub address_of : Cell → ℕ
address_of c = c.address

module _ {lru : Lru} (v : IsValid lru) (url content : Str) (now : ℕ) where
  fresh_address : All (λ d. d.address ≢ lru.next) lru.list
  fresh_address = go lru.list v.below
    where
      go : (l : List Cell) → All (λ c. c.address < lru.next) l → All (λ d. d.address ≢ lru.next) l
      go [] h = tt
      go (c ∷ l) h = (omega (arith, h.0), go l h.1)

  grown_below :
      (l : List Cell) → All (λ c. c.address < lru.next) l → All (λ c. c.address < lru.next + 1) l
  grown_below [] h = tt
  grown_below (c ∷ l) h = (omega (arith, h.0), grown_below l h.1)

  pub with_new-IsValid : lru.map url ≡ none → IsValid (with_new now url content lru)
  with_new-IsValid e = record {
    distinct =
        append-IsDistinct lru.list (pair_cell lru url content) v.distinct fresh_address
          (none-find url lru.list (absent v url e));
    below =
        All-append (λ c. c.address < lru.next + 1) lru.list (pair_cell lru url content)
          (grown_below lru.list v.below) (omega arith);
    indexed = λ u. ground (
      arith,
      v.indexed u,
      v.indexed url,
      find-append u lru.list (pair_cell lru url content),
      str_eq_iff url u,
    );
  }

  pub with_old-IsValid :
      (c : Cell) → find url lru.list ≡ some c → IsValid (with_old now url content c lru)
  with_old-IsValid c e = record {
    distinct = moved-IsDistinct c url content lru.list v.distinct e;
    below =
        All-append (λ d. d.address < lru.next) (remove url lru.list)
          (record c { content = content })
          (All-remove (λ d. d.address < lru.next) url lru.list v.below)
          (All-find (λ d. d.address < lru.next) c url lru.list v.below e);
    indexed = λ u. ground (
      arith,
      v.indexed u,
      v.indexed url,
      find-append u (remove url lru.list) (record c { content = content }),
      find-remove url u lru.list v.distinct,
      find-url c url lru.list e,
      str_eq_iff url u,
    );
  }

-- What `get` leaves of a list that has the url in the node `c`, and what `erase` leaves.
abbrev pub moved : Str → Cell → Lru → Lru
moved url c lru = record lru { list = remove url lru.list ++ (c ∷ []) }

abbrev pub erased : Str → Lru → Lru
erased url lru = record lru { list = remove url lru.list; map = erase_node lru.map url }

module _ {lru : Lru} (v : IsValid lru) (url : Str) (c : Cell) (e : find url lru.list ≡ some c) where
  pub moved-IsValid : IsValid (moved url c lru)
  moved-IsValid = record {
    distinct = moved-IsDistinct c url c.content lru.list v.distinct e;
    below =
        All-append (λ d. d.address < lru.next) (remove url lru.list) c
          (All-remove (λ d. d.address < lru.next) url lru.list v.below)
          (All-find (λ d. d.address < lru.next) c url lru.list v.below e);
    indexed = λ u. ground (
      arith,
      v.indexed u,
      find-append u (remove url lru.list) c,
      find-remove url u lru.list v.distinct,
      find-url c url lru.list e,
      str_eq_iff url u,
    );
  }

  pub erased-IsValid : IsValid (erased url lru)
  erased-IsValid = record {
    distinct = remove-IsDistinct url lru.list v.distinct;
    below = All-remove (λ d. d.address < lru.next) url lru.list v.below;
    indexed = λ u. ground (arith, v.indexed u, find-remove url u lru.list v.distinct);
  }

  pub erase-erased : erase url lru ≡ erased url lru
  unfolding erase
  erase-erased = ground (arith, v.indexed url, remove_at-find {c = c} url lru.list v.distinct e)

  found_moved : find url (remove url lru.list ++ (c ∷ [])) ≡ some c
  found_moved = ground (
    arith,
    find-append url (remove url lru.list) c,
    find-remove url url lru.list v.distinct,
    find-url c url lru.list e,
    str_eq_refl url,
  )

  pub read_moved_lem :
      (n : Node) → c.address ≡ n.position → read_moved n lru ≡ some (c.content, moved url c lru)
  unfolding read_moved
  read_moved_lem n a = ground (
    arith,
    move_back-find {c = c} url lru.list v.distinct e,
    cell_at-find {c = c} url (remove url lru.list ++ (c ∷ []))
        (moved-IsDistinct c url c.content lru.list v.distinct e) found_moved,
  )

  -- A present url that has not expired is read from its node, which moves to the end.
  pub get-moved :
      (now : ℕ) (n : Node)
      → lru.map url ≡ some n
      → has_expired now n.time lru.expired_time ≡ false
      → get now url lru ≡ some (c.content, moved url c lru)
  unfolding get
  get-moved now n m x = ground (arith, read_moved_lem n, v.indexed url)

  pub get-erased :
      (now : ℕ) (n : Node)
      → lru.map url ≡ some n
      → has_expired now n.time lru.expired_time ≡ true
      → get now url lru ≡ some ([], erased url lru)
  unfolding get
  get-erased now n m x = ground (arith, erase-erased)

pub get-absent :
    (now : ℕ) (url : Str) (lru : Lru) → lru.map url ≡ none → get now url lru ≡ some ([], lru)
unfolding get
get-absent now url lru e = ground arith
