-- ===== src/Lru.antt =====
-- cache/LRU.h: the least recently used list, with its index by url.
-- A std::list iterator is the address of a list node: addresses are given out by `next`, and an
-- operation on a dangling iterator is a fault. `time(nullptr)` is the argument `now`.
pub mod Nodes
pub mod Valid
pub mod Recency
pub mod Refine
pub mod Copies
pub mod Reads
pub mod Gets
pub mod Stores
mod Tests
use enhanced_proxy.Common.{
  ℕ, suc, ◌+◌, ◌-◌, ◌%◌, ◌^◌, Bool, true, false, Option, none, some, List, [], ◌∷◌, ◌++◌, ltb, ◌==◌,
  if◌then◌else◌, length, Str, str_eq,
}

-- `Node`: the time of the last write, and the iterator into the list.
pub record Node : Type 0 where
  pub time : ℕ
  pub position : ℕ

-- A node of `list_`: its address, and the pair of url and content.
pub record Cell : Type 0 where
  pub address : ℕ
  pub url : Str
  pub content : Str

-- `map_`: the node under a url.
abbrev pub StringNodeMap : Type 0
StringNodeMap = Str → Option Node

-- `list_` stands with the least recently used pair first.
pub record Lru : Type 0 where
  pub max_size : ℕ
  pub expired_time : ℕ
  pub size : ℕ
  pub list : List Cell
  pub map : StringNodeMap
  pub next : ℕ

abbrev pub set_node : StringNodeMap → Str → Node → StringNodeMap
set_node m url n k = if str_eq url k then some n else m k

abbrev pub erase_node : StringNodeMap → Str → StringNodeMap
erase_node m url k = if str_eq url k then none else m k

abbrev pub no_nodes : StringNodeMap
no_nodes _ = none

-- `list_.erase(position)`
unfoldable pub remove_at : ℕ → List Cell → List Cell
remove_at p [] = []
remove_at p (c ∷ l) = if c.address == p then l else c ∷ remove_at p l

-- What the iterator `position` points to.
unfoldable pub cell_at : ℕ → List Cell → Option Cell
cell_at p [] = none
cell_at p (c ∷ l) = if c.address == p then some c else cell_at p l

-- `position->second = content`
unfoldable pub assign_at : ℕ → Str → List Cell → List Cell
assign_at p content [] = []
assign_at p content (c ∷ l) =
    if c.address == p then record c { content = content } ∷ l else c ∷ assign_at p content l

-- `list_.splice(list_.end(), list_, position)`; `none` for an iterator that points to no node.
unfoldable pub move_back : ℕ → List Cell → Option (List Cell)
unfolding remove_at cell_at
move_back p l = elim (cell_at p l) [ none ↦ none | some c ↦ some (remove_at p l ++ (c ∷ [])) ]

-- The constructor leaves `size_` as the memory has it; INT_MAX is 2 ^ 31 - 1.
unfoldable pub init : ℕ → ℕ → Lru
init size uninitialised = record {
  max_size = size;
  expired_time = 2 ^ 31 - 1;
  size = uninitialised;
  list = [];
  map = no_nodes;
  next = 0;
}

-- The copied list has new nodes, in the same order.
unfoldable pub copy_list : ℕ → List Cell → List Cell
copy_list next [] = []
copy_list next (c ∷ l) = record c { address = next } ∷ copy_list (next + 1) l

-- The `while` of the copy constructor.
unfoldable pub index_list : ℕ → List Cell → StringNodeMap → StringNodeMap
index_list now [] m = m
index_list now (c ∷ l) m =
    index_list now l (set_node m c.url (record { time = now; position = c.address }))

-- The copy constructor.
unfoldable pub copy : ℕ → Lru → Lru
unfolding copy_list index_list
copy now lru = record {
  max_size = lru.max_size;
  expired_time = 2 ^ 31 - 1;
  size = lru.size;
  list = copy_list 0 lru.list;
  map = index_list now (copy_list 0 lru.list) no_nodes;
  next = length lru.list;
}

-- `int sizeNow = list_.size()`, as the `size_t` that the comparison with `maxSize_` makes of it.
abbrev pub as_int : ℕ → ℕ
as_int n = let low = n % 2 ^ 32 in if ltb low (2 ^ 31) then low else low + (2 ^ 64 - 2 ^ 32)

-- The `while` of `put` at a `sizeNow` above `maxSize_`: nothing in the loop changes `sizeNow`, so
-- it goes on until `begin()` of the empty list is dereferenced, a fault.
unfoldable pub evict : ℕ → ℕ → List Cell → StringNodeMap → Option (List Cell × StringNodeMap)
evict size_now max_size [] m = if ltb max_size size_now then none else some ([], m)
evict size_now max_size (c ∷ l) m =
    let rest = evict size_now max_size l (erase_node m c.url) in
    if ltb max_size size_now then rest else some (c ∷ l, m)

-- `put` of a url that is not there.
unfoldable pub put_new : ℕ → Str → Str → Lru → Option Lru
unfolding evict
put_new now url content lru =
    let list' = lru.list ++ (record { address = lru.next; url = url; content = content } ∷ []) in
    let map' = set_node lru.map url (record { time = now; position = lru.next }) in
    elim (evict (as_int (length list')) lru.max_size list' map') [
      | none ↦ none
      | some (l, m) ↦ some (record lru { list = l; map = m; next = lru.next + 1 })
    ]

-- `put` of a url that is there.
unfoldable pub put_old : ℕ → Str → Str → Node → Lru → Option Lru
unfolding assign_at move_back
put_old now url content n lru =
    elim (move_back n.position (assign_at n.position content lru.list)) [
      | none ↦ none
      | some l ↦ some (record lru {
        list = l;
        map = set_node lru.map url (record n { time = now });
        size = length l;
      })
    ]

-- `put`; `none` is a fault.
unfoldable pub put : ℕ → Str → Str → Lru → Option Lru
unfolding put_new put_old
put now url content lru = elim (lru.map url) [
  | none ↦ put_new now url content lru
  | some n ↦ put_old now url content n lru
]

-- `erase`
unfoldable pub erase : Str → Lru → Lru
unfolding remove_at
erase url lru = elim (lru.map url) [
  | none ↦ lru
  | some n ↦ record lru { list = remove_at n.position lru.list; map = erase_node lru.map url }
]

-- `time(nullptr) - map_[url].time > expiredTime_`, on unsigned longs.
abbrev pub has_expired : ℕ → ℕ → ℕ → Bool
has_expired now time expired_time = ltb expired_time ((now + 2 ^ 64 - time) % 2 ^ 64)

-- What `get` reads after it has moved the node.
unfoldable pub read_moved : Node → Lru → Option (Str × Lru)
unfolding move_back
read_moved n lru = elim (move_back n.position lru.list) [
  | none ↦ none
  | some l ↦ elim (cell_at n.position l) [
    | none ↦ none
    | some c ↦ some (c.content, record lru { list = l })
  ]
]

-- `get`; `none` is a fault, and an absent or expired url gives the empty string.
unfoldable pub get : ℕ → Str → Lru → Option (Str × Lru)
unfolding read_moved erase
get now url lru = elim (lru.map url) [
  | none ↦ some ([], lru)
  | some n ↦
      if has_expired now n.time lru.expired_time then some ([], erase url lru) else read_moved n lru
]
