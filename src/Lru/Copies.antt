-- ===== src/Lru/Copies.antt =====
-- The copy constructor: new nodes and a new index for the same entries.
use mathlib.Core.Option
use enhanced_proxy.Common.{
  ℕ, ◌+◌, ◌-◌, ◌^◌, ◌≤◌, ◌<◌, ◌≡◌, refl, false, Option, none, some, List, [], ◌∷◌, arith, Str,
  str_eq, str_eq_iff, All, length,
}
use enhanced_proxy.Lru.{
  Node, Cell, Lru, StringNodeMap, set_node, no_nodes, copy_list, index_list, copy, init,
}
use enhanced_proxy.Lru.Nodes.{find, IsDistinct, AddressesDiffer, find-none}
use enhanced_proxy.Lru.Valid.{IsValid}
use enhanced_proxy.Lru.Refine.{contents}

-- A new list is valid.
pub init-IsValid : (size uninitialised : ℕ) → IsValid (init size uninitialised)
unfolding init find
init-IsValid size uninitialised = record { distinct = tt; below = tt; indexed = λ u. refl }

contents-copy_list : (n : ℕ) (l : List Cell) → contents (copy_list n l) ≡ contents l
unfolding contents copy_list
contents-copy_list n [] = refl
contents-copy_list n (c ∷ l) = ground (arith, contents-copy_list (n + 1) l)

copy_list-above : (n m : ℕ) (l : List Cell) → m ≤ n → All (λ c. m ≤ c.address) (copy_list n l)
unfolding copy_list
copy_list-above n m [] h = tt
copy_list-above n m (c ∷ l) h = (h, copy_list-above (n + 1) m l (omega arith))

copy_list-below :
    (n m : ℕ) (l : List Cell) → n + length l ≤ m → All (λ c. c.address < m) (copy_list n l)
unfolding copy_list
copy_list-below n m [] h = tt
copy_list-below n m (c ∷ l) h = (omega arith, copy_list-below (n + 1) m l (omega arith))

copy_list-differ :
    (url : Str) (n : ℕ) (l : List Cell)
    → All (λ d. str_eq d.url url ≡ false) l
    → All (λ d. str_eq d.url url ≡ false) (copy_list n l)
unfolding copy_list
copy_list-differ url n [] h = tt
copy_list-differ url n (c ∷ l) h = (h.0, copy_list-differ url (n + 1) l h.1)

above-differ :
    (c : Cell) (l : List Cell) → All (λ d. c.address + 1 ≤ d.address) l → All (AddressesDiffer c) l
above-differ c [] h = tt
above-differ c (d ∷ l) h = (omega (arith, h.0), above-differ c l h.1)

copy_list-IsDistinct : (n : ℕ) (l : List Cell) → IsDistinct l → IsDistinct (copy_list n l)
unfolding copy_list
copy_list-IsDistinct n [] d = tt
copy_list-IsDistinct n (c ∷ l) d = (
  above-differ (record c { address = n }) (copy_list (n + 1) l)
      (copy_list-above (n + 1) (n + 1) l (omega arith)),
  copy_list-differ c.url (n + 1) l d.1,
  copy_list-IsDistinct (n + 1) l d.2,
)

-- The copied node of a url.
find-copy_list :
    (url : Str) (n : ℕ) (l : List Cell)
    → Option.map (λ c. c.content) (find url (copy_list n l))
      ≡ Option.map (λ c. c.content) (find url l)
unfolding find copy_list
find-copy_list url n [] = refl
find-copy_list url n (c ∷ l) = ground (arith, find-copy_list url (n + 1) l)

abbrev indexed_at : ℕ → Option Cell → Option Node → Option Node
indexed_at now none n = n
indexed_at now (some c) n = some (record { time = now; position = c.address })

index_list_lem :
    (now : ℕ) (url : Str) (l : List Cell) (m : StringNodeMap)
    → IsDistinct l
    → index_list now l m url ≡ indexed_at now (find url l) (m url)
unfolding index_list find
index_list_lem now url [] m d = refl
index_list_lem now url (c ∷ l) m d = ground (
  arith,
  index_list_lem now url l (set_node m c.url (record { time = now; position = c.address })) d.2,
  str_eq_iff c.url url,
  find-none c.url l d.1,
)

module _ (now : ℕ) {lru : Lru} (v : IsValid lru) where
  copied : List Cell
  copied = copy_list 0 lru.list

  -- A copy of a valid list is valid, holds the same entries in the same order, and has each of
  -- them as written now.
  pub copy-IsValid :
      IsValid (copy now lru)
      × (contents (copy now lru).list ≡ contents lru.list)
      × ((url : Str)
          → Option.map (λ n. n.time) ((copy now lru).map url) ≡ Option.map (λ n. now) (lru.map url))
  unfolding copy copied
  copy-IsValid = (
    record {
      distinct = copy_list-IsDistinct 0 lru.list v.distinct;
      below = copy_list-below 0 (length lru.list) lru.list (omega arith);
      indexed = λ u. ground (
        arith,
        index_list_lem now u (copy_list 0 lru.list) no_nodes
            (copy_list-IsDistinct 0 lru.list v.distinct),
      );
    },
    contents-copy_list 0 lru.list,
    λ u. ground (
      arith,
      index_list_lem now u (copy_list 0 lru.list) no_nodes
          (copy_list-IsDistinct 0 lru.list v.distinct),
      find-copy_list u 0 lru.list,
      v.indexed u,
    ),
  )

pub find-copy :
    (now : ℕ) (url : Str) (lru : Lru)
    → Option.map (λ c. c.content) (find url (copy now lru).list)
      ≡ Option.map (λ c. c.content) (find url lru.list)
unfolding copy
find-copy now url lru = find-copy_list url 0 lru.list

length-copy_list : (n : ℕ) (l : List Cell) → length (copy_list n l) ≡ length l
unfolding copy_list
length-copy_list n [] = refl
length-copy_list n (c ∷ l) = omega (arith, length-copy_list (n + 1) l)

pub copy-limits :
    (now : ℕ) (lru : Lru)
    → (length (copy now lru).list ≡ length lru.list)
      × ((copy now lru).max_size ≡ lru.max_size)
      × ((copy now lru).expired_time ≡ 2 ^ 31 - 1)
unfolding copy
copy-limits now lru = (length-copy_list 0 lru.list, refl, refl)

pub init-limits :
    (size uninitialised : ℕ)
    → (length (init size uninitialised).list ≡ 0)
      × ((init size uninitialised).max_size ≡ size)
      × ((init size uninitialised).expired_time ≡ 2 ^ 31 - 1)
unfolding init
init-limits size uninitialised = (refl, refl, refl)
