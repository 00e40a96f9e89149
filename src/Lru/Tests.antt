-- ===== src/Lru/Tests.antt =====
-- A list of capacity two.
use enhanced_proxy.Common.{◌≡◌, refl, none, some, [], ◌∷◌, Str, codes, str_eq, arith}
use enhanced_proxy.Lru.{Lru, init, put, get}
use enhanced_proxy.Lru.Valid.{IsValid, with_new, with_new-IsValid}
use enhanced_proxy.Lru.Recency
use enhanced_proxy.Lru.Recency.{Recency, note}
use enhanced_proxy.Lru.Refine.{Matches, Agree, contents, get_refines, put_refines}
use enhanced_proxy.Lru.Copies.{init-IsValid}

abbrev a : Str
a = codes "/a"

abbrev b : Str
b = codes "/b"

abbrev empty : Lru
unfolding init
empty = init 2 7

abbrev one : Lru
unfolding init
one = with_new 100 a (codes "A") empty

abbrev two : Lru
unfolding init
two = with_new 101 b (codes "B") one

put-one : put 100 a (codes "A") empty ≡ some one
unfolding put init
put-one = refl

one-IsValid : IsValid one
unfolding init
one-IsValid = with_new-IsValid (init-IsValid 2 7) a (codes "A") 100 refl

two-IsValid : IsValid two
unfolding init str_eq
two-IsValid = with_new-IsValid one-IsValid b (codes "B") 101 refl

abbrev recent : Recency
recent = record {
  capacity = 2;
  expired_time = 2147483647;
  entries = (a, codes "A") ∷ (b, codes "B") ∷ [];
  written = note (note (λ _. none) a (some 100)) b (some 101);
}

two-Matches : Matches two recent
unfolding init contents
two-Matches = record {
  capacity = refl;
  expired_time = refl;
  entries = refl;
  written = λ u. ground arith;
}

get_refines_example :
    (lru' : Lru) × (get 200 a two ≡ some ((Recency.get 200 a recent).0, lru'))
    × IsValid lru'
    × Matches lru' (Recency.get 200 a recent).1
get_refines_example = get_refines two-IsValid two-Matches 200 a

get_moves_back : (Recency.get 200 a recent).1.entries ≡ (b, codes "B") ∷ (a, codes "A") ∷ []
unfolding Recency.get Recency.lookup Recency.without str_eq
get_moves_back = refl

put_refines_example : Agree (put 200 b (codes "C") two) (Recency.put 200 b (codes "C") recent)
unfolding init
put_refines_example =
    put_refines two-IsValid two-Matches 200 b (codes "C") (omega arith) (omega arith)

-- The third url faults.
put-two : put 101 b (codes "B") one ≡ some two
unfolding put init str_eq
put-two = refl
