-- ===== src/Lru/Nodes.antt =====
-- The list by address and by url: with the addresses distinct, an operation at the address of the
-- first node with a url is the operation on that url.
use mathlib.Core.Path.{subst}
use enhanced_proxy.Common.{
  ◌≡◌, ◌≢◌, refl, false, Option, none, some, List, [], ◌∷◌, ◌++◌, arith, if◌then◌else◌, Str, str_eq,
  str_eq_iff, inl, inr, Bool-cases, All,
}
use enhanced_proxy.Lru.{Cell, remove_at, cell_at, assign_at, move_back}

-- The first node with a url.
unfoldable pub find : Str → List Cell → Option Cell
find url [] = none
find url (c ∷ l) = if str_eq c.url url then some c else find url l

unfoldable pub remove : Str → List Cell → List Cell
remove url [] = []
remove url (c ∷ l) = if str_eq c.url url then l else c ∷ remove url l

unfoldable pub assign : Str → Str → List Cell → List Cell
assign url content [] = []
assign url content (c ∷ l) =
    if str_eq c.url url then record c { content = content } ∷ l else c ∷ assign url content l

abbrev pub AddressesDiffer : Cell → Cell → Type 0
AddressesDiffer c d = c.address ≢ d.address

abbrev pub UrlsDiffer : Cell → Cell → Type 0
UrlsDiffer c d = str_eq d.url c.url ≡ false

-- No two nodes share an address or a url.
abbrev pub IsDistinct : List Cell → Type 0
IsDistinct [] = Unit
IsDistinct (c ∷ l) = All (AddressesDiffer c) l × All (UrlsDiffer c) l × IsDistinct l

find_address :
    (c d : Cell) (url : Str) (l : List Cell)
    → All (AddressesDiffer c) l
    → find url l ≡ some d
    → c.address ≢ d.address
unfolding find
find_address c d url [] h e = cc
find_address c d url (x ∷ l) h e = elim (Bool-cases (str_eq x.url url)) [
  | inl f ↦ ground (arith, h.0)
  | inr f ↦ find_address c d url l h.1 (ground arith)
]

pub find-url : (c : Cell) (url : Str) (l : List Cell) → find url l ≡ some c → c.url ≡ url
unfolding find
find-url c url [] e = cc
find-url c url (x ∷ l) e = elim (Bool-cases (str_eq x.url url)) [
  | inl f ↦ ground (arith, (str_eq_iff x.url url).0 f)
  | inr f ↦ find-url c url l (ground arith)
]

module _ {c : Cell} (url : Str) where
  pub cell_at-find :
      (l : List Cell) → IsDistinct l → find url l ≡ some c → cell_at c.address l ≡ some c
  unfolding cell_at find
  cell_at-find [] d e = cc
  cell_at-find (x ∷ l) d e = elim (Bool-cases (str_eq x.url url)) [
    | inl f ↦ ground arith
    | inr f ↦ ground (arith, cell_at-find l d.2, find_address x c url l d.0)
  ]

  pub remove_at-find :
      (l : List Cell) → IsDistinct l → find url l ≡ some c → remove_at c.address l ≡ remove url l
  unfolding remove_at remove find
  remove_at-find [] d e = refl
  remove_at-find (x ∷ l) d e = elim (Bool-cases (str_eq x.url url)) [
    | inl f ↦ ground arith
    | inr f ↦ ground (arith, remove_at-find l d.2, find_address x c url l d.0)
  ]

  pub assign_at-find :
      (content : Str) (l : List Cell)
      → IsDistinct l
      → find url l ≡ some c
      → assign_at c.address content l ≡ assign url content l
  unfolding assign_at assign find
  assign_at-find content [] d e = refl
  assign_at-find content (x ∷ l) d e = elim (Bool-cases (str_eq x.url url)) [
    | inl f ↦ ground arith
    | inr f ↦ ground (arith, assign_at-find content l d.2, find_address x c url l d.0)
  ]

  pub move_back-find :
      (l : List Cell)
      → IsDistinct l
      → find url l ≡ some c
      → move_back c.address l ≡ some (remove url l ++ (c ∷ []))
  unfolding move_back
  move_back-find l d e = ground (arith, cell_at-find l d e, remove_at-find l d e)

-- How the list is searched after each operation, and that the operations keep it distinct.
abbrev pub find_last : Str → Cell → Option Cell → Option Cell
find_last url c none = if str_eq c.url url then some c else none
find_last url c (some d) = some d

pub find-append :
    (url : Str) (l : List Cell) (c : Cell) → find url (l ++ (c ∷ [])) ≡ find_last url c (find url l)
unfolding find
find-append url [] c = refl
find-append url (x ∷ l) c = ground (arith, find-append url l c)

pub find-none :
    (url : Str) (l : List Cell) → All (λ d. str_eq d.url url ≡ false) l → find url l ≡ none
unfolding find
find-none url [] h = refl
find-none url (x ∷ l) h = ground (arith, find-none url l h.1)

pub none-find :
    (url : Str) (l : List Cell) → find url l ≡ none → All (λ d. str_eq d.url url ≡ false) l
unfolding find
none-find url [] h = tt
none-find url (x ∷ l) h = elim (Bool-cases (str_eq x.url url)) [
  | inl e ↦ absurd (ground arith)
  | inr e ↦ (e, none-find url l (ground arith))
]

pub find-remove :
    (u v : Str) (l : List Cell)
    → IsDistinct l
    → find v (remove u l) ≡ (if str_eq u v then none else find v l)
unfolding find remove
find-remove u v [] d = ground arith
find-remove u v (x ∷ l) d = ground (
  arith,
  find-remove u v l d.2,
  str_eq_iff x.url u,
  str_eq_iff x.url v,
  str_eq_iff u v,
  find-none x.url l d.1,
)

pub All-remove {ℓ} : (P : Cell → Type ℓ) (u : Str) (l : List Cell) → All P l → All P (remove u l)
unfolding remove
All-remove P u [] h = tt
All-remove P u (x ∷ l) h = elim (Bool-cases (str_eq x.url u)) [
  | inl e ↦ rw e h.1
  | inr e ↦ rw e (h.0, All-remove P u l h.1)
]

pub All-append {ℓ} :
    (P : Cell → Type ℓ) (l : List Cell) (c : Cell) → All P l → P c → All P (l ++ (c ∷ []))
All-append P [] c h p = (p, tt)
All-append P (x ∷ l) c h p = (h.0, All-append P l c h.1 p)

pub remove-IsDistinct : (u : Str) (l : List Cell) → IsDistinct l → IsDistinct (remove u l)
unfolding remove
remove-IsDistinct u [] d = tt
remove-IsDistinct u (x ∷ l) d = elim (Bool-cases (str_eq x.url u)) [
  | inl e ↦ rw e d.2
  | inr e ↦ rw e (
    All-remove (AddressesDiffer x) u l d.0,
    All-remove (UrlsDiffer x) u l d.1,
    remove-IsDistinct u l d.2,
  )
]

pub append-IsDistinct :
    (l : List Cell) (c : Cell)
    → IsDistinct l
    → All (λ d. d.address ≢ c.address) l
    → All (λ d. str_eq d.url c.url ≡ false) l
    → IsDistinct (l ++ (c ∷ []))
append-IsDistinct [] c d h g = (tt, tt, tt)
append-IsDistinct (x ∷ l) c d h g = (
  All-append (AddressesDiffer x) l c d.0 h.0,
  All-append (UrlsDiffer x) l c d.1
      (ground (arith, g.0, str_eq_iff x.url c.url, str_eq_iff c.url x.url)),
  append-IsDistinct l c d.2 h.1 g.1,
)

pub All-assign {ℓ} :
    (P : Cell → Type ℓ) (u content : Str)
    → ((c : Cell) → P c → P (record c { content = content }))
    → (l : List Cell) → All P l
    → All P (assign u content l)
unfolding assign
All-assign P u content keep [] h = tt
All-assign P u content keep (x ∷ l) h = elim (Bool-cases (str_eq x.url u)) [
  | inl e ↦ rw e (keep x h.0, h.1)
  | inr e ↦ rw e (h.0, All-assign P u content keep l h.1)
]

pub assign-IsDistinct :
    (u content : Str) (l : List Cell) → IsDistinct l → IsDistinct (assign u content l)
unfolding assign
assign-IsDistinct u content [] d = tt
assign-IsDistinct u content (x ∷ l) d = elim (Bool-cases (str_eq x.url u)) [
  | inl e ↦ rw e d
  | inr e ↦ rw e (
    All-assign (AddressesDiffer x) u content (λ c h. h) l d.0,
    All-assign (UrlsDiffer x) u content (λ c h. h) l d.1,
    assign-IsDistinct u content l d.2,
  )
]

pub find-assign_self :
    (c : Cell) (u content : Str) (l : List Cell)
    → find u l ≡ some c
    → find u (assign u content l) ≡ some (record c { content = content })
unfolding find assign
find-assign_self c u content [] e = cc
find-assign_self c u content (x ∷ l) e = elim (Bool-cases (str_eq x.url u)) [
  | inl f ↦ ground arith
  | inr f ↦ ground (arith, find-assign_self c u content l)
]

pub remove-assign : (u content : Str) (l : List Cell) → remove u (assign u content l) ≡ remove u l
unfolding remove assign
remove-assign u content [] = refl
remove-assign u content (x ∷ l) = ground (arith, remove-assign u content l)

pub All-find {ℓ} :
    (P : Cell → Type ℓ) (c : Cell) (url : Str) (l : List Cell) → All P l → find url l ≡ some c → P c
unfolding find
All-find P c url [] h e = absurd (cc)
All-find P c url (x ∷ l) h e = elim (Bool-cases (str_eq x.url url)) [
  | inl f ↦ subst P (ground arith) h.0
  | inr f ↦ All-find P c url l h.1 (ground arith)
]

sym_differ :
    (c : Cell) (l : List Cell) → All (AddressesDiffer c) l → All (λ d. d.address ≢ c.address) l
sym_differ c [] h = tt
sym_differ c (x ∷ l) h = (omega (arith, h.0), sym_differ c l h.1)

remove-addresses :
    (c : Cell) (url : Str) (l : List Cell)
    → IsDistinct l
    → find url l ≡ some c
    → All (λ d. d.address ≢ c.address) (remove url l)
unfolding find remove
remove-addresses c url [] d e = tt
remove-addresses c url (x ∷ l) d e = elim (Bool-cases (str_eq x.url url)) [
  | inl f ↦
      let same : x ≡ c = ground arith in
      rw f (subst (λ (y : Cell). All (λ d. d.address ≢ y.address) l) same (sym_differ x l d.0))
  | inr f ↦
      rw f (find_address x c url l d.0 (ground arith), remove-addresses c url l d.2 (ground arith))
]

-- A node that moves to the end, whatever its content becomes, keeps the list distinct.
pub moved-IsDistinct :
    (c : Cell) (url content : Str) (l : List Cell)
    → IsDistinct l
    → find url l ≡ some c
    → IsDistinct (remove url l ++ (record c { content = content } ∷ []))
moved-IsDistinct c url content l d e =
    append-IsDistinct (remove url l) (record c { content = content }) (remove-IsDistinct url l d)
      (remove-addresses c url l d e)
      (none-find c.url (remove url l)
        (ground (arith, find-url c url l e, find-remove url c.url l d, str_eq_iff url c.url)))
