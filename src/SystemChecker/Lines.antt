-- ===== src/SystemChecker/Lines.antt =====
-- The lines that `getMemoryToInt` reads, and those on which it fails.
use enhanced_proxy.Common.{
  ℕ, ◌+◌, ◌-◌, ◌*◌, ◌^◌, ◌<◌, ◌≡◌, ◌≢◌, refl, ap, ◌∙◌, true, none, some, List, [], ◌∷◌, ◌++◌, arith,
  length, take, drop, drop-append, append_assoc, sym, Str, codes, str_eq, str_eq_refl, All,
}
use enhanced_proxy.HttpContext.{atoi, skip_white, digits}
use enhanced_proxy.SystemChecker.{before, find_last, get_memory_to_int}

-- Decimal digits, their characters, and the number that they write.
abbrev pub IsDigit : ℕ → Type 0
IsDigit d = d < 10

abbrev pub shown : List ℕ → Str
shown [] = []
shown (d ∷ ds) = (b'0' + d) ∷ shown ds

unfoldable pub number : ℕ → List ℕ → ℕ
number acc [] = acc
number acc (d ∷ ds) = number (acc * 10 + d) ds

digits-shown : (ds : List ℕ) (acc : ℕ) → All IsDigit ds → digits acc (shown ds) ≡ number acc ds
unfolding digits number
digits-shown [] acc h = refl
digits-shown (d ∷ ds) acc (h, hs) =
    let same : acc * 10 + (b'0' + d - 48) ≡ acc * 10 + d = omega arith in
    ground (arith, h, digits-shown ds (acc * 10 + d) hs, same)

-- A space in front of digits is skipped.
atoi-shown :
    (d : ℕ) (ds : List ℕ)
    → All IsDigit (d ∷ ds)
    → number 0 (d ∷ ds) < 2 ^ 31
    → atoi (b' ' ∷ shown (d ∷ ds)) ≡ number 0 (d ∷ ds)
unfolding atoi skip_white
atoi-shown d ds h small =
    let same : digits 0 (shown (d ∷ ds)) ≡ number 0 (d ∷ ds) = digits-shown (d ∷ ds) 0 h in
    ground (arith, h, same)

abbrev pub HasNo : ℕ → Str → Type 0
HasNo c l = All (λ b. b ≢ c) l

shown-HasNo : (ds : List ℕ) → All IsDigit ds → HasNo b' ' (shown ds)
shown-HasNo [] h = tt
shown-HasNo (d ∷ ds) (h, hs) = ((λ e. omega arith), shown-HasNo ds hs)

find_last-none : (c : ℕ) (l : Str) → HasNo c l → find_last c l ≡ none
unfolding find_last
find_last-none c [] h = refl
find_last-none c (b ∷ l) (h, hs) = ground (arith, find_last-none c l hs)

find_last-append : (c : ℕ) (a l : Str) → HasNo c l → find_last c (a ++ (c ∷ l)) ≡ some (length a)
unfolding find_last
find_last-append c [] l h = ground (arith, find_last-none c l h)
find_last-append c (b ∷ a) l h = ground (arith, find_last-append c a l h)

take-append : (a l : Str) → take (length a) (a ++ l) ≡ a
take-append [] l = refl
take-append (b ∷ a) l = ap (λ k. b ∷ k) (take-append a l)

before-append : (c : ℕ) (a l : Str) → HasNo c a → before c (a ++ (c ∷ l)) ≡ a
unfolding before
before-append c [] l h = ground arith
before-append c (b ∷ a) l (h, hs) = ground (arith, before-append c a l hs)

-- A line as the kernel prints it: the key, white space, the number, and its unit.
abbrev pub line : Str → List ℕ → Str → Str
line blank ds unit = codes "VmRSS" ++ (b':' ∷ (blank ++ (b' ' ∷ (shown ds ++ (b' ' ∷ unit)))))

-- The line in front of its last space.
abbrev front : Str → List ℕ → Str
front blank ds = (codes "VmRSS" ++ (b':' ∷ blank)) ++ (b' ' ∷ shown ds)

line-front :
    (blank : Str) (ds : List ℕ) (unit : Str) → line blank ds unit ≡ front blank ds ++ (b' ' ∷ unit)
line-front blank ds unit =
    ap (λ l. codes "VmRSS" ++ (b':' ∷ l)) (sym (append_assoc blank (b' ' ∷ shown ds) (b' ' ∷ unit)))

has_key : (l : Str) → str_eq (before b':' (codes "VmRSS" ++ (b':' ∷ l))) (codes "VmRSS") ≡ true
has_key l =
    let key = before-append b':' (codes "VmRSS") l (
      (λ e. omega arith),
      ((λ e. omega arith), ((λ e. omega arith), ((λ e. omega arith), ((λ e. omega arith), tt)))),
    ) in
    ap (λ k. str_eq k (codes "VmRSS")) key ∙ str_eq_refl (codes "VmRSS")

-- A line with the key `VmRSS`, whatever bytes follow the colon, then a space, at least one decimal
-- digit, a space, and a unit without spaces: `getMemoryToInt` returns the number that the digits
-- write, if it fits an int.
reads_number :
    (blank : Str) (d : ℕ) (ds : List ℕ) (unit : Str)
    → All IsDigit (d ∷ ds)
    → number 0 (d ∷ ds) < 2 ^ 31
    → HasNo b' ' unit
    → get_memory_to_int (line blank (d ∷ ds) unit) ≡ some (number 0 (d ∷ ds))
unfolding get_memory_to_int
reads_number blank d ds unit h small clean =
    let split = line-front blank (d ∷ ds) unit in
    let a = front blank (d ∷ ds) in
    let head = codes "VmRSS" ++ (b':' ∷ blank) in
    let last1 : find_last b' ' (line blank (d ∷ ds) unit) ≡ some (length a) =
      ap (find_last b' ') split ∙ find_last-append b' ' a unit clean in
    let cut : take (length a) (line blank (d ∷ ds) unit) ≡ a =
      ap (take (length a)) split ∙ take-append a (b' ' ∷ unit) in
    let last2 : find_last b' ' a ≡ some (length head) =
      find_last-append b' ' head (shown (d ∷ ds)) (shown-HasNo (d ∷ ds) h) in
    let rest : drop (length head) a ≡ b' ' ∷ shown (d ∷ ds) =
      drop-append head (b' ' ∷ shown (d ∷ ds)) in
    ground (
      arith,
      has_key (blank ++ (b' ' ∷ (shown (d ∷ ds) ++ (b' ' ∷ unit)))),
      last1,
      cut,
      last2,
      rest,
      atoi-shown d ds h small,
    )
