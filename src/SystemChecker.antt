-- ===== src/SystemChecker.antt =====
-- Process/SystemChecker.h: the name of the file /proc/<pid>/status, and the number in a line of it.
-- The body of `checkMemory` is a comment, so that nothing reads the file.
pub mod Lines
pub mod Names
mod Tests
use enhanced_proxy.Common.{
  zero, ◌+◌, ◌/◌, ◌%◌, ◌++◌, ltb, ℕ, Bool, true, false, Option, none, some, List, [], ◌∷◌, ◌==◌,
  suc, if◌then◌else◌, take, drop, Str, codes, str_eq,
}
use enhanced_proxy.HttpContext.{atoi}

-- The bytes in front of the first `c`, or all of them.
unfoldable pub before : ℕ → Str → Str
before c [] = []
before c (b ∷ l) = let rest = before c l in if b == c then [] else b ∷ rest

-- The place of the last `c`: `std::find` from `rbegin`; `none` is `rend`.
unfoldable pub find_last : ℕ → Str → Option ℕ
find_last c [] = none
find_last c (b ∷ l) = elim (find_last c l) [
  | some i ↦ some (suc i)
  | none ↦ if b == c then some 0 else none
]

-- `getMemoryToInt`: the bytes from the last space but one up to the last one. `none` is `abort`, or
-- the access through `rend` where a space is missing.
unfoldable pub get_memory_to_int : Str → Option ℕ
unfolding before find_last
get_memory_to_int memory_used =
    if str_eq (before b':' memory_used) (codes "VmRSS")
    then elim (find_last b' ' memory_used) [
      | none ↦ none
      | some last1 ↦ elim (find_last b' ' (take last1 memory_used)) [
        | none ↦ none
        | some last2 ↦ some (atoi (drop last2 (take last1 memory_used)))
      ]
    ]
    else none

-- `std::to_string` of a number that is not negative; each round takes off the last digit.
unfoldable pub to_digits : ℕ → ℕ → Str
to_digits zero n = []
to_digits (suc fuel) n =
    let rest = to_digits fuel (n / 10) in
    if ltb n 10 then (b'0' + n) ∷ [] else rest ++ ((b'0' + n % 10) ∷ [])

unfoldable pub to_string : ℕ → Str
unfolding to_digits
to_string n = to_digits (suc n) n

-- The fstream `checkFile` is never opened, and `MemoryUsed` is not set.
pub record MemoryChecker : Type 0 where
  pub pid : ℕ
  pub check_file_name : Str
  pub is_open : Bool
  pub memory_used : ℕ

-- The constructor; `memory` is what stands in `MemoryUsed`.
unfoldable pub new_checker : ℕ → ℕ → MemoryChecker
unfolding to_string
new_checker pid memory = record {
  pid = pid;
  check_file_name = codes "/proc/" ++ (to_string pid ++ codes "/status");
  is_open = false;
  memory_used = memory;
}

-- `checkMemory`
unfoldable pub check_memory : MemoryChecker → MemoryChecker
check_memory c = c
