-- ===== src/SystemChecker/Tests.antt =====
-- Lines of /proc/<pid>/status.
use enhanced_proxy.Common.{◌≡◌, refl, none, some, ◌∷◌, ◌++◌, codes, str_eq}
use enhanced_proxy.SystemChecker.{get_memory_to_int, new_checker, to_string, to_digits}
use enhanced_proxy.HttpContext.{atoi}

small_line : get_memory_to_int (codes "VmRSS:" ++ (9 ∷ codes "    1234 kB")) ≡ some 1234
unfolding get_memory_to_int str_eq atoi
small_line = refl

-- Eight digits fill the column, and no space stands in front of them.
long_line : get_memory_to_int (codes "VmRSS:" ++ (9 ∷ codes "12345678 kB")) ≡ none
unfolding get_memory_to_int str_eq
long_line = refl

other_key : get_memory_to_int (codes "VmLck:       0 kB") ≡ none
unfolding get_memory_to_int str_eq
other_key = refl

name : (new_checker 1204 0).check_file_name ≡ codes "/proc/1204/status"
unfolding new_checker to_string to_digits
name = refl
