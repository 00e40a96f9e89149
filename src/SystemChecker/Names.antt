-- ===== src/SystemChecker/Names.antt =====
-- The name of the file that the checker means to read.
use enhanced_proxy.Common.{
  ℕ, zero, suc, ◌+◌, ◌-◌, ◌*◌, ◌/◌, ◌%◌, ◌<◌, ◌≡◌, refl, ap, ◌∙◌, [], ◌∷◌, ◌++◌, arith, ltb, inl,
  inr, Bool-cases, Str, codes, drop, All, ◌≤◌,
}
use enhanced_proxy.HttpContext.{digits}
use enhanced_proxy.SystemChecker.{to_digits, to_string, new_checker}

abbrev IsNumeral : Str → Type 0
IsNumeral = All (λ c. (b'0' ≤ c) × (c ≤ b'9'))

-- Reading digits, and then what follows them.
digits-append : (a l : Str) (acc : ℕ) → IsNumeral a → digits acc (a ++ l) ≡ digits (digits acc a) l
unfolding digits
digits-append [] l acc h = refl
digits-append (c ∷ a) l acc ((low, high), h) =
    ground (arith, low, high, digits-append a l (acc * 10 + (c - 48)) h)

last_digit : (acc d : ℕ) → d < 10 → digits acc ((b'0' + d) ∷ []) ≡ acc * 10 + d
unfolding digits
last_digit acc d h = ground (arith, h)

IsNumeral-append : (a b : Str) → IsNumeral a → IsNumeral b → IsNumeral (a ++ b)
IsNumeral-append [] b h k = k
IsNumeral-append (c ∷ a) b (h, hs) k = (h, IsNumeral-append a b hs k)

to_digits-IsNumeral : (fuel n : ℕ) → IsNumeral (to_digits fuel n)
unfolding to_digits
to_digits-IsNumeral zero n = tt
to_digits-IsNumeral (suc fuel) n = elim (Bool-cases (ltb n 10)) [
  | inl small ↦ rw small ((omega arith, ground (arith, small)), tt)
  | inr large ↦ rw large (
      IsNumeral-append (to_digits fuel (n / 10)) ((b'0' + n % 10) ∷ [])
        (to_digits-IsNumeral fuel (n / 10)) ((omega arith, omega arith), tt))
]

-- The digits of a number write it, if there is a round for each of them.
digits-to_digits : (fuel n : ℕ) → n < fuel → digits 0 (to_digits fuel n) ≡ n
unfolding to_digits
digits-to_digits zero n h = absurd (omega (arith, h))
digits-to_digits (suc fuel) n h = elim (Bool-cases (ltb n 10)) [
  | inl small ↦ rw small (last_digit 0 n (ground (arith, small)) ∙ omega arith)
  | inr large ↦
      let rest = to_digits fuel (n / 10) in
      let shorter : digits 0 rest ≡ n / 10 =
        digits-to_digits fuel (n / 10) (ground (arith, h, large)) in
      let joined =
        digits-append rest ((b'0' + n % 10) ∷ []) 0 (to_digits-IsNumeral fuel (n / 10)) in
      let last = last_digit (n / 10) (n % 10) (omega arith) in
      rw large (joined ∙ (ap (λ k. digits k ((b'0' + n % 10) ∷ [])) shorter ∙ (last ∙ omega arith)))
]

status_ends : (acc : ℕ) → digits acc (codes "/status") ≡ acc
unfolding digits
status_ends acc = refl

-- The number that follows `/proc/` in the name of the file is the process id, whatever it is.
name-pid : (pid memory : ℕ) → digits 0 (drop 6 (new_checker pid memory).check_file_name) ≡ pid
unfolding new_checker to_string
name-pid pid memory =
    digits-append (to_digits (suc pid) pid) (codes "/status") 0 (to_digits-IsNumeral (suc pid) pid)
    ∙ (status_ends (digits 0 (to_digits (suc pid) pid))
        ∙ digits-to_digits (suc pid) pid (omega arith))
