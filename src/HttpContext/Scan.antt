-- ===== src/HttpContext/Scan.antt =====
-- The scanning functions: what they find, and that they find it again in a longer buffer.
use enhanced_proxy.Common.{
  ℕ, ◌∙◌, ◌+◌, ◌≡◌, ◌≢◌, refl, none, some, [], ◌∷◌, ◌++◌, arith, ◌==◌, ◌&&◌, length, length-append,
  Str, inl, inr, Bool-cases, Option-cases, All, ap,
}
use mathlib.Core.Path.{subst}
use enhanced_proxy.HttpContext.{
  HttpContext, search_crlf, take_word, skip_spaces, parse_request_line,
}

abbrev pub crlf : Str
crlf = 13 ∷ 10 ∷ []

-- The bytes of a line: no carriage return.
abbrev pub IsLine : Str → Type 0
IsLine = All (λ c. c ≢ 13)

-- A line that ends in CRLF is found whole.
pub search_crlf-line :
    (line rest : Str) → IsLine line → search_crlf (line ++ (13 ∷ 10 ∷ rest)) ≡ some (line, rest)
unfolding search_crlf
search_crlf-line [] rest h = refl
search_crlf-line (c ∷ []) rest h = ground arith
search_crlf-line (c ∷ d ∷ line) rest h = ground (arith, search_crlf-line (d ∷ line) rest h.1)

-- What a search finds stays when the buffer grows.
pub search_crlf-append :
    (buf more line rest : Str)
    → search_crlf buf ≡ some (line, rest)
    → search_crlf (buf ++ more) ≡ some (line, rest ++ more)
unfolding search_crlf
search_crlf-append [] more line rest e = cc
search_crlf-append (c ∷ []) more line rest e = cc
search_crlf-append (c ∷ d ∷ l) more line rest e = elim (Bool-cases (c == 13 && d == 10)) [
  | inl f ↦ ground arith
  | inr f ↦ elim (Option-cases (search_crlf (d ∷ l))) [
    | inl n ↦ absurd (ground arith)
    | inr ((a, b), n) ↦ ground (arith, search_crlf-append (d ∷ l) more a b n)
  ]
]

-- The search splits the buffer.
pub search_crlf-split :
    (buf line rest : Str) → search_crlf buf ≡ some (line, rest) → buf ≡ line ++ (13 ∷ 10 ∷ rest)
unfolding search_crlf
search_crlf-split [] line rest e = cc
search_crlf-split (c ∷ []) line rest e = cc
search_crlf-split (c ∷ d ∷ l) line rest e = elim (Bool-cases (c == 13 && d == 10)) [
  | inl f ↦ ground arith
  | inr f ↦ elim (Option-cases (search_crlf (d ∷ l))) [
    | inl n ↦ absurd (ground arith)
    | inr ((a, b), n) ↦ ground (arith, search_crlf-split (d ∷ l) a b n)
  ]
]

-- No CRLF within.
unfoldable pub HasNoCrlf : Str → Type 0
HasNoCrlf [] = Unit
HasNoCrlf (c ∷ []) = Unit
HasNoCrlf (c ∷ d ∷ l) = ((c ≡ 13 → d ≢ 10)) × HasNoCrlf (d ∷ l)

HasNoCrlf-cons :
    (c d : ℕ) (l line rest : Str)
    → (c ≡ 13 → d ≢ 10)
    → d ∷ l ≡ line ++ (13 ∷ 10 ∷ rest)
    → HasNoCrlf line
    → HasNoCrlf (c ∷ line)
unfolding HasNoCrlf
HasNoCrlf-cons c d l [] rest ne e h = tt
HasNoCrlf-cons c d l (x ∷ line) rest ne e h =
    let same : d ≡ x = ground (arith, e) in ((λ f g. ne f (same ∙ g)), h)

-- The search stops at the first CRLF.
pub search_crlf-HasNoCrlf :
    (buf line rest : Str) → search_crlf buf ≡ some (line, rest) → HasNoCrlf line
unfolding search_crlf HasNoCrlf
search_crlf-HasNoCrlf [] line rest e = absurd (ground (arith, e))
search_crlf-HasNoCrlf (c ∷ []) line rest e = absurd (ground (arith, e))
search_crlf-HasNoCrlf (c ∷ d ∷ l) line rest e = elim (Bool-cases (c == 13 && d == 10)) [
  | inl f ↦ let same : [] ≡ line = ground (arith, e, f) in subst HasNoCrlf same tt
  | inr f ↦ elim (Option-cases (search_crlf (d ∷ l))) [
    | inl n ↦ absurd (ground (arith, e, f, n))
    | inr ((a, b), n) ↦
        let same : c ∷ a ≡ line = ground (arith, e, f, n) in
        let split = search_crlf-split (d ∷ l) a b n in
        subst HasNoCrlf same (
          HasNoCrlf-cons c d l a b (λ x y. ground (arith, f, x, y)) split
            (search_crlf-HasNoCrlf (d ∷ l) a b n))
  ]
]

pub search_crlf-length :
    (buf line rest : Str)
    → search_crlf buf ≡ some (line, rest)
    → length buf ≡ length line + 2 + length rest
search_crlf-length buf line rest e =
    omega
      (arith, ap length (search_crlf-split buf line rest e), length-append line (13 ∷ 10 ∷ rest))

-- No read goes past the end of the line when a carriage return follows it.
pub skip_spaces_stops :
    (line after : Str) → (rest : Str) × (skip_spaces line (13 ∷ after) ≡ some rest)
unfolding skip_spaces
skip_spaces_stops [] after = ([], refl)
skip_spaces_stops (c ∷ l) after = elim (Bool-cases (c == 32)) [
  | inl e ↦ let (r, f) = skip_spaces_stops l after in (r, ground arith)
  | inr e ↦ (c ∷ l, ground arith)
]

-- Only the byte at the end of the line is read beyond it.
pub skip_spaces-after :
    (line after more : Str) → skip_spaces line (13 ∷ after) ≡ skip_spaces line (13 ∷ more)
unfolding skip_spaces
skip_spaces-after [] after more = refl
skip_spaces-after (c ∷ l) after more = ground (arith, skip_spaces-after l after more)

pub parse_request_line-ne-none :
    (ctx : HttpContext) (line after : Str) → parse_request_line ctx line (13 ∷ after) ≢ none
unfolding parse_request_line
parse_request_line-ne-none ctx line after =
    ground (arith, skip_spaces_stops (take_word line).1 after)

pub parse_request_line-after :
    (ctx : HttpContext) (line after more : Str)
    → parse_request_line ctx line (13 ∷ after) ≡ parse_request_line ctx line (13 ∷ more)
unfolding parse_request_line
parse_request_line-after ctx line after more =
    ground (arith, skip_spaces-after (take_word line).1 after more)
