-- ===== src/HttpContext/Words.antt =====
-- The line that `praseRequestLine` accepts, split into its parts.
use enhanced_proxy.Common.{
  ℕ, zero, suc, ◌≡◌, ◌≢◌, refl, true, some, [], ◌∷◌, ◌++◌, arith, ◌==◌, Str, inl, inr, Bool-cases,
  Option-cases, ◌∙◌, ap, All,
}
use enhanced_proxy.HttpContext.{HttpContext, take_word, skip_spaces, parse_request_line}

-- A word ends at the first space.
abbrev pub HasNoSpace : Str → Type 0
HasNoSpace = All (λ c. c ≢ 32)

-- Empty, or begun by a space.
abbrev pub IsTail : Str → Type 0
IsTail [] = Unit
IsTail (c ∷ l) = c ≡ 32

abbrev pub spaces : ℕ → Str
spaces zero = []
spaces (suc n) = 32 ∷ spaces n

take_word-parts :
    (l : Str)
    → (l ≡ (take_word l).0 ++ (take_word l).1) × HasNoSpace (take_word l).0 × IsTail (take_word l).1
unfolding take_word
take_word-parts [] = (refl, tt, tt)
take_word-parts (c ∷ l) =
    let (same, word, tail) = take_word-parts l in
    elim (Bool-cases (c == 32)) [
      | inl e ↦ rw e (refl, tt, ground (arith, e))
      | inr e ↦ rw e (ap (λ k. c ∷ k) same, ((λ f. ground (arith, e, f)), word), tail)
    ]

skip_spaces-parts :
    (line after : Str) (c : ℕ) (l : Str)
    → skip_spaces line (13 ∷ after) ≡ some (c ∷ l)
    → (n : ℕ) × (line ≡ spaces n ++ (c ∷ l)) × (c ≢ 32)
unfolding skip_spaces
skip_spaces-parts [] after c l e = cc
skip_spaces-parts (d ∷ line) after c l e = elim (Bool-cases (d == 32)) [
  | inl f ↦
      let (n, same, ne) = skip_spaces-parts line after c l (ground (arith, f, e)) in
      (suc n, ground (arith, f, same), ne)
  | inr f ↦ (0, ground (arith, f, e), ground (arith, f, e))
]

some_space :
    (b c n : ℕ) (bs l : Str)
    → (b ∷ bs) ≡ spaces n ++ (c ∷ l)
    → b ≡ 32
    → c ≢ 32
    → (gap : ℕ) × (b ∷ bs ≡ spaces (suc gap) ++ (c ∷ l))
some_space b c zero bs l e f ne = absurd (ne (ground (arith, e, f)))
some_space b c (suc n) bs l e f ne = (n, e)

take_word-there : (c : ℕ) (l : Str) → c ≢ 32 → (take_word (c ∷ l)).0 ≢ []
unfolding take_word
take_word-there c l ne = ground (arith, ne)

-- A line that is accepted as a request line.
pub record IsRequestLine (ctx ctx' : HttpContext) (line : Str) : Type 0 where
  pub method : Str
  pub gap : ℕ
  pub url : Str
  pub version : Str
  pub parts : line ≡ method ++ (spaces (suc gap) ++ (url ++ version))
  pub method_word : HasNoSpace method
  pub url_word : HasNoSpace url
  pub url_there : url ≢ []
  pub version_tail : IsTail version
  pub found : ctx' ≡ record ctx {
    request_method = ctx.request_method ++ method;
    request_url = ctx.request_url ++ url;
  }

pub request_line-IsRequestLine :
    (ctx ctx' : HttpContext) (line after : Str)
    → parse_request_line ctx line (13 ∷ after) ≡ some (true, ctx')
    → IsRequestLine ctx ctx' line
unfolding parse_request_line
request_line-IsRequestLine ctx ctx' line after e =
    let (same, word, tail) = take_word-parts line in go (take_word line).1 refl same word tail
  where
    go :
        (rest : Str)
        → (take_word line).1 ≡ rest
        → line ≡ (take_word line).0 ++ (take_word line).1
        → HasNoSpace (take_word line).0
        → IsTail (take_word line).1
        → IsRequestLine ctx ctx' line
    go [] r same word tail = absurd (ground (arith, e, r))
    go (b ∷ bs) r same word tail = elim (Option-cases (skip_spaces (b ∷ bs) (13 ∷ after))) [
      | inl fails ↦ absurd (ground (arith, e, r, fails))
      | inr ([], skipped) ↦ absurd (ground (arith, e, r, skipped))
      | inr ((c ∷ l), skipped) ↦
          let (n, parts, ne) = skip_spaces-parts (b ∷ bs) after c l skipped in
          let (same', word', tail') = take_word-parts (c ∷ l) in
          let space : b ≡ 32 = rw r at tail in
          let (gap, parts') = some_space b c n bs l parts space ne in
          record {
            method = (take_word line).0;
            gap = gap;
            url = (take_word (c ∷ l)).0;
            version = (take_word (c ∷ l)).1;
            parts =
                same
                ∙ ap (λ k. (take_word line).0 ++ k)
                    (r ∙ parts' ∙ ap (λ k. spaces (suc gap) ++ k) same');
            method_word = word;
            url_word = word';
            url_there = take_word-there c l ne;
            version_tail = tail';
            found = ground (arith, e, r, skipped);
          }
    ]
