-- ===== src/HttpContext/Sound.antt =====
-- What the parser accepts: an accepted buffer, split into the parts of a request.
use enhanced_proxy.Common.{
  ℕ, zero, suc, ◌+◌, ◌^◌, ◌<◌, ◌≡◌, refl, Bool, true, false, Option, none, some, ◌∷◌, ◌++◌, arith,
  length, length-append, Str, inl, inr, Option-cases, ◌∙◌, sym, ap,
}
use enhanced_proxy.HttpContext.{
  HttpContext, expect_request_line, expect_headers, expect_body, Cursor, search_crlf,
  parse_request_line, parse_loop, parse_request,
}
use enhanced_proxy.HttpContext.Rounds.{round-request_end, round-request_bad, round-request_line}
use enhanced_proxy.HttpContext.Scan.{
  HasNoCrlf, search_crlf-split, search_crlf-HasNoCrlf, parse_request_line-ne-none,
}
use enhanced_proxy.HttpContext.Stable.{no_fuel, not_done}
use enhanced_proxy.HttpContext.Words.{IsRequestLine, request_line-IsRequestLine}
use enhanced_proxy.HttpContext.Rest.{IsRest, headers-Reads}

-- A buffer that begins with a request of `n` bytes, which takes one context to the other.
pub record IsRequest (ctx ctx' : HttpContext) (buf : Str) (n : ℕ) : Type 0 where
  pub line : Str
  pub rest : Str
  pub between : HttpContext
  pub used : ℕ
  pub parts : buf ≡ line ++ (13 ∷ 10 ∷ rest)
  pub first_line : HasNoCrlf line
  pub request_line : IsRequestLine (record ctx { state = expect_request_line }) between line
  pub behind_line : IsRest 0 used rest
  pub total : n ≡ length line + 2 + used
  pub leaves : ctx' ≡ record between { state = expect_body }

parse_loop-IsRequest :
    (fuel : ℕ) (ctx ctx' : HttpContext) (buf : Str) (n : ℕ)
    → length buf < 2 ^ 31
    → parse_loop fuel
        (record ctx { state = expect_request_line })
        (record { it = 0; rest = buf; body_size = 0 })
      ≡ some (true, n, ctx')
    → IsRequest ctx ctx' buf n
parse_loop-IsRequest zero ctx ctx' buf n small e = absurd (no_fuel _ _ e)
parse_loop-IsRequest (suc fuel) ctx ctx' buf n small e = elim (Option-cases (search_crlf buf)) [
  | inl none_left ↦
      absurd (not_done begun _ (sym (round-request_end fuel begun start refl none_left) ∙ e))
  | inr ((line, rest), found) ↦
      go line rest found (parse_request_line begun line (13 ∷ 10 ∷ rest)) refl
]
  where
    begun : HttpContext
    begun = record ctx { state = expect_request_line }

    start : Cursor
    start = record { it = 0; rest = buf; body_size = 0 }

    go :
        (line rest : Str)
        → search_crlf buf ≡ some (line, rest)
        → (o : Option (Bool × HttpContext)) → parse_request_line begun line (13 ∷ 10 ∷ rest) ≡ o
        → IsRequest ctx ctx' buf n
    go line rest found none p = absurd (parse_request_line-ne-none begun line (10 ∷ rest) p)
    go line rest found (some (false, c)) p =
        absurd
          (not_done c _ (sym (round-request_bad fuel begun start line rest c refl found p) ∙ e))
    go line rest found (some (true, c)) p =
        let split = search_crlf-split buf line rest found in
        let len = ap length split ∙ length-append line (13 ∷ 10 ∷ rest) in
        let (used, r, total, same) =
          headers-Reads (record c { state = expect_headers }) ctx' n fuel
            (record start { it = 0 + length line + 2; rest = rest }) refl
            (omega (arith, len, small))
            (sym (round-request_line fuel begun start line rest c refl found p) ∙ e) in
        record {
          line = line;
          rest = rest;
          between = c;
          used = used;
          parts = split;
          first_line = search_crlf-HasNoCrlf buf line rest found;
          request_line = request_line-IsRequestLine begun c line (10 ∷ rest) p;
          behind_line = r;
          total = omega (arith, total);
          leaves = same;
        }

-- Whatever the parser accepts, in a buffer below 2 GiB, is a request. Cut at each first CRLF, the
-- buffer begins with a line of a method without a space, one space or more, a url that is not empty
-- and has no space, and nothing more or a space and anything; then header lines, each with a colon,
-- a line without a colon, and a body of the length that the last header line that begins with
-- `Content-Length:` announces by the number behind that, or none. The result is the length of all
-- that, and the context has the method and the url appended.
pub parse_request-IsRequest :
    (ctx ctx' : HttpContext) (buf : Str) (n : ℕ)
    → length buf < 2 ^ 31
    → parse_request ctx buf ≡ some (true, n, ctx')
    → IsRequest ctx ctx' buf n
unfolding parse_request
parse_request-IsRequest ctx ctx' buf n small e =
    parse_loop-IsRequest (length buf + 3) ctx ctx' buf n small e
