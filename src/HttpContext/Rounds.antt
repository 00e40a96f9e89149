-- ===== src/HttpContext/Rounds.antt =====
-- What one round of the parser's loop does, branch by branch.
use enhanced_proxy.Common.{ℕ, suc, ◌+◌, ◌≡◌, true, false, none, some, ◌∷◌, arith, length, Str}
use enhanced_proxy.HttpContext.{
  HttpContext, expect_request_line, expect_headers, expect_body, Cursor, search_crlf, split_colon,
  parse_request_line, read_header, after_line, finish, result, parse_loop,
}

module _ (ctx : HttpContext) (cur : Cursor) (line rest : Str) where
  pub after_line-blank :
      split_colon line ≡ none
      → after_line ctx cur line rest ≡ (
        record ctx { state = expect_body },
        record cur { it = cur.it + length line + 2; rest = rest },
      )
  unfolding after_line
  after_line-blank e = ground arith

  pub after_line-header :
      (name value : Str)
      → split_colon line ≡ some (name, value)
      → after_line ctx cur line rest ≡ (
        ctx,
        record {
          it = cur.it + length line + 2;
          rest = rest;
          body_size = read_header cur.body_size name value;
        },
      )
  unfolding after_line
  after_line-header name value e = ground arith

module _ (fuel : ℕ) (ctx : HttpContext) (cur : Cursor) where
  pub round-body : ctx.state ≡ expect_body → parse_loop (suc fuel) ctx cur ≡ some (finish ctx cur)
  unfolding parse_loop
  round-body e = ground arith

  pub round-headers_end :
      ctx.state ≡ expect_headers
      → search_crlf cur.rest ≡ none
      → parse_loop (suc fuel) ctx cur ≡ some (result false ctx cur)
  unfolding parse_loop
  round-headers_end e n = ground arith

  pub round-headers_line :
      (line rest : Str)
      → ctx.state ≡ expect_headers
      → search_crlf cur.rest ≡ some (line, rest)
      → parse_loop (suc fuel) ctx cur
        ≡ parse_loop fuel (after_line ctx cur line rest).0 (after_line ctx cur line rest).1
  unfolding parse_loop
  round-headers_line line rest e n = ground arith

  pub round-request_end :
      ctx.state ≡ expect_request_line
      → search_crlf cur.rest ≡ none
      → parse_loop (suc fuel) ctx cur
        ≡ some (result false ctx (record cur { it = cur.it + length cur.rest }))
  unfolding parse_loop
  round-request_end e n = ground arith

  pub round-request_bad :
      (line rest : Str) (ctx' : HttpContext)
      → ctx.state ≡ expect_request_line
      → search_crlf cur.rest ≡ some (line, rest)
      → parse_request_line ctx line (13 ∷ 10 ∷ rest) ≡ some (false, ctx')
      → parse_loop (suc fuel) ctx cur
        ≡ some (result false ctx' (record cur { it = cur.it + length line }))
  unfolding parse_loop
  round-request_bad line rest ctx' e n p = ground arith

  pub round-request_line :
      (line rest : Str) (ctx' : HttpContext)
      → ctx.state ≡ expect_request_line
      → search_crlf cur.rest ≡ some (line, rest)
      → parse_request_line ctx line (13 ∷ 10 ∷ rest) ≡ some (true, ctx')
      → parse_loop (suc fuel) ctx cur
        ≡ parse_loop fuel
            (record ctx' { state = expect_headers })
            (record cur { it = cur.it + length line + 2; rest = rest })
  unfolding parse_loop
  round-request_line line rest ctx' e n p = ground arith
