-- ===== src/HttpContext/Stable.antt =====
-- A request that the parser accepts is accepted alike when more bytes follow it.
use enhanced_proxy.Common.{
  ℕ, zero, suc, ◌+◌, ◌≤◌, ◌≡◌, ◌≢◌, refl, Bool, true, false, Option, none, some, ◌∷◌, ◌++◌, arith,
  length, length-append, Str, inl, inr, Option-cases, ◌∙◌, sym, ap,
}
use enhanced_proxy.HttpContext.{
  HttpContext, expect_request_line, expect_headers, expect_body, Cursor, read_header, search_crlf,
  split_colon, parse_request_line, finish, result, parse_loop, parse_request,
}
use enhanced_proxy.HttpContext.Rounds.{
  after_line-blank, after_line-header, round-body, round-headers_end, round-headers_line,
  round-request_end, round-request_bad, round-request_line,
}
use enhanced_proxy.HttpContext.Scan.{
  search_crlf-append, parse_request_line-after, parse_request_line-ne-none,
}

abbrev longer : Str → Cursor → Cursor
longer more cur = record cur { rest = cur.rest ++ more }

pub no_fuel :
    (ctx : HttpContext) (cur : Cursor) {r : Bool × ℕ × HttpContext}
    → parse_loop zero ctx cur ≢ some r
unfolding parse_loop
no_fuel ctx cur = λ h. cc

pub not_done :
    (ctx : HttpContext) (cur : Cursor) {n : ℕ} {ctx' : HttpContext}
    → some (result false ctx cur) ≢ some (true, n, ctx')
unfolding result
not_done ctx cur = ground arith

module _ (more : Str) where
  finish-longer :
      (ctx ctx' : HttpContext) (cur : Cursor) (n : ℕ)
      → finish ctx cur ≡ (true, n, ctx')
      → finish ctx (longer more cur) ≡ (true, n, ctx')
  unfolding finish result
  finish-longer ctx ctx' cur n e = ground (arith, length-append cur.rest more)

  body-longer :
      (fuel fuel' : ℕ) (ctx : HttpContext) (cur : Cursor)
      → ctx.state ≡ expect_body
      → fuel ≤ fuel'
      → (n : ℕ) (ctx' : HttpContext) → parse_loop fuel ctx cur ≡ some (true, n, ctx')
      → parse_loop fuel' ctx (longer more cur) ≡ some (true, n, ctx')
  body-longer zero fuel' ctx cur s le n ctx' e = absurd (no_fuel ctx cur e)
  body-longer (suc fuel) zero ctx cur s le n ctx' e = elim le [ ]
  body-longer (suc fuel) (suc fuel') ctx cur s le n ctx' e =
      let done : some (finish ctx cur) ≡ some (true, n, ctx') =
        sym (round-body fuel ctx cur s) ∙ e in
      round-body fuel' ctx (longer more cur) s
      ∙ ap some (finish-longer ctx ctx' cur n (ground arith))

  headers-longer :
      (fuel fuel' : ℕ) (ctx : HttpContext) (cur : Cursor)
      → ctx.state ≡ expect_headers
      → fuel ≤ fuel'
      → (n : ℕ) (ctx' : HttpContext) → parse_loop fuel ctx cur ≡ some (true, n, ctx')
      → parse_loop fuel' ctx (longer more cur) ≡ some (true, n, ctx')
  headers-longer zero fuel' ctx cur s le n ctx' e = absurd (no_fuel ctx cur e)
  headers-longer (suc fuel) zero ctx cur s le n ctx' e = elim le [ ]
  headers-longer (suc fuel) (suc fuel') ctx cur s le n ctx' e =
      elim (Option-cases (search_crlf cur.rest)) [
        | inl none_left ↦
            absurd (not_done ctx cur (sym (round-headers_end fuel ctx cur s none_left) ∙ e))
        | inr ((line, rest), found) ↦
            let e' = sym (round-headers_line fuel ctx cur line rest s found) ∙ e in
            rw
              (round-headers_line fuel' ctx (longer more cur) line (rest ++ more) s
                (search_crlf-append cur.rest more line rest found))
              (elim (Option-cases (split_colon line)) [
                | inl blank ↦
                    rw (after_line-blank ctx (longer more cur) line (rest ++ more) blank) (
                      body-longer fuel fuel' (record ctx { state = expect_body })
                        (record cur { it = cur.it + length line + 2; rest = rest }) refl
                        (omega arith) n ctx' (rw (after_line-blank ctx cur line rest blank) at e'))
                | inr ((name, value), header) ↦
                    rw
                      (after_line-header ctx (longer more cur) line (rest ++ more) name value
                        header)
                      (headers-longer fuel fuel' ctx
                        (record {
                          it = cur.it + length line + 2;
                          rest = rest;
                          body_size = read_header cur.body_size name value;
                        })
                        s (omega arith) n ctx'
                        (rw (after_line-header ctx cur line rest name value header) at e'))
              ])
      ]

  request-longer :
      (fuel fuel' : ℕ) (ctx : HttpContext) (cur : Cursor)
      → ctx.state ≡ expect_request_line
      → fuel ≤ fuel'
      → (n : ℕ) (ctx' : HttpContext) → parse_loop fuel ctx cur ≡ some (true, n, ctx')
      → parse_loop fuel' ctx (longer more cur) ≡ some (true, n, ctx')
  request-longer zero fuel' ctx cur s le n ctx' e = absurd (no_fuel ctx cur e)
  request-longer (suc fuel) zero ctx cur s le n ctx' e = elim le [ ]
  request-longer (suc fuel) (suc fuel') ctx cur s le n ctx' e =
      elim (Option-cases (search_crlf cur.rest)) [
        | inl none_left ↦
            absurd (not_done ctx _ (sym (round-request_end fuel ctx cur s none_left) ∙ e))
        | inr ((line, rest), found) ↦
            go line rest found (parse_request_line ctx line (13 ∷ 10 ∷ rest)) refl
      ]
    where
      go :
          (line rest : Str)
          → search_crlf cur.rest ≡ some (line, rest)
          → (o : Option (Bool × HttpContext)) → parse_request_line ctx line (13 ∷ 10 ∷ rest) ≡ o
          → parse_loop (suc fuel') ctx (longer more cur) ≡ some (true, n, ctx')
      go line rest found none p = absurd (parse_request_line-ne-none ctx line (10 ∷ rest) p)
      go line rest found (some (false, c)) p =
          absurd (not_done c _ (sym (round-request_bad fuel ctx cur line rest c s found p) ∙ e))
      go line rest found (some (true, c)) p =
          rw
            (round-request_line fuel' ctx (longer more cur) line (rest ++ more) c s
              (search_crlf-append cur.rest more line rest found)
              (parse_request_line-after ctx line (10 ∷ (rest ++ more)) (10 ∷ rest) ∙ p))
            (headers-longer fuel fuel' (record c { state = expect_headers })
              (record cur { it = cur.it + length line + 2; rest = rest }) refl (omega arith) n ctx'
              (sym (round-request_line fuel ctx cur line rest c s found p) ∙ e))

  -- If the parser accepts a buffer, then it accepts the buffer with any bytes behind it, with the
  -- same length, method and url.
  pub parse_request-append :
      (ctx ctx' : HttpContext) (buf : Str) (n : ℕ)
      → parse_request ctx buf ≡ some (true, n, ctx')
      → parse_request ctx (buf ++ more) ≡ some (true, n, ctx')
  unfolding parse_request
  parse_request-append ctx ctx' buf n e =
      request-longer (length buf + 3) (length (buf ++ more) + 3)
        (record ctx { state = expect_request_line }) (record { it = 0; rest = buf; body_size = 0 })
        refl (omega (arith, length-append buf more)) n ctx' e
