-- ===== src/HttpContext/Total.antt =====
-- The parser always returns, reads nothing outside the buffer, and claims no more than it holds.
use enhanced_proxy.Common.{
  ℕ, zero, suc, ◌+◌, ◌^◌, ◌≤◌, ◌<◌, ◌≡◌, refl, Bool, true, false, Option, none, some, ◌∷◌, arith,
  length, Str, inl, inr, Option-cases,
}
use enhanced_proxy.HttpContext.{
  HttpContext, expect_request_line, expect_headers, expect_body, Cursor, search_crlf, split_colon,
  parse_request_line, read_header, finish, result, parse_loop, parse_request,
}
use enhanced_proxy.HttpContext.Rounds.{
  after_line-blank, after_line-header, round-body, round-headers_end, round-headers_line,
  round-request_end, round-request_bad, round-request_line,
}
use enhanced_proxy.HttpContext.Scan.{search_crlf-length, parse_request_line-ne-none}

-- A result that says yes speaks of some bytes, all of which the buffer holds; `n` is the length of
-- the buffer.
abbrev pub IsWithin : ℕ → Bool × ℕ × HttpContext → Type 0
IsWithin n (false, _, _) = Unit
IsWithin n (true, used, _) = (0 < used) × (used ≤ n)

abbrev pub ReturnsWithin : ℕ → Option (Bool × ℕ × HttpContext) → Type 0
ReturnsWithin n o = (r : Bool × ℕ × HttpContext) × (o ≡ some r) × IsWithin n r

result-false : (n : ℕ) (ctx : HttpContext) (cur : Cursor) → IsWithin n (result false ctx cur)
unfolding result
result-false n ctx cur = tt

finish-IsWithin :
    (ctx : HttpContext) (cur : Cursor) (n : ℕ)
    → n < 2 ^ 31
    → cur.it + length cur.rest ≡ n
    → 0 < cur.it
    → IsWithin n (finish ctx cur)
unfolding finish
finish-IsWithin ctx cur n small whole begun = ground arith

body_returns :
    (fuel : ℕ) (ctx : HttpContext) (cur : Cursor) (n : ℕ)
    → ctx.state ≡ expect_body
    → 0 < fuel
    → n < 2 ^ 31
    → cur.it + length cur.rest ≡ n
    → 0 < cur.it
    → ReturnsWithin n (parse_loop fuel ctx cur)
body_returns zero ctx cur n e k small whole begun = elim k [ ]
body_returns (suc fuel) ctx cur n e k small whole begun =
    (finish ctx cur, round-body fuel ctx cur e, finish-IsWithin ctx cur n small whole begun)

headers_return :
    (fuel : ℕ) (ctx : HttpContext) (cur : Cursor) (n : ℕ)
    → ctx.state ≡ expect_headers
    → length cur.rest + 1 < fuel
    → n < 2 ^ 31
    → cur.it + length cur.rest ≡ n
    → 0 < cur.it
    → ReturnsWithin n (parse_loop fuel ctx cur)
headers_return zero ctx cur n e k small whole begun = elim k [ ]
headers_return (suc fuel) ctx cur n e k small whole begun =
    elim (Option-cases (search_crlf cur.rest)) [
      | inl none_left ↦
          (result false ctx cur, round-headers_end fuel ctx cur e none_left, result-false n ctx cur)
      | inr ((line, rest), found) ↦
          let len : length cur.rest ≡ length line + 2 + length rest =
            search_crlf-length cur.rest line rest found in
          rw (round-headers_line fuel ctx cur line rest e found)
            (elim (Option-cases (split_colon line)) [
              | inl blank ↦ rw (after_line-blank ctx cur line rest blank) (
                  body_returns fuel (record ctx { state = expect_body })
                    (record cur { it = cur.it + length line + 2; rest = rest }) n refl (omega arith)
                    small (omega arith) (omega arith))
              | inr ((name, value), header) ↦
                  rw (after_line-header ctx cur line rest name value header) (
                    headers_return fuel ctx
                      (record {
                        it = cur.it + length line + 2;
                        rest = rest;
                        body_size = read_header cur.body_size name value;
                      })
                      n e (omega arith) small (omega arith) (omega arith))
            ])
    ]

request_returns :
    (fuel : ℕ) (ctx : HttpContext) (cur : Cursor) (n : ℕ)
    → ctx.state ≡ expect_request_line
    → length cur.rest + 2 < fuel
    → n < 2 ^ 31
    → cur.it + length cur.rest ≡ n
    → ReturnsWithin n (parse_loop fuel ctx cur)
request_returns zero ctx cur n e k small whole = elim k [ ]
request_returns (suc fuel) ctx cur n e k small whole = elim (Option-cases (search_crlf cur.rest)) [
  | inl none_left ↦ (_, round-request_end fuel ctx cur e none_left, result-false n ctx _)
  | inr ((line, rest), found) ↦
      go line rest found (parse_request_line ctx line (13 ∷ 10 ∷ rest)) refl
]
  where
    go :
        (line rest : Str)
        → search_crlf cur.rest ≡ some (line, rest)
        → (o : Option (Bool × HttpContext)) → parse_request_line ctx line (13 ∷ 10 ∷ rest) ≡ o
        → ReturnsWithin n (parse_loop (suc fuel) ctx cur)
    go line rest found none p = absurd (parse_request_line-ne-none ctx line (10 ∷ rest) p)
    go line rest found (some (false, ctx')) p =
        (_, round-request_bad fuel ctx cur line rest ctx' e found p, result-false n ctx' _)
    go line rest found (some (true, ctx')) p =
        let len : length cur.rest ≡ length line + 2 + length rest =
          search_crlf-length cur.rest line rest found in
        rw (round-request_line fuel ctx cur line rest ctx' e found p) (
          headers_return fuel (record ctx' { state = expect_headers })
            (record cur { it = cur.it + length line + 2; rest = rest }) n refl (omega arith) small
            (omega arith) (omega arith))

-- For every buffer below 2 GiB the parser returns, whatever state its context is in: the fuel is
-- enough, and no byte outside the buffer is read. If it says that a request is there, the length
-- that it gives for the request is not 0 and not more than the buffer's.
pub parse_request_total :
    (ctx : HttpContext) (buf : Str)
    → length buf < 2 ^ 31
    → ReturnsWithin (length buf) (parse_request ctx buf)
unfolding parse_request
parse_request_total ctx buf small =
    request_returns (length buf + 3) (record ctx { state = expect_request_line })
      (record { it = 0; rest = buf; body_size = 0 }) (length buf) refl (omega arith) small
      (omega arith)
