-- ===== src/HttpContext/Rest.antt =====
-- The header lines and the body that the loop accepts, split into their parts.
use enhanced_proxy.Common.{
  ℕ, zero, suc, ◌+◌, ◌^◌, ◌≤◌, ◌<◌, ◌≡◌, ◌≢◌, refl, true, none, some, List, [], ◌∷◌, ◌++◌, arith,
  length, length-append, take, drop, length-drop, Str, inl, inr, Option-cases, ◌∙◌, sym, ap, All,
  append_assoc,
}
use enhanced_proxy.HttpContext.{
  HttpContext, expect_headers, expect_body, Cursor, read_header, search_crlf, split_colon,
  after_line, finish, result, parse_loop,
}
use enhanced_proxy.HttpContext.Rounds.{
  after_line-blank, after_line-header, round-body, round-headers_end, round-headers_line,
}
use enhanced_proxy.HttpContext.Scan.{HasNoCrlf, search_crlf-split, search_crlf-HasNoCrlf}
use enhanced_proxy.HttpContext.Complete.{declare, header_bytes}
use enhanced_proxy.HttpContext.Announced.{announced, declare-announce}
use enhanced_proxy.HttpContext.Stable.{no_fuel, not_done}

-- What stands behind the request line in an accepted buffer, and how much of it is used.
pub record IsRest (size used : ℕ) (buf : Str) : Type 0 where
  pub lines : List Str
  pub stop : Str
  pub body : Str
  pub behind : Str
  pub parts : buf ≡ header_bytes lines ++ (stop ++ (13 ∷ 10 ∷ (body ++ behind)))
  pub headers : All (λ (l : Str). HasNoCrlf l × (split_colon l ≢ none)) lines
  pub stop_line : HasNoCrlf stop
  pub blank : split_colon stop ≡ none
  pub body_size : length body ≡ announced size lines
  pub end : used + length behind ≡ length buf

take-drop : (n : ℕ) (l : Str) → n ≤ length l → (l ≡ take n l ++ drop n l) × (length (take n l) ≡ n)
take-drop zero l h = (refl, refl)
take-drop (suc n) [] h = elim h [ ]
take-drop (suc n) (x ∷ l) h =
    let (same, len) = take-drop n l (omega arith) in (ap (λ k. x ∷ k) same, ap suc len)

finish-true :
    (ctx ctx' : HttpContext) (cur : Cursor) (n : ℕ)
    → cur.it + length cur.rest < 2 ^ 31
    → finish ctx cur ≡ (true, n, ctx')
    → (cur.body_size ≤ length cur.rest) × (n ≡ cur.it + cur.body_size) × (ctx ≡ ctx')
unfolding finish result
finish-true ctx ctx' cur n small e =
    (ground (arith, e), ground (arith, e, small), ground (arith, e))

body-finish :
    (fuel : ℕ) (ctx ctx' : HttpContext) (cur : Cursor) (n : ℕ)
    → ctx.state ≡ expect_body
    → parse_loop fuel ctx cur ≡ some (true, n, ctx')
    → finish ctx cur ≡ (true, n, ctx')
body-finish zero ctx ctx' cur n s e = absurd (no_fuel ctx cur e)
body-finish (suc fuel) ctx ctx' cur n s e = ground (arith, round-body fuel ctx cur s, e)

-- The line that ends the headers, and a header in front of the rest.
stop-IsRest :
    (size : ℕ) (buf line rest : Str)
    → buf ≡ line ++ (13 ∷ 10 ∷ rest)
    → HasNoCrlf line
    → split_colon line ≡ none
    → size ≤ length rest
    → IsRest size (length line + 2 + size) buf
unfolding header_bytes announced
stop-IsRest size buf line rest split clean blank fits =
    let (cut, len) = take-drop size rest fits in
    record {
      lines = [];
      stop = line;
      body = take size rest;
      behind = drop size rest;
      parts = split ∙ ap (λ k. line ++ (13 ∷ 10 ∷ k)) cut;
      headers = tt;
      stop_line = clean;
      blank = blank;
      body_size = len;
      end = omega (
        arith,
        ap length split,
        length-append line (13 ∷ 10 ∷ rest),
        length-drop size rest,
        fits,
      );
    }

line-IsRest :
    (size used : ℕ) (buf line rest name value : Str)
    → buf ≡ line ++ (13 ∷ 10 ∷ rest)
    → HasNoCrlf line
    → split_colon line ≡ some (name, value)
    → IsRest (read_header size name value) used rest
    → IsRest size (length line + 2 + used) buf
unfolding header_bytes announced declare
line-IsRest size used buf line rest name value split clean header r = record {
  lines = line ∷ r.lines;
  stop = r.stop;
  body = r.body;
  behind = r.behind;
  parts =
      split
      ∙ ap (λ k. line ++ (13 ∷ 10 ∷ k)) r.parts
      ∙ sym (
          append_assoc line (13 ∷ 10 ∷ header_bytes r.lines)
            (r.stop ++ (13 ∷ 10 ∷ (r.body ++ r.behind))));
  headers = ((clean, λ f. ground (arith, f, header)), r.headers);
  stop_line = r.stop_line;
  blank = r.blank;
  body_size =
      r.body_size
      ∙ ap (λ n. announced n r.lines) (ap (declare size) (sym header) ∙ declare-announce size line);
  end = omega (arith, r.end, ap length split, length-append line (13 ∷ 10 ∷ rest));
}

-- The same for a cursor: `IsRest` of the bytes from it on, and the context.
abbrev pub Reads : HttpContext → HttpContext → Cursor → ℕ → Type 0
Reads ctx ctx' cur n =
    (used : ℕ) × IsRest cur.body_size used cur.rest
    × (n ≡ cur.it + used)
    × (ctx' ≡ record ctx { state = expect_body })

module _ (ctx ctx' : HttpContext) (n : ℕ) where
  stop-Reads :
      (fuel : ℕ) (cur : Cursor) (line rest : Str)
      → cur.it + length cur.rest < 2 ^ 31
      → cur.rest ≡ line ++ (13 ∷ 10 ∷ rest)
      → HasNoCrlf line
      → split_colon line ≡ none
      → parse_loop fuel (after_line ctx cur line rest).0 (after_line ctx cur line rest).1
        ≡ some (true, n, ctx')
      → Reads ctx ctx' cur n
  stop-Reads fuel cur line rest small split clean blank e =
      let done : HttpContext = record ctx { state = expect_body } in
      let next : Cursor = record cur { it = cur.it + length line + 2; rest = rest } in
      let len = ap length split ∙ length-append line (13 ∷ 10 ∷ rest) in
      let ends =
        body-finish fuel done ctx' next n refl
          (rw (after_line-blank ctx cur line rest blank) at e) in
      let (fits, used, same) = finish-true done ctx' next n (omega (arith, len, small)) ends in
      (
        length line + 2 + cur.body_size,
        stop-IsRest cur.body_size cur.rest line rest split clean blank fits,
        omega (arith, used),
        sym same,
      )

  pub headers-Reads :
      (fuel : ℕ) (cur : Cursor)
      → ctx.state ≡ expect_headers
      → cur.it + length cur.rest < 2 ^ 31
      → parse_loop fuel ctx cur ≡ some (true, n, ctx')
      → Reads ctx ctx' cur n
  headers-Reads zero cur s small e = absurd (no_fuel ctx cur e)
  headers-Reads (suc fuel) cur s small e = elim (Option-cases (search_crlf cur.rest)) [
    | inl none_left ↦
        absurd (not_done ctx cur (sym (round-headers_end fuel ctx cur s none_left) ∙ e))
    | inr ((line, rest), found) ↦
        let split = search_crlf-split cur.rest line rest found in
        let clean = search_crlf-HasNoCrlf cur.rest line rest found in
        let len = ap length split ∙ length-append line (13 ∷ 10 ∷ rest) in
        let e' = sym (round-headers_line fuel ctx cur line rest s found) ∙ e in
        elim (Option-cases (split_colon line)) [
          | inl blank ↦ stop-Reads fuel cur line rest small split clean blank e'
          | inr ((name, value), header) ↦
              let next : Cursor = record {
                it = cur.it + length line + 2;
                rest = rest;
                body_size = read_header cur.body_size name value;
              } in
              let (used, r, total, same) =
                headers-Reads fuel next s (omega (arith, len, small))
                  (rw (after_line-header ctx cur line rest name value header) at e') in
              (
                length line + 2 + used,
                line-IsRest cur.body_size used cur.rest line rest name value split clean header r,
                omega (arith, total),
                same,
              )
        ]
  ]
