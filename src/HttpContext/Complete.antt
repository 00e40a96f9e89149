-- ===== src/HttpContext/Complete.antt =====
-- The parser on a printed request: an independent description of the bytes that it should accept.
use enhanced_proxy.Common.{
  ℕ, zero, suc, ◌+◌, ◌%◌, ◌^◌, ◌<◌, ◌≡◌, ◌≢◌, refl, true, Option, none, some, List, [], ◌∷◌, ◌++◌,
  arith, leb, length, length-append, Str, inl, inr, Option-cases, ◌∙◌, ap, All, append_assoc,
}
use enhanced_proxy.HttpContext.{
  HttpContext, expect_request_line, expect_headers, expect_body, Cursor, read_header, take_word,
  skip_spaces, split_colon, parse_request_line, finish, result, parse_loop, parse_request,
}
use enhanced_proxy.HttpContext.Rounds.{
  after_line-blank, after_line-header, round-body, round-headers_line, round-request_line,
}
use enhanced_proxy.HttpContext.Scan.{IsLine, search_crlf-line}

-- A word of the request line: no space and no carriage return.
abbrev pub IsWord : Str → Type 0
IsWord = All (λ c. (c ≢ 32) × (c ≢ 13))

-- A header line: no carriage return, and a colon.
abbrev pub IsHeader : Str → Type 0
IsHeader line = IsLine line × (split_colon line ≢ none)

-- What `split_colon` finds in a header line is what the line declares as the body's size, if its
-- name is Content-Length.
unfoldable pub declare : ℕ → Option (Str × Str) → ℕ
declare size none = size
declare size (some (name, value)) = read_header size name value

unfoldable pub declared : ℕ → List Str → ℕ
unfolding declare
declared size [] = size
declared size (line ∷ lines) = declared (declare size (split_colon line)) lines

unfoldable pub header_bytes : List Str → Str
header_bytes [] = []
header_bytes (line ∷ lines) = line ++ (13 ∷ 10 ∷ header_bytes lines)

-- The request line without its CRLF.
abbrev pub request_line : Str → Str → Str → Str
request_line method url version = method ++ (32 ∷ (url ++ (32 ∷ version)))

-- A printed request, with the bytes behind it.
abbrev pub print_request : Str → Str → Str → List Str → Str → Str
print_request method url version lines body =
    request_line method url version ++ (13 ∷ 10 ∷ (header_bytes lines ++ (13 ∷ 10 ∷ body)))

take_word-word : (w l : Str) → IsWord w → take_word (w ++ (32 ∷ l)) ≡ (w, 32 ∷ l)
unfolding take_word
take_word-word [] l h = refl
take_word-word (c ∷ w) l h = ground (arith, take_word-word w l h.1, h.0.0)

IsWord-IsLine : (w : Str) → IsWord w → IsLine w
IsWord-IsLine [] h = tt
IsWord-IsLine (c ∷ w) h = (h.0.1, IsWord-IsLine w h.1)

All-append {ℓ} : (P : ℕ → Type ℓ) (a b : Str) → All P a → All P b → All P (a ++ b)
All-append P [] b h k = k
All-append P (c ∷ a) b h k = (h.0, All-append P a b h.1 k)

skip_one : (c : ℕ) (l after : Str) → c ≢ 32 → skip_spaces (32 ∷ c ∷ l) after ≡ some (c ∷ l)
unfolding skip_spaces
skip_one c l after h = ground arith

parse_request_line-print :
    (ctx : HttpContext) (method url version after : Str)
    → IsWord method
    → IsWord url
    → url ≢ []
    → parse_request_line ctx (request_line method url version) after
      ≡ some (
        true,
        record ctx {
          request_method = ctx.request_method ++ method;
          request_url = ctx.request_url ++ url;
        },
      )
unfolding parse_request_line
parse_request_line-print ctx method [] version after m u ne = absurd (ne refl)
parse_request_line-print ctx method (c ∷ url) version after m u ne =
    rw
      (
        take_word-word method ((c ∷ url) ++ (32 ∷ version)) m,
        skip_one c (url ++ (32 ∷ version)) after u.0.0,
        take_word-word (c ∷ url) version u,
        parse_request_line,
      )
      (rw (take_word-word method ((c ∷ url) ++ (32 ∷ version)) m))

split_colon-nil : split_colon [] ≡ none
unfolding split_colon
split_colon-nil = refl

finish-body :
    (ctx : HttpContext) (cur : Cursor)
    → finish ctx cur ≡ (leb cur.body_size (length cur.rest), (cur.it + cur.body_size) % 2 ^ 32, ctx)
unfolding finish result
finish-body ctx cur = ground arith

headers-print :
    (fuel : ℕ) (ctx : HttpContext) (it size : ℕ) (lines : List Str) (body : Str)
    → ctx.state ≡ expect_headers
    → All IsHeader lines
    → length (header_bytes lines) + 1 < fuel
    → parse_loop fuel ctx
        (record { it = it; rest = header_bytes lines ++ (13 ∷ 10 ∷ body); body_size = size })
      ≡ some (
        leb (declared size lines) (length body),
        (it + length (header_bytes lines) + 2 + declared size lines) % 2 ^ 32,
        record ctx { state = expect_body },
      )
unfolding header_bytes declared
headers-print zero ctx it size lines body s h k = elim k [ ]
headers-print (suc zero) ctx it size lines body s h k = absurd (omega arith)
headers-print (suc (suc fuel)) ctx it size [] body s h k =
    rw
      (
        round-headers_line (suc fuel) ctx
            (record { it = it; rest = 13 ∷ 10 ∷ body; body_size = size }) [] body s
            (search_crlf-line [] body tt),
        after_line-blank ctx (record { it = it; rest = 13 ∷ 10 ∷ body; body_size = size }) [] body
            split_colon-nil,
        round-body fuel (record ctx { state = expect_body })
            (record { it = it + 0 + 2; rest = body; body_size = size }) refl,
      )
      (ap some (
        finish-body (record ctx { state = expect_body })
          (record { it = it + 0 + 2; rest = body; body_size = size })))
headers-print (suc (suc fuel)) ctx it size (line ∷ lines) body s h k =
    elim (Option-cases (split_colon line)) [
      | inl blank ↦ absurd (h.0.1 blank)
      | inr ((name, value), header) ↦
          let len = length-append line (13 ∷ 10 ∷ header_bytes lines) in
          rw (append_assoc line (13 ∷ 10 ∷ header_bytes lines) (13 ∷ 10 ∷ body)) (
            rw
              (
                round-headers_line (suc fuel) ctx
                    (record { it = it; rest = line ++ (13 ∷ 10 ∷ tail); body_size = size }) line
                    tail s (search_crlf-line line tail h.0.0),
                after_line-header ctx
                    (record { it = it; rest = line ++ (13 ∷ 10 ∷ tail); body_size = size }) line
                    tail name value header,
                header,
              )
              (headers-print (suc fuel) ctx (it + length line + 2) (read_header size name value)
                  lines body s h.1 (omega (arith, len))
                ∙ ground (arith, len)))
    ]
  where
    tail : Str
    tail = header_bytes lines ++ (13 ∷ 10 ∷ body)

-- A printed request whose method and url are words, the url not empty, and whose header lines each
-- hold a colon, is read back: the parser finds its method and url, appends them to those of the
-- context, says yes exactly if the declared body is there, and gives the length of the head and the
-- declared body.
pub parse_request-print :
    (ctx : HttpContext) (method url version : Str) (lines : List Str) (body : Str)
    → IsWord method
    → IsWord url
    → url ≢ []
    → IsLine version
    → All IsHeader lines
    → parse_request ctx (print_request method url version lines body)
      ≡ some (
        leb (declared 0 lines) (length body),
        (length (request_line method url version)
              + 2
              + length (header_bytes lines)
              + 2
              + declared 0 lines)
            % 2 ^ 32,
        record ctx {
          state = expect_body;
          request_method = ctx.request_method ++ method;
          request_url = ctx.request_url ++ url;
        },
      )
unfolding parse_request
parse_request-print ctx method url version lines body m u ne v h = rw add-three (
    rw
      (round-request_line (length buf + 2) (record ctx { state = expect_request_line })
        (record { it = 0; rest = buf; body_size = 0 }) line tail _ refl
        (search_crlf-line line tail line_ok)
        (parse_request_line-print (record ctx { state = expect_request_line }) method url version
          (13 ∷ 10 ∷ tail) m u ne))
      (headers-print (length buf + 2) _ (0 + length line + 2) 0 lines body refl h (
          omega (
            arith,
            length-append line (13 ∷ 10 ∷ tail),
            length-append (header_bytes lines) (13 ∷ 10 ∷ body),
          ))
        ∙ ap (λ k. some (leb (declared 0 lines) (length body), k % 2 ^ 32, parsed)) (omega arith)))
  where
    parsed : HttpContext
    parsed = record ctx {
      state = expect_body;
      request_method = ctx.request_method ++ method;
      request_url = ctx.request_url ++ url;
    }

    line : Str
    line = request_line method url version

    tail : Str
    tail = header_bytes lines ++ (13 ∷ 10 ∷ body)

    buf : Str
    buf = print_request method url version lines body

    add-three : length buf + 3 ≡ suc (length buf + 2)
    add-three = omega arith

    line_ok : IsLine (request_line method url version)
    line_ok =
        All-append (λ c. c ≢ 13) method (32 ∷ (url ++ (32 ∷ version))) (IsWord-IsLine method m)
          (
            omega arith,
            All-append (λ c. c ≢ 13) url (32 ∷ version) (IsWord-IsLine url u) (omega arith, v),
          )
