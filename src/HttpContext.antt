-- ===== src/HttpContext.antt =====
-- Http/_HttpContext.h and Http/_HttpContext.cpp: the parser of buffered requests.
-- A buffer is the list of its bytes. An iterator into it is the number of bytes before it, beside
-- the bytes from it on; `none` is a read outside the buffer, or fuel that ran out.
pub mod Scan
pub mod Rounds
pub mod Total
pub mod Complete
pub mod Stable
pub mod Words
pub mod Announced
pub mod Rest
pub mod Sound
pub mod Pieces
mod Tests
use Prim.Native.Nat.{min}
use enhanced_proxy.Common.{
  ℕ, zero, suc, ◌+◌, ◌-◌, ◌*◌, ◌%◌, ◌^◌, Bool, true, false, not, ◌&&◌, ◌||◌, Option, none, some,
  List, [], ◌∷◌, ◌++◌, ltb, leb, ◌==◌, if◌then◌else◌, length, Str, codes, str_eq,
}

-- `HttpRequestParseState`
pub data ParseState : Type 0 where
  expect_request_line expect_headers expect_body got_all : ParseState

pub record HttpContext : Type 0 where
  pub state : ParseState
  pub request_method : Str
  pub request_url : Str
  pub has_cookie : Bool

abbrev pub new_context : HttpContext
new_context = record {
  state = expect_request_line;
  request_method = [];
  request_url = [];
  has_cookie = true;
}

-- `GetMethod`
abbrev pub get_method : Str
get_method = codes "Get"

-- `reset`
unfoldable pub reset : HttpContext → HttpContext
reset ctx = record ctx { state = expect_request_line; request_method = []; request_url = [] }

-- `isResponseCompelete`
unfoldable pub is_response_complete : Str → Bool
is_response_complete buf = false

-- `createResponse`
unfoldable pub create_response : Str → Str
create_response content = content

-- `std::search` for the two bytes of CRLF: what is before the first occurrence and after it.
unfoldable pub search_crlf : Str → Option (Str × Str)
search_crlf [] = none
search_crlf (c ∷ []) = none
search_crlf (c ∷ d ∷ l) =
    if c == 13 && d == 10
    then some ([], l)
    else elim (search_crlf (d ∷ l)) [ none ↦ none | some (line, rest) ↦ some (c ∷ line, rest) ]

-- `std::find` for a colon in a line: the header before it and the value after it.
unfoldable pub split_colon : Str → Option (Str × Str)
split_colon [] = none
split_colon (c ∷ l) =
    if c == b':'
    then some ([], l)
    else elim (split_colon l) [ none ↦ none | some (name, value) ↦ some (c ∷ name, value) ]

-- The two loops of `praseRequestLine` that copy up to a space or the end.
unfoldable pub take_word : Str → Str × Str
take_word [] = ([], [])
take_word (c ∷ l) =
    let (word, rest) = take_word l in if c == 32 then ([], c ∷ l) else (c ∷ word, rest)

-- `while (*start == ' ') ++start;` tests no end: `after` is what the buffer holds from `end` on. To
-- go past `end` is a fault.
unfoldable pub skip_spaces : Str → Str → Option Str
skip_spaces [] [] = none
skip_spaces [] (c ∷ after) = if c == 32 then none else some []
skip_spaces (c ∷ l) after = if c == 32 then skip_spaces l after else some (c ∷ l)

-- `praseRequestLine`
unfoldable pub parse_request_line : HttpContext → Str → Str → Option (Bool × HttpContext)
unfolding take_word skip_spaces
parse_request_line ctx line after =
    let (method, rest) = take_word line in
    let ctx' = record ctx { request_method = ctx.request_method ++ method } in
    elim rest [
      | [] ↦ some (false, ctx')
      | b ∷ bs ↦ elim (skip_spaces (b ∷ bs) after) [
        | none ↦ none
        | some [] ↦ some (false, ctx')
        | some (c ∷ l) ↦
            some (true, record ctx' { request_url = ctx.request_url ++ (take_word (c ∷ l)).0 })
      ]
    ]

-- `std::atoi`: white space, a sign, and digits up to the first other byte.
unfoldable pub skip_white : Str → Str
skip_white [] = []
skip_white (c ∷ l) = if c == 32 || leb 9 c && leb c 13 then skip_white l else c ∷ l

unfoldable pub digits : ℕ → Str → ℕ
digits acc [] = acc
digits acc (c ∷ l) =
    let rest = digits (acc * 10 + (c - 48)) l in if leb 48 c && leb c 57 then rest else acc

-- The `unsigned int` that the int from `strtol`, which stops at the ends of `long`, converts to.
unfoldable pub atoi : Str → ℕ
unfolding skip_white digits
atoi s = elim (skip_white s) [
  | [] ↦ 0
  | c ∷ l ↦
      if c == b'-'
      then (2 ^ 32 - min (digits 0 l) (2 ^ 63) % 2 ^ 32) % 2 ^ 32
      else (if c == b'+'
          then min (digits 0 l) (2 ^ 63 - 1) % 2 ^ 32
          else min (digits 0 (c ∷ l)) (2 ^ 63 - 1) % 2 ^ 32)
]

-- `it`, the bytes from it on, and `bodySize`.
pub record Cursor : Type 0 where
  pub it : ℕ
  pub rest : Str
  pub body_size : ℕ

abbrev pub content_length : Str
content_length = codes "Content-Length"

-- The value of `bodySize` after a header line.
unfoldable pub read_header : ℕ → Str → Str → ℕ
read_header body_size name value = if str_eq name content_length then atoi value else body_size

-- `std::pair<bool, int>(ok, it - buf.begin() + bodySize)`, the int as its 32 bits.
unfoldable pub result : Bool → HttpContext → Cursor → Bool × ℕ × HttpContext
result ok ctx cur = (ok, (cur.it + cur.body_size) % 2 ^ 32, ctx)

-- The branch of the loop for `kExpectBody`.
unfoldable pub finish : HttpContext → Cursor → Bool × ℕ × HttpContext
unfolding result
finish ctx cur =
    if not (cur.body_size == 0) && leb cur.body_size (length cur.rest)
    then result true ctx cur
    else (if cur.body_size == 0 then result true ctx cur else result false ctx cur)

-- One header line `line` with the bytes after its CRLF: the next state and cursor.
unfoldable pub after_line : HttpContext → Cursor → Str → Str → HttpContext × Cursor
unfolding read_header
after_line ctx cur line rest =
    let it' = cur.it + length line + 2 in
    elim (split_colon line) [
      | none ↦ (record ctx { state = expect_body }, record cur { it = it'; rest = rest })
      | some (name, value) ↦
          (ctx, record { it = it'; rest = rest; body_size = read_header cur.body_size name value })
    ]

-- `while (hasMore)`, with its fuel.
unfoldable pub parse_loop : ℕ → HttpContext → Cursor → Option (Bool × ℕ × HttpContext)
unfolding finish after_line
parse_loop zero ctx cur = none
parse_loop (suc fuel) ctx cur = elim ctx.state [
  | expect_request_line ↦ elim (search_crlf cur.rest) [
    | none ↦ some (result false ctx (record cur { it = cur.it + length cur.rest }))
    | some (line, rest) ↦ elim (parse_request_line ctx line (13 ∷ 10 ∷ rest)) [
      | none ↦ none
      | some (false, ctx') ↦ some (result false ctx' (record cur { it = cur.it + length line }))
      | some (true, ctx') ↦
          parse_loop fuel (record ctx' { state = expect_headers })
            (record cur { it = cur.it + length line + 2; rest = rest })
    ]
  ]
  | expect_headers ↦ elim (search_crlf cur.rest) [
    | none ↦ some (result false ctx cur)
    | some (line, rest) ↦
        let (ctx', cur') = after_line ctx cur line rest in parse_loop fuel ctx' cur'
  ]
  | expect_body ↦ some (finish ctx cur)
  | got_all ↦ parse_loop fuel ctx cur
]

-- `parseRequest`
unfoldable pub parse_request : HttpContext → Str → Option (Bool × ℕ × HttpContext)
unfolding parse_loop
parse_request ctx buf =
    parse_loop (length buf + 3) (record ctx { state = expect_request_line })
      (record { it = 0; rest = buf; body_size = 0 })
