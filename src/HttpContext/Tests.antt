-- ===== src/HttpContext/Tests.antt =====
-- The parser on a small request.
use enhanced_proxy.Common.{
  ◌+◌, ◌%◌, ◌^◌, ◌≡◌, refl, true, false, some, List, [], ◌∷◌, Str, codes, str_eq, arith, length,
  leb, ℕ, drop,
}
use enhanced_proxy.HttpContext.{
  HttpContext, expect_body, new_context, parse_request, parse_request_line, search_crlf,
  split_colon, atoi, read_header,
}
use enhanced_proxy.HttpContext.Complete.{
  parse_request-print, declared, header_bytes, request_line, print_request,
}
use enhanced_proxy.HttpContext.Total.{ReturnsWithin, parse_request_total}
use enhanced_proxy.HttpContext.Sound.{IsRequest, parse_request-IsRequest}
use enhanced_proxy.HttpContext.Pieces.{Message, IsMessage, text, parse_request-part}

abbrev lines : List Str
lines = codes "Host: a" ∷ codes "Content-Length: 2" ∷ []

abbrev request : Str
unfolding header_bytes
request = print_request (codes "GET") (codes "/x") (codes "HTTP/1.1") lines (codes "hi")

abbrev parsed : HttpContext
parsed = record new_context {
  state = expect_body;
  request_method = codes "GET";
  request_url = codes "/x";
}

parse_request_run : parse_request new_context request ≡ some (true, 49, parsed)
unfolding parse_request parse_request_line header_bytes search_crlf split_colon atoi str_eq
parse_request_run = refl

parse_request-print_example :
    parse_request new_context request
    ≡ some (
      leb (declared 0 lines) 2,
      (length (request_line (codes "GET") (codes "/x") (codes "HTTP/1.1"))
            + 2
            + length (header_bytes lines)
            + 2
            + declared 0 lines)
          % 2 ^ 32,
      parsed,
    )
unfolding header_bytes split_colon
parse_request-print_example =
    parse_request-print new_context (codes "GET") (codes "/x") (codes "HTTP/1.1") lines (codes "hi")
      (omega arith) (omega arith) (λ h. cc) (omega arith)
      ((omega arith, λ h. cc), ((omega arith, λ h. cc), tt))

parse_request_total_example : ReturnsWithin 49 (parse_request new_context request)
unfolding header_bytes
parse_request_total_example = parse_request_total new_context request (omega arith)

parse_request-IsRequest_example : IsRequest new_context parsed request 49
unfolding header_bytes
parse_request-IsRequest_example =
    parse_request-IsRequest new_context parsed request 49 (omega arith) parse_request_run

abbrev message : Message
message = record {
  method = codes "GET";
  url = codes "/x";
  version = codes "HTTP/1.1";
  lines = lines;
  bytes = codes "hi";
}

message-IsMessage : IsMessage message
unfolding header_bytes split_colon declared read_header str_eq atoi
message-IsMessage = record {
  method_word = omega arith;
  url_word = omega arith;
  url_there = λ h. cc;
  version_line = omega arith;
  headers = ((omega arith, λ h. cc), ((omega arith, λ h. cc), tt));
  whole = refl;
  small = omega arith;
}

parse_request-part_example :
    (n : ℕ) × (ctx : HttpContext) × (parse_request new_context (codes "GET /x HTTP/1.1")
      ≡ some (false, n, ctx))
unfolding header_bytes
parse_request-part_example =
    parse_request-part new_context message (codes "GET /x HTTP/1.1") (drop 15 (text message))
      message-IsMessage refl (λ h. cc)
