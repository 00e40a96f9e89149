-- ===== src/HttpContext/Pieces.antt =====
-- A printed request that arrives in pieces, and requests one behind the other.
use enhanced_proxy.Common.{
  ℕ, ◌+◌, ◌%◌, ◌^◌, ◌<◌, ◌≡◌, ◌≢◌, refl, Bool, true, false, Option, some, List, [], ◌∷◌, ◌++◌,
  arith, leb, length, length-append, Str, All, ◌∙◌, sym, ap,
}
use enhanced_proxy.HttpContext.{HttpContext, expect_body, parse_request}
use enhanced_proxy.HttpContext.Scan.{IsLine}
use enhanced_proxy.HttpContext.Complete.{
  IsWord, IsHeader, declared, header_bytes, request_line, print_request, parse_request-print,
}
use enhanced_proxy.HttpContext.Total.{ReturnsWithin, parse_request_total}
use enhanced_proxy.HttpContext.Stable.{parse_request-append}

pub record Message : Type 0 where
  pub method : Str
  pub url : Str
  pub version : Str
  pub lines : List Str
  pub bytes : Str

abbrev pub text : Message → Str
text m = print_request m.method m.url m.version m.lines m.bytes

-- Words, lines and headers as a request has them, a body of the declared length, and less than 2 GiB.
pub record IsMessage (m : Message) : Type 0 where
  pub method_word : IsWord m.method
  pub url_word : IsWord m.url
  pub url_there : m.url ≢ []
  pub version_line : IsLine m.version
  pub headers : All IsHeader m.lines
  pub whole : declared 0 m.lines ≡ length m.bytes
  pub small : length (text m) < 2 ^ 31

-- The context that the parser leaves.
abbrev pub read_by : HttpContext → Message → HttpContext
read_by ctx m = record ctx {
  state = expect_body;
  request_method = ctx.request_method ++ m.method;
  request_url = ctx.request_url ++ m.url;
}

pub parse_request-text :
    (ctx : HttpContext) (m : Message)
    → IsMessage m
    → parse_request ctx (text m) ≡ some (true, length (text m), read_by ctx m)
parse_request-text ctx m h =
    let line = request_line m.method m.url m.version in
    let len = length-append line (13 ∷ 10 ∷ (header_bytes m.lines ++ (13 ∷ 10 ∷ m.bytes))) in
    let len' = length-append (header_bytes m.lines) (13 ∷ 10 ∷ m.bytes) in
    let all : leb (declared 0 m.lines) (length m.bytes) ≡ true = ground (arith, h.whole) in
    let used : (length line + 2 + length (header_bytes m.lines) + 2 + declared 0 m.lines) % 2 ^ 32
        ≡ length (text m) =
      omega (arith, len, len', h.whole, h.small) in
    parse_request-print ctx m.method m.url m.version m.lines m.bytes h.method_word h.url_word
      h.url_there h.version_line h.headers
    ∙ λ i. some (all i, used i, read_by ctx m)

-- A request in front of other bytes is read as if it stood alone.
pub parse_request-front :
    (ctx : HttpContext) (m : Message) (more : Str)
    → IsMessage m
    → parse_request ctx (text m ++ more) ≡ some (true, length (text m), read_by ctx m)
parse_request-front ctx m more h =
    parse_request-append more ctx (read_by ctx m) (text m) (length (text m))
      (parse_request-text ctx m h)

ends-same :
    {n n' : ℕ} {ctx ctx' : HttpContext}
    → ◌≡◌ {A = Option (Bool × ℕ × HttpContext)} (some (true, n, ctx)) (some (true, n', ctx'))
    → n ≡ n'
ends-same e = ground (arith, e)

-- Of a printed request below 2 GiB whose body has the declared length, the parser accepts no proper
-- part at its beginning: it returns and says no, so the rest of the request is waited for.
pub parse_request-part :
    (ctx : HttpContext) (m : Message) (part missing : Str)
    → IsMessage m
    → text m ≡ part ++ missing
    → missing ≢ []
    → (n : ℕ) × (ctx' : HttpContext) × (parse_request ctx part ≡ some (false, n, ctx'))
parse_request-part ctx m part [] h cut ne = absurd (ne refl)
parse_request-part ctx m part (b ∷ missing) h cut ne =
    go (parse_request_total ctx part (omega (arith, len, h.small)))
  where
    len : length (text m) ≡ length part + (1 + length missing)
    len = ap length cut ∙ (length-append part (b ∷ missing) ∙ omega arith)

    go :
        ReturnsWithin (length part) (parse_request ctx part)
        → (n : ℕ) × (ctx' : HttpContext) × (parse_request ctx part ≡ some (false, n, ctx'))
    go ((false, n, ctx'), e, within) = (n, ctx', e)
    go ((true, n, ctx'), e, within) =
        let longer = parse_request-append (b ∷ missing) ctx ctx' part n e in
        let same : n ≡ length (text m) =
          ends-same
            (sym longer ∙ (ap (parse_request ctx) (sym cut) ∙ parse_request-text ctx m h)) in
        absurd (omega (arith, same, within, len))
