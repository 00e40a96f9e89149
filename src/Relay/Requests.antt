-- ===== src/Relay/Requests.antt =====
-- One printed request through `solveOnMessage`, from the cache or through the tunnel.
use enhanced_proxy.Common.{
  ℕ, suc, ◌+◌, ◌%◌, ◌^◌, ◌<◌, ◌≡◌, ◌≢◌, refl, ap, ◌∙◌, true, false, some, List, [], ◌∷◌, ◌++◌,
  arith, leb, length, length-append, take, drop, Str, str_eq, str_eq_refl, str_eq_iff, All, inl,
  inr, Bool-cases,
}
use enhanced_proxy.HttpContext.{
  HttpContext, expect_body, new_context, get_method, parse_request, search_crlf, result,
}
use enhanced_proxy.HttpContext.Scan.{IsLine}
use enhanced_proxy.HttpContext.Complete.{
  IsWord, IsHeader, declared, header_bytes, request_line, print_request, parse_request-print,
}
use enhanced_proxy.Redis.{Hiredis}
use enhanced_proxy.Cache
use enhanced_proxy.Cache.{Cache}
use enhanced_proxy.Muduo.{Call, looks, send, retrieve, Net}
use enhanced_proxy.Relay.{
  Relay, note, Solving, look, has_request, read_content, relay_request, body, begin, returned,
  solve_loop,
}
use enhanced_proxy.Relay.Rounds.{
  parsed, answered, forwarded, has_request-parsed, answer_lem, forward_lem, body-miss,
}

pub take_all : (l : Str) → take (length l) l ≡ l
take_all [] = refl
take_all (x ∷ l) = ap (λ k. x ∷ k) (take_all l)

pub drop_all : (l : Str) → drop (length l) l ≡ []
drop_all [] = refl
drop_all (x ∷ l) = drop_all l

parse_empty :
    (ctx : HttpContext) → (ctx' : HttpContext) × (parse_request ctx [] ≡ some (false, 0, ctx'))
unfolding parse_request search_crlf result
parse_empty ctx = (_, refl)

module _ (method url version : Str) (lines : List Str) (bytes : Str) where
  abbrev pub request : Str
  request = print_request method url version lines bytes

  -- The context that the parser leaves.
  abbrev pub read_in : HttpContext
  read_in = record new_context { state = expect_body; request_method = method; request_url = url }

  pub parse_whole :
      IsWord method
      → IsWord url
      → url ≢ []
      → IsLine version
      → All IsHeader lines
      → declared 0 lines ≡ length bytes
      → length request < 2 ^ 31
      → parse_request new_context request ≡ some (true, length request, read_in)
  parse_whole m u ne v h whole small =
      let len =
        length-append (request_line method url version)
          (13 ∷ 10 ∷ (header_bytes lines ++ (13 ∷ 10 ∷ bytes))) in
      let len' = length-append (header_bytes lines) (13 ∷ 10 ∷ bytes) in
      let all : leb (declared 0 lines) (length bytes) ≡ true = ground arith in
      let used : (length (request_line method url version)
              + 2
              + length (header_bytes lines)
              + 2
              + declared 0 lines)
            % 2 ^ 32
          ≡ length request =
        omega (arith, len, len') in
      parse_request-print new_context method url version lines bytes m u ne v h ∙ λ i.
      some (all i, used i, read_in)

-- A loop that finds its buffer empty ends.
ends_empty :
    {W : Type 0} (net : Net) (redis : Hiredis W) (conn fuel : ℕ) (s : Solving W)
    → s.is_check ≡ false
    → s.buff ≡ []
    → (s' : Solving W) × (solve_loop net redis conn (suc fuel) s ≡ returned s')
      × (s'.relay ≡ note (looks conn) s.relay)
unfolding solve_loop has_request
ends_empty net redis conn fuel s check empty =
    let (ctx, e) = parse_empty s.context in
    elim (Bool-cases (net.connected (looks conn ∷ s.relay.log) conn)) [
      | inl up ↦ (parsed net redis conn s 0 ctx, ground (arith, up, e, empty, check), refl)
      | inr down ↦ (look conn s, ground (arith, down, check), refl)
    ]

-- The loop on a buffer that is one request.
module _ {W : Type 0} (net : Net) (redis : Hiredis W) (conn : ℕ) (buff : Str) (ctx : HttpContext)
    (accepted : parse_request new_context buff ≡ some (true, length buff, ctx)) (r : Relay W)
    (up : net.connected (looks conn ∷ r.log) conn ≡ true) where
  -- The state when the request is found.
  abbrev pub found : Solving W
  found = record {
    relay = note (looks conn) r;
    context = ctx;
    buff = buff;
    is_check = false;
    used = length buff;
  }

  -- If the body then takes the request out of the buffer, the loop ends after one round.
  pub one_round :
      (fuel : ℕ) (s : Solving W)
      → body net redis conn found ≡ some s
      → s.is_check ≡ false
      → s.buff ≡ []
      → (s' : Solving W) × (solve_loop net redis conn (suc (suc fuel)) (begin buff r) ≡ returned s')
        × (s'.relay ≡ note (looks conn) s.relay)
  unfolding begin solve_loop
  one_round fuel s e check empty =
      let (s', ends, same) = ends_empty net redis conn fuel s check empty in
      let h =
        has_request-parsed net redis conn (begin buff r) true (length buff) ctx refl up accepted in
      (s', ground (arith, h, e, ends), same)

  pub hit :
      (content : Str) (cache : Cache W)
      → ctx.request_method ≡ get_method
      → content ≢ []
      → Cache.read_cache redis (net.time (looks conn ∷ r.log)) ctx.request_url r.cache
        ≡ some (content, cache)
      → body net redis conn found
        ≡ some (
            answered net redis conn
              (record found { relay = record found.relay { cache = cache } })
              content)
  unfolding body read_content
  hit [] cache get ne e = absurd (ne refl)
  hit (b ∷ content) cache get ne e =
      let is_get : str_eq ctx.request_method get_method ≡ true =
        (str_eq_iff ctx.request_method get_method).1 get in
      ground (
        arith,
        e,
        is_get,
        answer_lem net redis conn (record found { relay = record found.relay { cache = cache } })
            (b ∷ content) (omega arith),
      )

  -- The state at the call of `send`, after the three questions for the context.
  abbrev pub asked : Solving W
  asked = look conn (look conn (look conn found))

  -- The state after the request `bytes` was sent on.
  abbrev pub sent_on : ℕ → ℕ → Str → Solving W
  sent_on peer t bytes =
      let after = forwarded net redis conn asked peer t in
      record after {
        relay = record after.relay {
          log = retrieve conn (length buff) ∷ looks conn ∷ send peer bytes ∷ asked.relay.log;
        };
      }

  pub miss :
      (peer t : ℕ)
      → str_eq ctx.request_method get_method ≡ false
      → ((log : List Call) → net.context log conn ≡ some peer)
      → r.tunnels conn ≡ some t
      → net.input (looks conn ∷ send peer buff ∷ asked.relay.log) conn ≡ buff
      → body net redis conn found ≡ some (sent_on peer t buff)
  unfolding relay_request
  miss peer t other ctx_set has_tunnel input =
      let same : str_eq
            (net.input (looks conn ∷ send peer (take (length buff) buff) ∷ asked.relay.log) conn)
            (take (length buff) buff)
          ≡ true =
        rw (take_all buff, input) (str_eq_refl buff) in
      body-miss net redis conn found other
      ∙ ground (
        arith,
        ctx_set (looks conn ∷ found.relay.log),
        ctx_set (looks conn ∷ looks conn ∷ found.relay.log),
        ctx_set asked.relay.log,
        forward_lem net redis conn asked peer t has_tunnel (omega arith) same,
      )
      ∙ ap (λ l. some (sent_on peer t l)) (take_all buff)
