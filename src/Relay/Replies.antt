-- ===== src/Relay/Replies.antt =====
-- Whole calls of `solveOnMessage` for one request.
use enhanced_proxy.Common.{
  ℕ, suc, ◌*◌, ◌^◌, ◌≤◌, ◌<◌, ◌≡◌, ◌≢◌, refl, true, false, some, List, [], ◌∷◌, arith, length,
  update, Str, codes, str_eq, All,
}
use enhanced_proxy.HttpContext.{HttpContext, new_context, get_method, parse_request}
use enhanced_proxy.HttpContext.Scan.{IsLine}
use enhanced_proxy.HttpContext.Complete.{IsWord, IsHeader, declared}
use enhanced_proxy.Redis.{Hiredis}
use enhanced_proxy.Cache
use enhanced_proxy.Cache.{Cache}
use enhanced_proxy.Tunnel.{push_cache}
use enhanced_proxy.Muduo.{Call, looks, send, retrieve, Net}
use enhanced_proxy.Relay.{Relay, note, Solving, body, returned, close_dirty, solve_on_message}
use enhanced_proxy.Relay.Requests.{
  request, read_in, parse_whole, one_round, hit, miss, found, drop_all,
}

pub close_dirty_clean :
    {W : Type 0} (net : Net) (redis : Hiredis W) (conn : ℕ) (r : Relay W)
    → length (net.input (looks conn ∷ r.log) conn) ≤ 1024 * 1024 * 10
    → close_dirty net redis conn r ≡ note (looks conn) r
unfolding close_dirty
close_dirty_clean net redis conn r h = ground arith

-- The call, if the body takes the request out of the buffer and the connection's buffer is small.
replies :
    {W : Type 0} (net : Net) (redis : Hiredis W) (conn : ℕ) (buff : Str) (ctx : HttpContext)
    (fuel : ℕ) (r : Relay W) (s : Solving W)
    → parse_request new_context buff ≡ some (true, length buff, ctx)
    → net.connected (looks conn ∷ r.log) conn ≡ true
    → ((accepted : _) (up : _)
        → body net redis conn (found net redis conn buff ctx accepted r up) ≡ some s)
    → s.is_check ≡ false
    → s.buff ≡ []
    → length (net.input (looks conn ∷ looks conn ∷ s.relay.log) conn) ≤ 1024 * 1024 * 10
    → solve_on_message net redis conn (suc (suc fuel)) buff r
      ≡ returned (note (looks conn) (note (looks conn) s.relay))
unfolding solve_on_message
replies net redis conn buff ctx fuel r s accepted up e check empty small =
    let (s', ends, same) =
      one_round net redis conn buff ctx accepted r up fuel s (e accepted up) check empty in
    ground (arith, ends, same, close_dirty_clean net redis conn (note (looks conn) s.relay) small)

module _ {W : Type 0} (net : Net) (redis : Hiredis W) (conn : ℕ) (url version : Str)
    (lines : List Str) (bytes : Str) (r : Relay W) (fuel : ℕ)
    (up : net.connected (looks conn ∷ r.log) conn ≡ true) (word : IsWord url) (ne : url ≢ [])
    (line : IsLine version) (headers : All IsHeader lines)
    (whole : declared 0 lines ≡ length bytes) where
  -- A connected client has sent one whole request below 2 GiB with the method `Get`, two rounds of
  -- fuel are there, and the cache has a content for its url that is not empty. Then
  -- `solveOnMessage` returns: it sends the content to the client, takes the request out of the
  -- connection's buffer, and makes no tunnel; if at most 10 MiB are left in the buffer, that is all.
  answers_cached :
      (content : Str) (cache : Cache W)
      → let buff = request (codes "Get") url version lines bytes in
        let log =
          looks conn ∷ retrieve conn (length buff) ∷ send conn content ∷ looks conn ∷ r.log in
        length buff < 2 ^ 31
        → Cache.read_cache redis (net.time (looks conn ∷ r.log)) url r.cache ≡ some (content, cache)
        → content ≢ []
        → length (net.input (looks conn ∷ log) conn) ≤ 1024 * 1024 * 10
        → solve_on_message net redis conn (suc (suc fuel)) buff r
          ≡ returned (record r { cache = cache; log = looks conn ∷ log })
  answers_cached content cache small e some_content clean =
      let buff = request (codes "Get") url version lines bytes in
      let ctx = read_in (codes "Get") url version lines bytes in
      let accepted : parse_request new_context buff ≡ some (true, length buff, ctx) =
        parse_whole (codes "Get") url version lines bytes (omega arith) word ne line headers whole
          small in
      replies net redis conn buff ctx fuel r _ accepted up
        (λ a b. hit net redis conn buff ctx a r b content cache refl some_content e) refl
        (drop_all buff) clean

  -- A connected client has sent one whole request below 2 GiB with a method other than `Get`, two
  -- rounds of fuel are there, the connection has a tunnel whose connection `peer` to the web server
  -- is there all along, and the buffer of the connection holds nothing else. Then `solveOnMessage`
  -- returns: it sends the bytes of the request to the web server, takes them out of the connection's
  -- buffer, and puts the url at the end of the tunnel's queue as one whose response must not be
  -- cached; if at most 10 MiB are left in the buffer, that is all.
  pub forwards :
      (method : Str) (peer t : ℕ)
      → let buff = request method url version lines bytes in
        let sent = send peer buff ∷ looks conn ∷ looks conn ∷ looks conn ∷ looks conn ∷ r.log in
        let log = looks conn ∷ retrieve conn (length buff) ∷ looks conn ∷ sent in
        length buff < 2 ^ 31
        → IsWord method
        → str_eq method get_method ≡ false
        → ((log' : List Call) → net.context log' conn ≡ some peer)
        → r.tunnels conn ≡ some t
        → net.input (looks conn ∷ sent) conn ≡ buff
        → length (net.input (looks conn ∷ log) conn) ≤ 1024 * 1024 * 10
        → solve_on_message net redis conn (suc (suc fuel)) buff r
          ≡ returned (record r {
            objects = update r.objects t (push_cache url false (r.objects t));
            log = looks conn ∷ log;
          })
  forwards method peer t small word' other ctx_set has_tunnel input clean =
      let buff = request method url version lines bytes in
      let ctx = read_in method url version lines bytes in
      let accepted : parse_request new_context buff ≡ some (true, length buff, ctx) =
        parse_whole method url version lines bytes word' word ne line headers whole small in
      replies net redis conn buff ctx fuel r _ accepted up
        (λ a b. miss net redis conn buff ctx a r b peer t other ctx_set has_tunnel input) refl
        (drop_all buff) clean
