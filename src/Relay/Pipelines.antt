-- ===== src/Relay/Pipelines.antt =====
-- Any number of requests that stand one behind the other in a buffer, and the beginning of one more.
use enhanced_proxy.Common.{
  ℕ, zero, suc, ◌*◌, ◌≤◌, ◌<◌, ◌≡◌, ◌≢◌, refl, ap, ◌∙◌, true, false, Option, none, some, List, [],
  ◌∷◌, ◌++◌, arith, length, length-append, drop, drop-append, Str, str_eq, str_eq_iff, All, inl,
  inr, Bool-cases, Option-cases, if◌then◌else◌,
}
use enhanced_proxy.HttpContext.{HttpContext, new_context, reset, get_method, parse_request}
use enhanced_proxy.HttpContext.Pieces.{
  Message, IsMessage, text, read_by, parse_request-front, parse_request-part,
}
use enhanced_proxy.Redis.{Hiredis}
use enhanced_proxy.Cache
use enhanced_proxy.Cache.{Cache}
use enhanced_proxy.Muduo.{looks, send, retrieve, Net}
use enhanced_proxy.Relay.{
  Relay, note, Solving, look, begin, has_request, body, returned, solve_loop, solve_on_message,
}
use enhanced_proxy.Relay.Rounds.{parsed, has_request-parsed, answer_lem, body-hit}
use enhanced_proxy.Relay.Replies.{close_dirty_clean}

-- The bytes of all of them, and what stands behind.
abbrev pub texts : List Message → Str → Str
texts [] behind = behind
texts (m ∷ messages) behind = text m ++ texts messages behind

module _ {W : Type 0} (net : Net) (redis : Hiredis W) (conn : ℕ) where
  -- What serving one request from the cache means; `none` where the client is gone or the cache has
  -- nothing for it.
  abbrev served : Message → Relay W → Str × Cache W → Option (Relay W)
  served m r ([], cache) = none
  served m r (b ∷ content, cache) = some (record r {
    cache = cache;
    log = retrieve conn (length (text m)) ∷ send conn (b ∷ content) ∷ looks conn ∷ r.log;
  })

  unfoldable pub serve : Message → Relay W → Option (Relay W)
  serve m r =
      if net.connected (looks conn ∷ r.log) conn
      then elim (Cache.read_cache redis (net.time (looks conn ∷ r.log)) m.url r.cache) [
        | none ↦ none
        | some found ↦ served m r found
      ]
      else none

  unfoldable pub serve_all : List Message → Relay W → Option (Relay W)
  serve_all [] r = some r
  serve_all (m ∷ messages) r = elim (serve m r) [ none ↦ none | some r' ↦ serve_all messages r' ]

  -- The state between two requests.
  abbrev between : ℕ → Relay W → Str → Solving W
  between used r buff = record {
    relay = r;
    context = new_context;
    buff = buff;
    is_check = false;
    used = used;
  }

  served-found :
      (m : Message) (r r' : Relay W) (found : Str × Cache W)
      → served m r found ≡ some r'
      → (b : ℕ) × (content : Str) × (found.0 ≡ b ∷ content)
        × (record r {
          cache = found.1;
          log = retrieve conn (length (text m)) ∷ send conn found.0 ∷ looks conn ∷ r.log;
        }
            ≡ r')
  served-found m r r' ([], cache) e = cc
  served-found m r r' (b ∷ content, cache) e = (b, content, refl, ground (arith, e))

  -- The body on a request at the front that the cache answers.
  body-served :
      (used b : ℕ) (content : Str) (cache : Cache W) (m : Message) (more : Str) (r r' : Relay W)
      → m.method ≡ get_method
      → Cache.read_cache redis (net.time (looks conn ∷ r.log)) m.url r.cache
        ≡ some (b ∷ content, cache)
      → served m r (b ∷ content, cache) ≡ some r'
      → body net redis conn (
          parsed net redis conn
            (between used r (text m ++ more))
            (length (text m))
            (read_by new_context m))
        ≡ some (between (length (text m)) r' more)
  unfolding reset
  body-served used b content cache m more r r' get found e =
      let s : Solving W =
        parsed net redis conn (between used r (text m ++ more)) (length (text m))
          (read_by new_context m) in
      let s' : Solving W = record s { relay = record s.relay { cache = cache } } in
      let is_get : str_eq m.method get_method ≡ true = (str_eq_iff m.method get_method).1 get in
      let (b', content', same', left) = served-found m r r' (b ∷ content, cache) e in
      let rest : drop (length (text m)) (text m ++ more) ≡ more = drop-append (text m) more in
      body-hit net redis conn s b content cache is_get found
      ∙ (answer_lem net redis conn s' (b ∷ content) (omega (arith, length-append (text m) more))
          ∙ λ i. some (between (length (text m)) (left i) (rest i)))

  round-served :
      (fuel used : ℕ) (m : Message) (more : Str) (r r' : Relay W)
      → IsMessage m
      → m.method ≡ get_method
      → serve m r ≡ some r'
      → solve_loop net redis conn (suc fuel) (between used r (text m ++ more))
        ≡ solve_loop net redis conn fuel (between (length (text m)) r' more)
  unfolding serve solve_loop
  round-served fuel used m more r r' h get e =
      elim (Bool-cases (net.connected (looks conn ∷ r.log) conn)) [
        | inr down ↦ absurd (ground (arith, e, down))
        | inl up ↦
            elim (Option-cases
              (Cache.read_cache redis (net.time (looks conn ∷ r.log)) m.url r.cache)) [
                | inl fails ↦ absurd (ground (arith, e, up, fails))
                | inr (([], cache), nothing) ↦ absurd (ground (arith, e, up, nothing))
                | inr ((b ∷ content, cache), found) ↦
                    let has =
                      has_request-parsed net redis conn (between used r (text m ++ more)) true
                        (length (text m)) (read_by new_context m) refl up
                        (parse_request-front new_context m more h) in
                    let taken =
                      body-served used b content cache m more r r' get found
                        (ground (arith, e, up, found)) in
                    ground (arith, has, taken)
              ]
      ]

  abbrev AreGets : List Message → Type 0
  AreGets = All (λ (m : Message). IsMessage m × (m.method ≡ get_method))

  -- The loop when no request is at the front.
  loop-ends :
      (fuel used : ℕ) (part : Str) (r : Relay W) {n : ℕ} {ctx : HttpContext}
      → parse_request new_context part ≡ some (false, n, ctx)
      → (s : Solving W) × (solve_loop net redis conn (suc fuel) (between used r part) ≡ returned s)
        × (s.relay ≡ note (looks conn) r)
  unfolding solve_loop has_request
  loop-ends fuel used part r {n} {ctx} e =
      elim (Bool-cases (net.connected (looks conn ∷ r.log) conn)) [
        | inl up ↦ (parsed net redis conn (between used r part) n ctx, ground (arith, up, e), refl)
        | inr down ↦ (look conn (between used r part), ground (arith, down), refl)
      ]

  loop-served :
      (fuel used : ℕ) (messages : List Message) (part : Str) (r r' : Relay W)
      → {n : ℕ} {ctx : HttpContext} → AreGets messages
      → serve_all messages r ≡ some r'
      → parse_request new_context part ≡ some (false, n, ctx)
      → length messages < fuel
      → (s : Solving W) × (solve_loop net redis conn fuel (between used r (texts messages part))
          ≡ returned s)
        × (s.relay ≡ note (looks conn) r')
  unfolding serve_all
  loop-served zero used messages part r r' h e p k = elim k [ ]
  loop-served (suc fuel) used [] part r r' h e p k =
      let (s, ends, same) = loop-ends fuel used part r p in
      (s, ends, same ∙ ap (note (looks conn)) (ground (arith, e)))
  loop-served (suc fuel) used (m ∷ messages) part r r' ((h, get), hs) e p k =
      elim (Option-cases (serve m r)) [
        | inl fails ↦ absurd (ground (arith, e, fails))
        | inr (r1, served_one) ↦
            let (s, ends, same) =
              loop-served fuel (length (text m)) messages part r1 r' hs
                (ground (arith, e, served_one)) p (omega (arith, k)) in
            (s, round-served fuel used m (texts messages part) r r1 h get served_one ∙ ends, same)
      ]

  -- The buffer holds any number of whole requests with the method `Get`, and behind them a proper
  -- part of one more request, maybe nothing of it. If the client is connected and the cache has a
  -- content that is not empty for each of the whole requests when its turn comes, and there are
  -- more rounds of fuel than whole requests, then `solveOnMessage` returns and has done what
  -- `serve_all` says: it has read the cache, sent the content and taken the bytes of the request
  -- out of the connection's buffer for one request after the other, and has left the part alone; if
  -- at most 10 MiB are left in the buffer, that is all.
  pub answers_all :
      (messages : List Message) (next : Message) (part missing : Str) (fuel : ℕ) (r r' : Relay W)
      → AreGets messages
      → IsMessage next
      → text next ≡ part ++ missing
      → missing ≢ []
      → serve_all messages r ≡ some r'
      → length messages < fuel
      → length (net.input (looks conn ∷ looks conn ∷ r'.log) conn) ≤ 1024 * 1024 * 10
      → solve_on_message net redis conn fuel (texts messages part) r
        ≡ returned (note (looks conn) (note (looks conn) r'))
  unfolding solve_on_message begin
  answers_all messages next part missing fuel r r' gets h cut ne e enough small =
      let (n, ctx, waits) = parse_request-part new_context next part missing h cut ne in
      let (s, ends, same) = loop-served fuel 0 messages part r r' gets e waits enough in
      let clean = close_dirty_clean net redis conn (note (looks conn) r') small in
      ground (arith, ends, same, clean)
