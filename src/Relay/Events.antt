-- ===== src/Relay/Events.antt =====
-- Which tunnel a connection has, after any events of the proxy server and its tunnels.
use enhanced_proxy.Common.{
  ℕ, zero, suc, ◌*◌, ◌≡◌, refl, Bool, true, false, Option, none, some, List, [], ◌∷◌, arith, update,
  inl, inr, Bool-cases, Option-cases, Str, ltb, length,
}
use mathlib.Core.Path.{subst}
use enhanced_proxy.HttpContext.{parse_request, is_response_complete}
use enhanced_proxy.Redis.{Hiredis}
use enhanced_proxy.Cache.{Cache}
use enhanced_proxy.Tunnel.{
  Tunnel, teardown, on_client_connection, on_client_message, deliver, pop_cache, store_response,
}
use enhanced_proxy.Muduo.{Call, looks, Net}
use enhanced_proxy.Relay.{
  Relay, note, on_server_connection, Solving, begin, has_request, body, Outcome, returned, faulted,
  unfinished, solve_loop, close_dirty, solve_on_message,
}
use enhanced_proxy.Relay.Routing.{
  IsRouted, changed-IsRouted, close_tunnel-IsRouted, same-IsRouted, on_server_connection-IsRouted,
  body-IsRouted,
}

module _ {W : Type 0} (net : Net) (redis : Hiredis W) (conn : ℕ) where
  pub has_request-IsRouted :
      (s s' : Solving W) (ok : Bool)
      → IsRouted s.relay
      → has_request net redis conn s ≡ some (ok, s')
      → IsRouted s'.relay
  unfolding has_request
  has_request-IsRouted s s' ok h e = elim (Bool-cases s.is_check) [
    | inl waiting ↦
        same-IsRouted s.relay s'.relay h (ground (arith, waiting)) (ground (arith, waiting))
          (ground (arith, waiting))
    | inr free ↦ elim (Bool-cases (net.connected (looks conn ∷ s.relay.log) conn)) [
      | inr down ↦
          same-IsRouted s.relay s'.relay h (ground (arith, free, down)) (ground (arith, free, down))
            (ground (arith, free, down))
      | inl up ↦ elim (Option-cases (parse_request s.context s.buff)) [
        | inl fails ↦ absurd (ground (arith, free, up, fails))
        | inr ((ok', n, ctx), parses) ↦
            same-IsRouted s.relay s'.relay h (ground (arith, free, up, parses))
              (ground (arith, free, up, parses)) (ground (arith, free, up, parses))
      ]
    ]
  ]

  loop-IsRouted :
      (fuel : ℕ) (s s' : Solving W)
      → IsRouted s.relay
      → solve_loop net redis conn fuel s ≡ returned s'
      → IsRouted s'.relay
  unfolding solve_loop
  loop-IsRouted zero s s' h e = cc
  loop-IsRouted (suc fuel) s s' h e = elim (Option-cases (has_request net redis conn s)) [
    | inl fails ↦ absurd (ground (arith, fails))
    | inr ((false, s1), ended) ↦
        let same : s1 ≡ s' = ground (arith, ended) in
        subst (λ (q : Solving W). IsRouted q.relay) same (has_request-IsRouted s s1 false h ended)
    | inr ((true, s1), found) ↦ elim (Option-cases (body net redis conn s1)) [
      | inl fails ↦ absurd (ground (arith, found, fails))
      | inr (s2, goes) ↦
          loop-IsRouted fuel s2 s'
            (body-IsRouted net redis conn s1 s2 (has_request-IsRouted s s1 true h found) goes)
            (ground (arith, found, goes))
    ]
  ]

  pub close_dirty-IsRouted : (r : Relay W) → IsRouted r → IsRouted (close_dirty net redis conn r)
  unfolding close_dirty
  close_dirty-IsRouted r h =
      elim (Bool-cases (ltb (1024 * 1024 * 10) (length (net.input (looks conn ∷ r.log) conn)))) [
        | inl large ↦ rw large (close_tunnel-IsRouted conn (note (looks conn) r) h)
        | inr small ↦ rw small h
      ]

  solve_on_message-IsRouted :
      (fuel : ℕ) (buff : Str) (r r' : Relay W)
      → IsRouted r
      → solve_on_message net redis conn fuel buff r ≡ returned r'
      → IsRouted r'
  unfolding solve_on_message begin
  solve_on_message-IsRouted fuel buff r r' h e =
      go (solve_loop net redis conn fuel (begin buff r)) refl
    where
      go :
          (o : Outcome (Solving W))
          → solve_loop net redis conn fuel (begin buff r) ≡ o
          → IsRouted r'
      go (returned s) ends =
          let same : close_dirty net redis conn s.relay ≡ r' = ground (arith, ends) in
          subst IsRouted same
            (close_dirty-IsRouted s.relay (loop-IsRouted fuel (begin buff r) s h ends))
      go faulted ends = absurd (ground (arith, ends))
      go unfinished ends = absurd (ground (arith, ends))

-- No callback of a tunnel changes the connection that it was made for.
on_client_connection-keeps :
    (net : Net) (self conn : ℕ) (t t' : Tunnel) (log log' : List Call)
    → on_client_connection net self conn t log ≡ some (t', log')
    → t'.server_conn ≡ t.server_conn
unfolding on_client_connection teardown
on_client_connection-keeps net self conn t t' log log' e =
    elim (Bool-cases (net.connected (looks conn ∷ log) conn)) [
      | inl up ↦ elim (Option-cases t.server_conn) [
        | inl gone ↦ ground (arith, up, gone)
        | inr (peer, there) ↦ ground (arith, up, there)
      ]
      | inr down ↦ elim (Option-cases t.client_conn) [
        | inl gone ↦ ground (arith, down, gone)
        | inr (peer, there) ↦ ground (arith, down, there)
      ]
    ]

on_client_message-keeps :
    {W : Type 0} (net : Net) (redis : Hiredis W) (conn : ℕ) (t t' : Tunnel) (cache cache' : Cache W)
    (log log' : List Call)
    → on_client_message net redis conn t cache log ≡ some (t', cache', log')
    → t'.server_conn ≡ t.server_conn
unfolding on_client_message deliver pop_cache
on_client_message-keeps net redis conn t t' cache cache' log log' e =
    go t.server_conn t.cache_queue refl refl
  where
    delivered :
        (peer : ℕ) (front : Str × Bool)
        → deliver net redis conn peer front t cache (looks conn ∷ log) ≡ some (t', cache', log')
        → t'.server_conn ≡ t.server_conn
    delivered peer front d =
        let log'' = looks conn ∷ log in
        elim (Option-cases
          (store_response redis (net.time log'') front (net.input log'' conn) cache)) [
            | inl fails ↦ absurd (ground (arith, fails))
            | inr (stored, ok) ↦ ground (arith, ok)
          ]

    go :
        (peer : Option ℕ) (queue : List (Str × Bool))
        → t.server_conn ≡ peer
        → t.cache_queue ≡ queue
        → t'.server_conn ≡ t.server_conn
    go none queue a b = absurd (ground (arith, a))
    go (some peer) [] a b = absurd (ground (arith, a, b))
    go (some peer) (front ∷ rest) a b =
        elim (Bool-cases (is_response_complete (net.input (looks conn ∷ log) conn))) [
          | inl whole ↦ delivered peer front (ground (arith, a, b, whole))
          | inr partial ↦ ground (arith, a, b, partial)
        ]

module _ {W : Type 0} (net : Net) (redis : Hiredis W) where
  -- The callbacks of the server, those of a tunnel that change it, and any other calls of muduo.
  pub data Event (r : Relay W) : Relay W → Type 0 where
    server_connection : (conn : ℕ) → Event r (on_server_connection net conn r)
    server_message :
        (conn fuel : ℕ) (buff : Str) {r' : Relay W}
        → solve_on_message net redis conn fuel buff r ≡ returned r'
        → Event r r'
    client_connection :
        (t conn : ℕ) {t' : Tunnel} {log' : List Call}
        → on_client_connection net t conn (r.objects t) r.log ≡ some (t', log')
        → Event r (record r { objects = update r.objects t t'; log = log' })
    client_message :
        (t conn : ℕ) {t' : Tunnel} {cache' : Cache W} {log' : List Call}
        → on_client_message net redis conn (r.objects t) r.cache r.log ≡ some (t', cache', log')
        → Event r (record r { objects = update r.objects t t'; cache = cache'; log = log' })
    calls : (log' : List Call) → Event r (record r { log = log' })

  pub data Events (r : Relay W) : Relay W → Type 0 where
    here : Events r r
    next : {r' r'' : Relay W} → Events r r' → Event r' r'' → Events r r''

  pub Event-IsRouted : {r r' : Relay W} → Event r r' → IsRouted r → IsRouted r'
  Event-IsRouted {r} (server_connection conn) h = on_server_connection-IsRouted net conn r h
  Event-IsRouted {r} {r'} (server_message conn fuel buff e) h =
      solve_on_message-IsRouted net redis conn fuel buff r r' h e
  Event-IsRouted {r} (client_connection t conn {t' = t'} {log' = log'} e) h =
      changed-IsRouted r t t' r.cache log' h
        (on_client_connection-keeps net t conn (r.objects t) t' r.log log' e)
  Event-IsRouted {r} (client_message t conn {t' = t'} {cache' = cache'} {log' = log'} e) h =
      changed-IsRouted r t t' cache' log' h
        (on_client_message-keeps net redis conn (r.objects t) t' r.cache cache' r.log log' e)
  Event-IsRouted (calls log') h = h

  Events-IsRouted : {r r' : Relay W} → Events r r' → IsRouted r → IsRouted r'
  Events-IsRouted here h = h
  Events-IsRouted (next es e) h = Event-IsRouted e (Events-IsRouted es h)

  -- From a proxy server without tunnels, after any sequence of whole calls of its callbacks and those
  -- of its tunnels: the tunnel that the map holds for a connection was made for that connection and
  -- answers it, and no other connection has the same tunnel.
  routed :
      {r r' : Relay W} (conn t : ℕ)
      → ((c : ℕ) → r.tunnels c ≡ none)
      → Events r r'
      → r'.tunnels conn ≡ some t
      → ((r'.objects t).server_conn ≡ some conn)
        × ((other : ℕ) → r'.tunnels other ≡ some t → other ≡ conn)
  routed {r} {r'} conn t empty es e =
      let h : IsRouted r' = Events-IsRouted es (λ c u f. absurd (ground (arith, f, empty c))) in
      let (lt, own) = h conn t e in
      (own, λ other f. let (lt', own') = h other t f in ground (arith, own, own'))
