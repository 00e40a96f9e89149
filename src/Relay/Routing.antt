-- ===== src/Relay/Routing.antt =====
-- Which tunnel a connection has, through everything that the callbacks of the proxy server and of
-- its tunnels do.
use enhanced_proxy.Common.{
  ℕ, ◌+◌, ◌<◌, ◌≡◌, refl, not, some, List, [], ◌∷◌, arith, ◌==◌, update, inl, inr, Bool-cases,
  Option-cases, Str, str_eq,
}
use mathlib.Core.Path.{subst}
use enhanced_proxy.HttpContext.{get_method}
use enhanced_proxy.Redis.{Hiredis}
use enhanced_proxy.Cache
use enhanced_proxy.Cache.{Cache}
use enhanced_proxy.Tunnel.{Tunnel, new_tunnel, push_cache}
use enhanced_proxy.Muduo.{Call, looks, Net}
use enhanced_proxy.Relay.{
  Relay, note, close_tunnel, on_server_connection, Solving, look, is_empty, erase_front,
  read_content, answer, forward, ask_twice, relay_request, body,
}
use enhanced_proxy.Relay.Rounds.{opened, forwarded, open_tunnel_lem}

-- The tunnel of a connection exists, and was made for that connection.
abbrev pub IsRouted : {W : Type 0} → Relay W → Type 0
IsRouted r =
    (conn t : ℕ) → r.tunnels conn ≡ some t → (t < r.next) × ((r.objects t).server_conn ≡ some conn)

module _ {W : Type 0} where
  -- A tunnel at an address beyond all others, for a connection.
  opened-IsRouted :
      (r : Relay W) (conn : ℕ) (log : List Call)
      → IsRouted r
      → IsRouted (record r {
        tunnels = update r.tunnels conn (some r.next);
        objects = update r.objects r.next (new_tunnel conn);
        next = r.next + 1;
        log = log;
      })
  opened-IsRouted r conn log h c u e = elim (Bool-cases (conn == c)) [
    | inl same ↦ (ground (arith, same, e), ground (arith, same, e))
    | inr other ↦
        let old : r.tunnels c ≡ some u = ground (arith, other, e) in
        let (lt, own) = h c u old in (omega arith, ground (arith, own))
  ]

  -- A change of a tunnel that leaves it its connection.
  pub changed-IsRouted :
      (r : Relay W) (u : ℕ) (t : Tunnel) (cache : Cache W) (log : List Call)
      → IsRouted r
      → t.server_conn ≡ (r.objects u).server_conn
      → IsRouted (record r { objects = update r.objects u t; cache = cache; log = log })
  changed-IsRouted r u t cache log h kept c v e =
      let (lt, own) = h c v e in (lt, ground (arith, kept, own))

  pub close_tunnel-IsRouted : (conn : ℕ) (r : Relay W) → IsRouted r → IsRouted (close_tunnel conn r)
  unfolding close_tunnel
  close_tunnel-IsRouted conn r h c u e = elim (Option-cases (r.tunnels conn)) [
    | inl missing ↦
        let old : r.tunnels c ≡ some u = ground (arith, missing, e) in
        ground (arith, missing, h c u old)
    | inr (t, there) ↦
        let old : r.tunnels c ≡ some u = ground (arith, there, e) in
        ground (arith, there, h c u old)
  ]

  pub same-IsRouted :
      (r r' : Relay W)
      → IsRouted r
      → r'.tunnels ≡ r.tunnels
      → r'.objects ≡ r.objects
      → r'.next ≡ r.next
      → IsRouted r'
  same-IsRouted r r' h tunnels objects next c u e =
      let old : r.tunnels c ≡ some u = ground (arith, tunnels, e) in
      let (lt, own) = h c u old in (omega (arith, next), ground (arith, objects, own))

  pub on_server_connection-IsRouted :
      (net : Net) (conn : ℕ) (r : Relay W) → IsRouted r → IsRouted (on_server_connection net conn r)
  unfolding on_server_connection
  on_server_connection-IsRouted net conn r h =
      elim (Bool-cases (net.connected (looks conn ∷ r.log) conn)) [
        | inl up ↦ rw up h
        | inr down ↦ rw down (close_tunnel-IsRouted conn (note (looks conn) r) h)
      ]

module _ {W : Type 0} (net : Net) (redis : Hiredis W) (conn : ℕ) where
  answer-IsRouted :
      (content : Str) (s s' : Solving W)
      → IsRouted s.relay
      → answer net redis conn content s ≡ some s'
      → IsRouted s'.relay
  unfolding answer
  answer-IsRouted content s s' h e = elim (Option-cases (erase_front s.used s.buff)) [
    | inl fails ↦ absurd (ground (arith, fails))
    | inr (buff, cut) ↦
        same-IsRouted s.relay s'.relay h (ground (arith, cut)) (ground (arith, cut))
          (ground (arith, cut))
  ]

  forward-IsRouted :
      (peer : ℕ) (s s' : Solving W)
      → IsRouted s.relay
      → forward net redis conn peer s ≡ some s'
      → IsRouted s'.relay
  unfolding forward push_cache
  forward-IsRouted peer s s' h e = elim (Option-cases (s.relay.tunnels conn)) [
    | inl missing ↦ absurd (ground (arith, missing))
    | inr (t, found) ↦ elim (Option-cases (erase_front s.used s.buff)) [
      | inl fails ↦ absurd (ground (arith, found, fails))
      | inr (buff, cut) ↦
          let t' =
            push_cache s.context.request_url (not s.context.has_cookie) (s.relay.objects t) in
          let mid : Relay W = (forwarded net redis conn s peer t).relay in
          let changed : IsRouted mid = changed-IsRouted s.relay t t' s.relay.cache mid.log h refl in
          same-IsRouted mid s'.relay changed (ground (arith, found, cut))
            (ground (arith, found, cut)) (ground (arith, found, cut))
    ]
  ]

  ask_twice-IsRouted :
      (s s' : Solving W)
      → IsRouted s.relay
      → ask_twice net redis conn s ≡ some s'
      → IsRouted s'.relay
  unfolding ask_twice
  ask_twice-IsRouted s s' h e = elim (Option-cases (net.context (looks conn ∷ s.relay.log) conn)) [
    | inl missing ↦
        same-IsRouted s.relay s'.relay h (ground (arith, missing)) (ground (arith, missing))
          (ground (arith, missing))
    | inr (peer, there) ↦
        elim (Option-cases (net.context (looks conn ∷ looks conn ∷ s.relay.log) conn)) [
          | inl missing ↦ absurd (ground (arith, there, missing))
          | inr (other, again) ↦
              forward-IsRouted other (look conn (look conn s)) s' h (ground (arith, there, again))
        ]
  ]

  relay_request-IsRouted :
      (s s' : Solving W)
      → IsRouted s.relay
      → relay_request net redis conn s ≡ some s'
      → IsRouted s'.relay
  unfolding relay_request
  relay_request-IsRouted s s' h e = elim (Bool-cases s.is_check) [
    | inl waiting ↦ ask_twice-IsRouted s s' h (ground (arith, waiting))
    | inr free ↦ elim (Bool-cases (is_empty (net.context (looks conn ∷ s.relay.log) conn))) [
      | inl empty ↦
          let same : opened net redis conn (look conn s) ≡ s' =
            ground (arith, free, empty, open_tunnel_lem net redis conn (look conn s)) in
          subst (λ (q : Solving W). IsRouted q.relay) same
            (opened-IsRouted s.relay conn (opened net redis conn (look conn s)).relay.log h)
      | inr full ↦ ask_twice-IsRouted (look conn s) s' h (ground (arith, free, full))
    ]
  ]

  pub read_content-IsRouted :
      (s s' : Solving W) (content : Str)
      → IsRouted s.relay
      → read_content net redis conn s ≡ some (content, s')
      → IsRouted s'.relay
  unfolding read_content
  read_content-IsRouted s s' content h e =
      elim (Bool-cases (str_eq s.context.request_method get_method)) [
        | inr other ↦
            same-IsRouted s.relay s'.relay h (ground (arith, other)) (ground (arith, other))
              (ground (arith, other))
        | inl get ↦
            elim (Option-cases
              (Cache.read_cache redis (net.time s.relay.log) s.context.request_url s.relay.cache)) [
                | inl fails ↦ absurd (ground (arith, get, fails))
                | inr (found, ok) ↦
                    same-IsRouted s.relay s'.relay h (ground (arith, get, ok))
                      (ground (arith, get, ok)) (ground (arith, get, ok))
              ]
      ]

  pub body-IsRouted :
      (s s' : Solving W) → IsRouted s.relay → body net redis conn s ≡ some s' → IsRouted s'.relay
  unfolding body
  body-IsRouted s s' h e = elim (Option-cases (read_content net redis conn s)) [
    | inl fails ↦ absurd (ground (arith, fails))
    | inr (([], s1), missed) ↦
        relay_request-IsRouted s1 s' (read_content-IsRouted s s1 [] h missed)
          (ground (arith, missed))
    | inr ((b ∷ content, s1), found) ↦
        answer-IsRouted (b ∷ content) s1 s' (read_content-IsRouted s s1 (b ∷ content) h found)
          (ground (arith, found))
  ]
