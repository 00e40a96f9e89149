-- ===== src/Relay/Clients.antt =====
-- What a call of `solveOnMessage` for one client leaves of another one.
use enhanced_proxy.Common.{
  ℕ, ◌≡◌, ◌≢◌, refl, ◌∙◌, Bool, false, some, List, [], ◌∷◌, arith, ◌==◌, inl, inr, Bool-cases,
  Option-cases, Str, str_eq, if◌then◌else◌,
}
use mathlib.Core.Path.{subst}
use enhanced_proxy.HttpContext.{get_method}
use enhanced_proxy.Redis.{Hiredis}
use enhanced_proxy.Cache
use enhanced_proxy.Cache.{Cache}
use enhanced_proxy.Muduo.{
  Call, looks, set_tcp_no_delay, start_read, stop_read, shutdown, force_close_with_delay,
  retrieve_all, send, retrieve, set_context, Net,
}
use enhanced_proxy.Relay.{
  Relay, Solving, look, is_empty, erase_front, read_content, answer, forward, ask_twice,
  relay_request, body,
}
use enhanced_proxy.Relay.Rounds.{opened, forwarded, open_tunnel_lem}
use enhanced_proxy.Relay.Routing.{IsRouted, read_content-IsRouted}

-- Whether a call asks a connection something, or does something to it.
unfoldable pub handles : ℕ → Call → Bool
handles c (looks d) = d == c
handles c (set_tcp_no_delay d) = d == c
handles c (start_read d) = d == c
handles c (stop_read d) = d == c
handles c (shutdown d) = d == c
handles c (force_close_with_delay d) = d == c
handles c (retrieve_all d) = d == c
handles c (send d text) = d == c
handles c (retrieve d n) = d == c
handles c (set_context d peer) = d == c
handles c _ = false

unfoldable pub dealings : ℕ → List Call → List Call
dealings c [] = []
dealings c (call ∷ log) = let rest = dealings c log in if handles c call then call ∷ rest else rest

-- The connection `c` has the same tunnel as before, in the same state, and nothing was asked of it
-- or done to it.
pub record Untouched {W : Type 0} (c : ℕ) (r r' : Relay W) : Type 0 where
  pub tunnel : r'.tunnels c ≡ r.tunnels c
  pub object : (t : ℕ) → r.tunnels c ≡ some t → r'.objects t ≡ r.objects t
  pub calls : dealings c r'.log ≡ dealings c r.log

module _ (c : ℕ) where
  pub same-Untouched :
      {W : Type 0} {r r' : Relay W}
      → r'.tunnels ≡ r.tunnels
      → r'.objects ≡ r.objects
      → dealings c r'.log ≡ dealings c r.log
      → Untouched c r r'
  same-Untouched tunnels objects calls = record {
    tunnel = λ i. tunnels i c;
    object = λ t e i. objects i t;
    calls = calls;
  }

  pub both-Untouched :
      {W : Type 0} {r r1 r' : Relay W} → Untouched c r r1 → Untouched c r1 r' → Untouched c r r'
  both-Untouched u v = record {
    tunnel = v.tunnel ∙ u.tunnel;
    object = λ t e. v.object t (u.tunnel ∙ e) ∙ u.object t e;
    calls = v.calls ∙ u.calls;
  }

  dealings_look :
      (conn : ℕ) (log : List Call) → conn ≢ c → dealings c (looks conn ∷ log) ≡ dealings c log
  unfolding dealings handles
  dealings_look conn log ne = ground (arith, ne)

  dealings-retrieve :
      (conn n : ℕ) (log : List Call)
      → conn ≢ c
      → dealings c (retrieve conn n ∷ log) ≡ dealings c log
  unfolding dealings handles
  dealings-retrieve conn n log ne = ground (arith, ne)

  dealings-send :
      (conn : ℕ) (text : Str) (log : List Call)
      → conn ≢ c
      → dealings c (send conn text ∷ log) ≡ dealings c log
  unfolding dealings handles
  dealings-send conn text log ne = ground (arith, ne)

module _ {W : Type 0} (net : Net) (redis : Hiredis W) (conn c : ℕ) (ne : conn ≢ c)
    (no_peer : (log : List Call) → net.context log conn ≢ some c) where
  opened-Untouched :
      (s : Solving W) → IsRouted s.relay → Untouched c s.relay (opened net redis conn s).relay
  unfolding dealings handles
  opened-Untouched s h = record {
    tunnel = ground (arith, ne);
    object = λ t e. let (lt, own) = h c t e in ground (arith, lt);
    calls = ground arith;
  }

  forwarded-Untouched :
      (s : Solving W) (peer t : ℕ)
      → IsRouted s.relay
      → s.relay.tunnels conn ≡ some t
      → peer ≢ c
      → Untouched c s.relay (forwarded net redis conn s peer t).relay
  unfolding dealings handles
  forwarded-Untouched s peer t h mine other = record {
    tunnel = refl;
    object = λ u e.
        let (lt, own) = h conn t mine in let (lt', own') = h c u e in ground (arith, own, own', ne);
    calls = ground (arith, ne, other);
  }

  answer-Untouched :
      (content : Str) (s s' : Solving W)
      → answer net redis conn content s ≡ some s'
      → Untouched c s.relay s'.relay
  unfolding answer
  answer-Untouched content s s' e = elim (Option-cases (erase_front s.used s.buff)) [
    | inl fails ↦ absurd (ground (arith, fails, e))
    | inr (buff, cut) ↦
        let log = send conn content ∷ s.relay.log in
        same-Untouched c (ground (arith, cut, e)) (ground (arith, cut, e)) (
          ground (
            arith,
            cut,
            e,
            dealings-retrieve c conn s.used log ne,
            dealings-send c conn content s.relay.log ne,
          ))
  ]

  forward-Untouched :
      (peer : ℕ) (s s' : Solving W)
      → IsRouted s.relay
      → peer ≢ c
      → forward net redis conn peer s ≡ some s'
      → Untouched c s.relay s'.relay
  unfolding forward
  forward-Untouched peer s s' h other e = elim (Option-cases (s.relay.tunnels conn)) [
    | inl missing ↦ absurd (ground (arith, missing, e))
    | inr (t, mine) ↦ elim (Option-cases (erase_front s.used s.buff)) [
      | inl fails ↦ absurd (ground (arith, mine, fails, e))
      | inr (buff, cut) ↦
          let same : (forwarded net redis conn s peer t).relay ≡ s'.relay =
            ground (arith, mine, cut, e) in
          subst (Untouched c s.relay) same (forwarded-Untouched s peer t h mine other)
    ]
  ]

  pub looked-Untouched : (s : Solving W) → Untouched c s.relay (look conn s).relay
  looked-Untouched s = same-Untouched c refl refl (dealings_look c conn s.relay.log ne)

  ask_twice-Untouched :
      (s s' : Solving W)
      → IsRouted s.relay
      → ask_twice net redis conn s ≡ some s'
      → Untouched c s.relay s'.relay
  unfolding ask_twice
  ask_twice-Untouched s s' h e = elim (Option-cases (net.context (looks conn ∷ s.relay.log) conn)) [
    | inl missing ↦
        let same : look conn s ≡ s' = ground (arith, missing, e) in
        subst (λ (q : Solving W). Untouched c s.relay q.relay) same (looked-Untouched s)
    | inr (peer, there) ↦
        elim (Option-cases (net.context (looks conn ∷ looks conn ∷ s.relay.log) conn)) [
          | inl missing ↦ absurd (ground (arith, there, missing, e))
          | inr (again, there') ↦
              let other : again ≢ c =
                λ f. no_peer (looks conn ∷ looks conn ∷ s.relay.log) (ground (arith, there', f)) in
              both-Untouched c
                (both-Untouched c (looked-Untouched s) (looked-Untouched (look conn s)))
                (forward-Untouched again (look conn (look conn s)) s' h other
                  (ground (arith, there, there', e)))
        ]
  ]

  relay_request-Untouched :
      (s s' : Solving W)
      → IsRouted s.relay
      → relay_request net redis conn s ≡ some s'
      → Untouched c s.relay s'.relay
  unfolding relay_request
  relay_request-Untouched s s' h e = elim (Bool-cases s.is_check) [
    | inl waiting ↦ ask_twice-Untouched s s' h (ground (arith, waiting, e))
    | inr free ↦ elim (Bool-cases (is_empty (net.context (looks conn ∷ s.relay.log) conn))) [
      | inl empty ↦
          let same : opened net redis conn (look conn s) ≡ s' =
            ground (arith, free, empty, e, open_tunnel_lem net redis conn (look conn s)) in
          both-Untouched c (looked-Untouched s) (
            subst (λ (q : Solving W). Untouched c (look conn s).relay q.relay) same
              (opened-Untouched (look conn s) h))
      | inr full ↦
          both-Untouched c (looked-Untouched s)
            (ask_twice-Untouched (look conn s) s' h (ground (arith, free, full, e)))
    ]
  ]

  read_content-Untouched :
      (s s' : Solving W) (content : Str)
      → read_content net redis conn s ≡ some (content, s')
      → Untouched c s.relay s'.relay
  unfolding read_content
  read_content-Untouched s s' content e =
      elim (Bool-cases (str_eq s.context.request_method get_method)) [
        | inr other ↦
            same-Untouched c (ground (arith, other, e)) (ground (arith, other, e))
              (ground (arith, other, e))
        | inl get ↦
            elim (Option-cases
              (Cache.read_cache redis (net.time s.relay.log) s.context.request_url s.relay.cache)) [
                | inl fails ↦ absurd (ground (arith, get, fails, e))
                | inr (found, ok) ↦
                    same-Untouched c (ground (arith, get, ok, e)) (ground (arith, get, ok, e))
                      (ground (arith, get, ok, e))
              ]
      ]

  pub body-Untouched :
      (s s' : Solving W)
      → IsRouted s.relay
      → body net redis conn s ≡ some s'
      → Untouched c s.relay s'.relay
  unfolding body
  body-Untouched s s' h e = elim (Option-cases (read_content net redis conn s)) [
    | inl fails ↦ absurd (ground (arith, fails, e))
    | inr (([], s1), missed) ↦
        let read = read_content-Untouched s s1 [] missed in
        both-Untouched c read (
          relay_request-Untouched s1 s' (read_content-IsRouted net redis conn s s1 [] h missed)
            (ground (arith, missed, e)))
    | inr ((b ∷ content, s1), found) ↦
        both-Untouched c (read_content-Untouched s s1 (b ∷ content) found)
          (answer-Untouched (b ∷ content) s1 s' (ground (arith, found, e)))
  ]
