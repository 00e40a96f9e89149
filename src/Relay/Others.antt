-- ===== src/Relay/Others.antt =====
-- A whole call of `solveOnMessage`, and the clients that it is not for.
use enhanced_proxy.Common.{
  ℕ, zero, suc, ◌*◌, ◌≡◌, ◌≢◌, refl, Bool, true, false, none, some, List, ◌∷◌, arith, update, inl,
  inr, Bool-cases, Option-cases, Str, ltb, length,
}
use mathlib.Core.Path.{subst}
use enhanced_proxy.HttpContext.{parse_request}
use enhanced_proxy.Redis.{Hiredis}
use enhanced_proxy.Tunnel.{disconnect}
use enhanced_proxy.Muduo.{Call, looks, shutdown, force_close_with_delay, Net}
use enhanced_proxy.Relay.{
  Relay, note, close_tunnel, Solving, begin, has_request, body, Outcome, returned, faulted,
  unfinished, solve_loop, close_dirty, solve_on_message,
}
use enhanced_proxy.Relay.Routing.{IsRouted, body-IsRouted}
use enhanced_proxy.Relay.Events.{has_request-IsRouted}
use enhanced_proxy.Relay.Clients.{
  handles, dealings, Untouched, same-Untouched, both-Untouched, looked-Untouched, body-Untouched,
}

module _ {W : Type 0} (net : Net) (redis : Hiredis W) (conn c : ℕ) (ne : conn ≢ c)
    (no_peer : (log : List Call) → net.context log conn ≢ some c) where
  has_request-Untouched :
      (s s' : Solving W) (ok : Bool)
      → has_request net redis conn s ≡ some (ok, s')
      → Untouched c s.relay s'.relay
  unfolding has_request
  has_request-Untouched s s' ok e =
      let looked = looked-Untouched net redis conn c ne no_peer s in
      elim (Bool-cases s.is_check) [
        | inl waiting ↦
            same-Untouched c (ground (arith, waiting, e)) (ground (arith, waiting, e))
              (ground (arith, waiting, e))
        | inr free ↦ elim (Bool-cases (net.connected (looks conn ∷ s.relay.log) conn)) [
          | inr down ↦
              let same : note (looks conn) s.relay ≡ s'.relay = ground (arith, free, down, e) in
              subst (Untouched c s.relay) same looked
          | inl up ↦ elim (Option-cases (parse_request s.context s.buff)) [
            | inl fails ↦ absurd (ground (arith, free, up, fails, e))
            | inr ((ok', n, ctx), parses) ↦
                let same : note (looks conn) s.relay ≡ s'.relay =
                  ground (arith, free, up, parses, e) in
                subst (Untouched c s.relay) same looked
          ]
        ]
      ]

  loop-Untouched :
      (fuel : ℕ) (s s' : Solving W)
      → IsRouted s.relay
      → solve_loop net redis conn fuel s ≡ returned s'
      → Untouched c s.relay s'.relay
  unfolding solve_loop
  loop-Untouched zero s s' h e = absurd (ground (arith, e))
  loop-Untouched (suc fuel) s s' h e = elim (Option-cases (has_request net redis conn s)) [
    | inl fails ↦ absurd (ground (arith, fails, e))
    | inr ((false, s1), ended) ↦
        let same : s1 ≡ s' = ground (arith, ended, e) in
        subst (λ (q : Solving W). Untouched c s.relay q.relay) same
          (has_request-Untouched s s1 false ended)
    | inr ((true, s1), found) ↦ elim (Option-cases (body net redis conn s1)) [
      | inl fails ↦ absurd (ground (arith, found, fails, e))
      | inr (s2, goes) ↦
          let h1 = has_request-IsRouted net redis conn s s1 true h found in
          both-Untouched c
            (both-Untouched c (has_request-Untouched s s1 true found)
              (body-Untouched net redis conn c ne no_peer s1 s2 h1 goes))
            (loop-Untouched fuel s2 s' (body-IsRouted net redis conn s1 s2 h1 goes)
              (ground (arith, found, goes, e)))
    ]
  ]

  closed-Untouched : (r : Relay W) → Untouched c r (close_tunnel conn r)
  unfolding close_tunnel disconnect dealings handles
  closed-Untouched r = elim (Option-cases (r.tunnels conn)) [
    | inl missing ↦
        let same : r ≡ close_tunnel conn r = ground (arith, missing) in
        subst (Untouched c r) same (same-Untouched c refl refl refl)
    | inr (t, there) ↦
        let closed : Relay W = record r {
          tunnels = update r.tunnels conn none;
          log = Call.disconnect t ∷ r.log;
        } in
        let same : closed ≡ close_tunnel conn r = ground (arith, there) in
        let untouched : Untouched c r closed = record {
          tunnel = ground (arith, ne);
          object = λ u e. refl;
          calls = ground arith;
        } in
        subst (Untouched c r) same untouched
  ]

  close_dirty-Untouched : (r : Relay W) → Untouched c r (close_dirty net redis conn r)
  unfolding close_dirty dealings handles
  close_dirty-Untouched r =
      let looked : Untouched c r (note (looks conn) r) =
        same-Untouched c refl refl (ground (arith, ne)) in
      elim (Bool-cases (ltb (1024 * 1024 * 10) (length (net.input (looks conn ∷ r.log) conn)))) [
        | inr small ↦ rw small looked
        | inl large ↦
            let closed = close_tunnel conn (note (looks conn) r) in
            let ends : Untouched c closed
                (note (force_close_with_delay conn) (note (shutdown conn) closed)) =
              same-Untouched c refl refl (ground (arith, ne)) in
            rw large (
              both-Untouched c looked
                (both-Untouched c (closed-Untouched (note (looks conn) r)) ends))
      ]

  -- Where every tunnel of the map exists and was made for the connection it stands under, take a
  -- call of `solveOnMessage` for one client, with any bytes, that returns, and another client,
  -- whose connection muduo never gives as the way of the first one to the web server. The other
  -- client then has the same tunnel as before, or none, that tunnel is in the same state, and the
  -- call has neither asked its connection anything nor sent, taken out or closed anything there.
  pub solve_on_message-Untouched :
      (fuel : ℕ) (buff : Str) (r r' : Relay W)
      → IsRouted r
      → solve_on_message net redis conn fuel buff r ≡ returned r'
      → Untouched c r r'
  unfolding solve_on_message begin
  solve_on_message-Untouched fuel buff r r' h e =
      go (solve_loop net redis conn fuel (begin buff r)) refl
    where
      go :
          (o : Outcome (Solving W))
          → solve_loop net redis conn fuel (begin buff r) ≡ o
          → Untouched c r r'
      go (returned s) ends =
          let same : close_dirty net redis conn s.relay ≡ r' = ground (arith, ends, e) in
          subst (Untouched c r) same (
            both-Untouched c (loop-Untouched fuel (begin buff r) s h ends)
              (close_dirty-Untouched s.relay))
      go faulted ends = absurd (ground (arith, ends, e))
      go unfinished ends = absurd (ground (arith, ends, e))
