-- ===== src/Relay/Ends.antt =====
-- The end of `solveOnMessage`: from one round to the whole call.
use enhanced_proxy.Common.{
  ℕ, zero, suc, ◌+◌, ◌*◌, ◌^◌, ◌≤◌, ◌<◌, ◌≡◌, ◌≢◌, true, false, some, List, [], ◌∷◌, ltb, arith,
  length, Str, inl, inr, Bool-cases, Option-cases,
}
use mathlib.Core.Path.{subst}
use enhanced_proxy.Redis.{Hiredis}
use enhanced_proxy.Muduo.{Call, looks, Net}
use enhanced_proxy.Relay.{
  Relay, Solving, look, is_empty, begin, has_request, read_content, relay_request, body, ask_twice,
  unfinished, solve_loop, solve_on_message,
}
use enhanced_proxy.Relay.Rounds.{opened, open_tunnel_lem}
use enhanced_proxy.Relay.Waiting.{waited, waited-looks, IsSane, rounds_left, IsReady, Goes}
use enhanced_proxy.Relay.Progress.{
  has_request-IsReady, answer-Goes, look-IsReady, look-fewer, look-Goes, asked-Goes, opened-Goes,
  read_content-IsReady,
}

module _ {W : Type 0} (net : Net) (redis : Hiredis W) (conn delay : ℕ)
    (comes : (log : List Call) (k : ℕ)
      → waited conn log ≡ some k
      → delay ≤ k
      → is_empty (net.context log conn) ≡ false)
    (stays : (log : List Call)
      → is_empty (net.context (looks conn ∷ log) conn) ≡ false
      → is_empty (net.context (looks conn ∷ looks conn ∷ log) conn) ≡ false) where
  -- A round of the wait, with or without a connection at its end.
  waiting-Goes :
      (s s' : Solving W)
      → IsReady conn s
      → s.is_check ≡ true
      → ask_twice net redis conn s ≡ some s'
      → Goes delay conn s s'
  unfolding ask_twice
  waiting-Goes s s' h waiting e =
      elim (Bool-cases (is_empty (net.context (looks conn ∷ s.relay.log) conn))) [
        | inr there ↦ asked-Goes net redis conn delay s s' h there e
        | inl empty ↦
            let (k, at) = h.asked waiting in
            let next = waited-looks conn k s.relay.log at in
            let soon : suc k < delay = elim (Bool-cases (ltb (suc k) delay)) [
              | inl lt ↦ ground (arith, lt)
              | inr le ↦
                  absurd (cc (comes (looks conn ∷ s.relay.log) (suc k) next (ground (arith, le))))
            ] in
            let same : look conn s ≡ s' = ground (arith, empty) in
            subst (Goes delay conn s) same
              (look-Goes net redis conn delay s k h waiting at (omega (arith, soon)))
      ]

  relay_request-Goes :
      (s s' : Solving W)
      → IsReady conn s
      → relay_request net redis conn s ≡ some s'
      → Goes delay conn s s'
  unfolding relay_request
  relay_request-Goes s s' h e = elim (Bool-cases s.is_check) [
    | inl waiting ↦ waiting-Goes s s' h waiting (ground (arith, waiting))
    | inr free ↦ elim (Bool-cases (is_empty (net.context (looks conn ∷ s.relay.log) conn))) [
      | inl empty ↦
          let same : opened net redis conn (look conn s) ≡ s' =
            ground (arith, free, empty, open_tunnel_lem net redis conn (look conn s)) in
          subst (Goes delay conn s) same (opened-Goes net redis conn delay s h free)
      | inr first ↦
          let g =
            asked-Goes net redis conn delay (look conn s) s' (look-IsReady net redis conn delay s h)
              (stays s.relay.log first) (ground (arith, free, first)) in
          record {
            sane = g.sane;
            fewer = omega (arith, g.fewer, look-fewer net redis conn delay s h);
          }
    ]
  ]

  body-Goes :
      (s s' : Solving W) → IsReady conn s → body net redis conn s ≡ some s' → Goes delay conn s s'
  unfolding body
  body-Goes s s' h e = elim (Option-cases (read_content net redis conn s)) [
    | inl fails ↦ absurd (ground (arith, fails))
    | inr (([], s1), missed) ↦
        let (ready, same) = read_content-IsReady net redis conn delay s [] s1 h missed in
        let g = relay_request-Goes s1 s' ready (ground (arith, missed)) in
        record { sane = g.sane; fewer = ground (arith, g.fewer, same) }
    | inr ((b ∷ content, s1), found) ↦
        let (ready, same) = read_content-IsReady net redis conn delay s (b ∷ content) s1 h found in
        let g =
          answer-Goes net redis conn delay (b ∷ content) s1 s' ready (ground (arith, found)) in
        record { sane = g.sane; fewer = ground (arith, g.fewer, same) }
  ]

  loop_ends :
      (fuel : ℕ) (s : Solving W)
      → IsSane conn s
      → rounds_left delay conn s < fuel
      → solve_loop net redis conn fuel s ≢ unfinished
  unfolding solve_loop
  loop_ends zero s h k = elim k [ ]
  loop_ends (suc fuel) s h k = elim (Option-cases (has_request net redis conn s)) [
    | inl fails ↦ ground (arith, fails)
    | inr ((false, s1), ended) ↦ ground (arith, ended)
    | inr ((true, s1), found) ↦
        let (ready, same) = has_request-IsReady net redis conn delay s s1 h found in
        elim (Option-cases (body net redis conn s1)) [
          | inl fails ↦ ground (arith, found, fails)
          | inr (s2, goes) ↦
              let g = body-Goes s1 s2 ready goes in
              let rest = loop_ends fuel s2 g.sane (omega (arith, g.fewer, same)) in
              ground (arith, found, goes, rest)
        ]
  ]

  -- While a call waits for the tunnel that it set up, the tunnel connects within `delay`: after
  -- so many looks at the client's connection its context is set. And the server does not close
  -- between two looks that follow one another directly: a context that the first finds set is set at
  -- the second. Then for every buffer below 2 GiB `solveOnMessage` ends, by a return or a fault,
  -- within `delay + 2` rounds for each byte of the buffer and `delay + 2` more, whatever else muduo
  -- and the cache answer.
  pub solve_ends :
      (fuel : ℕ) (buff : Str) (r : Relay W)
      → length buff < 2 ^ 31
      → (delay + 2) * length buff + (delay + 1) < fuel
      → solve_on_message net redis conn fuel buff r ≢ unfinished
  unfolding solve_on_message begin
  solve_ends fuel buff r small enough =
      let h : IsSane conn (begin buff r) = record {
        small = small;
        asked = λ c. cc;
        some_used = λ c. cc;
        all_used = λ c. cc;
      } in
      let ends = loop_ends fuel (begin buff r) h enough in ground (arith, ends)
