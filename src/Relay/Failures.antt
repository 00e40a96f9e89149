-- ===== src/Relay/Failures.antt =====
-- How `solveOnMessage` fails: on a second request in the buffer, and in its wait for a tunnel.
use enhanced_proxy.Common.{
  ℕ, zero, suc, ◌<◌, ◌≡◌, refl, ◌∙◌, true, false, none, some, List, [], ◌∷◌, arith, length, take,
  Str, str_eq, inl, inr, Option-cases,
}
use enhanced_proxy.HttpContext.{HttpContext, new_context, get_method, parse_request}
use enhanced_proxy.Redis.{Hiredis}
use enhanced_proxy.Muduo.{Call, looks, send, Net}
use enhanced_proxy.Relay.{
  Relay, Solving, look, begin, has_request, relay_request, body, forward, faulted, unfinished,
  solve_loop, solve_on_message,
}
use enhanced_proxy.Relay.Rounds.{parsed, opened, has_request-parsed, open_tunnel_lem, body-miss}

take_shorter : (n : ℕ) (l : Str) → n < length l → str_eq l (take n l) ≡ false
unfolding str_eq
take_shorter n [] h = elim h [ ]
take_shorter zero (x ∷ l) h = refl
take_shorter (suc n) (x ∷ l) h = ground (arith, take_shorter n l)

module _ {W : Type 0} (net : Net) (redis : Hiredis W) (conn : ℕ) where
  forward_aborts :
      (peer : ℕ) (s : Solving W)
      → s.used < length s.buff
      → net.input (looks conn ∷ send peer (take s.used s.buff) ∷ s.relay.log) conn ≡ s.buff
      → forward net redis conn peer s ≡ none
  unfolding forward
  forward_aborts peer s more input = elim (Option-cases (s.relay.tunnels conn)) [
    | inl missing ↦ ground (arith, missing)
    | inr (t, e) ↦ ground (arith, e, take_shorter s.used s.buff more)
  ]

  -- A round for a request that is in the buffer with more bytes behind it.
  aborts :
      (peer : ℕ) (s : Solving W)
      → s.is_check ≡ false
      → str_eq s.context.request_method get_method ≡ false
      → ((log : List Call) → net.context log conn ≡ some peer)
      → s.used < length s.buff
      → ((log : List Call) → net.input log conn ≡ s.buff)
      → body net redis conn s ≡ none
  unfolding relay_request
  aborts peer s check other ctx_set more input =
      body-miss net redis conn s other
      ∙ ground (
        arith,
        ctx_set (looks conn ∷ s.relay.log),
        ctx_set (looks conn ∷ looks conn ∷ s.relay.log),
        ctx_set (looks conn ∷ looks conn ∷ looks conn ∷ s.relay.log),
        forward_aborts peer (look conn (look conn (look conn s))) more (input _),
      )

  -- The loop after the tunnel was made, while the context stays empty.
  waits :
      (fuel : ℕ) (s : Solving W)
      → s.is_check ≡ true
      → str_eq s.context.request_method get_method ≡ false
      → ((log : List Call) → net.context log conn ≡ none)
      → solve_loop net redis conn fuel s ≡ unfinished
  unfolding solve_loop has_request relay_request
  waits zero s check other no_context = refl
  waits (suc fuel) s check other no_context = ground (
    arith,
    body-miss net redis conn s other,
    no_context (looks conn ∷ s.relay.log),
    waits fuel (look conn s) check other no_context,
  )

  waits_first :
      (fuel : ℕ) (s : Solving W)
      → s.is_check ≡ false
      → str_eq s.context.request_method get_method ≡ false
      → ((log : List Call) → net.context log conn ≡ none)
      → (s' : Solving W) × (body net redis conn s ≡ some s')
        × (solve_loop net redis conn fuel s' ≡ unfinished)
  unfolding relay_request
  waits_first fuel s check other no_context = (
    opened net redis conn (look conn s),
    body-miss net redis conn s other
        ∙ ground (
          arith,
          no_context (looks conn ∷ s.relay.log),
          open_tunnel_lem net redis conn (look conn s),
        ),
    waits fuel (opened net redis conn (look conn s)) refl other no_context,
  )

  module _ (buff : Str) (n : ℕ) (ctx : HttpContext) (r : Relay W)
      (accepted : parse_request new_context buff ≡ some (true, n, ctx))
      (up : net.connected (looks conn ∷ r.log) conn ≡ true)
      (other : str_eq ctx.request_method get_method ≡ false) where
    -- If the parser accepts a request at the front of the buffer and finds more bytes behind it, the
    -- method is not `Get`, the client is connected, the connection to the web server is there, and
    -- the I/O loop leaves the connection's buffer as it was copied, then the call faults in its first
    -- round.
    pub pipelined_aborts :
        (fuel peer : ℕ)
        → n < length buff
        → ((log : List Call) → net.context log conn ≡ some peer)
        → ((log : List Call) → net.input log conn ≡ buff)
        → solve_on_message net redis conn (suc fuel) buff r ≡ faulted
    unfolding solve_on_message begin solve_loop
    pipelined_aborts fuel peer more ctx_set input = ground (
      arith,
      has_request-parsed net redis conn (begin buff r) true n ctx refl up accepted,
      aborts peer (parsed net redis conn (begin buff r) n ctx) refl other ctx_set more input,
    )

    -- If the parser accepts a request, the method is not `Get`, the client is connected when the call
    -- begins, and no connection to the web server ever comes, then `solveOnMessage` does not end,
    -- however much fuel it has, also if the client is disconnected meanwhile.
    pub spins_forever :
        (fuel : ℕ)
        → ((log : List Call) → net.context log conn ≡ none)
        → solve_on_message net redis conn fuel buff r ≡ unfinished
    unfolding solve_on_message begin solve_loop
    spins_forever zero no_context = refl
    spins_forever (suc fuel) no_context =
        let (s', e, w) =
          waits_first fuel (parsed net redis conn (begin buff r) n ctx) refl other no_context in
        ground (
          arith,
          has_request-parsed net redis conn (begin buff r) true n ctx refl up accepted,
          e,
          w,
        )
