-- ===== src/Relay/Progress.antt =====
-- The rounds of the loop of `solveOnMessage`, each of which leaves fewer.
use enhanced_proxy.Common.{
  ℕ, suc, ◌+◌, ◌*◌, ◌≤◌, ◌<◌, ◌≡◌, refl, ap, ◌∙◌, Bool, true, false, some, ◌∷◌, arith, length, drop,
  length-drop, Str, str_eq, inl, inr, Bool-cases, Option-cases,
}
use mathlib.Core.Path.{subst}
use enhanced_proxy.HttpContext.{HttpContext, get_method}
use enhanced_proxy.HttpContext.Total.{IsWithin, parse_request_total}
use enhanced_proxy.Redis.{Hiredis}
use enhanced_proxy.Cache
use enhanced_proxy.Muduo.{looks, Net}
use enhanced_proxy.Relay.{
  Solving, look, is_empty, has_request, read_content, answer, forward, ask_twice,
}
use enhanced_proxy.Relay.Rounds.{parsed, opened}
use enhanced_proxy.Relay.Waiting.{
  waited, waited-looks, allowance, rounds_left, IsSane, IsReady, Goes, cut-fewer,
}

within_true :
    (n : ℕ) (r : Bool × ℕ × HttpContext) → r.0 ≡ true → IsWithin n r → (0 < r.1) × (r.1 ≤ n)
within_true n (true, used, ctx) e h = h
within_true n (false, used, ctx) e h = cc

module _ {W : Type 0} (net : Net) (redis : Hiredis W) (conn delay : ℕ) where
  pub has_request-IsReady :
      (s s' : Solving W)
      → IsSane conn s
      → has_request net redis conn s ≡ some (true, s')
      → IsReady conn s' × (rounds_left delay conn s' ≡ rounds_left delay conn s)
  unfolding has_request
  has_request-IsReady s s' h e = elim (Bool-cases s.is_check) [
    | inl waiting ↦
        let same : s ≡ s' = ground (arith, waiting) in
        subst
          (λ (q : Solving W).
            IsReady conn q × (rounds_left delay conn q ≡ rounds_left delay conn s))
          same
          (
            record {
              small = h.small;
              asked = h.asked;
              some_used = h.some_used waiting;
              all_used = h.all_used waiting;
            },
            refl,
          )
    | inr free ↦
        let ((ok, n, ctx), returns, within) = parse_request_total s.context s.buff h.small in
        elim (Bool-cases ok) [
          | inl accepts ↦ elim (Bool-cases (net.connected (looks conn ∷ s.relay.log) conn)) [
            | inl up ↦
                let (some_used, all_used) =
                  within_true (length s.buff) (ok, n, ctx) accepts within in
                let same : parsed net redis conn s n ctx ≡ s' =
                  ground (arith, free, up, returns, accepts) in
                subst
                  (λ (q : Solving W).
                    IsReady conn q × (rounds_left delay conn q ≡ rounds_left delay conn s))
                  same
                  (
                    record {
                      small = h.small;
                      asked = λ c. absurd (ground (arith, free, c));
                      some_used = some_used;
                      all_used = all_used;
                    },
                    ground (arith, free),
                  )
            | inr down ↦ absurd (ground (arith, free, down))
          ]
          | inr not_ok ↦ absurd (ground (arith, free, returns, not_ok))
        ]
  ]

  cut_fewer_lem :
      (s s' : Solving W)
      → s'.is_check ≡ false
      → (delay + 2) * length s'.buff + (delay + 1) < rounds_left delay conn s
      → rounds_left delay conn s' < rounds_left delay conn s
  cut_fewer_lem s s' check h = ground (arith, check, h)

  -- A round that takes the request out of the buffer.
  cut-Goes :
      (s s' : Solving W)
      → IsReady conn s
      → s'.is_check ≡ false
      → s'.buff ≡ drop s.used s.buff
      → Goes delay conn s s'
  cut-Goes s s' h check cut =
      let len = ap length cut ∙ length-drop s.used s.buff in
      record {
        sane = record {
          small = omega (arith, len, h.small);
          asked = λ c. absurd (ground (arith, check, c));
          some_used = λ c. absurd (ground (arith, check, c));
          all_used = λ c. absurd (ground (arith, check, c));
        };
        fewer = cut_fewer_lem s s' check (
            cut-fewer delay (length s.buff) (length s'.buff) s.used (allowance delay conn s)
              h.some_used h.all_used len);
      }

  pub answer-Goes :
      (content : Str) (s s' : Solving W)
      → IsReady conn s
      → answer net redis conn content s ≡ some s'
      → Goes delay conn s s'
  unfolding answer
  answer-Goes content s s' h e =
      cut-Goes s s' h (ground (arith, h.all_used)) (ground (arith, h.all_used))

  forward-Goes :
      (peer : ℕ) (s s' : Solving W)
      → IsReady conn s
      → forward net redis conn peer s ≡ some s'
      → Goes delay conn s s'
  unfolding forward
  forward-Goes peer s s' h e = elim (Option-cases (s.relay.tunnels conn)) [
    | inl missing ↦ absurd (ground (arith, missing))
    | inr (t, found) ↦
        cut-Goes s s' h (ground (arith, found, h.all_used)) (ground (arith, found, h.all_used))
  ]

  pub look-IsReady : (s : Solving W) → IsReady conn s → IsReady conn (look conn s)
  look-IsReady s h = record {
    small = h.small;
    asked = λ c. let (k, at) = h.asked c in (suc k, waited-looks conn k s.relay.log at);
    some_used = h.some_used;
    all_used = h.all_used;
  }

  -- A look that finds no connection yet.
  pub look-Goes :
      (s : Solving W) (k : ℕ)
      → IsReady conn s
      → s.is_check ≡ true
      → waited conn s.relay.log ≡ some k
      → k < delay
      → Goes delay conn s (look conn s)
  look-Goes s k h waiting at soon =
      let ready = look-IsReady s h in
      record {
        sane = record {
          small = ready.small;
          asked = ready.asked;
          some_used = λ c. ready.some_used;
          all_used = λ c. ready.all_used;
        };
        fewer = ground (arith, waiting, at, soon, waited-looks conn k s.relay.log at);
      }

  pub look-fewer :
      (s : Solving W)
      → IsReady conn s
      → rounds_left delay conn (look conn s) ≤ rounds_left delay conn s
  look-fewer s h = elim (Bool-cases s.is_check) [
    | inl waiting ↦
        let (k, at) = h.asked waiting in
        ground (arith, waiting, at, waited-looks conn k s.relay.log at)
    | inr free ↦ ground (arith, free)
  ]

  -- The two questions behind the first one, if the first of them finds a connection.
  pub asked-Goes :
      (s s' : Solving W)
      → IsReady conn s
      → is_empty (net.context (looks conn ∷ s.relay.log) conn) ≡ false
      → ask_twice net redis conn s ≡ some s'
      → Goes delay conn s s'
  unfolding ask_twice
  asked-Goes s s' h second e =
      elim (Option-cases (net.context (looks conn ∷ looks conn ∷ s.relay.log) conn)) [
        | inl missing ↦ absurd (ground (arith, second, missing))
        | inr (peer, there) ↦
            let g =
              forward-Goes peer (look conn (look conn s)) s'
                (look-IsReady (look conn s) (look-IsReady s h)) (ground (arith, second, there)) in
            record {
              sane = g.sane;
              fewer =
                  omega
                    (arith, g.fewer, look-fewer s h, look-fewer (look conn s) (look-IsReady s h));
            }
      ]

  pub opened-Goes :
      (s : Solving W)
      → IsReady conn s
      → s.is_check ≡ false
      → Goes delay conn s (opened net redis conn (look conn s))
  unfolding waited
  opened-Goes s h check = record {
    sane = record {
      small = h.small;
      asked = λ c. (0, ground arith);
      some_used = λ c. h.some_used;
      all_used = λ c. h.all_used;
    };
    fewer = ground (arith, check);
  }

  pub read_content-IsReady :
      (s : Solving W) (content : Str) (s1 : Solving W)
      → IsReady conn s
      → read_content net redis conn s ≡ some (content, s1)
      → IsReady conn s1 × (rounds_left delay conn s1 ≡ rounds_left delay conn s)
  unfolding read_content
  read_content-IsReady s content s1 h e =
      elim (Bool-cases (str_eq s.context.request_method get_method)) [
        | inl get ↦
            elim (Option-cases
              (Cache.read_cache redis (net.time s.relay.log) s.context.request_url s.relay.cache)) [
                | inl fails ↦ absurd (ground (arith, get, fails))
                | inr ((found, cache), ok) ↦
                    let same : record s { relay = record s.relay { cache = cache } } ≡ s1 =
                      ground (arith, get, ok) in
                    subst
                      (λ (q : Solving W).
                        IsReady conn q × (rounds_left delay conn q ≡ rounds_left delay conn s))
                      same
                      (
                        record {
                          small = h.small;
                          asked = h.asked;
                          some_used = h.some_used;
                          all_used = h.all_used;
                        },
                        refl,
                      )
              ]
        | inr other ↦
            let same : s ≡ s1 = ground (arith, other) in
            subst
              (λ (q : Solving W).
                IsReady conn q × (rounds_left delay conn q ≡ rounds_left delay conn s))
              same (h, refl)
      ]
