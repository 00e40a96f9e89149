-- ===== src/Relay/Rounds.antt =====
-- What one round of the loop of `solveOnMessage` does, branch by branch.
use enhanced_proxy.Common.{
  ℕ, ◌+◌, ◌≤◌, ◌≡◌, Bool, true, false, not, some, ◌∷◌, arith, length, take, drop, update, Str,
  str_eq,
}
use enhanced_proxy.HttpContext.{HttpContext, reset, get_method, create_response, parse_request}
use enhanced_proxy.Redis.{Hiredis}
use enhanced_proxy.Cache
use enhanced_proxy.Cache.{Cache}
use enhanced_proxy.Tunnel.{new_tunnel, push_cache}
use enhanced_proxy.Muduo.{
  server, Call, looks, send, retrieve, set_connection_callback, set_message_callback,
  set_high_water_mark_callback, Net,
}
use enhanced_proxy.Relay.{
  note, Solving, look, has_request, read_content, answer, open_tunnel, forward, relay_request, body,
}

-- The state after a look, a parse, a cached answer, a new tunnel and a request that is sent on.
module _ {W : Type 0} (net : Net) (redis : Hiredis W) (conn : ℕ) (s : Solving W) where
  abbrev pub parsed : ℕ → HttpContext → Solving W
  parsed n ctx = record (look conn s) { context = ctx; used = n }

  abbrev pub answered : Str → Solving W
  answered content = record s {
    relay = note (retrieve conn s.used) (note (send conn content) s.relay);
    buff = drop s.used s.buff;
    context = reset s.context;
    is_check = false;
  }

  abbrev pub opened : Solving W
  opened = record s {
    relay = record s.relay {
      tunnels = update s.relay.tunnels conn (some s.relay.next);
      objects = update s.relay.objects s.relay.next (new_tunnel conn);
      next = s.relay.next + 1;
      log =
          Call.connect s.relay.next
          ∷ set_high_water_mark_callback conn s.relay.next server
          ∷ set_message_callback s.relay.next
          ∷ set_connection_callback s.relay.next
          ∷ s.relay.log;
    };
    is_check = true;
  }

  abbrev pub forwarded : ℕ → ℕ → Solving W
  forwarded peer t = record s {
    relay = record s.relay {
      objects =
          update s.relay.objects t
            (push_cache s.context.request_url (not s.context.has_cookie) (s.relay.objects t));
      log = retrieve conn s.used ∷ looks conn ∷ send peer (take s.used s.buff) ∷ s.relay.log;
    };
    context = reset s.context;
    buff = drop s.used s.buff;
    is_check = false;
  }

  pub has_request-parsed :
      (ok : Bool) (n : ℕ) (ctx : HttpContext)
      → s.is_check ≡ false
      → net.connected (looks conn ∷ s.relay.log) conn ≡ true
      → parse_request s.context s.buff ≡ some (ok, n, ctx)
      → has_request net redis conn s ≡ some (ok, parsed n ctx)
  unfolding has_request
  has_request-parsed ok n ctx e c p = ground arith

  pub answer_lem :
      (content : Str)
      → s.used ≤ length s.buff
      → answer net redis conn content s ≡ some (answered content)
  unfolding answer create_response
  answer_lem content h = ground arith

  pub open_tunnel_lem : open_tunnel net redis conn s ≡ some opened
  unfolding open_tunnel
  open_tunnel_lem = ground arith

  pub forward_lem :
      (peer t : ℕ)
      → s.relay.tunnels conn ≡ some t
      → s.used ≤ length s.buff
      → str_eq
          (net.input (looks conn ∷ send peer (take s.used s.buff) ∷ s.relay.log) conn)
          (take s.used s.buff)
        ≡ true
      → forward net redis conn peer s ≡ some (forwarded peer t)
  unfolding forward
  forward_lem peer t e h same = ground arith

  pub body-miss :
      str_eq s.context.request_method get_method ≡ false
      → body net redis conn s ≡ relay_request net redis conn s
  unfolding body
  body-miss e = ground arith

  pub body-hit :
      (b : ℕ) (content : Str) (cache : Cache W)
      → str_eq s.context.request_method get_method ≡ true
      → Cache.read_cache redis (net.time s.relay.log) s.context.request_url s.relay.cache
        ≡ some (b ∷ content, cache)
      → body net redis conn s
        ≡ answer net redis conn
            (b ∷ content)
            (record s { relay = record s.relay { cache = cache } })
  unfolding body read_content
  body-hit b content cache get e = ground arith
