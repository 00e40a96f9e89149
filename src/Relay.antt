-- ===== src/Relay.antt =====
-- ProxyServer/ProxyServer.{h,cpp}, the callbacks: requests come in on the connections of clients, and
-- are answered from the cache or sent on through a tunnel. muduo is the parameter `Net`, and a
-- connection's name is its number.
pub mod Rounds
pub mod Requests
pub mod Replies
pub mod Failures
pub mod Waiting
pub mod Progress
pub mod Ends
pub mod Routing
pub mod Events
pub mod Pipelines
pub mod Threads
pub mod Calls
pub mod Clients
pub mod Others
mod Tests
use enhanced_proxy.Common.{
  ℕ, zero, suc, ◌+◌, ◌*◌, Bool, true, false, not, ◌&&◌, Option, none, some, List, [], ◌∷◌, ltb, leb,
  ◌==◌, if◌then◌else◌, length, take, drop, update, Str, str_eq,
}
use enhanced_proxy.CircleQueue.{CircleQueue}
use enhanced_proxy.ThreadPool.{Producer, produce}
use enhanced_proxy.HttpContext.{
  HttpContext, new_context, reset, get_method, create_response, parse_request,
}
use enhanced_proxy.Redis.{Hiredis}
use enhanced_proxy.Cache
use enhanced_proxy.Cache.{Cache}
use enhanced_proxy.EventLoopThreadPool.{EventLoopThreadPool, get_producer}
use enhanced_proxy.Tunnel
use enhanced_proxy.Tunnel.{Tunnel, new_tunnel, push_cache, setup, connect, disconnect}
use enhanced_proxy.Muduo.{
  Call, looks, set_tcp_no_delay, start_read, shutdown, force_close_with_delay, send, retrieve, Net,
}

-- The tunnels are objects with an address; `tunnels` maps the name of a connection to a tunnel.
pub record Relay (W : Type 0) : Type 0 where
  pub tunnels : ℕ → Option ℕ
  pub objects : ℕ → Tunnel
  pub next : ℕ
  pub cache : Cache W
  pub log : List Call

abbrev pub note : {W : Type 0} → Call → Relay W → Relay W
note c r = record r { log = c ∷ r.log }

-- `disconnect` and `erase` for the tunnel of a connection, if it has one.
unfoldable pub close_tunnel : {W : Type 0} → ℕ → Relay W → Relay W
close_tunnel conn r = elim (r.tunnels conn) [
  | none ↦ r
  | some t ↦ record r { tunnels = update r.tunnels conn none; log = disconnect t r.log }
]

-- `onServerConnection`
unfoldable pub on_server_connection : {W : Type 0} → Net → ℕ → Relay W → Relay W
unfolding close_tunnel disconnect
on_server_connection net conn r =
    if net.connected (looks conn ∷ r.log) conn
    then (if ltb 1 (1024 * 1024 * 256)
        then note (start_read conn) (note (set_tcp_no_delay conn) (note (looks conn) r))
        else note (force_close_with_delay conn) (note (shutdown conn) (note (looks conn) r)))
    else close_tunnel conn (note (looks conn) r)

-- What `onServerMessage` binds: `solveOnMessage` with a connection and the bytes of its buffer.
pub record Task : Type 0 where
  pub conn : ℕ
  pub buff : Str

-- `onServerMessage`: the producer behind the pointer of the connection's loop, if one is there, and
-- the queue. `none` is the access through a pointer to no producer; what `write` returns is dropped.
unfoldable pub on_server_message :
    Net
    → EventLoopThreadPool
    → ℕ
    → List Call
    → (ℕ → Option Producer) × CircleQueue Task
    → Option ((ℕ → Option Producer) × CircleQueue Task)
on_server_message net pool conn log (producers, queue) =
    elim (get_producer pool (net.io_loop conn)) [
      | none ↦ some (producers, queue)
      | some p ↦ elim (producers p) [
        | none ↦ none
        | some producer ↦
            let buff = net.input (looks conn ∷ log) conn in
            let (ok, producer', queue') =
              produce producer queue (record { conn = conn; buff = buff }) in
            some (update producers p (some producer'), queue')
      ]
    ]

-- The variables of `solveOnMessage` with the objects that it reaches; `used` is `info.second`.
pub record Solving (W : Type 0) : Type 0 where
  pub relay : Relay W
  pub context : HttpContext
  pub buff : Str
  pub is_check : Bool
  pub used : ℕ

abbrev pub look : {W : Type 0} → ℕ → Solving W → Solving W
look conn s = record s { relay = note (looks conn) s.relay }

-- The state in which the loop begins.
unfoldable pub begin : {W : Type 0} → Str → Relay W → Solving W
begin buff r = record { relay = r; context = new_context; buff = buff; is_check = false; used = 0 }

-- `buff.erase(buff.begin(), buff.begin() + n)`; `none` is a range that the buffer does not have.
unfoldable pub erase_front : ℕ → Str → Option Str
erase_front n buff = if leb n (length buff) then some (drop n buff) else none

-- `empty` of a connection's context.
abbrev pub is_empty : Option ℕ → Bool
is_empty none = true
is_empty (some peer) = false

-- How a call ends: it returns, it faults, or it has not ended when the fuel runs out.
pub data Outcome (A : Type 0) : Type 0 where
  returned : A → Outcome A
  faulted : Outcome A
  unfinished : Outcome A

module _ {W : Type 0} (net : Net) (redis : Hiredis W) (conn : ℕ) where
  -- The condition of the `while`; the parser leaves its result in the variables.
  unfoldable pub has_request : Solving W → Option (Bool × Solving W)
  has_request s =
      if s.is_check
      then some (true, s)
      else (if net.connected (looks conn ∷ s.relay.log) conn
          then elim (parse_request s.context s.buff) [
            | none ↦ none
            | some (ok, n, ctx) ↦ some (ok, record (look conn s) { context = ctx; used = n })
          ]
          else some (false, look conn s))

  -- The read of the cache, which is made for one method only.
  unfoldable pub read_content : Solving W → Option (Str × Solving W)
  read_content s =
      if str_eq s.context.request_method get_method
      then elim (Cache.read_cache redis (net.time s.relay.log) s.context.request_url
          s.relay.cache) [
            | none ↦ none
            | some (content, cache) ↦
                some (content, record s { relay = record s.relay { cache = cache } })
          ]
      else some ([], s)

  -- The branch for a response from the cache.
  unfoldable pub answer : Str → Solving W → Option (Solving W)
  unfolding create_response reset erase_front
  answer content s = elim (erase_front s.used s.buff) [
    | none ↦ none
    | some buff ↦ some (record s {
      relay = note (retrieve conn s.used) (note (send conn (create_response content)) s.relay);
      buff = buff;
      context = reset s.context;
      is_check = false;
    })
  ]

  -- The branch that makes a tunnel.
  unfoldable pub open_tunnel : Solving W → Option (Solving W)
  unfolding setup connect
  open_tunnel s =
      let r = s.relay in
      let t = new_tunnel conn in
      elim (setup r.next t r.log) [
        | none ↦ none
        | some log ↦ some (record s {
          relay = record r {
            tunnels = update r.tunnels conn (some r.next);
            objects = update r.objects r.next t;
            next = r.next + 1;
            log = connect r.next log;
          };
          is_check = true;
        })
      ]

  -- The branch that sends the request on over `peer`. The assertion compares the bytes that it
  -- sends with all bytes in the connection's buffer.
  unfoldable pub forward : ℕ → Solving W → Option (Solving W)
  unfolding push_cache reset erase_front
  forward peer s =
      let r = s.relay in
      elim (r.tunnels conn) [
        | none ↦ none
        | some t ↦
            let log = looks conn ∷ send peer (take s.used s.buff) ∷ r.log in
            elim (erase_front s.used s.buff) [
              | none ↦ none
              | some buff ↦
                  if str_eq (net.input log conn) (take s.used s.buff)
                  then some (record s {
                    relay = record r {
                      objects = update r.objects t (
                          push_cache s.context.request_url (not s.context.has_cookie)
                            (r.objects t));
                      log = retrieve conn s.used ∷ log;
                    };
                    context = reset s.context;
                    buff = buff;
                    is_check = false;
                  })
                  else none
            ]
      ]

  -- The last branch: the condition of the `else if`, and the call of `any_cast`, which throws on an
  -- empty context. Each call of `getContext` asks anew.
  unfoldable pub ask_twice : Solving W → Option (Solving W)
  unfolding forward
  ask_twice s =
      let s' = look conn s in
      if is_empty (net.context s'.relay.log conn)
      then some s'
      else (let s'' = look conn s' in
          elim (net.context s''.relay.log conn) [ none ↦ none | some peer ↦ forward peer s'' ])

  -- The body of the loop behind the cache.
  unfoldable pub relay_request : Solving W → Option (Solving W)
  unfolding open_tunnel ask_twice
  relay_request s =
      if s.is_check
      then ask_twice s
      else (let s' = look conn s in
          if is_empty (net.context s'.relay.log conn) then open_tunnel s' else ask_twice s')

  -- The body of the loop.
  unfoldable pub body : Solving W → Option (Solving W)
  unfolding read_content answer relay_request
  body s = elim (read_content s) [
    | none ↦ none
    | some ([], s') ↦ relay_request s'
    | some (b ∷ content, s') ↦ answer (b ∷ content) s'
  ]

  -- The `while`, with its fuel.
  unfoldable pub solve_loop : ℕ → Solving W → Outcome (Solving W)
  unfolding has_request body
  solve_loop zero s = unfinished
  solve_loop (suc fuel) s = elim (has_request s) [
    | none ↦ faulted
    | some (false, s') ↦ returned s'
    | some (true, s') ↦ elim (body s') [ none ↦ faulted | some s'' ↦ solve_loop fuel s'' ]
  ]

  -- What follows the loop.
  unfoldable pub close_dirty : Relay W → Relay W
  unfolding close_tunnel
  close_dirty r =
      if ltb (1024 * 1024 * 10) (length (net.input (looks conn ∷ r.log) conn))
      then note (force_close_with_delay conn)
          (note (shutdown conn) (close_tunnel conn (note (looks conn) r)))
      else note (looks conn) r

  -- `solveOnMessage`
  unfoldable pub solve_on_message : ℕ → Str → Relay W → Outcome (Relay W)
  unfolding begin solve_loop close_dirty
  solve_on_message fuel buff r = elim (solve_loop fuel (begin buff r)) [
    | returned s ↦ returned (close_dirty s.relay)
    | faulted ↦ faulted
    | unfinished ↦ unfinished
  ]
