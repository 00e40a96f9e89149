-- ===== src/Relay/Threads.antt =====
-- Pool threads that run `solveOnMessage` at the same time, between the callbacks of the I/O loops. The
-- test of the loop, its body and what follows the loop are each one move of a thread: what other
-- threads do inside of one of them, where the source takes no lock, is left out.
use enhanced_proxy.Common.{ℕ, ◌≡◌, Bool, Option, none, some, arith, update, if◌then◌else◌, Str}
use enhanced_proxy.Redis.{Hiredis}
use enhanced_proxy.Muduo.{Net}
use enhanced_proxy.Relay.{Relay, Solving, begin, has_request, body, close_dirty}
use enhanced_proxy.Relay.Routing.{IsRouted, body-IsRouted}
use enhanced_proxy.Relay.Events.{Event, Event-IsRouted, has_request-IsRouted, close_dirty-IsRouted}

-- Where a call of `solveOnMessage` stands: before the test, before the body, and behind the loop.
pub data Place : Type 0 where
  testing acting closing : Place

-- A call on its thread: its connection and its variables. The server in them is the one that the
-- thread has last seen.
pub record Running (W : Type 0) : Type 0 where
  pub conn : ℕ
  pub place : Place
  pub solving : Solving W

pub record Pool (W : Type 0) : Type 0 where
  pub relay : Relay W
  pub running : ℕ → Option (Running W)

-- The variables of a call with the server as it is now.
abbrev pub now : {W : Type 0} → Pool W → Running W → Solving W
now p c = record c.solving { relay = p.relay }

-- Where a move of thread `i` leaves the pool.
abbrev pub moved : {W : Type 0} → Pool W → ℕ → ℕ → Place → Solving W → Pool W
moved p i conn place s = record {
  relay = s.relay;
  running = update p.running i (some (record { conn = conn; place = place; solving = s }));
}

module _ {W : Type 0} (net : Net) (redis : Hiredis W) where
  pub data Step (p : Pool W) : Pool W → Type 0 where
    begins :
        (i conn : ℕ) (buff : Str)
        → p.running i ≡ none
        → Step p (moved p i conn testing (begin buff p.relay))
    tests :
        (i : ℕ) (c : Running W) (ok : Bool) {s : Solving W}
        → p.running i ≡ some c
        → c.place ≡ testing
        → has_request net redis c.conn (now p c) ≡ some (ok, s)
        → Step p (moved p i c.conn (if ok then acting else closing) s)
    acts :
        (i : ℕ) (c : Running W) {s : Solving W}
        → p.running i ≡ some c
        → c.place ≡ acting
        → body net redis c.conn (now p c) ≡ some s
        → Step p (moved p i c.conn testing s)
    closes :
        (i : ℕ) (c : Running W)
        → p.running i ≡ some c
        → c.place ≡ closing
        → Step p (record {
          relay = close_dirty net redis c.conn p.relay;
          running = update p.running i none;
        })
    io_loop : {r : Relay W} → Event net redis p.relay r → Step p (record p { relay = r })

  pub data Steps (p : Pool W) : Pool W → Type 0 where
    here : Steps p p
    next : {q t : Pool W} → Steps p q → Step q t → Steps p t

  Step-IsRouted : {p q : Pool W} → Step p q → IsRouted p.relay → IsRouted q.relay
  unfolding begin
  Step-IsRouted (begins i conn buff idle) h = h
  Step-IsRouted {p} (tests i c ok {s = s} at place e) h =
      has_request-IsRouted net redis c.conn (now p c) s ok h e
  Step-IsRouted {p} (acts i c {s = s} at place e) h = body-IsRouted net redis c.conn (now p c) s h e
  Step-IsRouted {p} (closes i c at place) h = close_dirty-IsRouted net redis c.conn p.relay h
  Step-IsRouted (io_loop e) h = Event-IsRouted net redis e h

  Steps-IsRouted : {p q : Pool W} → Steps p q → IsRouted p.relay → IsRouted q.relay
  Steps-IsRouted here h = h
  Steps-IsRouted (next ps st) h = Step-IsRouted st (Steps-IsRouted ps h)

  -- From a proxy server without tunnels, in every interleaving of pool threads that run
  -- `solveOnMessage`, each on any connection and any bytes, with the callbacks of the server and of
  -- its tunnels: the tunnel that the map holds for a connection was made for that connection and
  -- answers it, and no other connection has the same tunnel.
  pub routed_threads :
      {p q : Pool W} (conn t : ℕ)
      → ((c : ℕ) → p.relay.tunnels c ≡ none)
      → Steps p q
      → q.relay.tunnels conn ≡ some t
      → ((q.relay.objects t).server_conn ≡ some conn)
        × ((other : ℕ) → q.relay.tunnels other ≡ some t → other ≡ conn)
  routed_threads {p} {q} conn t empty ps e =
      let h : IsRouted q.relay = Steps-IsRouted ps (λ c u f. absurd (ground (arith, f, empty c))) in
      let (lt, own) = h conn t e in
      (own, λ other f. let (lt', own') = h other t f in ground (arith, own, own'))
