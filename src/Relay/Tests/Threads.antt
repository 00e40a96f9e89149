-- ===== src/Relay/Tests/Threads.antt =====
-- Two clients, and threads of the pool that run at the same time.
use enhanced_proxy.Common.{
  ℕ, ◌≡◌, refl, true, false, none, some, [], ◌∷◌, codes, str_eq, arith, update, if◌then◌else◌, ◌==◌,
  Bool-cases, inl, inr,
}
use enhanced_proxy.HttpContext.{
  parse_request, parse_request_line, search_crlf, split_colon, atoi, read_header,
}
use enhanced_proxy.HttpContext.Complete.{header_bytes, declared}
use enhanced_proxy.Tunnel.{new_tunnel}
use enhanced_proxy.Relay.{
  Relay, on_server_connection, returned, solve_on_message, begin, has_request, body,
}
use enhanced_proxy.Relay.Replies.{forwards}
use enhanced_proxy.Relay.Waiting.{waited}
use enhanced_proxy.Relay.Events.{server_connection}
use enhanced_proxy.Relay.Routing.{IsRouted}
use enhanced_proxy.Relay.Clients.{Untouched}
use enhanced_proxy.Relay.Others.{solve_on_message-Untouched}
use enhanced_proxy.Relay.Threads.{
  Pool, Steps, here, next, begins, tests, acts, io_loop, routed_threads,
}
use enhanced_proxy.Relay.Tests.{offline, fresh, post, net, relay, none_open, prompt}

-- The client 5 has the tunnel 6.
abbrev two_clients : Relay ℕ
two_clients = record (relay fresh) {
  tunnels = update (update (λ c. none) 4 (some 7)) 5 (some 6);
  objects = λ t. new_tunnel (if t == 7 then 4 else 5);
}

two_clients-IsRouted : IsRouted two_clients
two_clients-IsRouted c t e = elim (Bool-cases (5 == c)) [
  | inl five ↦ (ground (arith, e, five), ground (arith, e, five))
  | inr other ↦ elim (Bool-cases (4 == c)) [
    | inl four ↦ (ground (arith, e, other, four), ground (arith, e, other, four))
    | inr none_left ↦ absurd (ground (arith, e, other, none_left))
  ]
]

-- The request of client 4 is sent on.
abbrev sent_on :
    (r : Relay ℕ) × (solve_on_message (net post (some 8)) offline 4 2 post two_clients ≡ returned r)
unfolding header_bytes split_colon str_eq declared read_header
sent_on = (
  _,
  forwards (net post (some 8)) offline 4 (codes "/x") (codes "HTTP/1.1") (codes "Host: a" ∷ []) []
      two_clients 0 refl (omega arith) (λ h. cc) (omega arith) ((omega arith, λ h. cc), tt) refl
      (codes "POST") 8 7 (omega arith) (omega arith) refl (λ log. refl) refl refl (omega arith),
)

solve_on_message-Untouched_example : Untouched 5 two_clients sent_on.0
unfolding header_bytes split_colon str_eq declared read_header
solve_on_message-Untouched_example =
    solve_on_message-Untouched (net post (some 8)) offline 4 5 (omega arith)
      (λ log e. ground (arith, e)) 2 post two_clients sent_on.0 two_clients-IsRouted sent_on.1

abbrev lone : Pool ℕ
lone = record { relay = two_clients; running = λ i. none }

-- The client connects and posts, and two threads of the pool run the task and an empty one: both
-- pass the test of the loop or leave it before the first one makes tunnel 0.
abbrev idle : Pool ℕ
idle = record { relay = none_open; running = λ i. none }

abbrev interleaved : (p : Pool ℕ) × Steps (prompt post) offline idle p
unfolding parse_request parse_request_line header_bytes search_crlf split_colon atoi str_eq waited
    on_server_connection begin has_request body
interleaved = (
  _,
  next
      (next
        (next
          (next (next (next here (io_loop (server_connection 4))) (begins 0 4 post refl))
            (begins 1 5 [] refl))
          (tests 0 _ true refl refl refl))
        (tests 1 _ false refl refl refl))
      (acts 0 _ refl refl refl),
)

routed_threads_example :
    ((interleaved.0.relay.objects 0).server_conn ≡ some 4)
    × ((other : ℕ) → interleaved.0.relay.tunnels other ≡ some 0 → other ≡ 4)
unfolding parse_request parse_request_line header_bytes search_crlf split_colon atoi str_eq waited
    on_server_connection begin has_request body
routed_threads_example = routed_threads (prompt post) offline 4 0 (λ c. refl) interleaved.1 refl
