-- ===== src/Relay/Tests.antt =====
-- The proxy server with one client, whose connection is 4.
mod Threads
use enhanced_proxy.Common.{
  ℕ, ◌+◌, ◌*◌, ◌≡◌, ◌≢◌, refl, true, false, Option, none, some, List, [], ◌∷◌, ◌++◌, Str, codes,
  str_eq, arith, update, if◌then◌else◌, length, ◌==◌, Bool-cases, Option-cases, inl, inr, ltb, suc,
  ◌≤◌,
}
use enhanced_proxy.HttpContext.{
  HttpContext, expect_body, new_context, parse_request, parse_request_line, search_crlf,
  split_colon, atoi, read_header,
}
use enhanced_proxy.HttpContext.Complete.{print_request, header_bytes, declared}
use enhanced_proxy.Lru
use enhanced_proxy.Lru.Valid.{with_new}
use enhanced_proxy.MemoryCache
use enhanced_proxy.Redis.{Hiredis, Connected}
use enhanced_proxy.Cache
use enhanced_proxy.Cache.{Cache}
use enhanced_proxy.Tunnel.{new_tunnel, push_cache}
use enhanced_proxy.Muduo.{Call, looks, send, retrieve, Net}
use enhanced_proxy.Relay.{
  Relay, is_empty, on_server_connection, returned, faulted, unfinished, solve_on_message, note,
  begin, has_request, body,
}
use enhanced_proxy.Relay.Replies.{forwards}
use enhanced_proxy.Relay.Failures.{pipelined_aborts, spins_forever}
use enhanced_proxy.Relay.Waiting.{waited}
use enhanced_proxy.Relay.Ends.{solve_ends}
use enhanced_proxy.Relay.Events.{server_connection}
use enhanced_proxy.Relay.Pipelines.{serve, serve_all, answers_all}
use enhanced_proxy.Relay.Routing.{IsRouted}
use enhanced_proxy.Relay.Threads.{
  Pool, Steps, here, next, begins, tests, acts, io_loop, routed_threads,
}
use enhanced_proxy.HttpContext.Pieces.{Message, IsMessage}
use enhanced_proxy.Common.{drop}
use enhanced_proxy.CircleQueue.{CircleQueue}
use enhanced_proxy.ThreadPool.{Producer, new_producer, new_consumer}
use enhanced_proxy.ThreadPool.Safety.{IsNew}
use enhanced_proxy.ThreadPool.Loop.{run_in_my_thread, run_all}
use enhanced_proxy.EventLoopThreadPool.{EventLoopThreadPool, new_pool, get_producer}
use enhanced_proxy.Relay.{Task}

abbrev pub offline : Hiredis ℕ
offline = record { connect = λ w. (Connected.null, w + 1); command = λ w text. (none, w + 1) }

abbrev pub fresh : Cache ℕ
unfolding MemoryCache.init
fresh = record {
  memory_cache = MemoryCache.init 2 0;
  passwd = codes "p";
  redis = record { world = 0; contexts = 0; replies = 0; sent = [] };
}

-- A cache that holds `A` for `/x`.
abbrev filled : Cache ℕ
unfolding MemoryCache.init Lru.init
filled = record fresh {
  memory_cache = record fresh.memory_cache {
    lists =
        update fresh.memory_cache.lists 0
          (with_new 50 (codes "/x") (codes "A") (fresh.memory_cache.lists 0));
  };
}

abbrev bytes : Str → Str
unfolding header_bytes
bytes method = print_request method (codes "/x") (codes "HTTP/1.1") (codes "Host: a" ∷ []) []

abbrev get : Str
unfolding header_bytes
get = bytes (codes "Get")

abbrev pub post : Str
unfolding header_bytes
post = bytes (codes "POST")

-- The buffer of the client's connection, which holds `buff` until something is taken out.
abbrev left : Str → List Call → Str
left buff [] = buff
left buff (retrieve c n ∷ log) = []
left buff (_ ∷ log) = left buff log

abbrev pub net : Str → Option ℕ → Net
net buff peer = record {
  connected = λ log c. true;
  context = λ log c. peer;
  input = λ log c. left buff log;
  output = λ log c. 0;
  time = λ log. 60;
  io_loop = λ c. 0;
}

abbrev pub relay : Cache ℕ → Relay ℕ
relay cache = record {
  tunnels = update (λ c. none) 4 (some 7);
  objects = λ t. new_tunnel 4;
  next = 8;
  cache = cache;
  log = [];
}

abbrev pub none_open : Relay ℕ
none_open = record (relay fresh) { tunnels = λ c. none; next = 0 }

abbrev found :
    (cache : Cache ℕ) × (Cache.read_cache offline 60 (codes "/x") filled ≡ some (codes "A", cache))
unfolding Cache.read_cache MemoryCache.read_cache MemoryCache.init Lru.init Lru.get str_eq
found = (_, refl)

-- The request for `/x`, as the abstract specification takes it.
abbrev asked : Message
asked = record {
  method = codes "Get";
  url = codes "/x";
  version = codes "HTTP/1.1";
  lines = codes "Host: a" ∷ [];
  bytes = [];
}

asked-IsMessage : IsMessage asked
unfolding header_bytes split_colon declared read_header str_eq
asked-IsMessage = record {
  method_word = omega arith;
  url_word = omega arith;
  url_there = λ h. cc;
  version_line = omega arith;
  headers = ((omega arith, λ h. cc), tt);
  whole = refl;
  small = omega arith;
}

-- The relay once the request is served.
abbrev relay_served : Relay ℕ
unfolding header_bytes
relay_served = record (relay filled) {
  cache = found.0;
  log = retrieve 4 (length get) ∷ send 4 (codes "A") ∷ looks 4 ∷ [];
}

serves : serve_all (net get none) offline 4 (asked ∷ []) (relay filled) ≡ some relay_served
unfolding serve_all serve header_bytes
serves = ground (arith, found.1)

-- The request, and the first bytes of the same one again.
answers_all_example :
    solve_on_message (net get none) offline 4 2 (get ++ codes "Get /x") (relay filled)
    ≡ returned (note (looks 4) (note (looks 4) relay_served))
unfolding header_bytes
answers_all_example =
    answers_all (net get none) offline 4 (asked ∷ []) asked (codes "Get /x") (drop 6 get) 2
      (relay filled) relay_served ((asked-IsMessage, refl), tt) asked-IsMessage refl (λ h. cc)
      serves (omega arith) (omega arith)

forwards_example :
    solve_on_message (net post (some 8)) offline 4 2 post (relay fresh)
    ≡ returned (record (relay fresh) {
      objects = update (relay fresh).objects 7 (push_cache (codes "/x") false (new_tunnel 4));
      log =
          looks 4
          ∷ looks 4
          ∷ retrieve 4 (length post)
          ∷ looks 4
          ∷ send 8 post
          ∷ looks 4
          ∷ looks 4
          ∷ looks 4
          ∷ looks 4
          ∷ [];
    })
unfolding header_bytes split_colon str_eq declared read_header
forwards_example =
    forwards (net post (some 8)) offline 4 (codes "/x") (codes "HTTP/1.1") (codes "Host: a" ∷ []) []
      (relay fresh) 0 refl (omega arith) (λ h. cc) (omega arith) ((omega arith, λ h. cc), tt) refl
      (codes "POST") 8 7 (omega arith) (omega arith) refl (λ log. refl) refl refl (omega arith)

-- The context after the request, which stands in front of another byte.
abbrev posted : HttpContext
posted = record new_context {
  state = expect_body;
  request_method = codes "POST";
  request_url = codes "/x";
}

accepted : parse_request new_context (post ++ codes "P") ≡ some (true, length post, posted)
unfolding parse_request parse_request_line header_bytes search_crlf split_colon atoi str_eq
accepted = refl

-- A net in which the I/O loop has not taken anything out.
abbrev still : Option ℕ → Net
still peer = record (net post peer) { input = λ log c. post ++ codes "P" }

pipelined_aborts_example :
    solve_on_message (still (some 8)) offline 4 9 (post ++ codes "P") (relay fresh) ≡ faulted
unfolding header_bytes str_eq
pipelined_aborts_example =
    pipelined_aborts (still (some 8)) offline 4 (post ++ codes "P") (length post) posted
      (relay fresh) accepted refl refl 8 8 (omega arith) (λ log. refl) (λ log. refl)

spins_forever_example :
    solve_on_message (still none) offline 4 9 (post ++ codes "P") (relay fresh) ≡ unfinished
unfolding header_bytes str_eq
spins_forever_example =
    spins_forever (still none) offline 4 (post ++ codes "P") (length post) posted (relay fresh)
      accepted refl refl 9 (λ log. refl)

-- A net that connects a tunnel before the third look at its client.
abbrev pub prompt : Str → Net
prompt buff = record (net buff none) {
  context =
      λ log c. elim (waited c log) [ none ↦ none | some k ↦ if ltb k 2 then none else some 8 ];
}

prompt_comes :
    (buff : Str) (log : List Call) (k : ℕ)
    → waited 4 log ≡ some k
    → 2 ≤ k
    → is_empty ((prompt buff).context log 4) ≡ false
prompt_comes buff log k e h = ground (arith, e, h)

prompt_stays :
    (buff : Str) (log : List Call)
    → is_empty ((prompt buff).context (looks 4 ∷ log) 4) ≡ false
    → is_empty ((prompt buff).context (looks 4 ∷ looks 4 ∷ log) 4) ≡ false
unfolding waited
prompt_stays buff log h = elim (Option-cases (waited 4 log)) [
  | inl never ↦ absurd (ground (arith, never))
  | inr (k, at) ↦ ground (arith, at)
]

solve_ends_example :
    solve_on_message (prompt post) offline 4 (4 * length post + 4) post none_open ≢ unfinished
unfolding header_bytes
solve_ends_example =
    solve_ends (prompt post) offline 4 2 (prompt_comes post) (prompt_stays post)
      (4 * length post + 4) post none_open (omega arith) (omega arith)
