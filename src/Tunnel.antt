-- ===== src/Tunnel.antt =====
-- ProxyServer/Tunnel.h: the tunnel between the connection of a client and the one to the web server.
-- `none` is a fault: a null pointer, the front of an empty queue, a string without its NUL, or
-- `abort`.
pub mod Flow
pub mod Responses
mod Tests
use enhanced_proxy.Common.{
  ℕ, Bool, true, false, Option, none, some, List, [], ◌∷◌, ◌++◌, ltb, ◌==◌, if◌then◌else◌, length,
  Str,
}
use enhanced_proxy.HttpContext.{is_response_complete}
use enhanced_proxy.Redis.{Hiredis}
use enhanced_proxy.Cache
use enhanced_proxy.Cache.{Cache}
use enhanced_proxy.Muduo.{
  ServerClient, server, client, Call, looks, set_tcp_no_delay, start_read, stop_read, shutdown,
  retrieve_all, set_connection_callback, set_message_callback, reset_connection_callback,
  reset_message_callback, send_object, set_context, set_high_water_mark_callback,
  set_write_complete_callback, Net,
}

-- The member `cache` is the cache of the proxy server, which is handed to the functions that use it.
pub record Tunnel : Type 0 where
  pub server_conn : Option ℕ
  pub client_conn : Option ℕ
  pub cache_queue : List (Str × Bool)

-- The constructor.
abbrev pub new_tunnel : ℕ → Tunnel
new_tunnel server_conn = record {
  server_conn = some server_conn;
  client_conn = none;
  cache_queue = [];
}

-- `setup` of the tunnel `self`.
unfoldable pub setup : ℕ → Tunnel → List Call → Option (List Call)
setup self t log = elim t.server_conn [
  | none ↦ none
  | some conn ↦ some (
      set_high_water_mark_callback conn self server
      ∷ set_message_callback self
      ∷ set_connection_callback self
      ∷ log)
]

unfoldable pub connect : ℕ → List Call → List Call
connect self log = Call.connect self ∷ log

unfoldable pub disconnect : ℕ → List Call → List Call
disconnect self log = Call.disconnect self ∷ log

unfoldable pub push_cache : Str → Bool → Tunnel → Tunnel
push_cache url can_cache t = record t { cache_queue = t.cache_queue ++ ((url, can_cache) ∷ []) }

unfoldable pub pop_cache : Tunnel → Tunnel
pop_cache t = elim t.cache_queue [ [] ↦ t | _ ∷ rest ↦ record t { cache_queue = rest } ]

-- `teardown`
unfoldable pub teardown : ℕ → Tunnel → List Call → Option (Tunnel × List Call)
teardown self t log = elim t.client_conn [
  | none ↦ none
  | some conn ↦
      let log' = reset_message_callback self ∷ reset_connection_callback conn ∷ log in
      some (
        record t { client_conn = none },
        elim t.server_conn [
          | none ↦ log'
          | some peer ↦ shutdown peer ∷ set_context peer none ∷ log'
        ],
      )
]

-- `onClientConnection`
unfoldable pub on_client_connection : Net → ℕ → ℕ → Tunnel → List Call → Option (Tunnel × List Call)
unfolding teardown
on_client_connection net self conn t log =
    let log' = looks conn ∷ log in
    if net.connected log' conn
    then elim t.server_conn [
      | none ↦ none
      | some peer ↦ some (
        record t { client_conn = some conn },
        set_context peer (some conn)
            ∷ set_high_water_mark_callback conn self client
            ∷ set_tcp_no_delay conn
            ∷ log',
      )
    ]
    else teardown self t log'

-- A std::string made of the pointer to the first byte: it ends before the first NUL.
unfoldable pub up_to_nul : Str → Option Str
up_to_nul [] = none
up_to_nul (b ∷ buff) =
    let rest = up_to_nul buff in
    if b == 0 then some [] else elim rest [ none ↦ none | some s ↦ some (b ∷ s) ]

-- `cache->writeCache`, if the response may be cached.
unfoldable pub store_response :
    {W : Type 0} → Hiredis W → ℕ → Str × Bool → Str → Cache W → Option (Cache W)
unfolding up_to_nul
store_response redis now (url, false) buff cache = some cache
store_response redis now (url, true) buff cache = elim (up_to_nul buff) [
  | none ↦ none
  | some response ↦ Cache.write_cache redis now url response cache
]

-- `onClientMessage` for a complete response, with the front of the queue. The `send` with a length
-- takes the Buffer pointer as a pointer to bytes.
unfoldable pub deliver :
    {W : Type 0}
    → Net
    → Hiredis W
    → ℕ
    → ℕ
    → Str × Bool
    → Tunnel
    → Cache W
    → List Call
    → Option (Tunnel × Cache W × List Call)
unfolding store_response pop_cache
deliver net redis conn peer front t cache log =
    let buff = net.input log conn in
    elim (store_response redis (net.time log) front buff cache) [
      | none ↦ none
      | some cache' ↦ some (pop_cache t, cache', send_object peer conn (length buff) ∷ log)
    ]

-- `onClientMessage`
unfoldable pub on_client_message :
    {W : Type 0}
    → Net
    → Hiredis W
    → ℕ
    → Tunnel
    → Cache W
    → List Call
    → Option (Tunnel × Cache W × List Call)
unfolding deliver
on_client_message net redis conn t cache log = elim t.server_conn [
  | none ↦ none
  | some peer ↦ elim t.cache_queue [
    | [] ↦ none
    | front ∷ _ ↦
        let log' = looks conn ∷ log in
        if is_response_complete (net.input log' conn)
        then deliver net redis conn peer front t cache log'
        else some (t, cache, log')
  ]
]

-- The part of `onHighWaterMark` for one end: if `full` has bytes to send, `other` stops reading
-- until they are written.
unfoldable pub hold_back :
    Net → ℕ → ServerClient → Option ℕ → Option ℕ → List Call → Option (List Call)
hold_back net self which full other log = elim full [
  | none ↦ none
  | some conn ↦
      let log' = looks conn ∷ log in
      if ltb 0 (net.output log' conn)
      then elim other [
        | none ↦ none
        | some peer ↦
            some (set_write_complete_callback conn (some (self, which)) ∷ stop_read peer ∷ log')
      ]
      else some log'
]

unfoldable pub on_high_water_mark : Net → ℕ → ServerClient → Tunnel → List Call → Option (List Call)
unfolding hold_back
on_high_water_mark net self server t log = hold_back net self server t.server_conn t.client_conn log
on_high_water_mark net self client t log = hold_back net self client t.client_conn t.server_conn log

-- The part of `onWriteComplete` for one end.
unfoldable pub let_go : Option ℕ → Option ℕ → List Call → Option (List Call)
let_go full other log = elim other [
  | none ↦ none
  | some peer ↦ elim full [
    | none ↦ none
    | some conn ↦ some (set_write_complete_callback conn none ∷ start_read peer ∷ log)
  ]
]

unfoldable pub on_write_complete : ServerClient → Tunnel → List Call → Option (List Call)
unfolding let_go
on_write_complete server t log = let_go t.server_conn t.client_conn log
on_write_complete client t log = let_go t.client_conn t.server_conn log

-- `onHighWaterMarkWeak` and `onWriteCompleteWeak`: nothing, if the tunnel is gone.
unfoldable pub on_high_water_mark_weak :
    Net → ℕ → ServerClient → Option Tunnel → List Call → Option (List Call)
unfolding on_high_water_mark
on_high_water_mark_weak net self which tunnel log = elim tunnel [
  | none ↦ some log
  | some t ↦ on_high_water_mark net self which t log
]

unfoldable pub on_write_complete_weak :
    ServerClient → Option Tunnel → List Call → Option (List Call)
unfolding on_write_complete
on_write_complete_weak which tunnel log = elim tunnel [
  | none ↦ some log
  | some t ↦ on_write_complete which t log
]
