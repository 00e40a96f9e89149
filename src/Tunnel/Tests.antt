-- ===== src/Tunnel/Tests.antt =====
-- A tunnel between the connections 1 and 2.
use enhanced_proxy.Common.{ℕ, ◌+◌, ◌≡◌, refl, true, false, some, none, List, [], ◌∷◌, codes, arith}
use enhanced_proxy.MemoryCache
use enhanced_proxy.Redis.{Hiredis, Connected}
use enhanced_proxy.Cache.{Cache}
use enhanced_proxy.Muduo.{
  server, client, Call, looks, start_read, stop_read, set_write_complete_callback, send_object, Net,
}
use enhanced_proxy.Tunnel.{
  Tunnel, hold_back, let_go, on_high_water_mark, on_write_complete, store_response, up_to_nul,
  pop_cache, deliver,
}
use enhanced_proxy.Tunnel.Flow.{
  fills, drains_server, Steps, here, next, IsGuarded, is_paused, resumes, guarded,
}

abbrev offline : Hiredis ℕ
offline = record { connect = λ w. (Connected.null, w + 1); command = λ w text. (none, w + 1) }

abbrev fresh : Cache ℕ
unfolding MemoryCache.init
fresh = record {
  memory_cache = MemoryCache.init 2 0;
  passwd = codes "p";
  redis = record { world = 0; contexts = 0; replies = 0; sent = [] };
}

-- Connections whose output buffers hold 5 bytes and whose input is a response.
abbrev net : Net
net = record {
  connected = λ log c. true;
  context = λ log c. none;
  input = λ log c. codes "HTTP";
  output = λ log c. 5;
  time = λ log. 50;
  io_loop = λ c. 0;
}

abbrev tunnel : Tunnel
tunnel = record {
  server_conn = some 1;
  client_conn = some 2;
  cache_queue = (codes "/x", true) ∷ [];
}

abbrev paused : List Call
paused = set_write_complete_callback 1 (some (9, server)) ∷ stop_read 2 ∷ looks 1 ∷ []

abbrev resumed : List Call
resumed = set_write_complete_callback 1 none ∷ start_read 2 ∷ paused

-- Connection 1 fills up, and empties again.
abbrev run : Steps net 9 1 2 tunnel [] resumed
unfolding on_high_water_mark on_write_complete hold_back let_go resumes
run = next (next here (fills server refl)) (drains_server refl refl)

paused_between : is_paused 2 paused ≡ true
unfolding is_paused
paused_between = refl

guarded_example : IsGuarded 9 server 1 2 resumed × IsGuarded 9 client 2 1 resumed
unfolding resumes is_paused on_high_water_mark on_write_complete hold_back let_go
guarded_example = guarded net 9 1 2 tunnel refl refl (λ e. omega arith) refl refl run

-- What a complete response would send: its first bytes would be those of the Buffer object.
deliver_run :
    deliver net offline 1 1 (codes "/x", false) tunnel fresh []
    ≡ some (record tunnel { cache_queue = [] }, fresh, send_object 1 1 4 ∷ [])
unfolding deliver store_response pop_cache MemoryCache.init
deliver_run = refl

up_to_nul_run : up_to_nul (72 ∷ 84 ∷ 0 ∷ 80 ∷ []) ≡ some (72 ∷ 84 ∷ [])
unfolding up_to_nul
up_to_nul_run = refl

no_nul : up_to_nul (72 ∷ 84 ∷ []) ≡ none
unfolding up_to_nul
no_nul = refl
