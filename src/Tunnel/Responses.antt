-- ===== src/Tunnel/Responses.antt =====
-- What becomes of the web server's responses.
use enhanced_proxy.Common.{ℕ, zero, suc, ◌≡◌, refl, Bool, Option, none, some, List, ◌∷◌, arith, Str}
use enhanced_proxy.HttpContext.{is_response_complete}
use enhanced_proxy.Redis.{Hiredis}
use enhanced_proxy.Cache.{Cache}
use enhanced_proxy.Muduo.{Call, looks, Net}
use enhanced_proxy.Tunnel.{Tunnel, on_client_message}

-- The tunnel after `n` calls of `onClientMessage`.
unfoldable on_client_messages :
    {W : Type 0}
    → Net
    → Hiredis W
    → ℕ
    → ℕ
    → Tunnel
    → Cache W
    → List Call
    → Option (Tunnel × Cache W × List Call)
on_client_messages net redis zero conn t cache log = some (t, cache, log)
on_client_messages net redis (suc n) conn t cache log =
    elim (on_client_messages net redis n conn t cache log) [
      | none ↦ none
      | some (t', cache', log') ↦ on_client_message net redis conn t' cache' log'
    ]

unfoldable looked : ℕ → ℕ → List Call → List Call
looked zero conn log = log
looked (suc n) conn log = looks conn ∷ looked n conn log

module _ {W : Type 0} (net : Net) (redis : Hiredis W) (conn peer : ℕ) (front : Str × Bool)
    (rest : List (Str × Bool)) (t : Tunnel) (cache : Cache W)
    (has_server : t.server_conn ≡ some peer) (waiting : t.cache_queue ≡ front ∷ rest) where
  dropped :
      (log : List Call)
      → on_client_message net redis conn t cache log ≡ some (t, cache, looks conn ∷ log)
  unfolding on_client_message is_response_complete
  dropped log = ground (arith, has_server, waiting)

  -- However often the web server sends bytes, and whatever they are, while a request waits for its
  -- response: nothing is sent to the client, taken out of the buffer or written to the cache, and
  -- the request goes on waiting. All that the calls do is to look at the buffer.
  responses_dropped :
      (n : ℕ) (log : List Call)
      → on_client_messages net redis n conn t cache log ≡ some (t, cache, looked n conn log)
  unfolding on_client_messages looked
  responses_dropped zero log = refl
  responses_dropped (suc n) log = rw (responses_dropped n log) (dropped (looked n conn log))
