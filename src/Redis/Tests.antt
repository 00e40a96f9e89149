-- ===== src/Redis/Tests.antt =====
-- Redis with a server that answers every command alike.
use enhanced_proxy.Common.{ℕ, ◌+◌, ◌≡◌, refl, some, [], ◌∷◌, codes, arith}
use enhanced_proxy.Redis.{
  connected, Hiredis, Session, connect, get_auth, redis_command, update_redis_cache,
  read_redis_cache, auth_command, command_wrapper,
}
use enhanced_proxy.Redis.Commands.{update-ok, read-quoted, update_commands, formats}

-- The server quotes a text in each of its answers; the world is the number of commands so far.
abbrev echo : Hiredis ℕ
echo = record {
  connect = λ w. (connected, w);
  command = λ w text. (some (some (codes "\"page\"")), w + 1);
}

abbrev quiet : Session ℕ
quiet = record { world = 0; contexts = 0; replies = 0; sent = [] }

update-ok_example :
    ((update_redis_cache echo (codes "p") (codes "/a") (codes "A") quiet).1.sent
      ≡ formats (auth_command (codes "p") ∷ update_commands (codes "/a") (codes "A")))
    × ((update_redis_cache echo (codes "p") (codes "/a") (codes "A") quiet).1.replies ≡ 4)
    × ((update_redis_cache echo (codes "p") (codes "/a") (codes "A") quiet).1.contexts ≡ 0)
unfolding update_redis_cache connect get_auth command_wrapper
update-ok_example = update-ok echo (codes "p") (codes "/a") (codes "A") quiet refl

read-quoted_example :
    (s' : Session ℕ) × (read_redis_cache echo (codes "p") (codes "/a") quiet
      ≡ some (codes "page", s'))
    × (s'.contexts ≡ 0)
    × (s'.replies ≡ 0)
    × (s'.sent ≡ formats (auth_command (codes "p") ∷ codes "get /a" ∷ []))
unfolding connect get_auth redis_command
read-quoted_example =
    read-quoted echo (codes "p") (codes "/a") (codes "page") quiet refl refl refl (omega arith)
