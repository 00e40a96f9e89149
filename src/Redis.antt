-- ===== src/Redis.antt =====
-- Cache/Redis.h: the second level of the cache, over the hiredis client.
-- hiredis and the server behind it are the parameter `Hiredis`. What the class allocates and frees
-- is counted, and the formats that it gives to `redisCommand` are listed, in a `Session` beside the outside world.
pub mod Commands
mod Tests
use enhanced_proxy.Common.{
  ℕ, zero, suc, ◌+◌, ◌-◌, Bool, true, false, Option, none, some, List, [], ◌∷◌, ◌++◌, ◌==◌,
  if◌then◌else◌, Str, codes,
}

-- `redisConnect`: no context, a context whose `err` is set, or one that is connected.
pub data Connected : Type 0 where
  null error connected : Connected

-- `redisReply`, by its member `str`, which is NULL for a reply that carries no text.
abbrev pub Reply : Type 0
Reply = Option Str

-- The two calls that reach the server, in a world `W`. A command's result is NULL or a reply. What
-- `redisCommand` is given is a printf-like format without arguments: what it makes of a `%` in it,
-- which reads an argument that is not there, is up to the parameter.
pub record Hiredis (W : Type 0) : Type 0 where
  pub connect : W → Connected × W
  pub command : W → Str → Option Reply × W

-- The contexts and replies that were allocated and not freed, and the formats that `redisCommand`
-- was given.
pub record Session (W : Type 0) : Type 0 where
  pub world : W
  pub contexts : ℕ
  pub replies : ℕ
  pub sent : List Str

-- `c_str()`, which a callee reads up to the first NUL.
unfoldable pub c_str : Str → Str
c_str [] = []
c_str (c ∷ l) = if c == 0 then [] else c ∷ c_str l

-- `DEFAULT_EXPIRED_TIME`, printed.
abbrev pub default_expired_time : Str
default_expired_time = codes "30"

abbrev pub auth_command : Str → Str
auth_command passwd = codes "auth " ++ passwd

abbrev pub setnx_command : Str → Str → Str
setnx_command url response = codes "setnx " ++ url ++ codes " \"" ++ response ++ codes "\""

abbrev pub expire_command : Str → Str
expire_command url = codes "expire " ++ url ++ codes " " ++ default_expired_time

-- `std::string(res.begin() + 1, res.end() - 1)`; `none` where that is no range.
unfoldable pub without_last : ℕ → Str → Str
without_last c [] = []
without_last c (d ∷ l) = c ∷ without_last d l

unfoldable pub strip : Str → Option Str
unfolding without_last
strip [] = none
strip (c ∷ []) = none
strip (c ∷ d ∷ l) = some (without_last d l)

module _ {W : Type 0} (redis : Hiredis W) where
  -- `redisCommand`; a reply that is not NULL is allocated.
  unfoldable pub redis_command : Session W → Str → Option Reply × Session W
  redis_command s text =
      let (reply, world') = redis.command s.world (c_str text) in
      (
        reply,
        record s {
          world = world';
          replies = elim reply [ none ↦ s.replies | some _ ↦ s.replies + 1 ];
          sent = s.sent ++ (c_str text ∷ []);
        },
      )

  -- `freeReplyObject` and `redisFree`
  unfoldable pub free_reply : Session W → Session W
  free_reply s = record s { replies = s.replies - 1 }

  unfoldable pub free_context : Session W → Session W
  free_context s = record s { contexts = s.contexts - 1 }

  -- `Connect`: whether it returns a context. One with an error is not returned and not freed.
  unfoldable pub connect : Session W → Bool × Session W
  connect s =
      let (c, world') = redis.connect s.world in
      elim c [
        | null ↦ (false, record s { world = world' })
        | error ↦ (false, record s { world = world'; contexts = s.contexts + 1 })
        | connected ↦ (true, record s { world = world'; contexts = s.contexts + 1 })
      ]

  -- `getAuth`: the text of the reply is compared and the outcome is not used.
  unfoldable pub get_auth : Str → Session W → Bool × Session W
  unfolding redis_command free_reply
  get_auth passwd s =
      let (reply, s') = redis_command s (auth_command passwd) in
      elim reply [ none ↦ (false, s') | some _ ↦ (true, free_reply s') ]

  -- `commandWrapper`: `freeReplyObject` of NULL does nothing, and another reply is not freed.
  unfoldable pub command_wrapper : Session W → Str → Bool × Session W
  unfolding redis_command
  command_wrapper s text =
      let (reply, s') = redis_command s text in
      elim reply [ none ↦ (false, s') | some _ ↦ (true, s') ]

  -- `&&` between calls of `commandWrapper`: the first that fails is the last.
  unfoldable pub all_commands : Session W → List Str → Bool × Session W
  all_commands s [] = (true, s)
  all_commands s (text ∷ texts) =
      let (ok, s') = command_wrapper s text in
      let rest = all_commands s' texts in if ok then rest else (false, s')

  -- `atomicUpdate`
  unfoldable pub atomic_update : Str → Str → Session W → Bool × Session W
  unfolding all_commands
  atomic_update url response s =
      all_commands s
        (codes "multi" ∷ setnx_command url response ∷ expire_command url ∷ codes "exec" ∷ [])

  -- `updateRedisCache` after `Connect`, and after `getAuth`.
  unfoldable pub update_connected : Str → Str → Str → Session W → Str × Session W
  unfolding atomic_update free_context
  update_connected passwd url response s =
      let (authed, s1) = get_auth passwd s in
      let (done, s2) = atomic_update url response s1 in
      if authed
      then (if done then (codes "OK", free_context s2) else (codes "FAIL", free_context s2))
      else ([], free_context s1)

  -- `updateRedisCache`
  unfoldable pub update_redis_cache : Str → Str → Str → Session W → Str × Session W
  unfolding update_connected
  update_redis_cache passwd url response s =
      let (ok, s') = connect s in if ok then update_connected passwd url response s' else ([], s')

  -- `readRedisCache` after `getAuth`; `none` is a fault: a string made of NULL, or one that is too
  -- short to lose its first and last byte.
  unfoldable pub read_authed : Str → Session W → Option (Str × Session W)
  unfolding redis_command free_reply free_context strip
  read_authed url s =
      let (reply, s') = redis_command s (codes "get " ++ url) in
      elim reply [
        | none ↦ some ([], free_context s')
        | some none ↦ none
        | some (some text) ↦ elim (strip (c_str text)) [
          | none ↦ none
          | some content ↦ some (content, free_context (free_reply s'))
        ]
      ]

  unfoldable pub read_connected : Str → Str → Session W → Option (Str × Session W)
  unfolding read_authed free_context
  read_connected passwd url s =
      let (authed, s') = get_auth passwd s in
      if authed then read_authed url s' else some ([], free_context s')

  -- `readRedisCache`
  unfoldable pub read_redis_cache : Str → Str → Session W → Option (Str × Session W)
  unfolding read_connected
  read_redis_cache passwd url s =
      let (ok, s') = connect s in if ok then read_connected passwd url s' else some ([], s')
