-- ===== src/Redis/Commands.antt =====
-- Which commands an update and a read send, what they answer, and what they leave allocated.
use enhanced_proxy.Common.{
  ℕ, ◌+◌, ◌-◌, ◌≡◌, ◌≢◌, refl, true, some, List, [], ◌∷◌, ◌++◌, Str, codes, arith, inl, inr,
  Bool-cases, length, ap, ◌∙◌, append_assoc, append-nil, sym, All,
}
use enhanced_proxy.Redis.{
  error, Reply, Hiredis, Session, c_str, strip, without_last, redis_command, free_reply,
  free_context, connect, get_auth, command_wrapper, all_commands, update_connected,
  update_redis_cache, read_authed, read_connected, read_redis_cache, auth_command, setnx_command,
  expire_command,
}

-- The commands of `atomicUpdate`.
abbrev pub update_commands : Str → Str → List Str
update_commands url response =
    codes "multi" ∷ setnx_command url response ∷ expire_command url ∷ codes "exec" ∷ []

-- The formats that the calls of `redisCommand` get for some texts.
unfoldable pub formats : List Str → List Str
formats [] = []
formats (text ∷ texts) = c_str text ∷ formats texts

without_last-append : (c d : ℕ) (l : Str) → without_last c (l ++ (d ∷ [])) ≡ c ∷ l
unfolding without_last
without_last-append c d [] = refl
without_last-append c d (e ∷ l) = ap (◌∷◌ c) (without_last-append e d l)

strip-quoted : (content : Str) → strip (34 ∷ (content ++ (34 ∷ []))) ≡ some content
unfolding strip
strip-quoted [] = refl
strip-quoted (c ∷ l) = ap some (without_last-append c 34 l)

c_str-append :
    (content : Str) → All (λ c. c ≢ 0) content → c_str (content ++ (34 ∷ [])) ≡ content ++ (34 ∷ [])
unfolding c_str
c_str-append [] h = refl
c_str-append (c ∷ l) h = ground (arith, c_str-append l h.1, h.0)

quoted-c_str :
    (content : Str)
    → All (λ c. c ≢ 0) content
    → c_str (34 ∷ (content ++ (34 ∷ []))) ≡ 34 ∷ (content ++ (34 ∷ []))
unfolding c_str
quoted-c_str content h = ap (◌∷◌ 34) (c_str-append content h)

module _ {W : Type 0} (redis : Hiredis W) where
  wrapper-contexts :
      (s : Session W) (text : Str) → (command_wrapper redis s text).1.contexts ≡ s.contexts
  unfolding command_wrapper
  wrapper-contexts s text = ground arith

  wrapper-ok :
      (s : Session W) (text : Str)
      → (command_wrapper redis s text).0 ≡ true
      → ((command_wrapper redis s text).1.replies ≡ s.replies + 1)
        × ((command_wrapper redis s text).1.sent ≡ s.sent ++ (c_str text ∷ []))
  unfolding command_wrapper
  wrapper-ok s text e = ground arith

  all_commands-contexts :
      (s : Session W) (texts : List Str) → (all_commands redis s texts).1.contexts ≡ s.contexts
  unfolding all_commands
  all_commands-contexts s [] = refl
  all_commands-contexts s (text ∷ texts) =
      ground (
        arith,
        wrapper-contexts s text,
        all_commands-contexts (command_wrapper redis s text).1 texts,
      )

  all_commands-ok :
      (s : Session W) (texts : List Str)
      → (all_commands redis s texts).0 ≡ true
      → ((all_commands redis s texts).1.replies ≡ s.replies + length texts)
        × ((all_commands redis s texts).1.sent ≡ s.sent ++ formats texts)
  unfolding all_commands formats
  all_commands-ok s [] e = (omega arith, sym (append-nil s.sent))
  all_commands-ok s (text ∷ texts) e = elim (Bool-cases (command_wrapper redis s text).0) [
    | inl ok ↦
        let s' = (command_wrapper redis s text).1 in
        let now = wrapper-ok s text ok in
        let later = all_commands-ok s' texts (rw ok at e) in
        rw ok (
          omega (arith, later.0, now.0),
          later.1
              ∙ ap (λ l. l ++ formats texts) now.1
              ∙ append_assoc s.sent (c_str text ∷ []) (formats texts),
        )
    | inr bad ↦ absurd (ground arith)
  ]

  connect-ok :
      (s : Session W)
      → (connect redis s).0 ≡ true
      → ((connect redis s).1.contexts ≡ s.contexts + 1)
        × ((connect redis s).1.replies ≡ s.replies)
        × ((connect redis s).1.sent ≡ s.sent)
  unfolding connect
  connect-ok s e = ground arith

  auth-contexts : (passwd : Str) (s : Session W) → (get_auth redis passwd s).1.contexts ≡ s.contexts
  unfolding get_auth
  auth-contexts passwd s = ground arith

  auth-ok :
      (passwd : Str) (s : Session W)
      → (get_auth redis passwd s).0 ≡ true
      → ((get_auth redis passwd s).1.replies ≡ s.replies)
        × ((get_auth redis passwd s).1.sent ≡ s.sent ++ (c_str (auth_command passwd) ∷ []))
  unfolding get_auth
  auth-ok passwd s e = ground arith

  -- A connected update frees its context on every path.
  update_connected-contexts :
      (passwd url response : Str) (s : Session W)
      → (update_connected redis passwd url response s).1.contexts ≡ s.contexts - 1
  unfolding update_connected
  update_connected-contexts passwd url response s = ground (
    arith,
    auth-contexts passwd s,
    all_commands-contexts (get_auth redis passwd s).1
        (codes "multi" ∷ setnx_command url response ∷ expire_command url ∷ codes "exec" ∷ []),
  )

  connected-ok :
      (passwd url response : Str) (s : Session W)
      → (update_connected redis passwd url response s).0 ≡ codes "OK"
      → ((get_auth redis passwd s).0 ≡ true)
        × ((all_commands redis (get_auth redis passwd s).1 (update_commands url response)).0 ≡ true)
        × ((update_connected redis passwd url response s).1
            ≡ free_context redis
                (all_commands redis (get_auth redis passwd s).1 (update_commands url response)).1)
  unfolding update_connected
  connected-ok passwd url response s e = elim (Bool-cases (get_auth redis passwd s).0) [
    | inl a ↦
        elim (Bool-cases
          (all_commands redis (get_auth redis passwd s).1 (update_commands url response)).0) [
            | inl b ↦ (a, b, ground arith)
            | inr b ↦ absurd (ground arith)
          ]
    | inr a ↦ absurd (ground arith)
  ]

  update_connected-ok :
      (passwd url response : Str) (s : Session W)
      → (update_connected redis passwd url response s).0 ≡ codes "OK"
      → ((update_connected redis passwd url response s).1.sent
          ≡ s.sent ++ formats (auth_command passwd ∷ update_commands url response))
        × ((update_connected redis passwd url response s).1.replies ≡ s.replies + 4)
  unfolding free_context formats
  update_connected-ok passwd url response s e =
      let (authed, done, same) = connected-ok passwd url response s e in
      let first = auth-ok passwd s authed in
      let others =
        all_commands-ok (get_auth redis passwd s).1 (update_commands url response) done in
      rw same (
        others.1
            ∙ ap (λ l. l ++ formats (update_commands url response)) first.1
            ∙ append_assoc s.sent (c_str (auth_command passwd) ∷ [])
                (formats (update_commands url response)),
        omega (arith, others.0, first.0),
      )

  -- An update that answers OK has called `redisCommand` five times, for `auth`, `multi`, `setnx`,
  -- `expire` and `exec` in this order, each time with the text of the command up to its first NUL as
  -- the format; of the replies the last four stay allocated, and the context is freed.
  pub update-ok :
      (passwd url response : Str) (s : Session W)
      → (update_redis_cache redis passwd url response s).0 ≡ codes "OK"
      → ((update_redis_cache redis passwd url response s).1.sent
          ≡ s.sent ++ formats (auth_command passwd ∷ update_commands url response))
        × ((update_redis_cache redis passwd url response s).1.replies ≡ s.replies + 4)
        × ((update_redis_cache redis passwd url response s).1.contexts ≡ s.contexts)
  unfolding update_redis_cache
  update-ok passwd url response s e = elim (Bool-cases (connect redis s).0) [
    | inl ok ↦
        let s' = (connect redis s).1 in
        let opened = connect-ok s ok in
        let done = update_connected-ok passwd url response s' (rw ok at e) in
        rw ok (
          done.0
              ∙ ap (λ l. l ++ formats (auth_command passwd ∷ update_commands url response))
                  opened.2,
          omega (arith, done.1, opened.1),
          omega (arith, update_connected-contexts passwd url response s', opened.0),
        )
    | inr bad ↦ absurd (ground arith)
  ]

  read_connected-contexts :
      (passwd url : Str) (s : Session W) {r : Str × Session W}
      → read_connected redis passwd url s ≡ some r
      → r.1.contexts ≡ s.contexts - 1
  unfolding read_connected
  read_connected-contexts passwd url s e = ground (arith, auth-contexts passwd s)

  -- Whatever the server answers, an update frees the context that it works on: a context stays
  -- allocated only where `redisConnect` returned one with an error.
  update-contexts :
      (passwd url response : Str) (s : Session W)
      → (update_redis_cache redis passwd url response s).1.contexts
        ≡ (elim (redis.connect s.world).0 [ error ↦ s.contexts + 1 | _ ↦ s.contexts ])
  unfolding update_redis_cache connect
  update-contexts passwd url response s =
      ground (arith, update_connected-contexts passwd url response (connect redis s).1)

  read_authed-quoted :
      (url content : Str) (s : Session W)
      → (redis_command redis s (codes "get " ++ url)).0 ≡ some (some (34 ∷ (content ++ (34 ∷ []))))
      → All (λ c. c ≢ 0) content
      → read_authed redis url s
        ≡ some (
          content,
          free_context redis (free_reply redis (redis_command redis s (codes "get " ++ url)).1),
        )
  unfolding read_authed
  read_authed-quoted url content s reply clean =
      ground (arith, quoted-c_str content clean, strip-quoted content)

  command-reply :
      (s : Session W) (text : Str) {r : Reply}
      → (redis_command redis s text).0 ≡ some r
      → ((redis_command redis s text).1.replies ≡ s.replies + 1)
        × ((redis_command redis s text).1.contexts ≡ s.contexts)
        × ((redis_command redis s text).1.sent ≡ s.sent ++ (c_str text ∷ []))
  unfolding redis_command
  command-reply s text e = ground arith

  -- If the connection and the authentication succeed, a read whose reply is a text without NUL in a
  -- pair of quotes returns the text between them; it calls `redisCommand` for `auth` and for `get`,
  -- each time with the text of the command up to its first NUL as the format, and leaves nothing
  -- allocated.
  pub read-quoted :
      (passwd url content : Str) (s : Session W)
      → (connect redis s).0 ≡ true
      → (get_auth redis passwd (connect redis s).1).0 ≡ true
      → (redis_command redis (get_auth redis passwd (connect redis s).1).1 (codes "get " ++ url)).0
        ≡ some (some (34 ∷ (content ++ (34 ∷ []))))
      → All (λ c. c ≢ 0) content
      → (s' : Session W) × (read_redis_cache redis passwd url s ≡ some (content, s'))
        × (s'.contexts ≡ s.contexts)
        × (s'.replies ≡ s.replies)
        × (s'.sent ≡ s.sent ++ formats (auth_command passwd ∷ (codes "get " ++ url) ∷ []))
  unfolding read_redis_cache read_connected free_context free_reply formats
  read-quoted passwd url content s ok authed reply clean =
      let opened = connect-ok s ok in
      let s1 = (connect redis s).1 in
      let first = auth-ok passwd s1 authed in
      let s2 = (get_auth redis passwd s1).1 in
      let answered = command-reply s2 (codes "get " ++ url) reply in
      (
        free_context redis (free_reply redis (redis_command redis s2 (codes "get " ++ url)).1),
        rw (ok, authed) (read_authed-quoted url content s2 reply clean),
        omega (arith, answered.1, auth-contexts passwd s1, opened.0),
        omega (arith, answered.0, first.0, opened.1),
        answered.2
            ∙ ap (λ l. l ++ (c_str (codes "get " ++ url) ∷ []))
                (first.1 ∙ ap (λ l. l ++ (c_str (auth_command passwd) ∷ [])) opened.2)
            ∙ append_assoc s.sent (c_str (auth_command passwd) ∷ [])
                (c_str (codes "get " ++ url) ∷ []),
      )
