-- ===== src/Tunnel/Flow.antt =====
-- Back pressure between the two connections of a tunnel.
use enhanced_proxy.Common.{
  ℕ, ◌≡◌, ◌≢◌, refl, not, sym, Bool, true, false, Option, none, some, List, [], ◌∷◌, ◌==◌,
  if◌then◌else◌, arith, Bool-cases, inl, inr, ◌⊎◌, ltb,
}
use enhanced_proxy.Muduo.{
  ServerClient, server, client, Call, looks, start_read, stop_read, set_write_complete_callback,
  Net,
}
use enhanced_proxy.Tunnel.{Tunnel, hold_back, let_go, on_high_water_mark, on_write_complete}

-- Whether the last call on the reading of a connection stopped it.
unfoldable pub is_paused : ℕ → List Call → Bool
is_paused c [] = false
is_paused c (start_read d ∷ log) = if d == c then false else is_paused c log
is_paused c (stop_read d ∷ log) = if d == c then true else is_paused c log
is_paused c (_ ∷ log) = is_paused c log

-- The write-complete callback of a connection.
unfoldable pub resumes : ℕ → List Call → Option (ℕ × ServerClient)
resumes c [] = none
resumes c (set_write_complete_callback d callback ∷ log) =
    if d == c then callback else resumes c log
resumes c (_ ∷ log) = resumes c log

-- The callback of `full` is the one that lets `peer` read again, while `peer` has stopped reading,
-- and none otherwise.
abbrev pub IsGuarded : ℕ → ServerClient → ℕ → ℕ → List Call → Type 0
IsGuarded self which full peer log =
    resumes full log ≡ (if is_paused peer log then some (self, which) else none)

-- Whether a call neither starts nor stops the reading of a connection, nor sets its write-complete
-- callback.
unfoldable pub spares : ℕ → Call → Bool
spares c (start_read d) = not (d == c)
spares c (stop_read d) = not (d == c)
spares c (set_write_complete_callback d callback) = not (d == c)
spares c _ = true

module _ (net : Net) (self s c : ℕ) (t : Tunnel) where
  -- The events of a tunnel with both connections: the high-water mark of one of them, and the end of
  -- the writing of one whose callback is set. In between there may be any other calls of muduo that neither
  -- start nor stop the reading of the two, nor set their write-complete callbacks.
  pub data Step (log : List Call) : List Call → Type 0 where
    fills :
        (which : ServerClient) {log' : List Call}
        → on_high_water_mark net self which t log ≡ some log'
        → Step log log'
    drains_server :
        {log' : List Call}
        → resumes s log ≡ some (self, server)
        → on_write_complete server t log ≡ some log'
        → Step log log'
    drains_client :
        {log' : List Call}
        → resumes c log ≡ some (self, client)
        → on_write_complete client t log ≡ some log'
        → Step log log'
    others : (call : Call) → spares s call ≡ true → spares c call ≡ true → Step log (call ∷ log)

  pub data Steps (log : List Call) : List Call → Type 0 where
    here : Steps log log
    next : {log' log'' : List Call} → Steps log log' → Step log' log'' → Steps log log''

-- A call that spares a connection.
spared :
    (d : ℕ) (call : Call) (log : List Call)
    → spares d call ≡ true
    → (is_paused d (call ∷ log) ≡ is_paused d log) × (resumes d (call ∷ log) ≡ resumes d log)
unfolding spares is_paused resumes
spared d (start_read e) log h = (ground (arith, h), refl)
spared d (stop_read e) log h = (ground (arith, h), refl)
spared d (set_write_complete_callback e callback) log h = (refl, ground (arith, h))
spared d (looks e) log h = (refl, refl)
spared d (Call.set_tcp_no_delay e) log h = (refl, refl)
spared d (Call.shutdown e) log h = (refl, refl)
spared d (Call.force_close_with_delay e) log h = (refl, refl)
spared d (Call.retrieve_all e) log h = (refl, refl)
spared d (Call.connect e) log h = (refl, refl)
spared d (Call.disconnect e) log h = (refl, refl)
spared d (Call.set_connection_callback e) log h = (refl, refl)
spared d (Call.set_message_callback e) log h = (refl, refl)
spared d (Call.reset_connection_callback e) log h = (refl, refl)
spared d (Call.reset_message_callback e) log h = (refl, refl)
spared d (Call.send e text) log h = (refl, refl)
spared d (Call.send_object e f n) log h = (refl, refl)
spared d (Call.retrieve e n) log h = (refl, refl)
spared d (Call.set_context e peer) log h = (refl, refl)
spared d (Call.set_high_water_mark_callback e f which) log h = (refl, refl)

-- What `hold_back` does to both ends.
module _ (net : Net) (self : ℕ) (which : ServerClient) (full peer : ℕ) (log log' : List Call) where
  Held : Type 0
  Held =
      (is_paused full log' ≡ is_paused full log)
      × (resumes peer log' ≡ resumes peer log)
      × (((is_paused peer log' ≡ is_paused peer log) × (resumes full log' ≡ resumes full log))
          ⊎ ((is_paused peer log' ≡ true) × (resumes full log' ≡ some (self, which))))

  hold_back-Held :
      full ≢ peer → hold_back net self which (some full) (some peer) log ≡ some log' → Held
  unfolding hold_back is_paused resumes Held
  hold_back-Held ne e = elim (Bool-cases (ltb 0 (net.output (looks full ∷ log) full))) [
    | inl more ↦ (
      ground (arith, more),
      ground (arith, more),
      inr (ground (arith, more), ground (arith, more)),
    )
    | inr done ↦ (
      ground (arith, done),
      ground (arith, done),
      inl (ground (arith, done), ground (arith, done)),
    )
  ]

  let_go-free :
      full ≢ peer
      → let_go (some full) (some peer) log ≡ some log'
      → (is_paused full log' ≡ is_paused full log)
        × (resumes peer log' ≡ resumes peer log)
        × (is_paused peer log' ≡ false)
        × (resumes full log' ≡ none)
  unfolding let_go is_paused resumes
  let_go-free ne e = (ground arith, ground arith, ground arith, ground arith)

module _ (net : Net) (self s c : ℕ) (t : Tunnel) (has_server : t.server_conn ≡ some s)
    (has_client : t.client_conn ≡ some c) (two : s ≢ c) where
  abbrev AreGuarded : List Call → Type 0
  AreGuarded log = IsGuarded self server s c log × IsGuarded self client c s log

  fills-AreGuarded :
      (which : ServerClient) (log log' : List Call)
      → on_high_water_mark net self which t log ≡ some log'
      → AreGuarded log
      → AreGuarded log'
  unfolding on_high_water_mark Held
  fills-AreGuarded server log log' e g =
      let h =
        hold_back-Held net self server s c log log' two (ground (arith, has_server, has_client)) in
      (ground (arith, h), ground (arith, h))
  fills-AreGuarded client log log' e g =
      let h =
        hold_back-Held net self client c s log log' (λ e. two (sym e))
          (ground (arith, has_server, has_client)) in
      (ground (arith, h), ground (arith, h))

  Step-AreGuarded :
      {log log' : List Call} → Step net self s c t log log' → AreGuarded log → AreGuarded log'
  unfolding on_write_complete
  Step-AreGuarded {log} {log'} (fills which e) g = fills-AreGuarded which log log' e g
  Step-AreGuarded {log} {log'} (drains_server set e) g =
      let h =
        let_go-free net self server s c log log' two (ground (arith, has_server, has_client)) in
      (ground (arith, h), ground (arith, h))
  Step-AreGuarded {log} {log'} (drains_client set e) g =
      let h =
        let_go-free net self client c s log log' (λ e. two (sym e))
          (ground (arith, has_server, has_client)) in
      (ground (arith, h), ground (arith, h))
  Step-AreGuarded {log} (others call a b) g =
      let at_server = spared s call log a in
      let at_client = spared c call log b in
      (ground (arith, g, at_server, at_client), ground (arith, g, at_server, at_client))

  -- Through all high-water marks and ends of writing of a tunnel with two different connections, as
  -- long as nothing else starts or stops the reading of the two or sets their write-complete
  -- callbacks, as `onServerConnection` does when a client comes, while other calls of muduo may
  -- stand in between, from a state in which it is so: each connection has stopped
  -- reading exactly while the write-complete callback of the other one is set, and that callback is
  -- the one of this tunnel that lets it read again.
  pub guarded :
      {log log' : List Call}
      → IsGuarded self server s c log
      → IsGuarded self client c s log
      → Steps net self s c t log log'
      → IsGuarded self server s c log' × IsGuarded self client c s log'
  guarded g h here = (g, h)
  guarded g h (next r st) = Step-AreGuarded st (guarded g h r)
