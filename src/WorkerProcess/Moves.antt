-- ===== src/WorkerProcess/Moves.antt =====
-- What each handler of a worker does to the byte of the mutex and to the worker's server.
use enhanced_proxy.Common.{
  ℕ, ◌≡◌, ◌≢◌, refl, Bool, true, false, some, ◌⊎◌, inl, inr, arith, Option-cases,
}
use mathlib.Core.Path.{subst}
use enhanced_proxy.EventLoopThreadPool.{get_next_loop}
use enhanced_proxy.ProcessMutex.{try_lock, unlock}
use enhanced_proxy.TcpServer
use enhanced_proxy.TcpServer.{
  TcpServer, Acceptor, Notice, quiet, notified, bad_function_call, new_server, new_connection,
  remove_connection_in_loop, erase_connection, balance, listen, enable_listen, disable_listen,
  acceptor_scheduling_handler, set_schedul_callback, is_crowded,
}
use enhanced_proxy.ProxyServer
use enhanced_proxy.ProxyServer.{
  ProxyServer, set_handler, set_io_thread_num, start_threads, try_listen,
}
use enhanced_proxy.WorkerProcess.{
  Shared, Worker, start, start_server, event_handler, accept, close, on_notice, acceptor_scheduling,
  next_event_fd,
}

pub record IsCoherent (p : ProxyServer) : Type 0 where
  pub listenning : p.server.acceptor.listenning ≡ p.owner
  pub reading : p.server.acceptor.reading ≡ p.owner
  pub started : p.server.started ≡ p.is_start

-- What a step does to the byte and to `owner`: nothing or the end of an owner, a lock, or an
-- unlock.
abbrev pub Moves : ℕ → Bool → ℕ → Bool → Type 0
Moves byte owner byte' owner' =
    ((byte' ≡ byte) × ((owner' ≡ owner) ⊎ (owner' ≡ false)))
    ⊎ (((byte ≡ 0) × (byte' ≡ 1) × (owner' ≡ true))
        ⊎ ((owner ≡ true) × (byte' ≡ 0) × (owner' ≡ false)))

start-listens :
    (now : ℕ) (threads : _) (s s' : TcpServer)
    → TcpServer.start now threads s ≡ some s'
    → s.started ≡ false
    → (s'.acceptor.listenning ≡ true) × (s'.acceptor.reading ≡ true) × (s'.started ≡ true)
unfolding TcpServer.start listen
start-listens now threads s s' e off = ground arith

enable-IsCoherent :
    (now : ℕ) (threads : _) (p p' : ProxyServer)
    → ProxyServer.enable_listen now threads (record p { owner = true }) ≡ some p'
    → p.owner ≡ false
    → IsCoherent p
    → IsCoherent p' × (p'.owner ≡ true)
unfolding ProxyServer.enable_listen acceptor_scheduling_handler enable_listen disable_listen
enable-IsCoherent now threads p p' e free c =
    elim (Option-cases (TcpServer.start now threads p.server)) [
      | inl fails ↦ (
        record {
          listenning = ground (arith, fails, free, c.listenning);
          reading = ground (arith, fails, free, c.reading, c.listenning);
          started = ground (arith, fails, c.started);
        },
        ground (arith, fails),
      )
      | inr (s, ok) ↦ (
        record {
          listenning =
              ground
                (arith, ok, free, c.listenning, c.started, start-listens now threads p.server s ok);
          reading =
              ground
                (arith, ok, free, c.listenning, c.started, start-listens now threads p.server s ok);
          started = ground (arith, ok, c.started, start-listens now threads p.server s ok);
        },
        ground (arith, ok),
      )
    ]

zero_or : (n : ℕ) → (n ≡ 0) ⊎ (n ≢ 0)
zero_or n = omega arith

free_owner : (byte : ℕ) (owner : Bool) → (owner ≡ true → byte ≡ 1) → byte ≡ 0 → owner ≡ false
free_owner byte true held e = absurd (ground (arith, held))
free_owner byte false held e = refl

start-locks :
    (now byte byte' : ℕ) (threads : _) (p p' : ProxyServer)
    → ProxyServer.start now threads byte p ≡ some (byte', p')
    → byte ≡ 0
    → (ProxyServer.enable_listen now threads (record (start_threads p) { owner = true }) ≡ some p')
      × (byte' ≡ 1)
unfolding ProxyServer.start try_listen try_lock
start-locks now byte byte' threads p p' e free =
    elim (Option-cases
      (ProxyServer.enable_listen now threads (record (start_threads p) { owner = true }))) [
        | inl fails ↦ absurd (ground (arith, fails))
        | inr (q, ok) ↦ ground (arith, ok)
      ]

start-waits :
    (now byte byte' : ℕ) (threads : _) (p p' : ProxyServer)
    → ProxyServer.start now threads byte p ≡ some (byte', p')
    → byte ≢ 0
    → (p' ≡ record (start_threads p) { owner = p.owner }) × (byte' ≡ byte)
unfolding ProxyServer.start try_listen try_lock start_threads
start-waits now byte byte' threads p p' e taken = ground arith

start-Moves :
    (now byte byte' : ℕ) (threads : _) (p p' : ProxyServer)
    → ProxyServer.start now threads byte p ≡ some (byte', p')
    → (p.owner ≡ true → byte ≡ 1)
    → IsCoherent p
    → IsCoherent p' × Moves byte p.owner byte' p'.owner
unfolding start_threads
start-Moves now byte byte' threads p p' e held c = elim (zero_or byte) [
  | inl free ↦
      let (on, locked) = start-locks now byte byte' threads p p' e free in
      let off = free_owner byte p.owner held free in
      let c' : IsCoherent (start_threads p) = record {
        listenning = c.listenning;
        reading = c.reading;
        started = c.started;
      } in
      let (coherent, owns) = enable-IsCoherent now threads (start_threads p) p' on off c' in
      (coherent, inr (inl (free, locked, owns)))
  | inr taken ↦
      let (same, byte-same) = start-waits now byte byte' threads p p' e taken in
      (
        record {
          listenning = ground (arith, same, c.listenning);
          reading = ground (arith, same, c.reading);
          started = ground (arith, same, c.started);
        },
        inl (byte-same, inl (ground (arith, same))),
      )
]

pub accept-Moves :
    (now : ℕ) (m m' : Shared) (w w' : Worker)
    → accept now m w ≡ some (m', w')
    → w.server.server.acceptor.reading ≡ true
    → m.byte ≡ 1
    → IsCoherent w.server
    → IsCoherent w'.server × Moves m.byte w.server.owner m'.byte w'.server.owner
unfolding accept on_notice acceptor_scheduling unlock new_connection balance
    acceptor_scheduling_handler disable_listen enable_listen
accept-Moves now m m' w w' e reading taken c =
    elim (Option-cases (get_next_loop w.server.server.pool)) [
      | inl fails ↦ absurd (ground (arith, fails))
      | inr ((io_loop, pool), ok) ↦ (
        record {
          listenning = ground (arith, ok, c.listenning, c.reading);
          reading = ground (arith, ok, c.listenning, c.reading);
          started = ground (arith, ok, c.started);
        },
        ground (arith, ok, c.reading),
      )
    ]

worker-Moves :
    (now : ℕ) (threads : _) (m : Shared) (w : Worker) (r : Shared × Worker)
    → start_server now threads m w ≡ some r
    → (w.server.owner ≡ true → m.byte ≡ 1)
    → IsCoherent w.server
    → IsCoherent r.1.server × Moves m.byte w.server.owner r.0.byte r.1.server.owner
unfolding start_server
worker-Moves now threads m w r e held c =
    elim (Option-cases (ProxyServer.start now threads m.byte w.server)) [
      | inl fails ↦ absurd (ground (arith, fails))
      | inr ((byte, p), ok) ↦
          let moved = start-Moves now m.byte byte threads w.server p ok held c in
          subst
            (λ (q : Shared × Worker).
              IsCoherent q.1.server × Moves m.byte w.server.owner q.0.byte q.1.server.owner)
            {x = (record m { byte = byte }, record w { server = p })} {y = r} (ground (arith, ok))
            moved
    ]

pub begin-Moves :
    (now : ℕ) (threads : _) (m : Shared) (w : Worker) (r : Shared × Worker)
    → start now threads m w ≡ some r
    → (w.server.owner ≡ true → m.byte ≡ 1)
    → IsCoherent w.server
    → IsCoherent r.1.server × Moves m.byte w.server.owner r.0.byte r.1.server.owner
unfolding start set_io_thread_num
begin-Moves now threads m w r e held c =
    worker-Moves now threads m (record w { server = set_io_thread_num 2 w.server }) r e held
      (record { listenning = c.listenning; reading = c.reading; started = c.started })

pub wake-Moves :
    (now : ℕ) (threads : _) (m : Shared) (w : Worker) (r : Shared × Worker)
    → event_handler now threads m w ≡ some r
    → (w.server.owner ≡ true → m.byte ≡ 1)
    → IsCoherent w.server
    → IsCoherent r.1.server × Moves m.byte w.server.owner r.0.byte r.1.server.owner
unfolding event_handler set_handler set_schedul_callback
wake-Moves now threads m w r e held c = elim (Option-cases (next_event_fd m w)) [
  | inl fails ↦ absurd (ground (arith, fails))
  | inr (fd, ok) ↦
      worker-Moves now threads m (record w { server = set_handler fd w.server }) r
        (ground (arith, ok)) held
        (record { listenning = c.listenning; reading = c.reading; started = c.started })
]

pub close-IsCoherent :
    (id : ℕ) (w w' : Worker)
    → close id w ≡ some w'
    → IsCoherent w.server
    → IsCoherent w'.server × (w'.server.owner ≡ w.server.owner)
unfolding close remove_connection_in_loop
close-IsCoherent id w w' e c =
    elim (Option-cases (erase_connection id w.server.server.connections)) [
      | inl fails ↦ absurd (ground (arith, fails))
      | inr (rest, ok) ↦ (
        record {
          listenning = ground (arith, ok, c.listenning);
          reading = ground (arith, ok, c.reading);
          started = ground (arith, ok, c.started);
        },
        ground (arith, ok),
      )
    ]
