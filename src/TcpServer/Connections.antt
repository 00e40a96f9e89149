-- ===== src/TcpServer/Connections.antt =====
-- The connection table stays a table of distinct names.
use mathlib.Core.Path.{subst}
use enhanced_proxy.Common.{
  ℕ, ◌+◌, ◌%◌, ◌^◌, ◌<◌, ◌≡◌, ◌≢◌, refl, sym, ap, none, some, List, ◌∷◌, arith, inl, inr,
  Option-cases, All,
}
use enhanced_proxy.EventLoopThreadPool.{get_next_loop, LoopThread}
use enhanced_proxy.TcpServer
use enhanced_proxy.TcpServer.{
  TcpServer, Notice, new_server, new_connection, balance, acceptor_scheduling_handler,
  erase_connection, remove_connection_in_loop, set_schedul_callback,
}
use enhanced_proxy.TcpServer.Erase.{
  AreBelow, AreDistinct, erase-All, erase-AreDistinct, erase_absent, absent_after, All-weaken,
  head_erased,
}

-- The handlers of a server in any order, as long as the number of the next connection does not
-- overflow.
pub data Step (s : TcpServer) : TcpServer → Type 0 where
  starts :
      (now : ℕ) (threads : ℕ → LoopThread) {t : TcpServer}
      → TcpServer.start now threads s ≡ some t
      → Step s t
  schedules : (now : ℕ) → Step s (acceptor_scheduling_handler now s)
  binds : (fd : ℕ) → Step s (set_schedul_callback fd s)
  opens :
      (now : ℕ) {notice : Notice} {t : TcpServer}
      → s.next_conn_id + 1 < 2 ^ 31
      → new_connection now s ≡ some (notice, t)
      → Step s t
  closes : (id : ℕ) {t : TcpServer} → remove_connection_in_loop id s ≡ some t → Step s t

pub data Steps (s : TcpServer) : TcpServer → Type 0 where
  here : Steps s s
  next : {t u : TcpServer} → Steps s t → Step t u → Steps s u

record IsTable (s : TcpServer) : Type 0 where
  below : AreBelow s.next_conn_id s.connections
  distinct : AreDistinct s.connections

-- What the handlers but `newConnection` and `removeConnectionInLoop` leave.
kept-IsTable :
    (s t : TcpServer)
    → t.connections ≡ s.connections
    → t.next_conn_id ≡ s.next_conn_id
    → IsTable s
    → IsTable t
unfolding AreBelow
kept-IsTable s t same id h = record {
  below =
      subst (λ n. All (λ (c : ℕ × ℕ). c.0 < n) t.connections) (sym id)
        (subst (All (λ (c : ℕ × ℕ). c.0 < s.next_conn_id)) (sym same) h.below);
  distinct = subst AreDistinct (sym same) h.distinct;
}

-- The table after `newConnection`.
opened :
    (now : ℕ) (notice : Notice) (s t : TcpServer)
    → new_connection now s ≡ some (notice, t)
    → (io_loop : ℕ) × (t.connections ≡ (s.next_conn_id, io_loop) ∷ s.connections)
      × (t.next_conn_id ≡ (s.next_conn_id + 1) % 2 ^ 32)
unfolding new_connection balance acceptor_scheduling_handler
opened now notice s t e = elim (Option-cases (get_next_loop s.pool)) [
  | inl fails ↦ absurd (ground (arith, fails))
  | inr ((io_loop, pool), ok) ↦ (io_loop, ground (arith, ok), ground (arith, ok))
]

not_below : (n : ℕ) (l : List (ℕ × ℕ)) → AreBelow n l → All (λ (d : ℕ × ℕ). d.0 ≢ n) l
unfolding AreBelow
not_below n l h =
    All-weaken (λ (c : ℕ × ℕ). c.0 < n) (λ (c : ℕ × ℕ). c.0 ≢ n) l (λ c lt. omega arith) h

opened-IsTable :
    (now : ℕ) (notice : Notice) (s t : TcpServer)
    → s.next_conn_id + 1 < 2 ^ 31
    → new_connection now s ≡ some (notice, t)
    → IsTable s
    → IsTable t
unfolding AreBelow AreDistinct
opened-IsTable now notice s t small e h =
    let (io_loop, table, wrapped) = opened now notice s t e in
    let id : t.next_conn_id ≡ s.next_conn_id + 1 = omega (arith, wrapped, small) in
    let below : All (λ (c : ℕ × ℕ). c.0 < s.next_conn_id + 1) s.connections =
      All-weaken (λ (c : ℕ × ℕ). c.0 < s.next_conn_id) (λ (c : ℕ × ℕ). c.0 < s.next_conn_id + 1)
        s.connections (λ c lt. omega arith) h.below in
    record {
      below =
          subst (λ n. All (λ (c : ℕ × ℕ). c.0 < n) t.connections) (sym id)
            (subst (All (λ (c : ℕ × ℕ). c.0 < s.next_conn_id + 1)) (sym table)
              (omega arith, below));
      distinct =
          subst AreDistinct (sym table)
            (not_below s.next_conn_id s.connections h.below, h.distinct);
    }

closed :
    (id : ℕ) (s t : TcpServer)
    → remove_connection_in_loop id s ≡ some t
    → (erase_connection id s.connections ≡ some t.connections)
      × (t ≡ record s { connections = t.connections })
unfolding remove_connection_in_loop
closed id s t e = elim (Option-cases (erase_connection id s.connections)) [
  | inl fails ↦ absurd (ground (arith, fails))
  | inr (rest, ok) ↦ (ground (arith, ok), ground (arith, ok))
]

closed-IsTable :
    (id : ℕ) (s t : TcpServer) → remove_connection_in_loop id s ≡ some t → IsTable s → IsTable t
unfolding AreBelow
closed-IsTable id s t e h =
    let (ok, same) = closed id s t e in
    record {
      below =
          subst (λ n. All (λ (c : ℕ × ℕ). c.0 < n) t.connections)
            (sym (ap (λ (u : TcpServer). u.next_conn_id) same))
            (erase-All (λ (c : ℕ × ℕ). c.0 < s.next_conn_id) id s.connections t.connections ok
              h.below);
      distinct = erase-AreDistinct id s.connections t.connections ok h.distinct;
    }

start-keeps :
    (now : ℕ) (threads : _) (s t : TcpServer)
    → TcpServer.start now threads s ≡ some t
    → (t.connections ≡ s.connections) × (t.next_conn_id ≡ s.next_conn_id)
unfolding TcpServer.start
start-keeps now threads s t e = ground arith

schedule-keeps :
    (now : ℕ) (s : TcpServer)
    → ((acceptor_scheduling_handler now s).connections ≡ s.connections)
      × ((acceptor_scheduling_handler now s).next_conn_id ≡ s.next_conn_id)
unfolding acceptor_scheduling_handler
schedule-keeps now s = ground arith

Step-IsTable : {s t : TcpServer} → Step s t → IsTable s → IsTable t
unfolding set_schedul_callback
Step-IsTable {s} {t} (starts now threads e) h =
    let (table, id) = start-keeps now threads s t e in kept-IsTable s t table id h
Step-IsTable {s} {t} (schedules now) h =
    let (table, id) = schedule-keeps now s in kept-IsTable s t table id h
Step-IsTable {s} {t} (binds fd) h = kept-IsTable s t refl refl h
Step-IsTable {s} {t} (opens now {notice} small e) h = opened-IsTable now notice s t small e h
Step-IsTable {s} {t} (closes id e) h = closed-IsTable id s t e h

Steps-IsTable : (loop memory : ℕ) {s : TcpServer} → Steps (new_server loop memory) s → IsTable s
unfolding new_server AreBelow AreDistinct
Steps-IsTable loop memory here = record { below = tt; distinct = tt }
Steps-IsTable loop memory (next r st) = Step-IsTable st (Steps-IsTable loop memory r)

-- In every state that a server reaches before the int that numbers its connections overflows, a new
-- connection gets a number that no connection in the
-- table has, and its removal leaves the table as it was.
pub opens_fresh :
    (loop memory now : ℕ) (notice : Notice) {s t : TcpServer}
    → Steps (new_server loop memory) s
    → new_connection now s ≡ some (notice, t)
    → (remove_connection_in_loop s.next_conn_id s ≡ none)
      × (remove_connection_in_loop s.next_conn_id t
          ≡ some (record t { connections = s.connections }))
unfolding remove_connection_in_loop
opens_fresh loop memory now notice {s} {t} r e =
    let h = Steps-IsTable loop memory r in
    let gone =
      erase_absent s.next_conn_id s.connections (not_below s.next_conn_id s.connections h.below) in
    let (io_loop, table, id) = opened now notice s t e in
    (
      ground (arith, gone),
      ground (arith, head_erased s.next_conn_id t.connections io_loop s.connections table),
    )

-- In every such state, a connection that is removed is gone: the assertion of a
-- second removal of it fails, and no other connection of that number is in the table.
closes_once :
    (loop memory id : ℕ) {s t : TcpServer}
    → Steps (new_server loop memory) s
    → remove_connection_in_loop id s ≡ some t
    → (remove_connection_in_loop id t ≡ none) × All (λ (c : ℕ × ℕ). c.0 ≢ id) t.connections
unfolding remove_connection_in_loop
closes_once loop memory id {s} {t} r e =
    let h = Steps-IsTable loop memory r in
    let (ok, same) = closed id s t e in
    let absent = absent_after id s.connections t.connections ok h.distinct in
    (ground (arith, erase_absent id t.connections absent), absent)
