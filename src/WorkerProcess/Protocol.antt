-- ===== src/WorkerProcess/Protocol.antt =====
-- A worker listens exactly while it owns the process mutex.
use enhanced_proxy.Common.{
  ℕ, ◌≡◌, refl, Bool, true, false, List, ◌⊎◌, inl, inr, arith, update, ◌==◌, if◌then◌else◌,
}
use enhanced_proxy.ProxyServer.{new_proxy_server}
use enhanced_proxy.TcpServer.{new_server}
use enhanced_proxy.WorkerProcess.{
  Shared, Worker, System, Step, Steps, starts, wakes, accepts, closes, restarts, here, next, after,
  initial, new_worker,
}
use enhanced_proxy.WorkerProcess.Moves.{
  IsCoherent, Moves, accept-Moves, begin-Moves, wake-Moves, close-IsCoherent,
}

record Inv (s : System) : Type 0 where
  byte : (s.shared.byte ≡ 0) ⊎ (s.shared.byte ≡ 1)
  coherent : (i : ℕ) → IsCoherent (s.worker i).server
  held : (i : ℕ) → (s.worker i).server.owner ≡ true → s.shared.byte ≡ 1
  unique : (i j : ℕ) → (s.worker i).server.owner ≡ true → (s.worker j).server.owner ≡ true → i ≡ j

either : {A : Type 0} (P : A → Type 0) (b : Bool) {x y : A} → P x → P y → P (if b then x else y)
either P true h g = h
either P false h g = g

-- The worker `i` after a handler, and the others as they were.
update_all :
    {A : Type 0} (P : A → Type 0) (f : ℕ → A) (i : ℕ) (a : A)
    → ((k : ℕ) → P (f k))
    → P a
    → (k : ℕ) → P (update f i a k)
update_all P f i a all h k = either P (i == k) h (all k)

move-Inv :
    (s : System) (i : ℕ) (m : Shared) (w : Worker)
    → Inv s
    → IsCoherent w.server
    → Moves s.shared.byte (s.worker i).server.owner m.byte w.server.owner
    → Inv (after s i (m, w))
move-Inv s i m w inv c moves = record {
  byte = ground (arith, inv.byte, moves);
  coherent = update_all (λ v. IsCoherent v.server) s.worker i w inv.coherent c;
  held = λ k h. ground (arith, inv.byte, moves, inv.held k, inv.held i, inv.unique i k);
  unique = λ k l h g. ground (
    arith,
    inv.byte,
    moves,
    inv.held k,
    inv.held l,
    inv.unique k l,
    inv.unique i k,
    inv.unique i l,
  );
}

Step-Inv : {s t : System} → Step s t → Inv s → Inv t
unfolding new_worker new_proxy_server new_server
Step-Inv {s} (starts i now threads {r} e) inv =
    let (c, moves) =
      begin-Moves now threads s.shared (s.worker i) r e (inv.held i) (inv.coherent i) in
    move-Inv s i r.0 r.1 inv c moves
Step-Inv {s} (wakes i now threads {r} e) inv =
    let (c, moves) =
      wake-Moves now threads s.shared (s.worker i) r e (inv.held i) (inv.coherent i) in
    move-Inv s i r.0 r.1 inv c moves
Step-Inv {s} (accepts i now {r} on e) inv =
    let taken = inv.held i (ground (arith, on, (inv.coherent i).reading)) in
    let (c, moves) = accept-Moves now s.shared r.0 (s.worker i) r.1 e on taken (inv.coherent i) in
    move-Inv s i r.0 r.1 inv c moves
Step-Inv {s} (closes i id {w} e) inv =
    let (c, same) = close-IsCoherent id (s.worker i) w e (inv.coherent i) in
    move-Inv s i s.shared w inv c (inl (refl, inl same))
Step-Inv {s} (restarts i process_num loop uninitialised) inv =
    move-Inv s i s.shared (new_worker i process_num loop uninitialised) inv
      (record { listenning = refl; reading = refl; started = refl }) (inl (refl, inr refl))

Steps-Inv :
    (event_fds : List ℕ) (process_num : ℕ) (memory : ℕ → ℕ) {s : System}
    → Steps (initial event_fds process_num memory) s
    → Inv s
unfolding initial new_worker new_proxy_server new_server
Steps-Inv event_fds process_num memory here = record {
  byte = inl refl;
  coherent = λ i. record { listenning = refl; reading = refl; started = refl };
  held = λ i h. cc;
  unique = λ i j h g. cc;
}
Steps-Inv event_fds process_num memory (next r st) =
    Step-Inv st (Steps-Inv event_fds process_num memory r)

-- In every interleaving of the handlers of the workers, with processes that end and are replaced,
-- two workers that listen are one; while one listens, the byte of the mutex is 1 and that worker is
-- its owner; and the channel of any worker's acceptor is watched exactly when that worker listens.
pub one_listener :
    (event_fds : List ℕ) (process_num : ℕ) (memory : ℕ → ℕ) {s : System} (i j k : ℕ)
    → Steps (initial event_fds process_num memory) s
    → (s.worker i).server.server.acceptor.listenning ≡ true
    → (s.worker j).server.server.acceptor.listenning ≡ true
    → (i ≡ j)
      × (s.shared.byte ≡ 1)
      × ((s.worker i).server.owner ≡ true)
      × ((s.worker k).server.server.acceptor.reading
          ≡ (s.worker k).server.server.acceptor.listenning)
one_listener event_fds process_num memory {s} i j k r on on' =
    let inv = Steps-Inv event_fds process_num memory r in
    let owner-i : (s.worker i).server.owner ≡ true =
      ground (arith, on, (inv.coherent i).listenning) in
    let owner-j : (s.worker j).server.owner ≡ true =
      ground (arith, on', (inv.coherent j).listenning) in
    (
      inv.unique i j owner-i owner-j,
      inv.held i owner-i,
      owner-i,
      ground (arith, (inv.coherent k).reading, (inv.coherent k).listenning),
    )
