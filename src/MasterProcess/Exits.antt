-- ===== src/MasterProcess/Exits.antt =====
-- What the master does with its table of workers: it wakes them, and waits for their ends.
use native.Mathlib.Nat.{mod-lt}
use enhanced_proxy.Common.{
  ℕ, zero, suc, ◌+◌, ◌-◌, ◌%◌, ◌^◌, ◌<◌, ◌≡◌, ◌≢◌, refl, ap, ◌∙◌, Option, none, some, List, [], ◌∷◌,
  get_elem?, All, arith,
}
use enhanced_proxy.MasterProcess.{
  MasterProcess, new_master, push_backup, fork_worker, fork_workers, start, notify, remainder,
  exit_round, exit_rounds,
}
use enhanced_proxy.MasterProcess.Workers.{table}

fork-keeps :
    (fds pids : ℕ → ℕ) (n : ℕ) (m : MasterProcess)
    → ((fork_workers fds pids n m).process_num ≡ m.process_num)
      × ((fork_workers fds pids n m).notify_id ≡ m.notify_id)
unfolding fork_workers fork_worker
fork-keeps fds pids zero m = (refl, refl)
fork-keeps fds pids (suc n) m = fork-keeps fds pids n m

-- The master after `k` calls of `notify`.
unfoldable pub after_notifies : ℕ → MasterProcess → Option MasterProcess
after_notifies zero m = some m
after_notifies (suc k) m = elim (after_notifies k m) [
  | none ↦ none
  | some q ↦ elim (notify q) [ none ↦ none | some (fd, q') ↦ some q' ]
]

module _ (m : MasterProcess) (fds : ℕ → ℕ) (process_num : ℕ) (some_slots : 0 < process_num - 1)
    (num : m.process_num ≡ process_num)
    (slots : (i : ℕ) → i < process_num - 1 → get_elem? m.slots i ≡ some (fds i)) where
  notify_at :
      (k : ℕ)
      → k < 2 ^ 31
      → notify (record m { notify_id = k })
        ≡ some (fds (k % (process_num - 1)), record m { notify_id = suc k })
  unfolding notify remainder
  notify_at k small =
      ground (arith, small, num, slots (k % (process_num - 1)) (mod-lt k some_slots))

  notified_all :
      (k : ℕ)
      → k < 2 ^ 31
      → m.notify_id ≡ 0
      → after_notifies k m ≡ some (record m { notify_id = k })
  unfolding after_notifies
  notified_all zero small first = cc
  notified_all (suc k) small first =
      let ih = notified_all k (omega (arith, small)) first in
      rw (ih, notify_at k (omega (arith, small)))

  turns :
      (k : ℕ)
      → k < 2 ^ 31
      → m.notify_id ≡ 0
      → (q : MasterProcess) × (after_notifies k m ≡ some q)
        × (notify q ≡ some (fds (k % (process_num - 1)), record q { notify_id = k + 1 }))
  turns k small first = (
    record m { notify_id = k },
    notified_all k small first,
    notify_at k small
        ∙ ap (λ i. some (fds (k % (process_num - 1)), record m { notify_id = i })) (omega arith),
  )

started-slots :
    (backup fds pids : ℕ → ℕ) (process_num i : ℕ)
    → i < process_num - 1
    → get_elem? (start backup fds pids (new_master process_num)).slots i ≡ some (fds i)
unfolding start
started-slots backup fds pids process_num i h =
    let m : MasterProcess = record (new_master process_num) {
      event_fd_queue = push_backup backup 10 [];
    } in
    (table fds pids m (process_num - 1) i refl refl h).0

started-keeps :
    (backup fds pids : ℕ → ℕ) (process_num : ℕ)
    → ((start backup fds pids (new_master process_num)).process_num ≡ process_num)
      × ((start backup fds pids (new_master process_num)).notify_id ≡ 0)
unfolding start
started-keeps backup fds pids process_num =
    let m : MasterProcess = record (new_master process_num) {
      event_fd_queue = push_backup backup 10 [];
    } in
    fork-keeps fds pids (process_num - 1) m

-- After `start` of a new master with two processes at least, `notify` wakes the workers in turn:
-- `k` calls of it succeed for every `k` below 2 ^ 31, where its counter overflows, and the call
-- after them writes to the eventfd of the worker `k` modulo `process_num - 1`.
pub notify_turns :
    (backup fds pids : ℕ → ℕ) (process_num k : ℕ)
    → 0 < process_num - 1
    → k < 2 ^ 31
    → (m : MasterProcess) × (after_notifies k (start backup fds pids (new_master process_num))
        ≡ some m)
      × (notify m ≡ some (fds (k % (process_num - 1)), record m { notify_id = k + 1 }))
notify_turns backup fds pids process_num k h small =
    let (num, first) = started-keeps backup fds pids process_num in
    turns (start backup fds pids (new_master process_num)) fds process_num h num
      (started-slots backup fds pids process_num) k small first

round-keeps :
    (p : Option ℕ) (pid_ : ℕ) (m : MasterProcess)
    → p ≢ some 0
    → ((exit_round p pid_ m).0 ≡ none)
      × ((exit_round p pid_ m).1.slots ≡ m.slots)
      × ((exit_round p pid_ m).1.event_fds ≡ m.event_fds)
      × ((exit_round p pid_ m).1.event_fd_queue ≡ m.event_fd_queue)
unfolding exit_round
round-keeps none pid_ m h = (refl, refl, refl, refl)
round-keeps (some pid) pid_ m h =
    (ground (arith, h), ground (arith, h), ground (arith, h), ground (arith, h))

-- If `wait` never returns 0, then whatever children end and whatever `fork` returns, so in the master
-- as in each process that it forks, `checkWorkerExit` constructs no worker, and leaves the shared
-- array, the table of workers and the backup descriptors as they were: no worker that has ended is
-- replaced.
pub exits_unheeded :
    (rounds : List (Option ℕ × ℕ)) (m : MasterProcess)
    → All (λ (r : Option ℕ × ℕ). r.0 ≢ some 0) rounds
    → ((exit_rounds rounds m).0 ≡ [])
      × ((exit_rounds rounds m).1.slots ≡ m.slots)
      × ((exit_rounds rounds m).1.event_fds ≡ m.event_fds)
      × ((exit_rounds rounds m).1.event_fd_queue ≡ m.event_fd_queue)
unfolding exit_rounds
exits_unheeded [] m h = (refl, refl, refl, refl)
exits_unheeded ((p, pid_) ∷ rounds) m (h, hs) =
    let (n, a, b, c) = exits_unheeded rounds m hs in
    let (n', a', b', c') = round-keeps p pid_ (exit_rounds rounds m).1 h in
    (
      ground (arith, n, n'),
      ground (arith, n', a, a'),
      ground (arith, n', b, b'),
      ground (arith, n', c, c'),
    )
