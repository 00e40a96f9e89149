-- ===== src/MasterProcess.antt =====
-- Process/MasterProcess.{h,cpp}: the table of workers that the master keeps.
-- Process ids and descriptors are natural numbers that `fork`, `wait` and `eventfd` return; a
-- `fork` that fails is left out. `start` and `checkWorkerStatus` are seen from the master's side of
-- `fork`, and `checkWorkerExit` from either.
pub mod Workers
pub mod Exits
pub mod Signals
mod Tests
use enhanced_proxy.Common.{
  ℕ, zero, suc, ◌+◌, ◌-◌, ◌%◌, ◌^◌, Bool, true, false, Option, none, some, List, [], ◌∷◌, ◌++◌, ltb,
  ◌==◌, if◌then◌else◌, get_elem?, update,
}

-- `slots` is the shared array, as far as it is filled; a worker of `event_fds` is a process id and
-- the index of its slot.
pub record MasterProcess : Type 0 where
  pub process_num : ℕ
  pub notify_id : ℕ
  pub slots : List ℕ
  pub event_fds : List (ℕ × ℕ)
  pub shm_id_map : ℕ → Option ℕ
  pub event_fd_queue : List ℕ

abbrev pub new_master : ℕ → MasterProcess
new_master process_num = record {
  process_num = process_num;
  notify_id = 0;
  slots = [];
  event_fds = [];
  shm_id_map = λ _. none;
  event_fd_queue = [];
}

-- `processIsAlive`
abbrev process_is_alive : ℕ → Bool
process_is_alive pid = true

-- The backup descriptors: `n` calls of `eventfd`.
unfoldable pub push_backup : (ℕ → ℕ) → ℕ → List ℕ → List ℕ
push_backup backup zero queue = queue
push_backup backup (suc n) queue =
    let rest = push_backup backup n queue in
    if ltb 0 (backup n) then rest ++ (backup n ∷ []) else rest

-- One round of the second `for` of `start`: the round `i` gets the descriptor `fd` and forks `pid`.
unfoldable pub fork_worker : ℕ → ℕ → ℕ → MasterProcess → MasterProcess
fork_worker i fd pid m = record m {
  slots = m.slots ++ (fd ∷ []);
  event_fds = m.event_fds ++ ((pid, i) ∷ []);
  shm_id_map = update m.shm_id_map pid (some i);
}

unfoldable pub fork_workers : (ℕ → ℕ) → (ℕ → ℕ) → ℕ → MasterProcess → MasterProcess
unfolding fork_worker
fork_workers fds pids zero m = m
fork_workers fds pids (suc n) m = fork_worker n (fds n) (pids n) (fork_workers fds pids n m)

-- `start` in the master, up to its event loop.
unfoldable pub start : (ℕ → ℕ) → (ℕ → ℕ) → (ℕ → ℕ) → MasterProcess → MasterProcess
unfolding push_backup fork_workers
start backup fds pids m =
    fork_workers fds pids (m.process_num - 1)
      (record m { event_fd_queue = push_backup backup 10 m.event_fd_queue })

-- `notifyId % (processNum - 1)` on ints, for an int as its 32 bits: the remainder of a negative
-- number is 0 or negative, and `none` if it is negative.
unfoldable pub remainder : ℕ → ℕ → Option ℕ
remainder id n =
    if ltb id (2 ^ 31) then some (id % n) else (if (2 ^ 32 - id) % n == 0 then some 0 else none)

-- `notify`: the descriptor that is written to; `notify_id` is an int as its 32 bits, which
-- overflows at 2 ^ 31 and is taken to wrap around. `none` is a remainder by 0, or a read outside of
-- the array.
unfoldable pub notify : MasterProcess → Option (ℕ × MasterProcess)
unfolding remainder
notify m =
    if m.process_num - 1 == 0 then none else elim (remainder m.notify_id (m.process_num - 1)) [
      | none ↦ none
      | some id ↦ elim (get_elem? m.slots id) [
        | none ↦ none
        | some fd ↦ some (fd, record m { notify_id = (m.notify_id + 1) % 2 ^ 32 })
      ]
    ]

-- `checkWorkerStatus`, where `respawn` gives the id of the process forked for the entry at an
-- index.
unfoldable pub check_workers : (ℕ → ℕ) → ℕ → List (ℕ × ℕ) → List (ℕ × ℕ)
check_workers respawn i [] = []
check_workers respawn i ((pid, slot) ∷ l) =
    let rest = check_workers respawn (i + 1) l in
    if process_is_alive pid then (pid, slot) ∷ rest else (respawn i, slot) ∷ rest

unfoldable pub check_worker_status : (ℕ → ℕ) → MasterProcess → MasterProcess
unfolding check_workers
check_worker_status respawn m = record m { event_fds = check_workers respawn 0 m.event_fds }

-- `shmAddr[shmId] = evfd`
unfoldable pub set_slot : ℕ → ℕ → List ℕ → List ℕ
set_slot i fd [] = []
set_slot zero fd (s ∷ l) = fd ∷ l
set_slot (suc i) fd (s ∷ l) = s ∷ set_slot i fd l

-- `processShmIdMap[pid]`, which adds a missing key with the value 0.
abbrev pub shm_id_of : MasterProcess → ℕ → ℕ
shm_id_of m pid = elim (m.shm_id_map pid) [ none ↦ 0 | some i ↦ i ]

-- One round of `checkWorkerExit` after `wait` has returned `pid`, or `none` for -1, whose entry in
-- the map is left out, in the process to which `fork` has returned `pid_`: the master, or the new
-- child, for which it is 0. The test that means the child reads `pid`, the process that has ended.
-- The result has the descriptor and the slot of the worker that the process constructs, if it does.
unfoldable pub exit_round : Option ℕ → ℕ → MasterProcess → Option (ℕ × ℕ) × MasterProcess
unfolding set_slot
exit_round none pid_ m = (none, m)
exit_round (some pid) pid_ m =
    let i = shm_id_of m pid in
    let m' = record m { shm_id_map = update m.shm_id_map pid (some i) } in
    if pid == 0
    then (elim m.event_fd_queue [
      | [] ↦ (none, m')
      | fd ∷ queue ↦
          (some (fd, i), record m' { event_fd_queue = queue; slots = set_slot i fd m.slots })
    ])
    else (none, m')

-- The rounds of `checkWorkerExit` for what `wait` and `fork` return, the last round first: which
-- workers were constructed, and the state. A round begins only while there is a backup descriptor.
unfoldable pub exit_rounds : List (Option ℕ × ℕ) → MasterProcess → List (ℕ × ℕ) × MasterProcess
unfolding exit_round
exit_rounds [] m = ([], m)
exit_rounds ((p, pid_) ∷ l) m =
    let (workers, m') = exit_rounds l m in
    elim m'.event_fd_queue [
      | [] ↦ (workers, m')
      | _ ∷ _ ↦ elim (exit_round p pid_ m').0 [
        | none ↦ (workers, (exit_round p pid_ m').1)
        | some worker ↦ (worker ∷ workers, (exit_round p pid_ m').1)
      ]
    ]
