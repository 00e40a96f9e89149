-- ===== src/MasterProcess/Tests.antt =====
-- A master with three processes.
use enhanced_proxy.Common.{ℕ, ◌+◌, ◌%◌, ◌≡◌, some, [], ◌∷◌, arith, get_elem?}
use enhanced_proxy.MasterProcess.{MasterProcess, new_master, start, notify, exit_rounds, shm_id_of}
use enhanced_proxy.MasterProcess.Workers.{start_table}
use enhanced_proxy.MasterProcess.Exits.{after_notifies, notify_turns, exits_unheeded}

abbrev fds : ℕ → ℕ
fds i = i + 20

abbrev pids : ℕ → ℕ
pids i = i + 100

abbrev backup : ℕ → ℕ
backup i = i + 3

abbrev master : MasterProcess
master = start backup fds pids (new_master 3)

start_table_example :
    (get_elem? master.slots 1 ≡ some 21)
    × (get_elem? master.event_fds 1 ≡ some (101, 1))
    × (shm_id_of master 101 ≡ 1)
start_table_example = start_table backup fds pids 3 1 (λ j k e. omega arith) (omega arith)

notify_turns_example :
    (m : MasterProcess) × (after_notifies 5 master ≡ some m)
    × (notify m ≡ some (fds (5 % 2), record m { notify_id = 6 }))
notify_turns_example = notify_turns backup fds pids 3 5 (omega arith) (omega arith)

-- Worker 101 ends, and the test stands in the master and in the child that it forks.
exits_unheeded_example :
    ((exit_rounds ((some 101, 0) ∷ (some 101, 102) ∷ []) master).0 ≡ [])
    × ((exit_rounds ((some 101, 0) ∷ (some 101, 102) ∷ []) master).1.slots ≡ master.slots)
    × ((exit_rounds ((some 101, 0) ∷ (some 101, 102) ∷ []) master).1.event_fds ≡ master.event_fds)
    × ((exit_rounds ((some 101, 0) ∷ (some 101, 102) ∷ []) master).1.event_fd_queue
        ≡ master.event_fd_queue)
exits_unheeded_example =
    exits_unheeded ((some 101, 0) ∷ (some 101, 102) ∷ []) master
      ((λ e. ground arith), ((λ e. ground arith), tt))
