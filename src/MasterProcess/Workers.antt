-- ===== src/MasterProcess/Workers.antt =====
-- The table of workers after `start`.
use enhanced_proxy.Common.{
  ℕ, zero, suc, ◌-◌, ◌<◌, ◌≡◌, refl, sym, ap, ◌∙◌, some, List, [], ◌∷◌, ◌++◌, length, get_elem?,
  arith, inl, inr, ◌⊎◌, length-append,
}
use enhanced_proxy.MasterProcess.{
  MasterProcess, new_master, push_backup, fork_worker, fork_workers, start, shm_id_of,
}

module _ {A : Type 0} where
  get-front : (xs ys : List A) (i : ℕ) → i < length xs → get_elem? (xs ++ ys) i ≡ get_elem? xs i
  get-front [] ys i h = elim h [ ]
  get-front (x ∷ xs) ys zero h = refl
  get-front (x ∷ xs) ys (suc i) h = get-front xs ys i (omega arith)

  get-end : (xs : List A) (y : A) → get_elem? (xs ++ (y ∷ [])) (length xs) ≡ some y
  get-end [] y = refl
  get-end (x ∷ xs) y = get-end xs y

  -- A list filled one by one.
  get-snoc :
      (xs : List A) (y : A) (n i : ℕ)
      → length xs ≡ n
      → i < suc n
      → ((i < n) × (get_elem? (xs ++ (y ∷ [])) i ≡ get_elem? xs i))
        ⊎ ((i ≡ n) × (get_elem? (xs ++ (y ∷ [])) i ≡ some y))
  get-snoc xs y n i len h = elim (below_or n i h) [
    | inl lt ↦ inl (lt, get-front xs (y ∷ []) i (omega arith))
    | inr e ↦ inr (e, ap (get_elem? (xs ++ (y ∷ []))) (e ∙ sym len) ∙ get-end xs y)
  ]
    where
      below_or : (n i : ℕ) → i < suc n → (i < n) ⊎ (i ≡ n)
      below_or n i h = omega arith

module _ (fds pids : ℕ → ℕ) (m : MasterProcess) where
  filled :
      (n : ℕ)
      → m.slots ≡ []
      → m.event_fds ≡ []
      → (length (fork_workers fds pids n m).slots ≡ n)
        × (length (fork_workers fds pids n m).event_fds ≡ n)
  unfolding fork_workers fork_worker
  filled zero no_slot no_worker = (ap length no_slot, ap length no_worker)
  filled (suc n) no_slot no_worker =
      let (a, b) = filled n no_slot no_worker in
      (
        length-append (fork_workers fds pids n m).slots (fds n ∷ []) ∙ (omega (arith, a)),
        length-append (fork_workers fds pids n m).event_fds ((pids n, n) ∷ []) ∙ (omega (arith, b)),
      )

  pub table :
      (n i : ℕ)
      → m.slots ≡ []
      → m.event_fds ≡ []
      → i < n
      → (get_elem? (fork_workers fds pids n m).slots i ≡ some (fds i))
        × (get_elem? (fork_workers fds pids n m).event_fds i ≡ some (pids i, i))
  unfolding fork_workers fork_worker
  table zero i no_slot no_worker h = elim h [ ]
  table (suc n) i no_slot no_worker h =
      let (a, b) = filled n no_slot no_worker in
      let before = fork_workers fds pids n m in
      (
        elim (get-snoc before.slots (fds n) n i a h) [
          | inl (lt, e) ↦ e ∙ (table n i no_slot no_worker lt).0
          | inr (last, e) ↦ e ∙ ap (λ k. some (fds k)) (sym last)
        ],
        elim (get-snoc before.event_fds (pids n, n) n i b h) [
          | inl (lt, e) ↦ e ∙ (table n i no_slot no_worker lt).1
          | inr (last, e) ↦ e ∙ ap (λ k. some (pids k, k)) (sym last)
        ],
      )

  mapped :
      (n i : ℕ)
      → ((j k : ℕ) → pids j ≡ pids k → j ≡ k)
      → i < n
      → (fork_workers fds pids n m).shm_id_map (pids i) ≡ some i
  unfolding fork_workers fork_worker
  mapped zero i distinct h = elim h [ ]
  mapped (suc n) i distinct h = elim (last_or n i h) [
    | inl lt ↦ ground (arith, distinct n i, mapped n i distinct lt)
    | inr e ↦ ground (arith, ap pids e)
  ]
    where
      last_or : (n i : ℕ) → i < suc n → (i < n) ⊎ (i ≡ n)
      last_or n i h = omega arith

-- If no two forks give the same process id, then after `start` of a new master the slot of each
-- worker `i` below `process_num - 1` holds the `i`-th eventfd, the entry `i` of its table has the
-- `i`-th process id and that slot, and the map finds the slot by the process id.
pub start_table :
    (backup fds pids : ℕ → ℕ) (process_num i : ℕ)
    → ((j k : ℕ) → pids j ≡ pids k → j ≡ k)
    → i < process_num - 1
    → (get_elem? (start backup fds pids (new_master process_num)).slots i ≡ some (fds i))
      × (get_elem? (start backup fds pids (new_master process_num)).event_fds i ≡ some (pids i, i))
      × (shm_id_of (start backup fds pids (new_master process_num)) (pids i) ≡ i)
unfolding start
start_table backup fds pids process_num i distinct h =
    let m : MasterProcess = record (new_master process_num) {
      event_fd_queue = push_backup backup 10 [];
    } in
    let (slot, worker) = table fds pids m (process_num - 1) i refl refl h in
    (slot, worker, ground (arith, mapped fds pids m (process_num - 1) i distinct h))
