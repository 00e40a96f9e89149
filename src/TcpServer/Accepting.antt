-- ===== src/TcpServer/Accepting.antt =====
-- `Acceptor::handleRead` of ModifiedMuduo/Acceptor.cpp, over the calls of the operating system, and
-- what becomes of the descriptors.
use enhanced_proxy.Common.{
  ℕ, ◌+◌, ◌≡◌, ◌∙◌, refl, Bool, true, Option, none, some, arith, inl, inr, ◌⊎◌,
}

-- What `accept` answers: a descriptor, or -1 with `errno` EMFILE or with another one.
pub data Accepted : Type 0 where
  accepted : ℕ → Accepted
  emfile failed : Accepted

-- `accept`, `open` of /dev/null and `close`; a descriptor that is -1 is `none`.
pub record Os (W : Type 0) : Type 0 where
  pub accept : W → Accepted × W
  pub open_null : W → Option ℕ × W
  pub close : ℕ → W → W

abbrev pub close_fd : {W : Type 0} → Os W → Option ℕ → W → W
close_fd os none w = w
close_fd os (some fd) w = os.close fd w

-- The int that `accept` returns.
abbrev pub fd_of : Accepted → Option ℕ
fd_of (accepted fd) = some fd
fd_of emfile = none
fd_of failed = none

-- The branch for EMFILE; the result is `idleFd_`.
unfoldable pub drop_waiting : {W : Type 0} → Os W → Option ℕ → W → Option ℕ × W
drop_waiting os idle_fd w =
    let (conn, w') = os.accept (close_fd os idle_fd w) in os.open_null (close_fd os (fd_of conn) w')

-- `handleRead` with `newConnectionCallback_` and `idleFd_`.
unfoldable pub handle_read : {W : Type 0} → Os W → Option (ℕ → W → W) → Option ℕ → W → Option ℕ × W
unfolding drop_waiting
handle_read os callback idle_fd w =
    let (conn, w') = os.accept w in
    elim conn [
      | accepted connfd ↦ elim callback [
        | none ↦ (idle_fd, os.close connfd w')
        | some new_connection ↦ (idle_fd, new_connection connfd w')
      ]
      | emfile ↦ drop_waiting os idle_fd w'
      | failed ↦ (idle_fd, w')
    ]

-- 1, if there is no idle descriptor.
abbrev pub missing : Option ℕ → ℕ
missing none = 1
missing (some fd) = 0

-- A connection that was accepted is handed to the callback, and the idle descriptor stays.
abbrev pub IsHanded : {W : Type 0} → Os W → Option (ℕ → W → W) → ℕ → W → Type 0
IsHanded {W} os callback i w =
    (f : ℕ → W → W) × (fd : ℕ) × (w' : W) × (callback ≡ some f)
    × (os.accept w ≡ (accepted fd, w'))
    × (handle_read os callback (some i) w ≡ (some i, f fd w'))

-- As many descriptors are open as before, less the idle one if it is missing.
abbrev pub IsLevel : {W : Type 0} → (W → ℕ) → ℕ → Option ℕ × W → Type 0
IsLevel count n r = count r.1 + missing r.0 ≡ n

module _ {W : Type 0} (os : Os W) (count : W → ℕ) (is_open : W → ℕ → Bool)
    (accept_ok : (w : W) (fd : ℕ) (w' : W)
      → os.accept w ≡ (accepted fd, w')
      → (count w' ≡ count w + 1) × (is_open w' fd ≡ true))
    (accept_fails : (w w' : W) (conn : Accepted)
      → os.accept w ≡ (conn, w')
      → fd_of conn ≡ none
      → (count w' ≡ count w) × ((fd : ℕ) → is_open w' fd ≡ is_open w fd))
    (open_ok : (w : W) (fd : ℕ) (w' : W) → os.open_null w ≡ (some fd, w') → count w' ≡ count w + 1)
    (open_fails : (w w' : W) → os.open_null w ≡ (none, w') → count w' ≡ count w)
    (close_ok : (w : W) (fd : ℕ) → is_open w fd ≡ true → count (os.close fd w) + 1 ≡ count w) where
  open-count : (w : W) → count (os.open_null w).1 + missing (os.open_null w).0 ≡ count w + 1
  open-count w = go (os.open_null w) refl
    where
      go : (r : Option ℕ × W) → os.open_null w ≡ r → count r.1 + missing r.0 ≡ count w + 1
      go (none, w') e = omega (arith, open_fails w w' e)
      go (some fd, w') e = omega (arith, open_ok w fd w' e)

  -- Whatever `accept` answers, closing what it returned leaves the count.
  shut-count :
      (w : W) (r : Accepted × W) → os.accept w ≡ r → count (close_fd os (fd_of r.0) r.1) ≡ count w
  shut-count w (accepted fd, w') e =
      let (more, is) = accept_ok w fd w' e in omega (arith, more, close_ok w' fd is)
  shut-count w (emfile, w') e = (accept_fails w w' emfile e refl).0
  shut-count w (failed, w') e = (accept_fails w w' failed e refl).0

  drop-count :
      (i : ℕ) (w : W)
      → is_open w i ≡ true
      → count (drop_waiting os (some i) w).1 + missing (drop_waiting os (some i) w).0 ≡ count w
  unfolding drop_waiting
  drop-count i w is =
      let w1 = os.close i w in
      let (conn, w2) = os.accept w1 in
      omega (
        arith,
        close_ok w i is,
        shut-count w1 (os.accept w1) refl,
        open-count (close_fd os (fd_of conn) w2),
      )

  -- The calls of the operating system count the open descriptors of the process: `accept` and `open`
  -- add the one that they return, and `close` takes an open one away. If the idle descriptor is
  -- open, then `handleRead` either hands a connection that it accepted to the callback, and keeps
  -- the idle descriptor, or leaves as many descriptors open as before, less the idle one if it
  -- could not be opened again.
  pub handle_read-count :
      (callback : Option (ℕ → W → W)) (i : ℕ) (w : W)
      → is_open w i ≡ true
      → IsHanded os callback i w ⊎ IsLevel count (count w) (handle_read os callback (some i) w)
  unfolding handle_read
  handle_read-count callback i w is = go (os.accept w) callback refl refl
    where
      go :
          (r : Accepted × W) (f : Option (ℕ → W → W))
          → os.accept w ≡ r
          → callback ≡ f
          → IsHanded os callback i w ⊎ IsLevel count (count w) (handle_read os callback (some i) w)
      go (accepted fd, w') none e c =
          let left : IsLevel count (count w) (some i, os.close fd w') =
            omega (arith, shut-count w (accepted fd, w') e) in
          inr (ground (arith, e, c, left))
      go (accepted fd, w') (some f) e c = inl (f, fd, w', c, e, ground (arith, e, c))
      go (emfile, w') f e c =
          let (same, is_same) = accept_fails w w' emfile e refl in
          let dropped = drop-count i w' (is_same i ∙ is) in inr (ground (arith, e, dropped, same))
      go (failed, w') f e c =
          let (same, is_same) = accept_fails w w' failed e refl in inr (ground (arith, e, same))
