-- ===== src/MasterProcess/Signals.antt =====
-- The event loop of the master, for its timer and for signals: `signalProcessInit`, `signalHandlers`,
-- `setCheckInterval` and the end of `start` in Process/MasterProcess.{h,cpp}. Nothing calls
-- `signalProcessInit`: its call in the constructor is a comment. `signalfd` is a parameter.
use enhanced_proxy.Common.{
  ℕ, ◌≡◌, refl, Bool, true, false, Option, none, some, List, [], ◌∷◌, ◌==◌, if◌then◌else◌, arith,
  All, ◌≢◌,
}

-- A descriptor, and whether the loop waits for it to become readable.
pub record Channel : Type 0 where
  pub fd : ℕ
  pub reading : Bool

-- A loop of muduo: the intervals of its timers, and its channels.
pub record EventLoop : Type 0 where
  pub timers : List ℕ
  pub channels : List Channel

-- The keys of `handlers`, and the members of the master that the functions below use; `none` is the
-- pointer that the constructor leaves uninitialised.
pub record Signals : Type 0 where
  pub handlers : List ℕ
  pub check_interval : ℕ
  pub event_loop : Option EventLoop

abbrev pub default_check_interval : ℕ
default_check_interval = 2

abbrev pub new_signals : List ℕ → Signals
new_signals handlers = record {
  handlers = handlers;
  check_interval = default_check_interval;
  event_loop = none;
}

-- `setCheckInterval`
unfoldable pub set_check_interval : ℕ → Signals → Signals
set_check_interval seconds s = record s { check_interval = seconds }

-- The master's branch of `start`, up to the call of `loop`.
unfoldable pub start_loop : Signals → Signals
start_loop s = record s {
  event_loop = some (record { timers = s.check_interval ∷ []; channels = [] });
}

-- The `for` of `signalProcessInit`, from the mask so far.
unfoldable pub add_signals : List ℕ → (ℕ → Bool) → ℕ → Bool
add_signals [] mask = mask
add_signals (signal ∷ l) mask = add_signals l (λ k. if signal == k then true else mask k)

-- `signalProcessInit`: `none` is the failed assertion, or the access through the pointer. The
-- channel is handed to the loop without a call of `enableReading`.
unfoldable pub signal_process_init : ((ℕ → Bool) → Option ℕ) → Signals → Option Signals
unfolding add_signals
signal_process_init signalfd s = elim (signalfd (add_signals s.handlers (λ _. false))) [
  | none ↦ none
  | some fd ↦ elim s.event_loop [
    | none ↦ none
    | some l ↦ some (record s {
      event_loop = some (record l { channels = record { fd = fd; reading = false } ∷ l.channels });
    })
  ]
]

-- `signalHandlers`
unfoldable pub signal_handlers : Signals → Signals
signal_handlers s = s

add_signals_stays :
    (l : List ℕ) (mask : ℕ → Bool) (k : ℕ) → mask k ≡ true → add_signals l mask k ≡ true
unfolding add_signals
add_signals_stays [] mask k e = e
add_signals_stays (s ∷ l) mask k e =
    add_signals_stays l (λ j. if s == j then true else mask j) k (ground (arith, e))

add_signals_other :
    (l : List ℕ) (mask : ℕ → Bool) (k : ℕ) → All (λ s. s ≢ k) l → add_signals l mask k ≡ mask k
unfolding add_signals
add_signals_other [] mask k h = refl
add_signals_other (s ∷ l) mask k (h, hs) =
    let later = add_signals_other l (λ j. if s == j then true else mask j) k hs in
    ground (arith, later, h)

add_signals-All : (l : List ℕ) (mask : ℕ → Bool) → All (λ s. add_signals l mask s ≡ true) l
unfolding add_signals
add_signals-All [] mask = tt
add_signals-All (s ∷ l) mask = (
  add_signals_stays l (λ j. if s == j then true else mask j) s (ground arith),
  add_signals-All l (λ j. if s == j then true else mask j),
)

-- The mask that `signalProcessInit` makes has every signal with a handler, and no other one.
mask-handlers :
    (l : List ℕ)
    → All (λ s. add_signals l (λ _. false) s ≡ true) l
      × ((k : ℕ) → All (λ s. s ≢ k) l → add_signals l (λ _. false) k ≡ false)
mask-handlers l = (add_signals-All l (λ _. false), λ k h. add_signals_other l (λ _. false) k h)
