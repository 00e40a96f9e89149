-- ===== src/ProcessMutex/Tests.antt =====
-- The mutex among a few processes.
use enhanced_proxy.Common.{◌==◌, ℕ, ◌≡◌, refl, true, false}
use enhanced_proxy.ProcessMutex.{
  System, Steps, here, next, start, lock, try_lock, attach, locks, tries, restarts,
}
use enhanced_proxy.ProcessMutex.Safety.{mutual_exclusion, abandoned_forever}

-- Process 1 gets the lock, and the `tryLock` of process 2 fails.
abbrev held : (s : System) × Steps (start (λ _. false)) s
unfolding lock try_lock
held = (_, next (next here (locks 1 {r = (1, true)} refl)) (tries 2))

mutual_exclusion_example : (◌≡◌ {A = ℕ} 1 1) × (held.0.byte ≡ 1)
unfolding lock try_lock
mutual_exclusion_example =
    mutual_exclusion (λ _. false) 1 1 (λ k. refl) held.1 ((tt, tt), tt) refl refl

-- Process 1 ends while it owns the lock, and its successor tries in vain.
abbrev left : System
left = record { byte = 1; owner = λ _. false }

abbrev retried : (s : System) × Steps left s
unfolding try_lock attach
retried = (_, next (next here (restarts 1 false)) (tries 1))

abandoned_forever_example :
    (retried.0.owner 1 ≡ false) × (try_lock retried.0.byte (retried.0.owner 1) ≡ (false, 1, false))
unfolding try_lock attach
abandoned_forever_example = abandoned_forever 1 refl (λ k. refl) retried.1 ((tt, refl), tt)

-- Process 2 finds `owner` true in its memory, and `lock` returns at once.
abbrev doubled : (s : System) × Steps (start (λ i. i == 2)) s
unfolding lock
doubled = (_, next (next here (locks 1 {r = (1, true)} refl)) (locks 2 {r = (1, true)} refl))

two_owners : (doubled.0.owner 1 ≡ true) × (doubled.0.owner 2 ≡ true)
unfolding lock
two_owners = (refl, refl)
