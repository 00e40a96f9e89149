-- ===== src/TcpServer/Erase.antt =====
-- `connections_.erase` on lists of numbered connections.
use mathlib.Core.Path.{subst}
use enhanced_proxy.Common.{
  ℕ, ◌<◌, ◌≡◌, ◌≢◌, refl, none, some, List, [], ◌∷◌, ◌==◌, arith, inl, inr, ◌⊎◌, Option-cases,
  Bool-cases, All,
}
use enhanced_proxy.TcpServer.{erase_connection}

unfoldable pub AreBelow : ℕ → List (ℕ × ℕ) → Type 0
AreBelow n l = All (λ (c : ℕ × ℕ). c.0 < n) l

unfoldable pub AreDistinct : List (ℕ × ℕ) → Type 0
AreDistinct [] = Unit
AreDistinct (c ∷ l) = All (λ (d : ℕ × ℕ). d.0 ≢ c.0) l × AreDistinct l

ErasesTail : ℕ → ℕ × ℕ → List (ℕ × ℕ) → List (ℕ × ℕ) → Type 0
ErasesTail id c l r =
    (r' : List (ℕ × ℕ)) × (c.0 ≢ id) × (erase_connection id l ≡ some r') × (c ∷ r' ≡ r)

erase-cases :
    (id : ℕ) (c : ℕ × ℕ) (l r : List (ℕ × ℕ))
    → erase_connection id (c ∷ l) ≡ some r
    → ((c.0 ≡ id) × (l ≡ r)) ⊎ ErasesTail id c l r
unfolding erase_connection ErasesTail
erase-cases id (k, loop) l r e = elim (Bool-cases (k == id)) [
  | inl same ↦ inl (ground (arith, same), ground (arith, same))
  | inr differ ↦ elim (Option-cases (erase_connection id l)) [
    | inl fails ↦ absurd (ground (arith, differ, fails))
    | inr (r', ok) ↦ inr (r', ground (arith, differ), ok, ground (arith, differ, ok))
  ]
]

pub erase-All :
    (P : ℕ × ℕ → Type 0) (id : ℕ) (l r : List (ℕ × ℕ))
    → erase_connection id l ≡ some r
    → All P l
    → All P r
unfolding ErasesTail erase_connection
erase-All P id [] r e h = absurd (ground (arith, e))
erase-All P id (c ∷ l) r e (h, hs) = elim (erase-cases id c l r e) [
  | inl (same, is) ↦ subst (All P) is hs
  | inr (r', differ, ok, is) ↦ subst (All P) is (h, erase-All P id l r' ok hs)
]

pub erase-AreDistinct :
    (id : ℕ) (l r : List (ℕ × ℕ)) → erase_connection id l ≡ some r → AreDistinct l → AreDistinct r
unfolding ErasesTail erase_connection AreDistinct
erase-AreDistinct id [] r e h = absurd (ground (arith, e))
erase-AreDistinct id (c ∷ l) r e (h, hs) = elim (erase-cases id c l r e) [
  | inl (same, is) ↦ subst AreDistinct is hs
  | inr (r', differ, ok, is) ↦
      subst AreDistinct is
        (erase-All (λ (d : ℕ × ℕ). d.0 ≢ c.0) id l r' ok h, erase-AreDistinct id l r' ok hs)
]

pub erase_absent :
    (id : ℕ) (l : List (ℕ × ℕ)) → All (λ (d : ℕ × ℕ). d.0 ≢ id) l → erase_connection id l ≡ none
unfolding erase_connection
erase_absent id [] h = refl
erase_absent id ((k, loop) ∷ l) (h, hs) = ground (arith, h, erase_absent id l hs)

pub absent_after :
    (id : ℕ) (l r : List (ℕ × ℕ))
    → erase_connection id l ≡ some r
    → AreDistinct l
    → All (λ (d : ℕ × ℕ). d.0 ≢ id) r
unfolding ErasesTail erase_connection AreDistinct
absent_after id [] r e h = absurd (ground (arith, e))
absent_after id (c ∷ l) r e (h, hs) = elim (erase-cases id c l r e) [
  | inl (same, is) ↦
      subst (All (λ (d : ℕ × ℕ). d.0 ≢ id)) is (subst (λ k. All (λ (d : ℕ × ℕ). d.0 ≢ k) l) same h)
  | inr (r', differ, ok, is) ↦
      subst (All (λ (d : ℕ × ℕ). d.0 ≢ id)) is (differ, absent_after id l r' ok hs)
]

pub All-weaken :
    (P Q : ℕ × ℕ → Type 0) (l : List (ℕ × ℕ)) → ((c : ℕ × ℕ) → P c → Q c) → All P l → All Q l
All-weaken P Q [] f h = h
All-weaken P Q (c ∷ l) f (h, hs) = (f c h, All-weaken P Q l f hs)

pub head_erased :
    (id : ℕ) (l : List (ℕ × ℕ)) (io_loop : ℕ) (rest : List (ℕ × ℕ))
    → l ≡ (id, io_loop) ∷ rest
    → erase_connection id l ≡ some rest
unfolding erase_connection
head_erased id l io_loop rest e = ground arith
