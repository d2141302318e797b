-- ===== src/Prelude/Same.antt =====
-- A test for equality of byte lists.
use Prim.Native.Nat.{ℕ}
use mathlib.Core.Path.{◌≡◌, refl}
use mathlib.Core.Bool.{Bool, true, false, ◌&&◌}
use mathlib.Core.List.{List, [], ◌∷◌}
use mathlib.Core.Logic.{◌↔◌}
use native.Mathlib.Omega.{arith}
use memory_leak.Prelude.Tests.{◌==◌}

unfoldable pub same : List ℕ → List ℕ → Bool
same [] [] = true
same [] (y ∷ b) = false
same (x ∷ a) [] = false
same (x ∷ a) (y ∷ b) = (x == y) && same a b

pub same_iff : (a b : List ℕ) → (same a b ≡ true) ↔ (a ≡ b)
unfolding same
same_iff [] [] = (λ _. refl, λ _. refl)
same_iff [] (y ∷ b) = (λ e. cc, λ e. cc)
same_iff (x ∷ a) [] = (λ e. cc, λ e. cc)
same_iff (x ∷ a) (y ∷ b) = (λ e. ground (arith, same_iff a b), λ e. ground (arith, same_iff a b))

pub same_refl : (a : List ℕ) → same a a ≡ true
same_refl a = (same_iff a a).1 refl
