-- ===== src/Prelude/Bytes.antt =====
-- Equality of strings and buffers as the programs test it.
use Prim.Native.Nat.{ℕ}
use mathlib.Core.Path.{◌≡◌, refl}
use mathlib.Core.Logic.{◌↔◌}
use mathlib.Core.Bool.{Bool, true, false, ◌&&◌}
use mathlib.Core.List.{List, [], ◌∷◌}
use native.Mathlib.Omega.{arith}
use linuxax.Prelude.Tests.{◌==◌, ==_iff}

-- `strcmp` or `memcmp` of buffers of one length, as an equality.
unfoldable pub same : List ℕ → List ℕ → Bool
same [] [] = true
same (x ∷ xs) (y ∷ ys) = (x == y) && same xs ys
same _ _ = false

cons_inj : (x y : ℕ) (xs ys : List ℕ) → x ∷ xs ≡ y ∷ ys → (x ≡ y) × (xs ≡ ys)
cons_inj x y xs ys e = (cc, cc)

pub same_iff : (xs ys : List ℕ) → (same xs ys ≡ true) ↔ (xs ≡ ys)
unfolding same
same_iff [] [] = (λ e. refl, λ e. refl)
same_iff [] (y ∷ ys) = (λ e. absurd (cc), λ e. absurd (cc))
same_iff (x ∷ xs) [] = (λ e. absurd (cc), λ e. absurd (cc))
same_iff (x ∷ xs) (y ∷ ys) = ground (arith, ==_iff x y, same_iff xs ys, cons_inj x y xs ys)
