-- ===== src/Common/Sums.antt =====
-- Sums of a weight over the first numbers.
use Prim.Native.Nat.{ℕ, zero, suc, ◌+◌, ◌≤◌, ◌<◌}
use mathlib.Core.Path.{◌≡◌, refl}
use mathlib.Core.Logic.{inl, inr}
use mathlib.Core.List.{List, [], ◌∷◌}
use native.Mathlib.Omega.{arith}
use unify_prototype.Common.Tests.{◌==◌, ==_iff, Bool-cases, to_ℕ}
use unify_prototype.Common.Lists.{total}

-- The weight of the numbers below one.
abbrev pub sum_below : (ℕ → ℕ) → ℕ → ℕ
sum_below w zero = 0
sum_below w (suc k) = sum_below w k + w k

-- The weight that counts one number.
abbrev pub is : ℕ → ℕ → ℕ
is n m = to_ℕ (m == n)

sum_below-0 : (n k : ℕ) → k ≤ n → sum_below (is n) k ≡ 0
sum_below-0 n zero h = refl
sum_below-0 n (suc k) h = ground (arith, sum_below-0 n k)

pub sum_below-is : (n k : ℕ) → sum_below (is n) k ≤ 1
sum_below-is n zero = omega arith
sum_below-is n (suc k) = ground (arith, sum_below-is n k, sum_below-0 n k)

pub sum_below-1 : (k : ℕ) → sum_below (λ n. 1) k ≡ k
sum_below-1 zero = refl
sum_below-1 (suc k) = omega (arith, sum_below-1 k)

sum_below-add : (v w : ℕ → ℕ) (k : ℕ) → sum_below (λ i. v i + w i) k ≡ sum_below v k + sum_below w k
sum_below-add v w zero = refl
sum_below-add v w (suc k) = omega (arith, sum_below-add v w k)

sum_below-none : (k : ℕ) → sum_below (λ i. 0) k ≡ 0
sum_below-none zero = refl
sum_below-none (suc k) = omega (arith, sum_below-none k)

-- A weight of two arguments is summed in either order.
pub sum_below-total {ℓ} :
    {A : Type ℓ} (w : ℕ → A → ℕ) (k : ℕ) (xs : List A)
    → sum_below (λ i. total (w i) xs) k ≡ total (λ x. sum_below (λ i. w i x) k) xs
sum_below-total w k [] = sum_below-none k
sum_below-total w k (x ∷ xs) =
    omega (arith, sum_below-add (λ i. w i x) (λ i. total (w i) xs) k, sum_below-total w k xs)

pub sum_below-le : (w : ℕ → ℕ) (k : ℕ) → ((i : ℕ) → w i ≤ 1) → sum_below w k ≤ k
sum_below-le w zero h = omega arith
sum_below-le w (suc k) h = omega (arith, sum_below-le w k h, h k)

pub sum_below-at : (w : ℕ → ℕ) (i k : ℕ) → i < k → w i ≤ sum_below w k
sum_below-at w i zero lt = absurd (omega arith)
sum_below-at w i (suc k) lt = elim (Bool-cases (i == k)) [
  | inl q ↦ rw ((==_iff i k).0 q) (omega arith)
  | inr q ↦ let ih = sum_below-at w i k (ground arith) in omega (arith, ih)
]
