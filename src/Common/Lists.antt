-- ===== src/Common/Lists.antt =====
-- Lists measured by native numbers: lengths, and sums of a weight over the entries.
use Prim.Native.Nat.{ℕ, zero, suc, ◌+◌, ◌≤◌}
use mathlib.Core.Path.{◌≡◌, refl, ap, ◌∙◌}
use mathlib.Core.List.{List, [], ◌∷◌, ◌++◌, append_assoc}
use mathlib.Core.Bool.{Bool, true, false}
use mathlib.Core.Option.{Option, none, some}
use native.Mathlib.Omega.{arith}

abbrev pub is_empty {ℓ} : {A : Type ℓ} → List A → Bool
is_empty [] = true
is_empty (x ∷ xs) = false

-- A predicate of every entry.
abbrev pub All {ℓ κ} : {A : Type ℓ} → (A → Type κ) → List A → Type κ
All P [] = Unit
All P (x ∷ xs) = P x × All P xs

module _ {ℓ} {A : Type ℓ} where
  abbrev pub length : List A → ℕ
  length [] = 0
  length (x ∷ xs) = suc (length xs)

  abbrev pub get_elem? : List A → ℕ → Option A
  get_elem? [] i = none
  get_elem? (x ∷ xs) zero = some x
  get_elem? (x ∷ xs) (suc i) = get_elem? xs i

  pub length-append : (xs ys : List A) → length (xs ++ ys) ≡ length xs + length ys
  length-append [] ys = omega arith
  length-append (x ∷ xs) ys = omega (arith, length-append xs ys)

  -- The sum of a weight over the entries.
  abbrev pub total : (A → ℕ) → List A → ℕ
  total w [] = 0
  total w (x ∷ xs) = w x + total w xs

  pub total-append : (w : A → ℕ) (xs ys : List A) → total w (xs ++ ys) ≡ total w xs + total w ys
  total-append w [] ys = omega arith
  total-append w (x ∷ xs) ys = omega (arith, total-append w xs ys)

  pub total-le : (v w : A → ℕ) (xs : List A) → ((x : A) → v x ≤ w x) → total v xs ≤ total w xs
  total-le v w [] h = omega arith
  total-le v w (x ∷ xs) h = omega (arith, h x, total-le v w xs h)

  pub length-total : (xs : List A) → length xs ≡ total (λ x. 1) xs
  length-total [] = refl
  length-total (x ∷ xs) = omega (arith, length-total xs)

  -- The lists that a function gives for the entries, one after the other.
  abbrev pub gather {κ} : {B : Type κ} → (A → List B) → List A → List B
  gather f [] = []
  gather f (x ∷ xs) = f x ++ gather f xs

  pub gather-append {κ} :
      {B : Type κ} (f : A → List B) (xs ys : List A)
      → gather f (xs ++ ys) ≡ gather f xs ++ gather f ys
  gather-append f [] ys = refl
  gather-append f (x ∷ xs) ys = rw (gather-append f xs ys, append_assoc)

  -- The weight of a list around a place, and that of a list split there.
  pub total-around :
      (w : A → ℕ) (xs ms ys : List A)
      → total w (xs ++ ms ++ ys) ≡ total w xs + total w ys + total w ms
  total-around w xs ms ys = omega (arith, total-append w (xs ++ ms) ys, total-append w xs ms)

  pub total-split :
      (w : A → ℕ) (zs xs : List A) (x : A) (ys : List A)
      → zs ≡ xs ++ x ∷ ys
      → total w zs ≡ total w xs + total w ys + w x
  total-split w zs xs x ys e = ap (total w) e ∙ omega (arith, total-append w xs (x ∷ ys))

  pub All-append {κ} : (P : A → Type κ) (xs ys : List A) → All P xs → All P ys → All P (xs ++ ys)
  All-append P [] ys h k = k
  All-append P (x ∷ xs) ys h k = (h.0, All-append P xs ys h.1 k)

  pub All-split {κ} : (P : A → Type κ) (xs ys : List A) → All P (xs ++ ys) → All P xs × All P ys
  All-split P [] ys h = (tt, h)
  All-split P (x ∷ xs) ys h = let (k, l) = All-split P xs ys h.1 in ((h.0, k), l)

  pub get_elem?-append :
      {x : A} (xs ys : List A) (n : ℕ) → get_elem? xs n ≡ some x → get_elem? (xs ++ ys) n ≡ some x
  get_elem?-append [] ys n e = ground arith
  get_elem?-append (x ∷ xs) ys zero e = e
  get_elem?-append (x ∷ xs) ys (suc n) e = get_elem?-append xs ys n e

  pub get_elem?-last : (xs : List A) (x : A) → get_elem? (xs ++ x ∷ []) (length xs) ≡ some x
  get_elem?-last [] x = refl
  get_elem?-last (y ∷ xs) x = get_elem?-last xs x
