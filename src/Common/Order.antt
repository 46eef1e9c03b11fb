-- ===== src/Common/Order.antt =====
-- Three-way comparison, as C++'s `std::strong_ordering`: the interface, and its instances.
use Prim.Native.Nat.{ℕ, compare, Ordering, lt, eq, gt}
use mathlib.Core.Path.{◌≡◌, refl}
use mathlib.Core.Logic.{◌↔◌}
use mathlib.Core.List.{List, [], ◌∷◌}
use native.Mathlib.Omega.{arith}

-- A strict total order, by one comparison.
pub record Ord (K : Type 0) : Type 0 where
  pub cmp : K → K → Ordering
  pub cmp-eq_iff : (a b : K) → (cmp a b ≡ eq) ↔ (a ≡ b)
  pub cmp-gt : (a b : K) → cmp a b ≡ gt → cmp b a ≡ lt
  pub cmp-trans : (a b c : K) → cmp a b ≡ lt → cmp b c ≡ lt → cmp a c ≡ lt

-- Lexicographic comparison: the second one decides where the first finds no difference.
abbrev pub and_then : Ordering → Ordering → Ordering
and_then lt o = lt
and_then eq o = o
and_then gt o = gt

pub compare_trans : (a b c : ℕ) → compare a b ≡ lt → compare b c ≡ lt → compare a c ≡ lt
compare_trans a b c h k = ground arith

pub compare-gt : (a b : ℕ) → compare a b ≡ gt → compare b a ≡ lt
compare-gt a b h = ground arith

pub compare-eq_iff : (a b : ℕ) → (compare a b ≡ eq) ↔ (a ≡ b)
compare-eq_iff a b = ground arith

instance abbrev pub nat_ord : Ord ℕ
nat_ord = record {
  cmp = compare;
  cmp-eq_iff = compare-eq_iff;
  cmp-gt = compare-gt;
  cmp-trans = compare_trans;
}

module _ {A : Type 0} ⦃o : Ord A⦄ where
  abbrev pub cmp_list : List A → List A → Ordering
  cmp_list [] [] = eq
  cmp_list [] (y ∷ ys) = lt
  cmp_list (x ∷ xs) [] = gt
  cmp_list (x ∷ xs) (y ∷ ys) = and_then (o.cmp x y) (cmp_list xs ys)

  pub cmp_list-eq_iff : (xs ys : List A) → (cmp_list xs ys ≡ eq) ↔ (xs ≡ ys)
  cmp_list-eq_iff [] [] = ground arith
  cmp_list-eq_iff [] (y ∷ ys) = ground arith
  cmp_list-eq_iff (x ∷ xs) [] = ground arith
  cmp_list-eq_iff (x ∷ xs) (y ∷ ys) = ground (arith, o.cmp-eq_iff x y, cmp_list-eq_iff xs ys)

  pub cmp_list-gt : (xs ys : List A) → cmp_list xs ys ≡ gt → cmp_list ys xs ≡ lt
  cmp_list-gt [] [] h = ground arith
  cmp_list-gt [] (y ∷ ys) h = ground arith
  cmp_list-gt (x ∷ xs) [] h = refl
  cmp_list-gt (x ∷ xs) (y ∷ ys) h =
      ground (arith, o.cmp-eq_iff x y, o.cmp-eq_iff y x, o.cmp-gt x y, cmp_list-gt xs ys)

  pub cmp_list_trans :
      (xs ys zs : List A) → cmp_list xs ys ≡ lt → cmp_list ys zs ≡ lt → cmp_list xs zs ≡ lt
  cmp_list_trans [] ys [] h k = ground arith
  cmp_list_trans [] ys (z ∷ zs) h k = refl
  cmp_list_trans (x ∷ xs) [] zs h k = ground arith
  cmp_list_trans (x ∷ xs) (y ∷ ys) [] h k = ground arith
  cmp_list_trans (x ∷ xs) (y ∷ ys) (z ∷ zs) h k = ground (
    arith,
    o.cmp-eq_iff x y,
    o.cmp-eq_iff y z,
    o.cmp-eq_iff x z,
    o.cmp-trans x y z,
    cmp_list_trans xs ys zs,
  )

  instance abbrev pub list_ord : Ord (List A)
  list_ord = record {
    cmp = cmp_list;
    cmp-eq_iff = cmp_list-eq_iff;
    cmp-gt = cmp_list-gt;
    cmp-trans = cmp_list_trans;
  }

module _ {A B : Type 0} ⦃o : Ord A⦄ ⦃p : Ord B⦄ where
  abbrev pub cmp_pair : A × B → A × B → Ordering
  cmp_pair x y = and_then (o.cmp x.0 y.0) (p.cmp x.1 y.1)

  pub cmp_pair-eq_iff : (x y : A × B) → (cmp_pair x y ≡ eq) ↔ (x ≡ y)
  cmp_pair-eq_iff (a, b) (c, d) = ground (arith, o.cmp-eq_iff a c, p.cmp-eq_iff b d)

  pub cmp_pair-gt : (x y : A × B) → cmp_pair x y ≡ gt → cmp_pair y x ≡ lt
  cmp_pair-gt (a, b) (c, d) h =
      ground (arith, o.cmp-eq_iff a c, o.cmp-eq_iff c a, o.cmp-gt a c, p.cmp-gt b d)

  pub cmp_pair_trans : (x y z : A × B) → cmp_pair x y ≡ lt → cmp_pair y z ≡ lt → cmp_pair x z ≡ lt
  cmp_pair_trans (a, b) (c, d) (e, f) h k = ground (
    arith,
    o.cmp-eq_iff a c,
    o.cmp-eq_iff c e,
    o.cmp-eq_iff a e,
    o.cmp-trans a c e,
    p.cmp-trans b d f,
  )

  instance abbrev pub pair_ord : Ord (A × B)
  pair_ord = record {
    cmp = cmp_pair;
    cmp-eq_iff = cmp_pair-eq_iff;
    cmp-gt = cmp_pair-gt;
    cmp-trans = cmp_pair_trans;
  }
