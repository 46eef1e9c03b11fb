-- ===== src/Common/OrderedMap.antt =====
-- `std::map` as the list of its entries in the order of their keys.
use Prim.Native.Nat.{suc, lt, eq, gt}
use mathlib.Core.Path.{◌≡◌, refl}
use mathlib.Core.Logic.{◌≢◌, ◌⊎◌, inl, inr}
use mathlib.Core.List.{List, [], ◌∷◌}
use mathlib.Core.Option.{Option, none, some}
use native.Mathlib.Omega.{arith}
use unify_prototype.Common.Order.{Ord}
use unify_prototype.Common.Lists.{length}

module _ {K V : Type 0} ⦃o : Ord K⦄ where
  -- `find`: the value at a key.
  unfoldable pub find : K → List (K × V) → Option V
  find k [] = none
  find k ((j, v) ∷ m) = elim (o.cmp k j) [ eq ↦ some v | _ ↦ find k m ]

  -- `m[k] = v`.
  unfoldable pub put : K → V → List (K × V) → List (K × V)
  put k v [] = (k, v) ∷ []
  put k v ((j, w) ∷ m) = elim (o.cmp k j) [
    | lt ↦ (k, v) ∷ (j, w) ∷ m
    | eq ↦ (k, v) ∷ m
    | gt ↦ (j, w) ∷ put k v m
  ]

  pub find-cons_self : (k : K) (v : V) (m : List (K × V)) → find k ((k, v) ∷ m) ≡ some v
  unfolding find
  find-cons_self k v m = ground (arith, o.cmp-eq_iff k k)

  pub find-cons_ne : (k j : K) (v : V) (m : List (K × V)) → k ≢ j → find k ((j, v) ∷ m) ≡ find k m
  unfolding find
  find-cons_ne k j v m h = ground (arith, o.cmp-eq_iff k j)

  -- Every key of the list is above `k`.
  abbrev pub Above : K → List (K × V) → Type 0
  Above k [] = Unit
  Above k ((j, v) ∷ m) = (o.cmp k j ≡ lt) × Above k m

  abbrev pub IsSorted : List (K × V) → Type 0
  IsSorted [] = Unit
  IsSorted ((k, v) ∷ m) = Above k m × IsSorted m

  pub find-put_self : (k : K) (v : V) (m : List (K × V)) → find k (put k v m) ≡ some v
  unfolding find put
  find-put_self k v [] = ground (arith, o.cmp-eq_iff k k)
  find-put_self k v ((j, w) ∷ m) = ground (arith, o.cmp-eq_iff k k, find-put_self k v m)

  pub find-put_ne : (k j : K) (v : V) (m : List (K × V)) → j ≢ k → find j (put k v m) ≡ find j m
  unfolding find put
  find-put_ne k j v [] h = ground (arith, o.cmp-eq_iff j k)
  find-put_ne k j v ((i, w) ∷ m) h =
      ground (arith, o.cmp-eq_iff j k, o.cmp-eq_iff k i, find-put_ne k j v m h)

  Above-trans : (k j : K) (m : List (K × V)) → o.cmp k j ≡ lt → Above j m → Above k m
  Above-trans k j [] h a = tt
  Above-trans k j ((i, v) ∷ m) h a = (o.cmp-trans k j i h a.0, Above-trans k j m h a.1)

  Above-put :
      (i k : K) (v : V) (m : List (K × V)) → o.cmp i k ≡ lt → Above i m → Above i (put k v m)
  unfolding put
  Above-put i k v [] h a = (h, tt)
  Above-put i k v ((j, w) ∷ m) h a = ground (arith, Above-put i k v m h a.1)

  pub put-IsSorted : (k : K) (v : V) (m : List (K × V)) → IsSorted m → IsSorted (put k v m)
  unfolding put
  put-IsSorted k v [] s = (tt, tt)
  put-IsSorted k v ((j, w) ∷ m) s = ground (
    arith,
    o.cmp-eq_iff k j,
    o.cmp-gt k j,
    Above-trans k j m,
    Above-put j k v m,
    put-IsSorted k v m s.1,
  )

  pub find-Above : (k : K) (m : List (K × V)) → Above k m → find k m ≡ none
  unfolding find
  find-Above k [] a = refl
  find-Above k ((j, v) ∷ m) a = ground (arith, find-Above k m a.1)

  -- A new key makes the map longer by one.
  pub length-put_new :
      (k : K) (v : V) (m : List (K × V)) → find k m ≡ none → length (put k v m) ≡ suc (length m)
  unfolding find put
  length-put_new k v [] h = refl
  length-put_new k v ((j, w) ∷ m) h = ground (arith, length-put_new k v m)

  -- The entries of a list.
  abbrev pub Entry : K → V → List (K × V) → Type 0
  Entry k v [] = ⊥
  Entry k v ((j, w) ∷ m) = ((k ≡ j) × (v ≡ w)) ⊎ Entry k v m

  pub find-Entry : (k : K) (v : V) (m : List (K × V)) → find k m ≡ some v → Entry k v m
  unfolding find
  find-Entry k v [] h = cc
  find-Entry k v ((j, w) ∷ m) h = ground (arith, o.cmp-eq_iff k j, find-Entry k v m)

  Entry-Above : (j k : K) (v : V) (m : List (K × V)) → Above j m → Entry k v m → o.cmp j k ≡ lt
  Entry-Above j k v [] a e = elim e [ ]
  Entry-Above j k v ((i, w) ∷ m) a (inl (p, q)) = rw p a.0
  Entry-Above j k v ((i, w) ∷ m) a (inr e) = Entry-Above j k v m a.1 e

  -- In a sorted map the lookup finds every entry.
  pub Entry-find : (k : K) (v : V) (m : List (K × V)) → IsSorted m → Entry k v m → find k m ≡ some v
  unfolding find
  Entry-find k v [] s e = elim e [ ]
  Entry-find k v ((j, w) ∷ m) s (inl (p, q)) = ground (arith, o.cmp-eq_iff k j)
  Entry-find k v ((j, w) ∷ m) s (inr e) =
      ground (
        arith,
        o.cmp-eq_iff k j,
        o.cmp-eq_iff k k,
        Entry-Above j k v m s.0 e,
        Entry-find k v m s.1 e,
      )
