-- ===== src/Concurrency/AddOnlyContainer/Nodes.antt =====
-- The nodes that hang together from a pointer, and what changes of the store leave of them.
use unify_prototype.Common.{
  is, ℕ, zero, suc, ◌≤◌, ◌≡◌, refl, ==_iff, true, List, [], ◌∷◌, ◌++◌, Option, none, some, arith,
  length, total, get_elem?, get_elem?-append, All, ◌∙◌, ap,
}
use unify_prototype.Concurrency.AddOnlyContainer.Defs.{
  Node, set_next, Pc, loading, making, exchanging, linking, same, delete_from,
}

pub same-≡ : (u v : Option ℕ) → same u v ≡ true → u ≡ v
same-≡ none none e = refl
same-≡ none (some n) e = ground arith
same-≡ (some m) none e = ground arith
same-≡ (some m) (some n) e = ap some ((==_iff m n).0 e)

module _ {A : Type 0} where
  -- The nodes at the addresses are linked in this order, from the pointer to the null pointer.
  abbrev pub Trail : List (Node A) → Option ℕ → List ℕ → Type 0
  Trail nodes v [] = v ≡ none
  Trail nodes v (n ∷ ns) =
      (v ≡ some n) × ((x : Node A) × (get_elem? nodes n ≡ some x) × Trail nodes x.next ns)

  pub Trail-append :
      (xs ys : List (Node A)) (v : Option ℕ) (ns : List ℕ) → Trail xs v ns → Trail (xs ++ ys) v ns
  Trail-append xs ys v [] h = h
  Trail-append xs ys v (n ∷ ns) (e, (x, g, h)) =
      (e, (x, get_elem?-append xs ys n g, Trail-append xs ys x.next ns h))

  pub get_elem?-set_next :
      {x : Node A} (xs : List (Node A)) (n : ℕ) (v : Option ℕ)
      → get_elem? xs n ≡ some x
      → get_elem? (set_next xs n v) n ≡ some (record x { next = v })
  get_elem?-set_next [] n v e = ground arith
  get_elem?-set_next (y ∷ xs) zero v e = ground arith
  get_elem?-set_next (y ∷ xs) (suc n) v e = get_elem?-set_next xs n v e

  pub get_elem?-set_next_other :
      (xs : List (Node A)) (n m : ℕ) (v : Option ℕ)
      → is n m ≡ 0
      → get_elem? (set_next xs n v) m ≡ get_elem? xs m
  get_elem?-set_next_other [] n m v h = refl
  get_elem?-set_next_other (x ∷ xs) zero zero v h = ground arith
  get_elem?-set_next_other (x ∷ xs) zero (suc m) v h = refl
  get_elem?-set_next_other (x ∷ xs) (suc n) zero v h = refl
  get_elem?-set_next_other (x ∷ xs) (suc n) (suc m) v h =
      get_elem?-set_next_other xs n m v (ground arith)

  pub Trail-set_next :
      (xs : List (Node A)) (n : ℕ) (u v : Option ℕ) (ns : List ℕ)
      → total (is n) ns ≡ 0
      → Trail xs v ns
      → Trail (set_next xs n u) v ns
  Trail-set_next xs n u v [] z h = h
  Trail-set_next xs n u v (m ∷ ns) z (e, (x, g, h)) =
      let other : get_elem? (set_next xs n u) m ≡ some x =
        get_elem?-set_next_other xs n m u (omega arith) ∙ g in
      (e, (x, other, Trail-set_next xs n u x.next ns (omega arith) h))

  pub length-set_next :
      (xs : List (Node A)) (n : ℕ) (v : Option ℕ) → length (set_next xs n v) ≡ length xs
  length-set_next [] n v = refl
  length-set_next (x ∷ xs) zero v = refl
  length-set_next (x ∷ xs) (suc n) v = ap suc (length-set_next xs n v)

  pub length-snoc : (xs : List (Node A)) (x : Node A) → length (xs ++ x ∷ []) ≡ suc (length xs)
  length-snoc [] x = refl
  length-snoc (y ∷ xs) x = ap suc (length-snoc xs x)

  -- The destructor goes along the trail.
  pub delete_from-Trail :
      (fuel : ℕ) (nodes : List (Node A)) (v : Option ℕ) (ns : List ℕ)
      → length ns ≤ fuel
      → Trail nodes v ns
      → delete_from fuel nodes v ≡ some ns
  unfolding delete_from
  delete_from-Trail fuel nodes v [] le h = rw h refl
  delete_from-Trail zero nodes v (n ∷ ns) le h = absurd (omega arith)
  delete_from-Trail (suc fuel) nodes v (n ∷ ns) le (e, (x, g, h)) =
      rw (e, g, delete_from-Trail fuel nodes x.next ns (omega arith) h)

  -- A node that a call has made has the pointer that the call expects, unless it is about to set it.
  abbrev pub Linked : List (Node A) → Pc A → Type 0
  Linked nodes (loading a) = Unit
  Linked nodes (making e a) = Unit
  Linked nodes (exchanging n e) =
      (a : A) × (get_elem? nodes n ≡ some (record { next = e; object = a }))
  Linked nodes (linking n e) = (x : Node A) × (get_elem? nodes n ≡ some x)

  -- The weight of the nodes that calls have made and not yet put in front.
  abbrev pub pends : (ℕ → ℕ) → Pc A → ℕ
  pends w (exchanging n e) = w n
  pends w (linking n e) = w n
  pends w _ = 0

  pub Linked-append :
      (xs ys : List (Node A)) (cs : List (Pc A)) → All (Linked xs) cs → All (Linked (xs ++ ys)) cs
  Linked-append xs ys [] h = tt
  Linked-append xs ys (loading a ∷ cs) h = (tt, Linked-append xs ys cs h.1)
  Linked-append xs ys (making e a ∷ cs) h = (tt, Linked-append xs ys cs h.1)
  Linked-append xs ys (exchanging n e ∷ cs) ((a, g), h) =
      ((a, get_elem?-append xs ys n g), Linked-append xs ys cs h)
  Linked-append xs ys (linking n e ∷ cs) ((x, g), h) =
      ((x, get_elem?-append xs ys n g), Linked-append xs ys cs h)

  pub Linked-set_next :
      (xs : List (Node A)) (n : ℕ) (v : Option ℕ) (cs : List (Pc A))
      → total (pends (is n)) cs ≡ 0
      → All (Linked xs) cs
      → All (Linked (set_next xs n v)) cs
  Linked-set_next xs n v [] z h = tt
  Linked-set_next xs n v (loading a ∷ cs) z h = (tt, Linked-set_next xs n v cs (omega arith) h.1)
  Linked-set_next xs n v (making e a ∷ cs) z h = (tt, Linked-set_next xs n v cs (omega arith) h.1)
  Linked-set_next xs n v (exchanging m e ∷ cs) z ((a, g), h) = (
    (a, get_elem?-set_next_other xs n m v (omega arith) ∙ g),
    Linked-set_next xs n v cs (omega arith) h,
  )
  Linked-set_next xs n v (linking m e ∷ cs) z ((x, g), h) = (
    (x, get_elem?-set_next_other xs n m v (omega arith) ∙ g),
    Linked-set_next xs n v cs (omega arith) h,
  )
