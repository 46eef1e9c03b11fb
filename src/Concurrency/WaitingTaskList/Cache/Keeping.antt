-- ===== src/Concurrency/WaitingTaskList/Cache/Keeping.antt =====
-- What a node holds from the time it is made until the list is reset.
use unify_prototype.Common.{
  All, ℕ, ◌+◌, ◌%◌, ◌≡◌, refl, ◌∙◌, ◌<◌, Bool, true, false, List, [], ◌∷◌, some, ltb, if◌then◌else◌,
  arith, length, ap, ◌==◌, ==_iff,
}
use unify_prototype.Concurrency.WaitingTask.Defs.{uint_mod}
use unify_prototype.Concurrency.WaitingTaskList.Defs.{WaitNode}
use unify_prototype.Concurrency.WaitingTaskList.Cache.Defs.{
  Address, in_cache, on_heap, same_address, LinkedNode, Nodes, write, place, create_node,
  create_all, expand, reset_cache, Round, first_round, next_round,
}
use unify_prototype.Concurrency.WaitingTaskList.Cache.Growing.{
  create_node-last_assigned, Round-last_assigned,
}

abbrev pub is_in_cache : Address → Bool
is_in_cache (in_cache i) = true
is_in_cache (on_heap j) = false

-- A node that no other thread has linked: the link is the node itself, and the flag says whether
-- `announce` must leave it or delete it.
abbrev pub unlinked : Address → WaitNode → LinkedNode
unlinked a n = record { content = n; next = some a; from_cache = is_in_cache a }

-- The nodes at the addresses, in this order, hold these tasks.
abbrev pub Keeps : (Address → LinkedNode) → List Address → List WaitNode → Type 0
Keeps memory [] [] = Unit
Keeps memory [] (n ∷ ns) = ⊥
Keeps memory (a ∷ rest) [] = ⊥
Keeps memory (a ∷ rest) (n ∷ ns) = (memory a ≡ unlinked a n) × Keeps memory rest ns

abbrev pub AllDifferent : List Address → Type 0
AllDifferent [] = Unit
AllDifferent (a ∷ rest) = All (λ b. same_address a b ≡ false) rest × AllDifferent rest

-- Each node of the cache is marked as such.
abbrev pub Marked : Nodes → Type 0
Marked s = (i : ℕ) → (s.memory (in_cache i)).from_cache ≡ true

-- The address was given out.
abbrev pub Taken : ℕ → ℕ → Address → Type 0
Taken i k (in_cache j) = j < i
Taken i k (on_heap j) = j < k

==_refl : (i : ℕ) → (i == i) ≡ true
==_refl i = (==_iff i i).1 refl

pub write-same :
    (memory : Address → LinkedNode) (a : Address) (x : LinkedNode) → write memory a x a ≡ x
unfolding write
write-same memory (in_cache i) x = rw (==_refl i) refl
write-same memory (on_heap i) x = rw (==_refl i) refl

pub write-other :
    (memory : Address → LinkedNode) (a b : Address) (x : LinkedNode)
    → same_address a b ≡ false
    → write memory a x b ≡ memory b
unfolding write
write-other memory a b x e = rw e refl

-- What `place` writes into a node of the cache and into a new one.
abbrev reused : Nodes → ℕ → WaitNode → LinkedNode
reused s i n = record (s.memory (in_cache i)) { content = n; next = some (in_cache i) }

abbrev made : Nodes → WaitNode → LinkedNode
made s n = unlinked (on_heap s.allocations) n

place-other :
    (s : Nodes) (i : ℕ) (n : WaitNode) (b : Bool) (a : Address)
    → Taken i s.allocations a
    → (place s i n b).0.memory a ≡ s.memory a
unfolding place
place-other s i n true (in_cache j) t =
    write-other s.memory (in_cache i) (in_cache j) (reused s i n) (ground arith)
place-other s i n true (on_heap j) t =
    write-other s.memory (in_cache i) (on_heap j) (reused s i n) refl
place-other s i n false (in_cache j) t =
    write-other s.memory (on_heap s.allocations) (in_cache j) (made s n) refl
place-other s i n false (on_heap j) t =
    write-other s.memory (on_heap s.allocations) (on_heap j) (made s n) (ground arith)

place-Taken :
    (s : Nodes) (i : ℕ) (n : WaitNode) (b : Bool) (a : Address)
    → Taken i s.allocations a
    → Taken (i + 1) (place s i n b).0.allocations a
unfolding place
place-Taken s i n true (in_cache j) t = omega arith
place-Taken s i n true (on_heap j) t = t
place-Taken s i n false (in_cache j) t = omega arith
place-Taken s i n false (on_heap j) t = omega arith

place-Taken_new :
    (s : Nodes) (i : ℕ) (n : WaitNode) (b : Bool)
    → Taken (i + 1) (place s i n b).0.allocations (place s i n b).1
unfolding place
place-Taken_new s i n true = omega arith
place-Taken_new s i n false = omega arith

place-unlinked :
    (s : Nodes) (i : ℕ) (n : WaitNode) (b : Bool)
    → Marked s
    → (place s i n b).0.memory (place s i n b).1 ≡ unlinked (place s i n b).1 n
unfolding place
place-unlinked s i n true m =
    write-same s.memory (in_cache i) (reused s i n)
    ∙ ap (λ f. record { content = n; next = some (in_cache i); from_cache = f }) (m i)
place-unlinked s i n false m = write-same s.memory (on_heap s.allocations) (made s n)

choice-from_cache :
    (b : Bool) (x y : LinkedNode)
    → x.from_cache ≡ true
    → y.from_cache ≡ true
    → (if b then x else y).from_cache ≡ true
choice-from_cache true x y e f = e
choice-from_cache false x y e f = f

place-Marked : (s : Nodes) (i : ℕ) (n : WaitNode) (b : Bool) → Marked s → Marked (place s i n b).0
unfolding place write
place-Marked s i n true m j =
    choice-from_cache (i == j) (reused s i n) (s.memory (in_cache j)) (m i) (m j)
place-Marked s i n false m j = m j

module _ (s : Nodes) (n : WaitNode) where
  -- The state in which `create_node` calls `place`.
  abbrev counted : Nodes
  counted = record s { last_assigned = (s.last_assigned + 1) % uint_mod }

  abbrev room : Bool
  room = ltb s.last_assigned s.cache_size

  pub create_node-other :
      (a : Address)
      → Taken s.last_assigned s.allocations a
      → (create_node s n).0.memory a ≡ s.memory a
  unfolding create_node
  create_node-other a t = place-other counted s.last_assigned n room a t

  pub create_node-Taken :
      (a : Address)
      → s.last_assigned + 1 < uint_mod
      → Taken s.last_assigned s.allocations a
      → Taken (create_node s n).0.last_assigned (create_node s n).0.allocations a
  unfolding create_node
  create_node-Taken a lt t =
      rw (create_node-last_assigned s n lt) (place-Taken counted s.last_assigned n room a t)

  pub create_node-Taken_new :
      s.last_assigned + 1 < uint_mod
      → Taken (create_node s n).0.last_assigned (create_node s n).0.allocations (create_node s n).1
  unfolding create_node
  create_node-Taken_new lt =
      rw (create_node-last_assigned s n lt) (place-Taken_new counted s.last_assigned n room)

create_all-other :
    (s : Nodes) (ns : List WaitNode) (a : Address)
    → s.last_assigned + length ns < uint_mod
    → Taken s.last_assigned s.allocations a
    → (create_all s ns).0.memory a ≡ s.memory a
unfolding create_all
create_all-other s [] a lt t = refl
create_all-other s (n ∷ ns) a lt t =
    let one = create_node-last_assigned s n (omega arith) in
    create_all-other (create_node s n).0 ns a (omega arith)
      (create_node-Taken s n a (omega arith) t)
    ∙ create_node-other s n a t

place-other_address :
    (s : Nodes) (i : ℕ) (n : WaitNode) (b : Bool) (a : Address)
    → Taken i s.allocations a
    → same_address a (place s i n b).1 ≡ false
unfolding place
place-other_address s i n true (in_cache j) t = ground arith
place-other_address s i n true (on_heap j) t = refl
place-other_address s i n false (in_cache j) t = refl
place-other_address s i n false (on_heap j) t = ground arith

-- A node that was given out is not the one that `create_node` gives.
pub create_node-other_address :
    (s : Nodes) (n : WaitNode) (a : Address)
    → Taken s.last_assigned s.allocations a
    → same_address a (create_node s n).1 ≡ false
unfolding create_node
create_node-other_address s n a t =
    place-other_address (counted s n) s.last_assigned n (room s n) a t

place-content :
    (s : Nodes) (i : ℕ) (n : WaitNode) (b : Bool)
    → ((place s i n b).0.memory (place s i n b).1).content ≡ n
unfolding place
place-content s i n true = ap (λ x. x.content) (write-same s.memory (in_cache i) (reused s i n))
place-content s i n false =
    ap (λ x. x.content) (write-same s.memory (on_heap s.allocations) (made s n))

pub create_node-content :
    (s : Nodes) (n : WaitNode) → ((create_node s n).0.memory (create_node s n).1).content ≡ n
unfolding create_node
create_node-content s n = place-content (counted s n) s.last_assigned n (room s n)

create_all-other_address :
    (s : Nodes) (ns : List WaitNode) (a : Address)
    → s.last_assigned + length ns < uint_mod
    → Taken s.last_assigned s.allocations a
    → All (λ b. same_address a b ≡ false) (create_all s ns).1
unfolding create_all
create_all-other_address s [] a lt t = tt
create_all-other_address s (n ∷ ns) a lt t =
    let one = create_node-last_assigned s n (omega arith) in
    (
      create_node-other_address s n a t,
      create_all-other_address (create_node s n).0 ns a (omega arith)
          (create_node-Taken s n a (omega arith) t),
    )

create_all-AllDifferent :
    (s : Nodes) (ns : List WaitNode)
    → s.last_assigned + length ns < uint_mod
    → AllDifferent (create_all s ns).1
unfolding create_all
create_all-AllDifferent s [] lt = tt
create_all-AllDifferent s (n ∷ ns) lt =
    let one = create_node-last_assigned s n (omega arith) in
    let t = (create_node s n).0 in
    (
      create_all-other_address t ns (create_node s n).1 (omega arith)
          (create_node-Taken_new s n (omega arith)),
      create_all-AllDifferent t ns (omega arith),
    )

create_all-Keeps :
    (s : Nodes) (ns : List WaitNode)
    → Marked s
    → s.last_assigned + length ns < uint_mod
    → Keeps (create_all s ns).0.memory (create_all s ns).1 ns
unfolding create_all create_node
create_all-Keeps s [] m lt = tt
create_all-Keeps s (n ∷ ns) m lt =
    let one = create_node-last_assigned s n (omega arith) in
    let t = (create_node s n).0 in
    (
      create_all-other t ns (create_node s n).1 (omega arith)
            (create_node-Taken_new s n (omega arith))
          ∙ place-unlinked (counted s n) s.last_assigned n (room s n) m,
      create_all-Keeps t ns (place-Marked (counted s n) s.last_assigned n (room s n) m)
          (omega arith),
    )

create_all-Marked : (s : Nodes) (ns : List WaitNode) → Marked s → Marked (create_all s ns).0
unfolding create_all create_node
create_all-Marked s [] m = m
create_all-Marked s (n ∷ ns) m =
    create_all-Marked (create_node s n).0 ns
      (place-Marked (counted s n) s.last_assigned n (room s n) m)

expand-Marked :
    (new : Address → LinkedNode) (s : Nodes) (seen : ℕ) (b : Bool)
    → Marked s
    → Marked (expand new s seen b)
expand-Marked new s seen true m i = refl
expand-Marked new s seen false m i = m i

Round-Marked : {s : Nodes} → Round s → Marked s
unfolding reset_cache
Round-Marked (first_round new n) i = refl
Round-Marked (next_round {s} r ns lt new) i =
    let t = (create_all s ns).0 in
    expand-Marked new (record t { last_assigned = 0 }) t.last_assigned
      (ltb t.cache_size t.last_assigned) (create_all-Marked s ns (Round-Marked r)) i

-- In a round of fewer than 2^32 nodes no node is given out twice. Each node holds its task until the
-- last one is made, is its own link until then, and is marked as one of the cache exactly if it is
-- one.
pub Round-Keeps :
    {s : Nodes}
    → Round s
    → (ns : List WaitNode) → length ns < uint_mod
    → AllDifferent (create_all s ns).1 × Keeps (create_all s ns).0.memory (create_all s ns).1 ns
Round-Keeps {s} r ns lt =
    let first = Round-last_assigned r in
    (
      create_all-AllDifferent s ns (omega arith),
      create_all-Keeps s ns (Round-Marked r) (omega arith),
    )
