-- ===== src/Concurrency/WaitingTaskList/Cache/Growing.antt =====
-- The cache has grown enough for the next round.
use unify_prototype.Common.{
  ℕ, ◌+◌, ◌%◌, ◌≡◌, refl, ◌≤◌, ◌<◌, ◌∙◌, Bool, true, false, List, [], ◌∷◌, ltb, arith, length,
}
use unify_prototype.Concurrency.WaitingTask.Defs.{uint_mod}
use unify_prototype.Concurrency.WaitingTaskList.Defs.{WaitNode}
use unify_prototype.Concurrency.WaitingTaskList.Cache.Defs.{
  Address, LinkedNode, Nodes, place, create_node, create_all, expand, reset_cache, Round,
  first_round, next_round,
}

place-cache_size :
    (s : Nodes) (i : ℕ) (n : WaitNode) (b : Bool) → (place s i n b).0.cache_size ≡ s.cache_size
unfolding place
place-cache_size s i n true = refl
place-cache_size s i n false = refl

pub place-last_assigned :
    (s : Nodes) (i : ℕ) (n : WaitNode) (b : Bool)
    → (place s i n b).0.last_assigned ≡ s.last_assigned
unfolding place
place-last_assigned s i n true = refl
place-last_assigned s i n false = refl

place-allocations :
    (s : Nodes) (i : ℕ) (n : WaitNode) (b : Bool)
    → b ≡ true
    → (place s i n b).0.allocations ≡ s.allocations
unfolding place
place-allocations s i n true e = refl
place-allocations s i n false e = ground arith

pub create_node-last_assigned :
    (s : Nodes) (n : WaitNode)
    → s.last_assigned + 1 < uint_mod
    → (create_node s n).0.last_assigned ≡ s.last_assigned + 1
unfolding create_node
create_node-last_assigned s n lt =
    place-last_assigned (record s { last_assigned = (s.last_assigned + 1) % uint_mod })
      s.last_assigned n (ltb s.last_assigned s.cache_size)
    ∙ omega arith

create_node-cache_size : (s : Nodes) (n : WaitNode) → (create_node s n).0.cache_size ≡ s.cache_size
unfolding create_node
create_node-cache_size s n =
    place-cache_size (record s { last_assigned = (s.last_assigned + 1) % uint_mod }) s.last_assigned
      n (ltb s.last_assigned s.cache_size)

create_node-allocations :
    (s : Nodes) (n : WaitNode)
    → s.last_assigned < s.cache_size
    → (create_node s n).0.allocations ≡ s.allocations
unfolding create_node
create_node-allocations s n lt =
    place-allocations (record s { last_assigned = (s.last_assigned + 1) % uint_mod })
      s.last_assigned n (ltb s.last_assigned s.cache_size) (ground arith)

create_all-last_assigned :
    (s : Nodes) (ns : List WaitNode)
    → s.last_assigned + length ns < uint_mod
    → (create_all s ns).0.last_assigned ≡ s.last_assigned + length ns
unfolding create_all
create_all-last_assigned s [] lt = omega arith
create_all-last_assigned s (n ∷ ns) lt =
    let one = create_node-last_assigned s n (omega arith) in
    create_all-last_assigned (create_node s n).0 ns (omega arith) ∙ omega arith

-- While the cache has room, no memory is asked for.
create_all-allocations :
    (s : Nodes) (ns : List WaitNode)
    → s.last_assigned + length ns ≤ s.cache_size
    → s.last_assigned + length ns < uint_mod
    → (create_all s ns).0.allocations ≡ s.allocations
unfolding create_all
create_all-allocations s [] le lt = refl
create_all-allocations s (n ∷ ns) le lt =
    let one = create_node-last_assigned s n (omega arith) in
    let size = create_node-cache_size s n in
    create_all-allocations (create_node s n).0 ns (omega arith) (omega arith)
    ∙ create_node-allocations s n (omega arith)

expand-last_assigned :
    (new : Address → LinkedNode) (s : Nodes) (seen : ℕ) (b : Bool)
    → (expand new s seen b).last_assigned ≡ s.last_assigned
expand-last_assigned new s seen true = refl
expand-last_assigned new s seen false = refl

pub reset_cache-last_assigned :
    (new : Address → LinkedNode) (s : Nodes) → (reset_cache new s).last_assigned ≡ 0
unfolding reset_cache
reset_cache-last_assigned new s =
    expand-last_assigned new (record s { last_assigned = 0 }) s.last_assigned
      (ltb s.cache_size s.last_assigned)

expand-allocations :
    (new : Address → LinkedNode) (s : Nodes) (seen : ℕ) (b : Bool)
    → (expand new s seen b).allocations ≡ s.allocations
expand-allocations new s seen true = refl
expand-allocations new s seen false = refl

pub reset_cache-allocations :
    (new : Address → LinkedNode) (s : Nodes) → (reset_cache new s).allocations ≡ s.allocations
unfolding reset_cache
reset_cache-allocations new s =
    expand-allocations new (record s { last_assigned = 0 }) s.last_assigned
      (ltb s.cache_size s.last_assigned)

-- A round begins at the first index.
pub Round-last_assigned : {s : Nodes} → Round s → s.last_assigned ≡ 0
Round-last_assigned (first_round new n) = refl
Round-last_assigned (next_round {s} r ns lt new) = reset_cache-last_assigned new (create_all s ns).0

expand-cache_size :
    (new : Address → LinkedNode) (s : Nodes) (seen : ℕ) (b : Bool)
    → b ≡ ltb s.cache_size seen
    → seen ≤ (expand new s seen b).cache_size
expand-cache_size new s seen true e = omega arith
expand-cache_size new s seen false e = ground arith

reset_cache-cache_size :
    (new : Address → LinkedNode) (s : Nodes) → s.last_assigned ≤ (reset_cache new s).cache_size
unfolding reset_cache
reset_cache-cache_size new s =
    expand-cache_size new (record s { last_assigned = 0 }) s.last_assigned
      (ltb s.cache_size s.last_assigned) refl

-- When a round of fewer than 2^32 nodes is over and the list is reset, a next round of at most as
-- many nodes makes no `new WaitNode`.
pub reset_cache-suffices :
    {s : Nodes}
    → Round s
    → (ns ms : List WaitNode) (new : Address → LinkedNode) → length ns < uint_mod
    → length ms ≤ length ns
    → (create_all (reset_cache new (create_all s ns).0) ms).0.allocations
      ≡ (create_all s ns).0.allocations
reset_cache-suffices {s} r ns ms new lt le =
    let t = (create_all s ns).0 in
    let zero_index = Round-last_assigned r in
    let seen = create_all-last_assigned s ns (omega arith) in
    let first = reset_cache-last_assigned new t in
    let size = reset_cache-cache_size new t in
    create_all-allocations (reset_cache new t) ms (omega arith) (omega arith)
    ∙ reset_cache-allocations new t
