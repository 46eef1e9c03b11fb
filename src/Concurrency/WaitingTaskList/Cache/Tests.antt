-- ===== src/Concurrency/WaitingTaskList/Cache/Tests.antt =====
-- A list with a cache of two nodes: three tasks come in its first round, two in the next.
use unify_prototype.Common.{some, ℕ, ◌≡◌, refl, List, [], ◌∷◌, none, false, arith}
use unify_prototype.Concurrency.WaitingTaskList.Defs.{WaitNode}
use unify_prototype.Concurrency.WaitingTaskList.Cache.Defs.{
  Address, in_cache, on_heap, LinkedNode, Nodes, make_cache, reset_cache, write, place, create_node,
  create_all, first_round, next_round,
}
use unify_prototype.Concurrency.WaitingTaskList.Cache.Keeping.{AllDifferent, Keeps, Round-Keeps}
use unify_prototype.Concurrency.WaitingTaskList.Cache.Links.{Linked, add_all_nodes, walk_nodes}
use unify_prototype.Concurrency.WaitingTaskList.Cache.Walking.{walk_nodes-add_all_nodes}
use unify_prototype.Concurrency.WaitingTaskList.Cache.Growing.{reset_cache-suffices}

abbrev empty : Address → LinkedNode
empty a = record { content = record { task = 0; group = 0 }; next = none; from_cache = false }

abbrev node_of : ℕ → WaitNode
node_of t = record { task = t; group = 1 }

abbrev three : List WaitNode
three = node_of 5 ∷ node_of 6 ∷ node_of 7 ∷ []

abbrev two : List WaitNode
two = node_of 8 ∷ node_of 9 ∷ []

abbrev begun : Nodes
begun = make_cache empty 2

abbrev empty_list : Linked
empty_list = record { nodes = begun; head = none }

-- The third node is new memory.
three_addresses : (create_all begun three).1 ≡ in_cache 0 ∷ in_cache 1 ∷ on_heap 0 ∷ []
unfolding create_all create_node place write
three_addresses = refl

grown : (reset_cache empty (create_all begun three).0).cache_size ≡ 3
unfolding create_all create_node place write reset_cache
grown = refl

Round-Keeps_example :
    AllDifferent (create_all (reset_cache empty (create_all begun three).0) two).1
    × Keeps
        (create_all (reset_cache empty (create_all begun three).0) two).0.memory
        (create_all (reset_cache empty (create_all begun three).0) two).1
        two
Round-Keeps_example =
    Round-Keeps (next_round (first_round empty 2) three (omega arith) empty) two (omega arith)

reset_cache-suffices_example :
    (create_all (reset_cache empty (create_all begun three).0) two).0.allocations
    ≡ (create_all begun three).0.allocations
reset_cache-suffices_example =
    reset_cache-suffices (first_round empty 2) three two empty (omega arith) (omega arith)

walk_nodes-add_all_nodes_example :
    walk_nodes 4
      (add_all_nodes empty_list three).nodes.memory
      []
      (add_all_nodes empty_list three).head
    ≡ some (node_of 7 ∷ node_of 6 ∷ node_of 5 ∷ [])
walk_nodes-add_all_nodes_example =
    walk_nodes-add_all_nodes (first_round empty 2) three (omega arith)
