-- ===== src/Concurrency/WaitingTaskList/Cache/Defs.antt =====
-- `createNode`, and the cache of nodes that the constructor makes and `reset` renews. A pointer to
-- a node says where the node stands; what is in new memory is a parameter.
use unify_prototype.Common.{
  ℕ, ◌+◌, ◌%◌, ◌<◌, length, Bool, true, false, List, [], ◌∷◌, Option, some, ltb, if◌then◌else◌,
  ◌==◌,
}
use unify_prototype.Concurrency.WaitingTaskList.Defs.{WaitNode}
use unify_prototype.Concurrency.WaitingTask.Defs.{uint_mod}

-- The address of a node: its index in the cache, or the number of the `new WaitNode`.
pub data Address : Type 0 where
  in_cache : ℕ → Address
  on_heap : ℕ → Address

abbrev pub same_address : Address → Address → Bool
same_address (in_cache i) (in_cache j) = i == j
same_address (in_cache i) (on_heap j) = false
same_address (on_heap i) (in_cache j) = false
same_address (on_heap i) (on_heap j) = i == j

-- The node with its link and its flag.
pub record LinkedNode : Type 0 where
  pub content : WaitNode
  pub next : Option Address
  pub from_cache : Bool

-- The members that `createNode` uses, the memory, and the number of `new WaitNode` so far.
pub record Nodes : Type 0 where
  pub memory : Address → LinkedNode
  pub cache_size : ℕ
  pub last_assigned : ℕ
  pub allocations : ℕ

-- A new cache, each node of it marked.
abbrev pub mark_cache : (Address → LinkedNode) → Address → LinkedNode
mark_cache new (in_cache i) = record (new (in_cache i)) { from_cache = true }
mark_cache new (on_heap j) = new (on_heap j)

abbrev pub make_cache : (Address → LinkedNode) → ℕ → Nodes
make_cache new n = record {
  memory = mark_cache new;
  cache_size = n;
  last_assigned = 0;
  allocations = 0;
}

-- The last part of `reset`, whose test says that more nodes were made than the cache has.
abbrev pub expand : (Address → LinkedNode) → Nodes → ℕ → Bool → Nodes
expand new s seen true = record s {
  memory =
      λ a. elim a [ in_cache i ↦ mark_cache new (in_cache i) | on_heap j ↦ s.memory (on_heap j) ];
  cache_size = seen;
}
expand new s seen false = s

-- The part of `reset` that renews the cache.
unfoldable pub reset_cache : (Address → LinkedNode) → Nodes → Nodes
reset_cache new s =
    expand new (record s { last_assigned = 0 }) s.last_assigned (ltb s.cache_size s.last_assigned)

unfoldable pub write : (Address → LinkedNode) → Address → LinkedNode → Address → LinkedNode
write memory a x b = if same_address a b then x else memory b

-- The node at the index, if the cache has it, or a new one; its link is itself.
unfoldable pub place : Nodes → ℕ → WaitNode → Bool → Nodes × Address
unfolding write
place s i n true =
    let a = in_cache i in
    let old = s.memory a in
    (record s { memory = write s.memory a (record old { content = n; next = some a }) }, a)
place s i n false =
    let a = on_heap s.allocations in
    (
      record s {
        memory = write s.memory a (record { content = n; next = some a; from_cache = false });
        allocations = s.allocations + 1;
      },
      a,
    )

unfoldable pub create_node : Nodes → WaitNode → Nodes × Address
create_node s n =
    let i = s.last_assigned in
    place (record s { last_assigned = (i + 1) % uint_mod }) i n (ltb i s.cache_size)

-- One call after the other, with the addresses that they return.
unfoldable pub create_all : Nodes → List WaitNode → Nodes × List Address
create_all s [] = (s, [])
create_all s (n ∷ ns) =
    let first = create_node s n in let rest = create_all first.0 ns in (rest.0, first.1 ∷ rest.1)

-- A list from its constructor on, when a round begins: in each round the calls of `add` make nodes,
-- fewer than the index can count, and `reset` ends it.
pub data Round : Nodes → Type 0 where
  first_round : (new : Address → LinkedNode) (n : ℕ) → Round (make_cache new n)
  next_round :
      {s : Nodes}
      → Round s
      → (ns : List WaitNode) → length ns < uint_mod
      → (new : Address → LinkedNode) → Round (reset_cache new (create_all s ns).0)
