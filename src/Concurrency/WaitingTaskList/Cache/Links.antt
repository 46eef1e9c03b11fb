-- ===== src/Concurrency/WaitingTaskList/Cache/Links.antt =====
-- The links between the nodes when one thread at a time is in the list: `add` of a task while the
-- list waits, and the loop of `announce`, which deletes nodes as it goes.
use unify_prototype.Common.{
  ℕ, zero, suc, Bool, true, false, List, [], ◌∷◌, Option, none, some, ◌>>=◌, ◌||◌,
}
use unify_prototype.Concurrency.WaitingTaskList.Defs.{WaitNode}
use unify_prototype.Concurrency.WaitingTaskList.Cache.Defs.{
  Address, same_address, LinkedNode, Nodes, write, create_node,
}

-- The nodes and `m_head`.
pub record Linked : Type 0 where
  pub nodes : Nodes
  pub head : Option Address

-- `setNextNode`.
unfoldable pub set_next_node :
    (Address → LinkedNode) → Address → Option Address → Address → LinkedNode
set_next_node memory a v = write memory a (record (memory a) { next = v })

-- A new node whose link is the old head.
unfoldable pub add_node : Linked → WaitNode → Linked
unfolding set_next_node
add_node l n =
    let made = create_node l.nodes n in
    record {
      nodes = record (made.0) { memory = set_next_node made.0.memory made.1 l.head };
      head = some made.1;
    }

unfoldable pub add_all_nodes : Linked → List WaitNode → Linked
add_all_nodes l [] = l
add_all_nodes l (n ∷ ns) = add_all_nodes (add_node l n) ns

abbrev pub links_itself : Address → Option Address → Bool
links_itself a none = false
links_itself a (some b) = same_address a b

abbrev pub is_deleted : List Address → Address → Bool
is_deleted [] a = false
is_deleted (b ∷ bs) a = same_address b a || is_deleted bs a

abbrev pub delete_unless : Bool → Address → List Address → List Address
delete_unless true a deleted = deleted
delete_unless false a deleted = a ∷ deleted

-- The loop of `announce`: the contents of the nodes in the order in which it reads them. It waits
-- at a node that links itself, and nothing comes of a read of a deleted node.
unfoldable pub walk_nodes :
    ℕ → (Address → LinkedNode) → List Address → Option Address → Option (List WaitNode)
walk_nodes zero memory deleted v = none
walk_nodes (suc fuel) memory deleted none = some []
walk_nodes (suc fuel) memory deleted (some a) = elim (is_deleted deleted a) [
  | true ↦ none
  | false ↦ elim (links_itself a (memory a).next) [
    | true ↦ walk_nodes fuel memory deleted (some a)
    | false ↦
        (walk_nodes fuel memory (delete_unless (memory a).from_cache a deleted) (memory a).next
          >>= λ rest. some ((memory a).content ∷ rest))
  ]
]
