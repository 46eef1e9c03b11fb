-- ===== src/Concurrency/AddOnlyContainer/Defs.antt =====
-- The nodes of a container in the store, each call of `makeAndHold` as a program counter that moves
-- by one operation on shared memory at a time, and the destructor.
use unify_prototype.Common.{
  ◌>>=◌, ℕ, zero, suc, ◌==◌, Bool, true, false, List, [], ◌∷◌, ◌++◌, Option, none, some, length,
  get_elem?, if◌then◌else◌,
}

-- `Node`: the pointer to the next node and the object. A pointer is an address in the store.
pub record Node (A : Type 0) : Type 0 where
  pub next : Option ℕ
  pub object : A

-- Two pointers are the same.
abbrev pub same : Option ℕ → Option ℕ → Bool
same none none = true
same none (some n) = false
same (some m) none = false
same (some m) (some n) = m == n

-- Where a call stands.
pub data Pc (A : Type 0) : Type 0 where
  -- before `front_.load`
  loading : A → Pc A
  -- before the new node is made, with `expected`
  making : Option ℕ → A → Pc A
  -- before `compare_exchange_strong`, with `newNode` and `expected`
  exchanging : ℕ → Option ℕ → Pc A
  -- the exchange failed: before `setNext`
  linking : ℕ → Option ℕ → Pc A

-- The member `front_`, the nodes made so far at their addresses, and the pointers that calls
-- returned.
pub record Shared (A : Type 0) : Type 0 where
  pub front : Option ℕ
  pub nodes : List (Node A)
  pub returned : List ℕ

module _ {A : Type 0} where
  -- The constructor.
  abbrev pub init : Shared A
  init = record { front = none; nodes = []; returned = [] }

  -- `setNext` of the node at an address.
  abbrev pub set_next : List (Node A) → ℕ → Option ℕ → List (Node A)
  set_next [] n v = []
  set_next (x ∷ xs) zero v = record x { next = v } ∷ xs
  set_next (x ∷ xs) (suc n) v = x ∷ set_next xs n v

  -- `front_.compare_exchange_strong(expected, newNode)`, and what follows on either result.
  unfoldable pub try_exchange : Shared A → ℕ → Option ℕ → Shared A × List (Pc A)
  try_exchange s n e =
      if same s.front e
      then (record s { front = some n; returned = s.returned ++ n ∷ [] }, [])
      else (s, linking n s.front ∷ [])

  unfoldable pub advance : Shared A → Pc A → Shared A × List (Pc A)
  unfolding try_exchange
  advance s (loading a) = (s, making s.front a ∷ [])
  advance s (making e a) = (
    record s { nodes = s.nodes ++ record { next = e; object = a } ∷ [] },
    exchanging (length s.nodes) e ∷ [],
  )
  advance s (exchanging n e) = try_exchange s n e
  advance s (linking n e) = (record s { nodes = set_next s.nodes n e }, exchanging n e ∷ [])

  -- The loop of the destructor on fuel: the addresses of the nodes in the order in which they are
  -- deleted, and nothing when the fuel ends or a pointer leads to no node.
  unfoldable pub delete_from : ℕ → List (Node A) → Option ℕ → Option (List ℕ)
  delete_from fuel nodes none = some []
  delete_from zero nodes (some n) = none
  delete_from (suc fuel) nodes (some n) = do
    node ← get_elem? nodes n
    rest ← delete_from fuel nodes node.next
    some (n ∷ rest)

  -- The destructor.
  unfoldable pub delete_all : ℕ → Shared A → Option (List ℕ)
  delete_all fuel s = delete_from fuel s.nodes s.front
