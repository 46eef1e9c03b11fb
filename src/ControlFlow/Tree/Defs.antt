-- ===== src/ControlFlow/Tree/Defs.antt =====
-- A tree of nodes, each with its number, the graph that the constructors make of it, and a run of its
-- calls. A leaf does what ControlFlow/test/DummyDecisionNode.h does: when it is asked to decide it gives
-- a closure to the task group, which sends the answer, and it does nothing when no request is
-- coming. The group runs a closure as soon as it has it, before the calls that wait on the stack.
use unify_prototype.Common.{ℕ, zero, suc, ◌≡◌, ◌⊎◌, not, List, [], ◌∷◌, ◌++◌, if◌then◌else◌}
use unify_prototype.ControlFlow.Status.{
  ControlFlowStatus, request_decision, Operator, is_not_started, full_decision_logic,
  short_circuit_logic,
}
use unify_prototype.ControlFlow.Node.{
  Kind, leaf, binary, start_graph, Call, make, answering, decision_from, new_node,
}
use unify_prototype.ControlFlow.Graph.{
  DecisionGraph, update, add_binary, add_leaf_node, handle, start_async,
}

pub data Tree : Type 0 where
  leaf_node : ℕ → Tree
  binary_node : ℕ → Operator → Tree → Tree → Tree

abbrev pub root : Tree → ℕ
root (leaf_node i) = i
root (binary_node i op l r) = i

abbrev pub In : ℕ → Tree → Type 0
In j (leaf_node i) = j ≡ i
In j (binary_node i op l r) = (j ≡ i) ⊎ (In j l ⊎ In j r)

abbrev pub Apart : Tree → Tree → Type 0
Apart t u = (j : ℕ) → In j t → In j u → ⊥

-- No node is at two places of the tree.
abbrev pub Distinct : Tree → Type 0
Distinct (leaf_node i) = Unit
Distinct (binary_node i op l r) = ¬ In i l × ¬ In i r × Apart l r × Distinct l × Distinct r

abbrev pub leaves : Tree → List ℕ
leaves (leaf_node i) = i ∷ []
leaves (binary_node i op l r) = leaves l ++ leaves r

-- The constructors of the nodes, from the leaves on.
unfoldable pub build : Tree → DecisionGraph → DecisionGraph
build (leaf_node i) g = record g { nodes = update g.nodes i (new_node leaf) }
build (binary_node i op l r) g = add_binary (build r (build l g)) i op (root l) (root r)

-- The trees one after the other, each added to the start graph.
unfoldable pub build_all : List Tree → DecisionGraph → DecisionGraph
build_all [] g = g
build_all (t ∷ ts) g = build_all ts (add_leaf_node (build t g) (root t))

-- A graph, the calls on the stack, innermost first, and the decisions that reached the start graph.
pub record Running : Type 0 where
  pub graph : DecisionGraph
  pub calls : List Call
  pub heard : List (ℕ × ControlFlowStatus)

abbrev pub hears : Call → List (ℕ × ControlFlowStatus)
hears (decision_from start_graph i d) = (i, d) ∷ []
hears _ = []

module _ (answer : ℕ → ControlFlowStatus) where
  -- `makeDecisionAsync_` that is asked for a decision.
  unfoldable pub serve_make : DecisionGraph → ℕ → Kind → DecisionGraph × List Call
  serve_make g i leaf = ((handle g (make i request_decision)).0, answering i (answer i) ∷ [])
  serve_make g i (binary op l r) = handle g (make i request_decision)

  -- One call, or a closure that a leaf spawned.
  unfoldable pub serve : DecisionGraph → Call → DecisionGraph × List Call
  serve g (make i request_decision) = serve_make g i (g.nodes i).kind
  serve g c = handle g c

  unfoldable pub step : Running → Running
  step s = elim s.calls [
    | [] ↦ s
    | c ∷ cs ↦ record {
      graph = (serve s.graph c).0;
      calls = (serve s.graph c).1 ++ cs;
      heard = s.heard ++ hears c;
    }
  ]

  unfoldable pub steps : ℕ → Running → Running
  steps zero s = s
  steps (suc n) s = steps n (step s)

  -- What a tree decides: its left part, and, unless that settles it, its right part.
  unfoldable pub evaluate : Tree → ControlFlowStatus
  evaluate (leaf_node i) = answer i
  evaluate (binary_node i op l r) =
      let short_circuit = short_circuit_logic op (evaluate l) in
      if not (is_not_started short_circuit)
      then short_circuit
      else full_decision_logic op (evaluate l) (evaluate r)

  -- The leaves that this looks at, and the parts that it does not, the outermost first.
  unfoldable pub needed : Tree → List ℕ
  needed (leaf_node i) = i ∷ []
  needed (binary_node i op l r) =
      needed l
      ++ (if not (is_not_started (short_circuit_logic op (evaluate l))) then [] else needed r)

  unfoldable pub passed_over : Tree → List Tree
  passed_over (leaf_node i) = []
  passed_over (binary_node i op l r) =
      (if not (is_not_started (short_circuit_logic op (evaluate l))) then r ∷ [] else passed_over r)
      ++ passed_over l

-- A graph at `startAsync`.
abbrev pub start_run : DecisionGraph → Running
start_run g = record { graph = g; calls = start_async g; heard = [] }
