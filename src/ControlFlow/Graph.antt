-- ===== src/ControlFlow/Graph.antt =====
-- Nodes that hold one another: the calls between them, and ControlFlow/src/StartDecisionGraph.cc.
use unify_prototype.Common.{
  ℕ, zero, suc, ◌+◌, ◌%◌, ◌≡◌, ap, List, [], ◌∷◌, ◌++◌, map, Option, none, some, ◌==◌,
  if◌then◌else◌,
}
use unify_prototype.ControlFlow.Status.{ControlFlowStatus, RequestState, request_decision, Operator}
use unify_prototype.ControlFlow.Node.{
  DecisionNode, Kind, leaf, binary, node, start_graph, Call, request, make, send, decision_from,
  uint_mod, new_node, add_requestor_for_decision, request_decision_async,
  send_decision_to_requestors_async, make_binary, decision_from_node_async, answering, run_answer,
}

-- Every node by its number, the members of the `StartDecisionGraph`, and the requests that reached
-- the leaves, oldest first.
pub record DecisionGraph : Type 0 where
  pub nodes : ℕ → DecisionNode
  pub leaf_nodes : List ℕ
  pub finished_leaf_nodes : ℕ
  pub asked : List (ℕ × RequestState)

abbrev pub update : (ℕ → DecisionNode) → ℕ → DecisionNode → ℕ → DecisionNode
update f i n j = if i == j then n else f j

abbrev pub put : DecisionGraph → ℕ → DecisionNode × List Call → DecisionGraph × List Call
put g i (n, calls) = (record g { nodes = update g.nodes i n }, calls)

-- `BinaryDecisionNode`'s constructor: the new node asks to hear of both decisions.
unfoldable pub add_binary : DecisionGraph → ℕ → Operator → ℕ → ℕ → DecisionGraph
unfolding new_node add_requestor_for_decision
add_binary g i op left right =
    let made = update g.nodes i (new_node (binary op left right)) in
    let heard = update made left (add_requestor_for_decision (made left) (node i)) in
    record g { nodes = update heard right (add_requestor_for_decision (heard right) (node i)) }

unfoldable pub add_leaf_node : DecisionGraph → ℕ → DecisionGraph
unfolding add_requestor_for_decision
add_leaf_node g i = record g {
  leaf_nodes = g.leaf_nodes ++ i ∷ [];
  nodes = update g.nodes i (add_requestor_for_decision (g.nodes i) start_graph);
}

-- `makeDecisionAsync_` of a node's class.
unfoldable pub make_decision_async :
    DecisionGraph → ℕ → Kind → RequestState → DecisionGraph × List Call
unfolding make_binary
make_decision_async g i leaf state = (record g { asked = g.asked ++ (i, state) ∷ [] }, [])
make_decision_async g i (binary op left right) state =
    put g i (make_binary left right (g.nodes i) state)

-- `decisionFromNodeAsync` of a requestor. A leaf is no requestor.
unfoldable pub hear : DecisionGraph → ℕ → Kind → ℕ → ControlFlowStatus → DecisionGraph × List Call
unfolding decision_from_node_async
hear g i leaf from decision = (g, [])
hear g i (binary op left right) from decision =
    put g i (decision_from_node_async op i left right (g.nodes i) from decision)

-- One call: the graph after its assignments, and the calls that it makes.
unfoldable pub handle : DecisionGraph → Call → DecisionGraph × List Call
unfolding request_decision_async send_decision_to_requestors_async make_decision_async hear
    run_answer
handle g (request i state) = put g i (request_decision_async i (g.nodes i) state)
handle g (make i state) = make_decision_async g i (g.nodes i).kind state
handle g (send i decision) = put g i (send_decision_to_requestors_async i (g.nodes i) decision)
handle g (answering i decision) = put g i (run_answer i (g.nodes i) decision)
handle g (decision_from (node i) from decision) = hear g i (g.nodes i).kind from decision
handle g (decision_from start_graph from decision) =
    (record g { finished_leaf_nodes = (g.finished_leaf_nodes + 1) % uint_mod }, [])

-- The calls on the stack, innermost first, run to the end; `none` means that the fuel ran out.
unfoldable pub run : ℕ → DecisionGraph → List Call → Option DecisionGraph
run fuel g [] = some g
run zero g (c ∷ cs) = none
run (suc fuel) g (c ∷ cs) = run fuel (handle g c).0 ((handle g c).1 ++ cs)

pub run-handle :
    (fuel : ℕ) (g : DecisionGraph) (c : Call) {g' : DecisionGraph} {more : List Call}
    (cs : List Call)
    → handle g c ≡ (g', more)
    → run (suc fuel) g (c ∷ cs) ≡ run fuel g' (more ++ cs)
unfolding run
run-handle fuel g c cs e = ap (λ r. run fuel r.0 (r.1 ++ cs)) e

-- `startAsync`.
unfoldable pub start_async : DecisionGraph → List Call
start_async g = map (λ i. request i request_decision) g.leaf_nodes
