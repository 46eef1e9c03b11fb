-- ===== src/ControlFlow/Tests.antt =====
-- A graph of two leaves under an AND node, and the properties at concrete nodes.
use unify_prototype.Common.{
  ℕ, ◌≤◌, ◌≡◌, ◌≢◌, ◌⊎◌, refl, List, [], ◌∷◌, Option, some, arith, length, ◌==◌, if◌then◌else◌,
}
use mathlib.Core.Option
use unify_prototype.ControlFlow.Status.{
  ControlFlowStatus, not_started, go, skip, exception, RequestState, request_decision,
  no_request_coming, and_decision, full_decision_logic, short_circuit_logic,
}
use unify_prototype.ControlFlow.Node.{
  make, RunStatus, in_progress, DecisionNode, leaf, binary, node, start_graph, request, send,
  new_node, reset_for_new_transition, make_binary,
}
use unify_prototype.ControlFlow.Graph.{
  DecisionGraph, add_binary, add_leaf_node, handle, run, start_async,
}
use unify_prototype.ControlFlow.Requests.{request_all, request_all_once}
use unify_prototype.ControlFlow.Arrivals.{
  hear_all, first_or_full, sends_once, late_exception_dropped, second_transition_silent,
}
use unify_prototype.ControlFlow.Sharing.{early_left_asks_nobody}

abbrev leaves : DecisionGraph
leaves = record { nodes = λ _. new_node leaf; leaf_nodes = []; finished_leaf_nodes = 0; asked = [] }

-- Node 3 is AND of the leaves 1 and 2, and the start graph asks it.
abbrev and_graph : DecisionGraph
and_graph = add_leaf_node (add_binary leaves 3 and_decision 1 2) 3

-- The graph after the start, after leaf 1 decided, and after leaf 2 decided.
abbrev decided : DecisionGraph → ℕ → ControlFlowStatus → Option DecisionGraph
decided g i d = run 9 g (send i d ∷ [])

abbrev outcome :
    ControlFlowStatus → ControlFlowStatus → Option (List (ℕ × RequestState) × ℕ × RunStatus)
outcome l r =
    Option.map (λ g. (g.asked, g.finished_leaf_nodes, (g.nodes 3).run_status))
      (Option.bind (run 9 and_graph (start_async and_graph))
        λ g. Option.bind (decided g 1 l) λ g'. decided g' 2 r)

two_gos :
    outcome go go
    ≡ some ((1, request_decision) ∷ (2, request_decision) ∷ [], 1, RunStatus.completed)
unfolding run handle add_leaf_node add_binary start_async full_decision_logic short_circuit_logic
    Option.bind
two_gos = refl

skip_go :
    outcome skip go
    ≡ some ((1, request_decision) ∷ (2, no_request_coming) ∷ [], 1, RunStatus.completed)
unfolding run handle add_leaf_node add_binary start_async full_decision_logic short_circuit_logic
    Option.bind
skip_go = refl

skip_settles : short_circuit_logic and_decision skip ≢ not_started
unfolding short_circuit_logic
skip_settles = λ e. cc

go_is_neutral : short_circuit_logic and_decision go ≡ not_started
unfolding short_circuit_logic
go_is_neutral = refl

-- A binary node with two requestors.
abbrev shared_node : DecisionNode
shared_node = record {
  kind = binary and_decision 1 2;
  run_status = RunStatus.not_started;
  requestors = node 7 ∷ start_graph ∷ [];
  will_not_run_requests = 0;
  decisions_from_composites = 0;
  request_calls_to_composites = 0;
  left_decision = not_started;
  right_decision = not_started;
}

abbrev started_node : DecisionNode
started_node = record shared_node { run_status = in_progress }

abbrev used_node : DecisionNode
used_node = record shared_node { run_status = RunStatus.completed; decisions_from_composites = 2 }

request_all_once_example :
    ((rs : List RequestState) → length (request_all 3 shared_node rs).1 ≤ 1)
    × ((request_all 3 shared_node (no_request_coming ∷ request_decision ∷ request_decision ∷ [])).1
        ≡ make 3 request_decision ∷ [])
request_all_once_example =
    request_all_once 3 shared_node (no_request_coming ∷ []) (request_decision ∷ []) refl
      (omega arith) (omega arith)

sends_once_example :
    ((hear_all and_decision 3 1 2 started_node ((1, go) ∷ (2, skip) ∷ [])).1
      ≡ first_or_full and_decision go (full_decision_logic and_decision go skip) ∷ [])
    × ((hear_all and_decision 3 1 2 started_node ((2, skip) ∷ (1, go) ∷ [])).1
        ≡ first_or_full and_decision skip (full_decision_logic and_decision go skip) ∷ [])
sends_once_example = sends_once and_decision 3 1 2 started_node go skip (omega arith) refl refl

late_exception_dropped_example :
    ((hear_all and_decision 3 1 2 started_node ((1, skip) ∷ (2, exception) ∷ [])).1 ≡ skip ∷ [])
    × ((hear_all and_decision 3 1 2 started_node ((2, skip) ∷ (1, exception) ∷ [])).1 ≡ skip ∷ [])
    × ((hear_all and_decision 3 1 2 started_node ((1, exception) ∷ (2, skip) ∷ [])).1
        ≡ exception ∷ [])
    × ((hear_all and_decision 3 1 2 started_node ((2, exception) ∷ (1, skip) ∷ [])).1
        ≡ exception ∷ [])
late_exception_dropped_example =
    late_exception_dropped and_decision 3 1 2 started_node (omega arith) refl refl

second_transition_silent_example :
    (hear_all and_decision 3 1 2
      (make_binary 1 2 (reset_for_new_transition used_node) request_decision).0
      ((1, go) ∷ (2, go) ∷ [])).1
    ≡ []
second_transition_silent_example =
    second_transition_silent and_decision 3 1 2 used_node go go (omega arith) refl go_is_neutral
      go_is_neutral

-- Leaf 1 has decided for another requestor before node 3 is asked.
abbrev early_graph : DecisionGraph
early_graph = record leaves {
  nodes = λ i.
      if i == 3
      then shared_node
      else record shared_node { kind = leaf; run_status = RunStatus.completed };
}

early_left_asks_nobody_example :
    (g' : DecisionGraph) × (run 3 early_graph (request 3 request_decision ∷ []) ≡ some g')
    × (g'.nodes 3
        ≡ record shared_node { run_status = in_progress; request_calls_to_composites = 1 })
    × ((j : ℕ) → (j ≡ 3) ⊎ (g'.nodes j ≡ early_graph.nodes j))
    × (g'.asked ≡ [])
    × (g'.finished_leaf_nodes ≡ 0)
early_left_asks_nobody_example =
    early_left_asks_nobody early_graph 3 1 2 and_decision refl refl refl (omega arith)
