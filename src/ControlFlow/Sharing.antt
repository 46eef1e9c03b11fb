-- ===== src/ControlFlow/Sharing.antt =====
-- Nodes that several requestors share: a decision that arrives before a node was asked for its own.
use unify_prototype.Common.{ℕ, ◌≡◌, ◌≢◌, ◌⊎◌, refl, ◌∙◌, false, [], ◌∷◌, arith, some}
use unify_prototype.ControlFlow.Status.{request_decision, Operator}
use unify_prototype.ControlFlow.Node.{
  RunStatus, in_progress, should_run, Kind, binary, request, make, run_not_started, DecisionNode,
}
use unify_prototype.ControlFlow.Graph.{
  DecisionGraph, update, handle, make_decision_async, run, run-handle,
}

-- The node after it was told to decide.
abbrev asked_node : DecisionNode → DecisionNode
asked_node n = record n { run_status = in_progress; request_calls_to_composites = 1 }

handle-request_fresh :
    (g : DecisionGraph) (i : ℕ)
    → (g.nodes i).run_status ≡ RunStatus.not_started
    → handle g (request i request_decision) ≡ (
      record g { nodes = update g.nodes i (record (g.nodes i) { run_status = should_run }) },
      make i request_decision ∷ [],
    )
unfolding handle
handle-request_fresh g i fresh = rw fresh

handle-request_early :
    (g : DecisionGraph) (i : ℕ)
    → run_not_started (g.nodes i).run_status ≡ false
    → handle g (request i request_decision)
      ≡ (record g { nodes = update g.nodes i (g.nodes i) }, [])
unfolding handle
handle-request_early g i early = rw early

make_of_kind :
    (g : DecisionGraph) (i left right : ℕ) (op : Operator) (k : Kind)
    → k ≡ binary op left right
    → make_decision_async g i k request_decision ≡ (
      record g { nodes = update g.nodes i (asked_node (g.nodes i)) },
      request left request_decision ∷ [],
    )
unfolding make_decision_async
make_of_kind g i left right op k e = rw e

handle-make_binary :
    (g : DecisionGraph) (i left right : ℕ) (op : Operator)
    → (g.nodes i).kind ≡ binary op left right
    → handle g (make i request_decision) ≡ (
      record g { nodes = update g.nodes i (asked_node (g.nodes i)) },
      request left request_decision ∷ [],
    )
unfolding handle
handle-make_binary g i left right op kind = make_of_kind g i left right op _ kind

-- The graph when the request has run.
abbrev after_request : DecisionGraph → ℕ → ℕ → DecisionGraph
after_request g i left =
    let told = update g.nodes i (record (g.nodes i) { run_status = should_run }) in
    let asked = update told i (asked_node (told i)) in
    record g { nodes = update asked left (asked left) }

run-request :
    (g : DecisionGraph) (i left right : ℕ) (op : Operator)
    → (g.nodes i).kind ≡ binary op left right
    → (g.nodes i).run_status ≡ RunStatus.not_started
    → run_not_started (g.nodes left).run_status ≡ false
    → i ≢ left
    → run 3 g (request i request_decision ∷ []) ≡ some (after_request g i left)
unfolding run
run-request g i left right op kind fresh early ne =
    run-handle 2 _ _ [] (handle-request_fresh g i fresh)
    ∙ run-handle 1 _ _ [] (handle-make_binary told i left right op (ground arith))
    ∙ run-handle 0 _ _ [] (handle-request_early _ left (ground arith))
  where
    told : DecisionGraph
    told = record g { nodes = update g.nodes i (record (g.nodes i) { run_status = should_run }) }

-- If the left node has already started or decided when a binary node is first asked for its
-- decision, the calls that the request makes come to an end with the node in progress and no other
-- node changed: no other node is asked, the right one neither, no leaf is asked, and nothing reaches
-- the start graph.
pub early_left_asks_nobody :
    (g : DecisionGraph) (i left right : ℕ) (op : Operator)
    → (g.nodes i).kind ≡ binary op left right
    → (g.nodes i).run_status ≡ RunStatus.not_started
    → run_not_started (g.nodes left).run_status ≡ false
    → i ≢ left
    → (g' : DecisionGraph) × (run 3 g (request i request_decision ∷ []) ≡ some g')
      × (g'.nodes i ≡ asked_node (g.nodes i))
      × ((j : ℕ) → (j ≡ i) ⊎ (g'.nodes j ≡ g.nodes j))
      × (g'.asked ≡ g.asked)
      × (g'.finished_leaf_nodes ≡ g.finished_leaf_nodes)
early_left_asks_nobody g i left right op kind fresh early ne = (
  after_request g i left,
  run-request g i left right op kind fresh early ne,
  ground arith,
  (λ j. ground arith),
  refl,
  refl,
)
