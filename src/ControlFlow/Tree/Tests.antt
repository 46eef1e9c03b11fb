-- ===== src/ControlFlow/Tree/Tests.antt =====
-- Two trees, one of them settled by its first leaf, and the properties at them.
use unify_prototype.Common.{ℕ, ◌≡◌, inl, inr, refl, List, [], ◌∷◌, ◌==◌, if◌then◌else◌}
use unify_prototype.ControlFlow.Status.{
  ControlFlowStatus, go, skip, request_decision, no_request_coming, and_decision, or_decision,
  short_circuit_logic, full_decision_logic,
}
use unify_prototype.ControlFlow.Tree.Defs.{
  Tree, leaf_node, binary_node, evaluate, needed, passed_over,
}
use unify_prototype.ControlFlow.Tree.Outcome.{asks}
use unify_prototype.ControlFlow.Tree.Formula.{verdict_of, formula, evaluate-formula}

-- (1 OR 2) AND 3, and 6.
abbrev first_tree : Tree
first_tree =
    binary_node 5 and_decision (binary_node 4 or_decision (leaf_node 1) (leaf_node 2)) (leaf_node 3)

abbrev trees : List Tree
trees = first_tree ∷ leaf_node 6 ∷ []

-- Only 1 says go.
abbrev answer : ℕ → ControlFlowStatus
answer i = if i == 1 then go else skip

first_asks :
    asks answer first_tree
    ≡ (1, request_decision) ∷ (3, request_decision) ∷ (2, no_request_coming) ∷ []
unfolding needed passed_over evaluate short_circuit_logic full_decision_logic
first_asks = refl

first_verdict : evaluate answer first_tree ≡ skip
unfolding evaluate short_circuit_logic full_decision_logic
first_verdict = refl

evaluate-formula_example : evaluate answer first_tree ≡ verdict_of (formula answer first_tree)
evaluate-formula_example = evaluate-formula answer first_tree (inl refl, (inr refl, (inr refl, tt)))
