-- ===== src/ControlFlow/Tree/Formula.antt =====
-- A decision of leaves that say GO or SKIP is the value of a Boolean formula.
use unify_prototype.Common.{
  if◌then◌else◌, ◌||◌, ℕ, ◌≡◌, ◌⊎◌, inl, inr, refl, ◌∙◌, ◌&&◌, Bool, true, false, All, All-split,
}
use mathlib.Core.Path.{ap₂}
use unify_prototype.ControlFlow.Status.{
  is_go, ControlFlowStatus, go, skip, Operator, and_decision, or_decision, full_decision_logic,
  short_circuit_logic,
}
use unify_prototype.ControlFlow.Tree.Defs.{Tree, leaf_node, binary_node, leaves, evaluate}
use unify_prototype.ControlFlow.Tree.Phases.{settles}

abbrev pub verdict_of : Bool → ControlFlowStatus
verdict_of true = go
verdict_of false = skip

-- What a node decides of the decisions of its parts, and the operator of their Boolean values.
abbrev decision : Operator → ControlFlowStatus → ControlFlowStatus → ControlFlowStatus
decision op d e = if settles op d then short_circuit_logic op d else full_decision_logic op d e

and_combined :
    (a b : Bool) → decision and_decision (verdict_of a) (verdict_of b) ≡ verdict_of (a && b)
unfolding short_circuit_logic full_decision_logic
and_combined true true = refl
and_combined true false = refl
and_combined false b = refl

or_combined :
    (a b : Bool) → decision or_decision (verdict_of a) (verdict_of b) ≡ verdict_of (a || b)
unfolding short_circuit_logic full_decision_logic
or_combined true b = refl
or_combined false true = refl
or_combined false false = refl

module _ (answer : ℕ → ControlFlowStatus) where
  -- The Boolean value of a tree, of which the leaves are those that say go.
  abbrev pub formula : Tree → Bool
  formula (leaf_node i) = is_go (answer i)
  formula (binary_node i and_decision l r) = formula l && formula r
  formula (binary_node i or_decision l r) = formula l || formula r

  -- If each leaf answers with GO or SKIP, the decision of a tree of AND and OR nodes is GO if its
  -- Boolean formula is true of the leaves that answer GO, and SKIP if it is false: short circuits
  -- change nothing.
  pub evaluate-formula :
      (t : Tree)
      → All (λ i. (answer i ≡ go) ⊎ (answer i ≡ skip)) (leaves t)
      → evaluate answer t ≡ verdict_of (formula t)
  unfolding evaluate
  evaluate-formula (leaf_node i) (inl e, h) = rw e refl
  evaluate-formula (leaf_node i) (inr e, h) = rw e refl
  evaluate-formula (binary_node i and_decision l r) h =
      let (hl, hr) = All-split (λ i. (answer i ≡ go) ⊎ (answer i ≡ skip)) (leaves l) (leaves r) h in
      ap₂ (decision and_decision) (evaluate-formula l hl) (evaluate-formula r hr)
      ∙ and_combined (formula l) (formula r)
  evaluate-formula (binary_node i or_decision l r) h =
      let (hl, hr) = All-split (λ i. (answer i ≡ go) ⊎ (answer i ≡ skip)) (leaves l) (leaves r) h in
      ap₂ (decision or_decision) (evaluate-formula l hl) (evaluate-formula r hr)
      ∙ or_combined (formula l) (formula r)
