-- ===== src/ControlFlow/Node.antt =====
-- ControlFlow/ControlFlow/{DecisionNodeBase, BinaryDecisionNode}.h and their .cc files: one node.
-- A method returns the node after it and the calls that it makes, in order: each method changes
-- its own node first and calls others last, so nothing is lost by making the calls afterwards.
use unify_prototype.Common.{
  ℕ, ◌+◌, ◌%◌, ◌^◌, Bool, true, false, not, List, [], ◌∷◌, ◌++◌, map, ◌==◌, if◌then◌else◌, length,
}
use unify_prototype.ControlFlow.Status.{
  ControlFlowStatus, RequestState, request_decision, no_request_coming, Operator, is_not_started,
  full_decision_logic, short_circuit_logic,
}

pub data RunStatus : Type 0 where
  not_started in_progress completed will_not_run should_run : RunStatus

-- Which class a node is of. A leaf is a subclass of `DecisionNodeBase` that is not of this
-- repository: how it comes to its decision is left to it. Nodes are named by numbers.
pub data Kind : Type 0 where
  leaf : Kind
  binary : Operator → (left right : ℕ) → Kind

-- A `DecisionRequestorBase*`: a binary node, or the `StartDecisionGraph`.
pub data Requestor : Type 0 where
  node : ℕ → Requestor
  start_graph : Requestor

-- The members of `DecisionNodeBase` and of `BinaryDecisionNode`.
pub record DecisionNode : Type 0 where
  pub kind : Kind
  pub run_status : RunStatus
  pub requestors : List Requestor
  pub will_not_run_requests : ℕ
  pub decisions_from_composites : ℕ
  pub request_calls_to_composites : ℕ
  pub left_decision : ControlFlowStatus
  pub right_decision : ControlFlowStatus

-- The calls that a method makes: on this node (`makeDecisionAsync_`, `sendDecisionToRequestorsAsync_`),
-- on another one (`requestDecisionAsync`), or on a requestor (`decisionFromNodeAsync`); or the closure
-- that a leaf gave to the task group, with the decision that it will send.
pub data Call : Type 0 where
  request : ℕ → RequestState → Call
  make : ℕ → RequestState → Call
  send : ℕ → ControlFlowStatus → Call
  decision_from : Requestor → ℕ → ControlFlowStatus → Call
  answering : ℕ → ControlFlowStatus → Call

abbrev pub uint_mod : ℕ
uint_mod = 2 ^ 32

abbrev pub run_not_started : RunStatus → Bool
run_not_started RunStatus.not_started = true
run_not_started _ = false

abbrev pub run_in_progress : RunStatus → Bool
run_in_progress in_progress = true
run_in_progress _ = false

abbrev pub run_will_not_run : RunStatus → Bool
run_will_not_run will_not_run = true
run_will_not_run _ = false

-- The constructors.
unfoldable pub new_node : Kind → DecisionNode
new_node k = record {
  kind = k;
  run_status = RunStatus.not_started;
  requestors = [];
  will_not_run_requests = 0;
  decisions_from_composites = 0;
  request_calls_to_composites = 0;
  left_decision = ControlFlowStatus.not_started;
  right_decision = ControlFlowStatus.not_started;
}

unfoldable pub add_requestor_for_decision : DecisionNode → Requestor → DecisionNode
add_requestor_for_decision n r = record n { requestors = n.requestors ++ r ∷ [] }

unfoldable pub reset_for_new_transition : DecisionNode → DecisionNode
reset_for_new_transition n = record n {
  run_status = elim n.requestors [ [] ↦ should_run | r ∷ rs ↦ RunStatus.not_started ];
  will_not_run_requests = 0;
}

unfoldable pub make_decision_will_be_called : DecisionNode → Bool
make_decision_will_be_called n = elim n.requestors [ [] ↦ false | r ∷ rs ↦ true ]

unfoldable pub request_decision_async : ℕ → DecisionNode → RequestState → DecisionNode × List Call
request_decision_async i n request_decision =
    if run_not_started n.run_status
    then (record n { run_status = should_run }, make i request_decision ∷ [])
    else (n, [])
request_decision_async i n no_request_coming =
    if run_not_started n.run_status
    then (let will_not_run_requests = (n.will_not_run_requests + 1) % uint_mod in
        let counted = record n { will_not_run_requests = will_not_run_requests } in
        if will_not_run_requests == length n.requestors
        then (record counted { run_status = will_not_run }, make i no_request_coming ∷ [])
        else (counted, []))
    else (n, [])

unfoldable pub send_decision_to_requestors_async :
    ℕ → DecisionNode → ControlFlowStatus → DecisionNode × List Call
send_decision_to_requestors_async i n decision = (
  if run_will_not_run n.run_status then n else record n { run_status = completed },
  map (λ r. decision_from r i decision) n.requestors,
)

-- The closure of a leaf, as in ControlFlow/test/DummyDecisionNode.h.
unfoldable pub run_answer : ℕ → DecisionNode → ControlFlowStatus → DecisionNode × List Call
run_answer i n decision = (record n { run_status = in_progress }, send i decision ∷ [])

-- `BinaryDecisionNode::makeDecisionAsync_`.
unfoldable pub make_binary : ℕ → ℕ → DecisionNode → RequestState → DecisionNode × List Call
make_binary left right n state = (
  record n { request_calls_to_composites = 1; run_status = in_progress },
  request left state ∷ elim state [
    | request_decision ↦ []
    | no_request_coming ↦ request right no_request_coming ∷ []
  ],
)

-- `BinaryDecisionNode::decisionFromNodeAsync`, first the two assignments and the count.
unfoldable pub record_decision : Bool → DecisionNode → ControlFlowStatus → DecisionNode
record_decision true n decision = record n {
  left_decision = decision;
  decisions_from_composites = n.decisions_from_composites + 1;
}
record_decision false n decision = record n {
  right_decision = decision;
  decisions_from_composites = n.decisions_from_composites + 1;
}

-- Then the calls, by the node after the assignments: the operator, and whether the left node spoke.
unfoldable pub calls_after_decision : Operator → ℕ → ℕ → Bool → DecisionNode → List Call
calls_after_decision op i right from_left n =
    if run_in_progress n.run_status
    then (if n.decisions_from_composites == 2
        then send i (full_decision_logic op n.left_decision n.right_decision) ∷ []
        else (if from_left
            then (let short_circuit = short_circuit_logic op n.left_decision in
                if not (is_not_started short_circuit)
                then send i short_circuit ∷ request right no_request_coming ∷ []
                else request right request_decision ∷ [])
            else (let short_circuit = short_circuit_logic op n.right_decision in
                if not (is_not_started short_circuit) then send i short_circuit ∷ [] else [])))
    else []

unfoldable pub decision_from_node_async :
    Operator → ℕ → ℕ → ℕ → DecisionNode → ℕ → ControlFlowStatus → DecisionNode × List Call
unfolding record_decision calls_after_decision
decision_from_node_async op i left right n from decision =
    let n' = record_decision (from == left) n decision in
    (n', calls_after_decision op i right (from == left) n')
