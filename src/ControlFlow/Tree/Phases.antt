-- ===== src/ControlFlow/Tree/Phases.antt =====
-- The phases of a binary node that is asked, and of a leaf.
use unify_prototype.Common.{
  ℕ, ◌≡◌, ◌≢◌, refl, ◌==◌, Bool, true, false, not, [], ◌∷◌, arith, if◌then◌else◌,
}
use unify_prototype.ControlFlow.Status.{
  ControlFlowStatus, request_decision, no_request_coming, Operator, is_not_started,
  short_circuit_logic, full_decision_logic,
}
use unify_prototype.ControlFlow.Node.{
  in_progress, completed, should_run, Kind, leaf, Requestor, DecisionNode, request, make, send,
  decision_from, request_decision_async, make_binary, decision_from_node_async,
  calls_after_decision, record_decision, send_decision_to_requestors_async, new_node, run_answer,
}
use unify_prototype.ControlFlow.Tree.Within.{fresh}

-- Whether the decision of the left node settles that of the node.
abbrev pub settles : Operator → ControlFlowStatus → Bool
settles op d = not (is_not_started (short_circuit_logic op d))

-- A node that waits for its left node, then for its right one, and one that has sent its decision.
abbrev pub asked_node : Kind → Requestor → DecisionNode
asked_node k r = record (fresh k (r ∷ [])) { run_status = should_run }

abbrev pub waiting : Kind → Requestor → DecisionNode
waiting k r = record (asked_node k r) { request_calls_to_composites = 1; run_status = in_progress }

abbrev pub heard_left : Kind → Requestor → ControlFlowStatus → DecisionNode
heard_left k r d = record (waiting k r) { left_decision = d; decisions_from_composites = 1 }

abbrev pub heard_both : Kind → Requestor → ControlFlowStatus → ControlFlowStatus → DecisionNode
heard_both k r d e = record (heard_left k r d) { right_decision = e; decisions_from_composites = 2 }

abbrev pub sent : DecisionNode → DecisionNode
sent n = record n { run_status = completed }

pub ask_node :
    (i : ℕ) (k : Kind) (r : Requestor)
    → request_decision_async i (fresh k (r ∷ [])) request_decision
      ≡ (asked_node k r, make i request_decision ∷ [])
unfolding request_decision_async new_node
ask_node i k r = refl

pub make_asked :
    (a b : ℕ) (k : Kind) (r : Requestor)
    → make_binary a b (asked_node k r) request_decision
      ≡ (waiting k r, request a request_decision ∷ [])
unfolding make_binary
make_asked a b k r = refl

pub hear_left :
    (op : Operator) (i a b : ℕ) (k : Kind) (r : Requestor) (d : ControlFlowStatus)
    → decision_from_node_async op i a b (waiting k r) a d ≡ (
      heard_left k r d,
      if settles op d
          then send i (short_circuit_logic op d) ∷ request b no_request_coming ∷ []
          else request b request_decision ∷ [],
    )
unfolding decision_from_node_async record_decision calls_after_decision new_node
hear_left op i a b k r d = let same : (a == a) ≡ true = ground arith in rw same refl

pub hear_right :
    (op : Operator) (i a b : ℕ) (k : Kind) (r : Requestor) (d e : ControlFlowStatus)
    → b ≢ a
    → decision_from_node_async op i a b (heard_left k r d) b e
      ≡ (heard_both k r d e, send i (full_decision_logic op d e) ∷ [])
unfolding decision_from_node_async record_decision calls_after_decision new_node
hear_right op i a b k r d e ne = let other : (b == a) ≡ false = ground arith in rw other refl

pub send_one :
    (i : ℕ) (k : Kind) (r : Requestor) (c : ℕ) (dl dr d : ControlFlowStatus)
    → send_decision_to_requestors_async i
        (record (waiting k r) {
          decisions_from_composites = c;
          left_decision = dl;
          right_decision = dr;
        })
        d
      ≡ (
        sent (record (waiting k r) {
          decisions_from_composites = c;
          left_decision = dl;
          right_decision = dr;
        }),
        decision_from r i d ∷ [],
      )
unfolding send_decision_to_requestors_async new_node
send_one i k r c dl dr d = refl

-- A leaf whose closure runs.
abbrev pub answering_leaf : Requestor → DecisionNode
answering_leaf r = record (asked_node leaf r) { run_status = in_progress }

pub answer_leaf :
    (i : ℕ) (r : Requestor) (d : ControlFlowStatus)
    → run_answer i (asked_node leaf r) d ≡ (answering_leaf r, send i d ∷ [])
unfolding run_answer
answer_leaf i r d = refl

pub send_leaf :
    (i : ℕ) (r : Requestor) (d : ControlFlowStatus)
    → send_decision_to_requestors_async i (answering_leaf r) d
      ≡ (sent (answering_leaf r), decision_from r i d ∷ [])
unfolding send_decision_to_requestors_async new_node
send_leaf i r d = refl
