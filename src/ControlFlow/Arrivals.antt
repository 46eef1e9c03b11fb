-- ===== src/ControlFlow/Arrivals.antt =====
-- What a binary node sends when the decisions of its two nodes arrive, in either order.
use unify_prototype.Common.{ℕ, ◌≡◌, ◌≢◌, refl, ap, ◌∙◌, List, [], ◌∷◌, ◌++◌, arith, if◌then◌else◌}
use unify_prototype.ControlFlow.Status.{
  ControlFlowStatus, not_started, exception, Operator, and_decision, or_decision, is_not_started,
  full_decision_logic, short_circuit_logic,
}
use unify_prototype.ControlFlow.Node.{
  in_progress, DecisionNode, Call, send, reset_for_new_transition, make_binary,
  send_decision_to_requestors_async, decision_from_node_async,
}
use unify_prototype.ControlFlow.Status.{request_decision}
use unify_prototype.ControlFlow.Operators.{settling}

-- The node after the decisions that it sends itself, and those decisions.
unfoldable pub own_sends : ℕ → DecisionNode → List Call → DecisionNode × List ControlFlowStatus
own_sends i n [] = (n, [])
own_sends i n (send j d ∷ calls) =
    let (n', told) = send_decision_to_requestors_async i n d in
    let (n'', sent) = own_sends i n' calls in (n'', d ∷ sent)
own_sends i n (c ∷ calls) = own_sends i n calls

-- Decisions that arrive one after the other, each with the node that it comes from: the node after
-- them, and the decisions that it sent.
unfoldable pub hear_all :
    Operator
    → ℕ
    → ℕ
    → ℕ
    → DecisionNode
    → List (ℕ × ControlFlowStatus)
    → DecisionNode × List ControlFlowStatus
unfolding own_sends
hear_all op i left right n [] = (n, [])
hear_all op i left right n ((from, d) ∷ rest) =
    let (n', calls) = decision_from_node_async op i left right n from d in
    let (n'', sent) = own_sends i n' calls in
    let (n''', later) = hear_all op i left right n'' rest in (n''', sent ++ later)

-- The first decision, if it is short-circuited, and else the result of both.
abbrev pub first_or_full : Operator → ControlFlowStatus → ControlFlowStatus → ControlFlowStatus
first_or_full op d full =
    if is_not_started (short_circuit_logic op d) then full else short_circuit_logic op d

first_or_full_left :
    (op : Operator) (l r : ControlFlowStatus)
    → l ≢ not_started
    → r ≢ not_started
    → r ≢ exception
    → first_or_full op l (full_decision_logic op l r) ≡ full_decision_logic op l r
unfolding full_decision_logic short_circuit_logic
first_or_full_left and_decision l r hl hr e = ground arith
first_or_full_left or_decision l r hl hr e = ground arith

first_or_full_right :
    (op : Operator) (l r : ControlFlowStatus)
    → l ≢ not_started
    → r ≢ not_started
    → l ≢ exception
    → first_or_full op r (full_decision_logic op l r) ≡ full_decision_logic op l r
unfolding full_decision_logic short_circuit_logic
first_or_full_right and_decision l r hl hr e = ground arith
first_or_full_right or_decision l r hl hr e = ground arith

first_settling :
    (op : Operator) (d : ControlFlowStatus) → first_or_full op (settling op) d ≡ settling op
unfolding short_circuit_logic
first_settling and_decision d = refl
first_settling or_decision d = refl

first_exception : (op : Operator) (d : ControlFlowStatus) → first_or_full op exception d ≡ exception
unfolding short_circuit_logic
first_exception and_decision d = refl
first_exception or_decision d = refl

module _ (op : Operator) (i left right : ℕ) (n : DecisionNode) where
  -- A node in progress that has heard nothing yet sends exactly one decision once both have
  -- arrived, in either order: the short circuit of the first, or else the result of both.
  pub sends_once :
      (l r : ControlFlowStatus)
      → left ≢ right
      → n.run_status ≡ in_progress
      → n.decisions_from_composites ≡ 0
      → ((hear_all op i left right n ((left, l) ∷ (right, r) ∷ [])).1
          ≡ first_or_full op l (full_decision_logic op l r) ∷ [])
        × ((hear_all op i left right n ((right, r) ∷ (left, l) ∷ [])).1
            ≡ first_or_full op r (full_decision_logic op l r) ∷ [])
  unfolding hear_all decision_from_node_async send_decision_to_requestors_async
  sends_once l r ne started none_yet = (ground arith, ground arith)

  -- Without an EXCEPTION the order does not matter: a node in progress that has heard nothing yet sends the result of both decisions.
  pub order_is_free :
      (l r : ControlFlowStatus)
      → left ≢ right
      → n.run_status ≡ in_progress
      → n.decisions_from_composites ≡ 0
      → l ≢ not_started
      → r ≢ not_started
      → l ≢ exception
      → r ≢ exception
      → ((hear_all op i left right n ((left, l) ∷ (right, r) ∷ [])).1
          ≡ full_decision_logic op l r ∷ [])
        × ((hear_all op i left right n ((right, r) ∷ (left, l) ∷ [])).1
            ≡ full_decision_logic op l r ∷ [])
  order_is_free l r ne started none_yet hl hr el er = (
    (sends_once l r ne started none_yet).0 ∙ ap (λ d. d ∷ []) (first_or_full_left op l r hl hr er),
    (sends_once l r ne started none_yet).1 ∙ ap (λ d. d ∷ []) (first_or_full_right op l r hl hr el),
  )

  -- At a node in progress that has heard nothing yet, an EXCEPTION that comes after a settling decision
  -- (SKIP for AND, GO for OR) is dropped, whichever node it comes from, although the same two decisions give EXCEPTION when it comes first.
  pub late_exception_dropped :
      left ≢ right
      → n.run_status ≡ in_progress
      → n.decisions_from_composites ≡ 0
      → ((hear_all op i left right n ((left, settling op) ∷ (right, exception) ∷ [])).1
          ≡ settling op ∷ [])
        × ((hear_all op i left right n ((right, settling op) ∷ (left, exception) ∷ [])).1
            ≡ settling op ∷ [])
        × ((hear_all op i left right n ((left, exception) ∷ (right, settling op) ∷ [])).1
            ≡ exception ∷ [])
        × ((hear_all op i left right n ((right, exception) ∷ (left, settling op) ∷ [])).1
            ≡ exception ∷ [])
  late_exception_dropped ne started none_yet =
      let a = sends_once (settling op) exception ne started none_yet in
      let b = sends_once exception (settling op) ne started none_yet in
      (
        a.0 ∙ ap (λ d. d ∷ []) (first_settling op _),
        b.1 ∙ ap (λ d. d ∷ []) (first_settling op _),
        b.0 ∙ ap (λ d. d ∷ []) (first_exception op _),
        a.1 ∙ ap (λ d. d ∷ []) (first_exception op _),
      )

  -- A node that is reused after both decisions of an earlier transition never decides: reset for the
  -- new transition and asked to decide, it has kept its old count, and two decisions that are not
  -- short-circuited arrive without being sent on.
  pub second_transition_silent :
      (l r : ControlFlowStatus)
      → left ≢ right
      → n.decisions_from_composites ≡ 2
      → short_circuit_logic op l ≡ not_started
      → short_circuit_logic op r ≡ not_started
      → let m = (make_binary left right (reset_for_new_transition n) request_decision).0 in
        (hear_all op i left right m ((left, l) ∷ (right, r) ∷ [])).1 ≡ []
  unfolding make_binary hear_all decision_from_node_async send_decision_to_requestors_async
      reset_for_new_transition
  second_transition_silent l r ne count hl hr = ground arith
