-- ===== src/ControlFlow/Operators.antt =====
-- What the two operators decide, and when one decision is enough.
use unify_prototype.Common.{◌≡◌, ◌≢◌, ◌↔◌, ◌⊎◌, arith}
use unify_prototype.ControlFlow.Status.{
  ControlFlowStatus, not_started, go, skip, exception, Operator, and_decision, or_decision,
  full_decision_logic, short_circuit_logic,
}

-- The other operator, and the status with GO and SKIP exchanged.
abbrev pub other_operator : Operator → Operator
other_operator and_decision = or_decision
other_operator or_decision = and_decision

abbrev pub exchange : ControlFlowStatus → ControlFlowStatus
exchange go = skip
exchange skip = go
exchange s = s

-- What a single decision means for the result: the status that settles it, if nothing fails.
abbrev pub settling : Operator → ControlFlowStatus
settling and_decision = skip
settling or_decision = go

-- Of two decisions the result is EXCEPTION exactly when one of them is; it is the settling status
-- (SKIP for AND, GO for OR) exactly when none is EXCEPTION and one is that status; and it is always
-- a decision.
pub full_decision_logic_iff :
    (op : Operator) (l r : ControlFlowStatus)
    → l ≢ not_started
    → r ≢ not_started
    → ((full_decision_logic op l r ≡ exception) ↔ ((l ≡ exception) ⊎ (r ≡ exception)))
      × ((full_decision_logic op l r ≡ settling op)
          ↔ ((l ≢ exception) × (r ≢ exception) × ((l ≡ settling op) ⊎ (r ≡ settling op))))
      × (full_decision_logic op l r ≢ not_started)
unfolding full_decision_logic
full_decision_logic_iff and_decision l r hl hr = (ground arith, ground arith, ground arith)
full_decision_logic_iff or_decision l r hl hr = (ground arith, ground arith, ground arith)

-- OR is AND with GO and SKIP exchanged, for both logics.
pub operators_dual :
    (op : Operator) (l r : ControlFlowStatus)
    → l ≢ not_started
    → r ≢ not_started
    → (full_decision_logic (other_operator op) (exchange l) (exchange r)
        ≡ exchange (full_decision_logic op l r))
      × (short_circuit_logic (other_operator op) (exchange l) ≡ exchange (short_circuit_logic op l))
unfolding full_decision_logic short_circuit_logic
operators_dual and_decision l r hl hr = (ground arith, ground arith)
operators_dual or_decision l r hl hr = (ground arith, ground arith)

-- A decision that is short-circuited is the result of both, whichever side it stands on, exactly
-- when the other decision is no EXCEPTION or this one is an EXCEPTION itself.
pub short_circuit_logic_settles :
    (op : Operator) (d other : ControlFlowStatus)
    → d ≢ not_started
    → other ≢ not_started
    → short_circuit_logic op d ≢ not_started
    → ((full_decision_logic op d other ≡ short_circuit_logic op d)
        ↔ ((other ≢ exception) ⊎ (d ≡ exception)))
      × (full_decision_logic op other d ≡ full_decision_logic op d other)
unfolding full_decision_logic short_circuit_logic
short_circuit_logic_settles and_decision d other hd ho h = (ground arith, ground arith)
short_circuit_logic_settles or_decision d other hd ho h = (ground arith, ground arith)

-- A decision that is not short-circuited leaves the result to the other one.
pub short_circuit_logic_neutral :
    (op : Operator) (d other : ControlFlowStatus)
    → d ≢ not_started
    → other ≢ not_started
    → short_circuit_logic op d ≡ not_started
    → (full_decision_logic op d other ≡ other) × (full_decision_logic op other d ≡ other)
unfolding full_decision_logic short_circuit_logic
short_circuit_logic_neutral and_decision d other hd ho h = (ground arith, ground arith)
short_circuit_logic_neutral or_decision d other hd ho h = (ground arith, ground arith)
