-- ===== src/ControlFlow/Status.antt =====
-- ControlFlow/ControlFlow/{ControlFlowStatus, DecisionRequestState, DecisionNodeBase}.h, the enums,
-- and the two operators of ControlFlow/src/{AndDecisionNode, OrDecisionNode}.cc.
use unify_prototype.Common.{Bool, true, false, ◌&&◌, ◌||◌, if◌then◌else◌}

pub data ControlFlowStatus : Type 0 where
  not_started go skip exception : ControlFlowStatus

pub data RequestState : Type 0 where
  request_decision no_request_coming : RequestState

-- The two concrete subclasses of `BinaryDecisionNode`.
pub data Operator : Type 0 where
  and_decision or_decision : Operator

abbrev pub is_exception : ControlFlowStatus → Bool
is_exception exception = true
is_exception _ = false

abbrev pub is_go : ControlFlowStatus → Bool
is_go go = true
is_go _ = false

abbrev pub is_skip : ControlFlowStatus → Bool
is_skip skip = true
is_skip _ = false

abbrev pub is_not_started : ControlFlowStatus → Bool
is_not_started not_started = true
is_not_started _ = false

-- `AndDecisionNode::fullDecisionLogic_`.
abbrev pub and_full_decision_logic : ControlFlowStatus → ControlFlowStatus → ControlFlowStatus
and_full_decision_logic left right =
    if is_exception left || is_exception right
    then exception
    else if is_go left && is_go right
    then go
    else skip

-- `OrDecisionNode::fullDecisionLogic_`.
abbrev pub or_full_decision_logic : ControlFlowStatus → ControlFlowStatus → ControlFlowStatus
or_full_decision_logic left right =
    if is_exception left || is_exception right
    then exception
    else if is_go left || is_go right
    then go
    else skip

-- `AndDecisionNode::shortCircuitLogic_`.
abbrev pub and_short_circuit_logic : ControlFlowStatus → ControlFlowStatus
and_short_circuit_logic decision =
    if is_exception decision then exception else if is_skip decision then skip else not_started

-- `OrDecisionNode::shortCircuitLogic_`.
abbrev pub or_short_circuit_logic : ControlFlowStatus → ControlFlowStatus
or_short_circuit_logic decision =
    if is_exception decision then exception else if is_go decision then go else not_started

-- The virtual `fullDecisionLogic_`.
unfoldable pub full_decision_logic :
    Operator → ControlFlowStatus → ControlFlowStatus → ControlFlowStatus
full_decision_logic and_decision left right = and_full_decision_logic left right
full_decision_logic or_decision left right = or_full_decision_logic left right

-- The virtual `shortCircuitLogic_`.
unfoldable pub short_circuit_logic : Operator → ControlFlowStatus → ControlFlowStatus
short_circuit_logic and_decision decision = and_short_circuit_logic decision
short_circuit_logic or_decision decision = or_short_circuit_logic decision
