-- ===== src/Concurrency/WaitingTaskList/Tests.antt =====
-- One task that is added while another call announces, and the properties at it.
use unify_prototype.Common.{true, ◌≡◌, refl, List, [], ◌∷◌, ◌++◌, some}
use unify_prototype.Concurrency.WaitingTaskList.Defs.{
  WaitNode, Placed, Pc, incrementing, adding, pushing, linking, link_node, rechecking, announcing,
  walking, failing, opening, init, push_node, advance,
}
use unify_prototype.Concurrency.WaitingTaskList.System.{
  add_task, tell_done_waiting, System, call, turn, Reach, at_start, later,
}
use unify_prototype.Concurrency.WaitingTaskList.Handing.{held_while_waiting}

abbrev first_node : WaitNode
first_node = record { task = 5; group = 1 }

abbrev placed : Placed
placed = record { address = 0; node = first_node }

-- The system after a call in front goes one operation on.
abbrev go : System → Pc → List Pc → System
go s p rest = record { shared = (advance s.shared p).0; calls = (advance s.shared p).1 ++ rest }

front : {s : System} (p : Pc) (rest : List Pc) → s.calls ≡ p ∷ rest → Reach s → Reach (go s p rest)
front p rest e r = later r (turn [] p rest e)

abbrev asked : System
asked = record {
  shared = record init { added = first_node ∷ [] };
  calls = incrementing first_node ∷ [];
}

asked-Reach : Reach asked
asked-Reach = later at_start (call (add_task first_node))

-- The node is on the list.
abbrev listed : System
listed =
    go
      (go
        (go (go (go asked (incrementing first_node) []) (adding first_node) []) (pushing first_node)
          [])
        (linking 0 true) [])
      rechecking []

listed-Reach : Reach listed
unfolding advance push_node link_node
listed-Reach = front rechecking [] refl (
    front (linking 0 true) [] refl (
      front (pushing first_node) [] refl
        (front (adding first_node) [] refl (front (incrementing first_node) [] refl asked-Reach))))

-- `doneWaiting` is called.
abbrev told : System
told = record listed { calls = failing (some 7) ∷ [] }

abbrev ended : System
ended =
    go
      (go (go (go (go told (failing (some 7)) []) opening []) announcing []) (walking (placed ∷ []))
        [])
      (walking []) []

held_while_waiting_example : told.shared.handed ≡ listed.shared.handed
unfolding advance push_node link_node
held_while_waiting_example =
    held_while_waiting listed-Reach (call (tell_done_waiting (some 7))) refl
