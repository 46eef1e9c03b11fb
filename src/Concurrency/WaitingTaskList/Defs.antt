-- ===== src/Concurrency/WaitingTaskList/Defs.antt =====
-- The state of a list, and each call of it as a program counter that moves by one operation on the
-- members at a time. The nodes from `m_head` on are one list, in which each node is followed by the
-- head that its `m_head.exchange` gave; whether its link is written yet is a flag at its address.
-- Only `add(group, task)` is here: `add` of a holder writes the link a second time, when the node may
-- no longer be the caller's. The nodes themselves are in Cache.
use unify_prototype.Common.{
  is_empty, ℕ, Bool, true, false, List, [], ◌∷◌, ◌++◌, ◌+◌, ◌==◌, Option, none, some, if◌then◌else◌,
}
use unify_prototype.Concurrency.WaitingTask.Defs.{
  Tasks, new_task, acquire, preset_task_as_failed, done_waiting,
}

-- `WaitNode`: the task and its group.
pub record WaitNode : Type 0 where
  pub task : ℕ
  pub group : ℕ

-- A node at its address.
pub record Placed : Type 0 where
  pub address : ℕ
  pub node : WaitNode

-- Where a call stands.
pub data Pc : Type 0 where
  -- `add(group, task)`, before `increment_ref_count`
  incrementing : WaitNode → Pc
  -- before the test of `m_waiting`
  adding : WaitNode → Pc
  -- `add` after the test gave false: the task is handed over at once
  passing : WaitNode → Pc
  -- before `m_head.exchange(newHead)`
  pushing : WaitNode → Pc
  -- before `newHead->setNextNode(oldHead)`, with the address and whether the old head was null
  linking : ℕ → Bool → Pc
  -- the old head was null: before the second test of `m_waiting`
  rechecking : Pc
  -- `announce`, before `m_head.exchange(nullptr)`
  announcing : Pc
  -- the loop of `announce`, with the nodes that are left
  walking : List Placed → Pc
  -- `doneWaiting`, before the assignment of the exception
  failing : Option ℕ → Pc
  -- `doneWaiting`, before `m_waiting = false`
  opening : Pc
  -- `presetTaskAsFailed` of an exception that is not null, before the test of `m_waiting`
  presetting : ℕ → Pc
  -- before `m_head.load`
  loading : ℕ → Pc
  -- its loop, with the nodes that are left
  marking : ℕ → List Placed → Pc

-- The members, the number of nodes that were made, the addresses of those that still link to
-- themselves, the tasks of the program, and two histories: the nodes of the calls of `add`, and
-- the nodes in the order in which their tasks were handed over.
pub record Shared : Type 0 where
  pub waiting : Bool
  pub exception : Option ℕ
  pub chain : List Placed
  pub made : ℕ
  pub unlinked : ℕ → Bool
  pub tasks : Tasks
  pub added : List WaitNode
  pub handed : List WaitNode

-- The constructor.
abbrev pub init : Shared
init = record {
  waiting = true;
  exception = none;
  chain = [];
  made = 0;
  unlinked = λ a. false;
  tasks = record { task = λ t. new_task; spawned = [] };
  added = [];
  handed = [];
}

-- `reset`, of a list with no node.
unfoldable pub reset : Shared → Shared
reset s = record s { exception = none; waiting = true }

-- The task learns of the exception, if there is one, and its count goes down; at 0 it is spawned.
unfoldable pub hand_over : Shared → WaitNode → Shared
hand_over s n = record s {
  tasks = done_waiting s.tasks n.group n.task s.exception;
  handed = s.handed ++ n ∷ [];
}

-- `createNode`, whose node links to itself, and `m_head.exchange(newHead)`.
unfoldable pub push_node : Shared → WaitNode → Shared × List Pc
push_node s n = (
  record s {
    chain = record { address = s.made; node = n } ∷ s.chain;
    made = s.made + 1;
    unlinked = λ a. if a == s.made then true else s.unlinked a;
  },
  linking s.made (is_empty s.chain) ∷ [],
)

unfoldable pub link_node : Shared → ℕ → Shared
link_node s a = record s { unlinked = λ b. if b == a then false else s.unlinked b }

unfoldable pub advance : Shared → Pc → Shared × List Pc
unfolding hand_over push_node link_node
advance s (incrementing n) = (record s { tasks = acquire s.tasks n.task }, adding n ∷ [])
advance s (adding n) = (s, (if s.waiting then pushing n else passing n) ∷ [])
advance s (passing n) = (hand_over s n, [])
advance s (pushing n) = push_node s n
advance s (linking a first) = (link_node s a, if first then rechecking ∷ [] else [])
advance s rechecking = (s, if s.waiting then [] else announcing ∷ [])
advance s announcing = (record s { chain = [] }, walking s.chain ∷ [])
advance s (walking []) = (s, [])
advance s (walking (n ∷ ns)) =
    if s.unlinked n.address
    then (s, walking (n ∷ ns) ∷ [])
    else (hand_over s n.node, walking ns ∷ [])
advance s (failing e) = (record s { exception = e }, opening ∷ [])
advance s opening = (record s { waiting = false }, announcing ∷ [])
advance s (presetting e) = (s, if s.waiting then loading e ∷ [] else [])
advance s (loading e) = (s, marking e s.chain ∷ [])
advance s (marking e []) = (s, [])
advance s (marking e (n ∷ ns)) = if s.unlinked n.address then (s, marking e (n ∷ ns) ∷ []) else (
  record s { tasks = preset_task_as_failed s.tasks n.node.task (some e) },
  marking e ns ∷ [],
)
