-- ===== src/Concurrency/WaitingTaskList/System.antt =====
-- A list under any number of concurrent calls, interleaved in any order.
use unify_prototype.Common.{◌≡◌, List, [], ◌∷◌, ◌++◌, Option, none, some, ℕ}
use unify_prototype.Concurrency.WaitingTaskList.Defs.{
  WaitNode, Pc, incrementing, failing, presetting, Shared, init, reset, advance,
}

-- The calls that a client makes.
pub data Call : Type 0 where
  add_task : WaitNode → Call
  tell_done_waiting : Option ℕ → Call
  tell_preset_as_failed : Option ℕ → Call

abbrev pub start : Call → List Pc
start (add_task n) = incrementing n ∷ []
start (tell_done_waiting e) = failing e ∷ []
start (tell_preset_as_failed none) = []
start (tell_preset_as_failed (some e)) = presetting e ∷ []

abbrev pub adds : Call → List WaitNode
adds (add_task n) = n ∷ []
adds (tell_done_waiting e) = []
adds (tell_preset_as_failed e) = []

pub record System : Type 0 where
  pub shared : Shared
  pub calls : List Pc

abbrev pub idle : System
idle = record { shared = init; calls = [] }

-- A client makes a call, or some call in progress goes one operation on, or the list is reset: the
-- header asks that no call is in progress then, and the code that no task waits.
pub data Step (s : System) : System → Type 0 where
  call :
      (c : Call)
      → Step s (record {
        shared = record (s.shared) { added = s.shared.added ++ adds c };
        calls = start c ++ s.calls;
      })
  turn :
      (before : List Pc) (p : Pc) (after : List Pc)
      → s.calls ≡ before ++ p ∷ after
      → Step s (record {
        shared = (advance s.shared p).0;
        calls = before ++ (advance s.shared p).1 ++ after;
      })
  renew : s.calls ≡ [] → s.shared.chain ≡ [] → Step s (record s { shared = reset s.shared })

pub data Reach : System → Type 0 where
  at_start : Reach idle
  later : {s t : System} → Reach s → Step s t → Reach t
