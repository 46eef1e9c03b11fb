-- ===== src/Concurrency/SerialTaskQueue/System.antt =====
-- A `SerialTaskQueue` under any number of concurrent calls, interleaved in any order.
use unify_prototype.Common.{◌+◌, ◌≡◌, ◌<◌, List, [], ◌∷◌, ◌++◌}
use unify_prototype.Concurrency.SerialTaskQueue.Defs.{
  Task, ConcurrentQueue, Pc, pushing, pausing, resuming, ulong_mod, Shared, init, advance,
}

-- The calls that a client makes.
pub data Call : Type 0 where
  push : Task → Call
  pause : Call
  resume : Call

abbrev pub start : Call → Pc
start (push t) = pushing t
start pause = pausing
start resume = resuming

module _ (fifo : ConcurrentQueue) where
  pub record System : Type 0 where
    pub shared : Shared fifo
    pub calls : List Pc

  abbrev pub idle : System
  idle = record { shared = init fifo; calls = [] }

  -- The header asks that each `resume` balances a `pause`; and 2^64 pauses do not nest.
  abbrev pub Permitted : Shared fifo → Pc → Type 0
  Permitted s pausing = s.pause_count + 1 < ulong_mod
  Permitted s resuming = 0 < s.pause_count
  Permitted s _ = Unit

  -- A client makes a call, or some call in progress does its next atomic operation.
  pub data Step (s : System) : System → Type 0 where
    call : (c : Call) → Step s (record s { calls = start c ∷ s.calls })
    turn :
        (before : List Pc) (p : Pc) (after : List Pc)
        → s.calls ≡ before ++ p ∷ after
        → Permitted s.shared p
        → Step s (record {
          shared = (advance fifo s.shared p).0;
          calls = before ++ (advance fifo s.shared p).1 ++ after;
        })

  pub data Reach : System → Type 0 where
    at_start : Reach idle
    later : {s t : System} → Reach s → Step s t → Reach t
