-- ===== src/Concurrency/SerialTaskQueue/Tests.antt =====
-- Runs of a `SerialTaskQueue` over lists, and the properties at states that they reach.
use native.Mathlib.Decide.{dec_lt}
use unify_prototype.Common.{
  ℕ, zero, suc, ◌+◌, ◌≤◌, ◌≡◌, refl, List, [], ◌∷◌, ◌++◌, Option, none, some, arith, length, total,
  gather,
}
use unify_prototype.Concurrency.SerialTaskQueue.Defs.{
  Task, Pc, pausing, resuming, ulong_mod, Shared, init, advance,
}
use unify_prototype.Concurrency.SerialTaskQueue.System
use unify_prototype.Concurrency.SerialTaskQueue.System.{
  System, Permitted, Call, Step, call, turn, Reach, at_start, later,
}
use unify_prototype.Concurrency.SerialTaskQueue.ListQueue.{fifo}
use unify_prototype.Concurrency.SerialTaskQueue.Invariant.{carries}
use unify_prototype.Concurrency.SerialTaskQueue.Safety.{runs, one_at_a_time, in_order, no_lost_task}
use unify_prototype.Concurrency.SerialTaskQueue.Pausing.{Held, here, next, Paused-executed}

record Run : Type 0 where
  last : System fifo
  reach : Reach fifo last

begin : Call → Run → Run
begin c r = record { last = _; reach = later r.reach (call c) }

permit : (s : Shared fifo) (p : Pc) → Option (Permitted fifo s p)
unfolding dec_lt
permit s pausing = elim (dec_lt (s.pause_count + 1) ulong_mod) [ yes h ↦ some h | no _ ↦ none ]
permit s resuming = elim (dec_lt 0 s.pause_count) [ yes h ↦ some h | no _ ↦ none ]
permit s (Pc.pushing t) = some tt
permit s p = some tt

-- The first call in progress moves on.
go : (r : Run) (cs : List Pc) → r.last.calls ≡ cs → Run
unfolding permit
go r [] e = r
go r (p ∷ cs) e = elim (permit r.last.shared p) [
  | none ↦ r
  | some ok ↦ record { last = _; reach = later r.reach (turn [] p cs e ok) }
]

moves : ℕ → Run → Run
unfolding go
moves zero r = r
moves (suc n) r = moves n (go r r.last.calls refl)

abbrev first_task : Task
first_task = record { group = 1; action = 10 }

abbrev second_task : Task
second_task = record { group = 2; action = 20 }

-- Two pushes while the queue is paused; then it is resumed.
script : ℕ → ℕ → Run
unfolding moves begin advance
script m n = moves n (
    begin System.resume (
      moves m (
        begin (System.push second_task) (
          moves 2 (
            begin (System.push first_task) (
              moves 1
                (begin System.pause (record { last = System.idle fifo; reach = at_start }))))))))

all_executed : (script 9 60).last.shared.executed ≡ first_task ∷ second_task ∷ []
unfolding script
all_executed = refl

none_executed : (script 9 0).last.shared.executed ≡ []
unfolding script
none_executed = refl

in_execute : total runs (script 9 7).last.calls ≡ 1
unfolding script
in_execute = refl

one_at_a_time_example : total runs (script 9 7).last.calls ≤ 1
one_at_a_time_example = one_at_a_time fifo (script 9 7).reach

in_order_example :
    ((script 9 7).last.shared.entered
      ≡ (script 9 7).last.shared.executed
        ++ gather carries (script 9 7).last.calls
        ++ (script 9 7).last.shared.tasks)
    × (length (gather carries (script 9 7).last.calls) ≤ 1)
in_order_example = in_order fifo (script 9 7).reach

no_lost_task_example :
    ((script 9 60).last.shared.tasks ≡ [])
    × ((script 9 60).last.shared.executed ≡ (script 9 60).last.shared.entered)
unfolding script
no_lost_task_example = no_lost_task fifo (script 9 60).reach refl refl

-- A task has executed, and then the queue is paused and another task pushed.
abbrev held : System fifo
held = record {
  shared = record (init fifo) {
    pause_count = 1;
    entered = first_task ∷ [];
    executed = first_task ∷ [];
  };
  calls = [];
}

abbrev pushed : System fifo
pushed = record held { calls = System.start (System.push second_task) ∷ [] }

abbrev looked : System fifo
looked = record {
  shared = (advance fifo pushed.shared (Pc.pushing second_task)).0;
  calls = (advance fifo pushed.shared (Pc.pushing second_task)).1;
}

Paused-executed_example : Held fifo looked × (looked.shared.executed ≡ held.shared.executed)
unfolding advance
Paused-executed_example =
    Paused-executed fifo {s = held} (omega arith, refl)
      (next (next here (call (System.push second_task)) tt)
        (turn [] (Pc.pushing second_task) [] refl tt) tt)
