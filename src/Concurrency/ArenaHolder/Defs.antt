-- ===== src/Concurrency/ArenaHolder/Defs.antt =====
-- What the members of a `WaitingTaskWithArenaHolder` do to the tasks. Each member is one step.
use unify_prototype.Common.{ℕ, List, [], ◌∷◌, Option, none, some, ◌==◌, if◌then◌else◌}
use unify_prototype.Concurrency.WaitingTask.Defs.{
  Tasks, Holder, change, preset_task_as_failed, acquire, decrement_ref_count,
}

-- The members; arenas are named by numbers.
pub record ArenaHolder : Type 0 where
  pub task : Option ℕ
  pub group : ℕ
  pub arena : ℕ

-- A closure that `task_arena::enqueue` was given: the group and the task that it will run there.
pub record Enqueued : Type 0 where
  pub arena : ℕ
  pub group : ℕ
  pub task : ℕ

-- The default constructor, which leaves the group and the arena null.
abbrev pub no_task : ArenaHolder
no_task = record { task = none; group = 0; arena = 0 }

-- The constructor from a `WaitingTaskHolder`, in the arena of the thread.
abbrev pub of_holder : ℕ → Holder → ArenaHolder
of_holder a h = record { task = h.task; group = h.group; arena = a }

-- A holder after `m_task = nullptr`.
abbrev pub vacate : ArenaHolder → ArenaHolder
vacate h = record h { task = none }

-- The copy constructor, which counts a task that is not null.
unfoldable pub acquire_of : Tasks → Option ℕ → Tasks
acquire_of ts none = ts
acquire_of ts (some t) = acquire ts t

-- `doneWaiting` of a holder of the task `t`: the tasks, and what is enqueued.
unfoldable pub done_waiting : Tasks → ℕ → ℕ → ℕ → Option ℕ → Tasks × List Enqueued
unfolding preset_task_as_failed decrement_ref_count
done_waiting ts a g t e =
    let after = change (preset_task_as_failed ts t e) t decrement_ref_count in
    (
      after,
      if (after.task t).ref_count == 0 then record { arena = a; group = g; task = t } ∷ [] else [],
    )

-- The destructor.
unfoldable pub destroy : Tasks → ArenaHolder → Tasks × List Enqueued
destroy ts h = elim h.task [ none ↦ (ts, []) | some t ↦ done_waiting ts h.arena h.group t none ]

-- `makeWaitingTaskHolderAndRelease`: the new holder counts, and then the old one no more. The count
-- is not tested.
unfoldable pub release : Tasks → ℕ → Tasks
release ts t = change (acquire ts t) t decrement_ref_count
