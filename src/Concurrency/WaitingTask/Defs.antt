-- ===== src/Concurrency/WaitingTask/Defs.antt =====
-- A task, and what the members of its holders do to it. Each member is one step: its parts are not
-- interleaved with those of another thread.
use unify_prototype.Common.{
  ℕ, ◌+◌, ◌-◌, ◌%◌, ◌^◌, Bool, true, false, List, [], ◌∷◌, ◌++◌, Option, none, some, ◌==◌,
  if◌then◌else◌,
}

-- `WaitingTask::State`.
pub data State : Type 0 where
  unset setting set : State

abbrev pub is_unset : State → Bool
is_unset unset = true
is_unset _ = false

abbrev pub is_set : State → Bool
is_set set = true
is_set _ = false

-- The members of `TaskBase` and of `WaitingTask`. An exception is named by a number, and `none` is
-- the null `std::exception_ptr`.
pub record WaitingTask : Type 0 where
  pub ref_count : ℕ
  pub ptr : Option ℕ
  pub ptr_set : State

abbrev pub uint_mod : ℕ
uint_mod = 2 ^ 32

-- The constructor.
abbrev pub new_task : WaitingTask
new_task = record { ref_count = 0; ptr = none; ptr_set = unset }

unfoldable pub increment_ref_count : WaitingTask → WaitingTask
increment_ref_count t = record t { ref_count = (t.ref_count + 1) % uint_mod }

-- The task after it, whose count is what `decrement_ref_count` returns.
unfoldable pub decrement_ref_count : WaitingTask → WaitingTask
decrement_ref_count t = record t { ref_count = (t.ref_count + uint_mod - 1) % uint_mod }

unfoldable pub exception_ptr : WaitingTask → Option ℕ
exception_ptr t = if is_set t.ptr_set then t.ptr else none

unfoldable pub dependent_task_failed : WaitingTask → Option ℕ → WaitingTask
dependent_task_failed t none = t
dependent_task_failed t (some e) =
    if is_unset t.ptr_set then record t { ptr = some e; ptr_set = set } else t

-- Every task by its address, and the tasks handed to `task_group::run`, each with its group, oldest
-- first.
pub record Tasks : Type 0 where
  pub task : ℕ → WaitingTask
  pub spawned : List (ℕ × ℕ)

abbrev pub change : Tasks → ℕ → (WaitingTask → WaitingTask) → Tasks
change ts t f = record ts { task = λ u. if t == u then f (ts.task u) else ts.task u }

-- The members of a `WaitingTaskHolder`; `none` is a null task.
pub record Holder : Type 0 where
  pub task : Option ℕ
  pub group : ℕ

-- The default constructor.
abbrev pub no_task : Holder
no_task = record { task = none; group = 0 }

-- The constructor, and the copy constructor, of a holder of the task.
unfoldable pub acquire : Tasks → ℕ → Tasks
acquire ts t = change ts t increment_ref_count

-- A holder after `m_task = nullptr`.
abbrev pub vacate : Holder → Holder
vacate h = record h { task = none }

-- `presetTaskAsFailed`, of a holder of the task.
unfoldable pub preset_task_as_failed : Tasks → ℕ → Option ℕ → Tasks
preset_task_as_failed ts t e = change ts t (λ w. dependent_task_failed w e)

-- `doneWaiting`, of a holder of the task `t` in the group `g`, which is vacated besides.
unfoldable pub done_waiting : Tasks → ℕ → ℕ → Option ℕ → Tasks
unfolding preset_task_as_failed decrement_ref_count
done_waiting ts g t e =
    let after = change (preset_task_as_failed ts t e) t decrement_ref_count in
    if (after.task t).ref_count == 0
    then record after { spawned = after.spawned ++ (g, t) ∷ [] }
    else after

-- The destructor.
unfoldable pub destroy : Tasks → Holder → Tasks
destroy ts h = elim h.task [ none ↦ ts | some t ↦ done_waiting ts h.group t none ]
