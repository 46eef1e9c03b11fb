-- ===== src/Concurrency/WaitingTask/Tests.antt =====
-- Two holders of one task, and the properties at them.
use unify_prototype.Common.{◌≡◌, refl, [], ◌∷◌, some, arith}
use unify_prototype.Concurrency.WaitingTask.Defs.{
  exception_ptr, Holder, acquire, vacate, done_waiting, preset_task_as_failed,
  dependent_task_failed, increment_ref_count,
}
use unify_prototype.Concurrency.WaitingTask.Holding.{
  Waiting, at_first, Step, construct, copy_construct, preset, done, Reach, at_start, later, set_at,
}
use unify_prototype.Concurrency.WaitingTask.Keeping.{HasFailed}

abbrev holder : Holder
holder = record { task = some 5; group = 1 }

abbrev one : Waiting
one = record { tasks = acquire at_first.tasks 5; holders = holder ∷ [] }

one-Reach : Reach one
one-Reach = later at_start (construct 1 5) (omega arith)

abbrev two : Waiting
two = record { tasks = acquire one.tasks 5; holders = holder ∷ holder ∷ [] }

two-Reach : Reach two
two-Reach = later one-Reach (copy_construct 0 holder 5 refl refl) (omega arith)

abbrev left_one : Waiting
left_one = record { tasks = done_waiting one.tasks 1 5 (some 7); holders = vacate holder ∷ [] }

last_call : Step one left_one
unfolding set_at
last_call = done 0 holder 5 (some 7) refl refl

spawned_once : left_one.tasks.spawned ≡ (1, 5) ∷ []
unfolding done_waiting acquire dependent_task_failed increment_ref_count
spawned_once = refl

-- Two holders, the first of which has told the task of an exception.
abbrev told : Waiting
told = record two { tasks = preset_task_as_failed two.tasks 5 (some 7) }

told_later : Step told (record told { tasks = preset_task_as_failed told.tasks 5 (some 9) })
told_later = preset 1 holder 5 (some 9) refl refl

told-HasFailed : HasFailed told.tasks 5 7
unfolding preset_task_as_failed dependent_task_failed exception_ptr acquire increment_ref_count
told-HasFailed = refl
