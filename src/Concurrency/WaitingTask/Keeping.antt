-- ===== src/Concurrency/WaitingTask/Keeping.antt =====
-- A task keeps its exception, whatever its holders do.
use unify_prototype.Common.{◌≡◌, refl, ℕ, Option, none, some, arith, Option-cases, inl, inr}
use unify_prototype.Concurrency.WaitingTask.Defs.{
  WaitingTask, exception_ptr, Tasks, Holder, acquire, preset_task_as_failed, done_waiting, destroy,
  dependent_task_failed, increment_ref_count, decrement_ref_count,
}
use unify_prototype.Concurrency.WaitingTask.Holding.{
  Waiting, Step, default_construct, construct, copy_construct, move_construct, copy_assign,
  move_assign, preset, done, destruct,
}

HasFailed-dependent_task_failed :
    (w : WaitingTask) (e : Option ℕ) (x : ℕ)
    → exception_ptr w ≡ some x
    → exception_ptr (dependent_task_failed w e) ≡ some x
unfolding exception_ptr dependent_task_failed
HasFailed-dependent_task_failed w none x h = h
HasFailed-dependent_task_failed w (some e) x h = ground arith

-- The task has the exception.
abbrev pub HasFailed : Tasks → ℕ → ℕ → Type 0
HasFailed ts u x = exception_ptr (ts.task u) ≡ some x

acquire-HasFailed : (ts : Tasks) (t u x : ℕ) → HasFailed ts u x → HasFailed (acquire ts t) u x
unfolding acquire increment_ref_count exception_ptr
acquire-HasFailed ts t u x h = ground arith

preset-HasFailed :
    (ts : Tasks) (t u x : ℕ) (e : Option ℕ)
    → HasFailed ts u x
    → HasFailed (preset_task_as_failed ts t e) u x
unfolding preset_task_as_failed
preset-HasFailed ts t u x e h = ground (arith, HasFailed-dependent_task_failed (ts.task u) e x h)

decrement-exception_ptr :
    (w : WaitingTask) → exception_ptr (decrement_ref_count w) ≡ exception_ptr w
unfolding decrement_ref_count exception_ptr
decrement-exception_ptr w = refl

done_waiting-HasFailed :
    (ts : Tasks) (g t u x : ℕ) (e : Option ℕ)
    → HasFailed ts u x
    → HasFailed (done_waiting ts g t e) u x
unfolding done_waiting
done_waiting-HasFailed ts g t u x e h = ground (
  arith,
  preset-HasFailed ts t u x e h,
  decrement-exception_ptr ((preset_task_as_failed ts t e).task u),
)

destroy-HasFailed :
    (ts : Tasks) (h : Holder) (u x : ℕ) → HasFailed ts u x → HasFailed (destroy ts h) u x
unfolding destroy
destroy-HasFailed ts h u x f = elim (Option-cases h.task) [
  | inl e ↦ rw (e, destroy) f
  | inr (t, e) ↦ rw (e, destroy) (done_waiting-HasFailed ts h.group t u x none f)
]

-- Once a task has an exception, that exception stays: no call of any member of any holder, with
-- whatever exception of its own, replaces it or takes it away.
pub failure_stays :
    {s s' : Waiting} (u x : ℕ) → Step s s' → HasFailed s.tasks u x → HasFailed s'.tasks u x
failure_stays u x default_construct f = f
failure_stays {s} u x (construct g t) f = acquire-HasFailed s.tasks t u x f
failure_stays {s} u x (copy_construct i h t e q) f = acquire-HasFailed s.tasks t u x f
failure_stays u x (move_construct i h e) f = f
failure_stays {s} u x (copy_assign i j old h t e k q) f =
    destroy-HasFailed (acquire s.tasks t) old u x (acquire-HasFailed s.tasks t u x f)
failure_stays {s} u x (move_assign i j old h e k) f = destroy-HasFailed s.tasks old u x f
failure_stays {s} u x (preset i h t e k q) f = preset-HasFailed s.tasks t u x e f
failure_stays {s} u x (done i h t e k q) f = done_waiting-HasFailed s.tasks h.group t u x e f
failure_stays {s} u x (destruct i h e) f = destroy-HasFailed s.tasks h u x f
