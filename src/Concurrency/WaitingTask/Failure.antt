-- ===== src/Concurrency/WaitingTask/Failure.antt =====
-- Which exception a task ends with.
use unify_prototype.Common.{ℕ, ◌≡◌, ap, ◌∙◌, refl, List, [], ◌∷◌, Option, none, some, arith}
use unify_prototype.Concurrency.WaitingTask.Defs.{
  unset, set, WaitingTask, exception_ptr, dependent_task_failed,
}

-- The reports of dependent tasks, one after the other.
unfoldable pub report_all : WaitingTask → List (Option ℕ) → WaitingTask
report_all t [] = t
report_all t (e ∷ es) = report_all (dependent_task_failed t e) es

abbrev pub first_some : List (Option ℕ) → Option ℕ
first_some [] = none
first_some (none ∷ es) = first_some es
first_some (some e ∷ es) = some e

pub dependent_task_failed-set :
    (t : WaitingTask) (e : Option ℕ) → t.ptr_set ≡ set → dependent_task_failed t e ≡ t
unfolding dependent_task_failed
dependent_task_failed-set t none h = refl
dependent_task_failed-set t (some e) h = ground arith

report_all-set : (t : WaitingTask) (es : List (Option ℕ)) → t.ptr_set ≡ set → report_all t es ≡ t
unfolding report_all
report_all-set t [] h = refl
report_all-set t (e ∷ es) h =
    ap (λ u. report_all u es) (dependent_task_failed-set t e h) ∙ report_all-set t es h

-- A new task ends with the first exception that was reported, whatever follows it, and with none
-- if every report was null; its count does not change.
pub first_failure_wins :
    (t : WaitingTask) (es : List (Option ℕ))
    → t.ptr_set ≡ unset
    → (exception_ptr (report_all t es) ≡ first_some es)
      × ((report_all t es).ref_count ≡ t.ref_count)
unfolding report_all dependent_task_failed exception_ptr
first_failure_wins t [] h = (rw h refl, refl)
first_failure_wins t (none ∷ es) h = first_failure_wins t es h
first_failure_wins t (some e ∷ es) h =
    rw h (rw (report_all-set (record t { ptr = some e; ptr_set = set }) es refl) (refl, refl))
