-- ===== src/Concurrency/ArenaHolder/Tests.antt =====
-- A task that goes from a holder to an arena holder and is then done, and the properties at it.
use unify_prototype.Common.{◌+◌, ◌≡◌, refl, [], ◌∷◌, some, arith}
use unify_prototype.Concurrency.WaitingTask.Defs.{
  Holder, acquire, dependent_task_failed, increment_ref_count,
}
use unify_prototype.Concurrency.WaitingTask.Defs as W
use unify_prototype.Concurrency.WaitingTask.Holding.{Waiting, at_first, set_at}
use unify_prototype.Concurrency.WaitingTask.Holding as H
use unify_prototype.Concurrency.WaitingTask.Counting.{count, drops}
use unify_prototype.Concurrency.ArenaHolder.Defs.{of_holder, vacate, done_waiting}
use unify_prototype.Concurrency.ArenaHolder.Holding.{
  put_at, Mixed, nothing_yet, Step, holder_step, construct_of_holder, done, Reach, at_start, later,
}
use unify_prototype.Concurrency.ArenaHolder.Ending.{handed, all_holders_of}
use unify_prototype.Concurrency.ArenaHolder.Counting.{counts_all_holders, handed_by_last_holder}

abbrev holder : Holder
holder = record { task = some 5; group = 1 }

abbrev one : Waiting
one = record { tasks = acquire at_first.tasks 5; holders = holder ∷ [] }

abbrev held : Mixed
held = record nothing_yet { waiting = one }

held-Reach : Reach held
held-Reach = later at_start (holder_step one (H.construct 1 5)) (omega arith)

abbrev crossed : Mixed
crossed = record {
  waiting = record one { holders = set_at 0 (W.vacate holder) (holder ∷ []) };
  arena_holders = of_holder 2 holder ∷ [];
  enqueued = [];
}

crossed-Reach : Reach crossed
unfolding set_at
crossed-Reach = later held-Reach (construct_of_holder 2 0 holder refl) (omega arith)

abbrev ended : Mixed
ended = record {
  waiting = record (crossed.waiting) { tasks = (done_waiting one.tasks 2 1 5 (some 7)).0 };
  arena_holders = put_at 0 (vacate (of_holder 2 holder)) crossed.arena_holders;
  enqueued = (done_waiting one.tasks 2 1 5 (some 7)).1;
}

last_call : Step crossed ended
last_call = done 0 (of_holder 2 holder) 5 (some 7) refl refl

enqueued_once : ended.enqueued ≡ record { arena = 2; group = 1; task = 5 } ∷ []
unfolding done_waiting acquire dependent_task_failed increment_ref_count
enqueued_once = refl

counts_all_holders_example : count crossed.waiting.tasks 5 ≡ all_holders_of crossed 5
counts_all_holders_example = counts_all_holders crossed-Reach 5

handed_by_last_holder_example :
    handed 5 ended ≡ handed 5 crossed + drops (all_holders_of crossed 5) (all_holders_of ended 5)
handed_by_last_holder_example = handed_by_last_holder crossed-Reach last_call 5
