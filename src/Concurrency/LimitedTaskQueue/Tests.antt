-- ===== src/Concurrency/LimitedTaskQueue/Tests.antt =====
-- A resumer and its copy, and the property at them.
use unify_prototype.Common.{◌≡◌, refl, [], ◌∷◌, some, arith, total}
use unify_prototype.Concurrency.SerialTaskQueue.ListQueue.{fifo}
use unify_prototype.Concurrency.LimitedTaskQueue.Resumer.{
  pause_of, Resuming, none_yet, create, copy, Reach, at_start, later, holds,
}
use unify_prototype.Concurrency.LimitedTaskQueue.Pausing.{counts_resumers}

abbrev one : Resuming fifo
one = record { queues = pause_of fifo (some 3) (none_yet fifo).queues; resumers = some 3 ∷ [] }

abbrev two : Resuming fifo
two = record { queues = pause_of fifo (some 3) one.queues; resumers = some 3 ∷ some 3 ∷ [] }

two-Reach : Reach fifo two
two-Reach = later (later at_start (create 3) (omega arith)) (copy 0 (some 3) refl) (omega arith)

counts_resumers_example : (two.queues 3).pause_count ≡ total (holds 3) two.resumers
counts_resumers_example = counts_resumers fifo 3 two-Reach
