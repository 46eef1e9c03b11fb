-- ===== src/Concurrency/WaitingTask/SpawningTests.antt =====
-- Two holders that report at the same time, and the property at the end of their calls.
use unify_prototype.Common.{◌<◌, ◌≡◌, refl, List, [], ◌∷◌, ◌++◌, some, true, arith}
use unify_prototype.Concurrency.WaitingTask.Defs.{
  increment_ref_count, decrement_ref_count, exception_ptr,
}
use unify_prototype.Concurrency.WaitingTask.Interleaving.{
  Pc, holding, comparing, writing, publishing, counting_down, advance, copy_holder, System,
  one_holder, copied, called, turn, Reach, at_start, later,
}
use unify_prototype.Concurrency.WaitingTask.Reporting.{first_of}
use unify_prototype.Concurrency.WaitingTask.Spawning.{spawned_with_first_report}

-- The system after the holder at a place goes one operation on.
abbrev go : System → List Pc → Pc → List Pc → System
go s before p after = record {
  shared = (advance s.shared p).0;
  holders = before ++ (advance s.shared p).1 ++ after;
}

abbrev two_holders : System
two_holders = record { shared = copy_holder one_holder.shared; holders = holding ∷ holding ∷ [] }

-- The first is about to write 7 when the second comes with 8.
abbrev first_writes : System
first_writes =
    go (record two_holders { holders = comparing 7 true ∷ holding ∷ [] }) [] (comparing 7 true)
      (holding ∷ [])

first_writes-Reach : Reach first_writes
unfolding advance copy_holder increment_ref_count
first_writes-Reach =
    later
      (later (later at_start (copied [] [] refl (omega arith)))
        (called [] (holding ∷ []) (some 7) true refl))
      (turn [] (comparing 7 true) (holding ∷ []) refl)

abbrev second_left : System
second_left =
    go
      (go (record first_writes { holders = writing 7 true ∷ comparing 8 true ∷ [] })
        (writing 7 true ∷ []) (comparing 8 true) [])
      (writing 7 true ∷ []) counting_down []

second_left-Reach : Reach second_left
unfolding advance copy_holder increment_ref_count decrement_ref_count
second_left-Reach =
    later
      (later (later first_writes-Reach (called (writing 7 true ∷ []) [] (some 8) true refl))
        (turn (writing 7 true ∷ []) (comparing 8 true) [] refl))
      (turn (writing 7 true ∷ []) counting_down [] refl)

abbrev ended : System
ended = go (go (go second_left [] (writing 7 true) []) [] (publishing true) []) [] counting_down []

ended-Reach : Reach ended
unfolding advance copy_holder increment_ref_count decrement_ref_count
ended-Reach =
    later
      (later (later second_left-Reach (turn [] (writing 7 true) [] refl))
        (turn [] (publishing true) [] refl))
      (turn [] counting_down [] refl)

ended_spawned : 0 < ended.shared.spawned
unfolding advance copy_holder increment_ref_count decrement_ref_count
ended_spawned = omega arith

ended_exception : ended.shared.task.ptr ≡ some 7
unfolding advance
ended_exception = refl

spawned_with_first_report_example :
    (ended.shared.spawned ≡ 1)
    × (ended.holders ≡ [])
    × (exception_ptr ended.shared.task ≡ first_of ended.shared.reported)
    × (ended.shared.task.ptr ≡ first_of ended.shared.reported)
spawned_with_first_report_example = spawned_with_first_report ended-Reach ended_spawned
