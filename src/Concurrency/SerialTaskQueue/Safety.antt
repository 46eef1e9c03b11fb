-- ===== src/Concurrency/SerialTaskQueue/Safety.antt =====
-- What a `SerialTaskQueue` promises in every state that its calls can reach.
use unify_prototype.Common.{
  ℕ, ◌≤◌, ◌≡◌, refl, sym, ◌∙◌, ◌≢◌, List, [], ◌∷◌, ◌++◌, append-nil, none, some, arith, length,
  total, total-le, gather,
}
use unify_prototype.Concurrency.SerialTaskQueue.Defs.{ConcurrentQueue, Pc, unlocking, executing}
use unify_prototype.Concurrency.SerialTaskQueue.System.{System, Reach}
use unify_prototype.Concurrency.SerialTaskQueue.Invariant.{owns, carries, Inv}
use unify_prototype.Concurrency.SerialTaskQueue.Steps.{Reach-Inv, to_ℕ-le, carries-le}

-- 1 for a call that runs a task's functor.
abbrev pub runs : Pc → ℕ
runs (executing _ _) = 1
runs _ = 0

runs-le : (p : Pc) → runs p ≤ owns p
runs-le (unlocking c none) = omega arith
runs-le (unlocking c (some t)) = omega arith
runs-le p = ground arith

List-cases {ℓ} : {A : Type ℓ} (xs : List A) → (xs ≢ [] → ⊥) → xs ≡ []
List-cases [] h = refl
List-cases (x ∷ xs) h = absurd (h (λ e. cc))

module _ (fifo : ConcurrentQueue) where
  -- However the calls interleave, as long as each `resume` balances a `pause` and 2^64 pauses do not
  -- nest, at most one task of the queue executes at a time.
  pub one_at_a_time : {s : System fifo} → Reach fifo s → total runs s.calls ≤ 1
  one_at_a_time {s} r = omega (
    arith,
    total-le runs owns s.calls runs-le,
    (Reach-Inv fifo r).owned,
    to_ℕ-le s.shared.task_chosen,
  )

  -- Under the same conditions tasks leave in the order of their pushes, none twice and none lost: the
  -- pushed tasks are those that have returned, then those that a call has taken from the queue and
  -- that have not returned, at most one, then those that wait in the queue.
  pub in_order :
      {s : System fifo}
      → Reach fifo s
      → (s.shared.entered
          ≡ s.shared.executed ++ gather carries s.calls ++ fifo.to_list s.shared.tasks)
        × (length (gather carries s.calls) ≤ 1)
  in_order {s} r = (
    (Reach-Inv fifo r).history,
    omega (arith, carries-le s.calls, (Reach-Inv fifo r).owned, to_ℕ-le s.shared.task_chosen),
  )

  -- Under the same conditions no wake-up is lost: when every call has come to its end and the queue is not paused, then no task
  -- waits in the queue, and each task that was pushed has executed.
  pub no_lost_task :
      {s : System fifo}
      → Reach fifo s
      → s.shared.pause_count ≡ 0
      → s.calls ≡ []
      → (fifo.to_list s.shared.tasks ≡ []) × (s.shared.executed ≡ s.shared.entered)
  no_lost_task {s} r running rest =
      (emptied, sym (v.history ∙ rw (rest, emptied) (simp append-nil)))
    where
      v : Inv fifo s.shared s.calls
      v = Reach-Inv fifo r

      unseen : fifo.to_list s.shared.tasks ≢ [] → ⊥
      unseen e = let seen = v.watched running e in omega (arith, rw rest at seen)

      emptied : fifo.to_list s.shared.tasks ≡ []
      emptied = List-cases (fifo.to_list s.shared.tasks) unseen
