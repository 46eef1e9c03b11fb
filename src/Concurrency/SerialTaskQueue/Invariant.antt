-- ===== src/Concurrency/SerialTaskQueue/Invariant.antt =====
-- What the flags of a `SerialTaskQueue` say of the calls in progress: kept by every step.
use unify_prototype.Common.{
  ℕ, ◌<◌, ◌≡◌, refl, sym, ◌≢◌, List, [], ◌∷◌, ◌++◌, some, to_ℕ, total, gather,
}
use unify_prototype.Concurrency.SerialTaskQueue.Defs.{
  Task, ConcurrentQueue, Pc, picking, locking, choosing, popping, giving_up, unlocking, ready,
  executing, finishing, Shared,
}
use unify_prototype.Concurrency.SerialTaskQueue.System.{idle}

-- 1 for a call that holds the spin lock `m_pickingNextTask`.
abbrev pub locks : Pc → ℕ
locks (choosing _) = 1
locks (popping _) = 1
locks (giving_up _) = 1
locks (unlocking _ _) = 1
locks _ = 0

-- 1 for a call that answers for `m_taskChosen`.
abbrev pub owns : Pc → ℕ
owns (popping _) = 1
owns (giving_up _) = 1
owns (unlocking _ (some _)) = 1
owns (ready _) = 1
owns (executing _ _) = 1
owns (finishing _) = 1
owns _ = 0

-- 1 for a call that will look at the queue again.
abbrev pub looks : Pc → ℕ
looks (picking _) = 1
looks (locking _) = 1
looks (choosing _) = 1
looks (popping _) = 1
looks (unlocking _ (some _)) = 1
looks (ready _) = 1
looks (executing _ _) = 1
looks (finishing _) = 1
looks _ = 0

-- The task that a call has taken from the queue and that has not returned.
abbrev pub carries : Pc → List Task
carries (unlocking _ (some t)) = t ∷ []
carries (ready t) = t ∷ []
carries (executing t _) = t ∷ []
carries _ = []

module _ (fifo : ConcurrentQueue) where
  -- Nobody overlooks a task: an unpaused queue that holds one has a call that will look at it.
  abbrev pub Watched : Shared fifo → ℕ → Type 0
  Watched s n = s.pause_count ≡ 0 → fifo.to_list s.tasks ≢ [] → 0 < n

  pub record Inv (s : Shared fifo) (cs : List Pc) : Type 0 where
    pub locked : to_ℕ s.picking_next_task ≡ total locks cs
    pub owned : to_ℕ s.task_chosen ≡ total owns cs
    pub history : s.entered ≡ s.executed ++ gather carries cs ++ fifo.to_list s.tasks
    pub watched : Watched s (total looks cs)

  pub idle-Inv : Inv (idle fifo).shared (idle fifo).calls
  idle-Inv = record {
    locked = refl;
    owned = refl;
    history = sym fifo.to_list-empty;
    watched = λ _ h. absurd (h fifo.to_list-empty);
  }
