-- ===== src/Concurrency/QueueChain/Turns.antt =====
-- A number of moves of the actions on their way.
use unify_prototype.Common.{ℕ, suc, ◌≡◌, List, ◌∷◌, ◌++◌}
use unify_prototype.Concurrency.SerialTaskQueue.Defs.{ConcurrentQueue}
use unify_prototype.Concurrency.QueueChain.Defs.{Pc, advance, System, turn, Reach, later}

module _ (size : ℕ) (fifo : ConcurrentQueue) where
  -- A number of moves, in any order, with no new action.
  pub data Turns (s : System fifo size) : ℕ → System fifo size → Type 0 where
    here : Turns s 0 s
    next :
        {n : ℕ} {t : System fifo size} (m : Turns s n t) (before : List Pc) (p : Pc)
        (after : List Pc)
        → t.calls ≡ before ++ p ∷ after
        → Turns s (suc n) (record {
          shared = (advance fifo size t.shared p).0;
          calls = before ++ (advance fifo size t.shared p).1 ++ after;
        })

  pub Turns-Reach :
      {s t : System fifo size} {n : ℕ} → Reach fifo size s → Turns s n t → Reach fifo size t
  Turns-Reach r here = r
  Turns-Reach r (next m xs p ys e) = later (Turns-Reach r m) (turn xs p ys e)
