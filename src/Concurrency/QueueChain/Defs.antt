-- ===== src/Concurrency/QueueChain/Defs.antt =====
-- A chain of queues, and each action that goes down it as a program counter that moves by one call
-- on a queue at a time. A closure that was pushed to a queue may start at any later time: in
-- which order a queue starts its tasks, and whether it is paused then, is not asked, so what holds
-- here holds for each order that the queues keep.
use unify_prototype.Common.{
  ℕ, zero, suc, ◌+◌, ◌-◌, ◌%◌, ◌≡◌, ◌<◌, ◌==◌, List, [], ◌∷◌, ◌++◌, some, length, if◌then◌else◌,
}
use unify_prototype.Concurrency.SerialTaskQueue.Defs.{ConcurrentQueue, init, ulong_mod}
use unify_prototype.Concurrency.LimitedTaskQueue.Resumer.{Queues, pause_of, resume_of}

-- The functors that are pushed to the queues: `actionToRun(iAction)`, and
-- `passDownChain(index, iGroup, iAction)`.
pub data Closure : Type 0 where
  action_to_run : ℕ → Closure
  pass_down_chain : ℕ → ℕ → Closure

-- Where an action stands.
pub data Pc : Type 0 where
  -- its closure is in a queue
  queued : Closure → Pc
  -- `passDownChain` with the index, before `pause` of the queue before it
  pausing : ℕ → ℕ → Pc
  -- before `push` to the queue with the index
  pushing : ℕ → ℕ → Pc
  -- `actionToRun`, in `iAction()`
  acting : ℕ → Pc
  -- the sentry, with the number of queues that are left to resume, the last of them next
  resuming : ℕ → Pc

module _ (fifo : ConcurrentQueue) where
  -- The members, and two histories: the actions pushed, and those that returned or threw.
  pub record Shared : Type 0 where
    pub queues : Queues fifo
    pub outstanding_tasks : ℕ
    pub pushed : List ℕ
    pub acted : List ℕ

  abbrev pub init_chain : Shared
  init_chain = record { queues = λ q. init fifo; outstanding_tasks = 0; pushed = []; acted = [] }

  module _ (size : ℕ) where
    -- `push`, of a chain with this number of queues.
    unfoldable pub push : Shared → ℕ → Shared × List Pc
    push s a = (
      record s {
        outstanding_tasks = (s.outstanding_tasks + 1) % ulong_mod;
        pushed = s.pushed ++ a ∷ [];
      },
      queued (if size == 1 then action_to_run a else pass_down_chain 1 a) ∷ [],
    )

    unfoldable pub advance : Shared → Pc → Shared × List Pc
    advance s (queued (action_to_run a)) = (s, acting a ∷ [])
    advance s (queued (pass_down_chain i a)) = (s, pausing i a ∷ [])
    advance s (pausing i a) =
        (record s { queues = pause_of fifo (some (i - 1)) s.queues }, pushing i a ∷ [])
    advance s (pushing i a) =
        (s, queued (if i + 1 == size then action_to_run a else pass_down_chain (i + 1) a) ∷ [])
    advance s (acting a) = (record s { acted = s.acted ++ a ∷ [] }, resuming (size - 1) ∷ [])
    advance s (resuming (suc k)) =
        (record s { queues = resume_of fifo (some k) s.queues }, resuming k ∷ [])
    advance s (resuming zero) =
        (record s { outstanding_tasks = (s.outstanding_tasks + ulong_mod - 1) % ulong_mod }, [])

    pub record System : Type 0 where
      pub shared : Shared
      pub calls : List Pc

    -- An action is pushed, while fewer than 2^64 - 2 are on their way, or one of them moves on.
    pub data Step (s : System) : System → Type 0 where
      call :
          (a : ℕ)
          → length s.calls + 2 < ulong_mod
          → Step s (record { shared = (push s.shared a).0; calls = (push s.shared a).1 ++ s.calls })
      turn :
          (before : List Pc) (p : Pc) (after : List Pc)
          → s.calls ≡ before ++ p ∷ after
          → Step s (record {
            shared = (advance s.shared p).0;
            calls = before ++ (advance s.shared p).1 ++ after;
          })

    pub data Reach : System → Type 0 where
      at_start : Reach (record { shared = init_chain; calls = [] })
      later : {s t : System} → Reach s → Step s t → Reach t
