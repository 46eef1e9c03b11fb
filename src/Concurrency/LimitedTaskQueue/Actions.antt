-- ===== src/Concurrency/LimitedTaskQueue/Actions.antt =====
-- `push` and `pushAndPause`: each action is offered to every queue, and the first of its closures that
-- starts runs it. A call is a program counter that moves by one operation at a time.
use unify_prototype.Common.{
  ℕ, ◌+◌, ◌<◌, ◌≡◌, ◌==◌, Bool, true, false, List, [], ◌∷◌, ◌++◌, some, length, total, to_ℕ, ltb,
  if◌then◌else◌,
}
use unify_prototype.Concurrency.SerialTaskQueue.Defs.{ConcurrentQueue, ulong_mod}
use unify_prototype.Concurrency.LimitedTaskQueue.Resumer
use unify_prototype.Concurrency.LimitedTaskQueue.Resumer.{Resuming, none_yet, pause_of}

-- An action by the address of its `set_to_run`, and whether it comes from `pushAndPause`.
pub record Action : Type 0 where
  pub set_to_run : ℕ
  pub pauses : Bool

-- Where a call stands.
pub data Pc : Type 0 where
  -- the loop of `push` and `pushAndPause`, before the queue with this index
  offering : Action → ℕ → Pc
  -- a closure that was pushed to the queue
  queued : Action → ℕ → Pc
  -- a closure that the queue runs, before `compare_exchange_strong`
  testing : Action → ℕ → Pc
  -- before `q.pause()`
  pausing : Action → ℕ → Pc
  -- in `iAction`
  acting : Action → ℕ → Pc

-- The closure that the queue runs.
abbrev pub busy : ℕ → Pc → ℕ
busy q (testing a i) = to_ℕ (i == q)
busy q (pausing a i) = to_ℕ (i == q)
busy q (acting a i) = to_ℕ (i == q)
busy q _ = 0

module _ (fifo : ConcurrentQueue) where
  -- The value at each `set_to_run`, how many were made, the queues' pauses with the resumers, and a
  -- history: the actions that returned.
  pub record Shared : Type 0 where
    pub flags : ℕ → Bool
    pub made : ℕ
    pub resuming : Resuming fifo
    pub acted : List ℕ

  abbrev pub none_pushed : Shared
  none_pushed = record { flags = λ a. false; made = 0; resuming = none_yet fifo; acted = [] }

  -- `push` or `pushAndPause` up to the loop.
  unfoldable pub push : Shared → Bool → Shared × List Pc
  push s pauses = (
    record s { flags = λ a. if a == s.made then false else s.flags a; made = s.made + 1 },
    offering (record { set_to_run = s.made; pauses = pauses }) 0 ∷ [],
  )

  -- `compare_exchange_strong(expected, true)` at `set_to_run`, and what follows on either result.
  unfoldable pub set_flag : Shared → Action → ℕ → Shared × List Pc
  set_flag s a i = if s.flags a.set_to_run then (s, []) else (
    record s { flags = λ b. if b == a.set_to_run then true else s.flags b },
    (if a.pauses then pausing a i else acting a i) ∷ [],
  )

  module _ (limit : ℕ) where
    unfoldable pub advance : Shared → Pc → Shared × List Pc
    unfolding set_flag
    advance s (offering a i) = (s, if ltb i limit then queued a i ∷ offering a (i + 1) ∷ [] else [])
    advance s (queued a i) = (s, testing a i ∷ [])
    advance s (testing a i) = set_flag s a i
    advance s (pausing a i) = (
      record s {
        resuming = record {
          queues = pause_of fifo (some i) s.resuming.queues;
          resumers = s.resuming.resumers ++ some i ∷ [];
        };
      },
      acting a i ∷ [],
    )
    advance s (acting a i) = (record s { acted = s.acted ++ a.set_to_run ∷ [] }, [])

    pub record System : Type 0 where
      pub shared : Shared
      pub calls : List Pc

    -- A queue starts a closure when it runs no other; fewer than 2^64 - 1 resumers are constructed.
    abbrev pub Permitted : System → Pc → Type 0
    Permitted s (queued a i) = total (busy i) s.calls ≡ 0
    Permitted s (pausing a i) = length s.shared.resuming.resumers + 2 < ulong_mod
    Permitted s _ = Unit

    -- A client pushes an action, some call moves on, or something is done with the resumers.
    pub data Step (s : System) : System → Type 0 where
      call :
          (pauses : Bool)
          → Step s (record {
            shared = (push s.shared pauses).0;
            calls = (push s.shared pauses).1 ++ s.calls;
          })
      turn :
          (before : List Pc) (p : Pc) (after : List Pc)
          → s.calls ≡ before ++ p ∷ after
          → Permitted s p
          → Step s (record {
            shared = (advance s.shared p).0;
            calls = before ++ (advance s.shared p).1 ++ after;
          })
      resumer :
          (r : Resuming fifo)
          → Resumer.Step fifo s.shared.resuming r
          → length r.resumers + 1 < ulong_mod
          → Step s (record s { shared = record (s.shared) { resuming = r } })

    pub data Reach : System → Type 0 where
      at_start : Reach (record { shared = none_pushed; calls = [] })
      later : {s t : System} → Reach s → Step s t → Reach t
