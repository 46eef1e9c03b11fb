-- ===== src/Concurrency/SerialTaskQueue/Defs.antt =====
-- The state of a `SerialTaskQueue`, and each call of it as a program counter that moves by one
-- atomic operation at a time.
use unify_prototype.Common.{
  ℕ, ◌+◌, ◌-◌, ◌%◌, ◌^◌, ◌≡◌, Bool, true, false, List, [], ◌∷◌, ◌++◌, Option, none, some, ◌==◌,
  if◌then◌else◌,
}

-- A `QueuedTask`: the group that it runs in, and its functor by a number.
pub record Task : Type 0 where
  pub group : ℕ
  pub action : ℕ

-- What the queue relies on of `oneapi::tbb::concurrent_queue<TaskBase*>`: first in, first out.
pub record ConcurrentQueue : Type 1 where
  pub Queue : Type 0
  pub empty : Queue
  pub push : Queue → Task → Queue
  pub try_pop : Queue → Option (Task × Queue)
  pub to_list : Queue → List Task
  pub to_list-empty : to_list empty ≡ []
  pub to_list-push : (q : Queue) (t : Task) → to_list (push q t) ≡ to_list q ++ t ∷ []
  pub none-try_pop : (q : Queue) → try_pop q ≡ none → to_list q ≡ []
  pub some-try_pop :
      (q : Queue) (t : Task) (q' : Queue) → try_pop q ≡ some (t, q') → to_list q ≡ t ∷ to_list q'

-- Who waits for the answer of `pickNextTask`: a call of `push` or `resume`, or the loop that
-- `spawn` started in a group.
pub data Caller : Type 0 where
  client : Caller
  runner : ℕ → Caller

-- Where a call stands, before its next atomic operation.
pub data Pc : Type 0 where
  -- `push`, before `m_tasks.push`
  pushing : Task → Pc
  -- `pause`, before the increment
  pausing : Pc
  -- `resume`, before the decrement
  resuming : Pc
  -- `pickNextTask`, before the test of `m_pauseCount`
  picking : Caller → Pc
  -- the `while` on `m_pickingNextTask`
  locking : Caller → Pc
  -- before the compare-exchange of `m_taskChosen`
  choosing : Caller → Pc
  -- before `try_pop`
  popping : Caller → Pc
  -- before `m_taskChosen.store(false)` of a pick that found nothing
  giving_up : Caller → Pc
  -- before the sentry stores false in `m_pickingNextTask`; the task is the answer
  unlocking : Caller → Option Task → Pc
  -- a closure that `spawn` handed to the task's group
  ready : Task → Pc
  -- in `t->execute()` of the loop of that group
  executing : Task → ℕ → Pc
  -- `finishedTask`, before `m_taskChosen.store(false)`
  finishing : ℕ → Pc

abbrev pub ulong_mod : ℕ
ulong_mod = 2 ^ 64

module _ (fifo : ConcurrentQueue) where
  -- The members, and two histories: the tasks in the order of `m_tasks.push`, and in the order in
  -- which `execute` returned.
  pub record Shared : Type 0 where
    pub tasks : fifo.Queue
    pub pause_count : ℕ
    pub task_chosen : Bool
    pub picking_next_task : Bool
    pub entered : List Task
    pub executed : List Task

  abbrev pub init : Shared
  init = record {
    tasks = fifo.empty;
    pause_count = 0;
    task_chosen = false;
    picking_next_task = false;
    entered = [];
    executed = [];
  }

  -- `++m_pauseCount`, and whether the queue was running.
  unfoldable pub pause : Shared → Shared × Bool
  pause s = let n = (s.pause_count + 1) % ulong_mod in (record s { pause_count = n }, n == 1)

  -- `--m_pauseCount`, and whether the queue runs again.
  unfoldable pub resume : Shared → Shared × Bool
  resume s =
      let n = (s.pause_count + ulong_mod - 1) % ulong_mod in (record s { pause_count = n }, n == 0)

  -- What happens to the answer of `pickNextTask`: `push` and `resume` spawn it, and the loop runs
  -- it at once if it is of the loop's group, and else spawns it and ends.
  unfoldable pub deliver : Caller → Option Task → List Pc
  deliver client none = []
  deliver client (some t) = ready t ∷ []
  deliver (runner g) none = []
  deliver (runner g) (some t) = (if t.group == g then executing t g else ready t) ∷ []

  -- The answer of `try_pop`.
  unfoldable pub take : Shared → Caller → Option (Task × fifo.Queue) → Shared × List Pc
  take s c none = (s, giving_up c ∷ [])
  take s c (some (t, q)) = (record s { tasks = q }, unlocking c (some t) ∷ [])

  -- The next atomic operation of a call: the state after it, and where the call then stands. A
  -- call that ends leaves nothing, and one that spawns leaves the closure.
  unfoldable pub advance : Shared → Pc → Shared × List Pc
  unfolding pause resume deliver take
  advance s (pushing t) =
      (record s { tasks = fifo.push s.tasks t; entered = s.entered ++ t ∷ [] }, picking client ∷ [])
  advance s pausing = ((pause s).0, [])
  advance s resuming =
      let (s', restarted) = resume s in (s', if restarted then picking client ∷ [] else [])
  advance s (picking c) = if s.pause_count == 0 then (s, locking c ∷ []) else (s, deliver c none)
  advance s (locking c) =
      if s.picking_next_task
      then (s, locking c ∷ [])
      else (record s { picking_next_task = true }, choosing c ∷ [])
  advance s (choosing c) =
      if s.task_chosen
      then (s, unlocking c none ∷ [])
      else (record s { task_chosen = true }, popping c ∷ [])
  advance s (popping c) = take s c (fifo.try_pop s.tasks)
  advance s (giving_up c) = (record s { task_chosen = false }, unlocking c none ∷ [])
  advance s (unlocking c answer) = (record s { picking_next_task = false }, deliver c answer)
  advance s (ready t) = (s, executing t t.group ∷ [])
  advance s (executing t g) = (record s { executed = s.executed ++ t ∷ [] }, finishing g ∷ [])
  advance s (finishing g) = (record s { task_chosen = false }, picking (runner g) ∷ [])
