-- ===== src/Concurrency/ArenaHolder/Holding.antt =====
-- Holders of both kinds, in any number and in any order of their members' calls.
use unify_prototype.Common.{
  ℕ, zero, suc, ◌+◌, ◌<◌, ◌≡◌, List, [], ◌∷◌, ◌++◌, Option, none, some, length, get_elem?, total,
  to_ℕ, ◌==◌,
}
use unify_prototype.Concurrency.WaitingTask.Defs.{
  uint_mod, Tasks, Holder, acquire, preset_task_as_failed,
}
use unify_prototype.Concurrency.WaitingTask.Defs as W
use unify_prototype.Concurrency.WaitingTask.Holding.{Waiting, at_first, set_at}
use unify_prototype.Concurrency.WaitingTask.Holding as H
use unify_prototype.Concurrency.ArenaHolder.Defs.{
  ArenaHolder, Enqueued, no_task, of_holder, vacate, acquire_of, done_waiting, destroy, release,
}

-- The entry at a place replaced.
unfoldable pub put_at : ℕ → ArenaHolder → List ArenaHolder → List ArenaHolder
put_at i h [] = []
put_at zero h (x ∷ xs) = h ∷ xs
put_at (suc i) h (x ∷ xs) = x ∷ put_at i h xs

-- The tasks with their holders, the holders with an arena, and what waits in the arenas.
pub record Mixed : Type 0 where
  pub waiting : Waiting
  pub arena_holders : List ArenaHolder
  pub enqueued : List Enqueued

abbrev pub nothing_yet : Mixed
nothing_yet = record { waiting = at_first; arena_holders = []; enqueued = [] }

abbrev pub with_tasks : Mixed → Tasks → Waiting
with_tasks s ts = record (s.waiting) { tasks = ts }

-- One member function, of a holder of either kind, or an arena that runs what was enqueued.
pub data Step (s : Mixed) : Mixed → Type 0 where
  holder_step : (w : Waiting) → H.Step s.waiting w → Step s (record s { waiting = w })
  default_construct : Step s (record s { arena_holders = s.arena_holders ++ no_task ∷ [] })
  construct :
      (a g t : ℕ)
      → Step s (record s {
        waiting = with_tasks s (acquire s.waiting.tasks t);
        arena_holders = s.arena_holders ++ record { task = some t; group = g; arena = a } ∷ [];
      })
  -- from a `WaitingTaskHolder` that is moved in: `release_no_decrement`
  construct_of_holder :
      (a i : ℕ) (h : Holder)
      → get_elem? s.waiting.holders i ≡ some h
      → Step s (record s {
        waiting = record (s.waiting) { holders = set_at i (W.vacate h) s.waiting.holders };
        arena_holders = s.arena_holders ++ of_holder a h ∷ [];
      })
  copy_construct :
      (i : ℕ) (h : ArenaHolder)
      → get_elem? s.arena_holders i ≡ some h
      → Step s (record s {
        waiting = with_tasks s (acquire_of s.waiting.tasks h.task);
        arena_holders = s.arena_holders ++ h ∷ [];
      })
  move_construct :
      (i : ℕ) (h : ArenaHolder)
      → get_elem? s.arena_holders i ≡ some h
      → Step s (record s { arena_holders = put_at i (vacate h) s.arena_holders ++ h ∷ [] })
  copy_assign :
      (i j : ℕ) (old h : ArenaHolder)
      → get_elem? s.arena_holders i ≡ some old
      → get_elem? s.arena_holders j ≡ some h
      → Step s (record {
        waiting = with_tasks s (destroy (acquire_of s.waiting.tasks h.task) old).0;
        arena_holders = put_at i h s.arena_holders;
        enqueued = s.enqueued ++ (destroy (acquire_of s.waiting.tasks h.task) old).1;
      })
  move_assign :
      (i j : ℕ) (old h : ArenaHolder)
      → get_elem? s.arena_holders j ≡ some h
      → get_elem? (put_at j (vacate h) s.arena_holders) i ≡ some old
      → Step s (record {
        waiting = with_tasks s (destroy s.waiting.tasks old).0;
        arena_holders = put_at i h (put_at j (vacate h) s.arena_holders);
        enqueued = s.enqueued ++ (destroy s.waiting.tasks old).1;
      })
  preset :
      (i : ℕ) (h : ArenaHolder) (t : ℕ) (e : Option ℕ)
      → get_elem? s.arena_holders i ≡ some h
      → h.task ≡ some t
      → Step s (record s { waiting = with_tasks s (preset_task_as_failed s.waiting.tasks t e) })
  done :
      (i : ℕ) (h : ArenaHolder) (t : ℕ) (e : Option ℕ)
      → get_elem? s.arena_holders i ≡ some h
      → h.task ≡ some t
      → Step s (record {
        waiting = with_tasks s (done_waiting s.waiting.tasks h.arena h.group t e).0;
        arena_holders = put_at i (vacate h) s.arena_holders;
        enqueued = s.enqueued ++ (done_waiting s.waiting.tasks h.arena h.group t e).1;
      })
  destruct :
      (i : ℕ) (h : ArenaHolder)
      → get_elem? s.arena_holders i ≡ some h
      → Step s (record {
        waiting = with_tasks s (destroy s.waiting.tasks h).0;
        arena_holders = put_at i (vacate h) s.arena_holders;
        enqueued = s.enqueued ++ (destroy s.waiting.tasks h).1;
      })
  -- `makeWaitingTaskHolderAndRelease`
  make_holder :
      (i : ℕ) (h : ArenaHolder) (t : ℕ)
      → get_elem? s.arena_holders i ≡ some h
      → h.task ≡ some t
      → Step s (record s {
        waiting = record {
          tasks = release s.waiting.tasks t;
          holders = s.waiting.holders ++ record { task = some t; group = h.group } ∷ [];
        };
        arena_holders = put_at i (vacate h) s.arena_holders;
      })
  -- an arena runs a closure: `group->run`
  run_enqueued :
      (before : List Enqueued) (c : Enqueued) (after : List Enqueued)
      → s.enqueued ≡ before ++ c ∷ after
      → Step s (record s {
        waiting = with_tasks s (record (s.waiting.tasks) {
          spawned = s.waiting.tasks.spawned ++ (c.group, c.task) ∷ [];
        });
        enqueued = before ++ after;
      })

-- Whether an arena holder holds the task.
unfoldable pub holds : ℕ → ArenaHolder → ℕ
holds u h = elim h.task [ none ↦ 0 | some t ↦ to_ℕ (t == u) ]

abbrev pub arena_holders_of : Mixed → ℕ → ℕ
arena_holders_of s u = total (holds u) s.arena_holders

-- Fewer than 2^32 - 1 holders of the two kinds are constructed.
pub data Reach : Mixed → Type 0 where
  at_start : Reach nothing_yet
  later :
      {s t : Mixed}
      → Reach s
      → Step s t
      → length t.waiting.holders + length t.arena_holders + 1 < uint_mod
      → Reach t
