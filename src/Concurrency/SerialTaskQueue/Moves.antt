-- ===== src/Concurrency/SerialTaskQueue/Moves.antt =====
-- One atomic operation of one call keeps each part of the invariant. The other calls are known by
-- their sums alone.
use unify_prototype.Common.{
  ℕ, ◌+◌, ◌≤◌, ◌≡◌, refl, ◌∙◌, inl, inr, List, [], ◌++◌, append-nil, append_assoc, none, some,
  arith, Bool-cases, Option-cases, to_ℕ, total, gather,
}
use unify_prototype.Concurrency.SerialTaskQueue.Defs.{
  Task, ConcurrentQueue, client, runner, Pc, pushing, pausing, resuming, picking, locking, choosing,
  popping, giving_up, unlocking, ready, executing, finishing, Shared, advance,
}
use unify_prototype.Concurrency.SerialTaskQueue.System.{Permitted}
use unify_prototype.Concurrency.SerialTaskQueue.Invariant.{locks, owns, looks, carries, Watched}

module _ (fifo : ConcurrentQueue) where
  pub advance-locked :
      (s : Shared fifo) (p : Pc) (n : ℕ)
      → to_ℕ s.picking_next_task ≡ n + locks p
      → to_ℕ (advance fifo s p).0.picking_next_task ≡ n + total locks (advance fifo s p).1
  unfolding advance
  advance-locked s (pushing t) n h = omega arith
  advance-locked s pausing n h = omega arith
  advance-locked s resuming n h = ground arith
  advance-locked s (picking client) n h = ground arith
  advance-locked s (picking (runner g)) n h = ground arith
  advance-locked s (locking c) n h = ground arith
  advance-locked s (choosing c) n h = ground arith
  advance-locked s (popping c) n h = ground arith
  advance-locked s (giving_up c) n h = ground arith
  advance-locked s (unlocking client none) n h = ground arith
  advance-locked s (unlocking client (some t)) n h = ground arith
  advance-locked s (unlocking (runner g) none) n h = ground arith
  advance-locked s (unlocking (runner g) (some t)) n h = ground arith
  advance-locked s (ready t) n h = omega arith
  advance-locked s (executing t g) n h = omega arith
  advance-locked s (finishing g) n h = omega arith

  pub advance-owned :
      (s : Shared fifo) (p : Pc) (n : ℕ)
      → to_ℕ s.task_chosen ≡ n + owns p
      → to_ℕ (advance fifo s p).0.task_chosen ≡ n + total owns (advance fifo s p).1
  unfolding advance
  advance-owned s (pushing t) n h = omega arith
  advance-owned s (picking client) n h = ground arith
  advance-owned s (picking (runner g)) n h = ground arith
  advance-owned s (unlocking client none) n h = ground arith
  advance-owned s (unlocking client (some t)) n h = ground arith
  advance-owned s (unlocking (runner g) none) n h = ground arith
  advance-owned s (unlocking (runner g) (some t)) n h = ground arith
  advance-owned s p n h = ground arith

  -- A pick that finds the flag taken may leave: the owner, which does not hold the lock, will look.
  pub advance-Watched :
      (s : Shared fifo) (p : Pc) (n_locks n_owns n_looks : ℕ)
      → to_ℕ s.picking_next_task ≡ n_locks + locks p
      → to_ℕ s.task_chosen ≡ n_owns + owns p
      → n_owns ≤ n_looks + n_locks
      → Permitted fifo s p
      → Watched fifo s (n_looks + looks p)
      → Watched fifo (advance fifo s p).0 (n_looks + total looks (advance fifo s p).1)
  unfolding advance
  advance-Watched s (pushing t) l o k hl ho le ok w = λ z e. omega arith
  advance-Watched s pausing l o k hl ho le ok w = λ z e. absurd (omega arith)
  advance-Watched s resuming l o k hl ho le ok w = λ z e. ground arith
  advance-Watched s (picking client) l o k hl ho le ok w = λ z e. ground arith
  advance-Watched s (picking (runner g)) l o k hl ho le ok w = λ z e. ground arith
  advance-Watched s (locking c) l o k hl ho le ok w = elim (Bool-cases s.picking_next_task) [
    | inl held ↦ rw held w
    | inr free ↦ rw free (λ z e. omega arith)
  ]
  advance-Watched s (choosing c) l o k hl ho le ok w = elim (Bool-cases s.task_chosen) [
    | inl taken ↦ rw taken (λ z e. ground arith)
    | inr free ↦ rw free (λ z e. omega arith)
  ]
  advance-Watched s (popping c) l o k hl ho le ok w = elim (Option-cases (fifo.try_pop s.tasks)) [
    | inl nothing ↦ rw nothing (λ z e. absurd (e (fifo.none-try_pop s.tasks nothing)))
    | inr ((t, q), found) ↦ rw found (λ z e. omega arith)
  ]
  advance-Watched s (giving_up c) l o k hl ho le ok w = w
  advance-Watched s (unlocking client none) l o k hl ho le ok w = w
  advance-Watched s (unlocking (runner g) none) l o k hl ho le ok w = w
  advance-Watched s (unlocking client (some t)) l o k hl ho le ok w = w
  advance-Watched s (unlocking (runner g) (some t)) l o k hl ho le ok w = λ z e. ground arith
  advance-Watched s (ready t) l o k hl ho le ok w = w
  advance-Watched s (executing t g) l o k hl ho le ok w = w
  advance-Watched s (finishing g) l o k hl ho le ok w = w

  -- Who carries no task leaves the histories alone; an owner is the only one to carry a task.
  pub advance-history :
      (s : Shared fifo) (p : Pc) (xs ys : List Task)
      → (owns p ≡ 1 → (xs ≡ []) × (ys ≡ []))
      → s.entered ≡ s.executed ++ (xs ++ carries p ++ ys) ++ fifo.to_list s.tasks
      → (advance fifo s p).0.entered
        ≡ (advance fifo s p).0.executed
          ++ (xs ++ gather carries (advance fifo s p).1 ++ ys)
          ++ fifo.to_list (advance fifo s p).0.tasks
  unfolding advance
  advance-history s (pushing t) xs ys o h = rw (fifo.to_list-push, h) (simp append_assoc)
  advance-history s pausing xs ys o h = h
  advance-history s resuming xs ys o h = ground arith
  advance-history s (picking client) xs ys o h = ground arith
  advance-history s (picking (runner g)) xs ys o h = ground arith
  advance-history s (locking c) xs ys o h = ground arith
  advance-history s (choosing c) xs ys o h = ground arith
  advance-history s (popping c) xs ys o h = elim (Option-cases (fifo.try_pop s.tasks)) [
    | inl nothing ↦ rw nothing h
    | inr ((t, q), found) ↦
        rw (found, (o refl).0, (o refl).1)
          (h
            ∙ rw (fifo.some-try_pop s.tasks t q found, (o refl).0, (o refl).1)
                (simp (append-nil, append_assoc)))
  ]
  advance-history s (giving_up c) xs ys o h = h
  advance-history s (unlocking client none) xs ys o h = h
  advance-history s (unlocking (runner g) none) xs ys o h = h
  advance-history s (unlocking client (some t)) xs ys o h = h
  advance-history s (unlocking (runner g) (some t)) xs ys o h = ground arith
  advance-history s (ready t) xs ys o h = h
  advance-history s (executing t g) xs ys o h =
      rw ((o refl).0, (o refl).1)
        (h ∙ rw ((o refl).0, (o refl).1) (simp (append-nil, append_assoc)))
  advance-history s (finishing g) xs ys o h = h
