-- ===== src/Concurrency/SerialTaskQueue/Pausing.antt =====
-- What `pause` and `resume` do, and what a pause keeps from happening.
use unify_prototype.Common.{
  ℕ, ◌+◌, ◌<◌, ◌≡◌, refl, sym, ◌∙◌, ◌↔◌, true, ◌∷◌, ◌++◌, none, some, arith, total, total-append,
}
use unify_prototype.Concurrency.SerialTaskQueue.Defs.{
  ConcurrentQueue, client, runner, Pc, pushing, resuming, picking, locking, choosing, popping,
  unlocking, ready, executing, ulong_mod, Shared, pause, resume, advance,
}
use unify_prototype.Concurrency.SerialTaskQueue.System
use unify_prototype.Concurrency.SerialTaskQueue.System.{
  System, Call, Permitted, Step, call, turn, Reach,
}

-- 1 for a call that may yet start a task although the queue is paused: one that passed the test of
-- `m_pauseCount`, or one that is about to undo a pause.
abbrev pub stirs : Pc → ℕ
stirs resuming = 1
stirs (locking _) = 1
stirs (choosing _) = 1
stirs (popping _) = 1
stirs (unlocking _ (some _)) = 1
stirs (ready _) = 1
stirs (executing _ _) = 1
stirs _ = 0

module _ (fifo : ConcurrentQueue) where
  -- The counter below its bound, `pause` says exactly whether the queue was running, leaves it paused,
  -- and the next `resume` puts everything back and says exactly whether the queue runs again.
  pub resume-pause :
      (s : Shared fifo)
      → s.pause_count + 1 < ulong_mod
      → let (t, first) = pause fifo s in
        let (u, restarted) = resume fifo t in
        ((first ≡ true) ↔ (s.pause_count ≡ 0))
        × (0 < t.pause_count)
        × (u ≡ s)
        × ((restarted ≡ true) ↔ (s.pause_count ≡ 0))
  unfolding pause resume
  resume-pause s h = ground arith

  abbrev pub Held : System fifo → Type 0
  Held s = (0 < s.shared.pause_count) × (total stirs s.calls ≡ 0)

  advance-Held :
      (s : Shared fifo) (p : Pc)
      → Permitted fifo s p
      → 0 < s.pause_count
      → stirs p ≡ 0
      → (0 < (advance fifo s p).0.pause_count)
        × (total stirs (advance fifo s p).1 ≡ 0)
        × ((advance fifo s p).0.executed ≡ s.executed)
  unfolding advance
  advance-Held s (pushing t) ok h e = ground arith
  advance-Held s (picking client) ok h e = ground arith
  advance-Held s (picking (runner g)) ok h e = ground arith
  advance-Held s (unlocking client none) ok h e = ground arith
  advance-Held s (unlocking client (some t)) ok h e = absurd (omega arith)
  advance-Held s (unlocking (runner g) none) ok h e = ground arith
  advance-Held s (unlocking (runner g) (some t)) ok h e = absurd (omega arith)
  advance-Held s p ok h e = ground arith

  -- A step in which no client calls `resume`.
  abbrev pub Unresumed : {s t : System fifo} → Step fifo s t → Type 0
  Unresumed (call System.resume) = ⊥
  Unresumed _ = Unit

  -- Steps without a call of `resume`.
  pub data Paused (s : System fifo) : System fifo → Type 0 where
    here : Paused s s
    next : {t u : System fifo} → Paused s t → (st : Step fifo t u) → Unresumed st → Paused s u

  Step-Held :
      {s t : System fifo} (st : Step fifo s t)
      → Unresumed st
      → Held s
      → Held t × (t.shared.executed ≡ s.shared.executed)
  Step-Held (call (System.push t)) u h = ((h.0, omega arith), refl)
  Step-Held (call System.pause) u h = ((h.0, omega arith), refl)
  Step-Held (call System.resume) u h = absurd u
  Step-Held {s} (turn xs p ys e ok) u h = ((moved.0, later), moved.2)
    where
      sum : total stirs xs + (stirs p + total stirs ys) ≡ 0
      sum = sym (total-append stirs xs (p ∷ ys)) ∙ rw (← e) h.1

      moved :
          (0 < (advance fifo s.shared p).0.pause_count)
          × (total stirs (advance fifo s.shared p).1 ≡ 0)
          × ((advance fifo s.shared p).0.executed ≡ s.shared.executed)
      moved = advance-Held s.shared p ok h.0 (omega (arith, sum))

      later : total stirs (xs ++ (advance fifo s.shared p).1 ++ ys) ≡ 0
      later = omega (
        arith,
        sum,
        moved.1,
        total-append stirs (xs ++ (advance fifo s.shared p).1) ys,
        total-append stirs xs (advance fifo s.shared p).1,
      )

  -- Once the queue is paused, no call of `resume` is in progress, no task executes, and no call has
  -- passed the test of `m_pauseCount` in `pickNextTask` without having found that it has no task to
  -- start, the queue stays so and no task executes, whatever is pushed and however often `pause` is
  -- called, until a client calls `resume`.
  pub Paused-executed :
      {s t : System fifo} → Held s → Paused s t → Held t × (t.shared.executed ≡ s.shared.executed)
  Paused-executed h here = (h, refl)
  Paused-executed h (next r st u) =
      let (held, same) = Paused-executed h r in
      let (held', same') = Step-Held st u held in (held', same' ∙ same)
