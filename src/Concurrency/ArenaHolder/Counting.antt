-- ===== src/Concurrency/ArenaHolder/Counting.antt =====
-- The reference count is the number of the holders of both kinds, and the last of them hands the
-- task over.
use unify_prototype.Common.{ℕ, ◌+◌, ◌<◌, ◌≡◌, refl, ap, [], ◌∷◌, some, arith, total, total-append}
use unify_prototype.Concurrency.WaitingTask.Defs.{
  WaitingTask, uint_mod, Tasks, Holder, acquire, preset_task_as_failed, increment_ref_count,
  decrement_ref_count, dependent_task_failed,
}
use unify_prototype.Concurrency.WaitingTask.Defs as W
use unify_prototype.Concurrency.WaitingTask.Holding.{
  Waiting, set_at, holders_of, holds-le, holds-vacate, total-set_at,
}
use unify_prototype.Concurrency.WaitingTask.Holding as H
use unify_prototype.Concurrency.WaitingTask.Counting.{
  count, drops, acquire_lem, preset_lem, holds-task, Step-Lawful,
}
use unify_prototype.Concurrency.ArenaHolder.Defs.{
  no_task, of_holder, vacate, acquire_of, done_waiting, destroy,
}
use unify_prototype.Concurrency.ArenaHolder.Holding.{
  put_at, Mixed, Step, holder_step, default_construct, construct, construct_of_holder,
  copy_construct, move_construct, copy_assign, move_assign, preset, done, destruct, make_holder,
  run_enqueued, holds, arena_holders_of, Reach, at_start, later,
}
use unify_prototype.Concurrency.ArenaHolder.Ending.{
  is_of, handed, all_holders_of, total-put_at, arena_holds-le, get_elem?-arena_holds,
  arena_holds-task, arena_holds_self, arena_holds-vacate, acquire_of_lem, done_waiting_lem,
  destroy_lem, release_lem, holder_of_task, holds-one, run_lem,
}

abbrev Counted : Mixed → Type 0
Counted s = (u : ℕ) → count s.waiting.tasks u ≡ all_holders_of s u

abbrev HasRoom : Mixed → Type 0
HasRoom s = (u : ℕ) → count s.waiting.tasks u + 1 < uint_mod

-- The law of a step.
abbrev Lawful : Mixed → Mixed → ℕ → Type 0
Lawful s s' u =
    (count s'.waiting.tasks u ≡ all_holders_of s' u)
    × (handed u s' ≡ handed u s + drops (all_holders_of s u) (all_holders_of s' u))

-- The end of an arena holder, against the state before it.
Step-Lawful_all : {s s' : Mixed} → Step s s' → Counted s → HasRoom s → (u : ℕ) → Lawful s s' u
unfolding handed all_holders_of holders_of
Step-Lawful_all {s} (holder_step w st) c f u =
    ground (arith, Step-Lawful (arena_holders_of s) st c f u)
Step-Lawful_all {s} default_construct c f u = ground (
  arith,
  c u,
  total-append (holds u) s.arena_holders (no_task ∷ []),
  arena_holds-vacate u no_task,
)
Step-Lawful_all {s} (construct a g t) c f u = ground (
  arith,
  c u,
  acquire_lem s.waiting.tasks t u (f u),
  total-append (holds u) s.arena_holders (record { task = some t; group = g; arena = a } ∷ []),
  arena_holds-task (record { task = some t; group = g; arena = a }) t u refl,
)
Step-Lawful_all {s} (construct_of_holder a i h e) c f u = ground (
  arith,
  c u,
  total-append (holds u) s.arena_holders (of_holder a h ∷ []),
  total-set_at (H.holds u) i (W.vacate h) h s.waiting.holders e,
  holds-vacate u h,
  holder_of_task a h u,
)
Step-Lawful_all {s} (copy_construct i h e) c f u = ground (
  arith,
  c u,
  acquire_of_lem s.waiting.tasks h u (f u),
  total-append (holds u) s.arena_holders (h ∷ []),
  get_elem?-arena_holds u s.arena_holders i h e,
)
Step-Lawful_all {s} (move_construct i h e) c f u = ground (
  arith,
  c u,
  total-append (holds u) (put_at i (vacate h) s.arena_holders) (h ∷ []),
  total-put_at (holds u) i (vacate h) h s.arena_holders e,
  arena_holds-vacate u h,
)
Step-Lawful_all {s} (copy_assign i j old h e k) c f u =
    let more = (λ (v : ℕ). acquire_of_lem s.waiting.tasks h v (f v)) in
    let ended =
      destroy_lem (acquire_of s.waiting.tasks h.task) old u
        (λ v. omega (arith, c v, more v, get_elem?-arena_holds v s.arena_holders i old e))
        (λ v. omega (arith, more v, f v, holds-one v h)) in
    ground (
      arith,
      c u,
      more u,
      ended,
      total-put_at (holds u) i h old s.arena_holders e,
      get_elem?-arena_holds u s.arena_holders i old e,
      get_elem?-arena_holds u s.arena_holders j h k,
      total-append (is_of u) s.enqueued (destroy (acquire_of s.waiting.tasks h.task) old).1,
    )
Step-Lawful_all {s} (move_assign i j old h e k) c f u =
    let less = (λ (v : ℕ). total-put_at (holds v) j (vacate h) h s.arena_holders e) in
    let ended =
      destroy_lem s.waiting.tasks old u
        (λ v. omega (
          arith,
          c v,
          less v,
          arena_holds-vacate v h,
          get_elem?-arena_holds v (put_at j (vacate h) s.arena_holders) i old k,
        ))
        (λ v. omega (arith, f v)) in
    ground (
      arith,
      c u,
      ended,
      less u,
      arena_holds-vacate u h,
      total-put_at (holds u) i h old (put_at j (vacate h) s.arena_holders) k,
      total-append (is_of u) s.enqueued (destroy s.waiting.tasks old).1,
    )
Step-Lawful_all {s} (preset i h t x e q) c f u =
    ground (arith, c u, preset_lem s.waiting.tasks t u x)
Step-Lawful_all {s} (done i h t x e q) c f u =
    let holding : 0 < count s.waiting.tasks t =
      omega (arith, c t, get_elem?-arena_holds t s.arena_holders i h e, arena_holds_self h t q) in
    ground (
      arith,
      c u,
      done_waiting_lem s.waiting.tasks h.arena h.group t u x holding (omega (arith, f t)),
      arena_holds-task h t u q,
      total-put_at (holds u) i (vacate h) h s.arena_holders e,
      arena_holds-vacate u h,
      total-append (is_of u) s.enqueued (done_waiting s.waiting.tasks h.arena h.group t x).1,
    )
Step-Lawful_all {s} (destruct i h e) c f u =
    let ended =
      destroy_lem s.waiting.tasks h u
        (λ v. omega (arith, c v, get_elem?-arena_holds v s.arena_holders i h e))
        (λ v. omega (arith, f v)) in
    ground (
      arith,
      c u,
      ended,
      total-put_at (holds u) i (vacate h) h s.arena_holders e,
      arena_holds-vacate u h,
      total-append (is_of u) s.enqueued (destroy s.waiting.tasks h).1,
    )
Step-Lawful_all {s} (make_holder i h t e q) c f u = ground (
  arith,
  c u,
  release_lem s.waiting.tasks t u (f u),
  arena_holds-task h t u q,
  total-put_at (holds u) i (vacate h) h s.arena_holders e,
  arena_holds-vacate u h,
  total-append (H.holds u) s.waiting.holders (record { task = some t; group = h.group } ∷ []),
  holds-task (record { task = some t; group = h.group }) t u refl,
)
Step-Lawful_all {s} (run_enqueued before x after e) c f u = ground (
  arith,
  c u,
  run_lem s.waiting.tasks x u,
  ap (total (is_of u)) e,
  total-append (is_of u) before (x ∷ after),
  total-append (is_of u) before after,
)

Reach-Counted : {s : Mixed} → Reach s → Counted s × HasRoom s
unfolding all_holders_of holders_of
Reach-Counted at_start = ((λ u. refl), λ u. omega arith)
Reach-Counted (later {s} {t} r st f) =
    let (c, g) = Reach-Counted r in
    let counted = (λ (u : ℕ). (Step-Lawful_all st c g u).0) in
    (
      counted,
      λ u. omega (arith, counted u, holds-le u t.waiting.holders, arena_holds-le u t.arena_holders),
    )

-- Whatever the members of holders of the two kinds are called on, and in whatever order, the
-- reference count of each task is the number of its holders of both kinds together, as long as fewer
-- than 2^32 - 1 holders are constructed.
pub counts_all_holders :
    {s : Mixed} → Reach s → (t : ℕ) → count s.waiting.tasks t ≡ all_holders_of s t
counts_all_holders r t = (Reach-Counted r).0 t

-- Under the same condition a task is handed over, to its group or to an arena that will, exactly by
-- the call that ends the last of its holders of both kinds, and then once: moving the task to a holder
-- of the other kind does not hand it over, and the run of an enqueued closure does not do so again.
pub handed_by_last_holder :
    {s s' : Mixed}
    → Reach s
    → Step s s'
    → (t : ℕ) → handed t s' ≡ handed t s + drops (all_holders_of s t) (all_holders_of s' t)
handed_by_last_holder r st t = let (c, f) = Reach-Counted r in (Step-Lawful_all st c f t).1
