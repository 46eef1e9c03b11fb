-- ===== src/Concurrency/WaitingTask/Counting.antt =====
-- The reference count is the number of holders, and the task is spawned when the last of them goes.
use unify_prototype.Common.{
  ℕ, zero, suc, ◌+◌, ◌<◌, ◌≤◌, ◌≡◌, refl, ◌&&◌, List, [], ◌∷◌, Option, none, some, arith, length,
  get_elem?, total, to_ℕ, ◌==◌, ltb, total-append, Option-cases, inl, inr,
}
use unify_prototype.Concurrency.WaitingTask.Defs.{
  WaitingTask, uint_mod, Tasks, Holder, no_task, acquire, vacate, preset_task_as_failed,
  done_waiting, destroy, increment_ref_count, decrement_ref_count, dependent_task_failed,
}
use unify_prototype.Concurrency.WaitingTask.Holding.{
  set_at, Waiting, Step, default_construct, construct, copy_construct, move_construct, copy_assign,
  move_assign, preset, done, destruct, holds, holders_of, Reach, at_start, later, total-set_at,
  holds-le, holds-vacate,
}

abbrev pub count : Tasks → ℕ → ℕ
count ts u = (ts.task u).ref_count

-- How often a task was handed to a group.
unfoldable pub times : ℕ → Tasks → ℕ
times u ts = total (λ p. to_ℕ (p.1 == u)) ts.spawned

-- Whether a number goes from above 0 to 0.
abbrev pub drops : ℕ → ℕ → ℕ
drops a b = to_ℕ (ltb 0 a && b == 0)

pub failed-count :
    (w : WaitingTask) (e : Option ℕ) → (dependent_task_failed w e).ref_count ≡ w.ref_count
unfolding dependent_task_failed
failed-count w none = refl
failed-count w (some e) = ground arith

pub acquire_lem :
    (ts : Tasks) (t u : ℕ)
    → count ts u + 1 < uint_mod
    → (count (acquire ts t) u ≡ count ts u + to_ℕ (t == u)) × (times u (acquire ts t) ≡ times u ts)
unfolding acquire times increment_ref_count
acquire_lem ts t u room = ground arith

pub preset_lem :
    (ts : Tasks) (t u : ℕ) (e : Option ℕ)
    → (count (preset_task_as_failed ts t e) u ≡ count ts u)
      × (times u (preset_task_as_failed ts t e) ≡ times u ts)
unfolding preset_task_as_failed times
preset_lem ts t u e = ground (arith, failed-count (ts.task u) e)

-- What the end of a holder does to the task `u`, which it holds or not.
abbrev Ended : Tasks → Tasks → ℕ → ℕ → Type 0
Ended ts ts' u held =
    (count ts' u + held ≡ count ts u)
    × (times u ts' ≡ times u ts + drops (count ts u) (count ts' u))

done_waiting_lem :
    (ts : Tasks) (g t u : ℕ) (e : Option ℕ)
    → 0 < count ts t
    → count ts t < uint_mod
    → Ended ts (done_waiting ts g t e) u (to_ℕ (t == u))
unfolding done_waiting preset_task_as_failed times decrement_ref_count
done_waiting_lem ts g t u e pos small = ground (
  arith,
  failed-count (ts.task u) e,
  failed-count (ts.task t) e,
  total-append (λ (p : ℕ × ℕ). to_ℕ (p.1 == u)) ts.spawned ((g, t) ∷ []),
)

pub holds-task : (h : Holder) (t u : ℕ) → h.task ≡ some t → holds u h ≡ to_ℕ (t == u)
unfolding holds
holds-task h t u e = rw e refl

pub holds_self : (h : Holder) (t : ℕ) → h.task ≡ some t → holds t h ≡ 1
holds_self h t e = ground (arith, holds-task h t t e)

pub destroy_lem :
    (ts : Tasks) (h : Holder) (u : ℕ)
    → ((v : ℕ) → holds v h ≤ count ts v)
    → ((v : ℕ) → count ts v < uint_mod)
    → Ended ts (destroy ts h) u (holds u h)
unfolding destroy holds
destroy_lem ts h u held small = elim (Option-cases h.task) [
  | inl e ↦ rw e (ground arith)
  | inr (t, e) ↦
      rw e
        (done_waiting_lem ts h.group t u none (omega (arith, held t, holds_self h t e)) (small t))
]

-- The count of each task is the number of its holders and of `others` that count besides.
abbrev pub Counted : Waiting → (ℕ → ℕ) → Type 0
Counted s others = (u : ℕ) → count s.tasks u ≡ holders_of s u + others u

-- There is room for one more holder.
abbrev pub HasRoom : Waiting → Type 0
HasRoom s = (u : ℕ) → count s.tasks u + 1 < uint_mod

-- The law of a step.
abbrev pub Lawful : Waiting → Waiting → (ℕ → ℕ) → Type 0
Lawful s s' others =
    (u : ℕ)
    → (count s'.tasks u ≡ holders_of s' u + others u)
      × (times u s'.tasks
          ≡ times u s.tasks + drops (holders_of s u + others u) (holders_of s' u + others u))

holds-none : (u : ℕ) → holds u no_task ≡ 0
unfolding holds
holds-none u = refl

pub get_elem?-holds :
    (u : ℕ) (hs : List Holder) (i : ℕ) (h : Holder)
    → get_elem? hs i ≡ some h
    → holds u h ≤ total (holds u) hs
get_elem?-holds u [] i h e = cc
get_elem?-holds u (x ∷ hs) zero h e = ground arith
get_elem?-holds u (x ∷ hs) (suc i) h e = omega (arith, get_elem?-holds u hs i h e)

pub Step-Lawful :
    {s s' : Waiting} (others : ℕ → ℕ)
    → Step s s'
    → Counted s others
    → HasRoom s
    → Lawful s s' others
unfolding holders_of
Step-Lawful {s} others default_construct c f u =
    ground (arith, c u, total-append (holds u) s.holders (no_task ∷ []), holds-none u)
Step-Lawful {s} others (construct g t) c f u = ground (
  arith,
  c u,
  acquire_lem s.tasks t u (f u),
  total-append (holds u) s.holders (record { task = some t; group = g } ∷ []),
  holds-task (record { task = some t; group = g }) t u refl,
)
Step-Lawful {s} others (copy_construct i h t e q) c f u = ground (
  arith,
  c u,
  acquire_lem s.tasks t u (f u),
  total-append (holds u) s.holders (h ∷ []),
  holds-task h t u q,
  get_elem?-holds u s.holders i h e,
)
Step-Lawful {s} others (move_construct i h e) c f u = ground (
  arith,
  c u,
  total-append (holds u) (set_at i (vacate h) s.holders) (h ∷ []),
  total-set_at (holds u) i (vacate h) h s.holders e,
  holds-vacate u h,
)
Step-Lawful {s} others (copy_assign i j old h t e k q) c f u =
    let more = (λ (v : ℕ). acquire_lem s.tasks t v (f v)) in
    let ended =
      destroy_lem (acquire s.tasks t) old u
        (λ v. omega (arith, c v, more v, get_elem?-holds v s.holders i old e))
        (λ v. ground (arith, more v, f v)) in
    ground (
      arith,
      c u,
      more u,
      ended,
      total-set_at (holds u) i h old s.holders e,
      holds-task h t u q,
      get_elem?-holds u s.holders i old e,
      get_elem?-holds u s.holders j h k,
    )
Step-Lawful {s} others (move_assign i j old h e k) c f u =
    let less = (λ (v : ℕ). total-set_at (holds v) j (vacate h) h s.holders e) in
    let ended =
      destroy_lem s.tasks old u
        (λ v. omega (
          arith,
          c v,
          less v,
          holds-vacate v h,
          get_elem?-holds v (set_at j (vacate h) s.holders) i old k,
        ))
        (λ v. omega (arith, f v)) in
    ground (
      arith,
      c u,
      ended,
      less u,
      holds-vacate u h,
      total-set_at (holds u) i h old (set_at j (vacate h) s.holders) k,
    )
Step-Lawful {s} others (preset i h t x e q) c f u = ground (arith, c u, preset_lem s.tasks t u x)
Step-Lawful {s} others (done i h t x e q) c f u =
    let holding : 0 < count s.tasks t =
      omega (arith, c t, get_elem?-holds t s.holders i h e, holds_self h t q) in
    ground (
      arith,
      c u,
      done_waiting_lem s.tasks h.group t u x holding (omega (arith, f t)),
      holds-task h t u q,
      total-set_at (holds u) i (vacate h) h s.holders e,
      holds-vacate u h,
    )
Step-Lawful {s} others (destruct i h e) c f u =
    let ended =
      destroy_lem s.tasks h u (λ v. omega (arith, c v, get_elem?-holds v s.holders i h e))
        (λ v. omega (arith, f v)) in
    ground (arith, c u, ended, total-set_at (holds u) i (vacate h) h s.holders e, holds-vacate u h)

abbrev none_besides : ℕ → ℕ
none_besides u = 0

Reach-Counted : {s : Waiting} → Reach s → Counted s none_besides × (length s.holders + 1 < uint_mod)
unfolding holders_of
Reach-Counted at_start = ((λ u. refl), omega arith)
Reach-Counted (later {s} r st f) =
    let (c, g) = Reach-Counted r in
    ((λ u. (Step-Lawful none_besides st c (λ v. omega (arith, c v, holds-le v s.holders)) u).0), f)

-- Whatever the holders' members are called on, and in whatever order, the reference count of each
-- task is the number of its holders, as long as fewer than 2^32 - 1 holders are constructed.
pub counts_holders : {s : Waiting} → Reach s → (t : ℕ) → count s.tasks t ≡ holders_of s t
counts_holders r t = omega (arith, (Reach-Counted r).0 t)

-- Under the same condition a call hands a task to its group exactly when it ends the last holder of
-- the task, and then once; no call hands over a task that still has a holder.
pub spawned_by_last_holder :
    {s s' : Waiting}
    → Reach s
    → Step s s'
    → (t : ℕ) → times t s'.tasks ≡ times t s.tasks + drops (holders_of s t) (holders_of s' t)
unfolding holders_of
spawned_by_last_holder {s} r st t =
    let (c, f) = Reach-Counted r in
    grind
      (arith, (Step-Lawful none_besides st c (λ v. omega (arith, c v, holds-le v s.holders)) t).1)
