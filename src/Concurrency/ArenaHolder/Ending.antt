-- ===== src/Concurrency/ArenaHolder/Ending.antt =====
-- What the members of an arena holder do to the count of a task, and to how often it is handed over.
use unify_prototype.Common.{
  ℕ, zero, suc, ◌+◌, ◌<◌, ◌≤◌, ◌≡◌, refl, List, [], ◌∷◌, ◌++◌, Option, none, some, arith, length,
  get_elem?, total, to_ℕ, ◌==◌, total-append, Option-cases, inl, inr,
}
use unify_prototype.Concurrency.WaitingTask.Defs.{
  uint_mod, Tasks, Holder, acquire, preset_task_as_failed, increment_ref_count, decrement_ref_count,
}
use unify_prototype.Concurrency.WaitingTask.Holding.{
  Waiting, set_at, holders_of, holds-le, holds-vacate, total-set_at,
}
use unify_prototype.Concurrency.WaitingTask.Holding as H
use unify_prototype.Concurrency.WaitingTask.Counting.{
  count, times, drops, acquire_lem, failed-count,
}
use unify_prototype.Concurrency.ArenaHolder.Defs.{
  ArenaHolder, Enqueued, of_holder, vacate, acquire_of, done_waiting, destroy, release,
}
use unify_prototype.Concurrency.ArenaHolder.Holding.{put_at, Mixed, holds, arena_holders_of}

abbrev pub is_of : ℕ → Enqueued → ℕ
is_of u c = to_ℕ (c.task == u)

-- How often a task was handed to a group, or waits in an arena to be.
unfoldable pub handed : ℕ → Mixed → ℕ
handed u s = times u s.waiting.tasks + total (is_of u) s.enqueued

-- The holders of both kinds.
unfoldable pub all_holders_of : Mixed → ℕ → ℕ
all_holders_of s u = holders_of s.waiting u + arena_holders_of s u

pub total-put_at :
    (w : ArenaHolder → ℕ) (i : ℕ) (h old : ArenaHolder) (hs : List ArenaHolder)
    → get_elem? hs i ≡ some old
    → total w (put_at i h hs) + w old ≡ total w hs + w h
unfolding put_at
total-put_at w i h old [] e = cc
total-put_at w zero h old (x ∷ xs) e = ground arith
total-put_at w (suc i) h old (x ∷ xs) e = omega (arith, total-put_at w i h old xs e)

pub arena_holds-le : (u : ℕ) (hs : List ArenaHolder) → total (holds u) hs ≤ length hs
unfolding holds
arena_holds-le u [] = omega arith
arena_holds-le u (h ∷ hs) = ground (arith, arena_holds-le u hs)

pub get_elem?-arena_holds :
    (u : ℕ) (hs : List ArenaHolder) (i : ℕ) (h : ArenaHolder)
    → get_elem? hs i ≡ some h
    → holds u h ≤ total (holds u) hs
get_elem?-arena_holds u [] i h e = cc
get_elem?-arena_holds u (x ∷ hs) zero h e = ground arith
get_elem?-arena_holds u (x ∷ hs) (suc i) h e = omega (arith, get_elem?-arena_holds u hs i h e)

pub arena_holds-task : (h : ArenaHolder) (t u : ℕ) → h.task ≡ some t → holds u h ≡ to_ℕ (t == u)
unfolding holds
arena_holds-task h t u e = rw e refl

pub arena_holds_self : (h : ArenaHolder) (t : ℕ) → h.task ≡ some t → holds t h ≡ 1
arena_holds_self h t e = ground (arith, arena_holds-task h t t e)

pub arena_holds-vacate : (u : ℕ) (h : ArenaHolder) → holds u (vacate h) ≡ 0
unfolding holds
arena_holds-vacate u h = refl

pub acquire_of_lem :
    (ts : Tasks) (h : ArenaHolder) (u : ℕ)
    → count ts u + 1 < uint_mod
    → (count (acquire_of ts h.task) u ≡ count ts u + holds u h)
      × (times u (acquire_of ts h.task) ≡ times u ts)
unfolding acquire_of holds
acquire_of_lem ts h u room = elim (Option-cases h.task) [
  | inl e ↦ rw e (omega arith, refl)
  | inr (t, e) ↦ rw e (acquire_lem ts t u room)
]

-- What the end of an arena holder does to the task `u`, which it holds or not.
abbrev pub Ended : Tasks → Tasks × List Enqueued → ℕ → ℕ → Type 0
Ended ts r u held =
    (count r.0 u + held ≡ count ts u)
    × (times u r.0 ≡ times u ts)
    × (total (is_of u) r.1 ≡ drops (count ts u) (count r.0 u))

pub done_waiting_lem :
    (ts : Tasks) (a g t u : ℕ) (e : Option ℕ)
    → 0 < count ts t
    → count ts t < uint_mod
    → Ended ts (done_waiting ts a g t e) u (to_ℕ (t == u))
unfolding done_waiting preset_task_as_failed times decrement_ref_count
done_waiting_lem ts a g t u e pos small =
    ground (arith, failed-count (ts.task u) e, failed-count (ts.task t) e)

pub destroy_lem :
    (ts : Tasks) (h : ArenaHolder) (u : ℕ)
    → ((v : ℕ) → holds v h ≤ count ts v)
    → ((v : ℕ) → count ts v < uint_mod)
    → Ended ts (destroy ts h) u (holds u h)
unfolding destroy holds
destroy_lem ts h u held small = elim (Option-cases h.task) [
  | inl e ↦ rw e (ground arith)
  | inr (t, e) ↦ rw e (
      done_waiting_lem ts h.arena h.group t u none (omega (arith, held t, arena_holds_self h t e))
        (small t))
]

pub release_lem :
    (ts : Tasks) (t u : ℕ)
    → count ts u + 1 < uint_mod
    → (count (release ts t) u ≡ count ts u) × (times u (release ts t) ≡ times u ts)
unfolding release acquire times increment_ref_count decrement_ref_count
release_lem ts t u room = ground arith

pub holder_of_task : (a : ℕ) (h : Holder) (u : ℕ) → holds u (of_holder a h) ≡ H.holds u h
unfolding holds H.holds
holder_of_task a h u = refl

pub holds-one : (u : ℕ) (h : ArenaHolder) → holds u h ≤ 1
unfolding holds
holds-one u h = ground arith

-- A closure that an arena runs hands its task to the group.
pub run_lem :
    (ts : Tasks) (c : Enqueued) (u : ℕ)
    → times u (record ts { spawned = ts.spawned ++ (c.group, c.task) ∷ [] })
      ≡ times u ts + is_of u c
unfolding times
run_lem ts c u =
    omega (arith, total-append (λ (p : ℕ × ℕ). to_ℕ (p.1 == u)) ts.spawned ((c.group, c.task) ∷ []))
