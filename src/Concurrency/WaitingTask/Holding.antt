-- ===== src/Concurrency/WaitingTask/Holding.antt =====
-- Any number of tasks and holders: a program of the holders' members, in any order.
use unify_prototype.Common.{
  ℕ, zero, suc, ◌+◌, ◌<◌, ◌≡◌, refl, List, [], ◌∷◌, ◌++◌, Option, none, some, arith, length,
  get_elem?, total, to_ℕ, ◌==◌,
}
use unify_prototype.Concurrency.WaitingTask.Defs.{
  new_task, uint_mod, Tasks, Holder, no_task, acquire, vacate, preset_task_as_failed, done_waiting,
  destroy,
}

-- The entry at a place replaced.
unfoldable pub set_at : ℕ → Holder → List Holder → List Holder
set_at i h [] = []
set_at zero h (x ∷ xs) = h ∷ xs
set_at (suc i) h (x ∷ xs) = x ∷ set_at i h xs

-- The tasks and the holders, in the order of their construction; a holder that was destroyed keeps
-- its place without a task.
pub record Waiting : Type 0 where
  pub tasks : Tasks
  pub holders : List Holder

abbrev pub at_first : Waiting
at_first = record { tasks = record { task = λ t. new_task; spawned = [] }; holders = [] }

-- One member function. The copy constructor, the copy assignment, `presetTaskAsFailed` and
-- `doneWaiting` dereference the task, so they are called on a holder with a task.
pub data Step (s : Waiting) : Waiting → Type 0 where
  default_construct : Step s (record s { holders = s.holders ++ no_task ∷ [] })
  construct :
      (g t : ℕ)
      → Step s (record {
        tasks = acquire s.tasks t;
        holders = s.holders ++ record { task = some t; group = g } ∷ [];
      })
  copy_construct :
      (i : ℕ) (h : Holder) (t : ℕ)
      → get_elem? s.holders i ≡ some h
      → h.task ≡ some t
      → Step s (record { tasks = acquire s.tasks t; holders = s.holders ++ h ∷ [] })
  move_construct :
      (i : ℕ) (h : Holder)
      → get_elem? s.holders i ≡ some h
      → Step s (record s { holders = set_at i (vacate h) s.holders ++ h ∷ [] })
  -- `operator=(const&)`: the temporary copy, the swap, and the end of the temporary
  copy_assign :
      (i j : ℕ) (old h : Holder) (t : ℕ)
      → get_elem? s.holders i ≡ some old
      → get_elem? s.holders j ≡ some h
      → h.task ≡ some t
      → Step s (record { tasks = destroy (acquire s.tasks t) old; holders = set_at i h s.holders })
  -- `operator=(&&)`: the holder at `i` is looked at after the one at `j` was moved from
  move_assign :
      (i j : ℕ) (old h : Holder)
      → get_elem? s.holders j ≡ some h
      → get_elem? (set_at j (vacate h) s.holders) i ≡ some old
      → Step s (record {
        tasks = destroy s.tasks old;
        holders = set_at i h (set_at j (vacate h) s.holders);
      })
  preset :
      (i : ℕ) (h : Holder) (t : ℕ) (e : Option ℕ)
      → get_elem? s.holders i ≡ some h
      → h.task ≡ some t
      → Step s (record s { tasks = preset_task_as_failed s.tasks t e })
  done :
      (i : ℕ) (h : Holder) (t : ℕ) (e : Option ℕ)
      → get_elem? s.holders i ≡ some h
      → h.task ≡ some t
      → Step s (record {
        tasks = done_waiting s.tasks h.group t e;
        holders = set_at i (vacate h) s.holders;
      })
  destruct :
      (i : ℕ) (h : Holder)
      → get_elem? s.holders i ≡ some h
      → Step s (record { tasks = destroy s.tasks h; holders = set_at i (vacate h) s.holders })

-- Whether a holder holds the task.
unfoldable pub holds : ℕ → Holder → ℕ
holds u h = elim h.task [ none ↦ 0 | some t ↦ to_ℕ (t == u) ]

unfoldable pub holders_of : Waiting → ℕ → ℕ
holders_of s u = total (holds u) s.holders

-- Fewer than 2^32 - 1 holders are constructed, those counted that were destroyed since.
pub data Reach : Waiting → Type 0 where
  at_start : Reach at_first
  later : {s t : Waiting} → Reach s → Step s t → length t.holders + 1 < uint_mod → Reach t

pub length-set_at : (i : ℕ) (h : Holder) (hs : List Holder) → length (set_at i h hs) ≡ length hs
unfolding set_at
length-set_at i h [] = refl
length-set_at zero h (x ∷ xs) = refl
length-set_at (suc i) h (x ∷ xs) = omega (arith, length-set_at i h xs)

pub total-set_at :
    (w : Holder → ℕ) (i : ℕ) (h old : Holder) (hs : List Holder)
    → get_elem? hs i ≡ some old
    → total w (set_at i h hs) + w old ≡ total w hs + w h
unfolding set_at
total-set_at w i h old [] e = cc
total-set_at w zero h old (x ∷ xs) e = ground arith
total-set_at w (suc i) h old (x ∷ xs) e = omega (arith, total-set_at w i h old xs e)

pub holds-le : (u : ℕ) (hs : List Holder) → total (holds u) hs < length hs + 1
unfolding holds
holds-le u [] = omega arith
holds-le u (h ∷ hs) = ground (arith, holds-le u hs)

pub holds-vacate : (u : ℕ) (h : Holder) → holds u (vacate h) ≡ 0
unfolding holds
holds-vacate u h = refl
