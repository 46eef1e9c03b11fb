-- ===== src/Concurrency/LimitedTaskQueue/Pausing.antt =====
-- The pause count of each queue is the number of resumers that hold it.
use unify_prototype.Common.{
  ℕ, zero, suc, ◌+◌, ◌<◌, ◌≤◌, ◌≡◌, refl, List, [], ◌∷◌, Option, none, some, arith, length,
  get_elem?, total, total-append,
}
use unify_prototype.Concurrency.SerialTaskQueue.Defs.{ConcurrentQueue, pause, resume, ulong_mod}
use unify_prototype.Concurrency.LimitedTaskQueue.Resumer.{
  replace_at, Queues, pause_of, resume_of, Resuming, Step, create, copy, move, copy_assign,
  move_assign, resume_call, Reach, at_start, later, holds,
}

total-replace_at :
    (w : Option ℕ → ℕ) (i : ℕ) (r old : Option ℕ) (rs : List (Option ℕ))
    → get_elem? rs i ≡ some old
    → total w (replace_at i r rs) + w old ≡ total w rs + w r
unfolding replace_at
total-replace_at w i r old [] e = cc
total-replace_at w zero r old (x ∷ xs) e = ground arith
total-replace_at w (suc i) r old (x ∷ xs) e = omega (arith, total-replace_at w i r old xs e)

get_elem?-replace_at :
    (i j : ℕ) (r old : Option ℕ) (rs : List (Option ℕ))
    → get_elem? rs i ≡ some old
    → get_elem? rs j ≡ some r
    → get_elem? (replace_at i r rs) j ≡ some r
unfolding replace_at
get_elem?-replace_at i j r old [] e k = cc
get_elem?-replace_at zero zero r old (x ∷ xs) e k = refl
get_elem?-replace_at zero (suc j) r old (x ∷ xs) e k = k
get_elem?-replace_at (suc i) zero r old (x ∷ xs) e k = k
get_elem?-replace_at (suc i) (suc j) r old (x ∷ xs) e k = get_elem?-replace_at i j r old xs e k

holds-le : (q : ℕ) (rs : List (Option ℕ)) → total (holds q) rs ≤ length rs
holds-le q [] = omega arith
holds-le q (none ∷ rs) = omega (arith, holds-le q rs)
holds-le q (some p ∷ rs) = ground (arith, holds-le q rs)

get_elem?-holds :
    (q : ℕ) (rs : List (Option ℕ)) (i : ℕ) (r : Option ℕ)
    → get_elem? rs i ≡ some r
    → holds q r ≤ total (holds q) rs
get_elem?-holds q [] i r e = cc
get_elem?-holds q (x ∷ rs) zero r e = ground arith
get_elem?-holds q (x ∷ rs) (suc i) r e = omega (arith, get_elem?-holds q rs i r e)

module _ (fifo : ConcurrentQueue) where
  pub pause_of_lem :
      (r : Option ℕ) (qs : Queues fifo) (q : ℕ)
      → (qs q).pause_count + 1 < ulong_mod
      → (pause_of fifo r qs q).pause_count ≡ (qs q).pause_count + holds q r
  unfolding pause_of pause
  pause_of_lem none qs q h = omega arith
  pause_of_lem (some p) qs q h = ground arith

  pub resume_of_lem :
      (r : Option ℕ) (qs : Queues fifo) (q : ℕ)
      → holds q r ≤ (qs q).pause_count
      → (qs q).pause_count < ulong_mod
      → (resume_of fifo r qs q).pause_count + holds q r ≡ (qs q).pause_count
  unfolding resume_of resume
  resume_of_lem none qs q h k = omega arith
  resume_of_lem (some p) qs q h k = ground arith

  abbrev Counted : Resuming fifo → ℕ → Type 0
  Counted s q = (s.queues q).pause_count ≡ total (holds q) s.resumers

  room :
      (s : Resuming fifo) (q : ℕ)
      → Counted s q
      → length s.resumers + 1 < ulong_mod
      → (s.queues q).pause_count + 1 < ulong_mod
  room s q c f = omega (arith, c, holds-le q s.resumers)

  Step-Counted :
      {s t : Resuming fifo} (q : ℕ)
      → Step fifo s t
      → Counted s q
      → length s.resumers + 1 < ulong_mod
      → Counted t q
  Step-Counted {s} q (create p) c f = omega (
    arith,
    c,
    pause_of_lem (some p) s.queues q (room s q c f),
    total-append (holds q) s.resumers (some p ∷ []),
  )
  Step-Counted {s} q (copy i r e) c f = omega (
    arith,
    c,
    pause_of_lem r s.queues q (room s q c f),
    total-append (holds q) s.resumers (r ∷ []),
  )
  Step-Counted {s} q (move i r e) c f = omega (
    arith,
    c,
    total-append (holds q) (replace_at i none s.resumers) (r ∷ []),
    total-replace_at (holds q) i none r s.resumers e,
  )
  Step-Counted {s} q (copy_assign i j old r e k) c f =
      let more = pause_of_lem r s.queues q (room s q c f) in
      omega (
        arith,
        c,
        more,
        resume_of_lem old (pause_of fifo r s.queues) q
            (omega (arith, c, more, get_elem?-holds q s.resumers i old e))
            (omega (arith, c, more, room s q c f, holds-le q s.resumers, holds-le q (r ∷ []))),
        total-replace_at (holds q) i r old s.resumers e,
      )
  Step-Counted {s} q (move_assign i j old r e k) c f = omega (
    arith,
    c,
    resume_of_lem old s.queues q (omega (arith, c, get_elem?-holds q s.resumers i old e))
        (omega (arith, room s q c f)),
    total-replace_at (holds q) i r old s.resumers e,
    total-replace_at (holds q) j none r (replace_at i r s.resumers)
        (get_elem?-replace_at i j r old s.resumers e k),
  )
  Step-Counted {s} q (resume_call i r e) c f = omega (
    arith,
    c,
    resume_of_lem r s.queues q (omega (arith, c, get_elem?-holds q s.resumers i r e))
        (omega (arith, room s q c f)),
    total-replace_at (holds q) i none r s.resumers e,
  )

  Reach-Counted :
      {s : Resuming fifo} (q : ℕ) → Reach fifo s → Counted s q × (length s.resumers + 1 < ulong_mod)
  Reach-Counted q at_start = (refl, omega arith)
  Reach-Counted q (later r st f) = let (c, g) = Reach-Counted q r in (Step-Counted q st c g, f)

  -- Whatever is done with the resumers, and in whatever order, each queue is paused as many times as
  -- there are resumers that hold it, so it runs exactly when there is none, as long as fewer than
  -- 2^64 - 1 resumers are constructed and nothing else pauses the queue.
  pub counts_resumers :
      {s : Resuming fifo} (q : ℕ)
      → Reach fifo s
      → (s.queues q).pause_count ≡ total (holds q) s.resumers
  counts_resumers q r = (Reach-Counted q r).0
