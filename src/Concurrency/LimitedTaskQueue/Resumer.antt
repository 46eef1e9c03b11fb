-- ===== src/Concurrency/LimitedTaskQueue/Resumer.antt =====
-- `LimitedTaskQueue::Resumer` and the queues that they pause. Each member function is one step.
use unify_prototype.Common.{
  ℕ, zero, suc, ◌+◌, ◌<◌, ◌≡◌, List, [], ◌∷◌, ◌++◌, Option, none, some, length, get_elem?, to_ℕ,
  ◌==◌, if◌then◌else◌,
}
use unify_prototype.Concurrency.SerialTaskQueue.Defs.{
  ConcurrentQueue, Shared, init, pause, resume, ulong_mod,
}

-- The entry at a place replaced.
unfoldable pub replace_at : ℕ → Option ℕ → List (Option ℕ) → List (Option ℕ)
replace_at i r [] = []
replace_at zero r (x ∷ xs) = r ∷ xs
replace_at (suc i) r (x ∷ xs) = x ∷ replace_at i r xs

module _ (fifo : ConcurrentQueue) where
  abbrev pub Queues : Type 0
  Queues = ℕ → Shared fifo

  -- `m_queue->pause()`, if there is a queue.
  unfoldable pub pause_of : Option ℕ → Queues → Queues
  unfolding pause
  pause_of none qs = qs
  pause_of (some q) qs = λ p. if q == p then (pause fifo (qs p)).0 else qs p

  -- `m_queue->resume()`, if there is a queue.
  unfoldable pub resume_of : Option ℕ → Queues → Queues
  unfolding resume
  resume_of none qs = qs
  resume_of (some q) qs = λ p. if q == p then (resume fifo (qs p)).0 else qs p

  -- The queues, and `m_queue` of each resumer in the order of their construction; one that was
  -- destroyed keeps its place without a queue.
  pub record Resuming : Type 0 where
    pub queues : Queues
    pub resumers : List (Option ℕ)

  abbrev pub none_yet : Resuming
  none_yet = record { queues = λ q. init fifo; resumers = [] }

  pub data Step (s : Resuming) : Resuming → Type 0 where
    -- in the task of `pushAndPause`: the queue is paused, and a resumer made of it
    create :
        (q : ℕ)
        → Step s
            (record { queues = pause_of (some q) s.queues; resumers = s.resumers ++ some q ∷ [] })
    copy :
        (i : ℕ) (r : Option ℕ)
        → get_elem? s.resumers i ≡ some r
        → Step s (record { queues = pause_of r s.queues; resumers = s.resumers ++ r ∷ [] })
    move :
        (i : ℕ) (r : Option ℕ)
        → get_elem? s.resumers i ≡ some r
        → Step s (record s { resumers = replace_at i none s.resumers ++ r ∷ [] })
    -- `operator=(const&)`: a copy, which is then moved from
    copy_assign :
        (i j : ℕ) (old r : Option ℕ)
        → get_elem? s.resumers i ≡ some old
        → get_elem? s.resumers j ≡ some r
        → Step s (record {
          queues = resume_of old (pause_of r s.queues);
          resumers = replace_at i r s.resumers;
        })
    -- `operator=(&&)`: a resumer that is moved to itself loses its queue
    move_assign :
        (i j : ℕ) (old r : Option ℕ)
        → get_elem? s.resumers i ≡ some old
        → get_elem? s.resumers j ≡ some r
        → Step s (record {
          queues = resume_of old s.queues;
          resumers = replace_at j none (replace_at i r s.resumers);
        })
    -- `resume`, and the destructor
    resume_call :
        (i : ℕ) (r : Option ℕ)
        → get_elem? s.resumers i ≡ some r
        → Step s (record { queues = resume_of r s.queues; resumers = replace_at i none s.resumers })

  -- Fewer than 2^64 - 1 resumers are constructed.
  pub data Reach : Resuming → Type 0 where
    at_start : Reach none_yet
    later : {s t : Resuming} → Reach s → Step s t → length t.resumers + 1 < ulong_mod → Reach t

-- Whether the resumer holds the queue.
abbrev pub holds : ℕ → Option ℕ → ℕ
holds q none = 0
holds q (some p) = to_ℕ (p == q)
