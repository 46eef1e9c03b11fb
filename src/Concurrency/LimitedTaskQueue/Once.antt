-- ===== src/Concurrency/LimitedTaskQueue/Once.antt =====
-- What one move does to an action and to the closures that the queues run.
use unify_prototype.Common.{
  ℕ, ◌+◌, ◌≤◌, ◌<◌, ◌≡◌, refl, false, Bool-cases, inl, inr, [], ◌∷◌, arith, total, total-append,
  to_ℕ, ltb, if◌then◌else◌, is, ◌≤◌, All,
}
use unify_prototype.Concurrency.SerialTaskQueue.Defs.{ConcurrentQueue}
use unify_prototype.Concurrency.LimitedTaskQueue.Actions.{
  Pc, offering, queued, testing, pausing, acting, busy, Shared, set_flag, advance,
}

abbrev pub action_of : Pc → ℕ
action_of (offering a i) = a.set_to_run
action_of (queued a i) = a.set_to_run
action_of (testing a i) = a.set_to_run
action_of (pausing a i) = a.set_to_run
action_of (acting a i) = a.set_to_run

-- The closure has set the flag and has yet to run the action.
abbrev pub won : ℕ → Pc → ℕ
won a (pausing b i) = is a b.set_to_run
won a (acting b i) = is a b.set_to_run
won a _ = 0

abbrev pub runs : Pc → ℕ
runs (acting a i) = 1
runs _ = 0

-- The call that a queue starts is the only one that it runs.
abbrev pub Free : ℕ → ℕ → Pc → Type 0
Free k q (queued a i) = i ≡ q → k ≡ 0
Free k q _ = Unit

module _ (limit : ℕ) where
  -- A closure of the action is yet to test the flag.
  abbrev pub tries : ℕ → Pc → ℕ
  tries a (offering b i) = if ltb i limit then is a b.set_to_run else 0
  tries a (queued b i) = is a b.set_to_run
  tries a (testing b i) = is a b.set_to_run
  tries a _ = 0

  abbrev pub InLimit : Pc → Type 0
  InLimit (offering a i) = Unit
  InLimit (queued a i) = i < limit
  InLimit (testing a i) = i < limit
  InLimit (pausing a i) = i < limit
  InLimit (acting a i) = i < limit

  module _ (fifo : ConcurrentQueue) where
    -- Nothing is known of an action that was not pushed.
    pub advance-fresh :
        (s : Shared fifo) (p : Pc) (a k : ℕ)
        → total (is a) s.acted + (k + is a (action_of p)) ≡ 0
        → total (is a) (advance fifo limit s p).0.acted
            + (k + total (λ p. is a (action_of p)) (advance fifo limit s p).1)
          ≡ 0
    unfolding advance set_flag
    advance-fresh s (offering b i) a k h = ground arith
    advance-fresh s (queued b i) a k h = ground arith
    advance-fresh s (testing b i) a k h = ground arith
    advance-fresh s (pausing b i) a k h = ground arith
    advance-fresh s (acting b i) a k h =
        ground (arith, total-append (is a) s.acted (b.set_to_run ∷ []))

    pub advance-made : (s : Shared fifo) (p : Pc) → (advance fifo limit s p).0.made ≡ s.made
    unfolding advance set_flag
    advance-made s (offering b i) = refl
    advance-made s (queued b i) = refl
    advance-made s (testing b i) = ground arith
    advance-made s (pausing b i) = refl
    advance-made s (acting b i) = refl

    -- The action has run, or some call is about to run it, if the flag is set, and not otherwise.
    pub advance-won :
        (s : Shared fifo) (p : Pc) (a k : ℕ)
        → total (is a) s.acted + (k + won a p) ≡ to_ℕ (s.flags a)
        → total (is a) (advance fifo limit s p).0.acted
            + (k + total (won a) (advance fifo limit s p).1)
          ≡ to_ℕ ((advance fifo limit s p).0.flags a)
    unfolding advance set_flag
    advance-won s (offering b i) a k h = ground arith
    advance-won s (queued b i) a k h = ground arith
    advance-won s (testing b i) a k h = ground arith
    advance-won s (pausing b i) a k h = ground arith
    advance-won s (acting b i) a k h =
        ground (arith, total-append (is a) s.acted (b.set_to_run ∷ []))

    pub advance-tries :
        (s : Shared fifo) (p : Pc) (a k : ℕ)
        → (s.flags a ≡ false → 0 < k + tries a p)
        → (advance fifo limit s p).0.flags a ≡ false
        → 0 < k + total (tries a) (advance fifo limit s p).1
    unfolding advance set_flag
    advance-tries s (offering b i) a k h e = ground arith
    advance-tries s (queued b i) a k h e = ground arith
    advance-tries s (testing b i) a k h e = ground arith
    advance-tries s (pausing b i) a k h e = ground arith
    advance-tries s (acting b i) a k h e = ground arith

    pub advance-busy :
        (s : Shared fifo) (p : Pc) (q k : ℕ)
        → Free k q p
        → k + busy q p ≤ 1
        → k + total (busy q) (advance fifo limit s p).1 ≤ 1
    unfolding advance set_flag
    advance-busy s (offering b i) q k h e = ground arith
    advance-busy s (queued b i) q k h e = ground arith
    advance-busy s (testing b i) q k h e = ground arith
    advance-busy s (pausing b i) q k h e = ground arith
    advance-busy s (acting b i) q k h e = ground arith

    pub advance-InLimit :
        (s : Shared fifo) (p : Pc) → InLimit p → All InLimit (advance fifo limit s p).1
    unfolding advance set_flag
    advance-InLimit s (offering b i) h = elim (Bool-cases (ltb i limit)) [
      | inl q ↦ rw q (ground arith, (tt, tt))
      | inr q ↦ rw q tt
    ]
    advance-InLimit s (queued b i) h = (h, tt)
    advance-InLimit s (testing b i) h = elim (Bool-cases (s.flags b.set_to_run)) [
      | inl q ↦ rw q tt
      | inr q ↦ rw q (elim (Bool-cases b.pauses) [ inl r ↦ rw r (h, tt) | inr r ↦ rw r (h, tt) ])
    ]
    advance-InLimit s (pausing b i) h = (h, tt)
    advance-InLimit s (acting b i) h = tt
