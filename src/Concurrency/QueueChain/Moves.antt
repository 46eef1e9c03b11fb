-- ===== src/Concurrency/QueueChain/Moves.antt =====
-- What one move of an action does to the queues, the count and the actions.
use unify_prototype.Common.{
  ℕ, zero, suc, ◌+◌, ◌-◌, ◌≤◌, ◌<◌, ◌≡◌, refl, ltb, ◌==◌, Bool-cases, inl, inr, to_ℕ, List, [], ◌∷◌,
  some, arith, length, length-total, total, total-append, total-le, All,
}
use unify_prototype.Concurrency.SerialTaskQueue.Defs.{ConcurrentQueue, ulong_mod}
use unify_prototype.Concurrency.LimitedTaskQueue.Pausing.{pause_of_lem, resume_of_lem}
use unify_prototype.Concurrency.QueueChain.Defs.{
  action_to_run, pass_down_chain, Pc, queued, pausing, pushing, acting, resuming, Shared, advance,
}

-- The weight of the action that is yet to run.
abbrev pub carries : (ℕ → ℕ) → Pc → ℕ
carries w (queued (action_to_run a)) = w a
carries w (queued (pass_down_chain i a)) = w a
carries w (pausing i a) = w a
carries w (pushing i a) = w a
carries w (acting a) = w a
carries w (resuming k) = 0

module _ (size : ℕ) where
  -- The action has paused the queue and not resumed it.
  abbrev pub keeps : ℕ → Pc → ℕ
  keeps q (queued (action_to_run a)) = to_ℕ (ltb (q + 1) size)
  keeps q (queued (pass_down_chain i a)) = to_ℕ (ltb (q + 1) i)
  keeps q (pausing i a) = to_ℕ (ltb (q + 1) i)
  keeps q (pushing i a) = to_ℕ (ltb q i)
  keeps q (acting a) = to_ℕ (ltb (q + 1) size)
  keeps q (resuming k) = to_ℕ (ltb q k)

  -- The index is one of a queue that follows another.
  abbrev pub InChain : Pc → Type 0
  InChain (queued (action_to_run a)) = Unit
  InChain (queued (pass_down_chain i a)) = (0 < i) × (i < size)
  InChain (pausing i a) = (0 < i) × (i < size)
  InChain (pushing i a) = (0 < i) × (i < size)
  InChain (acting a) = Unit
  InChain (resuming k) = Unit

  pub keeps-le : (q : ℕ) (p : Pc) → keeps q p ≤ 1
  keeps-le q (queued (action_to_run a)) = ground arith
  keeps-le q (queued (pass_down_chain i a)) = ground arith
  keeps-le q (pausing i a) = ground arith
  keeps-le q (pushing i a) = ground arith
  keeps-le q (acting a) = ground arith
  keeps-le q (resuming k) = ground arith

  pub total-keeps : (q : ℕ) (cs : List Pc) → total (keeps q) cs ≤ length cs
  total-keeps q cs = omega (arith, length-total cs, total-le (keeps q) (λ p. 1) cs (keeps-le q))

  module _ (fifo : ConcurrentQueue) where
    pub advance-keeps :
        (s : Shared fifo) (p : Pc) (q k : ℕ)
        → InChain p
        → (s.queues q).pause_count ≡ k + keeps q p
        → k + 2 < ulong_mod
        → ((advance fifo size s p).0.queues q).pause_count
          ≡ k + total (keeps q) (advance fifo size s p).1
    unfolding advance
    advance-keeps s (queued (action_to_run a)) q k i h b = omega (arith, h)
    advance-keeps s (queued (pass_down_chain j a)) q k i h b = omega (arith, h)
    advance-keeps s (pausing j a) q k i h b =
        let one = keeps-le q (pausing j a) in
        let more = pause_of_lem fifo (some (j - 1)) s.queues q (omega arith) in ground arith
    advance-keeps s (pushing j a) q k i h b = ground arith
    advance-keeps s (acting a) q k i h b = ground arith
    advance-keeps s (resuming (suc n)) q k i h b =
        let one = keeps-le q (resuming (suc n)) in
        let less = resume_of_lem fifo (some n) s.queues q (ground arith) (omega arith) in
        ground arith
    advance-keeps s (resuming zero) q k i h b = ground arith

    pub advance-carries :
        (s : Shared fifo) (p : Pc) (w : ℕ → ℕ)
        → total w (advance fifo size s p).0.acted + total (carries w) (advance fifo size s p).1
          ≡ total w s.acted + carries w p
    unfolding advance
    advance-carries s (queued (action_to_run a)) w = omega arith
    advance-carries s (queued (pass_down_chain j a)) w = omega arith
    advance-carries s (pausing j a) w = omega arith
    advance-carries s (pushing j a) w = ground arith
    advance-carries s (acting a) w = omega (arith, total-append w s.acted (a ∷ []))
    advance-carries s (resuming (suc n)) w = omega arith
    advance-carries s (resuming zero) w = omega arith

    pub advance-outstanding :
        (s : Shared fifo) (p : Pc) (k : ℕ)
        → s.outstanding_tasks ≡ k + 1
        → k + 2 < ulong_mod
        → (advance fifo size s p).0.outstanding_tasks ≡ k + length (advance fifo size s p).1
    unfolding advance
    advance-outstanding s (queued (action_to_run a)) k h b = omega arith
    advance-outstanding s (queued (pass_down_chain j a)) k h b = omega arith
    advance-outstanding s (pausing j a) k h b = omega arith
    advance-outstanding s (pushing j a) k h b = omega arith
    advance-outstanding s (acting a) k h b = omega arith
    advance-outstanding s (resuming (suc n)) k h b = omega arith
    advance-outstanding s (resuming zero) k h b = omega arith

    pub advance-InChain :
        (s : Shared fifo) (p : Pc) → InChain p → All InChain (advance fifo size s p).1
    unfolding advance
    advance-InChain s (queued (action_to_run a)) i = (tt, tt)
    advance-InChain s (queued (pass_down_chain j a)) i = (i, tt)
    advance-InChain s (pausing j a) i = (i, tt)
    advance-InChain s (pushing j a) i = elim (Bool-cases (j + 1 == size)) [
      | inl q ↦ rw q (tt, tt)
      | inr q ↦ rw q ((ground arith, ground arith), tt)
    ]
    advance-InChain s (acting a) i = (tt, tt)
    advance-InChain s (resuming (suc n)) i = (tt, tt)
    advance-InChain s (resuming zero) i = tt

    pub advance-pushed : (s : Shared fifo) (p : Pc) → (advance fifo size s p).0.pushed ≡ s.pushed
    unfolding advance
    advance-pushed s (queued (action_to_run a)) = refl
    advance-pushed s (queued (pass_down_chain j a)) = refl
    advance-pushed s (pausing j a) = refl
    advance-pushed s (pushing j a) = refl
    advance-pushed s (acting a) = refl
    advance-pushed s (resuming (suc n)) = refl
    advance-pushed s (resuming zero) = refl
