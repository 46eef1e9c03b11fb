-- ===== src/Concurrency/LimitedTaskQueue/Limits.antt =====
-- Each action runs once.
use unify_prototype.Common.{
  ◌⊎◌, ℕ, ◌+◌, ◌≤◌, ◌<◌, ◌≡◌, refl, ◌==◌, Bool, false, Bool-cases, inl, inr, List, ◌∷◌, ◌++◌, arith,
  total, total-around, total-split, total-le, to_ℕ, is, All, All-append, All-split,
}
use unify_prototype.Concurrency.SerialTaskQueue.Defs.{ConcurrentQueue}
use unify_prototype.Concurrency.LimitedTaskQueue.Actions.{
  Pc, offering, queued, testing, pausing, acting, busy, push, advance, System, Permitted, Step,
  call, turn, resumer, Reach, at_start, later,
}
use unify_prototype.Concurrency.LimitedTaskQueue.Once.{
  action_of, won, Free, tries, InLimit, advance-fresh, advance-made, advance-won, advance-tries,
  advance-busy, advance-InLimit,
}

won-le : (a : ℕ) (p : Pc) → won a p ≤ is a (action_of p)
won-le a (offering b i) = omega arith
won-le a (queued b i) = omega arith
won-le a (testing b i) = omega arith
won-le a (pausing b i) = omega arith
won-le a (acting b i) = omega arith

module _ (fifo : ConcurrentQueue) (limit : ℕ) (some_queue : 0 < limit) where
  record Inv (s : System fifo limit) : Type 0 where
    fresh :
        (a : ℕ)
        → s.shared.made ≤ a
        → total (is a) s.shared.acted + total (λ p. is a (action_of p)) s.calls ≡ 0
    marked : (a : ℕ) → total (is a) s.shared.acted + total (won a) s.calls ≡ to_ℕ (s.shared.flags a)
    tried :
        (a : ℕ) → a < s.shared.made → s.shared.flags a ≡ false → 0 < total (tries limit a) s.calls
    one : (q : ℕ) → total (busy q) s.calls ≤ 1
    in_limit : All (InLimit limit) s.calls

  permitted-Free :
      (s : System fifo limit) (xs : List Pc) (p : Pc) (ys : List Pc) (q : ℕ)
      → s.calls ≡ xs ++ p ∷ ys
      → Permitted fifo limit s p
      → Free (total (busy q) xs + total (busy q) ys) q p
  permitted-Free s xs (queued a i) ys q e ok = λ same.
      let k = total-split (busy q) s.calls xs (queued a i) ys e in omega (arith, rw same at ok)
  permitted-Free s xs (offering a i) ys q e ok = tt
  permitted-Free s xs (testing a i) ys q e ok = tt
  permitted-Free s xs (pausing a i) ys q e ok = tt
  permitted-Free s xs (acting a i) ys q e ok = tt

  turn-Inv :
      (s : System fifo limit) (xs : List Pc) (p : Pc) (ys : List Pc)
      → s.calls ≡ xs ++ p ∷ ys
      → Permitted fifo limit s p
      → Inv s
      → Inv (record {
        shared = (advance fifo limit s.shared p).0;
        calls = xs ++ (advance fifo limit s.shared p).1 ++ ys;
      })
  turn-Inv s xs p ys e ok v =
      let ms = (advance fifo limit s.shared p).1 in
      let same = advance-made limit fifo s.shared p in
      let (inx, iny) = All-split (InLimit limit) xs (p ∷ ys) (rw e at v.in_limit) in
      let sums : (f : Pc → ℕ) → total f s.calls ≡ total f xs + total f ys + f p =
        λ f. total-split f s.calls xs p ys e in
      record {
        fresh = λ a le.
            let w : Pc → ℕ = λ c. is a (action_of c) in
            omega (
              arith,
              advance-fresh limit fifo s.shared p a (total w xs + total w ys)
                  (omega (arith, v.fresh a (omega arith), sums w)),
              total-around w xs ms ys,
            );
        marked = λ a. omega (
          arith,
          advance-won limit fifo s.shared p a (total (won a) xs + total (won a) ys)
              (omega (arith, v.marked a, sums (won a))),
          total-around (won a) xs ms ys,
        );
        tried = λ a lt off. omega (
          arith,
          advance-tries limit fifo s.shared p a
              (total (tries limit a) xs + total (tries limit a) ys)
              (λ u. omega (arith, v.tried a (omega arith) u, sums (tries limit a))) off,
          total-around (tries limit a) xs ms ys,
        );
        one = λ q. omega (
          arith,
          advance-busy limit fifo s.shared p q (total (busy q) xs + total (busy q) ys)
              (permitted-Free s xs p ys q e ok) (omega (arith, v.one q, sums (busy q))),
          total-around (busy q) xs ms ys,
        );
        in_limit =
            All-append (InLimit limit) (xs ++ ms) ys
              (All-append (InLimit limit) xs ms inx (advance-InLimit limit fifo s.shared p iny.0))
              iny.1;
      }

  call-Inv :
      (s : System fifo limit) (pauses : Bool)
      → Inv s
      → Inv (record {
        shared = (push fifo s.shared pauses).0;
        calls = (push fifo s.shared pauses).1 ++ s.calls;
      })
  unfolding push
  call-Inv s pauses v = record {
    fresh = λ a le. ground (arith, v.fresh a (omega arith));
    marked = λ a. elim (Bool-cases (a == s.shared.made)) [
      | inl q ↦ rw q (
          let none = v.fresh a (ground arith) in
          omega (arith, total-le (won a) (λ p. is a (action_of p)) s.calls (won-le a)))
      | inr q ↦ rw q (omega (arith, v.marked a))
    ];
    tried = λ a lt off. elim (Bool-cases (a == s.shared.made)) [
      | inl q ↦ ground arith
      | inr q ↦ ground (arith, v.tried a)
    ];
    one = λ q. omega (arith, v.one q);
    in_limit = (tt, v.in_limit);
  }

  Step-Inv : {s t : System fifo limit} → Step fifo limit s t → Inv s → Inv t
  Step-Inv {s} (call pauses) v = call-Inv s pauses v
  Step-Inv {s} (turn xs p ys e ok) v = turn-Inv s xs p ys e ok v
  Step-Inv {s} (resumer r st b) v = record {
    fresh = v.fresh;
    marked = v.marked;
    tried = v.tried;
    one = v.one;
    in_limit = v.in_limit;
  }

  Reach-Inv : {s : System fifo limit} → Reach fifo limit s → Inv s
  Reach-Inv at_start = record {
    fresh = λ a le. refl;
    marked = λ a. refl;
    tried = λ a lt. absurd (omega arith);
    one = λ q. omega arith;
    in_limit = tt;
  }
  Reach-Inv (later r st) = Step-Inv st (Reach-Inv r)

  -- Of the closures of an action, one for each queue, only one runs it, however the queues start
  -- them: each action that was pushed has either run or is about to, once in all, or it has not and
  -- no call is about to run it, and then some closure is yet to try. So when every call has come to its
  -- end, it has run once. There is at least one queue.
  pub action_runs_once :
      {s : System fifo limit} (a : ℕ)
      → Reach fifo limit s
      → a < s.shared.made
      → (total (is a) s.shared.acted + total (won a) s.calls ≡ 1)
        ⊎ ((total (is a) s.shared.acted + total (won a) s.calls ≡ 0)
            × (0 < total (tries limit a) s.calls))
  action_runs_once {s} a r lt =
      let v = Reach-Inv r in
      let h = v.marked a in
      elim (Bool-cases (s.shared.flags a)) [
        | inl q ↦ inl (ground arith)
        | inr q ↦ inr (ground arith, v.tried a lt q)
      ]
