-- ===== src/Concurrency/QueueChain/Counting.antt =====
-- What a chain does to its queues is undone again, and each action runs once.
use unify_prototype.Common.{
  ℕ, zero, suc, ◌+◌, ◌≤◌, ◌<◌, ◌≡◌, refl, ap, length-append, ◌==◌, Bool-cases, inl, inr, List, [],
  ◌∷◌, ◌++◌, arith, length, total, total-append, total-around, total-split, All, All-append,
  All-split,
}
use unify_prototype.Concurrency.SerialTaskQueue.Defs.{ConcurrentQueue, ulong_mod}
use unify_prototype.Concurrency.QueueChain.Defs.{
  action_to_run, pass_down_chain, Pc, queued, pausing, pushing, acting, resuming, Shared, push,
  advance, System, Step, call, turn, Reach, at_start, later,
}
use unify_prototype.Concurrency.QueueChain.Moves.{
  carries, keeps, InChain, total-keeps, advance-keeps, advance-carries, advance-outstanding,
  advance-InChain, advance-pushed,
}

module _ (fifo : ConcurrentQueue) (size : ℕ) (some_queue : 0 < size) where
  pub record Inv (s : System fifo size) : Type 0 where
    pub kept : (q : ℕ) → (s.shared.queues q).pause_count ≡ total (keeps size q) s.calls
    pub carried :
        (w : ℕ → ℕ) → total w s.shared.pushed ≡ total w s.shared.acted + total (carries w) s.calls
    pub counted : s.shared.outstanding_tasks ≡ length s.calls
    pub in_chain : All (InChain size) s.calls
    room : length s.calls + 1 < ulong_mod

  length-advance : (s : Shared fifo) (p : Pc) → length (advance fifo size s p).1 ≤ 1
  unfolding advance
  length-advance s (queued (action_to_run a)) = omega arith
  length-advance s (queued (pass_down_chain j a)) = omega arith
  length-advance s (pausing j a) = omega arith
  length-advance s (pushing j a) = omega arith
  length-advance s (acting a) = omega arith
  length-advance s (resuming (suc n)) = omega arith
  length-advance s (resuming zero) = omega arith

  lengths :
      (s : Shared fifo) (xs : List Pc) (p : Pc) (ys : List Pc)
      → (length (xs ++ p ∷ ys) ≡ length xs + length ys + 1)
        × (length (xs ++ (advance fifo size s p).1 ++ ys)
            ≡ length xs + length ys + length (advance fifo size s p).1)
  lengths s xs p ys = (
    omega (arith, length-append xs (p ∷ ys)),
    omega (
      arith,
      length-append (xs ++ (advance fifo size s p).1) ys,
      length-append xs (advance fifo size s p).1,
    ),
  )

  turn-Inv :
      (s : Shared fifo) (xs : List Pc) (p : Pc) (ys : List Pc)
      → Inv (record { shared = s; calls = xs ++ p ∷ ys })
      → Inv (record {
        shared = (advance fifo size s p).0;
        calls = xs ++ (advance fifo size s p).1 ++ ys;
      })
  turn-Inv s xs p ys v =
      let (before, after) = lengths s xs p ys in
      let one = length-advance s p in
      let (inx, iny) = All-split (InChain size) xs (p ∷ ys) v.in_chain in
      record {
        kept = λ q. omega (
          arith,
          advance-keeps size fifo s p q (total (keeps size q) xs + total (keeps size q) ys) iny.0
              (omega (arith, v.kept q, total-append (keeps size q) xs (p ∷ ys)))
              (omega (arith, v.room, before, total-keeps size q xs, total-keeps size q ys)),
          total-around (keeps size q) xs (advance fifo size s p).1 ys,
        );
        carried = λ w. omega (
          arith,
          v.carried w,
          advance-carries size fifo s p w,
          ap (total w) (advance-pushed size fifo s p),
          total-append (carries w) xs (p ∷ ys),
          total-around (carries w) xs (advance fifo size s p).1 ys,
        );
        counted = omega (
          arith,
          after,
          advance-outstanding size fifo s p (length xs + length ys)
              (omega (arith, v.counted, before)) (omega (arith, v.room, before)),
        );
        in_chain =
            All-append (InChain size) (xs ++ (advance fifo size s p).1) ys
              (All-append (InChain size) xs (advance fifo size s p).1 inx
                (advance-InChain size fifo s p iny.0))
              iny.1;
        room = omega (arith, v.room);
      }

  call-Inv :
      (s : System fifo size) (a : ℕ)
      → length s.calls + 2 < ulong_mod
      → Inv s
      → Inv (record {
        shared = (push fifo size s.shared a).0;
        calls = (push fifo size s.shared a).1 ++ s.calls;
      })
  unfolding push
  call-Inv s a b v = record {
    kept = λ q. elim (Bool-cases (size == 1)) [
      | inl e ↦ rw e (ground (arith, v.kept q))
      | inr e ↦ rw e (ground (arith, v.kept q))
    ];
    carried = λ w. elim (Bool-cases (size == 1)) [
      | inl e ↦ rw e (omega (arith, v.carried w, total-append w s.shared.pushed (a ∷ [])))
      | inr e ↦ rw e (omega (arith, v.carried w, total-append w s.shared.pushed (a ∷ [])))
    ];
    counted = omega (arith, v.counted);
    in_chain = elim (Bool-cases (size == 1)) [
      | inl e ↦ rw e (tt, v.in_chain)
      | inr e ↦ rw e ((omega arith, ground arith), v.in_chain)
    ];
    room = omega arith;
  }

  Step-Inv : {s t : System fifo size} → Step fifo size s t → Inv s → Inv t
  Step-Inv {s} (call a b) v = call-Inv s a b v
  Step-Inv {s} (turn xs p ys e) v = turn-Inv s.shared xs p ys (rw e at v)

  pub Reach-Inv : {s : System fifo size} → Reach fifo size s → Inv s
  Reach-Inv at_start = record {
    kept = λ q. refl;
    carried = λ w. refl;
    counted = refl;
    in_chain = tt;
    room = omega arith;
  }
  Reach-Inv (later r st) = Step-Inv st (Reach-Inv r)

  -- However the queues start what was pushed to them, the pause count of each queue is the number of
  -- actions that have paused it and not resumed it, `outstandingTasks` is the number of actions on
  -- their way, and no action is lost or doubled: by any weight, those pushed are those that have run
  -- and those that are yet to run. The chain has a queue, and fewer than
  -- 2^64 - 1 actions are on their way at a time.
  pub chain_counts :
      {s : System fifo size}
      → Reach fifo size s
      → ((q : ℕ) → (s.shared.queues q).pause_count ≡ total (keeps size q) s.calls)
        × (s.shared.outstanding_tasks ≡ length s.calls)
        × ((w : ℕ → ℕ)
            → total w s.shared.pushed ≡ total w s.shared.acted + total (carries w) s.calls)
  chain_counts r = let v = Reach-Inv r in (v.kept, v.counted, v.carried)

  -- While an action of the chain runs, every queue of the chain but the last, whose task the action
  -- is, is paused.
  acting-paused :
      {s : System fifo size} (xs ys : List Pc) (a q : ℕ)
      → Reach fifo size s
      → s.calls ≡ xs ++ acting a ∷ ys
      → q + 1 < size
      → 0 < (s.shared.queues q).pause_count
  acting-paused {s} xs ys a q r e lt =
      let k = (Reach-Inv r).kept q in
      let split = total-split (keeps size q) s.calls xs (acting a) ys e in ground arith
