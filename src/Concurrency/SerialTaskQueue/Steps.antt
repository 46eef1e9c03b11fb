-- ===== src/Concurrency/SerialTaskQueue/Steps.antt =====
-- Every step of the system keeps the invariant, so it holds in every state that is reached.
use mathlib.Core.Path.{subst}
use unify_prototype.Common.{
  ℕ, ◌+◌, ◌≤◌, ◌≡◌, refl, sym, ◌∙◌, Bool, List, [], ◌∷◌, ◌++◌, append_assoc, arith, to_ℕ, length,
  total, total-append, gather, gather-append,
}
use unify_prototype.Concurrency.SerialTaskQueue.Defs.{
  ConcurrentQueue, Pc, unlocking, Shared, advance,
}
use unify_prototype.Common.{none, some}
use unify_prototype.Concurrency.SerialTaskQueue.System.{
  Call, push, pause, resume, start, System, Step, call, turn, Permitted, Reach, at_start, later,
}
use unify_prototype.Concurrency.SerialTaskQueue.Invariant.{
  locks, owns, looks, carries, Watched, Inv, idle-Inv,
}
use unify_prototype.Concurrency.SerialTaskQueue.Moves.{
  advance-locked, advance-owned, advance-Watched, advance-history,
}

-- A weight of all calls, with the moving ones in the middle.
total-middle :
    (w : Pc → ℕ) (xs ps ys : List Pc)
    → total w (xs ++ ps ++ ys) ≡ total w xs + total w ys + total w ps
total-middle w xs ps ys = omega (arith, total-append w (xs ++ ps) ys, total-append w xs ps)

gather-middle :
    (xs ps ys : List Pc)
    → gather carries (xs ++ ps ++ ys) ≡ gather carries xs ++ gather carries ps ++ gather carries ys
gather-middle xs ps ys = gather-append carries (xs ++ ps) ys ∙ rw (gather-append carries xs ps)

owns-le : (ps : List Pc) → total owns ps ≤ total looks ps + total locks ps
owns-le [] = omega arith
owns-le (Pc.unlocking c none ∷ ps) = omega (arith, owns-le ps)
owns-le (Pc.unlocking c (some t) ∷ ps) = omega (arith, owns-le ps)
owns-le (p ∷ ps) = ground (arith, owns-le ps)

no_owner : (ps : List Pc) → total owns ps ≡ 0 → gather carries ps ≡ []
no_owner [] h = refl
no_owner (unlocking c none ∷ ps) h = no_owner ps (omega arith)
no_owner (unlocking c (some t) ∷ ps) h = absurd (omega arith)
no_owner (p ∷ ps) h = ground (arith, no_owner ps)

-- Only owners carry a task, and one each.
pub carries-le : (ps : List Pc) → length (gather carries ps) ≤ total owns ps
carries-le [] = omega arith
carries-le (unlocking c none ∷ ps) = omega (arith, carries-le ps)
carries-le (unlocking c (some t) ∷ ps) = omega (arith, carries-le ps)
carries-le (p ∷ ps) = ground (arith, carries-le ps)

pub to_ℕ-le : (b : Bool) → to_ℕ b ≤ 1
to_ℕ-le b = ground arith

module _ (fifo : ConcurrentQueue) where
  -- A call that begins holds nothing yet.
  start-Inv :
      (s : Shared fifo) (cs : List Pc) (c : Call) → Inv fifo s cs → Inv fifo s (start c ∷ cs)
  start-Inv s cs (push t) v = record {
    locked = omega (arith, v.locked);
    owned = omega (arith, v.owned);
    history = v.history;
    watched = λ z e. omega (arith, v.watched z e);
  }
  start-Inv s cs pause v = record {
    locked = omega (arith, v.locked);
    owned = omega (arith, v.owned);
    history = v.history;
    watched = λ z e. omega (arith, v.watched z e);
  }
  start-Inv s cs resume v = record {
    locked = omega (arith, v.locked);
    owned = omega (arith, v.owned);
    history = v.history;
    watched = λ z e. omega (arith, v.watched z e);
  }

  module _ (s : Shared fifo) (xs : List Pc) (p : Pc) (ys : List Pc) (v : Inv fifo s (xs ++ p ∷ ys))
      (ok : Permitted fifo s p) where
    abbrev ps : List Pc
    ps = (advance fifo s p).1

    split : (w : Pc → ℕ) → total w (xs ++ p ∷ ys) ≡ total w xs + total w ys + w p
    split w = omega (arith, total-append w xs (p ∷ ys))

    locked_rest : to_ℕ s.picking_next_task ≡ total locks xs + total locks ys + locks p
    locked_rest = v.locked ∙ split locks

    owned_rest : to_ℕ s.task_chosen ≡ total owns xs + total owns ys + owns p
    owned_rest = v.owned ∙ split owns

    rest_le :
        total owns xs + total owns ys
        ≤ total looks xs + total looks ys + (total locks xs + total locks ys)
    rest_le = omega (arith, owns-le xs, owns-le ys)

    -- Where this call owns the flag, no other call carries a task.
    alone : owns p ≡ 1 → (gather carries xs ≡ []) × (gather carries ys ≡ [])
    alone h = (no_owner xs (omega (arith, few)), no_owner ys (omega (arith, few)))
      where
        few : total owns xs + total owns ys + owns p ≤ 1
        few = subst (λ n. n ≤ 1) owned_rest (to_ℕ-le s.task_chosen)

    history_rest :
        s.entered
        ≡ s.executed
          ++ (gather carries xs ++ carries p ++ gather carries ys)
          ++ fifo.to_list s.tasks
    history_rest = v.history ∙ rw (gather-append carries xs (p ∷ ys)) (simp append_assoc)

    turn-Inv : Inv fifo (advance fifo s p).0 (xs ++ ps ++ ys)
    turn-Inv = record {
      locked = advance-locked fifo s p _ locked_rest ∙ sym (total-middle locks xs ps ys);
      owned = advance-owned fifo s p _ owned_rest ∙ sym (total-middle owns xs ps ys);
      history = rw (gather-middle xs ps ys) (advance-history fifo s p _ _ alone history_rest);
      watched = subst (Watched fifo (advance fifo s p).0) (sym (total-middle looks xs ps ys)) (
          advance-Watched fifo s p _ _ _ locked_rest owned_rest rest_le ok
            (subst (Watched fifo s) (split looks) v.watched));
    }

  Step-Inv :
      {s t : System fifo} → Step fifo s t → Inv fifo s.shared s.calls → Inv fifo t.shared t.calls
  Step-Inv {s} (call c) v = start-Inv s.shared s.calls c v
  Step-Inv {s} (turn before p after e ok) v =
      turn-Inv s.shared before p after (subst (Inv fifo s.shared) e v) ok

  pub Reach-Inv : {s : System fifo} → Reach fifo s → Inv fifo s.shared s.calls
  Reach-Inv at_start = idle-Inv fifo
  Reach-Inv (later r st) = Step-Inv st (Reach-Inv r)
