-- ===== src/Concurrency/WaitingTaskList/Handing.antt =====
-- Every added task is handed over, once, and not before the list is told to.
use unify_prototype.Common.{
  ℕ, ◌+◌, ◌≡◌, refl, true, List, [], ◌∷◌, ◌++◌, none, some, arith, total, total-append,
  total-around, total-split,
}
use unify_prototype.Concurrency.WaitingTaskList.Defs.{WaitNode, Pc, reset, advance}
use unify_prototype.Concurrency.WaitingTaskList.System.{
  Call, add_task, tell_done_waiting, tell_preset_as_failed, start, adds, System, Step, call, turn,
  renew, Reach, at_start, later,
}
use unify_prototype.Concurrency.WaitingTaskList.Moves.{
  carries, opens, watches, Kept, Closed, Watched, advance-Kept, advance-Closed, advance-Watched,
  advance-handed,
}

-- The three, of a whole system.
record Inv (s : System) : Type 0 where
  kept : (w : WaitNode → ℕ) → Kept s.shared (total (carries w) s.calls) w
  closed : Closed s.shared (total opens s.calls)
  watched : Watched s.shared (total watches s.calls)

start-carries : (c : Call) (w : WaitNode → ℕ) → total (carries w) (start c) ≡ total w (adds c)
start-carries (add_task n) w = refl
start-carries (tell_done_waiting e) w = refl
start-carries (tell_preset_as_failed none) w = refl
start-carries (tell_preset_as_failed (some e)) w = refl

start-opens : (c : Call) → total opens (start c) ≡ 0
start-opens (add_task n) = refl
start-opens (tell_done_waiting e) = refl
start-opens (tell_preset_as_failed none) = refl
start-opens (tell_preset_as_failed (some e)) = refl

turn-Inv :
    (s : System) (xs : List Pc) (p : Pc) (ys : List Pc)
    → s.calls ≡ xs ++ p ∷ ys
    → Inv s
    → Inv (record { shared = (advance s.shared p).0; calls = xs ++ (advance s.shared p).1 ++ ys })
turn-Inv s xs p ys e v = record {
  kept = λ w. omega (
    arith,
    advance-Kept s.shared p w (total (carries w) xs + total (carries w) ys)
        (omega (arith, v.kept w, total-split (carries w) s.calls xs p ys e)),
    total-around (carries w) xs (advance s.shared p).1 ys,
  );
  closed = λ q. omega (
    arith,
    advance-Closed s.shared p (total opens xs + total opens ys)
        (λ h. omega (arith, v.closed h, total-split opens s.calls xs p ys e)) q,
    total-around opens xs (advance s.shared p).1 ys,
  );
  watched = λ q ne. omega (
    arith,
    advance-Watched s.shared p (total watches xs + total watches ys)
        (λ h k. omega (arith, v.watched h k, total-split watches s.calls xs p ys e)) q ne,
    total-around watches xs (advance s.shared p).1 ys,
  );
}

call-Inv :
    (s : System) (c : Call)
    → Inv s
    → Inv (record {
      shared = record (s.shared) { added = s.shared.added ++ adds c };
      calls = start c ++ s.calls;
    })
call-Inv s c v = record {
  kept = λ w. omega (
    arith,
    v.kept w,
    start-carries c w,
    total-append w s.shared.added (adds c),
    total-append (carries w) (start c) s.calls,
  );
  closed = λ q. omega (arith, v.closed q, start-opens c, total-append opens (start c) s.calls);
  watched = λ q ne. omega (arith, v.watched q ne, total-append watches (start c) s.calls);
}

renew-Inv :
    (s : System)
    → s.calls ≡ []
    → s.shared.chain ≡ []
    → Inv s
    → Inv (record s { shared = reset s.shared })
unfolding reset
renew-Inv s e q v = record {
  kept = v.kept;
  closed = λ _. rw e refl;
  watched = λ h ne. absurd (ne q);
}

Step-Inv : {s t : System} → Step s t → Inv s → Inv t
Step-Inv {s} (call c) v = call-Inv s c v
Step-Inv {s} (turn xs p ys e) v = turn-Inv s xs p ys e v
Step-Inv {s} (renew e q) v = renew-Inv s e q v

Reach-Inv : {s : System} → Reach s → Inv s
Reach-Inv at_start = record {
  kept = λ w. refl;
  closed = λ _. refl;
  watched = λ h ne. absurd (ne refl);
}
Reach-Inv (later r st) = Step-Inv st (Reach-Inv r)

-- Under the same conditions, no step hands a task over while the list waits: `reset` does not come
-- while a call still hands tasks over.
pub held_while_waiting :
    {s t : System}
    → Reach s
    → Step s t
    → s.shared.waiting ≡ true
    → t.shared.handed ≡ s.shared.handed
unfolding reset
held_while_waiting {s} r (call c) q = refl
held_while_waiting {s} r (turn xs p ys e) q =
    advance-handed s.shared p
      (omega (arith, (Reach-Inv r).closed q, total-split opens s.calls xs p ys e))
held_while_waiting {s} r (renew e k) q = refl
