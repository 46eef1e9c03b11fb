-- ===== src/Concurrency/WaitingTask/Spawning.antt =====
-- However the holders' calls interleave, the task learns of the first exception before it is spawned.
use unify_prototype.Common.{
  ◌⊎◌, ℕ, ◌+◌, ◌<◌, ◌≡◌, refl, sym, ap, ◌∙◌, ◌==◌, Bool, true, false, inl, inr, List, [], ◌∷◌, ◌++◌,
  Option, none, some, arith, length, length-append, total, total-append, total-around, total-le,
  to_ℕ, All, All-append, All-split,
}
use unify_prototype.Concurrency.WaitingTask.Defs.{
  State, unset, setting, set, uint_mod, increment_ref_count, exception_ptr,
}
use unify_prototype.Concurrency.WaitingTask.Interleaving.{
  Pc, holding, Shared, advance, copy_holder, enter, System, Step, copied, called, turn, Reach,
  at_start, later,
}
use unify_prototype.Concurrency.WaitingTask.Reporting.{
  first_of, sets, wrote, Writes, Told, Told-same, advance-Told,
}
use unify_prototype.Concurrency.WaitingTask.Moves.{
  advance-others, advance-own, advance-count, wrote-le, length-own,
}

record Inv (s : System) : Type 0 where
  counted : s.shared.task.ref_count ≡ length s.holders
  room : length s.holders + 1 < uint_mod
  handed : s.shared.spawned ≡ to_ℕ (length s.holders == 0)
  agrees : Told s.shared (total sets s.holders) (total wrote s.holders)
  writes : All (Writes s.shared.reported) s.holders

State-cases : (t : State) → (t ≡ unset) ⊎ ((t ≡ setting) ⊎ (t ≡ set))
State-cases unset = inl refl
State-cases setting = inr (inl refl)
State-cases set = inr (inr refl)

length-nil {ℓ} : {A : Type ℓ} (xs : List A) → length xs ≡ 0 → xs ≡ []
length-nil [] h = refl
length-nil (x ∷ xs) h = absurd (omega arith)

turn-Inv :
    (s : Shared) (xs : List Pc) (p : Pc) (ys : List Pc)
    → Inv (record { shared = s; holders = xs ++ p ∷ ys })
    → Inv (record { shared = (advance s p).0; holders = xs ++ (advance s p).1 ++ ys })
turn-Inv s xs p ys v =
    let ms = (advance s p).1 in
    let before = length-append xs (p ∷ ys) in
    let after : length (xs ++ ms ++ ys) ≡ length xs + length ys + length ms =
      omega (arith, length-append (xs ++ ms) ys, length-append xs ms) in
    let (wx, wy) = All-split (Writes s.reported) xs (p ∷ ys) v.writes in
    let (c, h) =
      advance-count s p (length xs + length ys) (omega (arith, v.counted)) (omega (arith, v.room))
        (v.handed ∙ ground arith) in
    record {
      counted = c ∙ sym after;
      room = let one = length-own s p in omega (arith, v.room);
      handed = h ∙ ap (λ n. to_ℕ (n == 0)) (sym after);
      agrees =
          Told-same _ _ _ _ _ (sym (total-around sets xs ms ys)) (sym (total-around wrote xs ms ys))
            (advance-Told s p (total sets xs + total sets ys) (total wrote xs + total wrote ys)
              (omega (arith, total-le wrote sets xs wrote-le, total-le wrote sets ys wrote-le)) wy.0
              (Told-same _ _ _ _ _ (omega (arith, total-append sets xs (p ∷ ys)))
                (omega (arith, total-append wrote xs (p ∷ ys))) v.agrees));
      writes =
          All-append (Writes (advance s p).0.reported) (xs ++ ms) ys
            (All-append (Writes (advance s p).0.reported) xs ms (advance-others s p xs wx)
              (advance-own s p (λ u. (v.agrees.untold u).0)))
            (advance-others s p ys wy.1);
    }

enter-sets :
    (e : Option ℕ) (done : Bool) (es : List ℕ)
    → (sets (enter e done) ≡ 0) × (wrote (enter e done) ≡ 0) × Writes es (enter e done)
enter-sets none true es = (refl, refl, tt)
enter-sets none false es = (refl, refl, tt)
enter-sets (some e) done es = (refl, refl, tt)

called-Inv :
    (s : Shared) (xs ys : List Pc) (e : Option ℕ) (done : Bool)
    → Inv (record { shared = s; holders = xs ++ holding ∷ ys })
    → Inv (record { shared = s; holders = xs ++ (enter e done ∷ []) ++ ys })
called-Inv s xs ys e done v =
    let ms : List Pc = enter e done ∷ [] in
    let (no_set, no_write, writes) = enter-sets e done s.reported in
    let same : length (xs ++ holding ∷ ys) ≡ length (xs ++ ms ++ ys) =
      omega (
        arith,
        length-append (xs ++ ms) ys,
        length-append xs ms,
        length-append xs (holding ∷ ys),
      ) in
    let (wx, wy) = All-split (Writes s.reported) xs (holding ∷ ys) v.writes in
    record {
      counted = v.counted ∙ same;
      room = omega (arith, v.room);
      handed = v.handed ∙ ap (λ n. to_ℕ (n == 0)) same;
      agrees =
          Told-same _ _ _ _ _
            (omega (arith, total-around sets xs ms ys, total-append sets xs (holding ∷ ys)))
            (omega (arith, total-around wrote xs ms ys, total-append wrote xs (holding ∷ ys)))
            v.agrees;
      writes =
          All-append (Writes s.reported) (xs ++ ms) ys
            (All-append (Writes s.reported) xs ms wx (writes, tt)) wy.1;
    }

copied-Inv :
    (s : System)
    → length s.holders + 2 < uint_mod
    → 0 < length s.holders
    → Inv s
    → Inv (record { shared = copy_holder s.shared; holders = holding ∷ s.holders })
unfolding copy_holder increment_ref_count
copied-Inv s b some_holder v = record {
  counted = omega (arith, v.counted);
  room = omega arith;
  handed = let h = v.handed in ground arith;
  agrees = record {
    busy = omega (arith, v.agrees.busy);
    untold = v.agrees.untold;
    begun = v.agrees.begun;
    written = λ lt. v.agrees.written (omega arith);
    told = v.agrees.told;
  };
  writes = (tt, v.writes);
}

Step-Inv : {s t : System} → Step s t → Inv s → Inv t
Step-Inv {s} (copied xs ys e b) v =
    copied-Inv s b (let n = ap length e in omega (arith, length-append xs (holding ∷ ys))) v
Step-Inv {s} (called xs ys e done h) v = called-Inv s.shared xs ys e done (rw h at v)
Step-Inv {s} (turn xs p ys h) v = turn-Inv s.shared xs p ys (rw h at v)

Reach-Inv : {s : System} → Reach s → Inv s
unfolding increment_ref_count
Reach-Inv at_start = record {
  counted = refl;
  room = omega arith;
  handed = refl;
  agrees = record {
    busy = refl;
    untold = λ q. (refl, refl);
    begun = λ ne. absurd (ne refl);
    written = λ lt. absurd (omega arith);
    told = λ q. cc;
  };
  writes = (tt, tt);
}
Reach-Inv (later r st) = Step-Inv st (Reach-Inv r)

settled :
    (s : Shared)
    → Told s 0 0
    → (exception_ptr s.task ≡ first_of s.reported) × (s.task.ptr ≡ first_of s.reported)
unfolding exception_ptr
settled s v = elim (State-cases s.task.ptr_set) [
  | inl q ↦
      let (nil, null) = v.untold q in
      let none_yet = ap first_of (sym nil) in (rw q none_yet, null ∙ none_yet)
  | inr (inl q) ↦ let b = rw q at v.busy in absurd (omega arith)
  | inr (inr q) ↦ (rw q (v.told q), v.told q)
]

-- However the calls of the holders interleave: a task that was handed to `task_group::run` was so once
-- and has no holder left, and it has the exception that came first to the compare-exchange, or none
-- if there was none. The member that `FunctorWaitingTask::execute` reads without a test is then
-- what `exceptionPtr` returns. There are fewer than 2^32 - 1 holders at a time.
pub spawned_with_first_report :
    {s : System}
    → Reach s
    → 0 < s.shared.spawned
    → (s.shared.spawned ≡ 1)
      × (s.holders ≡ [])
      × (exception_ptr s.shared.task ≡ first_of s.shared.reported)
      × (s.shared.task.ptr ≡ first_of s.shared.reported)
spawned_with_first_report {s} r lt =
    let v = Reach-Inv r in
    let h = v.handed in
    let empty : length s.holders ≡ 0 = ground arith in
    let rest = length-nil s.holders empty in
    let (checked, unchecked) = settled s.shared (rw rest at v.agrees) in
    (ground arith, rest, checked, unchecked)
