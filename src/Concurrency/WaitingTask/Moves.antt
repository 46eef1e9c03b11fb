-- ===== src/Concurrency/WaitingTask/Moves.antt =====
-- What one operation of a holder does to the count and to the other holders.
use unify_prototype.Common.{
  ℕ, ◌+◌, ◌≤◌, ◌<◌, ◌≡◌, ap, ◌∙◌, ◌==◌, Bool, true, false, Bool-cases, inl, inr, List, [], ◌∷◌,
  ◌++◌, arith, length, to_ℕ, All,
}
use unify_prototype.Concurrency.WaitingTask.Defs.{unset, is_unset, uint_mod, decrement_ref_count}
use unify_prototype.Concurrency.WaitingTask.Interleaving.{
  Pc, holding, comparing, writing, publishing, counting_down, Shared, after_report, advance,
}
use unify_prototype.Concurrency.WaitingTask.Reporting.{
  first_of, sets, wrote, Writes, first_of-append, is_unset-≡,
}

Writes-append :
    (es : List ℕ) (e : ℕ) (ps : List Pc) → All (Writes es) ps → All (Writes (es ++ e ∷ [])) ps
Writes-append es e [] h = tt
Writes-append es e (holding ∷ ps) h = (tt, Writes-append es e ps h.1)
Writes-append es e (comparing f done ∷ ps) h = (tt, Writes-append es e ps h.1)
Writes-append es e (publishing done ∷ ps) h = (tt, Writes-append es e ps h.1)
Writes-append es e (counting_down ∷ ps) h = (tt, Writes-append es e ps h.1)
Writes-append es e (writing f done ∷ ps) (w, h) = (
  first_of-append es (e ∷ []) (λ nil. let no_report = rw nil at w in cc) ∙ w,
  Writes-append es e ps h,
)

pub advance-others :
    (s : Shared) (p : Pc) (ps : List Pc)
    → All (Writes s.reported) ps
    → All (Writes (advance s p).0.reported) ps
unfolding advance
advance-others s holding ps h = h
advance-others s (comparing e done) ps h = elim (Bool-cases (is_unset s.task.ptr_set)) [
  | inl q ↦ rw q (Writes-append s.reported e ps h)
  | inr q ↦ rw q (Writes-append s.reported e ps h)
]
advance-others s (writing e done) ps h = h
advance-others s (publishing done) ps h = h
advance-others s counting_down ps h = h

Writes-after_report : (es : List ℕ) (done : Bool) → All (Writes es) (after_report done ∷ [])
Writes-after_report es true = (tt, tt)
Writes-after_report es false = (tt, tt)

pub advance-own :
    (s : Shared) (p : Pc)
    → (s.task.ptr_set ≡ unset → s.reported ≡ [])
    → All (Writes (advance s p).0.reported) (advance s p).1
unfolding advance
advance-own s holding u = (tt, tt)
advance-own s (comparing e done) u = elim (Bool-cases (is_unset s.task.ptr_set)) [
  | inl q ↦ rw q (ap (λ es. first_of (es ++ e ∷ [])) (u (is_unset-≡ s.task.ptr_set q)), tt)
  | inr q ↦ rw q (Writes-after_report (s.reported ++ e ∷ []) done)
]
advance-own s (writing e done) u = (tt, tt)
advance-own s (publishing done) u = Writes-after_report s.reported done
advance-own s counting_down u = tt

pub advance-count :
    (s : Shared) (p : Pc) (k : ℕ)
    → s.task.ref_count ≡ k + 1
    → k + 2 < uint_mod
    → s.spawned ≡ 0
    → ((advance s p).0.task.ref_count ≡ k + length (advance s p).1)
      × ((advance s p).0.spawned ≡ to_ℕ ((k + length (advance s p).1) == 0))
unfolding advance decrement_ref_count
advance-count s holding k c b z = (omega arith, ground arith)
advance-count s (comparing e done) k c b z = (ground arith, ground arith)
advance-count s (writing e done) k c b z = (omega arith, ground arith)
advance-count s (publishing done) k c b z = (omega arith, ground arith)
advance-count s counting_down k c b z = (omega arith, ground arith)

pub wrote-le : (p : Pc) → wrote p ≤ sets p
wrote-le holding = omega arith
wrote-le (comparing e done) = omega arith
wrote-le (writing e done) = omega arith
wrote-le (publishing done) = omega arith
wrote-le counting_down = omega arith

pub length-own : (s : Shared) (p : Pc) → length (advance s p).1 ≤ 1
unfolding advance
length-own s holding = omega arith
length-own s (comparing e done) = ground arith
length-own s (writing e done) = omega arith
length-own s (publishing done) = omega arith
length-own s counting_down = omega arith
