-- ===== src/Concurrency/WaitingTask/Reporting.antt =====
-- What one operation of a holder does to the exception of the task.
use unify_prototype.Common.{
  ℕ, ◌+◌, ◌≤◌, ◌<◌, ◌≡◌, ◌≢◌, refl, sym, ◌∙◌, Bool, true, false, Bool-cases, inl, inr, List, [],
  ◌∷◌, ◌++◌, Option, none, some, arith, total,
}
use unify_prototype.Concurrency.WaitingTask.Defs.{
  State, unset, setting, set, is_unset, decrement_ref_count,
}
use unify_prototype.Concurrency.WaitingTask.Interleaving.{
  Pc, holding, comparing, writing, publishing, counting_down, Shared, after_report, advance,
}

abbrev pub first_of : List ℕ → Option ℕ
first_of [] = none
first_of (e ∷ es) = some e

-- The holder has set `kSetting` and not yet `kSet`; and it has written the exception.
abbrev pub sets : Pc → ℕ
sets (writing e done) = 1
sets (publishing done) = 1
sets _ = 0

abbrev pub wrote : Pc → ℕ
wrote (publishing done) = 1
wrote _ = 0

-- Between two reports.
abbrev pub Writes : List ℕ → Pc → Type 0
Writes es (writing e done) = first_of es ≡ some e
Writes es _ = Unit

abbrev pub is_setting : State → ℕ
is_setting setting = 1
is_setting _ = 0

-- What the members of the task say of the reports, with the holders that set and that have written.
pub record Told (s : Shared) (setters writers : ℕ) : Type 0 where
  pub busy : setters ≡ is_setting s.task.ptr_set
  pub untold : s.task.ptr_set ≡ unset → (s.reported ≡ []) × (s.task.ptr ≡ none)
  pub begun : s.task.ptr_set ≢ unset → s.reported ≢ []
  pub written : (0 < writers) → s.task.ptr ≡ first_of s.reported
  pub told : s.task.ptr_set ≡ set → s.task.ptr ≡ first_of s.reported

after_report-sets : (done : Bool) → (sets (after_report done) ≡ 0) × (wrote (after_report done) ≡ 0)
after_report-sets true = (refl, refl)
after_report-sets false = (refl, refl)

pub first_of-append : (es fs : List ℕ) → es ≢ [] → first_of (es ++ fs) ≡ first_of es
first_of-append [] fs ne = absurd (ne refl)
first_of-append (e ∷ es) fs ne = refl

append-≢ : (es : List ℕ) (e : ℕ) → es ++ e ∷ [] ≢ []
append-≢ [] e h = cc
append-≢ (x ∷ es) e h = cc

pub is_unset-≡ : (t : State) → is_unset t ≡ true → t ≡ unset
is_unset-≡ unset q = refl
is_unset-≡ setting q = cc
is_unset-≡ set q = cc

pub is_setting-unset : (t : State) → 0 < is_setting t → t ≢ unset
is_setting-unset unset lt q = omega arith
is_setting-unset setting lt q = cc
is_setting-unset set lt q = cc

pub is_setting-le : (t : State) → is_setting t ≤ 1
is_setting-le unset = omega arith
is_setting-le setting = omega arith
is_setting-le set = omega arith

pub Told-same : (s : Shared) (k k' l l' : ℕ) → k ≡ k' → l ≡ l' → Told s k l → Told s k' l'
Told-same s k k' l l' p q v = record {
  busy = sym p ∙ v.busy;
  untold = v.untold;
  begun = v.begun;
  written = λ lt. v.written (omega arith);
  told = v.told;
}

-- A report to a task that has one.
reported_later :
    (s : Shared) (e k l : ℕ)
    → s.task.ptr_set ≢ unset
    → Told s k l
    → Told (record s { reported = s.reported ++ e ∷ [] }) k l
reported_later s e k l ne v =
    let same = first_of-append s.reported (e ∷ []) (v.begun ne) in
    record {
      busy = v.busy;
      untold = λ q. absurd (ne q);
      begun = λ q. append-≢ s.reported e;
      written = λ lt. v.written lt ∙ sym same;
      told = λ q. v.told q ∙ sym same;
    }

compared :
    (s : Shared) (e : ℕ) (done : Bool) (k l : ℕ)
    → l ≤ k
    → Told s k l
    → Told
        (advance s (comparing e done)).0
        (k + total sets (advance s (comparing e done)).1)
        (l + total wrote (advance s (comparing e done)).1)
unfolding advance
compared s e done k l le v = elim (Bool-cases (is_unset s.task.ptr_set)) [
  | inl q ↦ rw q (
      let (nil, null) = v.untold (is_unset-≡ s.task.ptr_set q) in
      let none_sets = rw (is_unset-≡ s.task.ptr_set q) at v.busy in
      record {
        busy = omega arith;
        untold = λ r. cc;
        begun = λ r. append-≢ s.reported e;
        written = λ lt. absurd (omega arith);
        told = λ r. cc;
      })
  | inr q ↦ rw q (
      let (no_set, no_write) = after_report-sets done in
      Told-same _ k _ l _ (omega arith) (omega arith)
        (reported_later s e k l (λ u. let r = rw u at q in cc) v))
]

pub advance-Told :
    (s : Shared) (p : Pc) (k l : ℕ)
    → l ≤ k
    → Writes s.reported p
    → Told s (k + sets p) (l + wrote p)
    → Told (advance s p).0 (k + total sets (advance s p).1) (l + total wrote (advance s p).1)
unfolding advance decrement_ref_count
advance-Told s holding k l le w v = Told-same s _ _ _ _ (omega arith) (omega arith) v
advance-Told s (comparing e done) k l le w v =
    compared s e done k l le (Told-same s _ _ _ _ (omega arith) (omega arith) v)
advance-Told s (writing e done) k l le w v =
    let begun = is_setting-unset s.task.ptr_set (omega (arith, v.busy)) in
    record {
      busy = omega (arith, v.busy);
      untold = λ q. absurd (begun q);
      begun = v.begun;
      written = λ lt. sym w;
      told = λ q. sym w;
    }
advance-Told s (publishing done) k l le w v =
    let (no_set, no_write) = after_report-sets done in
    record {
      busy = omega (arith, v.busy, is_setting-le s.task.ptr_set);
      untold = λ q. cc;
      begun = λ q. v.begun (is_setting-unset s.task.ptr_set (omega (arith, v.busy)));
      written = λ lt. v.written (omega arith);
      told = λ q. v.written (omega arith);
    }
advance-Told s counting_down k l le w v = record {
  busy = omega (arith, v.busy);
  untold = v.untold;
  begun = v.begun;
  written = λ lt. v.written (omega arith);
  told = v.told;
}
