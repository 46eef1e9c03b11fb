-- ===== src/Concurrency/WaitingTask/Interleaving.antt =====
-- One task, and the parts of `doneWaiting` and `presetTaskAsFailed` of its holders, each on a thread of
-- its own: a program counter moves by one operation on the task at a time.
use unify_prototype.Common.{
  ℕ, ◌+◌, ◌<◌, ◌≡◌, Bool, true, false, List, [], ◌∷◌, ◌++◌, Option, none, some, ◌==◌, if◌then◌else◌,
  length,
}
use unify_prototype.Concurrency.WaitingTask.Defs.{
  setting, set, is_unset, WaitingTask, uint_mod, new_task, increment_ref_count, decrement_ref_count,
}

-- Where a holder stands; the flag says that `doneWaiting` called, which counts down next.
pub data Pc : Type 0 where
  -- between calls of its members
  holding : Pc
  -- `dependentTaskFailed`, before the compare-exchange
  comparing : ℕ → Bool → Pc
  -- before `m_ptr = iPtr`
  writing : ℕ → Bool → Pc
  -- before `m_ptrSet = kSet`
  publishing : Bool → Pc
  -- `doneWaiting`, before `decrement_ref_count`
  counting_down : Pc

-- The task, how often it was handed to `task_group::run`, and a history: the exceptions in the order
-- in which the holders came to the compare-exchange.
pub record Shared : Type 0 where
  pub task : WaitingTask
  pub spawned : ℕ
  pub reported : List ℕ

-- After `dependentTaskFailed`.
abbrev pub after_report : Bool → Pc
after_report true = counting_down
after_report false = holding

unfoldable pub advance : Shared → Pc → Shared × List Pc
unfolding increment_ref_count decrement_ref_count
advance s holding = (s, holding ∷ [])
advance s (comparing e done) =
    if is_unset s.task.ptr_set
    then (
      record s { task = record (s.task) { ptr_set = setting }; reported = s.reported ++ e ∷ [] },
      writing e done ∷ [],
    )
    else (record s { reported = s.reported ++ e ∷ [] }, after_report done ∷ [])
advance s (writing e done) =
    (record s { task = record (s.task) { ptr = some e } }, publishing done ∷ [])
advance s (publishing done) =
    (record s { task = record (s.task) { ptr_set = set } }, after_report done ∷ [])
advance s counting_down =
    let after = decrement_ref_count s.task in
    (
      record s {
        task = after;
        spawned = if after.ref_count == 0 then s.spawned + 1 else s.spawned;
      },
      [],
    )

-- A copy of a holder.
unfoldable pub copy_holder : Shared → Shared
copy_holder s = record s { task = increment_ref_count s.task }

-- `doneWaiting` and `presetTaskAsFailed` up to the first operation on the task.
abbrev pub enter : Option ℕ → Bool → Pc
enter none done = after_report done
enter (some e) done = comparing e done

pub record System : Type 0 where
  pub shared : Shared
  pub holders : List Pc

-- The first holder of a new task.
abbrev pub one_holder : System
one_holder = record {
  shared = record { task = increment_ref_count new_task; spawned = 0; reported = [] };
  holders = holding ∷ [];
}

-- A holder is copied, while there are fewer than 2^32 - 2; or a member of one is called; or the call
-- of one goes on.
pub data Step (s : System) : System → Type 0 where
  copied :
      (before after : List Pc)
      → s.holders ≡ before ++ holding ∷ after
      → length s.holders + 2 < uint_mod
      → Step s (record { shared = copy_holder s.shared; holders = holding ∷ s.holders })
  called :
      (before after : List Pc) (e : Option ℕ) (done : Bool)
      → s.holders ≡ before ++ holding ∷ after
      → Step s (record s { holders = before ++ (enter e done ∷ []) ++ after })
  turn :
      (before : List Pc) (p : Pc) (after : List Pc)
      → s.holders ≡ before ++ p ∷ after
      → Step s (record {
        shared = (advance s.shared p).0;
        holders = before ++ (advance s.shared p).1 ++ after;
      })

pub data Reach : System → Type 0 where
  at_start : Reach one_holder
  later : {s t : System} → Reach s → Step s t → Reach t
