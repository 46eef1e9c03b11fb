-- ===== src/Concurrency/AddOnlyContainer/System.antt =====
-- A container under any number of concurrent calls of `makeAndHold`, interleaved in any order.
use unify_prototype.Common.{◌≡◌, List, [], ◌∷◌, ◌++◌}
use unify_prototype.Concurrency.AddOnlyContainer.Defs.{Pc, loading, Shared, init, advance}

pub record System (A : Type 0) : Type 0 where
  pub shared : Shared A
  pub calls : List (Pc A)

module _ {A : Type 0} where
  abbrev pub idle : System A
  idle = record { shared = init; calls = [] }

  -- A client calls `makeAndHold`, or some call in progress goes one operation on.
  pub data Step (s : System A) : System A → Type 0 where
    call : (a : A) → Step s (record s { calls = loading a ∷ s.calls })
    turn :
        (before : List (Pc A)) (p : Pc A) (after : List (Pc A))
        → s.calls ≡ before ++ p ∷ after
        → Step s (record {
          shared = (advance s.shared p).0;
          calls = before ++ (advance s.shared p).1 ++ after;
        })

  pub data Reach : System A → Type 0 where
    at_start : Reach idle
    later : {s t : System A} → Reach s → Step s t → Reach t
