-- ===== src/Concurrency/SerialTaskQueue/ListQueue.antt =====
-- A list as the concurrent queue that a `SerialTaskQueue` relies on, for the tests.
use unify_prototype.Common.{◌≡◌, refl, List, [], ◌∷◌, ◌++◌, Option, none, some, arith}
use unify_prototype.Concurrency.SerialTaskQueue.Defs.{Task, ConcurrentQueue}

abbrev pub list_try_pop : List Task → Option (Task × List Task)
list_try_pop [] = none
list_try_pop (t ∷ q) = some (t, q)

pub list_none-try_pop : (q : List Task) → list_try_pop q ≡ none → q ≡ []
list_none-try_pop [] h = refl
list_none-try_pop (t ∷ q) h = cc

pub list_some-try_pop :
    (q : List Task) (t : Task) (q' : List Task) → list_try_pop q ≡ some (t, q') → q ≡ t ∷ q'
list_some-try_pop [] t q' h = cc
list_some-try_pop (x ∷ q) t q' h = ground arith

-- A list meets what is relied on.
abbrev pub fifo : ConcurrentQueue
fifo = record {
  Queue = List Task;
  empty = [];
  push = λ q t. q ++ t ∷ [];
  try_pop = list_try_pop;
  to_list = λ q. q;
  to_list-empty = refl;
  to_list-push = λ q t. refl;
  none-try_pop = list_none-try_pop;
  some-try_pop = list_some-try_pop;
}
