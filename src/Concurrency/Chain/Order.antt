-- ===== src/Concurrency/Chain/Order.antt =====
-- A chain runs its functors in the order in which they are written, and an exception skips those
-- that do not handle it.
use unify_prototype.Common.{
  ℕ, ◌≡◌, refl, ap, sym, ◌∙◌, true, false, List, [], ◌∷◌, ◌++◌, map, Option, none, some,
  if◌then◌else◌, append_assoc, append-nil, All,
}
use unify_prototype.Concurrency.Chain.Defs.{
  Body, Functor, plain, Ran, learnt, auto_exception_handler, call_functor, Task, last, waiting_task,
  Result, before, done_waiting, WaitingTaskChain, single, next, conditional, last_task, run_last,
  Adaptor, then_adaptor, conditional_adaptor, pipe, pipe_all,
}

-- The functors that are to run: the conditional ones whose condition is false are left out.
abbrev pub enabled : List Adaptor → List Functor
enabled [] = []
enabled (then_adaptor f ∷ rest) = f ∷ enabled rest
enabled (conditional_adaptor true f ∷ rest) = f ∷ enabled rest
enabled (conditional_adaptor false f ∷ rest) = enabled rest

-- Functors one after the other, each given the exception that the one before left.
unfoldable pub run_all : List Functor → Option ℕ → List Ran × Option ℕ
run_all [] e = ([], e)
run_all (f ∷ fs) e = let (l, r) = run_all fs (call_functor f e).1 in ((call_functor f e).0 ++ l, r)

-- The result of a run that ends in the task `t`.
abbrev pub ends_in : ℕ → List Ran × Option ℕ → Result
ends_in t (l, e) = record { ran = l; ended = t; exception = e }

-- The tasks of some functors, before a task.
abbrev tasks_of : List Functor → Task → Task
tasks_of [] v = v
tasks_of (f ∷ fs) v = waiting_task f (tasks_of fs v)

done_waiting-tasks_of :
    (fs : List Functor) (t : ℕ) (e : Option ℕ)
    → done_waiting (tasks_of fs (last t)) e ≡ ends_in t (run_all fs e)
unfolding done_waiting run_all
done_waiting-tasks_of [] t e = refl
done_waiting-tasks_of (f ∷ fs) t e =
    ap (before (call_functor f e).0) (done_waiting-tasks_of fs t (call_functor f e).1)

-- The functors of a chain, the first first.
abbrev functors_of : WaitingTaskChain → List Functor
functors_of (single f) = f ∷ []
functors_of (next f l) = functors_of l ++ f ∷ []
functors_of (conditional true f l) = functors_of l ++ f ∷ []
functors_of (conditional false f l) = functors_of l

tasks_of-append :
    (fs gs : List Functor) (v : Task) → tasks_of (fs ++ gs) v ≡ tasks_of fs (tasks_of gs v)
tasks_of-append [] gs v = refl
tasks_of-append (f ∷ fs) gs v = ap (waiting_task f) (tasks_of-append fs gs v)

last_task-tasks_of : (l : WaitingTaskChain) (v : Task) → last_task l v ≡ tasks_of (functors_of l) v
unfolding last_task
last_task-tasks_of (single f) v = refl
last_task-tasks_of (next f l) v =
    last_task-tasks_of l (waiting_task f v) ∙ sym (tasks_of-append (functors_of l) (f ∷ []) v)
last_task-tasks_of (conditional true f l) v =
    last_task-tasks_of l (waiting_task f v) ∙ sym (tasks_of-append (functors_of l) (f ∷ []) v)
last_task-tasks_of (conditional false f l) v = last_task-tasks_of l v

run_last-last_task :
    (l : WaitingTaskChain) (v : Task) → run_last l v ≡ done_waiting (last_task l v) none
unfolding run_last last_task done_waiting
run_last-last_task (single f) v = refl
run_last-last_task (next f l) v = run_last-last_task l (waiting_task f v)
run_last-last_task (conditional condition f l) v =
    run_last-last_task l (if condition then waiting_task f v else v)

functors_of-pipe_all :
    (l : WaitingTaskChain) (rest : List Adaptor)
    → functors_of (pipe_all l rest) ≡ functors_of l ++ enabled rest
unfolding pipe_all pipe
functors_of-pipe_all l [] = sym (append-nil (functors_of l))
functors_of-pipe_all l (then_adaptor f ∷ rest) =
    functors_of-pipe_all (next f l) rest ∙ append_assoc (functors_of l) (f ∷ []) (enabled rest)
functors_of-pipe_all l (conditional_adaptor true f ∷ rest) =
    functors_of-pipe_all (conditional true f l) rest
    ∙ append_assoc (functors_of l) (f ∷ []) (enabled rest)
functors_of-pipe_all l (conditional_adaptor false f ∷ rest) =
    functors_of-pipe_all (conditional false f l) rest

-- `first(f) | a | b | … | lastTask(t)` gives a holder such that, once it is done with an exception or
-- none, the functors run in the order in which they are written, those with a false condition left
-- out, each given what the one before left, and then the task `t` with what the last of them left;
-- and `… | runLast(t)` does the same at once, with no exception.
pub chain_runs_in_order :
    (f : Functor) (rest : List Adaptor) (t : ℕ)
    → ((e : Option ℕ)
        → done_waiting (last_task (pipe_all (single f) rest) (last t)) e
          ≡ ends_in t (run_all (f ∷ enabled rest) e))
      × (run_last (pipe_all (single f) rest) (last t) ≡ ends_in t (run_all (f ∷ enabled rest) none))
chain_runs_in_order f rest t =
    (started, run_last-last_task (pipe_all (single f) rest) (last t) ∙ started none)
  where
    started :
        (e : Option ℕ)
        → done_waiting (last_task (pipe_all (single f) rest) (last t)) e
          ≡ ends_in t (run_all (f ∷ enabled rest) e)
    started e =
        ap (λ v. done_waiting v e) (last_task-tasks_of (pipe_all (single f) rest) (last t))
        ∙ ap (λ fs. done_waiting (tasks_of fs (last t)) e) (functors_of-pipe_all (single f) rest)
        ∙ done_waiting-tasks_of (f ∷ enabled rest) t e

-- A functor that ends with no exception.
abbrev pub Succeeds : Body → Type 0
Succeeds b = learnt b ≡ none

abbrev pub ran_by : Body → Ran
ran_by b = record { name = b.name; exception = none }

run_all-cons :
    (f : Functor) (fs : List Functor) (e : Option ℕ)
    → run_all (f ∷ fs) e ≡ (
      (call_functor f e).0 ++ (run_all fs (call_functor f e).1).0,
      (run_all fs (call_functor f e).1).1,
    )
unfolding run_all
run_all-cons f fs e = refl

skipped : (bs : List Body) (e : ℕ) → run_all (map plain bs) (some e) ≡ ([], some e)
unfolding run_all call_functor auto_exception_handler
skipped [] e = refl
skipped (b ∷ bs) e = skipped bs e

fails :
    (before : List Body) (b : Body) (after : List Body) (e : ℕ)
    → All Succeeds before
    → learnt b ≡ some e
    → run_all (map plain (before ++ b ∷ after)) none ≡ (map ran_by before ++ ran_by b ∷ [], some e)
unfolding run_all call_functor auto_exception_handler
fails [] b after e ok failed = rw (failed, skipped after e) refl
fails (x ∷ xs) b after e ok failed = rw (ok.0, fails xs b after e ok.1 failed) refl

enabled-then : (bs : List Body) → enabled (map (λ b. then_adaptor (plain b)) bs) ≡ map plain bs
enabled-then [] = refl
enabled-then (b ∷ bs) = ap (λ fs. plain b ∷ fs) (enabled-then bs)

-- In a chain of functors that do not handle exceptions the first that fails is the last that runs:
-- if those before it succeed, they and it run, those behind it do not, and one exception of it
-- reaches the last task: the first that it reported before it ended, else the one that it threw, and
-- else the first that a copy of its holder reported after that.
pub failure_skips_rest :
    (first : Body) (others before : List Body) (b : Body) (after : List Body) (e t : ℕ)
    → first ∷ others ≡ before ++ b ∷ after
    → All Succeeds before
    → learnt b ≡ some e
    → run_last (pipe_all (single (plain first)) (map (λ x. then_adaptor (plain x)) others)) (last t)
      ≡ record { ran = map ran_by before ++ ran_by b ∷ []; ended = t; exception = some e }
failure_skips_rest first others before b after e t split ok failed =
    (chain_runs_in_order (plain first) (map (λ x. then_adaptor (plain x)) others) t).1
    ∙ ap (λ fs. ends_in t (run_all (plain first ∷ fs) none)) (enabled-then others)
    ∙ ap (λ bs. ends_in t (run_all (map plain bs) none)) split
    ∙ ap (ends_in t) (fails before b after e ok failed)
