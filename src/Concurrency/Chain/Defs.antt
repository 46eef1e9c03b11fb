-- ===== src/Concurrency/Chain/Defs.antt =====
-- The functors of a chain, the tasks that they become, and the chain itself. A functor is taken
-- with everything that it starts: what counts is what it and the copies of its holder report, and
-- that the last of them is done before the next task runs.
use unify_prototype.Common.{ℕ, Bool, List, [], ◌∷◌, ◌++◌, Option, none, some, if◌then◌else◌}

-- A functor that takes a holder: its name, the first exception that was reported to a copy of the
-- holder before the functor ended, the exception that left the functor, and the first that was
-- reported to a copy after that.
pub record Body : Type 0 where
  pub name : ℕ
  pub reported : Option ℕ
  pub thrown : Option ℕ
  pub reported_later : Option ℕ

-- The functors that `first`, `then` and `ifThen` take: one of a holder, one of an exception pointer
-- and a holder, which reports what it likes and throws nothing, and `ifException(e).else_(f)`.
pub data Functor : Type 0 where
  plain : Body → Functor
  handling : ℕ → (Option ℕ → Option ℕ) → Functor
  if_exception : ℕ → Body → Functor

-- A functor that ran, with the exception that it was given.
pub record Ran : Type 0 where
  pub name : ℕ
  pub exception : Option ℕ

-- What the holder learns from two reports, the first of which was earlier.
abbrev pub first_report : Option ℕ → Option ℕ → Option ℕ
first_report none later = later
first_report (some e) later = some e

-- What the holder of the next task learns of a functor that ran, the last copy of it included.
abbrev pub learnt : Body → Option ℕ
learnt f = first_report f.reported (first_report f.thrown f.reported_later)

-- `AutoExceptionHandler::operator()`: what ran, and what its holder learns.
unfoldable pub auto_exception_handler : Body → Option ℕ → List Ran × Option ℕ
auto_exception_handler f (some e) = ([], some e)
auto_exception_handler f none = (record { name = f.name; exception = none } ∷ [], learnt f)

-- `ExplicitExceptionHandler::operator()`.
unfoldable pub explicit_exception_handler : ℕ → Body → Option ℕ → List Ran × Option ℕ
explicit_exception_handler except f (some e) =
    (record { name = except; exception = some e } ∷ [], some e)
explicit_exception_handler except f none =
    (record { name = f.name; exception = none } ∷ [], learnt f)

unfoldable pub call_functor : Functor → Option ℕ → List Ran × Option ℕ
unfolding auto_exception_handler explicit_exception_handler
call_functor (plain f) e = auto_exception_handler f e
call_functor (handling name f) e = (record { name = name; exception = e } ∷ [], f e)
call_functor (if_exception except f) e = explicit_exception_handler except f e

-- A task with its one holder: the task that was given to the chain, or one that
-- `make_waiting_task` made of a functor and of the holder of the next task.
pub data Task : Type 0 where
  last : ℕ → Task
  waiting_task : Functor → Task → Task

-- What a run leads to: the functors in their order, and the exception of the last task.
pub record Result : Type 0 where
  pub ran : List Ran
  pub ended : ℕ
  pub exception : Option ℕ

abbrev pub before : List Ran → Result → Result
before l r = record r { ran = l ++ r.ran }

-- `doneWaiting` of the task's last holder, from which the rest follows.
unfoldable pub done_waiting : Task → Option ℕ → Result
done_waiting (last t) e = record { ran = []; ended = t; exception = e }
done_waiting (waiting_task f v) e =
    before (call_functor f e).0 (done_waiting v (call_functor f e).1)

-- `WaitingTaskChain<U>`, `WaitingTaskChain<U, T...>` and `WaitingTaskChain<Conditional<U>, T...>`:
-- the functor that comes last stands outside.
pub data WaitingTaskChain : Type 0 where
  single : Functor → WaitingTaskChain
  next : Functor → WaitingTaskChain → WaitingTaskChain
  conditional : Bool → Functor → WaitingTaskChain → WaitingTaskChain

unfoldable pub last_task : WaitingTaskChain → Task → Task
last_task (single f) v = waiting_task f v
last_task (next f l) v = last_task l (waiting_task f v)
last_task (conditional condition f l) v = last_task l (if condition then waiting_task f v else v)

unfoldable pub run_last : WaitingTaskChain → Task → Result
unfolding done_waiting
run_last (single f) v = before (call_functor f none).0 (done_waiting v (call_functor f none).1)
run_last (next f l) v = run_last l (waiting_task f v)
run_last (conditional condition f l) v = run_last l (if condition then waiting_task f v else v)

-- `ThenAdaptor` and `ConditionalAdaptor`.
pub data Adaptor : Type 0 where
  then_adaptor : Functor → Adaptor
  conditional_adaptor : Bool → Functor → Adaptor

unfoldable pub pipe : Adaptor → WaitingTaskChain → WaitingTaskChain
pipe (then_adaptor f) chain = next f chain
pipe (conditional_adaptor condition f) chain = conditional condition f chain

-- `chain | a | b | …`.
unfoldable pub pipe_all : WaitingTaskChain → List Adaptor → WaitingTaskChain
unfolding pipe
pipe_all chain [] = chain
pipe_all chain (a ∷ rest) = pipe_all (pipe a chain) rest
