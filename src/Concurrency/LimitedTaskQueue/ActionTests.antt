-- ===== src/Concurrency/LimitedTaskQueue/ActionTests.antt =====
-- One action that is pushed to two queues, and the properties at states that it reaches.
use unify_prototype.Common.{
  ◌⊎◌, ◌+◌, Bool, ℕ, zero, suc, ◌+◌, ◌<◌, ◌≡◌, refl, true, false, List, [], ◌∷◌, Option, none, some,
  arith, length, total, is,
}
use native.Mathlib.Decide.{dec_lt}
use unify_prototype.Concurrency.SerialTaskQueue.Defs.{ulong_mod}
use unify_prototype.Concurrency.SerialTaskQueue.ListQueue.{fifo}
use unify_prototype.Concurrency.LimitedTaskQueue.Actions.{
  Pc, offering, queued, testing, pausing, acting, busy, push, set_flag, advance, System, Permitted,
  call, turn, Reach, at_start, later,
}
use unify_prototype.Concurrency.LimitedTaskQueue.Once.{runs, won, tries}
use unify_prototype.Concurrency.LimitedTaskQueue.Limits.{action_runs_once}

record Run : Type 0 where
  last : System fifo 2
  reach : Reach fifo 2 last

begin : Bool → Run → Run
begin pauses r = record { last = _; reach = later r.reach (call pauses) }

permit : (s : System fifo 2) (p : Pc) → Option (Permitted fifo 2 s p)
unfolding dec_lt
permit s (queued a i) = elim (dec_lt (total (busy i) s.calls) 1) [
  | yes h ↦ some (omega arith)
  | no _ ↦ none
]
permit s (pausing a i) = elim (dec_lt (length s.shared.resuming.resumers + 2) ulong_mod) [
  | yes h ↦ some h
  | no _ ↦ none
]
permit s (offering a i) = some tt
permit s (testing a i) = some tt
permit s (acting a i) = some tt

-- The call in front moves on.
go : (r : Run) (cs : List Pc) → r.last.calls ≡ cs → Run
unfolding permit
go r [] e = r
go r (p ∷ cs) e = elim (permit r.last p) [
  | none ↦ r
  | some ok ↦ record { last = _; reach = later r.reach (turn [] p cs e ok) }
]

moves : ℕ → Run → Run
unfolding go
moves zero r = r
moves (suc n) r = moves n (go r r.last.calls refl)

abbrev at_first : Run
at_first = record { last = _; reach = at_start }

-- `pushAndPause`, up to where the action runs.
in_action : Run
unfolding begin moves
in_action = moves 4 (begin true at_first)

-- `push`, to the end.
all_done : Run
unfolding begin moves
all_done = moves 8 (begin false at_first)

in_action_acts : total runs in_action.last.calls ≡ 1
unfolding in_action begin moves go permit advance set_flag push
in_action_acts = refl

all_done_acted : all_done.last.shared.acted ≡ 0 ∷ []
unfolding all_done begin moves go permit advance set_flag push
all_done_acted = refl

in_action_made : 0 < in_action.last.shared.made
unfolding in_action begin moves go permit advance set_flag push
in_action_made = omega arith

action_runs_once_example :
    (total (is 0) in_action.last.shared.acted + total (won 0) in_action.last.calls ≡ 1)
    ⊎ ((total (is 0) in_action.last.shared.acted + total (won 0) in_action.last.calls ≡ 0)
        × (0 < total (tries 2 0) in_action.last.calls))
action_runs_once_example = action_runs_once fifo 2 (omega arith) 0 in_action.reach in_action_made

all_done_rests : (all_done.last.calls ≡ []) × (all_done.last.shared.made ≡ 1)
unfolding all_done begin moves go permit advance set_flag push
all_done_rests = (refl, refl)
