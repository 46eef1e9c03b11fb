-- ===== src/Concurrency/QueueChain/Tests.antt =====
-- Two actions that go down a chain of three queues, and the properties at them.
use unify_prototype.Common.{ℕ, zero, suc, ◌+◌, ◌≡◌, refl, List, [], ◌∷◌, ◌++◌, arith, length, total}
use unify_prototype.Concurrency.SerialTaskQueue.ListQueue.{fifo}
use unify_prototype.Concurrency.QueueChain.Defs.{
  Pc, queued, acting, pass_down_chain, init_chain, push, advance, System, call, Reach, at_start,
  later,
}
use unify_prototype.Concurrency.QueueChain.Moves.{carries, keeps}
use unify_prototype.Concurrency.QueueChain.Counting.{chain_counts}
use unify_prototype.Concurrency.QueueChain.Turns.{Turns, here, next, Turns-Reach}

abbrev pushed_two : System fifo 3
pushed_two = record {
  shared = (push fifo 3 (push fifo 3 (init_chain fifo) 10).0 20).0;
  calls = queued (pass_down_chain 1 20) ∷ queued (pass_down_chain 1 10) ∷ [];
}

pushed_two-Reach : Reach fifo 3 pushed_two
unfolding push
pushed_two-Reach = later (later at_start (call 10 (omega arith))) (call 20 (omega arith))

-- The action in front moves on.
record Run (s : System fifo 3) : Type 0 where
  last : System fifo 3
  count : ℕ
  turns : Turns 3 fifo s count last

go : {s : System fifo 3} (r : Run s) (cs : List Pc) → r.last.calls ≡ cs → Run s
go r [] e = r
go r (p ∷ cs) e = record { last = _; count = suc r.count; turns = next r.turns [] p cs e }

moves : {s : System fifo 3} → ℕ → Run s → Run s
unfolding go
moves zero r = r
moves (suc n) r = moves n (go r r.last.calls refl)

abbrev at_first : Run pushed_two
at_first = record { last = pushed_two; count = 0; turns = here }

in_action : Run pushed_two
unfolding moves
in_action = moves 7 at_first

all_done : Run pushed_two
unfolding moves
all_done = moves 22 at_first

in_action_acts : in_action.last.calls ≡ [] ++ acting 20 ∷ queued (pass_down_chain 1 10) ∷ []
unfolding in_action moves go advance
in_action_acts = refl

in_action-Reach : Reach fifo 3 in_action.last
in_action-Reach = Turns-Reach 3 fifo pushed_two-Reach in_action.turns

chain_counts_example :
    ((q : ℕ)
      → (in_action.last.shared.queues q).pause_count ≡ total (keeps 3 q) in_action.last.calls)
    × (in_action.last.shared.outstanding_tasks ≡ length in_action.last.calls)
    × ((w : ℕ → ℕ)
        → total w in_action.last.shared.pushed
          ≡ total w in_action.last.shared.acted + total (carries w) in_action.last.calls)
chain_counts_example = chain_counts fifo 3 (omega arith) in_action-Reach

all_done_acted : (all_done.count ≡ 22) × (all_done.last.shared.acted ≡ 20 ∷ 10 ∷ [])
unfolding all_done moves go advance push
all_done_acted = (refl, refl)
