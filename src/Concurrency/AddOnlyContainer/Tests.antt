-- ===== src/Concurrency/AddOnlyContainer/Tests.antt =====
-- Two calls of `makeAndHold`, of which one is overtaken by the other.
use unify_prototype.Common.{sum_below, ℕ, zero, suc, ◌≡◌, refl, List, [], ◌∷◌, some, length, total}
use unify_prototype.Concurrency.AddOnlyContainer.Defs.{
  Pc, advance, try_exchange, delete_from, delete_all,
}
use unify_prototype.Concurrency.AddOnlyContainer.System.{
  System, idle, call, turn, Reach, at_start, later,
}
use unify_prototype.Concurrency.AddOnlyContainer.Holding.{deletes_each_once}

record Run : Type 0 where
  last : System ℕ
  reach : Reach last

begin : ℕ → Run → Run
begin a r = record { last = _; reach = later r.reach (call a) }

-- The call in front moves on.
go : (r : Run) (cs : List (Pc ℕ)) → r.last.calls ≡ cs → Run
go r [] e = r
go r (p ∷ cs) e = record { last = _; reach = later r.reach (turn [] p cs e) }

moves : ℕ → Run → Run
unfolding go
moves zero r = r
moves (suc n) r = moves n (go r r.last.calls refl)

-- The first call has made its node when the second call comes and overtakes it.
overtaken : Run
unfolding moves begin advance try_exchange
overtaken = moves 3 (begin 20 (moves 2 (begin 10 (record { last = idle; reach = at_start }))))

finished : Run
unfolding overtaken
finished = moves 3 overtaken

overtaken_returned : overtaken.last.shared.returned ≡ 1 ∷ []
unfolding overtaken
overtaken_returned = refl

finished_deletes : delete_all 2 finished.last.shared ≡ some (0 ∷ 1 ∷ [])
unfolding finished overtaken delete_all delete_from moves go begin advance try_exchange
finished_deletes = refl

deletes_each_once_example :
    (deleted : List ℕ) × (delete_all (length finished.last.shared.nodes) finished.last.shared
      ≡ some deleted)
    × ((w : ℕ → ℕ) → total w deleted ≡ sum_below w (length finished.last.shared.nodes))
    × ((w : ℕ → ℕ) → total w deleted ≡ total w finished.last.shared.returned)
unfolding finished overtaken moves go begin advance try_exchange
deletes_each_once_example = deletes_each_once finished.reach refl
