-- ===== src/Concurrency/AddOnlyContainer/Holding.antt =====
-- No node is lost: each is deleted once.
use unify_prototype.Common.{
  sum_below, sum_below-1, ℕ, ◌≡◌, List, [], some, arith, length, total, length-total, sym,
}
use unify_prototype.Concurrency.AddOnlyContainer.Defs.{delete_all}
use unify_prototype.Concurrency.AddOnlyContainer.System.{System, Reach}
use unify_prototype.Concurrency.AddOnlyContainer.Nodes.{delete_from-Trail}
use unify_prototype.Concurrency.AddOnlyContainer.Invariant.{Reach-Inv}

module _ {A : Type 0} where
  -- However the calls of `makeAndHold` interleave, once each has come to its end the destructor ends,
  -- after as many turns of its loop as there are nodes, and by any weight of the addresses those that
  -- it deletes are those at which a node was made, each once, and those that the calls returned.
  pub deletes_each_once :
      {s : System A}
      → Reach s
      → s.calls ≡ []
      → (deleted : List ℕ) × (delete_all (length s.shared.nodes) s.shared ≡ some deleted)
        × ((w : ℕ → ℕ) → total w deleted ≡ sum_below w (length s.shared.nodes))
        × ((w : ℕ → ℕ) → total w deleted ≡ total w s.shared.returned)
  unfolding delete_all
  deletes_each_once {s} r rest =
      let v = Reach-Inv r in
      let all : (w : ℕ → ℕ) → total w v.trail ≡ sum_below w (length s.shared.nodes) =
        λ w. let k = v.kept w in omega (arith, rw rest at k) in
      let as_many = length-total v.trail in
      let bound = all (λ n. 1) in
      let ones = sum_below-1 (length s.shared.nodes) in
      (
        v.trail,
        delete_from-Trail _ s.shared.nodes s.shared.front v.trail (omega arith) v.is_trail,
        all,
        λ w. sym (v.given w),
      )
