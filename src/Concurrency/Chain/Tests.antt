-- ===== src/Concurrency/Chain/Tests.antt =====
-- Chains of three functors, and the properties at them.
use unify_prototype.Common.{ℕ, ◌≡◌, refl, false, [], ◌∷◌, map, Option, none, some}
use unify_prototype.Concurrency.Chain.Defs.{
  Body, plain, if_exception, last, done_waiting, single, last_task, run_last, then_adaptor,
  conditional_adaptor, pipe_all, call_functor,
}
use unify_prototype.Concurrency.Chain.Order.{
  run_all, ends_in, ran_by, chain_runs_in_order, failure_skips_rest,
}

abbrev good : ℕ → Body
good n = record { name = n; reported = none; thrown = none; reported_later = none }

abbrev bad : Body
bad = record { name = 2; reported = none; thrown = some 7; reported_later = some 8 }

-- The second functor throws, the third is left out, and the fourth handles the exception.
handled :
    run_last
      (pipe_all (single (plain (good 1))) (
        then_adaptor (plain bad)
        ∷ (conditional_adaptor false (plain (good 3))
            ∷ (then_adaptor (if_exception 4 (good 5)) ∷ []))))
      (last 9)
    ≡ record {
      ran =
          record { name = 1; exception = none }
          ∷ (record { name = 2; exception = none }
              ∷ (record { name = 4; exception = some 7 } ∷ []));
      ended = 9;
      exception = some 7;
    }
unfolding run_last pipe_all done_waiting call_functor
handled = refl

chain_runs_in_order_example :
    ((e : Option ℕ)
      → done_waiting
          (last_task (pipe_all (single (plain (good 1))) (then_adaptor (plain bad) ∷ [])) (last 9))
          e
        ≡ ends_in 9 (run_all (plain (good 1) ∷ plain bad ∷ []) e))
    × (run_last (pipe_all (single (plain (good 1))) (then_adaptor (plain bad) ∷ [])) (last 9)
        ≡ ends_in 9 (run_all (plain (good 1) ∷ plain bad ∷ []) none))
chain_runs_in_order_example = chain_runs_in_order (plain (good 1)) (then_adaptor (plain bad) ∷ []) 9

failure_skips_rest_example :
    run_last
      (pipe_all (single (plain (good 1))) (map (λ x. then_adaptor (plain x)) (bad ∷ good 3 ∷ [])))
      (last 9)
    ≡ record { ran = ran_by (good 1) ∷ ran_by bad ∷ []; ended = 9; exception = some 7 }
failure_skips_rest_example =
    failure_skips_rest (good 1) (bad ∷ good 3 ∷ []) (good 1 ∷ []) bad (good 3 ∷ []) 7 9 refl
      (refl, tt) refl
