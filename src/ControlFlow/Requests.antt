-- ===== src/ControlFlow/Requests.antt =====
-- How often a node is told to decide, over any sequence of requests in one transition.
use mathlib.Core.Path.{subst}
use unify_prototype.Common.{
  total, ℕ, zero, suc, ◌+◌, ◌%◌, ◌≤◌, ◌<◌, ◌≡◌, ◌⊎◌, inl, inr, refl, sym, ◌∙◌, true, false, List,
  [], ◌∷◌, ◌++◌, arith, length, ◌==◌, Bool-cases,
}
use unify_prototype.ControlFlow.Status.{RequestState, request_decision, no_request_coming}
use unify_prototype.ControlFlow.Node.{
  will_not_run, should_run, DecisionNode, Call, make, uint_mod, run_not_started,
  request_decision_async, reset_for_new_transition,
}

-- The requests in a row, and the `makeDecisionAsync_` calls that they make.
unfoldable pub request_all : ℕ → DecisionNode → List RequestState → DecisionNode × List Call
request_all i n [] = (n, [])
request_all i n (r ∷ rs) =
    let (n', made) = request_decision_async i n r in
    let (n'', later) = request_all i n' rs in (n'', made ++ later)

-- `k` requestors that will not ask.
abbrev pub refusals : ℕ → List RequestState
refusals zero = []
refusals (suc k) = no_request_coming ∷ refusals k

-- After a node has been told to decide, requests change nothing and make no call.
settled :
    (i : ℕ) (n : DecisionNode) (rs : List RequestState)
    → run_not_started n.run_status ≡ false
    → request_all i n rs ≡ (n, [])
unfolding request_all request_decision_async
settled i n [] h = refl
settled i n (request_decision ∷ rs) h = rw h (rw (settled i n rs h))
settled i n (no_request_coming ∷ rs) h = rw h (rw (settled i n rs h))

-- A request leaves a node NOT_STARTED and makes no call, or makes one call and ends that status.
request_cases :
    (i : ℕ) (n : DecisionNode) (r : RequestState)
    → run_not_started n.run_status ≡ true
    → (((request_decision_async i n r).1 ≡ [])
        × (run_not_started (request_decision_async i n r).0.run_status ≡ true))
      ⊎ (((request_decision_async i n r).1 ≡ make i r ∷ [])
          × (run_not_started (request_decision_async i n r).0.run_status ≡ false))
unfolding request_decision_async
request_cases i n request_decision h = rw h (inr (refl, refl))
request_cases i n no_request_coming h =
    rw h (elim (Bool-cases ((n.will_not_run_requests + 1) % uint_mod == length n.requestors)) [
      | inl all ↦ rw all (inr (refl, refl))
      | inr more ↦ rw more (inl (refl, h))
    ])

length-settled :
    (i : ℕ) (n : DecisionNode) (c : Call) (rs : List RequestState)
    → run_not_started n.run_status ≡ false
    → length (c ∷ (request_all i n rs).1) ≡ 1
length-settled i n c rs h = rw (settled i n rs h) refl

length-request_all :
    (i : ℕ) (n : DecisionNode) (rs : List RequestState)
    → run_not_started n.run_status ≡ true
    → length (request_all i n rs).1 ≤ 1
unfolding request_all
length-request_all i n [] h = omega arith
length-request_all i n (r ∷ rs) h = elim (request_cases i n r h) [
  | inl (quiet, still) ↦ rw quiet (length-request_all i (request_decision_async i n r).0 rs still)
  | inr (told, ended) ↦
      rw told (subst (λ m. m ≤ 1) (sym (length-settled i _ (make i r) rs ended)) (omega arith))
]

asked_now :
    (i : ℕ) (n : DecisionNode) (rs : List RequestState)
    → run_not_started n.run_status ≡ true
    → (request_all i n (request_decision ∷ rs)).1 ≡ make i request_decision ∷ []
unfolding request_all request_decision_async
asked_now i n rs h = rw h (rw (settled i (record n { run_status = should_run }) rs refl) refl)

-- The requestors that will not ask.
abbrev pub refused : RequestState → ℕ
refused request_decision = 0
refused no_request_coming = 1

refuse_more :
    (i : ℕ) (n : DecisionNode)
    → run_not_started n.run_status ≡ true
    → n.will_not_run_requests + 1 < length n.requestors
    → length n.requestors < uint_mod
    → request_decision_async i n no_request_coming
      ≡ (record n { will_not_run_requests = n.will_not_run_requests + 1 }, [])
unfolding request_decision_async
refuse_more i n h lt bound = ground arith

told_once :
    (i : ℕ) (n : DecisionNode) (before after : List RequestState)
    → run_not_started n.run_status ≡ true
    → n.will_not_run_requests + total refused before < length n.requestors
    → length n.requestors < uint_mod
    → (request_all i n (before ++ request_decision ∷ after)).1 ≡ make i request_decision ∷ []
unfolding request_all
told_once i n [] after h few bound = asked_now i n after h
told_once i n (request_decision ∷ before) after h few bound =
    asked_now i n (before ++ request_decision ∷ after) h
told_once i n (no_request_coming ∷ before) after h few bound =
    rw (refuse_more i n h (omega arith) bound) (
      told_once i (record n { will_not_run_requests = n.will_not_run_requests + 1 }) before after h
        (omega arith) bound)

-- In one transition a node makes at most one call of `makeDecisionAsync_`, whatever is requested of
-- it. If one of the requests asks for the decision, and fewer of those before it refuse than there
-- are requestors (fewer than 2^32), the refusals counted so far included, then there is exactly one
-- call, and it is told to decide.
pub request_all_once :
    (i : ℕ) (n : DecisionNode) (before after : List RequestState)
    → run_not_started n.run_status ≡ true
    → n.will_not_run_requests + total refused before < length n.requestors
    → length n.requestors < uint_mod
    → ((rs : List RequestState) → length (request_all i n rs).1 ≤ 1)
      × ((request_all i n (before ++ request_decision ∷ after)).1 ≡ make i request_decision ∷ [])
request_all_once i n before after h few bound =
    ((λ rs. length-request_all i n rs h), told_once i n before after h few bound)

refuse_last :
    (i : ℕ) (n : DecisionNode)
    → run_not_started n.run_status ≡ true
    → n.will_not_run_requests + 1 ≡ length n.requestors
    → length n.requestors < uint_mod
    → request_decision_async i n no_request_coming ≡ (
      record n { will_not_run_requests = length n.requestors; run_status = will_not_run },
      make i no_request_coming ∷ [],
    )
unfolding request_decision_async
refuse_last i n h last bound = ground arith

refusals_below :
    (i j t : ℕ) (n : DecisionNode)
    → run_not_started n.run_status ≡ true
    → length n.requestors < uint_mod
    → t ≡ n.will_not_run_requests + j
    → t < length n.requestors
    → request_all i n (refusals j) ≡ (record n { will_not_run_requests = t }, [])
unfolding request_all
refusals_below i zero t n h bound e lt = ground arith
refusals_below i (suc j) t n h bound e lt = rw (refuse_more i n h (omega arith) bound) (
    rw (
      refusals_below i j t (record n { will_not_run_requests = n.will_not_run_requests + 1 }) h
        bound (omega arith) lt))

refusals_all :
    (i j : ℕ) (n : DecisionNode)
    → run_not_started n.run_status ≡ true
    → length n.requestors < uint_mod
    → length n.requestors ≡ n.will_not_run_requests + suc j
    → request_all i n (refusals (suc j)) ≡ (
      record n { will_not_run_requests = length n.requestors; run_status = will_not_run },
      make i no_request_coming ∷ [],
    )
unfolding request_all
refusals_all i zero n h bound e = rw (refuse_last i n h (omega arith) bound)
refusals_all i (suc j) n h bound e = rw (refuse_more i n h (omega arith) bound) (
    rw (
      refusals_all i j (record n { will_not_run_requests = n.will_not_run_requests + 1 }) h bound
        (omega arith)))

-- A node is told that it will not run by the refusal of its last requestor and not before: after the
-- reset of a node with requestors (fewer than 2^32), any smaller number of refusals is only counted.
pub will_not_run_at_last_refusal :
    (i j k : ℕ) (n : DecisionNode)
    → length n.requestors ≡ suc k
    → suc k < uint_mod
    → j ≤ k
    → (request_all i (reset_for_new_transition n) (refusals j)
        ≡ (record (reset_for_new_transition n) { will_not_run_requests = j }, []))
      × (request_all i (reset_for_new_transition n) (refusals (suc k)) ≡ (
        record (reset_for_new_transition n) {
          will_not_run_requests = suc k;
          run_status = will_not_run;
        },
        make i no_request_coming ∷ [],
      ))
unfolding reset_for_new_transition
will_not_run_at_last_refusal i j k n e bound le = (
  refusals_below i j j (reset_for_new_transition n) fresh (omega arith) (omega arith) (omega arith),
  refusals_all i k (reset_for_new_transition n) fresh (omega arith) (omega arith) ∙ rw e,
)
  where
    fresh : run_not_started (reset_for_new_transition n).run_status ≡ true
    fresh = grind arith
