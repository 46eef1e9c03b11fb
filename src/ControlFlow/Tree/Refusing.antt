-- ===== src/ControlFlow/Tree/Refusing.antt =====
-- A tree that is told that no request is coming tells all its leaves, and decides nothing.
use mathlib.Core.List.{map-append}
use unify_prototype.Common.{ℕ, ◌≡◌, inl, inr, refl, ap, ◌∙◌, List, [], ◌∷◌, map}
use unify_prototype.ControlFlow.Status.{ControlFlowStatus, RequestState, no_request_coming}
use unify_prototype.ControlFlow.Node.{
  will_not_run, in_progress, Kind, leaf, binary, Requestor, node, DecisionNode, Call, request, make,
  request_decision_async, make_binary, new_node,
}
use unify_prototype.ControlFlow.Graph.{DecisionGraph, put}
use unify_prototype.ControlFlow.Tree.Defs.{Tree, leaf_node, binary_node, root, In, Distinct, leaves}
use unify_prototype.ControlFlow.Tree.Within.{
  Within, Within-seq, Within-widen, Within-put, Within-ask, update-same, fresh, Fresh, Fresh-frame,
}
use unify_prototype.ControlFlow.Tree.Moves.{
  at, Leads, Leads-seq, quiet, serve-request, serve-make_leaf_none, serve-make_binary,
}

abbrev pub refusals : List ℕ → List (ℕ × RequestState)
refusals = map (λ i. (i, no_request_coming))

-- The node after the refusal of its one requestor.
abbrev refused : Kind → Requestor → DecisionNode
refused k r = record (fresh k (r ∷ [])) { will_not_run_requests = 1; run_status = will_not_run }

abbrev making : Kind → Requestor → DecisionNode
making k r = record (refused k r) { request_calls_to_composites = 1; run_status = in_progress }

refuse_node :
    (i : ℕ) (k : Kind) (r : Requestor)
    → request_decision_async i (fresh k (r ∷ [])) no_request_coming
      ≡ (refused k r, make i no_request_coming ∷ [])
unfolding request_decision_async new_node
refuse_node i k r = refl

make_refused :
    (a b : ℕ) (n : DecisionNode)
    → make_binary a b n no_request_coming ≡ (
      record n { request_calls_to_composites = 1; run_status = in_progress },
      request a no_request_coming ∷ request b no_request_coming ∷ [],
    )
unfolding make_binary
make_refused a b n = refl

module _ (answer : ℕ → ControlFlowStatus) where
  pub refuses :
      (t : Tree) (r : Requestor) (g : DecisionGraph) (cs : List Call)
      (h : List (ℕ × ControlFlowStatus))
      → Fresh t (r ∷ []) g
      → Distinct t
      → (g' : DecisionGraph) × Leads answer
          (at g (request (root t) no_request_coming ∷ cs) h)
          (at g' cs h)
        × Within (λ j. In j t) (refusals (leaves t)) g g'
  unfolding new_node
  refuses (leaf_node i) r g cs h e d =
      let g1 = (put g i (refused leaf r, make i no_request_coming ∷ [])).0 in
      let first =
        quiet answer g (request i no_request_coming) cs h _ refl
          (serve-request answer g i _ no_request_coming e ∙ ap (put g i) (refuse_node i leaf r)) in
      let second =
        quiet answer g1 (make i no_request_coming) cs h _ refl
          (serve-make_leaf_none answer g1 i _ (update-same g.nodes i _) refl) in
      (
        _,
        Leads-seq answer first second,
        Within-seq (Within-put g i (refused leaf r, make i no_request_coming ∷ []))
            (Within-ask (λ j. j ≡ i) g1 (i, no_request_coming)),
      )
  refuses (binary_node i op a b) r g cs h (e, ea, eb) (na, nb, apart, da, db) =
      let k = binary op (root a) (root b) in
      let g1 = (put g i (refused k r, [])).0 in
      let g2 = (put g1 i (making k r, [])).0 in
      let first =
        quiet answer g (request i no_request_coming) cs h _ refl
          (serve-request answer g i _ no_request_coming e ∙ ap (put g i) (refuse_node i k r)) in
      let second = quiet answer g1 (make i no_request_coming) cs h _ refl (
        serve-make_binary answer g1 i _ no_request_coming op (root a) (root b)
          (update-same g.nodes i _) refl
        ∙ ap (put g1 i) (make_refused (root a) (root b) (refused k r))) in
      let own = Within-seq (Within-put g i (refused k r, [])) (Within-put g1 i (making k r, [])) in
      let ea2 = Fresh-frame a _ g g2 (λ j inj. own.off j (λ q. na (rw q at inj))) ea in
      let (g3, third, wa) =
        refuses a (node i) g2 (request (root b) no_request_coming ∷ cs) h ea2 da in
      let eb3 =
        Fresh-frame b _ g g3
          (λ j inj. wa.off j (λ ina. apart j ina inj) ∙ own.off j (λ q. nb (rw q at inj))) eb in
      let (g4, fourth, wb) = refuses b (node i) g3 cs h eb3 db in
      (
        g4,
        Leads-seq answer first (Leads-seq answer second (Leads-seq answer third fourth)),
        rw (map-append) (
            Within-seq (Within-widen (λ j q. inl q) own) (
              Within-seq (Within-widen (λ j q. inr (inl q)) wa)
                (Within-widen (λ j q. inr (inr q)) wb))),
      )
