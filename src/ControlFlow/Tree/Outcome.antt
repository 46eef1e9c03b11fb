-- ===== src/ControlFlow/Tree/Outcome.antt =====
-- The trees of a start graph, one after the other, from their requests to the end of the calls.
use unify_prototype.Common.{
  ℕ, ◌+◌, ◌%◌, ◌<◌, ◌≡◌, refl, sym, ap, ◌∙◌, List, [], ◌∷◌, ◌++◌, map, append-nil, append_assoc,
  arith, length, gather, All,
}
use mathlib.Core.Path.{subst}
use unify_prototype.ControlFlow.Status.{
  ControlFlowStatus, RequestState, request_decision, no_request_coming,
}
use unify_prototype.ControlFlow.Node.{start_graph, Call, request, decision_from, uint_mod}
use unify_prototype.ControlFlow.Graph.{DecisionGraph, handle}
use unify_prototype.ControlFlow.Tree.Defs.{
  Tree, root, In, Apart, Distinct, leaves, serve, evaluate, needed, passed_over,
}
use unify_prototype.ControlFlow.Tree.Within.{Within, Within-seq, Within-widen, Fresh, Fresh-frame}
use unify_prototype.ControlFlow.Tree.Moves.{at, Leads, here, Leads-seq, one}
use unify_prototype.ControlFlow.Tree.Refusing.{refusals, refuses}
use unify_prototype.ControlFlow.Tree.Idle.{Idle, Idle-frame}
use unify_prototype.ControlFlow.Tree.Deciding.{requests, tells, decides}

refusals-append : (xs ys : List ℕ) → refusals (xs ++ ys) ≡ refusals xs ++ refusals ys
refusals-append [] ys = refl
refusals-append (x ∷ xs) ys = ap (λ c. (x, no_request_coming) ∷ c) (refusals-append xs ys)

Idle-later :
    (S : ℕ → Type 0) (g g' : DecisionGraph) (u : Tree) (us : List Tree)
    → ((j : ℕ) → ¬ In j u → g'.nodes j ≡ g.nodes j)
    → All (Apart u) us
    → Idle S g us
    → Idle S g' us
Idle-later S g g' u [] same a h = tt
Idle-later S g g' u (v ∷ us) same (av, a) (sub, d, (r, f), b, h) = (
  sub,
  d,
  (r, Fresh-frame v _ g g' (λ j inv. same j (λ inu. av j inu inv)) f),
  b,
  Idle-later S g g' u us same a h,
)

-- The trees are apart from each other, and no node of them has been asked yet.
abbrev pub Ready : DecisionGraph → List Tree → Type 0
Ready g [] = Unit
Ready g (t ∷ ts) = Fresh t (start_graph ∷ []) g × Distinct t × All (Apart t) ts × Ready g ts

pub Ready-later :
    (g g' : DecisionGraph) (t : Tree) (ts : List Tree)
    → ((j : ℕ) → ¬ In j t → g'.nodes j ≡ g.nodes j)
    → All (Apart t) ts
    → Ready g ts
    → Ready g' ts
Ready-later g g' t [] same a h = tt
Ready-later g g' t (u ∷ ts) same (au, a) (f, d, b, h) = (
  Fresh-frame u _ g g' (λ j inu. same j (λ i. au j i inu)) f,
  d,
  b,
  Ready-later g g' t ts same a h,
)

module _ (answer : ℕ → ControlFlowStatus) where
  refuse_all :
      (S : ℕ → Type 0) (us : List Tree) (g : DecisionGraph) (cs : List Call)
      (h : List (ℕ × ControlFlowStatus))
      → Idle S g us
      → (g' : DecisionGraph) × Leads answer (at g (tells us ++ cs) h) (at g' cs h)
        × Within S (refusals (gather leaves us)) g g'
  refuse_all S [] g cs h idle =
      (g, here, record { off = λ j out. refl; asked = sym (append-nil g.asked); counted = refl })
  refuse_all S (u ∷ us) g cs h (sub, d, (r, f), a, idle) =
      let (g1, l1, w1) = refuses answer u r g (tells us ++ cs) h f d in
      let idle1 = Idle-later S g g1 u us w1.off a idle in
      let (g2, l2, w2) = refuse_all S us g1 cs h idle1 in
      (
        g2,
        Leads-seq answer l1 l2,
        subst (λ xs. Within S xs g g2) (sym (refusals-append (leaves u) (gather leaves us)))
            (Within-seq (Within-widen sub w1) w2),
      )

  -- The leaves in the order in which they are asked, and then the others as they are refused.
  abbrev pub asks : Tree → List (ℕ × RequestState)
  asks t = requests (needed answer t) ++ refusals (gather leaves (passed_over answer t))

  abbrev pub verdict : Tree → ℕ × ControlFlowStatus
  verdict t = (root t, evaluate answer t)

  one_tree :
      (t : Tree) (g : DecisionGraph) (cs : List Call) (h : List (ℕ × ControlFlowStatus))
      → Fresh t (start_graph ∷ []) g
      → Distinct t
      → (g' : DecisionGraph) × Leads answer
          (at g (request (root t) request_decision ∷ cs) h)
          (at g' cs (h ++ verdict t ∷ []))
        × ((j : ℕ) → ¬ In j t → g'.nodes j ≡ g.nodes j)
        × (g'.asked ≡ g.asked ++ asks t)
        × (g'.finished_leaf_nodes ≡ (g.finished_leaf_nodes + 1) % uint_mod)
  unfolding serve handle
  one_tree t g cs h f d =
      let (g1, l1, w1, idle) = decides answer t start_graph g cs h f d in
      let g2 : DecisionGraph = record g1 {
        finished_leaf_nodes = (g1.finished_leaf_nodes + 1) % uint_mod;
      } in
      let rest = tells (passed_over answer t) ++ cs in
      let l2 =
        one answer g1 (decision_from start_graph (root t) (evaluate answer t)) rest h _ refl in
      let idle2 = Idle-frame (λ j. In j t) g1 g2 _ (λ j i. refl) idle in
      let (g3, l3, w3) = refuse_all (λ j. In j t) (passed_over answer t) g2 cs _ idle2 in
      (
        g3,
        Leads-seq answer l1 (Leads-seq answer l2 l3),
        λ j out. w3.off j out ∙ w1.off j out,
        w3.asked ∙ rw w1.asked (append_assoc g.asked _ _),
        w3.counted ∙ ap (λ n. (n + 1) % uint_mod) w1.counted,
      )

  pub all_trees :
      (ts : List Tree) (g : DecisionGraph) (h : List (ℕ × ControlFlowStatus))
      → Ready g ts
      → g.finished_leaf_nodes + length ts < uint_mod
      → (g' : DecisionGraph) × Leads answer
          (at g (map (λ t. request (root t) request_decision) ts) h)
          (at g' [] (h ++ map verdict ts))
        × (g'.asked ≡ g.asked ++ gather asks ts)
        × (g'.finished_leaf_nodes ≡ g.finished_leaf_nodes + length ts)
  all_trees [] g h ready b = (g, rw append-nil here, sym (append-nil g.asked), omega arith)
  all_trees (t ∷ ts) g h (f, d, a, ready) b =
      let (g1, l1, off, as1, c1) =
        one_tree t g (map (λ t. request (root t) request_decision) ts) h f d in
      let counted : g1.finished_leaf_nodes ≡ g.finished_leaf_nodes + 1 = omega (arith, c1) in
      let (g2, l2, as2, c2) =
        all_trees ts g1 (h ++ verdict t ∷ []) (Ready-later g g1 t ts off a ready) (omega arith) in
      (
        g2,
        Leads-seq answer l1 (
            subst
              (λ k.
                Leads answer
                  (at g1 (map (λ t. request (root t) request_decision) ts) (h ++ verdict t ∷ []))
                  (at g2 [] k))
              (append_assoc h (verdict t ∷ []) (map verdict ts)) l2),
        as2 ∙ rw as1 (append_assoc g.asked (asks t) (gather asks ts)),
        omega arith,
      )
