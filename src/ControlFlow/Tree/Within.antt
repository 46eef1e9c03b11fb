-- ===== src/ControlFlow/Tree/Within.antt =====
-- What calls leave of a graph, and the nodes of a tree that have not been asked yet.
use mathlib.Core.Path.{subst}
use unify_prototype.Common.{
  ℕ, ◌≡◌, ◌≢◌, inl, inr, refl, sym, ◌∙◌, List, [], ◌∷◌, ◌++◌, append-nil, append_assoc, arith,
}
use unify_prototype.ControlFlow.Status.{RequestState}
use unify_prototype.ControlFlow.Node.{
  Kind, leaf, binary, Requestor, node, DecisionNode, Call, new_node,
}
use unify_prototype.ControlFlow.Graph.{DecisionGraph, update, put}
use unify_prototype.ControlFlow.Tree.Defs.{Tree, leaf_node, binary_node, root, In}

-- The calls between the two graphs changed these nodes only, and asked these leaves.
pub record Within (S : ℕ → Type 0) (asks : List (ℕ × RequestState)) (g g' : DecisionGraph)
    : Type 0 where
  pub off : (j : ℕ) → ¬ S j → g'.nodes j ≡ g.nodes j
  pub asked : g'.asked ≡ g.asked ++ asks
  pub counted : g'.finished_leaf_nodes ≡ g.finished_leaf_nodes

pub Within-seq :
    {S : ℕ → Type 0} {xs ys : List (ℕ × RequestState)} {g g' g'' : DecisionGraph}
    → Within S xs g g'
    → Within S ys g' g''
    → Within S (xs ++ ys) g g''
Within-seq {xs} {ys} {g} v w = record {
  off = λ j out. w.off j out ∙ v.off j out;
  asked = w.asked ∙ rw v.asked (append_assoc g.asked xs ys);
  counted = w.counted ∙ v.counted;
}

pub Within-end :
    {S : ℕ → Type 0} {xs : List (ℕ × RequestState)} {g g' g'' : DecisionGraph}
    → Within S xs g g'
    → Within S [] g' g''
    → Within S xs g g''
Within-end {g' = g'} v w = record {
  off = λ j out. w.off j out ∙ v.off j out;
  asked = w.asked ∙ append-nil g'.asked ∙ v.asked;
  counted = w.counted ∙ v.counted;
}

pub Within-widen :
    {S T : ℕ → Type 0} {xs : List (ℕ × RequestState)} {g g' : DecisionGraph}
    → ((j : ℕ) → S j → T j)
    → Within S xs g g'
    → Within T xs g g'
Within-widen sub v = record {
  off = λ j out. v.off j (λ i. out (sub j i));
  asked = v.asked;
  counted = v.counted;
}

pub update-same : (f : ℕ → DecisionNode) (i : ℕ) (n : DecisionNode) → update f i n i ≡ n
update-same f i n = ground arith

pub update-other :
    (f : ℕ → DecisionNode) (i j : ℕ) (n : DecisionNode) → j ≢ i → update f i n j ≡ f j
update-other f i j n ne = ground arith

pub Within-put :
    (g : DecisionGraph) (i : ℕ) (p : DecisionNode × List Call)
    → Within (λ j. j ≡ i) [] g (put g i p).0
Within-put g i p = record {
  off = λ j ne. update-other g.nodes i j p.0 ne;
  asked = sym (append-nil g.asked);
  counted = refl;
}

pub Within-ask :
    (S : ℕ → Type 0) (g : DecisionGraph) (a : ℕ × RequestState)
    → Within S (a ∷ []) g (record g { asked = g.asked ++ a ∷ [] })
Within-ask S g a = record { off = λ j out. refl; asked = refl; counted = refl }

-- A node as its constructor makes it, with its requestors.
abbrev pub fresh : Kind → List Requestor → DecisionNode
fresh k rs = record (new_node k) { requestors = rs }

-- The nodes of the tree have heard of nothing yet; the root has these requestors, and each other
-- node the one above it.
abbrev pub Fresh : Tree → List Requestor → DecisionGraph → Type 0
Fresh (leaf_node i) rs g = g.nodes i ≡ fresh leaf rs
Fresh (binary_node i op l r) rs g =
    (g.nodes i ≡ fresh (binary op (root l) (root r)) rs)
    × Fresh l (node i ∷ []) g
    × Fresh r (node i ∷ []) g

pub Fresh-frame :
    (t : Tree) (rs : List Requestor) (g g' : DecisionGraph)
    → ((j : ℕ) → In j t → g'.nodes j ≡ g.nodes j)
    → Fresh t rs g
    → Fresh t rs g'
Fresh-frame (leaf_node i) rs g g' same h = same i refl ∙ h
Fresh-frame (binary_node i op l r) rs g g' same (h, hl, hr) = (
  same i (inl refl) ∙ h,
  Fresh-frame l _ g g' (λ j k. same j (inr (inl k))) hl,
  Fresh-frame r _ g g' (λ j k. same j (inr (inr k))) hr,
)

pub root-In : (t : Tree) → In (root t) t
root-In (leaf_node i) = refl
root-In (binary_node i op l r) = inl refl

pub at_root : (j : ℕ) (t : Tree) → j ≡ root t → In j t
at_root j t e = subst (λ k. In k t) (sym e) (root-In t)
