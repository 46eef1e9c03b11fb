-- ===== src/ControlFlow/Tree/Building.antt =====
-- The constructors of the nodes make trees that are ready to be asked, so a start graph hears from each
-- of them what it decides.
use unify_prototype.Common.{
  ℕ, ◌≡◌, ◌≢◌, inl, inr, refl, sym, ap, ◌∙◌, List, [], ◌∷◌, ◌++◌, map, append_assoc, append-nil,
  All,
}
use unify_prototype.ControlFlow.Status.{Operator}
use unify_prototype.ControlFlow.Node.{
  Kind, leaf, binary, Requestor, start_graph, node, new_node, add_requestor_for_decision,
}
use unify_prototype.ControlFlow.Graph.{DecisionGraph, update, add_binary, add_leaf_node}
use unify_prototype.ControlFlow.Tree.Defs.{
  Tree, leaf_node, binary_node, root, In, Apart, Distinct, build, build_all,
}
use unify_prototype.ControlFlow.Tree.Within.{
  update-same, update-other, fresh, Fresh, Fresh-frame, root-In, at_root,
}
use unify_prototype.ControlFlow.Tree.Outcome.{Ready}

-- The root has got its requestor.
Fresh-requested :
    (t : Tree) (q : Requestor) (g g' : DecisionGraph)
    → Distinct t
    → g'.nodes (root t) ≡ add_requestor_for_decision (g.nodes (root t)) q
    → ((j : ℕ) → In j t → j ≢ root t → g'.nodes j ≡ g.nodes j)
    → Fresh t [] g
    → Fresh t (q ∷ []) g'
unfolding add_requestor_for_decision new_node
Fresh-requested (leaf_node i) q g g' d e off h = e ∙ ap (λ n. add_requestor_for_decision n q) h
Fresh-requested (binary_node i op l r) q g g' (nl, nr, apart, dl, dr) e off (h, hl, hr) = (
  e ∙ ap (λ n. add_requestor_for_decision n q) h,
  Fresh-frame l _ g g' (λ j k. off j (inr (inl k)) (λ e. nl (rw e at k))) hl,
  Fresh-frame r _ g g' (λ j k. off j (inr (inr k)) (λ e. nr (rw e at k))) hr,
)

-- What building leaves alone.
record Built (S : ℕ → Type 0) (g g' : DecisionGraph) : Type 0 where
  off : (j : ℕ) → ¬ S j → g'.nodes j ≡ g.nodes j
  asked : g'.asked ≡ g.asked
  counted : g'.finished_leaf_nodes ≡ g.finished_leaf_nodes
  listed : g'.leaf_nodes ≡ g.leaf_nodes

add_binary-off :
    (g : DecisionGraph) (i : ℕ) (op : Operator) (l r j : ℕ)
    → j ≢ i
    → j ≢ l
    → j ≢ r
    → (add_binary g i op l r).nodes j ≡ g.nodes j
unfolding add_binary
add_binary-off g i op l r j ni nl nr =
    let made = update g.nodes i (new_node (binary op l r)) in
    let heard = update made l (add_requestor_for_decision (made l) (node i)) in
    update-other heard r j (add_requestor_for_decision (heard r) (node i)) nr
    ∙ update-other made l j (add_requestor_for_decision (made l) (node i)) nl
    ∙ update-other g.nodes i j (new_node (binary op l r)) ni

module _ (g : DecisionGraph) (i : ℕ) (op : Operator) (l r : ℕ) (nl : l ≢ i) (nr : r ≢ i)
    (ne : l ≢ r) where
  add_binary-nodes :
      ((add_binary g i op l r).nodes i ≡ fresh (binary op l r) [])
      × ((add_binary g i op l r).nodes l ≡ add_requestor_for_decision (g.nodes l) (node i))
      × ((add_binary g i op l r).nodes r ≡ add_requestor_for_decision (g.nodes r) (node i))
  unfolding add_binary new_node
  add_binary-nodes =
      let made = update g.nodes i (new_node (binary op l r)) in
      let heard = update made l (add_requestor_for_decision (made l) (node i)) in
      let final_l = update-other heard r l (add_requestor_for_decision (heard r) (node i)) ne in
      let heard_r =
        update-other made l r (add_requestor_for_decision (made l) (node i)) (λ e. ne (sym e)) in
      (
        update-other heard r i _ (λ e. nr (sym e))
            ∙ update-other made l i _ (λ e. nl (sym e))
            ∙ update-same g.nodes i _,
        final_l
            ∙ update-same made l _
            ∙ ap (λ n. add_requestor_for_decision n (node i)) (update-other g.nodes i l _ nl),
        update-same heard r _
            ∙ ap (λ n. add_requestor_for_decision n (node i))
                (heard_r ∙ update-other g.nodes i r _ nr),
      )

build-Built : (t : Tree) (g : DecisionGraph) → Built (λ j. In j t) g (build t g)
unfolding build add_binary
build-Built (leaf_node i) g = record {
  off = λ j ne. update-other g.nodes i j _ ne;
  asked = refl;
  counted = refl;
  listed = refl;
}
build-Built (binary_node i op l r) g =
    let bl = build-Built l g in
    let br = build-Built r (build l g) in
    record {
      off = λ j out.
          add_binary-off (build r (build l g)) i op (root l) (root r) j (λ e. out (inl e))
            (λ e. out (inr (inl (at_root j l e)))) (λ e. out (inr (inr (at_root j r e))))
          ∙ br.off j (λ x. out (inr (inr x)))
          ∙ bl.off j (λ x. out (inr (inl x)));
      asked = br.asked ∙ bl.asked;
      counted = br.counted ∙ bl.counted;
      listed = br.listed ∙ bl.listed;
    }

new_fresh : (k : Kind) → new_node k ≡ fresh k []
unfolding new_node
new_fresh k = refl

build-Fresh : (t : Tree) (g : DecisionGraph) → Distinct t → Fresh t [] (build t g)
unfolding build
build-Fresh (leaf_node i) g d = update-same g.nodes i _ ∙ new_fresh leaf
build-Fresh (binary_node i op l r) g (nl, nr, apart, dl, dr) =
    let gl = build l g in
    let gr = build r gl in
    let g' = add_binary gr i op (root l) (root r) in
    let il : root l ≢ i = λ e. nl (rw (← e) (root-In l)) in
    let ir : root r ≢ i = λ e. nr (rw (← e) (root-In r)) in
    let ne : root l ≢ root r = λ e. apart (root l) (root-In l) (rw e (root-In r)) in
    let (ni, nl', nr') = add_binary-nodes gr i op (root l) (root r) il ir ne in
    let fl =
      Fresh-frame l [] gl gr (λ j k. (build-Built r gl).off j (apart j k)) (build-Fresh l g dl) in
    let fr = build-Fresh r gl dr in
    (
      ni,
      Fresh-requested l (node i) gr g' dl nl'
          (λ j k off.
            add_binary-off gr i op (root l) (root r) j (λ e. nl (rw e at k)) off
              (λ e. apart j k (at_root j r e)))
          fl,
      Fresh-requested r (node i) gr g' dr nr'
          (λ j k off.
            add_binary-off gr i op (root l) (root r) j (λ e. nr (rw e at k))
              (λ e. apart j (at_root j l e) k) off)
          fr,
    )

add_leaf_node-Fresh :
    (t : Tree) (g : DecisionGraph)
    → Distinct t
    → Fresh t (start_graph ∷ []) (add_leaf_node (build t g) (root t))
unfolding add_leaf_node
add_leaf_node-Fresh t g d =
    Fresh-requested t start_graph (build t g) _ d (update-same (build t g).nodes (root t) _)
      (λ j k off. update-other (build t g).nodes (root t) j _ off) (build-Fresh t g d)

-- The trees of a start graph have no node in common, within one or between two.
abbrev pub AllApart : List Tree → Type 0
AllApart [] = Unit
AllApart (t ∷ ts) = Distinct t × All (Apart t) ts × AllApart ts

All-outside :
    (j : ℕ) (t : Tree) (ts : List Tree) → In j t → All (Apart t) ts → All (λ u. ¬ In j u) ts
All-outside j t [] i h = tt
All-outside j t (u ∷ ts) i (a, h) = (λ k. a j i k, All-outside j t ts i h)

build_all-off :
    (ts : List Tree) (g : DecisionGraph) (j : ℕ)
    → All (λ u. ¬ In j u) ts
    → (build_all ts g).nodes j ≡ g.nodes j
unfolding build_all add_leaf_node
build_all-off [] g j h = refl
build_all-off (t ∷ ts) g j (out, h) =
    build_all-off ts _ j h
    ∙ update-other (build t g).nodes (root t) j _ (λ e. out (at_root j t e))
    ∙ (build-Built t g).off j out

pub build_all-Ready : (ts : List Tree) (g : DecisionGraph) → AllApart ts → Ready (build_all ts g) ts
unfolding build_all
build_all-Ready [] g h = tt
build_all-Ready (t ∷ ts) g (d, a, h) =
    let g1 = add_leaf_node (build t g) (root t) in
    (
      Fresh-frame t _ g1 (build_all ts g1) (λ j i. build_all-off ts g1 j (All-outside j t ts i a))
          (add_leaf_node-Fresh t g d),
      d,
      a,
      build_all-Ready ts g1 h,
    )

pub build_all-kept :
    (ts : List Tree) (g : DecisionGraph)
    → ((build_all ts g).leaf_nodes ≡ g.leaf_nodes ++ map root ts)
      × ((build_all ts g).asked ≡ g.asked)
      × ((build_all ts g).finished_leaf_nodes ≡ g.finished_leaf_nodes)
unfolding build_all add_leaf_node
build_all-kept [] g = (sym (append-nil g.leaf_nodes), refl, refl)
build_all-kept (t ∷ ts) g =
    let b = build-Built t g in
    let (l, a, f) = build_all-kept ts (add_leaf_node (build t g) (root t)) in
    (
      l ∙ rw b.listed (append_assoc g.leaf_nodes (root t ∷ []) (map root ts)),
      a ∙ b.asked,
      f ∙ b.counted,
    )
