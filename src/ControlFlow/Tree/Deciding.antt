-- ===== src/ControlFlow/Tree/Deciding.antt =====
-- A tree that is asked decides what `evaluate` says.
use mathlib.Core.Path.{subst}
use unify_prototype.Common.{
  ℕ, ◌≡◌, ◌≢◌, inl, inr, refl, sym, ap, ◌∙◌, true, false, Bool-cases, List, [], ◌∷◌, ◌++◌, map,
  append-nil, if◌then◌else◌,
}
use unify_prototype.ControlFlow.Status.{
  ControlFlowStatus, RequestState, request_decision, no_request_coming, Operator,
  short_circuit_logic, full_decision_logic,
}
use unify_prototype.ControlFlow.Node.{
  Kind, leaf, binary, Requestor, node, DecisionNode, Call, request, make, send, decision_from,
  answering, new_node,
}
use unify_prototype.ControlFlow.Graph.{DecisionGraph, put}
use unify_prototype.ControlFlow.Tree.Defs.{
  hears, Running, serve, Tree, leaf_node, binary_node, root, In, Distinct, evaluate, needed,
  passed_over,
}
use unify_prototype.ControlFlow.Tree.Within.{
  Within, Within-seq, Within-end, Within-widen, Within-put, Within-ask, update-same, fresh, Fresh,
  Fresh-frame, root-In,
}
use unify_prototype.ControlFlow.Tree.Moves.{
  at, Leads, Leads-seq, quiet, serve-request, serve-make_leaf, serve-make_binary, serve-hear,
  serve-send, serve-answering,
}
use unify_prototype.ControlFlow.Tree.Idle.{Idle, Idle-append, Idle-frame}
use unify_prototype.ControlFlow.Tree.Phases.{
  settles, asked_node, heard_left, sent, ask_node, make_asked, hear_left, hear_right, send_one,
  send_leaf, answer_leaf, answering_leaf,
}

abbrev pub requests : List ℕ → List (ℕ × RequestState)
requests = map (λ i. (i, request_decision))

-- The calls that tell the parts passed over.
abbrev pub tells : List Tree → List Call
tells = map (λ u. request (root u) no_request_coming)

pub tells-append :
    (us vs : List Tree) (cs : List Call) → tells (us ++ vs) ++ cs ≡ tells us ++ (tells vs ++ cs)
tells-append [] vs cs = refl
tells-append (u ∷ us) vs cs =
    ap (λ c. request (root u) no_request_coming ∷ c) (tells-append us vs cs)

requests-append : (xs ys : List ℕ) → requests (xs ++ ys) ≡ requests xs ++ requests ys
requests-append [] ys = refl
requests-append (x ∷ xs) ys = ap (λ c. (x, request_decision) ∷ c) (requests-append xs ys)

module _ (answer : ℕ → ControlFlowStatus) where
  -- A tree that is asked comes to send its decision, with the calls to the parts passed over
  -- next on the stack.
  abbrev pub Decides :
      Tree → Requestor → DecisionGraph → List Call → List (ℕ × ControlFlowStatus) → Type 0
  Decides t r g cs h =
      (g' : DecisionGraph) × Leads answer (at g (request (root t) request_decision ∷ cs) h) (
        at g' (decision_from r (root t) (evaluate answer t) ∷ tells (passed_over answer t) ++ cs) h)
      × Within (λ j. In j t) (requests (needed answer t)) g g'
      × Idle (λ j. In j t) g' (passed_over answer t)

  leaf_answers :
      (i : ℕ) (r : Requestor) (g : DecisionGraph) (cs : List Call)
      (h : List (ℕ × ControlFlowStatus))
      → g.nodes i ≡ fresh leaf (r ∷ [])
      → Decides (leaf_node i) r g cs h
  unfolding evaluate needed passed_over new_node
  leaf_answers i r g cs h e =
      let g1 = (put g i (asked_node leaf r, [])).0 in
      let g2 : DecisionGraph = record g1 { asked = g1.asked ++ (i, request_decision) ∷ [] } in
      let first =
        quiet answer g (request i request_decision) cs h _ refl
          (serve-request answer g i _ request_decision e ∙ ap (put g i) (ask_node i leaf r)) in
      let second =
        quiet answer g1 (make i request_decision) cs h _ refl
          (serve-make_leaf answer g1 i _ (update-same g.nodes i _) refl) in
      let third = quiet answer g2 (answering i (answer i)) cs h _ refl (
        serve-answering answer g2 i _ (answer i) (update-same g.nodes i _)
        ∙ ap (put g2 i) (answer_leaf i r (answer i))) in
      let g3 = (put g2 i (answering_leaf r, [])).0 in
      let fourth = quiet answer g3 (send i (answer i)) cs h _ refl (
        serve-send answer g3 i _ (answer i) (update-same g2.nodes i _)
        ∙ ap (put g3 i) (send_leaf i r (answer i))) in
      (
        _,
        Leads-seq answer first (Leads-seq answer second (Leads-seq answer third fourth)),
        Within-seq (Within-put g i (asked_node leaf r, [])) (
            Within-seq (Within-ask (λ j. j ≡ i) g1 (i, request_decision)) (
              Within-seq (Within-put g2 i (answering_leaf r, []))
                (Within-put g3 i (sent (answering_leaf r), [])))),
        tt,
      )

  -- One call that changes one node.
  moves_to :
      (g : DecisionGraph) (i : ℕ) (n : DecisionNode) (c : Call) (more cs : List Call)
      (h : List (ℕ × ControlFlowStatus))
      → hears c ≡ []
      → serve answer g c ≡ put g i (n, more)
      → (g' : DecisionGraph) × Leads answer (at g (c ∷ cs) h) (at g' (more ++ cs) h)
        × (g'.nodes i ≡ n)
        × Within (λ j. j ≡ i) [] g g'
  moves_to g i n c more cs h none e = (
    (put g i (n, more)).0,
    quiet answer g c cs h _ none e,
    update-same g.nodes i n,
    Within-put g i (n, more),
  )

  -- The parts of a binary node, when the left one has decided and the node has heard of it.
  module _ (i : ℕ) (op : Operator) (a b : Tree) (r : Requestor) (start : Running) (cs : List Call)
      (h : List (ℕ × ControlFlowStatus)) where
    abbrev kind : Kind
    kind = binary op (root a) (root b)

    abbrev d : ControlFlowStatus
    d = evaluate answer a

    abbrev Rest : DecisionGraph → Type 0
    Rest g =
        (g' : DecisionGraph) × Leads answer start (
          at g'
            (decision_from r i (evaluate answer (binary_node i op a b))
                ∷ tells (passed_over answer (binary_node i op a b))
              ++ cs)
            h)
        × Within (λ j. In j (binary_node i op a b))
            (requests (needed answer (binary_node i op a b))) g g'
        × Idle (λ j. In j (binary_node i op a b)) g' (passed_over answer (binary_node i op a b))

    abbrev Inside : ℕ → Type 0
    Inside j = In j (binary_node i op a b)

    settled :
        (g g4 : DecisionGraph)
        → Distinct (binary_node i op a b)
        → settles op d ≡ true
        → g4.nodes i ≡ heard_left kind r d
        → Leads answer start (
            at g4
              (send i (short_circuit_logic op d)
                ∷ request (root b) no_request_coming
                ∷ (tells (passed_over answer a) ++ cs))
              h)
        → Within Inside (requests (needed answer a)) g g4
        → Idle (λ j. In j a) g4 (passed_over answer a)
        → Fresh b (node i ∷ []) g4
        → Rest g
    unfolding evaluate needed passed_over
    settled g g4 (na, nb, apart, da, db) q n4 l4 w idle eb =
        let s = short_circuit_logic op d in
        let (g5, l5, n5, w5) =
          moves_to g4 i _ (send i s) (decision_from r i s ∷ [])
            (request (root b) no_request_coming ∷ (tells (passed_over answer a) ++ cs)) h refl
            (serve-send answer g4 i _ s n4 ∙ ap (put g4 i) (send_one i kind r 1 d _ s)) in
        let idle5 =
          Idle-frame (λ j. In j a) g4 g5 _ (λ j ina. w5.off j (λ e. na (rw e at ina))) idle in
        let eb5 = Fresh-frame b _ g4 g5 (λ j inb. w5.off j (λ e. nb (rw e at inb))) eb in
        rw q (
          g5,
          Leads-seq answer l4 l5,
          rw append-nil (Within-end w (Within-widen (λ j e. inl e) w5)),
          Idle-append Inside (λ j. In j b) (λ j. In j a) g5 (b ∷ []) (passed_over answer a)
              (λ j inb ina. apart j ina inb) (λ j x. inr (inr x)) (λ j x. inr (inl x))
              (λ j x. x, db, (node i, eb5), tt, tt) idle5,
        )

    unsettled :
        (g g4 : DecisionGraph)
        → Distinct (binary_node i op a b)
        → settles op d ≡ false
        → g4.nodes i ≡ heard_left kind r d
        → Leads answer start
            (at g4 (request (root b) request_decision ∷ (tells (passed_over answer a) ++ cs)) h)
        → Within Inside (requests (needed answer a)) g g4
        → Idle (λ j. In j a) g4 (passed_over answer a)
        → Decides b (node i) g4 (tells (passed_over answer a) ++ cs) h
        → Rest g
    unfolding evaluate needed passed_over new_node
    unsettled g g4 (na, nb, apart, da, db) q n4 l4 w idle (g5, l5, w5, idle_b) =
        let e = evaluate answer b in
        let f = full_decision_logic op d e in
        let rest = tells (passed_over answer b) ++ (tells (passed_over answer a) ++ cs) in
        let n5 = w5.off i nb ∙ n4 in
        let ne : root b ≢ root a = λ e. apart (root b) (rw e (root-In a)) (root-In b) in
        let (g6, l6, n6, w6) =
          moves_to g5 i _ (decision_from (node i) (root b) e) (send i f ∷ []) rest h refl (
            serve-hear answer g5 i _ op (root a) (root b) (root b) e n5 refl
            ∙ ap (put g5 i) (hear_right op i (root a) (root b) kind r d e ne)) in
        let (g7, l7, n7, w7) =
          moves_to g6 i _ (send i f) (decision_from r i f ∷ []) rest h refl
            (serve-send answer g6 i _ f n6 ∙ ap (put g6 i) (send_one i kind r 2 d e f)) in
        let own = Within-seq w6 w7 in
        let idle_a =
          Idle-frame (λ j. In j a) g4 g7 _
            (λ j ina. own.off j (λ e. na (rw e at ina)) ∙ w5.off j (λ inb. apart j ina inb)) idle in
        let idle_b7 =
          Idle-frame (λ j. In j b) g5 g7 _ (λ j inb. own.off j (λ e. nb (rw e at inb))) idle_b in
        rw q (
          g7,
          subst (λ c. Leads answer start (at g7 (decision_from r i f ∷ c) h))
              (sym (tells-append (passed_over answer b) (passed_over answer a) cs))
              (Leads-seq answer l4 (Leads-seq answer l5 (Leads-seq answer l6 l7))),
          subst (λ xs. Within Inside xs g g7)
              (sym (requests-append (needed answer a) (needed answer b)))
              (Within-end (Within-seq w (Within-widen (λ j x. inr (inr x)) w5))
                (Within-widen (λ j e. inl e) own)),
          Idle-append Inside (λ j. In j b) (λ j. In j a) g7 (passed_over answer b)
              (passed_over answer a) (λ j inb ina. apart j ina inb) (λ j x. inr (inr x))
              (λ j x. inr (inl x)) idle_b7 idle_a,
        )

    finish :
        (g g4 : DecisionGraph)
        → Distinct (binary_node i op a b)
        → g4.nodes i ≡ heard_left kind r d
        → Leads answer start (
            at g4
              ((if settles op d
                  then send i (short_circuit_logic op d) ∷ request (root b) no_request_coming ∷ []
                  else request (root b) request_decision ∷ [])
                ++ (tells (passed_over answer a) ++ cs))
              h)
        → Within Inside (requests (needed answer a)) g g4
        → Idle (λ j. In j a) g4 (passed_over answer a)
        → Fresh b (node i ∷ []) g4
        → Decides b (node i) g4 (tells (passed_over answer a) ++ cs) h
        → Rest g
    finish g g4 dis n4 l w idle eb db = elim (Bool-cases (settles op d)) [
      | inl q ↦ settled g g4 dis q n4 (rw q at l) w idle eb
      | inr q ↦ unsettled g g4 dis q n4 (rw q at l) w idle db
    ]

  pub decides :
      (t : Tree) (r : Requestor) (g : DecisionGraph) (cs : List Call)
      (h : List (ℕ × ControlFlowStatus))
      → Fresh t (r ∷ []) g
      → Distinct t
      → Decides t r g cs h
  unfolding new_node
  decides (leaf_node i) r g cs h e d = leaf_answers i r g cs h e
  decides (binary_node i op a b) r g cs h (e, ea, eb) (na, nb, apart, da, db) =
      let k = binary op (root a) (root b) in
      let d = evaluate answer a in
      let start = at g (request i request_decision ∷ cs) h in
      let (g1, l1, n1, w1) =
        moves_to g i _ (request i request_decision) (make i request_decision ∷ []) cs h refl
          (serve-request answer g i _ request_decision e ∙ ap (put g i) (ask_node i k r)) in
      let (g2, l2, n2, w2) =
        moves_to g1 i _ (make i request_decision) (request (root a) request_decision ∷ []) cs h refl
          (serve-make_binary answer g1 i _ request_decision op (root a) (root b) n1 refl
            ∙ ap (put g1 i) (make_asked (root a) (root b) k r)) in
      let own = Within-seq w1 w2 in
      let ea2 = Fresh-frame a _ g g2 (λ j ina. own.off j (λ e. na (rw e at ina))) ea in
      let (g3, l3, w3, idle3) = decides a (node i) g2 cs h ea2 da in
      let rest = tells (passed_over answer a) ++ cs in
      let (g4, l4, n4, w4) =
        moves_to g3 i (heard_left k r d) (decision_from (node i) (root a) d) _ rest h refl (
          serve-hear answer g3 i _ op (root a) (root b) (root a) d (w3.off i na ∙ n2) refl
          ∙ ap (put g3 i) (hear_left op i (root a) (root b) k r d)) in
      let inside =
        Within-end
          (Within-seq (Within-widen (λ j x. inl x) own) (Within-widen (λ j x. inr (inl x)) w3))
          (Within-widen (λ j x. inl x) w4) in
      let idle4 =
        Idle-frame (λ j. In j a) g3 g4 _ (λ j ina. w4.off j (λ e. na (rw e at ina))) idle3 in
      let eb4 =
        Fresh-frame b _ g g4
          (λ j inb.
            w4.off j (λ e. nb (rw e at inb))
            ∙ w3.off j (λ ina. apart j ina inb)
            ∙ own.off j (λ e. nb (rw e at inb)))
          eb in
      let lead = Leads-seq answer l1 (Leads-seq answer l2 (Leads-seq answer l3 l4)) in
      finish i op a b r start cs h g g4 (na, nb, apart, da, db) n4 lead inside idle4 eb4
        (decides b (node i) g4 rest h eb4 db)
