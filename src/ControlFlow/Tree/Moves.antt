-- ===== src/ControlFlow/Tree/Moves.antt =====
-- A run by its calls: what each call of a tree does, and what follows it on the stack.
use unify_prototype.Common.{ℕ, suc, ◌≡◌, refl, ap, ◌∙◌, List, [], ◌∷◌, ◌++◌, append-nil}
use unify_prototype.ControlFlow.Status.{
  ControlFlowStatus, RequestState, request_decision, no_request_coming, Operator,
}
use unify_prototype.ControlFlow.Node.{
  leaf, binary, node, DecisionNode, Call, request, make, send, decision_from,
  request_decision_async, make_binary, decision_from_node_async, send_decision_to_requestors_async,
  answering, run_answer,
}
use unify_prototype.ControlFlow.Graph.{DecisionGraph, put, make_decision_async, hear, handle}
use unify_prototype.ControlFlow.Tree.Defs.{Running, hears, serve_make, serve, step, steps}

abbrev pub at : DecisionGraph → List Call → List (ℕ × ControlFlowStatus) → Running
at g cs h = record { graph = g; calls = cs; heard = h }

module _ (answer : ℕ → ControlFlowStatus) where
  -- The one run leads to the other.
  pub data Leads : Running → Running → Type 0 where
    here : {s : Running} → Leads s s
    next : {s t : Running} → Leads (step answer s) t → Leads s t

  pub Leads-seq : {s t u : Running} → Leads s t → Leads t u → Leads s u
  Leads-seq here m = m
  Leads-seq (next l) m = next (Leads-seq l m)

  pub Leads-steps : {s t : Running} → Leads s t → (n : ℕ) × (steps answer n s ≡ t)
  unfolding steps
  Leads-steps here = (0, refl)
  Leads-steps (next l) = let (n, e) = Leads-steps l in (suc n, e)

  -- One call, by what it does.
  pub one :
      (g : DecisionGraph) (c : Call) (cs : List Call) (h : List (ℕ × ControlFlowStatus))
      (p : DecisionGraph × List Call)
      → serve answer g c ≡ p
      → Leads (at g (c ∷ cs) h) (at p.0 (p.1 ++ cs) (h ++ hears c))
  unfolding step
  one g c cs h p e = next (rw e here)

  -- One that the start graph does not hear.
  pub quiet :
      (g : DecisionGraph) (c : Call) (cs : List Call) (h : List (ℕ × ControlFlowStatus))
      (p : DecisionGraph × List Call)
      → hears c ≡ []
      → serve answer g c ≡ p
      → Leads (at g (c ∷ cs) h) (at p.0 (p.1 ++ cs) h)
  unfolding step
  quiet g c cs h p none e = next (rw (e, none, append-nil) here)

  pub serve-request :
      (g : DecisionGraph) (i : ℕ) (n : DecisionNode) (state : RequestState)
      → g.nodes i ≡ n
      → serve answer g (request i state) ≡ put g i (request_decision_async i n state)
  unfolding serve handle
  serve-request g i n state e = rw e refl

  pub serve-make_leaf :
      (g : DecisionGraph) (i : ℕ) (n : DecisionNode)
      → g.nodes i ≡ n
      → n.kind ≡ leaf
      → serve answer g (make i request_decision)
        ≡ (record g { asked = g.asked ++ (i, request_decision) ∷ [] }, answering i (answer i) ∷ [])
  unfolding serve serve_make handle make_decision_async
  serve-make_leaf g i n e k =
      let kind : (g.nodes i).kind ≡ leaf = ap (λ m. m.kind) e ∙ k in
      ap (serve_make answer g i) kind
      ∙ ap (λ m. ((make_decision_async g i m request_decision).0, answering i (answer i) ∷ [])) kind

  pub serve-make_leaf_none :
      (g : DecisionGraph) (i : ℕ) (n : DecisionNode)
      → g.nodes i ≡ n
      → n.kind ≡ leaf
      → serve answer g (make i no_request_coming)
        ≡ (record g { asked = g.asked ++ (i, no_request_coming) ∷ [] }, [])
  unfolding serve handle make_decision_async
  serve-make_leaf_none g i n e k =
      ap (λ m. make_decision_async g i m no_request_coming) (ap (λ m. m.kind) e ∙ k)

  pub serve-make_binary :
      (g : DecisionGraph) (i : ℕ) (n : DecisionNode) (state : RequestState) (op : Operator)
      (l r : ℕ)
      → g.nodes i ≡ n
      → n.kind ≡ binary op l r
      → serve answer g (make i state) ≡ put g i (make_binary l r n state)
  unfolding serve serve_make handle make_decision_async
  serve-make_binary g i n request_decision op l r e k =
      let kind : (g.nodes i).kind ≡ binary op l r = ap (λ m. m.kind) e ∙ k in
      ap (serve_make answer g i) kind
      ∙ ap (λ m. make_decision_async g i m request_decision) kind
      ∙ ap (λ m. put g i (make_binary l r m request_decision)) e
  serve-make_binary g i n no_request_coming op l r e k =
      ap (λ m. make_decision_async g i m no_request_coming) (ap (λ m. m.kind) e ∙ k)
      ∙ ap (λ m. put g i (make_binary l r m no_request_coming)) e

  pub serve-answering :
      (g : DecisionGraph) (i : ℕ) (n : DecisionNode) (d : ControlFlowStatus)
      → g.nodes i ≡ n
      → serve answer g (answering i d) ≡ put g i (run_answer i n d)
  unfolding serve handle
  serve-answering g i n d e = rw e refl

  pub serve-send :
      (g : DecisionGraph) (i : ℕ) (n : DecisionNode) (d : ControlFlowStatus)
      → g.nodes i ≡ n
      → serve answer g (send i d) ≡ put g i (send_decision_to_requestors_async i n d)
  unfolding serve handle
  serve-send g i n d e = rw e refl

  pub serve-hear :
      (g : DecisionGraph) (i : ℕ) (n : DecisionNode) (op : Operator) (l r from : ℕ)
      (d : ControlFlowStatus)
      → g.nodes i ≡ n
      → n.kind ≡ binary op l r
      → serve answer g (decision_from (node i) from d)
        ≡ put g i (decision_from_node_async op i l r n from d)
  unfolding serve handle hear
  serve-hear g i n op l r from d e k =
      ap (λ m. hear g i m from d) (ap (λ m. m.kind) e ∙ k)
      ∙ ap (λ m. put g i (decision_from_node_async op i l r m from d)) e
