-- ===== src/ControlFlow/Tree/Idle.antt =====
-- The parts of a tree that a decision has passed over: apart from each other, and not asked yet.
use unify_prototype.Common.{ℕ, ◌≡◌, List, [], ◌∷◌, ◌++◌, All, All-append}
use unify_prototype.ControlFlow.Node.{Requestor}
use unify_prototype.ControlFlow.Graph.{DecisionGraph}
use unify_prototype.ControlFlow.Tree.Defs.{Tree, In, Apart, Distinct}
use unify_prototype.ControlFlow.Tree.Within.{Fresh, Fresh-frame}

abbrev pub Idle : (ℕ → Type 0) → DecisionGraph → List Tree → Type 0
Idle S g [] = Unit
Idle S g (u ∷ us) =
    ((j : ℕ) → In j u → S j)
    × Distinct u
    × ((r : Requestor) × Fresh u (r ∷ []) g)
    × All (Apart u) us
    × Idle S g us

Idle-Apart :
    (T : ℕ → Type 0) (g : DecisionGraph) (u : Tree) (us : List Tree)
    → ((j : ℕ) → In j u → T j → ⊥)
    → Idle T g us
    → All (Apart u) us
Idle-Apart T g u [] off h = tt
Idle-Apart T g u (v ∷ us) off (sub, d, f, a, h) =
    (λ j inu inv. off j inu (sub j inv), Idle-Apart T g u us off h)

pub Idle-append :
    (S T U : ℕ → Type 0) (g : DecisionGraph) (us vs : List Tree)
    → ((j : ℕ) → T j → U j → ⊥)
    → ((j : ℕ) → T j → S j)
    → ((j : ℕ) → U j → S j)
    → Idle T g us
    → Idle U g vs
    → Idle S g (us ++ vs)
Idle-append S T U g [] [] off st su h k = tt
Idle-append S T U g [] (v ∷ vs) off st su h (sub, d, f, a, k) =
    (λ j i. su j (sub j i), d, f, a, Idle-append S T U g [] vs off st su tt k)
Idle-append S T U g (u ∷ us) vs off st su (sub, d, f, a, h) k = (
  λ j i. st j (sub j i),
  d,
  f,
  All-append (Apart u) us vs a (Idle-Apart U g u vs (λ j i. off j (sub j i)) k),
  Idle-append S T U g us vs off st su h k,
)

pub Idle-frame :
    (S : ℕ → Type 0) (g g' : DecisionGraph) (us : List Tree)
    → ((j : ℕ) → S j → g'.nodes j ≡ g.nodes j)
    → Idle S g us
    → Idle S g' us
Idle-frame S g g' [] same h = tt
Idle-frame S g g' (u ∷ us) same (sub, d, (r, f), a, h) =
    (sub, d, (r, Fresh-frame u _ g g' (λ j i. same j (sub j i)) f), a, Idle-frame S g g' us same h)
