-- ===== src/ControlFlow/Tree/Answers.antt =====
-- What a start graph hears of the trees that were built for it.
use unify_prototype.Common.{[]}
use unify_prototype.ControlFlow.Node.{leaf, new_node}
use unify_prototype.ControlFlow.Graph.{DecisionGraph}
use unify_prototype.ControlFlow.Tree.Defs.{Tree}

-- Before any constructor has run.
abbrev pub no_nodes : DecisionGraph
no_nodes = record {
  nodes = λ i. new_node leaf;
  leaf_nodes = [];
  finished_leaf_nodes = 0;
  asked = [];
}
