-- ===== src/Optimizer/Cse.antt =====
-- `cse`: nodes with the same token and the same inputs become one.
pub mod Sound
use graphed_core_mvp.Base.{
  ℕ, suc, List, [], ◌∷◌, ◌++◌, Option, none, some, length, set, replicate, list_eq, ◌==◌, ◌&&◌,
  if◌then◌else◌, Result, ok,
}
use graphed_core_mvp.Text.{Text, text_eq}
use graphed_core_mvp.Optimizer.{Halt, EngineNode, EngineGraph, ◌>>=◌, index, traverse}

-- `HashMap<(String, Vec<usize>), usize>`
abbrev pub Seen : Type 0
Seen = List ((Text × List ℕ) × ℕ)

unfoldable pub find_seen : Text → List ℕ → Seen → Option ℕ
find_seen token inputs [] = none
find_seen token inputs (((t, is), idx) ∷ seen) =
    if text_eq t token && list_eq ◌==◌ is inputs then some idx else find_seen token inputs seen

-- The nodes from the `i`-th on.
unfoldable pub cse_nodes :
    List EngineNode → ℕ → List ℕ → Seen → List EngineNode → Result Halt (List ℕ × List EngineNode)
unfolding find_seen
cse_nodes [] i remap seen nodes = ok (remap, nodes)
cse_nodes (node ∷ rest) i remap seen nodes = do
  inputs ← traverse (index remap) node.inputs
  elim (find_seen node.token inputs seen) [
    | some idx ↦ cse_nodes rest (suc i) (set remap i idx) seen nodes
    | none ↦
        let idx = length nodes in
        cse_nodes rest (suc i) (set remap i idx) (seen ++ ((node.token, inputs), idx) ∷ [])
          (nodes ++ record { token = node.token; boundary = node.boundary; inputs = inputs } ∷ [])
  ]

unfoldable pub cse : EngineGraph → Result Halt EngineGraph
unfolding cse_nodes
cse graph = do
  (remap, nodes) ← cse_nodes graph.nodes 0 (replicate (length graph.nodes) 0) [] []
  outputs ← traverse (index remap) graph.outputs
  ok (record { nodes = nodes; outputs = outputs })
