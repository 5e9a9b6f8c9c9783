-- ===== src/Optimizer/Graphs.antt =====
-- What an `EngineGraph` computes, by a parameter for what the operator of a token does.
use graphed_core_mvp.Base.{[], ℕ, Bool, List, length, ◌<◌, ◌≤◌, ◌≡◌, All, Result, ok}
use graphed_core_mvp.Text.{Text}
use graphed_core_mvp.Optimizer.{Halt, EngineNode, EngineGraph}
use graphed_core_mvp.Optimizer.Values
use graphed_core_mvp.Optimizer.Values.{at_all}

abbrev pub node_inputs : EngineNode → List ℕ
node_inputs n = n.inputs

-- A graph whose nodes refer to earlier ones only and have tokens, flags and numbers of inputs as `P` wants,
-- and whose outputs are nodes.
pub record IsGraph (P : Text → Bool → ℕ → Type 0) (g : EngineGraph) : Type 0 where
  pub ordered : Values.IsOrdered node_inputs g.nodes
  pub flags : All (λ (n : EngineNode). P n.token n.boundary (length n.inputs)) g.nodes
  pub in_range : All (λ o. o < length g.nodes) g.outputs

module _ {ℓ} {A : Type ℓ} (tokens : Text → List A → A) (d : A) where
  -- The values of the nodes.
  abbrev pub node_values : List EngineNode → List A
  node_values nodes = Values.run node_inputs (λ n. tokens n.token) d [] nodes

  -- The values of the outputs.
  abbrev pub graph_values : EngineGraph → List A
  graph_values g = at_all (node_values g.nodes) d g.outputs

  -- A pass ends with a graph that has no more nodes, and whose outputs have the same values.
  abbrev pub KeepsValues :
      (Text → Bool → ℕ → Type 0) → EngineGraph → Result Halt EngineGraph → Type ℓ
  KeepsValues P g r =
      (g' : EngineGraph) × (r ≡ ok g')
      × IsGraph P g'
      × (length g'.nodes ≤ length g.nodes)
      × (graph_values g' ≡ graph_values g)
