-- ===== src/Optimizer/Fusion.antt =====
-- `stage_fusion`: the components of a graph become its nodes.
pub mod Semantics
pub mod Places
pub mod Members
pub mod Build
pub mod Loop
pub mod Sound
pub mod Maximal
pub mod SingleUse
pub mod Unite
pub mod Outputs
use graphed_core_mvp.Base.{
  ℕ, suc, true, false, List, [], ◌∷◌, ◌++◌, none, some, length, replicate, if◌then◌else◌, Result,
  ok, err,
}
use graphed_core_mvp.Text.{Text, text_eq}
use graphed_core_mvp.Node.{NodeKey, NodeId, StageOp, StageRef, input, member, stage, with_inputs}
use graphed_core_mvp.Optimizer.{
  Halt, panic, EngineNode, EngineGraph, FusionMode, Reduced, ◌>>=◌, index, traverse,
}
use graphed_core_mvp.Optimizer.Engine.{lookup, entry}
use graphed_core_mvp.Optimizer.Stages.{consumers_of, output_marks, components, members_of, heads}

-- `templates`, with the token of each key.
abbrev pub Templates : Type 0
Templates = List (Text × NodeKey)

abbrev pub template : Templates → Text → Result Halt NodeKey
template [] token = err panic
template ((t, k) ∷ templates) token = if text_eq t token then ok k else template templates token

-- What the loop over the components has built.
pub record Built : Type 0 where
  pub reduced : List NodeKey
  pub comp_to_reduced : List (ℕ × ℕ)
  pub stages : ℕ
  pub boundary_nodes : ℕ

-- `comp_to_reduced[&comp_id[i]]`
abbrev pub reduced_index : List ℕ → List (ℕ × ℕ) → ℕ → Result Halt NodeId
reduced_index comp_id comp_to_reduced i = do c ← index comp_id i; entry comp_to_reduced c

-- The elements of a list with their places, counted from `i`: `local` of the members of a stage,
-- and `slot_of` of its slots.
abbrev pub enumerate_from : ℕ → List ℕ → List (ℕ × ℕ)
enumerate_from i [] = []
enumerate_from i (y ∷ ys) = (y, i) ∷ enumerate_from (suc i) ys

-- A reference of a member, and the slots of the stage with what it adds.
abbrev pub stage_ref : List ℕ → List (ℕ × ℕ) → List ℕ → ℕ → Result Halt (StageRef × List ℕ)
stage_ref comp_id local slots inp = elim (lookup inp local) [
  | some k ↦ ok (member k, slots)
  | none ↦
      (index comp_id inp >>= λ c. elim (lookup c (enumerate_from 0 slots)) [
        | some slot ↦ ok (input slot, slots)
        | none ↦ ok (input (length slots), slots ++ c ∷ [])
      ])
]

abbrev pub stage_refs :
    List ℕ → List (ℕ × ℕ) → List ℕ → List ℕ → Result Halt (List StageRef × List ℕ)
stage_refs comp_id local slots [] = ok ([], slots)
stage_refs comp_id local slots (inp ∷ inputs) = do
  (ref, slots1) ← stage_ref comp_id local slots inp
  (refs, slots2) ← stage_refs comp_id local slots1 inputs
  ok (ref ∷ refs, slots2)

unfoldable pub stage_ops :
    List EngineNode → List ℕ → List (ℕ × ℕ) → List ℕ → List ℕ → Result Halt (List StageOp × List ℕ)
stage_ops nodes comp_id local slots [] = ok ([], slots)
stage_ops nodes comp_id local slots (op ∷ ops) = do
  node ← index nodes op
  (refs, slots1) ← stage_refs comp_id local slots node.inputs
  (members, slots2) ← stage_ops nodes comp_id local slots1 ops
  ok (record { token = node.token; inputs = refs } ∷ members, slots2)

-- One component.
unfoldable pub build_comp : EngineGraph → Templates → List ℕ → ℕ → Built → Result Halt Built
unfolding stage_ops
build_comp graph templates comp_id comp b = do
  head ← index graph.nodes comp
  elim head.boundary [
    | true ↦
        (traverse (reduced_index comp_id b.comp_to_reduced) head.inputs >>= λ ins.
        template templates head.token >>= λ key. ok (record {
          reduced = b.reduced ++ with_inputs key ins ∷ [];
          comp_to_reduced = b.comp_to_reduced ++ (comp, length b.reduced) ∷ [];
          stages = b.stages;
          boundary_nodes = suc b.boundary_nodes;
        }))
    | false ↦
        (let ops = members_of comp 0 comp_id in
          stage_ops graph.nodes comp_id (enumerate_from 0 ops) [] ops >>= λ (members, slots).
          traverse (entry b.comp_to_reduced) slots >>= λ ins. ok (record {
            reduced = b.reduced ++ stage ins members ∷ [];
            comp_to_reduced = b.comp_to_reduced ++ (comp, length b.reduced) ∷ [];
            stages = suc b.stages;
            boundary_nodes = b.boundary_nodes;
          }))
  ]

unfoldable pub build_all : EngineGraph → Templates → List ℕ → List ℕ → Built → Result Halt Built
unfolding build_comp
build_all graph templates comp_id [] b = ok b
build_all graph templates comp_id (comp ∷ comps) b = do
  b' ← build_comp graph templates comp_id comp b
  build_all graph templates comp_id comps b'

abbrev pub nothing_built : Built
nothing_built = record { reduced = []; comp_to_reduced = []; stages = 0; boundary_nodes = 0 }

unfoldable pub stage_fusion : EngineGraph → Templates → FusionMode → Result Halt Reduced
unfolding consumers_of output_marks components heads build_all
stage_fusion graph templates mode = do
  consumers ← consumers_of 0 graph.nodes (replicate (length graph.nodes) [])
  is_output ← output_marks graph.outputs (replicate (length graph.nodes) false)
  comp_id ← components mode graph.nodes consumers is_output
  b ← build_all graph templates comp_id (heads comp_id) nothing_built
  outputs ← traverse (reduced_index comp_id b.comp_to_reduced) graph.outputs
  ok (record {
    nodes = b.reduced;
    outputs = outputs;
    report = record {
      input_nodes = 0;
      reachable_nodes = 0;
      canonical_nodes = 0;
      stages = b.stages;
      reduced_nodes = length b.reduced;
      boundary_nodes = b.boundary_nodes;
    };
  })
