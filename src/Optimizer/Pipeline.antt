-- ===== src/Optimizer/Pipeline.antt =====
-- The composition of the passes, and the store that is built from what they give
-- (src/optimizer/mod.rs, `finalize` of src/optimizer/incremental.rs, src/store.rs).
pub mod Keys
pub mod Sound
pub mod Stores
use graphed_core_mvp.Base.{
  ℕ, Bool, true, false, List, [], ◌∷◌, ◌++◌, map, none, some, length, if◌then◌else◌, Result, ok,
  err,
}
use graphed_core_mvp.Text.{Text, text_eq}
use graphed_core_mvp.Node
use graphed_core_mvp.Node.{NodeKey, NodeId, inputs, with_inputs, is_boundary}
use graphed_core_mvp.Store.{Inner, empty, add_key, mark_output, first_bad, bad_node_id}
use graphed_core_mvp.Optimizer.{
  Halt, panic, EngineGraph, FusionMode, single_use, Reduced, ReductionReport, ◌>>=◌, index,
  traverse,
}
use graphed_core_mvp.Optimizer.Cse.{cse}
use graphed_core_mvp.Optimizer.Dce.{dead_code_elimination}
use graphed_core_mvp.Optimizer.Fusion.{Templates, stage_fusion}
use graphed_core_mvp.Optimizer.Incremental.{
  IncrementalReducer, Failure, bad_id, halted, final_outputs,
}

abbrev pub has_token : Text → Templates → Bool
has_token token [] = false
has_token token ((t, k) ∷ templates) = if text_eq t token then true else has_token token templates

-- `Result::expect`
abbrev pub or_panic {ℓ κ} : {E : Type ℓ} {A : Type κ} → Result E A → Result Halt A
or_panic (ok a) = ok a
or_panic (err e) = err panic

-- The first key of each token.
unfoldable pub add_templates : List NodeKey → Templates → Templates
add_templates [] templates = templates
add_templates (key ∷ keys) templates = add_templates keys (
    if has_token (Node.token key) templates
    then templates
    else templates ++ (Node.token key, key) ∷ [])

unfoldable pub to_engine_graph : List NodeKey → List ℕ → EngineGraph
unfolding is_boundary inputs
to_engine_graph keys outputs = record {
  nodes =
      map (λ k. record { token = Node.token k; boundary = is_boundary k; inputs = inputs k }) keys;
  outputs = outputs;
}

-- The engine is a function on graphs that may stop.
abbrev pub RewriteEngine : Type 0
RewriteEngine = EngineGraph → Result Halt EngineGraph

unfoldable pub reduce_with_mode :
    List NodeKey → List NodeId → RewriteEngine → FusionMode → Result Halt Reduced
unfolding dead_code_elimination add_templates to_engine_graph cse stage_fusion
reduce_with_mode nodes outputs engine mode = do
  (reachable_keys, reachable_outputs) ← dead_code_elimination nodes outputs
  canonical ← engine (to_engine_graph reachable_keys reachable_outputs)
  deduped ← cse canonical
  out ← stage_fusion deduped (add_templates reachable_keys []) mode
  ok (record out {
    report = record out.report {
      input_nodes = length nodes;
      reachable_nodes = length reachable_keys;
      canonical_nodes = length deduped.nodes;
    };
  })

-- `IncrementalReducer::finalize`
unfoldable pub finalize :
    IncrementalReducer → List NodeId → RewriteEngine → FusionMode → Result Failure Reduced
unfolding final_outputs reduce_with_mode
finalize r outputs engine mode = elim (final_outputs outputs r) [
  | err e ↦ err (bad_id e)
  | ok outs ↦ elim (reduce_with_mode r.canon_nodes outs engine mode) [
    | err h ↦ err (halted h)
    | ok red ↦ ok red
  ]
]

-- The nodes of the reduced form go into a new store; `map` has their ids.
unfoldable pub add_nodes : List NodeKey → List NodeId → Inner → Result Halt (List NodeId × Inner)
unfolding inputs with_inputs add_key
add_nodes [] ids g = ok (ids, g)
add_nodes (key ∷ keys) ids g = do
  remapped ← traverse (index ids) (inputs key)
  let added = add_key (with_inputs key remapped) g
  id ← or_panic added.1
  add_nodes keys (ids ++ id ∷ []) added.0

unfoldable pub mark_outputs : List NodeId → List NodeId → Inner → Result Halt Inner
unfolding mark_output
mark_outputs [] ids g = ok g
mark_outputs (o ∷ os) ids g = do
  id ← index ids o
  let marked = mark_output id g
  _done ← or_panic marked.1
  mark_outputs os ids marked.0

unfoldable pub from_reduced : Reduced → Result Halt (Inner × ReductionReport)
unfolding add_nodes mark_outputs
from_reduced red = do
  (ids, store) ← add_nodes red.nodes [] empty
  store' ← mark_outputs red.outputs ids store
  ok (store', red.report)

unfoldable pub reduce_with :
    Inner → RewriteEngine → FusionMode → Result Halt (Inner × ReductionReport)
unfolding reduce_with_mode from_reduced
reduce_with g engine mode = do
  red ← reduce_with_mode g.nodes g.outputs engine mode
  from_reduced red

unfoldable pub reduce : Inner → RewriteEngine → Result Halt (Inner × ReductionReport)
unfolding reduce_with
reduce g engine = reduce_with g engine single_use

unfoldable pub reduce_with_outputs :
    Inner → List NodeId → RewriteEngine → FusionMode → Result Failure (Inner × ReductionReport)
unfolding first_bad reduce_with_mode from_reduced
reduce_with_outputs g outputs engine mode = elim (first_bad (length g.nodes) outputs) [
  | some o ↦ err (bad_id (bad_node_id o))
  | none ↦ elim (reduce_with_mode g.nodes outputs engine mode >>= from_reduced) [
    | err h ↦ err (halted h)
    | ok r ↦ ok r
  ]
]

unfoldable pub reduce_incremental : Inner → RewriteEngine → Result Halt (Inner × ReductionReport)
unfolding reduce
reduce_incremental g engine = reduce g engine
