-- ===== src/Optimizer/Fusion/Outputs.antt =====
-- `stage_fusion` keeps the values of the outputs.
use graphed_core_mvp.Base.{
  arith, Bool, ℕ, ◌+◌, ◌<◌, ◌≤◌, ◌≡◌, refl, true, false, List, [], length, replicate, All, All-imp,
  get_elem?-some, Result, ok, map,
}
use graphed_core_mvp.Text.{Text}
use graphed_core_mvp.Optimizer.{
  Halt, EngineNode, EngineGraph, FusionMode, single_use, maximal, maximal, Reduced, ◌>>=◌,
}
use graphed_core_mvp.Optimizer.Values
use graphed_core_mvp.Optimizer.Values.{at_all}
use graphed_core_mvp.Optimizer.Meaning.{IsOrdered}
use graphed_core_mvp.Optimizer.Graphs.{node_inputs, graph_values}
use graphed_core_mvp.Optimizer.Stages.{consumers_of, output_marks, components}
use graphed_core_mvp.Optimizer.Stages.Consumers.{consumers_of-AreConsumers, output_marks-AreMarks}
use graphed_core_mvp.Optimizer.Fusion.{Templates, nothing_built, stage_fusion}
use graphed_core_mvp.Optimizer.Fusion.Semantics.{AreComponents, Semantics, HasKey}
use graphed_core_mvp.Optimizer.Fusion.Build.{key_values, place, AreBuilt, IsPlaced, places-End}
use graphed_core_mvp.Optimizer.Fusion.Loop.{IsReady, values, contains-All}
use graphed_core_mvp.Optimizer.Fusion.Sound.{build_all-Ends}
use graphed_core_mvp.Optimizer.Fusion.Unite.{comp_single_use-AreComponents}
use graphed_core_mvp.Optimizer.Fusion.Maximal.{AreTables, comp_maximal-AreComponents}

module _ {ℓ} {A : Type ℓ} (s : Semantics A) (templates : Templates) where
  -- What `stage_fusion` wants of a token, a flag and a number of inputs: a boundary has a template.
  abbrev pub IsCovered : Text → Bool → ℕ → Type ℓ
  IsCovered t boundary arity = boundary ≡ true → HasKey s templates t arity

  -- A reduction ends with an arena in order, whose outputs are in it and have the values of the
  -- graph's. It has no more nodes than the graph, and counts them.
  pub record IsFused (graph : EngineGraph) (r : Result Halt Reduced) : Type ℓ where
    pub reduced : Reduced
    pub ends : r ≡ ok reduced
    pub ordered : IsOrdered reduced.nodes
    pub in_range : All (λ o. o < length reduced.nodes) reduced.outputs
    pub kept :
        at_all (key_values s reduced.nodes) s.default reduced.outputs
        ≡ graph_values s.tokens s.default graph
    pub counted : reduced.report.stages + reduced.report.boundary_nodes ≡ length reduced.nodes
    pub few : length reduced.nodes ≤ length graph.nodes

  -- Whatever partition `components` gives, if it may be fused.
  components-IsFused :
      (graph : EngineGraph) (mode : FusionMode) (consumers : List (List ℕ)) (is_output : List Bool)
      (comp : List ℕ)
      → IsReady s graph templates comp
      → All (λ o. o < length graph.nodes) graph.outputs
      → consumers_of 0 graph.nodes (replicate (length graph.nodes) []) ≡ ok consumers
      → output_marks graph.outputs (replicate (length graph.nodes) false) ≡ ok is_output
      → components mode graph.nodes consumers is_output ≡ ok comp
      → IsFused graph (stage_fusion graph templates mode)
  unfolding stage_fusion
  components-IsFused graph mode consumers is_output comp h outs e1 e2 e3 =
      let vs = values s graph templates comp in
      let start : AreBuilt s vs comp 0 nothing_built = record {
        done = λ j c lt. absurd (omega arith);
        entries = tt;
        ordered = tt;
        counted = omega arith;
        few = omega arith;
      } in
      let (b, ends, built) =
        build_all-Ends s graph templates comp [] comp nothing_built h start refl in
      let placed : All (IsPlaced s vs comp b.reduced b.comp_to_reduced) graph.outputs =
        All-imp graph.outputs
          (λ o p.
            (let (c, e) = get_elem?-some comp o (rw h.parts.sized p.1) in
              (c, e, built.done o c (rw h.parts.sized p.1) e (h.parts.returned o p.0))))
          (contains-All (λ o. o < length graph.nodes) graph.outputs outs) in
      let ins = places-End s vs comp b.reduced b.comp_to_reduced graph.outputs placed in
      record {
        reduced = record {
          nodes = b.reduced;
          outputs = map (place s vs comp b.comp_to_reduced) graph.outputs;
          report = record {
            input_nodes = 0;
            reachable_nodes = 0;
            canonical_nodes = 0;
            stages = b.stages;
            reduced_nodes = length b.reduced;
            boundary_nodes = b.boundary_nodes;
          };
        };
        ends = rw (e1, ◌>>=◌, e2, ◌>>=◌, e3, ◌>>=◌, ends, ◌>>=◌, ins.found, stage_fusion) refl;
        ordered = built.ordered;
        in_range = ins.scoped;
        kept = ins.valued;
        counted = built.counted;
        few = (let f = built.few in omega (arith, h.parts.sized));
      }

  components-End :
      (graph : EngineGraph) (mode : FusionMode) (consumers : List (List ℕ)) (is_output : List Bool)
      → AreTables graph.nodes consumers is_output graph.outputs
      → (comp : List ℕ) × (components mode graph.nodes consumers is_output ≡ ok comp)
        × AreComponents graph.nodes graph.outputs comp
  unfolding components
  components-End graph single_use consumers is_output h =
      comp_single_use-AreComponents graph.nodes consumers is_output graph.outputs h
  components-End graph maximal consumers is_output h =
      comp_maximal-AreComponents graph.nodes consumers is_output graph.outputs h

  -- In both modes, on a graph whose nodes refer to earlier ones only, whose outputs are nodes and
  -- whose boundaries have templates, `stage_fusion` ends: the reduced nodes refer to earlier ones
  -- only, the outputs are among them and have the values of the graph's outputs for any semantics that runs a stage by
  -- its members, and each reduced node is counted as a stage or as a boundary. There are no more of them than the
  -- graph has nodes.
  pub stage_fusion-IsFused :
      (graph : EngineGraph) (mode : FusionMode)
      → Values.IsOrdered node_inputs graph.nodes
      → All (λ o. o < length graph.nodes) graph.outputs
      → All (λ (n : EngineNode). IsCovered n.token n.boundary (length n.inputs)) graph.nodes
      → IsFused graph (stage_fusion graph templates mode)
  stage_fusion-IsFused graph mode ordered outs keys =
      let (consumers, e1, rows) = consumers_of-AreConsumers graph.nodes ordered in
      let (is_output, e2, marks) = output_marks-AreMarks (length graph.nodes) graph.outputs outs in
      let (comp, e3, parts) =
        components-End graph mode consumers is_output
          (record { ordered = ordered; consumers = rows; outs = marks }) in
      components-IsFused graph mode consumers is_output comp
        (record { ordered = ordered; parts = parts; keys = keys }) outs e1 e2 e3
