-- ===== src/Optimizer/Pipeline/Sound.antt =====
-- `reduce_with_mode` ends, and changes no output.
use graphed_core_mvp.Base.{
  ap, ◌∙◌, ℕ, ◌+◌, ◌<◌, ◌≤◌, ◌≡◌, refl, sym, List, [], ◌∷◌, ◌++◌, map, arith, length, length-append,
  length-map, append_assoc, get_elem?, get_elem?-middle, some, All, All-imp, Result, ok,
}
use graphed_core_mvp.Text.{Text}
use graphed_core_mvp.Node.{NodeKey, NodeId, inputs, with_inputs, is_boundary, token}
use graphed_core_mvp.Store.Arena.{Chain}
use graphed_core_mvp.Optimizer.{Halt, EngineNode, EngineGraph, FusionMode, Reduced, ◌>>=◌}
use graphed_core_mvp.Optimizer.Values
use graphed_core_mvp.Optimizer.Values.{at_all}
use graphed_core_mvp.Optimizer.Meaning.{IsOrdered, run}
use graphed_core_mvp.Optimizer.Graphs.{node_inputs, IsGraph, KeepsValues}
use graphed_core_mvp.Optimizer.Dce.Sound.{dead_code_elimination-run}
use graphed_core_mvp.Optimizer.Dce.Order.{dead_code_elimination-kept}
use graphed_core_mvp.Optimizer.Engine.Sound.{Flagged}
use graphed_core_mvp.Optimizer.Cse.Sound.{cse-KeepsValues}
use graphed_core_mvp.Optimizer.Fusion.Semantics.{Semantics, HasKey}
use graphed_core_mvp.Optimizer.Fusion.Build.{key_values}
use graphed_core_mvp.Optimizer.Fusion.Outputs.{IsCovered, stage_fusion-IsFused}
use graphed_core_mvp.Optimizer.Pipeline.{
  RewriteEngine, add_templates, to_engine_graph, reduce_with_mode,
}
use graphed_core_mvp.Optimizer.Pipeline.Keys.{
  is_boundary-token, token-takes, token-with_inputs, template-found,
}

-- The node of a key in the engine's graph.
abbrev node_of : NodeKey → EngineNode
node_of k = record { token = token k; boundary = is_boundary k; inputs = inputs k }

node_of-ordered :
    (pre ks : List NodeKey) (before : List EngineNode)
    → length before ≡ length pre
    → Chain (Values.IsScoped inputs) pre ks
    → Chain (Values.IsScoped node_inputs) before (map node_of ks)
node_of-ordered pre [] before e c = tt
node_of-ordered pre (k ∷ ks) before e c = (
  All-imp (inputs k) (λ j lt. omega arith) c.0,
  node_of-ordered (pre ++ k ∷ []) ks (before ++ node_of k ∷ [])
      (omega (arith, length-append pre (k ∷ []), length-append before (node_of k ∷ []))) c.1,
)

-- A token and a number of inputs that a key of the list has.
abbrev FromKeys : List NodeKey → Text → ℕ → Type 0
FromKeys keys t arity =
    (i : ℕ) × (k : NodeKey) × (get_elem? keys i ≡ some k)
    × (token k ≡ t)
    × (length (inputs k) ≡ arity)

node_of-flags :
    (keys pre ks : List NodeKey)
    → keys ≡ pre ++ ks
    → All
        (λ (n : EngineNode). Flagged (FromKeys keys) n.token n.boundary (length n.inputs))
        (map node_of ks)
node_of-flags keys pre [] e = tt
node_of-flags keys pre (k ∷ ks) e = (
  ((length pre, k, rw e (get_elem?-middle pre k ks), refl, refl), is_boundary-token k),
  node_of-flags keys (pre ++ k ∷ []) ks (e ∙ sym (append_assoc pre (k ∷ []) ks)),
)

module _ {ℓ} {A : Type ℓ} (s : Semantics A) where
  -- The value of a node is that of the operator that its token names.
  abbrev pub IsNamed : NodeKey → Type ℓ
  IsNamed k = (ws : List A) → s.apply k ws ≡ s.tokens (token k) ws

  with_inputs-IsNamed : (k : NodeKey) (ins : List NodeId) → IsNamed k → IsNamed (with_inputs k ins)
  with_inputs-IsNamed k ins h ws = rw (token-with_inputs k ins) (s.uniform k ins ws ∙ h ws)

  node_of-values :
      (ks : List NodeKey) (vs : List A)
      → All IsNamed ks
      → Values.run node_inputs (λ (n : EngineNode). s.tokens n.token) s.default vs (map node_of ks)
        ≡ run s.apply s.default vs ks
  node_of-values [] vs h = refl
  node_of-values (k ∷ ks) vs h =
      rw (h.0 (at_all vs s.default (inputs k)))
        (node_of-values ks (vs ++ s.tokens (token k) (at_all vs s.default (inputs k)) ∷ []) h.1)

  to_engine_graph-IsGraph :
      (keys : List NodeKey) (outputs : List ℕ)
      → IsOrdered keys
      → All (λ o. o < length keys) outputs
      → IsGraph (Flagged (FromKeys keys)) (to_engine_graph keys outputs)
  unfolding to_engine_graph
  to_engine_graph-IsGraph keys outputs c h = record {
    ordered = node_of-ordered [] keys [] refl c;
    flags = node_of-flags keys [] keys refl;
    in_range = rw (length-map node_of keys) h;
  }

  FromKeys-HasKey :
      (keys : List NodeKey) (t : Text) (arity : ℕ)
      → All IsNamed keys
      → FromKeys keys t arity
      → HasKey s (add_templates keys []) t arity
  FromKeys-HasKey keys t arity h (i, k, at, kt, len) =
      let P = λ (t : Text) (m : NodeKey).
        (token m ≡ t) × ((ws : List A) → s.apply m ws ≡ s.tokens t ws) in
      let (m, found, (tm, named)) =
        template-found P keys i k (All-imp keys (λ m p. (refl, p)) h) at in
      record {
        key = m;
        found = rw kt at found;
        meant = rw kt at named;
        takes = λ ins e. token-takes k m ins tm (e ∙ sym len);
      }

  -- A reduction ends with an arena in order, whose outputs are in it and have the values of the
  -- given outputs in the given arena. It counts the nodes, each one is a stage or a boundary, and no
  -- pass leaves more nodes than it was given.
  pub record IsReduction (nodes : List NodeKey) (outputs : List NodeId) (r : Result Halt Reduced)
      : Type ℓ where
    pub reduced : Reduced
    pub ends : r ≡ ok reduced
    pub ordered : IsOrdered reduced.nodes
    pub in_range : All (λ o. o < length reduced.nodes) reduced.outputs
    pub kept :
        at_all (key_values s reduced.nodes) s.default reduced.outputs
        ≡ at_all (key_values s nodes) s.default outputs
    pub input_nodes : reduced.report.input_nodes ≡ length nodes
    pub counted : reduced.report.stages + reduced.report.boundary_nodes ≡ length reduced.nodes
    pub reachable : reduced.report.reachable_nodes ≤ length nodes
    pub canonical : reduced.report.canonical_nodes ≤ reduced.report.reachable_nodes
    pub few : length reduced.nodes ≤ reduced.report.canonical_nodes

  -- Take a semantics that runs a stage by its members, an arena whose nodes refer to earlier ones
  -- only and have the values that their tokens name, outputs in the arena, and an engine that keeps
  -- the values of the outputs and adds neither nodes nor tokens. In both modes `reduce_with_mode` ends, the reduced
  -- nodes refer to earlier ones only, the outputs are among them and have the values of the given
  -- outputs, each reduced node is counted as a stage or as a boundary, and no pass leaves more nodes
  -- than it was given.
  pub reduce_with_mode-IsReduction :
      (engine : RewriteEngine) (nodes : List NodeKey) (outputs : List NodeId) (mode : FusionMode)
      → ((Q : Text → ℕ → Type 0) (g : EngineGraph)
          → IsGraph (Flagged Q) g
          → KeepsValues s.tokens s.default (Flagged Q) g (engine g))
      → IsOrdered nodes
      → All (λ o. o < length nodes) outputs
      → All IsNamed nodes
      → IsReduction nodes outputs (reduce_with_mode nodes outputs engine mode)
  unfolding reduce_with_mode to_engine_graph
  reduce_with_mode-IsReduction engine nodes outputs mode sound c h named =
      let (keys, idx, e0, small, v0) =
        dead_code_elimination-run s.apply s.default nodes outputs s.uniform c h in
      let (in_order, names, few0) =
        dead_code_elimination-kept IsNamed nodes outputs keys idx c h
          (All-imp nodes (λ k n ins. with_inputs-IsNamed k ins n) named) e0 in
      let Q = FromKeys keys in
      let g0 = to_engine_graph keys idx in
      let (g1, e1, h1, few1, v1) = sound Q g0 (to_engine_graph-IsGraph keys idx in_order small) in
      let (g2, e2, h2, few2, v2) = cse-KeepsValues s.tokens s.default (Flagged Q) g1 h1 in
      let temps = add_templates keys [] in
      let covered : All (λ (n : EngineNode). IsCovered s temps n.token n.boundary (length n.inputs))
          g2.nodes =
        All-imp g2.nodes (λ n f b. FromKeys-HasKey keys n.token (length n.inputs) names f.0)
          h2.flags in
      let out = stage_fusion-IsFused s temps g2 mode h2.ordered h2.in_range covered in
      record {
        reduced = record out.reduced {
          report = record out.reduced.report {
            input_nodes = length nodes;
            reachable_nodes = length keys;
            canonical_nodes = length g2.nodes;
          };
        };
        ends = rw (e0, ◌>>=◌, e1, ◌>>=◌, e2, ◌>>=◌, out.ends, reduce_with_mode) refl;
        ordered = out.ordered;
        in_range = out.in_range;
        kept =
            out.kept
            ∙ v2
            ∙ v1
            ∙ ap (λ vs. at_all vs s.default idx) (node_of-values keys [] names)
            ∙ v0;
        input_nodes = refl;
        counted = out.counted;
        reachable = few0;
        canonical = (let long = length-map node_of keys in omega arith);
        few = out.few;
      }
