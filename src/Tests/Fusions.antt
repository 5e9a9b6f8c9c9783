-- ===== src/Tests/Fusions.antt =====
-- The passes on an `EngineGraph` at small graphs.
use graphed_core_mvp.Base.{
  ℕ, zero, suc, ◌+◌, ◌≡◌, refl, true, false, List, [], ◌∷◌, arith, length, get_elem?, get_or, some,
}
use mathlib.Core.Option.{some_inj}
use graphed_core_mvp.Text.{Text, codes, replace, starts_with}
use graphed_core_mvp.Param.{escape_token}
use graphed_core_mvp.Node.{
  NodeKey, NodeId, source, op, reduction, external, stage, token, with_params, with_inputs, inputs,
}
use graphed_core_mvp.Optimizer.{EngineGraph, single_use}
use graphed_core_mvp.Optimizer.Graphs.{node_values, IsGraph, KeepsValues}
use graphed_core_mvp.Optimizer.{maximal}
use graphed_core_mvp.Base.{get_elem?-lt, ap, sym, ◌∙◌}
use graphed_core_mvp.Optimizer.Meaning.{IsOrdered}
use graphed_core_mvp.Optimizer.Stages.{range}
use graphed_core_mvp.Optimizer.Fusion.Maximal.{range-at, length-range}
use graphed_core_mvp.Optimizer.Pipeline.{reduce_with_mode}
use graphed_core_mvp.Optimizer.Pipeline.Sound.{IsReduction, reduce_with_mode-IsReduction}
use graphed_core_mvp.Optimizer.Cse.{cse}
use graphed_core_mvp.Optimizer.Cse.Sound.{cse-KeepsValues}
use graphed_core_mvp.Optimizer.Engine.{canonicalize, boundary_from_token}
use graphed_core_mvp.Optimizer.Engine.Sound.{AreSound, Flagged, canonicalize-KeepsValues}
use graphed_core_mvp.Optimizer.Fusion.{Templates, stage_fusion}
use graphed_core_mvp.Optimizer.Fusion.Semantics.{Semantics, HasKey, stage_value}
use graphed_core_mvp.Optimizer.Fusion.Outputs.{IsFused, stage_fusion-IsFused}
use graphed_core_mvp.Tests.Optimizers.{jet, sum}

-- The value of a node is the length of its token with the values of its inputs.
abbrev weight : Text → List ℕ → ℕ
weight t ws = length t + sum ws

abbrev twins : EngineGraph
twins = record {
  nodes =
      record { token = codes "source|jet"; boundary = true; inputs = [] }
      ∷ record { token = codes "op|neg"; boundary = false; inputs = 0 ∷ [] }
      ∷ record { token = codes "op|neg"; boundary = false; inputs = 0 ∷ [] }
      ∷ [];
  outputs = 1 ∷ 2 ∷ [];
}

abbrev Anything : Text → ℕ → Type 0
Anything t arity = Unit

twins-IsGraph : IsGraph (Flagged Anything) twins
unfolding boundary_from_token starts_with
twins-IsGraph = record {
  ordered = (tt, ((omega arith, tt), ((omega arith, tt), tt)));
  flags = ((tt, refl), ((tt, refl), ((tt, refl), tt)));
  in_range = (omega arith, (omega arith, tt));
}

cse-KeepsValues_example : KeepsValues weight 0 (Flagged Anything) twins (cse twins)
cse-KeepsValues_example = cse-KeepsValues weight 0 (Flagged Anything) twins twins-IsGraph

-- Classes as a saturation could find them.
abbrev classes : EngineGraph → List ℕ
classes g = 0 ∷ 7 ∷ 7 ∷ []

abbrev value_of : ℕ → ℕ
value_of i = get_or (node_values weight 0 twins.nodes) i 0

one_class :
    (i j c : ℕ)
    → get_elem? (classes twins) i ≡ some c
    → get_elem? (classes twins) j ≡ some c
    → value_of i ≡ value_of j
one_class zero zero c e f = refl
one_class zero (suc zero) c e f = absurd (omega (arith, some_inj.0 e, some_inj.0 f))
one_class zero (suc (suc zero)) c e f = absurd (omega (arith, some_inj.0 e, some_inj.0 f))
one_class (suc zero) zero c e f = absurd (omega (arith, some_inj.0 e, some_inj.0 f))
one_class (suc zero) (suc zero) c e f = refl
one_class (suc zero) (suc (suc zero)) c e f = refl
one_class (suc (suc zero)) zero c e f = absurd (omega (arith, some_inj.0 e, some_inj.0 f))
one_class (suc (suc zero)) (suc zero) c e f = refl
one_class (suc (suc zero)) (suc (suc zero)) c e f = refl
one_class i (suc (suc (suc j))) c e f = cc
one_class (suc (suc (suc i))) j c e f = cc

canonicalize-KeepsValues_example :
    KeepsValues weight 0 (Flagged Anything) twins (canonicalize classes twins)
canonicalize-KeepsValues_example =
    canonicalize-KeepsValues weight 0 Anything classes twins twins-IsGraph
      (record { one_each = refl; one_value = one_class })

-- The semantics that goes with these values.
abbrev key_weight : NodeKey → List ℕ → ℕ
key_weight (stage is ms) ws = stage_value weight 0 ws ms
key_weight k ws = weight (token k) ws

key_weight-with_inputs :
    (k : NodeKey) (ins : List NodeId) (ws : List ℕ)
    → key_weight (with_inputs k ins) ws ≡ key_weight k ws
unfolding with_inputs token
key_weight-with_inputs (source n p) ins ws = refl
key_weight-with_inputs (op n p is) ins ws = refl
key_weight-with_inputs (reduction n p is) ins ws = refl
key_weight-with_inputs (external x p is) ins ws = refl
key_weight-with_inputs (stage is ms) ins ws = refl

abbrev weights : Semantics ℕ
weights = record {
  apply = key_weight;
  tokens = weight;
  default = 0;
  uniform = key_weight-with_inputs;
  stages = λ ins ms ws. refl;
}

abbrev total : NodeKey
total = reduction (codes "sum") [] (3 ∷ [])

abbrev tops : Templates
tops = (codes "src|jet", jet) ∷ (codes "red|sum", total) ∷ []

jet-HasKey : HasKey weights tops (codes "src|jet") 0
unfolding token with_params escape_token replace inputs with_inputs
jet-HasKey = record {
  key = jet;
  found = refl;
  meant = λ ws. refl;
  takes = λ ins e.
      elim ins as (λ ins. length ins ≡ 0 → [] ≡ ins) [
        | [] ↦ λ e. refl
        | i ∷ is ↦ λ e. absurd (omega (arith, e))
      ]
        e;
}

total-HasKey : HasKey weights tops (codes "red|sum") 1
unfolding token with_params escape_token replace inputs with_inputs
total-HasKey = record { key = total; found = refl; meant = λ ws. refl; takes = λ ins e. refl }

-- A diamond of ops between a source and a reduction.
abbrev diamond_graph : EngineGraph
diamond_graph = record {
  nodes =
      record { token = codes "src|jet"; boundary = true; inputs = [] }
      ∷ record { token = codes "op|neg"; boundary = false; inputs = 0 ∷ [] }
      ∷ record { token = codes "op|abs"; boundary = false; inputs = 1 ∷ [] }
      ∷ record { token = codes "op|mul"; boundary = false; inputs = 1 ∷ 2 ∷ [] }
      ∷ record { token = codes "red|sum"; boundary = true; inputs = 3 ∷ [] }
      ∷ [];
  outputs = 4 ∷ [];
}

stage_fusion-IsFused_example :
    IsFused weights tops diamond_graph (stage_fusion diamond_graph tops single_use)
stage_fusion-IsFused_example =
    stage_fusion-IsFused weights tops diamond_graph single_use
      (
        tt,
        (
          (omega arith, tt),
          ((omega arith, tt), ((omega arith, (omega arith, tt)), ((omega arith, tt), tt))),
        ),
      )
      (omega arith, tt)
      ((λ e. jet-HasKey), ((λ e. cc), ((λ e. cc), ((λ e. cc), ((λ e. total-HasKey), tt)))))

-- An engine that finds no two equal nodes.
abbrev pub apart : EngineGraph → List ℕ
apart g = range 0 (length g.nodes)

apart-AreSound : (Q : Text → ℕ → Type 0) (g : EngineGraph) → AreSound weight 0 Q g.nodes (apart g)
apart-AreSound Q g = record {
  one_each = length-range [] [] [] 0 (length g.nodes);
  one_value = λ i j c e f.
      (let own = λ (k : ℕ) (q : get_elem? (apart g) k ≡ some c).
          range-at [] [] [] 0 (length g.nodes) k
            (rw (length-range [] [] [] 0 (length g.nodes)) at (get_elem?-lt (apart g) k q)) in
        let ic : 0 + i ≡ c = some_inj.0 (sym (own i e) ∙ e) in
        let jc : 0 + j ≡ c = some_inj.0 (sym (own j f) ∙ f) in
        let same : i ≡ j = omega arith in ap (λ k. get_or (node_values weight 0 g.nodes) k 0) same);
}

abbrev diamond_nodes : List NodeKey
diamond_nodes =
    jet
    ∷ op (codes "neg") [] (0 ∷ [])
    ∷ op (codes "abs") [] (1 ∷ [])
    ∷ op (codes "mul") [] (1 ∷ 2 ∷ [])
    ∷ total
    ∷ []

diamond-IsOrdered : IsOrdered diamond_nodes
unfolding inputs
diamond-IsOrdered = (
  tt,
  (
    (omega arith, tt),
    ((omega arith, tt), ((omega arith, (omega arith, tt)), ((omega arith, tt), tt))),
  ),
)

reduce_with_mode-IsReduction_example :
    IsReduction weights diamond_nodes
      (4 ∷ 1 ∷ [])
      (reduce_with_mode diamond_nodes (4 ∷ 1 ∷ []) (canonicalize apart) maximal)
reduce_with_mode-IsReduction_example =
    reduce_with_mode-IsReduction weights (canonicalize apart) diamond_nodes (4 ∷ 1 ∷ []) maximal
      (λ Q g h. canonicalize-KeepsValues weight 0 Q apart g h (apart-AreSound Q g))
      diamond-IsOrdered (omega arith, (omega arith, tt))
      ((λ ws. refl), ((λ ws. refl), ((λ ws. refl), ((λ ws. refl), ((λ ws. refl), tt)))))
