-- ===== src/Tests/Pipelines.antt =====
-- The whole reduction at small inputs, with an engine that finds nothing.
use graphed_core_mvp.Optimizer.Dce.{compact, remapped, renumber, mark_live}
use graphed_core_mvp.Base.{
  ℕ, zero, suc, ◌≤◌, arith, length, get_elem?, Result, ok, err, List, [], ◌∷◌, ◌≡◌, refl, Option,
  some, none,
}
use mathlib.Core.Option.{some_inj}
use graphed_core_mvp.Optimizer.Stages.{Dsu, find}
use graphed_core_mvp.Optimizer.Stages.Find.{Root, IsDsu, find-Root}
use graphed_core_mvp.Text.{Text, codes, join, replace}
use graphed_core_mvp.Text.Number.{display_hex, hex_from, hex_digit}
use graphed_core_mvp.Param
use graphed_core_mvp.Param.{ParamMap, float, str, value_token, escape_token, float_key, params_eq}
use graphed_core_mvp.Node.{
  with_inputs, NodeKey, NodeId, op, reduction, external, stage, input, member, token,
  external_prefix, with_params, key_eq,
}
use graphed_core_mvp.Optimizer.{Halt, panic, Reduced, single_use, maximal}
use graphed_core_mvp.Optimizer.Incremental.{step, fresh, is_identity, halted}
use graphed_core_mvp.Optimizer.Incremental.Cuts.{step-append}
use graphed_core_mvp.Optimizer.Pipeline.{reduce_with_mode}
use graphed_core_mvp.Tests.Optimizers.{jet, muon, both, swapped}

abbrev plus_zero_params : ParamMap
plus_zero_params = (codes "scalar", float 0) ∷ (codes "side", str (codes "r")) ∷ []

abbrev nodes_of : Result Halt Reduced → Option (List NodeKey × List NodeId)
nodes_of (ok r) = some (r.nodes, r.outputs)
nodes_of (err e) = none

-- A diamond of ops, whose top has two consumers.
abbrev diamond : List NodeKey
diamond =
    jet
    ∷ op (codes "neg") [] (0 ∷ [])
    ∷ op (codes "abs") [] (1 ∷ [])
    ∷ op (codes "mul") [] (1 ∷ 2 ∷ [])
    ∷ reduction (codes "sum") [] (3 ∷ [])
    ∷ []

-- Single use: `abs` and `mul` are one stage, `neg` is another.
single_use-diamond :
    nodes_of (reduce_with_mode diamond (4 ∷ []) ok single_use)
    ≡ some (
      jet
          ∷ stage (0 ∷ []) (record { token = codes "op|neg"; inputs = input 0 ∷ [] } ∷ [])
          ∷ stage (1 ∷ []) (
              record { token = codes "op|abs"; inputs = input 0 ∷ [] }
              ∷ record { token = codes "op|mul"; inputs = input 0 ∷ member 0 ∷ [] }
              ∷ [])
          ∷ reduction (codes "sum") [] (2 ∷ [])
          ∷ [],
      3 ∷ [],
    )
unfolding reduce_with_mode token with_params mark_live compact remapped renumber with_inputs
    escape_token replace
single_use-diamond = refl

-- Maximal: all three are one stage.
maximal-diamond :
    nodes_of (reduce_with_mode diamond (4 ∷ []) ok maximal)
    ≡ some (
      jet
          ∷ stage (0 ∷ []) (
              record { token = codes "op|neg"; inputs = input 0 ∷ [] }
              ∷ record { token = codes "op|abs"; inputs = member 0 ∷ [] }
              ∷ record { token = codes "op|mul"; inputs = member 0 ∷ member 1 ∷ [] }
              ∷ [])
          ∷ reduction (codes "sum") [] (1 ∷ [])
          ∷ [],
      2 ∷ [],
    )
unfolding reduce_with_mode token with_params mark_live compact remapped renumber with_inputs
    escape_token replace
maximal-diamond = refl

abbrev payload : Option Text → NodeKey
payload reference =
    external
      (record {
        kind = codes "model";
        content_hash = codes "h";
        framework = codes "f";
        version = codes "1";
        io_schema = codes "s";
        preprocessing_ref = reference;
      })
      [] (0 ∷ [])

-- Two different external nodes become one, since their tokens are the same.
merged :
    nodes_of (
      reduce_with_mode
        (jet ∷ payload none ∷ payload (some (codes "-")) ∷ [])
        (1 ∷ 2 ∷ [])
        ok
        single_use)
    ≡ some (jet ∷ payload none ∷ [], 1 ∷ 1 ∷ [])
unfolding reduce_with_mode token with_params external_prefix mark_live compact remapped renumber
    with_inputs escape_token replace
merged = refl

-- An identity op without inputs stops the incremental reducer.
stopped : (step (op (codes "add") plus_zero_params [] ∷ []) fresh).1 ≡ err (halted panic)
unfolding step is_identity token with_params Param.token value_token escape_token join replace
    display_hex hex_from hex_digit float_key
stopped = refl

step-append_example :
    step (jet ∷ muon ∷ both ∷ swapped ∷ []) fresh
    ≡ ((step (both ∷ swapped ∷ []) (step (jet ∷ muon ∷ []) fresh).0).0, ok 4)
unfolding step is_identity token with_params key_eq params_eq escape_token replace
step-append_example = step-append (jet ∷ muon ∷ []) (both ∷ swapped ∷ []) fresh 2 2 refl refl

abbrev chain : Dsu
chain = 0 ∷ 0 ∷ 1 ∷ 2 ∷ []

chain_down : (i p : ℕ) → get_elem? chain i ≡ some p → p ≤ i
chain_down zero p h = omega (arith, some_inj.0 h)
chain_down (suc zero) p h = omega (arith, some_inj.0 h)
chain_down (suc (suc zero)) p h = omega (arith, some_inj.0 h)
chain_down (suc (suc (suc zero))) p h = omega (arith, some_inj.0 h)
chain_down (suc (suc (suc (suc i)))) p h = cc

-- Each node on the way gets the root as its parent.
shortened : find chain 3 ≡ ok (0 ∷ 0 ∷ 0 ∷ 0 ∷ [], 0)
unfolding find
shortened = refl

find-Root_example :
    (new : Dsu) × (r : ℕ) × (find chain 3 ≡ ok (new, r))
    × Root chain r 3
    × IsDsu new
    × (length new ≡ 4)
    × ((s y : ℕ) → Root chain s y → Root new s y)
find-Root_example = find-Root chain 3 (record { down = chain_down }) (omega arith)
