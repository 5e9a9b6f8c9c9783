-- ===== src/Bindings.antt =====
-- src/lib.rs: the methods of the Python classes, on what pyo3 has converted.
--
-- A Python exception is the error that it is made from. The engine, `EggEngine::default()` in the
-- source, is a parameter. A method that takes the lock of a store more than once has the state of
-- the store each time as an argument. A panic inside a method of the reducer is a failure here; the
-- state of a poisoned lock, on which later calls panic too, is not in the model.
pub mod Sessions
pub mod View
use graphed_core_mvp.Base.{
  ℕ, Bool, true, false, List, [], ◌∷◌, Option, none, some, length, if◌then◌else◌, Result, ok, err,
}
use graphed_core_mvp.Text.{Text, codes}
use graphed_core_mvp.Node.{NodeId, NodeKey}
use graphed_core_mvp.Store.{Inner, BadNodeId, bad_node_id, first_bad, snapshot_from}
use graphed_core_mvp.Serialize.Writer.{Bytes, serialize, serialize_with}
use graphed_core_mvp.Optimizer.{Halt, FusionMode, single_use, maximal, ReductionReport}
use graphed_core_mvp.Optimizer.Incremental.{
  IncrementalReducer, Failure, bad_id, halted, watermark, step,
}
use graphed_core_mvp.Optimizer.Pipeline.{
  RewriteEngine, finalize, from_reduced, reduce_with, reduce_with_outputs, reduce,
  reduce_incremental,
}

abbrev pub fusion_mode : Bool → FusionMode
fusion_mode maximal_fusion = if maximal_fusion then maximal else single_use

abbrev pub report_to_map : ReductionReport → List (Text × ℕ)
report_to_map r =
    (codes "input_nodes", r.input_nodes)
    ∷ (codes "reachable_nodes", r.reachable_nodes)
    ∷ (codes "canonical_nodes", r.canonical_nodes)
    ∷ (codes "stages", r.stages)
    ∷ (codes "reduced_nodes", r.reduced_nodes)
    ∷ (codes "boundary_nodes", r.boundary_nodes)
    ∷ []

-- `PyGraphStore::serialize`, where `seen` is the store when its nodes are counted or its outputs
-- are read.
unfoldable pub serialize_store : Option (List NodeId) → Inner → Inner → Result BadNodeId Bytes
unfolding first_bad serialize serialize_with
serialize_store none seen now = ok (serialize seen now)
serialize_store (some outs) seen now = elim (first_bad (length seen.nodes) outs) [
  | some bad ↦ err (bad_node_id bad)
  | none ↦ ok (serialize_with now outs)
]

-- A run of the optimizer that stops is a failure too.
abbrev pub or_halted {ℓ} : {A : Type ℓ} → Result Halt A → Result Failure A
or_halted (ok a) = ok a
or_halted (err h) = err (halted h)

abbrev pub reported :
    Result Failure (Inner × ReductionReport) → Result Failure (Inner × List (Text × ℕ))
reported (ok (g, report)) = ok (g, report_to_map report)
reported (err e) = err e

-- `PyGraphStore::reduce`
unfoldable pub reduce_store :
    RewriteEngine → Bool → Option (List NodeId) → Inner → Result Failure (Inner × List (Text × ℕ))
unfolding reduce_with_outputs reduce_with
reduce_store engine maximal_fusion (some outs) g =
    reported (reduce_with_outputs g outs engine (fusion_mode maximal_fusion))
reduce_store engine maximal_fusion none g =
    reported (or_halted (reduce_with g engine (fusion_mode maximal_fusion)))

-- `PyGraphStore::reduce_incremental`
unfoldable pub reduce_store_incremental :
    RewriteEngine → Option (List NodeId) → Inner → Result Failure (Inner × List (Text × ℕ))
unfolding reduce_with_outputs reduce_incremental
reduce_store_incremental engine (some outs) g =
    reported (reduce_with_outputs g outs engine single_use)
reduce_store_incremental engine none g = reported (or_halted (reduce_incremental g engine))

-- `PyGraphStore::reduction_report`
unfoldable pub reduction_report :
    RewriteEngine → Option (List NodeId) → Inner → Result Failure (List (Text × ℕ))
unfolding reduce_with_outputs reduce
reduction_report engine (some outs) g =
    elim (reported (reduce_with_outputs g outs engine single_use)) [
      | ok (reduced, report) ↦ ok report
      | err e ↦ err e
    ]
reduction_report engine none g = elim (reported (or_halted (reduce g engine))) [
  | ok (reduced, report) ↦ ok report
  | err e ↦ err e
]

-- `PyIncrementalReducer::step`
unfoldable pub step_store : Inner → IncrementalReducer → IncrementalReducer × Result Failure ℕ
unfolding snapshot_from step
step_store store r = step (snapshot_from (watermark r) store) r

-- The outputs that `PyIncrementalReducer::finalize` is for.
unfoldable pub requested : Option (List NodeId) → Inner → Result BadNodeId (List NodeId)
unfolding first_bad
requested none store = ok store.outputs
requested (some outs) store = elim (first_bad (length store.nodes) outs) [
  | some bad ↦ err (bad_node_id bad)
  | none ↦ ok outs
]

-- What follows the step in `PyIncrementalReducer::finalize`.
unfoldable pub finish_reduction :
    RewriteEngine
    → Bool
    → List NodeId
    → IncrementalReducer
    → Result Failure (Inner × List (Text × ℕ))
unfolding finalize from_reduced
finish_reduction engine maximal_fusion outs r =
    elim (finalize r outs engine (fusion_mode maximal_fusion)) [
      | err e ↦ err e
      | ok red ↦ reported (or_halted (from_reduced red))
    ]

-- `PyIncrementalReducer::finalize`, where `seen` is the store when the outputs are read, and `now`
-- when the rest of the nodes is.
unfoldable pub finalize_store :
    RewriteEngine
    → Bool
    → Option (List NodeId)
    → Inner
    → Inner
    → IncrementalReducer
    → IncrementalReducer × Result Failure (Inner × List (Text × ℕ))
unfolding requested step_store finish_reduction
finalize_store engine maximal_fusion outputs seen now r = elim (requested outputs seen) [
  | err e ↦ (r, err (bad_id e))
  | ok outs ↦
      let (r', done) = step_store now r in
      elim done [
        | err e ↦ (r', err e)
        | ok n ↦ (r', finish_reduction engine maximal_fusion outs r')
      ]
]
