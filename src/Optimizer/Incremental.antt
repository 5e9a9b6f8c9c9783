-- ===== src/Optimizer/Incremental.antt =====
-- src/optimizer/incremental.rs: the reducer that takes the arena piece by piece.
--
-- A step that fails leaves the state that it has reached. `inputs[0]` of no inputs is a panic.
pub mod Algebra
pub mod Canonical
pub mod Sound
pub mod Steps
pub mod Cuts
use graphed_core_mvp.Base.{
  ℕ, zero, suc, ◌+◌, Bool, true, false, List, [], ◌∷◌, ◌++◌, Option, none, some, length, get_elem?,
  if◌then◌else◌, Result, ok, err,
}
use graphed_core_mvp.Text.{Text}
use graphed_core_mvp.Node
use graphed_core_mvp.Node.{
  NodeId, NodeKey, source, op, reduction, external, stage, inputs, with_inputs,
}
use graphed_core_mvp.Store.{Table, get, insert, BadNodeId, bad_node_id}
use graphed_core_mvp.Optimizer.{Halt, panic}
use graphed_core_mvp.Optimizer.Engine.{symmetric_ops, identity_tokens, is_in}

pub record IncrementalReducer : Type 0 where
  pub canon_nodes : List NodeKey
  pub canon_table : Table
  pub map : List NodeId
  pub total_work : ℕ

-- `IncrementalReducer::new`
abbrev pub fresh : IncrementalReducer
fresh = record { canon_nodes = []; canon_table = []; map = []; total_work = 0 }

abbrev pub watermark : IncrementalReducer → ℕ
watermark r = length r.map

abbrev pub canonical_count : IncrementalReducer → ℕ
canonical_count r = length r.canon_nodes

-- An error that is returned, or a run that stops.
pub data Failure : Type 0 where
  bad_id : BadNodeId → Failure
  halted : Halt → Failure

-- An op that is its first input.
unfoldable pub is_identity : NodeKey → Bool
unfolding is_in
is_identity (op n p is) = is_in (Node.token (op n p is)) identity_tokens
is_identity _ = false

-- What the table holds for a symmetric op in either orientation.
unfoldable pub find_commuted : NodeKey → Table → Option NodeId
unfolding get is_in with_inputs
find_commuted (op n [] (a ∷ b ∷ [])) table =
    if is_in n symmetric_ops
    then elim (get (op n [] (a ∷ b ∷ [])) table) [
      | some id ↦ some id
      | none ↦ get (with_inputs (op n [] (a ∷ b ∷ [])) (b ∷ a ∷ [])) table
    ]
    else none
find_commuted _ table = none

-- The id of a key, which is new if the table does not hold it.
unfoldable pub hash_cons : NodeKey → IncrementalReducer → IncrementalReducer × NodeId
unfolding get insert
hash_cons key r = elim (get key r.canon_table) [
  | some id ↦ (r, id)
  | none ↦
      let id = length r.canon_nodes in
      (
        record r {
          canon_nodes = r.canon_nodes ++ key ∷ [];
          canon_table = insert key id r.canon_table;
        },
        id,
      )
]

unfoldable pub canonicalize :
    NodeKey → IncrementalReducer → Result Halt (IncrementalReducer × NodeId)
unfolding is_identity find_commuted hash_cons inputs
canonicalize key r =
    if is_identity key
    then elim (get_elem? (inputs key) 0) [ some i ↦ ok (r, i) | none ↦ err panic ]
    else elim (find_commuted key r.canon_table) [
      | some id ↦ ok (r, id)
      | none ↦ ok (hash_cons key r)
    ]

-- The canonical ids of the inputs.
unfoldable pub resolve : List NodeId → List NodeId → Result BadNodeId (List NodeId)
resolve map [] = ok []
resolve map (i ∷ is) =
    let rest = resolve map is in
    elim (get_elem? map i) [
      | none ↦ err (bad_node_id i)
      | some c ↦ elim rest [ ok cs ↦ ok (c ∷ cs) | err e ↦ err e ]
    ]

-- One node of a delta.
unfoldable pub consume : NodeKey → IncrementalReducer → Result Failure IncrementalReducer
unfolding canonicalize resolve inputs with_inputs
consume key r = elim (resolve r.map (inputs key)) [
  | err e ↦ err (bad_id e)
  | ok ins ↦ elim (canonicalize (with_inputs key ins) r) [
    | err h ↦ err (halted h)
    | ok (r', canon) ↦ ok (record r' { map = r'.map ++ canon ∷ [] })
  ]
]

-- The state after as many nodes as succeed, and the failure that stopped it.
unfoldable pub consume_all : List NodeKey → IncrementalReducer → IncrementalReducer × Option Failure
unfolding consume
consume_all [] r = (r, none)
consume_all (key ∷ delta) r = elim (consume key r) [
  | err e ↦ (r, some e)
  | ok r' ↦ consume_all delta r'
]

-- `self.total_work += delta.len(); Ok(delta.len())`, after `?` has passed a failure on.
abbrev pub settle : ℕ → IncrementalReducer × Option Failure → IncrementalReducer × Result Failure ℕ
settle n (r, some e) = (r, err e)
settle n (r, none) = (record r { total_work = r.total_work + n }, ok n)

unfoldable pub step : List NodeKey → IncrementalReducer → IncrementalReducer × Result Failure ℕ
unfolding consume_all
step delta r = settle (length delta) (consume_all delta r)

-- The canonical ids of the outputs, with which `finalize` reduces the canonical arena.
unfoldable pub final_outputs : List NodeId → IncrementalReducer → Result BadNodeId (List NodeId)
unfolding resolve
final_outputs outputs r = resolve r.map outputs
