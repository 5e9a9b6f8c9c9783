-- ===== src/Store.antt =====
-- src/store.rs: the interned graph store. Each method takes the lock once and does all its work
-- under it, so a method is a function on what the mutex guards, and threads interleave whole
-- methods. A `usize` and a `u64` count nodes that are in memory, so `as` loses nothing.
pub mod Arena
pub mod Distinct
pub mod Intern
pub mod Invariant
pub mod Outputs
pub mod Reach
pub mod Sharing
use Prim.Native.Nat.{min}
use graphed_core_mvp.Base.{
  ℕ, zero, suc, ◌+◌, Bool, true, false, List, [], ◌∷◌, ◌++◌, Option, none, some, length, drop, leb,
  ◌==◌, if◌then◌else◌, Result, ok, err,
}
use graphed_core_mvp.Text.{Text}
use graphed_core_mvp.Param.{ParamMap}
use graphed_core_mvp.Node.{
  NodeId, NodeKey, PayloadDescriptor, source, op, reduction, external, key_eq, inputs,
}

-- `struct BadNodeId(pub NodeId)`
pub data BadNodeId : Type 0 where
  bad_node_id : NodeId → BadNodeId

-- `HashMap<NodeKey, NodeId>`, which compares keys by `==`.
abbrev pub Table : Type 0
Table = List (NodeKey × NodeId)

unfoldable pub get : NodeKey → Table → Option NodeId
get k [] = none
get k ((j, id) ∷ t) = if key_eq j k then some id else get k t

-- The value of an equal key is replaced, and the key is kept.
unfoldable pub insert : NodeKey → NodeId → Table → Table
insert k id [] = (k, id) ∷ []
insert k id ((j, old) ∷ t) = if key_eq j k then (j, id) ∷ t else (j, old) ∷ insert k id t

pub record Inner : Type 0 where
  pub nodes : List NodeKey
  pub table : Table
  pub outputs : List NodeId

-- `GraphStore::new`
abbrev pub empty : Inner
empty = record { nodes = []; table = []; outputs = [] }

-- The first id that is not below `len`.
unfoldable pub first_bad : ℕ → List NodeId → Option NodeId
first_bad len [] = none
first_bad len (i ∷ is) = if leb len i then some i else first_bad len is

-- What `intern` does once the inputs are known to be in the arena.
unfoldable pub intern_valid : NodeKey → Inner → Inner × Result BadNodeId NodeId
unfolding get insert
intern_valid key g = elim (get key g.table) [
  | some id ↦ (g, ok id)
  | none ↦
      let id = length g.nodes in
      (record g { nodes = g.nodes ++ key ∷ []; table = insert key id g.table }, ok id)
]

unfoldable pub intern : NodeKey → Inner → Inner × Result BadNodeId NodeId
unfolding first_bad
intern key g = elim (first_bad (length g.nodes) (inputs key)) [
  | some i ↦ (g, err (bad_node_id i))
  | none ↦ intern_valid key g
]

-- `Result::expect`: `none` is a panic.
abbrev pub expect {ℓ κ} : {E : Type ℓ} {A : Type κ} → Result E A → Option A
expect (ok a) = some a
expect (err e) = none

unfoldable pub add_source : Text → ParamMap → Inner → Inner × Option NodeId
add_source name params g = let (g', r) = intern (source name params) g in (g', expect r)

unfoldable pub add_op : Text → List NodeId → ParamMap → Inner → Inner × Result BadNodeId NodeId
add_op name ins params g = intern (op name params ins) g

unfoldable pub add_reduction :
    Text → List NodeId → ParamMap → Inner → Inner × Result BadNodeId NodeId
add_reduction name ins params g = intern (reduction name params ins) g

unfoldable pub add_external :
    PayloadDescriptor → List NodeId → ParamMap → Inner → Inner × Result BadNodeId NodeId
add_external descriptor ins params g = intern (external descriptor params ins) g

unfoldable pub add_key : NodeKey → Inner → Inner × Result BadNodeId NodeId
add_key key g = intern key g

unfoldable pub contains : List NodeId → NodeId → Bool
contains [] id = false
contains (o ∷ os) id = if o == id then true else contains os id

unfoldable pub mark_output : NodeId → Inner → Inner × Result BadNodeId (Unit {0})
unfolding contains
mark_output id g =
    if leb (length g.nodes) id
    then (g, err (bad_node_id id))
    else if contains g.outputs id
    then (g, ok tt)
    else (record g { outputs = g.outputs ++ id ∷ [] }, ok tt)

unfoldable pub node_count : Inner → ℕ
node_count g = length g.nodes

unfoldable pub snapshot : Inner → List NodeKey × List NodeId
snapshot g = (g.nodes, g.outputs)

unfoldable pub snapshot_from : ℕ → Inner → List NodeKey
snapshot_from start g = drop (min start (length g.nodes)) g.nodes
