-- ===== src/Bindings/View.antt =====
-- `PyGraphStore::nodes`: what Python sees of the nodes.
pub mod Reading
use graphed_core_mvp.Base.{
  ℕ, suc, Bool, List, [], ◌∷◌, map, length, Option, none, some, Result, ok, err,
}
use graphed_core_mvp.Text.{Text, codes}
use graphed_core_mvp.Param.{ParamMap}
use graphed_core_mvp.Node.{
  NodeId, NodeKey, PayloadDescriptor, StageOp, StageRef, source, op, reduction, external, stage,
  input, member, parse_op_token,
}
use graphed_core_mvp.Store.{Inner, contains}

pub record MemberView : Type 0 where
  pub kind : Text
  pub name : Text
  pub params : ParamMap
  pub inputs : List (Text × ℕ)

-- The entries that a node of another kind does not have are `none`; `n_members` is the length.
pub record NodeView : Type 0 where
  pub id : ℕ
  pub output : Bool
  pub inputs : List NodeId
  pub kind : Text
  pub name : Text
  pub params : ParamMap
  pub descriptor : Option PayloadDescriptor
  pub n_members : Option ℕ
  pub members : Option (List MemberView)

-- The token of a stage member that is not that of an op.
pub data ViewError : Type 0 where
  unparseable : Text → ViewError

abbrev pub ref_view : StageRef → Text × ℕ
ref_view (input i) = (codes "input", i)
ref_view (member i) = (codes "member", i)

unfoldable pub member_views : List StageOp → Result ViewError (List MemberView)
unfolding parse_op_token
member_views [] = ok []
member_views (m ∷ ms) = elim (parse_op_token m.token) [
  | none ↦ err (unparseable m.token)
  | some (kind, name, params) ↦
      let rest = member_views ms in
      elim rest [
        | err e ↦ err e
        | ok views ↦ ok (
            record { kind = kind; name = name; params = params; inputs = map ref_view m.inputs }
            ∷ views)
      ]
]

abbrev pub plain_view :
    ℕ → Bool → List NodeId → Text → Text → ParamMap → Option PayloadDescriptor → NodeView
plain_view id output inputs kind name params descriptor = record {
  id = id;
  output = output;
  inputs = inputs;
  kind = kind;
  name = name;
  params = params;
  descriptor = descriptor;
  n_members = none;
  members = none;
}

unfoldable pub node_view : ℕ → Bool → NodeKey → Result ViewError NodeView
unfolding member_views
node_view id output (source name params) =
    ok (plain_view id output [] (codes "source") name params none)
node_view id output (op name params is) = ok (plain_view id output is (codes "op") name params none)
node_view id output (reduction name params is) =
    ok (plain_view id output is (codes "reduction") name params none)
node_view id output (external d params is) =
    ok (plain_view id output is (codes "external") [] params (some d))
node_view id output (stage is ms) = elim (member_views ms) [
  | err e ↦ err e
  | ok views ↦ ok (record {
    id = id;
    output = output;
    inputs = is;
    kind = codes "stage";
    name = [];
    params = [];
    descriptor = none;
    n_members = some (length ms);
    members = some views;
  })
]

-- The nodes from the `id`-th on.
unfoldable pub node_views : ℕ → List NodeId → List NodeKey → Result ViewError (List NodeView)
unfolding node_view contains
node_views id outputs [] = ok []
node_views id outputs (k ∷ ks) = elim (node_view id (contains outputs id) k) [
  | err e ↦ err e
  | ok v ↦
      let rest = node_views (suc id) outputs ks in elim rest [ err e ↦ err e | ok vs ↦ ok (v ∷ vs) ]
]

-- `PyGraphStore::nodes`
unfoldable pub nodes_view : Inner → Result ViewError (List NodeView)
unfolding node_views
nodes_view g = node_views 0 g.outputs g.nodes
