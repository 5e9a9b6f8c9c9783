-- ===== src/Bindings/View/Reading.antt =====
-- What `nodes` shows is enough to build the nodes again, as a program that runs or reproduces a
-- graph does from Python.
use graphed_core_mvp.Base.{
  ap, ◌∙◌, ℕ, suc, ◌≡◌, refl, List, [], ◌∷◌, length, All, Option, none, some, ◌>>=◌, ok,
  if◌then◌else◌, map,
}
use mathlib.Core.Option.{some_inj}
use graphed_core_mvp.Text.{Text, codes, text_eq}
use graphed_core_mvp.Param.{ParamMap}
use graphed_core_mvp.Param.Token.{IsParams}
use graphed_core_mvp.Param.Identity.{params_canon}
use graphed_core_mvp.Node
use graphed_core_mvp.Node.{
  NodeId, NodeKey, PayloadDescriptor, StageOp, StageRef, source, op, reduction, external, stage,
  input, member, token, parse_op_token,
}
use graphed_core_mvp.Node.Token.{decoded, params, parse_op_token-token, with_params-params_canon}
use graphed_core_mvp.Store.{Inner, contains}
use graphed_core_mvp.Bindings.View.{
  MemberView, NodeView, ref_view, member_views, node_view, node_views, nodes_view,
}

-- The reference that an entry such as `("input", 0)` stands for.
abbrev read_ref : Text × ℕ → Option StageRef
read_ref (t, i) =
    if text_eq t (codes "input")
    then some (input i)
    else if text_eq t (codes "member")
    then some (member i)
    else none

abbrev read_refs : List (Text × ℕ) → Option (List StageRef)
read_refs [] = some []
read_refs (v ∷ vs) = do r ← read_ref v; rs ← read_refs vs; some (r ∷ rs)

-- The member that an entry stands for.
abbrev read_member : MemberView → Option StageOp
read_member v = do
  refs ← read_refs v.inputs
  (if text_eq v.kind (codes "op")
      then some (record { token = token (op v.name v.params []); inputs = refs })
      else if text_eq v.kind (codes "red")
      then some (record { token = token (reduction v.name v.params []); inputs = refs })
      else none)

abbrev read_members : List MemberView → Option (List StageOp)
read_members [] = some []
read_members (v ∷ vs) = do m ← read_member v; ms ← read_members vs; some (m ∷ ms)

-- The node that an entry stands for.
unfoldable pub read_view : NodeView → Option NodeKey
read_view v =
    if text_eq v.kind (codes "source")
    then some (source v.name v.params)
    else if text_eq v.kind (codes "op")
    then some (op v.name v.params v.inputs)
    else if text_eq v.kind (codes "reduction")
    then some (reduction v.name v.params v.inputs)
    else if text_eq v.kind (codes "external")
    then (do d ← v.descriptor; some (external d v.params v.inputs))
    else if text_eq v.kind (codes "stage")
    then (do views ← v.members; ms ← read_members views; some (stage v.inputs ms))
    else none

-- A member whose token is that of an op or a reduction with sorted parameters in range.
abbrev pub IsSpelled : StageOp → Type 0
IsSpelled m =
    (k : NodeKey) × (e : Text × Text × ParamMap) × (token k ≡ m.token)
    × IsParams (params k)
    × (decoded k ≡ some e)

abbrev pub AreSpelled : NodeKey → Type 0
AreSpelled (stage is ms) = All IsSpelled ms
AreSpelled _ = Unit

-- Entries that a node of this kind has, and those that it lacks.
abbrev HasEntries : NodeKey → NodeView → Type 0
HasEntries (external d p is) v = (v.name ≡ []) × (v.n_members ≡ none) × (v.members ≡ none)
HasEntries (stage is ms) v =
    (v.name ≡ []) × (v.params ≡ []) × (v.descriptor ≡ none) × (v.n_members ≡ some (length ms))
HasEntries _ v = (v.descriptor ≡ none) × (v.n_members ≡ none) × (v.members ≡ none)

-- The entry of a node.
pub record IsView (outputs : List NodeId) (i : ℕ) (k : NodeKey) (v : NodeView) : Type 0 where
  pub id : v.id ≡ i
  pub output : v.output ≡ contains outputs i
  pub inputs : v.inputs ≡ Node.inputs k
  pub entries : HasEntries k v
  pub read : read_view v ≡ some k

read_refs-map : (rs : List StageRef) → read_refs (map ref_view rs) ≡ some rs
read_refs-map [] = refl
read_refs-map (input i ∷ rs) = rw (read_refs-map rs) refl
read_refs-map (member i ∷ rs) = rw (read_refs-map rs) refl

abbrev member_view : StageOp → Text × Text × ParamMap → MemberView
member_view m e = record { kind = e.0; name = e.1; params = e.2; inputs = map ref_view m.inputs }

parse-IsSpelled :
    (m : StageOp) (k : NodeKey) (e : Text × Text × ParamMap)
    → token k ≡ m.token
    → IsParams (params k)
    → decoded k ≡ some e
    → parse_op_token m.token ≡ some e
parse-IsSpelled m k e t p d = rw (← t) (parse_op_token-token k p ∙ d)

op_token :
    (n : Text) (p : ParamMap) (is : List NodeId)
    → token (op n (params_canon p) []) ≡ token (op n p is)
unfolding token
op_token n p is = with_params-params_canon _ p

reduction_token :
    (n : Text) (p : ParamMap) (is : List NodeId)
    → token (reduction n (params_canon p) []) ≡ token (reduction n p is)
unfolding token
reduction_token n p is = with_params-params_canon _ p

-- A member is read back from the parts of its token, since the token has the canonical NaN too.
read_member-member_view :
    (m : StageOp) (k : NodeKey) (e : Text × Text × ParamMap)
    → token k ≡ m.token
    → decoded k ≡ some e
    → read_member (member_view m e) ≡ some m
unfolding decoded
read_member-member_view m (source n p) e t d = cc
read_member-member_view m (op n p is) e t d =
    let same : (codes "op", n, params_canon p) ≡ e = some_inj.0 d in
    rw (← same, read_refs-map m.inputs)
      (ap (λ s. some (record { token = s; inputs = m.inputs })) (op_token n p is ∙ t))
read_member-member_view m (reduction n p is) e t d =
    let same : (codes "red", n, params_canon p) ≡ e = some_inj.0 d in
    rw (← same, read_refs-map m.inputs)
      (ap (λ s. some (record { token = s; inputs = m.inputs })) (reduction_token n p is ∙ t))
read_member-member_view m (external x p is) e t d = cc
read_member-member_view m (stage is ms) e t d = cc

member_views-read :
    (ms : List StageOp)
    → All IsSpelled ms
    → (views : List MemberView) × (member_views ms ≡ ok views) × (read_members views ≡ some ms)
unfolding member_views
member_views-read [] h = ([], refl, refl)
member_views-read (m ∷ ms) h =
    let (k, e, t, p, d) = h.0 in
    let (rest, ends, back) = member_views-read ms h.1 in
    (
      member_view m e ∷ rest,
      rw (parse-IsSpelled m k e t p d, ends, member_views) refl,
      rw (read_member-member_view m k e t d, ◌>>=◌, back) refl,
    )

node_view-IsView :
    (outputs : List NodeId) (i : ℕ) (k : NodeKey)
    → AreSpelled k
    → (v : NodeView) × (node_view i (contains outputs i) k ≡ ok v) × IsView outputs i k v
unfolding node_view read_view Node.inputs
node_view-IsView outputs i (source n p) h = (
  _,
  refl,
  record { id = refl; output = refl; inputs = refl; entries = (refl, refl, refl); read = refl },
)
node_view-IsView outputs i (op n p is) h = (
  _,
  refl,
  record { id = refl; output = refl; inputs = refl; entries = (refl, refl, refl); read = refl },
)
node_view-IsView outputs i (reduction n p is) h = (
  _,
  refl,
  record { id = refl; output = refl; inputs = refl; entries = (refl, refl, refl); read = refl },
)
node_view-IsView outputs i (external d p is) h = (
  _,
  refl,
  record { id = refl; output = refl; inputs = refl; entries = (refl, refl, refl); read = refl },
)
node_view-IsView outputs i (stage is ms) h =
    let (views, e, back) = member_views-read ms h in
    let v : NodeView = record {
      id = i;
      output = contains outputs i;
      inputs = is;
      kind = codes "stage";
      name = [];
      params = [];
      descriptor = none;
      n_members = some (length ms);
      members = some views;
    } in
    (
      v,
      rw (e, node_view) refl,
      record {
        id = refl;
        output = refl;
        inputs = refl;
        entries = (refl, refl, refl, refl);
        read = rw (back, read_view) refl;
      },
    )

-- The entries from the `i`-th on.
abbrev pub AreViews : List NodeId → ℕ → List NodeKey → List NodeView → Type 0
AreViews outputs i [] [] = Unit
AreViews outputs i (k ∷ ks) (v ∷ vs) = IsView outputs i k v × AreViews outputs (suc i) ks vs
AreViews outputs i _ _ = ⊥

node_views-AreViews :
    (i : ℕ) (outputs : List NodeId) (ks : List NodeKey)
    → All AreSpelled ks
    → (vs : List NodeView) × (node_views i outputs ks ≡ ok vs) × AreViews outputs i ks vs
unfolding node_views
node_views-AreViews i outputs [] h = ([], refl, tt)
node_views-AreViews i outputs (k ∷ ks) h =
    let (v, e, is_view) = node_view-IsView outputs i k h.0 in
    let (vs, f, are_views) = node_views-AreViews (suc i) outputs ks h.1 in
    (v ∷ vs, rw (e, f, node_views) refl, (is_view, are_views))

pub nodes_view-AreViews :
    (g : Inner)
    → All AreSpelled g.nodes
    → (vs : List NodeView) × (nodes_view g ≡ ok vs) × AreViews g.outputs 0 g.nodes vs
unfolding nodes_view
nodes_view-AreViews g h = node_views-AreViews 0 g.outputs g.nodes h
