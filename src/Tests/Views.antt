-- ===== src/Tests/Views.antt =====
-- What Python sees of a reduced graph.
use graphed_core_mvp.Base.{◌≡◌, refl, List, [], ◌∷◌, ok}
use graphed_core_mvp.Text.{codes}
use graphed_core_mvp.Param.Identity.{params_canon}
use graphed_core_mvp.Node.{StageOp, op, reduction, stage, input, member, token}
use graphed_core_mvp.Node.Token.{decoded}
use graphed_core_mvp.Store.{Inner, empty}
use graphed_core_mvp.Bindings.View.{NodeView, nodes_view}
use graphed_core_mvp.Bindings.View.Reading.{AreViews, nodes_view-AreViews}
use graphed_core_mvp.Tests.Optimizers.{jet}
use graphed_core_mvp.Tests.Params.{cut, cut-IsParams}

abbrev members : List StageOp
members =
    record { token = token (op (codes "gt") cut (0 ∷ [])); inputs = input 0 ∷ [] }
    ∷ record { token = token (reduction (codes "sum") [] (1 ∷ [])); inputs = member 0 ∷ [] }
    ∷ []

abbrev reduced : Inner
reduced = record empty { nodes = jet ∷ stage (0 ∷ []) members ∷ []; outputs = 1 ∷ [] }

nodes_view-AreViews_example :
    (vs : List NodeView) × (nodes_view reduced ≡ ok vs) × AreViews (1 ∷ []) 0 reduced.nodes vs
unfolding decoded
nodes_view-AreViews_example = nodes_view-AreViews reduced (
  tt,
  (
    (
      (
        op (codes "gt") cut (0 ∷ []),
        (codes "op", codes "gt", params_canon cut),
        refl,
        cut-IsParams,
        refl,
      ),
      (
        (reduction (codes "sum") [] (1 ∷ []), (codes "red", codes "sum", []), refl, (tt, tt), refl),
        tt,
      ),
    ),
    tt,
  ),
)
