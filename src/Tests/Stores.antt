-- ===== src/Tests/Stores.antt =====
-- src/store.rs at small inputs.
use graphed_core_mvp.Param.{params_eq}
use graphed_core_mvp.Base.{
  ℕ, ◌<◌, ◌≤◌, ◌≡◌, refl, ◌↔◌, ◌⊎◌, true, [], ◌∷◌, some, arith, length, get_elem?, All, ok,
}
use graphed_core_mvp.Text.{codes}
use graphed_core_mvp.Node.{NodeKey, NodeId, source, op, key_eq, inputs}
use graphed_core_mvp.Store.{intern_valid, Inner, empty, intern, mark_output, contains, bad_node_id}
use graphed_core_mvp.Store.Invariant.{IsValid, empty-IsValid}
use graphed_core_mvp.Store.Intern.{intern-IsValid}
use graphed_core_mvp.Store.Sharing.{intern_identity, intern-ok_iff, intern-err}
use graphed_core_mvp.Store.Outputs.{mark_output_lem}
use graphed_core_mvp.Store.Reach.{
  Reach, here, next, add, mark, Reach-IsValid, Reach-get_elem?, race_one_id,
}

abbrev events : NodeKey
events = source (codes "events") []

abbrev pt : NodeKey
pt = op (codes "pt") [] (0 ∷ [])

abbrev one : Inner
one = record { nodes = events ∷ []; table = (events, 0) ∷ []; outputs = [] }

abbrev two : Inner
two = record { nodes = events ∷ pt ∷ []; table = (events, 0) ∷ (pt, 1) ∷ []; outputs = [] }

intern-events : intern events empty ≡ (one, ok 0)
unfolding intern inputs intern_valid
intern-events = refl

intern-pt : intern pt one ≡ (two, ok 1)
unfolding intern inputs key_eq intern_valid
intern-pt = refl

interned_twice : intern pt two ≡ (two, ok 1)
unfolding intern inputs key_eq intern_valid params_eq
interned_twice = refl

one-IsValid : IsValid one
unfolding intern inputs intern_valid
one-IsValid = intern-IsValid events empty empty-IsValid

intern-IsValid_example : IsValid (intern pt one).0
intern-IsValid_example = intern-IsValid pt one one-IsValid

intern_identity_example : (◌≡◌ {A = ℕ} 1 1) ↔ (key_eq pt pt ≡ true)
unfolding intern inputs key_eq intern_valid params_eq
intern_identity_example = intern_identity pt pt one 1 1 one-IsValid refl refl

intern-ok_iff_example :
    ((id : NodeId) × ((intern pt one).1 ≡ ok id)) ↔ All (λ i. i < length one.nodes) (inputs pt)
intern-ok_iff_example = intern-ok_iff pt one

intern-err_example :
    (b : NodeId) × (bad_node_id 0 ≡ bad_node_id b)
    × (length empty.nodes ≤ b)
    × ((intern pt empty).0 ≡ empty)
unfolding intern inputs
intern-err_example = intern-err pt empty (bad_node_id 0) refl

mark_output_lem_example :
    ((mark_output 0 one).1 ≡ ok tt)
    × ((mark_output 0 one).0.nodes ≡ one.nodes)
    × ((mark_output 0 one).0.table ≡ one.table)
    × ((p : NodeId)
        → (contains (mark_output 0 one).0.outputs p ≡ true)
          ↔ ((contains one.outputs p ≡ true) ⊎ (p ≡ 0)))
mark_output_lem_example = mark_output_lem 0 one (omega arith)

Reach-IsValid_example : IsValid (mark_output 0 (intern events empty).0).0
Reach-IsValid_example = Reach-IsValid (next (next here (add events)) (mark 0)) empty-IsValid

Reach-get_elem?_example : get_elem? (mark_output 1 (intern pt one).0).0.nodes 0 ≡ some events
Reach-get_elem?_example = Reach-get_elem? 0 events (next (next here (add pt)) (mark 1)) refl

one-Reach : Reach empty one
unfolding intern inputs intern_valid
one-Reach = next here (add events)

race_one_id_example : ◌≡◌ {A = ℕ} 1 1
unfolding intern inputs key_eq params_eq intern_valid
race_one_id_example = race_one_id pt pt 1 1 one-Reach refl refl here refl
