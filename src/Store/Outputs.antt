-- ===== src/Store/Outputs.antt =====
-- `mark_output` keeps the invariant, and marks exactly the node that it is given.
use graphed_core_mvp.Base.{
  ◌<◌, ◌≤◌, ◌≡◌, refl, ◌↔◌, ◌⊎◌, true, false, List, [], ◌∷◌, ◌++◌, arith, length, leb, All-append,
  Bool-cases, inl, inr, ok, err,
}
use graphed_core_mvp.Node.{NodeId}
use graphed_core_mvp.Store.{Inner, contains, mark_output, bad_node_id}
use graphed_core_mvp.Store.Arena.{Chain-snoc}
use graphed_core_mvp.Store.Invariant.{IsNew, IsValid}

pub mark_output-bad :
    (o : NodeId) (g : Inner) → length g.nodes ≤ o → mark_output o g ≡ (g, err (bad_node_id o))
unfolding mark_output
mark_output-bad o g h = ground arith

pub mark_output-old :
    (o : NodeId) (g : Inner)
    → o < length g.nodes
    → contains g.outputs o ≡ true
    → mark_output o g ≡ (g, ok tt)
unfolding mark_output
mark_output-old o g h c = ground arith

pub mark_output-new :
    (o : NodeId) (g : Inner)
    → o < length g.nodes
    → contains g.outputs o ≡ false
    → mark_output o g ≡ (record g { outputs = g.outputs ++ o ∷ [] }, ok tt)
unfolding mark_output
mark_output-new o g h c = ground arith

pub mark_output-IsValid : (o : NodeId) (g : Inner) → IsValid g → IsValid (mark_output o g).0
mark_output-IsValid o g v = elim (Bool-cases (leb (length g.nodes) o)) [
  | inl bad ↦ rw (mark_output-bad o g (ground arith)) v
  | inr good ↦ elim (Bool-cases (contains g.outputs o)) [
    | inl old ↦ rw (mark_output-old o g (ground arith) old) v
    | inr fresh ↦ rw (mark_output-new o g (ground arith) fresh) (record {
      arena = v.arena;
      tabled = v.tabled;
      in_range =
          All-append (λ x. x < length g.nodes) g.outputs (o ∷ []) v.in_range (ground arith, tt);
      marked_once = Chain-snoc IsNew [] g.outputs o v.marked_once fresh;
    })
  ]
]

pub mark_output-nodes : (o : NodeId) (g : Inner) → (mark_output o g).0.nodes ≡ g.nodes
unfolding mark_output
mark_output-nodes o g = ground arith

contains-snoc :
    (os : List NodeId) (o p : NodeId)
    → (contains (os ++ o ∷ []) p ≡ true) ↔ ((contains os p ≡ true) ⊎ (p ≡ o))
unfolding contains
contains-snoc [] o p = ground arith
contains-snoc (q ∷ os) o p = ground (arith, contains-snoc os o p)

-- Marking a node of the arena succeeds, touches neither the nodes nor the table, and makes
-- exactly that node an output besides those that were.
pub mark_output_lem :
    (o : NodeId) (g : Inner)
    → o < length g.nodes
    → ((mark_output o g).1 ≡ ok tt)
      × ((mark_output o g).0.nodes ≡ g.nodes)
      × ((mark_output o g).0.table ≡ g.table)
      × ((p : NodeId)
          → (contains (mark_output o g).0.outputs p ≡ true)
            ↔ ((contains g.outputs p ≡ true) ⊎ (p ≡ o)))
mark_output_lem o g h = elim (Bool-cases (contains g.outputs o)) [
  | inl old ↦ rw (mark_output-old o g h old) (refl, refl, refl, λ p. (inl, λ c. ground arith))
  | inr fresh ↦
      rw (mark_output-new o g h fresh) (refl, refl, refl, λ p. contains-snoc g.outputs o p)
]
