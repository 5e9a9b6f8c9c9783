-- ===== src/Store/Sharing.antt =====
-- Interning: keys share an id exactly when they are equal, in whatever order they arrive.
use graphed_core_mvp.Base.{
  ◌<◌, ◌≤◌, ◌≡◌, refl, sym, ◌∙◌, ◌↔◌, true, List, [], ◌∷◌, none, some, arith, length,
  get_elem?-append, All, All-imp, length-append, Result, ok, err,
}
use graphed_core_mvp.Node.{NodeId, NodeKey, key_eq, inputs}
use graphed_core_mvp.Node.Identity.{key_eq_euclid, inputs-key_eq}
use graphed_core_mvp.Store.{get, first_bad, Inner, intern_valid, intern, BadNodeId, bad_node_id}
use graphed_core_mvp.Store.Arena.{
  get-append, get_cong, first_bad-All, first_bad-none, first_bad-some,
}
use graphed_core_mvp.Store.Invariant.{IsValid}
use graphed_core_mvp.Store.Intern.{
  pushed, Interned, refused, present, added, intern-Interned, intern-IsValid, intern-get_elem?,
  intern-nodes,
}

intern-present :
    (k : NodeKey) (g : Inner) (id : NodeId)
    → first_bad (length g.nodes) (inputs k) ≡ none
    → get k g.table ≡ some id
    → intern k g ≡ (g, ok id)
unfolding intern intern_valid
intern-present k g id e f = rw (e, intern, f, intern_valid)

first_bad-pushed :
    (k : NodeKey) (g : Inner) (is : List NodeId)
    → first_bad (length g.nodes) is ≡ none
    → first_bad (length (pushed k g).nodes) is ≡ none
first_bad-pushed k g is h = first_bad-none _ is (
    All-imp is (λ i b. omega (arith, length-append {0} g.nodes (k ∷ [])))
      (first_bad-All (length g.nodes) is h))

get-single : (a b : NodeKey) (id : NodeId) → key_eq a b ≡ true → get b ((a, id) ∷ []) ≡ some id
unfolding get
get-single a b id h = rw h

module _ {a : NodeKey} (b : NodeKey) {g : Inner} (same : key_eq a b ≡ true) where
  Interned-again :
      {r : Inner × Result BadNodeId NodeId} (id : NodeId)
      → Interned a g r
      → r.1 ≡ ok id
      → intern b r.0 ≡ (r.0, ok id)
  Interned-again id (refused c e) h = cc
  Interned-again id (present i e f) h =
      intern-present b g id (rw (inputs-key_eq a b same) at e)
        (sym (get_cong a b g.table same) ∙ f ∙ cc)
  Interned-again id (added e f) h =
      intern-present b (pushed a g) id
        (first_bad-pushed a g (inputs b) (rw (inputs-key_eq a b same) at e))
        (get-append b g.table _ (sym (get_cong a b g.table same) ∙ f)
          ∙ get-single a b (length g.nodes) same
          ∙ cc)

-- Once a key is interned, each equal key is found: it gets the same id and adds nothing.
pub intern_again :
    (a b : NodeKey) (g : Inner) (id : NodeId)
    → key_eq a b ≡ true
    → (intern a g).1 ≡ ok id
    → intern b (intern a g).0 ≡ ((intern a g).0, ok id)
intern_again a b g id same h = Interned-again b same id (intern-Interned a g) h

-- Two keys that are accepted one after the other get one id exactly when they are equal.
pub intern_identity :
    (a b : NodeKey) (g : Inner) (i j : NodeId)
    → IsValid g
    → (intern a g).1 ≡ ok i
    → (intern b (intern a g).0).1 ≡ ok j
    → (i ≡ j) ↔ (key_eq a b ≡ true)
intern_identity a b g i j v ha hb = (
  λ e.
      let (x, fx, ex) = intern-get_elem? a g i v ha in
      let (y, fy, ey) = intern-get_elem? b (intern a g).0 j (intern-IsValid a g v) hb in
      let (extra, grown) = intern-nodes b (intern a g).0 in
      let kept = get_elem?-append (intern a g).0.nodes extra i fx in
      let one : x ≡ y = cc (kept, fy, grown, e) in key_eq_euclid y a b (rw one at ex) ey,
  λ same. cc (intern_again a b g i same ha),
)

module _ {k : NodeKey} {g : Inner} where
  Interned-scoped :
      {r : Inner × Result BadNodeId NodeId} (id : NodeId)
      → Interned k g r
      → r.1 ≡ ok id
      → All (λ i. i < length g.nodes) (inputs k)
  Interned-scoped id (refused b e) h = cc
  Interned-scoped id (present i e f) h = first_bad-All (length g.nodes) (inputs k) e
  Interned-scoped id (added e f) h = first_bad-All (length g.nodes) (inputs k) e

  Interned-ok :
      {r : Inner × Result BadNodeId NodeId}
      → Interned k g r
      → first_bad (length g.nodes) (inputs k) ≡ none
      → (id : NodeId) × (r.1 ≡ ok id)
  Interned-ok (refused b e) h = cc
  Interned-ok (present i e f) h = (i, refl)
  Interned-ok (added e f) h = (length g.nodes, refl)

  Interned-err :
      {r : Inner × Result BadNodeId NodeId} (e : BadNodeId)
      → Interned k g r
      → r.1 ≡ err e
      → (b : NodeId) × (e ≡ bad_node_id b) × (length g.nodes ≤ b) × (r.0 ≡ g)
  Interned-err e (refused b h) eq =
      (b, ground arith, first_bad-some (length g.nodes) (inputs k) b h, refl)
  Interned-err e (present i h f) eq = cc
  Interned-err e (added h f) eq = cc

-- A key is accepted exactly when its inputs are in the arena.
pub intern-ok_iff :
    (k : NodeKey) (g : Inner)
    → ((id : NodeId) × ((intern k g).1 ≡ ok id)) ↔ All (λ i. i < length g.nodes) (inputs k)
intern-ok_iff k g = (
  λ (id, h). Interned-scoped id (intern-Interned k g) h,
  λ h. Interned-ok (intern-Interned k g) (first_bad-none (length g.nodes) (inputs k) h),
)

-- A refusal names an id that is not in the arena, and leaves the store as it was.
pub intern-err :
    (k : NodeKey) (g : Inner) (e : BadNodeId)
    → (intern k g).1 ≡ err e
    → (b : NodeId) × (e ≡ bad_node_id b) × (length g.nodes ≤ b) × ((intern k g).0 ≡ g)
intern-err k g e h = Interned-err e (intern-Interned k g) h
