-- ===== src/Store/Intern.antt =====
-- `intern` on each of its branches: it keeps the invariant, refuses what is out of range, and
-- gives equal keys one id.
use graphed_core_mvp.Base.{
  ◌≤◌, suc, append-nil, ◌≡◌, refl, sym, true, List, [], ◌∷◌, ◌++◌, none, some, arith, length,
  get_elem?, All-imp, Option-cases, inl, inr, length-append, Result, ok, err,
}
use graphed_core_mvp.Node.{NodeId, NodeKey, key_eq, inputs}
use graphed_core_mvp.Node.Identity.{key_eq_refl}
use graphed_core_mvp.Store.{get, first_bad, Inner, intern_valid, intern, BadNodeId, bad_node_id}
use graphed_core_mvp.Store.Arena.{
  Chain-snoc, enumerate-push, insert-none, get-enumerate, first_bad-All,
}
use graphed_core_mvp.Store.Invariant.{Fits, IsValid}

pub get_elem?-length :
    (ks : List NodeKey) (k : NodeKey) → get_elem? (ks ++ k ∷ []) (length ks) ≡ some k
get_elem?-length [] k = refl
get_elem?-length (j ∷ ks) k = get_elem?-length ks k

-- The store after `k` was put behind its nodes.
abbrev pub pushed : NodeKey → Inner → Inner
pushed k g = record g { nodes = g.nodes ++ k ∷ []; table = g.table ++ (k, length g.nodes) ∷ [] }

pub pushed-IsValid : (k : NodeKey) (g : Inner) → IsValid g → Fits g.nodes k → IsValid (pushed k g)
pushed-IsValid k g v f = record {
  arena = Chain-snoc Fits [] g.nodes k v.arena f;
  tabled = rw (v.tabled, enumerate-push g.nodes k);
  in_range =
      All-imp g.outputs (λ o h. omega (arith, length-append {0} g.nodes (k ∷ []))) v.in_range;
  marked_once = v.marked_once;
}

-- What `intern` can do, in full.
pub data Interned (k : NodeKey) (g : Inner) : Inner × Result BadNodeId NodeId → Type 0 where
  refused :
      (b : NodeId)
      → first_bad (length g.nodes) (inputs k) ≡ some b
      → Interned k g (g, err (bad_node_id b))
  present :
      (id : NodeId)
      → first_bad (length g.nodes) (inputs k) ≡ none
      → get k g.table ≡ some id
      → Interned k g (g, ok id)
  added :
      first_bad (length g.nodes) (inputs k) ≡ none
      → get k g.table ≡ none
      → Interned k g (pushed k g, ok (length g.nodes))

pub intern-Interned : (k : NodeKey) (g : Inner) → Interned k g (intern k g)
unfolding intern intern_valid
intern-Interned k g = elim (Option-cases (first_bad (length g.nodes) (inputs k))) [
  | inr (b, e) ↦ rw (e, intern) (refused b e)
  | inl e ↦ elim (Option-cases (get k g.table)) [
    | inr (id, f) ↦ rw (e, intern, f, intern_valid) (present id e f)
    | inl f ↦ rw (e, intern, f, intern_valid, insert-none k (length g.nodes) g.table f) (added e f)
  ]
]

module _ {k : NodeKey} {g : Inner} where
  Interned-IsValid :
      {r : Inner × Result BadNodeId NodeId} → Interned k g r → IsValid g → IsValid r.0
  Interned-IsValid (refused b e) v = v
  Interned-IsValid (present id e f) v = v
  Interned-IsValid (added e f) v =
      pushed-IsValid k g v
        (record { fresh = rw v.tabled at f; scoped = first_bad-All (length g.nodes) (inputs k) e })

  -- The id of a key that was accepted names an equal key in the new arena.
  Interned-get_elem? :
      {r : Inner × Result BadNodeId NodeId} (id : NodeId)
      → Interned k g r
      → IsValid g
      → r.1 ≡ ok id
      → (j : NodeKey) × (get_elem? r.0.nodes id ≡ some j) × (key_eq j k ≡ true)
  Interned-get_elem? id (refused b e) v h = cc
  Interned-get_elem? id (present i e f) v h =
      let (n, j, at, found, eq) = get-enumerate 0 g.nodes k i (rw v.tabled at f) in
      let same : id ≡ n = ground arith in (j, rw same found, eq)
  Interned-get_elem? id (added e f) v h =
      let same : id ≡ length g.nodes = ground arith in
      (k, rw same (get_elem?-length g.nodes k), key_eq_refl k)

  Interned-few :
      {r : Inner × Result BadNodeId NodeId}
      → Interned k g r
      → length r.0.nodes ≤ suc (length g.nodes)
  Interned-few (refused b e) = omega arith
  Interned-few (present id e f) = omega arith
  Interned-few (added e f) = omega (arith, length-append g.nodes (k ∷ []))

  Interned-nodes :
      {r : Inner × Result BadNodeId NodeId}
      → Interned k g r
      → (extra : List NodeKey) × (r.0.nodes ≡ g.nodes ++ extra)
  Interned-nodes (refused b e) = ([], sym (append-nil g.nodes))
  Interned-nodes (present id e f) = ([], sym (append-nil g.nodes))
  Interned-nodes (added e f) = (k ∷ [], refl)

-- `intern` keeps the invariant, whatever it returns.
pub intern-IsValid : (k : NodeKey) (g : Inner) → IsValid g → IsValid (intern k g).0
intern-IsValid k g v = Interned-IsValid (intern-Interned k g) v

pub intern-get_elem? :
    (k : NodeKey) (g : Inner) (id : NodeId)
    → IsValid g
    → (intern k g).1 ≡ ok id
    → (j : NodeKey) × (get_elem? (intern k g).0.nodes id ≡ some j) × (key_eq j k ≡ true)
intern-get_elem? k g id v h = Interned-get_elem? id (intern-Interned k g) v h

-- Nodes are only ever added behind those that are there.
pub intern-nodes :
    (k : NodeKey) (g : Inner) → (extra : List NodeKey) × ((intern k g).0.nodes ≡ g.nodes ++ extra)
intern-nodes k g = Interned-nodes (intern-Interned k g)

-- At most one node is added.
pub intern-few : (k : NodeKey) (g : Inner) → length (intern k g).0.nodes ≤ suc (length g.nodes)
intern-few k g = Interned-few (intern-Interned k g)
