-- ===== src/Optimizer/Incremental/Canonical.antt =====
-- `canonicalize` gives a node whose value is that of the key.
use graphed_core_mvp.Base.{
  append-nil, ℕ, ◌<◌, ◌≤◌, ◌≡◌, refl, sym, ap, ◌∙◌, inl, inr, true, List, [], ◌∷◌, ◌++◌, map, arith,
  length, length-append, get_elem?-lt, some, get_or, All, ok, Bool-cases, Option-cases,
}
use mathlib.Core.Option.{some_inj}
use graphed_core_mvp.Node.{NodeKey, NodeId, op, inputs}
use graphed_core_mvp.Node.Identity.{inputs-key_eq}
use graphed_core_mvp.Store.{get}
use graphed_core_mvp.Store.Arena.{enumerate, get-enumerate, enumerate-push, insert-none, Chain-snoc}
use graphed_core_mvp.Optimizer.Engine.{is_in, symmetric_ops}
use graphed_core_mvp.Optimizer.Meaning.{IsScoped, IsOrdered, run}
use graphed_core_mvp.Optimizer.Values.{run-at, run-append, length-run, get_or-last}
use graphed_core_mvp.Optimizer.Incremental.{
  IncrementalReducer, is_identity, find_commuted, hash_cons, canonicalize,
}
use graphed_core_mvp.Optimizer.Incremental.Algebra.{Algebra}

one_element : (xs : List ℕ) → length xs ≡ 1 → (x : ℕ) × (xs ≡ x ∷ [])
one_element [] h = absurd (omega arith)
one_element (x ∷ []) h = (x, refl)
one_element (x ∷ y ∷ xs) h = absurd (omega arith)

module _ {ℓ} {A : Type ℓ} (algebra : Algebra A) (d : A) where
  -- The value of a node of an arena.
  abbrev pub value : List NodeKey → NodeId → A
  value nodes i = get_or (run algebra.apply d [] nodes) i d

  -- A node of the arena that has the value `v`.
  abbrev pub Has : List NodeKey → A → NodeId → Type ℓ
  Has nodes v i = (i < length nodes) × (value nodes i ≡ v)

  get-Has :
      (nodes : List NodeKey) (k : NodeKey) (id : NodeId)
      → IsOrdered nodes
      → get k (enumerate 0 nodes) ≡ some id
      → Has nodes (algebra.apply k (map (value nodes) (inputs k))) id
  get-Has nodes k id c h =
      let (n, j, at, found, same) = get-enumerate 0 nodes k id h in
      let e : id ≡ n = omega arith in
      rw (e, ← (inputs-key_eq j k same))
        (
          get_elem?-lt nodes n found,
          run-at inputs algebra.apply d nodes n j c found ∙ algebra.equal j k _ same,
        )

  find_commuted-Has :
      (nodes : List NodeKey) (k : NodeKey) (id : NodeId)
      → IsOrdered nodes
      → find_commuted k (enumerate 0 nodes) ≡ some id
      → Has nodes (algebra.apply k (map (value nodes) (inputs k))) id
  unfolding find_commuted inputs
  find_commuted-Has nodes (op n [] (a ∷ b ∷ [])) id c h =
      let key = op n [] (a ∷ b ∷ []) in
      let swapped = op n [] (b ∷ a ∷ []) in
      elim (Bool-cases (is_in n symmetric_ops)) [
        | inr other ↦ cc (rw (other, find_commuted) at h)
        | inl both ↦ elim (Option-cases (get key (enumerate 0 nodes))) [
          | inr (j, found) ↦
              let e : j ≡ id = some_inj.0 (rw (both, found, find_commuted) at h) in
              rw (← e) (get-Has nodes key j c found)
          | inl fresh ↦
              let (lt, same) = get-Has nodes swapped id c (rw (both, fresh, find_commuted) at h) in
              (lt, same ∙ algebra.symmetric n a b _ _ both)
        ]
      ]
  find_commuted-Has nodes _ id c h = cc

  -- The reducer `r'` is `r` with at most one more node, and its node `c` has the value `v`.
  pub record Grown (r r' : IncrementalReducer) (v : A) (c : NodeId) : Type ℓ where
    pub ordered : IsOrdered r'.canon_nodes
    pub tabled : r'.canon_table ≡ enumerate 0 r'.canon_nodes
    pub has : Has r'.canon_nodes v c
    pub more : List NodeKey
    pub grown : r'.canon_nodes ≡ r.canon_nodes ++ more
    pub few : length more ≤ 1
    pub same_map : r'.map ≡ r.map
    pub same_work : r'.total_work ≡ r.total_work

  stay-Grown :
      (r : IncrementalReducer) (v : A) (c : NodeId)
      → IsOrdered r.canon_nodes
      → r.canon_table ≡ enumerate 0 r.canon_nodes
      → Has r.canon_nodes v c
      → Grown r r v c
  stay-Grown r v c o t h = record {
    ordered = o;
    tabled = t;
    has = h;
    more = [];
    grown = sym (append-nil r.canon_nodes);
    few = omega arith;
    same_map = refl;
    same_work = refl;
  }

  hash_cons-Grown :
      (r : IncrementalReducer) (k : NodeKey)
      → IsOrdered r.canon_nodes
      → r.canon_table ≡ enumerate 0 r.canon_nodes
      → IsScoped r.canon_nodes k
      → Grown r
          (hash_cons k r).0
          (algebra.apply k (map (value r.canon_nodes) (inputs k)))
          (hash_cons k r).1
  unfolding hash_cons
  hash_cons-Grown r k o t h = elim (Option-cases (get k r.canon_table)) [
    | inr (id, found) ↦
        rw (found, hash_cons) (stay-Grown r _ id o t (get-Has r.canon_nodes k id o (rw t at found)))
    | inl fresh ↦
        let ws = run algebra.apply d [] r.canon_nodes in
        let v = algebra.apply k (map (value r.canon_nodes) (inputs k)) in
        let long : length r.canon_nodes ≡ length ws =
          omega (arith, length-run inputs algebra.apply d [] r.canon_nodes) in
        rw (fresh, hash_cons)
          (record {
            ordered = Chain-snoc IsScoped [] r.canon_nodes k o h;
            tabled =
                insert-none k (length r.canon_nodes) r.canon_table fresh
                ∙ ap (λ u. u ++ (k, length r.canon_nodes) ∷ []) t
                ∙ sym (enumerate-push r.canon_nodes k);
            has = (
              omega (arith, length-append r.canon_nodes (k ∷ [])),
              rw (run-append inputs algebra.apply d [] r.canon_nodes (k ∷ []))
                  (get_or-last ws v (length r.canon_nodes) d long),
            );
            more = k ∷ [];
            grown = refl;
            few = omega arith;
            same_map = refl;
            same_work = refl;
          })
  ]

  pub canonicalize-Grown :
      (r : IncrementalReducer) (k : NodeKey)
      → IsOrdered r.canon_nodes
      → r.canon_table ≡ enumerate 0 r.canon_nodes
      → IsScoped r.canon_nodes k
      → (is_identity k ≡ true → length (inputs k) ≡ 1)
      → (r' : IncrementalReducer) × (c : NodeId) × (canonicalize k r ≡ ok (r', c))
        × Grown r r' (algebra.apply k (map (value r.canon_nodes) (inputs k))) c
  unfolding canonicalize
  canonicalize-Grown r k o t h u = elim (Bool-cases (is_identity k)) [
    | inl same ↦
        let (i, e) = one_element (inputs k) (u same) in
        let scoped : All (λ j. j < length r.canon_nodes) (i ∷ []) = rw e at h in
        (
          r,
          i,
          rw (same, e, canonicalize) refl,
          stay-Grown r _ i o t
              (scoped.0, rw e (sym (algebra.identity k (value r.canon_nodes i) same))),
        )
    | inr other ↦ elim (Option-cases (find_commuted k r.canon_table)) [
      | inr (id, found) ↦ (
        r,
        id,
        rw (other, found, canonicalize) refl,
        stay-Grown r _ id o t (find_commuted-Has r.canon_nodes k id o (rw t at found)),
      )
      | inl fresh ↦ (
        (hash_cons k r).0,
        (hash_cons k r).1,
        rw (other, fresh, canonicalize) refl,
        hash_cons-Grown r k o t h,
      )
    ]
  ]
