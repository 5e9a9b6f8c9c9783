-- ===== src/Optimizer/Incremental/Sound.antt =====
-- The reducer takes an arena piece by piece, and each node of the arena keeps its value.
use graphed_core_mvp.Base.{
  length-map, get_elem?-get_or, ℕ, suc, ◌+◌, ◌<◌, ◌≤◌, ◌≡◌, refl, sym, ap, ◌∙◌, inl, inr, true,
  List, [], ◌∷◌, ◌++◌, map, arith, length, length-append, none, get_or, All, ok, append_assoc,
  append-nil,
}
use graphed_core_mvp.Node.{token, NodeKey, NodeId, op, inputs, with_inputs}
use graphed_core_mvp.Store.Arena.{Chain, enumerate}
use graphed_core_mvp.Optimizer.Dce.{usize_max}
use graphed_core_mvp.Optimizer.Dce.Compact.{Agree, Same-append, map-Agree, lt-suc}
use graphed_core_mvp.Optimizer.Dce.Ranges.{renumbered}
use graphed_core_mvp.Optimizer.Meaning.{IsScoped, IsOrdered, inputs-with_inputs, run}
use graphed_core_mvp.Optimizer.Values.{run-append, get_or-last}
use graphed_core_mvp.Optimizer.Incremental.{
  IncrementalReducer, is_identity, resolve, consume, consume_all, settle, step, fresh,
}
use graphed_core_mvp.Optimizer.Incremental.Algebra.{Algebra}
use graphed_core_mvp.Optimizer.Incremental.Canonical.{value, Grown, canonicalize-Grown}

-- An op that is its first input has no other.
abbrev pub IsUnary : NodeKey → Type 0
IsUnary k = is_identity k ≡ true → length (inputs k) ≡ 1

resolve-ok :
    (m is : List NodeId)
    → All (λ j. j < length m) is
    → resolve m is ≡ ok (map (λ x. get_or m x usize_max) is)
unfolding resolve
resolve-ok m [] h = refl
resolve-ok m (i ∷ is) h = rw (get_elem?-get_or m i usize_max h.0, resolve-ok m is h.1, resolve) refl

is_identity-with_inputs :
    (k : NodeKey) (ins : List NodeId) → is_identity (with_inputs k ins) ≡ is_identity k
unfolding is_identity with_inputs token
is_identity-with_inputs (op n p is) ins = refl
is_identity-with_inputs _ ins = refl

module _ {ℓ} {A : Type ℓ} (algebra : Algebra A) (d : A) where
  abbrev IsAgreed : List NodeId → List NodeKey → List A → ℕ → Type ℓ
  IsAgreed = Agree algebra.apply d (λ j. Unit {0})

  -- The reducer holds the arena `pre`: each node of it has its value in the canonical arena, which
  -- is not larger, refers to earlier nodes only, and is what the table holds.
  pub record IsReduced (pre : List NodeKey) (r : IncrementalReducer) : Type ℓ where
    pub agree : IsAgreed r.map r.canon_nodes (run algebra.apply d [] pre) (length pre)
    pub ordered : IsOrdered r.canon_nodes
    pub tabled : r.canon_table ≡ enumerate 0 r.canon_nodes
    pub few : length r.canon_nodes ≤ length pre

  pub fresh-IsReduced : IsReduced [] fresh
  fresh-IsReduced = record {
    agree = record { counted = refl; valued = refl; same = λ j lt. absurd (omega arith) };
    ordered = tt;
    tabled = refl;
    few = omega arith;
  }

  canonical-scoped :
      (m : List NodeId) (nodes : List NodeKey) (vs : List A) (n : ℕ) (ins : List NodeId)
      → IsAgreed m nodes vs n
      → All (λ j. j < n) ins
      → All (λ j. j < length nodes) (map (λ x. get_or m x usize_max) ins)
  canonical-scoped m nodes vs n [] a h = tt
  canonical-scoped m nodes vs n (i ∷ ins) a h =
      ((a.same i h.0 tt).0, canonical-scoped m nodes vs n ins a h.1)

  All-Unit : (ins : List NodeId) → All (λ j. Unit {0}) ins
  All-Unit [] = tt
  All-Unit (i ∷ ins) = (tt, All-Unit ins)

  -- The value of a node in the canonical arena, from its canonical inputs.
  canonical_value :
      (pre : List NodeKey) (r : IncrementalReducer) (k : NodeKey)
      → IsReduced pre r
      → IsScoped pre k
      → algebra.apply
          (renumbered r.map k)
          (map (value algebra d r.canon_nodes) (inputs (renumbered r.map k)))
        ≡ algebra.apply k (map (λ i. get_or (run algebra.apply d [] pre) i d) (inputs k))
  canonical_value pre r k h s =
      algebra.uniform k _ _
      ∙ ap (algebra.apply k) (
          rw (inputs-with_inputs (λ x. get_or r.map x usize_max) k) (
            map-Agree algebra.apply d (λ j. Unit {0}) r.map r.canon_nodes
              (run algebra.apply d [] pre) (length pre) (inputs k) h.agree s (All-Unit (inputs k))))

  -- The new node has its value in the canonical arena, and the others keep theirs.
  grown_agree :
      (m : List NodeId) (nodes more : List NodeKey) (vs : List A) (n : ℕ) (v : A) (c : NodeId)
      → IsAgreed m nodes vs n
      → c < length (nodes ++ more)
      → value algebra d (nodes ++ more) c ≡ v
      → IsAgreed (m ++ c ∷ []) (nodes ++ more) (vs ++ v ∷ []) (suc n)
  grown_agree m nodes more vs n v c a lt e = record {
    counted = omega (arith, length-append m (c ∷ []), a.counted);
    valued = omega (arith, length-append vs (v ∷ []), a.valued);
    same = λ j h q. elim (lt-suc j n h) [
      | inl old ↦
          Same-append algebra.apply d (λ j. Unit {0}) m _ nodes more vs _ j (rw a.counted old)
            (rw a.valued old) (a.same j old q)
      | inr new ↦
          rw
            (
              get_or-last m c j usize_max (new ∙ sym a.counted),
              get_or-last vs v j d (new ∙ sym a.valued),
            )
            (lt, e)
    ];
  }

  Grown-IsReduced :
      (pre : List NodeKey) (r r' : IncrementalReducer) (k : NodeKey) (v : A) (c : NodeId)
      → IsReduced pre r
      → Grown algebra d r r' v c
      → v ≡ algebra.apply k (map (λ i. get_or (run algebra.apply d [] pre) i d) (inputs k))
      → IsReduced (pre ++ k ∷ []) (record r' { map = r'.map ++ c ∷ [] })
  Grown-IsReduced pre r r' k v c h g e =
      let ws = run algebra.apply d [] pre in
      let w = algebra.apply k (map (λ i. get_or ws i d) (inputs k)) in
      let long : length (pre ++ k ∷ []) ≡ suc (length pre) =
        omega (arith, length-append pre (k ∷ [])) in
      let size : length r'.canon_nodes ≡ length r.canon_nodes + length g.more =
        ap length g.grown ∙ length-append r.canon_nodes g.more in
      let has = rw g.grown at g.has in
      record {
        agree =
            rw (run-append inputs algebra.apply d [] pre (k ∷ []), long, g.grown, g.same_map)
              (grown_agree r.map r.canon_nodes g.more ws (length pre) w c h.agree has.0
                (has.1 ∙ e));
        ordered = g.ordered;
        tabled = g.tabled;
        few = omega (arith, size, long, g.few, h.few);
      }

  consume-IsReduced :
      (pre : List NodeKey) (r : IncrementalReducer) (k : NodeKey)
      → IsReduced pre r
      → IsScoped pre k
      → IsUnary k
      → (r' : IncrementalReducer) × (consume k r ≡ ok r')
        × IsReduced (pre ++ k ∷ []) r'
        × (r'.total_work ≡ r.total_work)
  unfolding consume
  consume-IsReduced pre r k h s u =
      let scoped : All (λ j. j < length r.map) (inputs k) = rw h.agree.counted s in
      let renamed = inputs-with_inputs (λ x. get_or r.map x usize_max) k in
      let unary : IsUnary (renumbered r.map k) = λ i. rw renamed (
        length-map (λ x. get_or r.map x usize_max) (inputs k)
        ∙ u (sym (is_identity-with_inputs k _) ∙ i)) in
      let (r', c, ends, g) =
        canonicalize-Grown algebra d r (renumbered r.map k) h.ordered h.tabled
          (rw renamed (canonical-scoped r.map r.canon_nodes _ _ (inputs k) h.agree s)) unary in
      (
        record r' { map = r'.map ++ c ∷ [] },
        rw (resolve-ok r.map (inputs k) scoped, ends, consume) refl,
        Grown-IsReduced pre r r' k _ c h g (canonical_value pre r k h s),
        g.same_work,
      )

  consume_all-IsReduced :
      (pre delta : List NodeKey) (r : IncrementalReducer)
      → IsReduced pre r
      → Chain IsScoped pre delta
      → All IsUnary delta
      → (r' : IncrementalReducer) × (consume_all delta r ≡ (r', none))
        × IsReduced (pre ++ delta) r'
        × (r'.total_work ≡ r.total_work)
  unfolding consume_all
  consume_all-IsReduced pre [] r h c u = (r, refl, rw append-nil h, refl)
  consume_all-IsReduced pre (k ∷ delta) r h c u =
      let (r1, e, h1, w1) = consume-IsReduced pre r k h c.0 u.0 in
      let (r2, e2, h2, w2) = consume_all-IsReduced (pre ++ k ∷ []) delta r1 h1 c.1 u.1 in
      (r2, rw (e, consume_all) e2, rw append_assoc at h2, w2 ∙ w1)

  retotal-IsReduced :
      (pre : List NodeKey) (r : IncrementalReducer) (w : ℕ)
      → IsReduced pre r
      → IsReduced pre (record r { total_work = w })
  retotal-IsReduced pre r w h = record {
    agree = h.agree;
    ordered = h.ordered;
    tabled = h.tabled;
    few = h.few;
  }

  -- If the reducer holds an arena, a step with nodes that refer to earlier nodes of the longer
  -- arena only, in which each identity op has one input, succeeds: it reports as many nodes as the
  -- step has, adds them to the work, and the reducer then holds the longer arena.
  pub step-IsReduced :
      (pre delta : List NodeKey) (r : IncrementalReducer)
      → IsReduced pre r
      → Chain IsScoped pre delta
      → All IsUnary delta
      → ((step delta r).1 ≡ ok (length delta))
        × IsReduced (pre ++ delta) (step delta r).0
        × ((step delta r).0.total_work ≡ r.total_work + length delta)
  unfolding step
  step-IsReduced pre delta r h c u =
      let (r', e, h', w) = consume_all-IsReduced pre delta r h c u in
      rw (ap (settle (length delta)) e) (
        refl,
        retotal-IsReduced (pre ++ delta) r' (r'.total_work + length delta) h',
        ap (λ t. t + length delta) w,
      )
