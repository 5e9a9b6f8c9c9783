-- ===== src/Optimizer/Fusion/SingleUse.antt =====
-- The components of `FusionMode::SingleUse` may be fused.
use graphed_core_mvp.Base.{
  ap, ◌∙◌, ℕ, suc, ◌<◌, ◌≤◌, ◌≡◌, sym, Bool, false, List, [], ◌∷◌, arith, length, get_or, ◌==◌,
  ==_iff, ==_refl, Bool-cases, inl, inr, ◌⊎◌, if◌then◌else◌,
}
use graphed_core_mvp.Optimizer.{EngineNode}
use graphed_core_mvp.Optimizer.Stages.Union.{merge}
use graphed_core_mvp.Optimizer.Fusion.Maximal.{flag}

-- Classes that have one root after a merge had one before, or are the two that were merged.
merge-eq :
    (root : ℕ → ℕ) (a b low high x y : ℕ)
    → ((low ≡ root a) × (high ≡ root b)) ⊎ ((low ≡ root b) × (high ≡ root a))
    → merge low high root x ≡ merge low high root y
    → (root x ≡ root y)
      ⊎ (((root x ≡ root a) × (root y ≡ root b)) ⊎ ((root x ≡ root b) × (root y ≡ root a)))
merge-eq root a b low high x y which e = elim (Bool-cases (root x == high)) [
  | inl xs ↦ elim (Bool-cases (root y == high)) [
    | inl ys ↦ inl (ground (arith, ==_iff (root x) high, ==_iff (root y) high))
    | inr yo ↦
        let eh : root x ≡ high = (==_iff (root x) high).0 xs in
        let el : low ≡ root y = rw (xs, yo) at e in
        elim which [
          | inl (l, h) ↦ inr (inr (eh ∙ h, sym el ∙ l))
          | inr (l, h) ↦ inr (inl (eh ∙ h, sym el ∙ l))
        ]
  ]
  | inr xo ↦ elim (Bool-cases (root y == high)) [
    | inl ys ↦
        let eh : root y ≡ high = (==_iff (root y) high).0 ys in
        let el : root x ≡ low = rw (xo, ys) at e in
        elim which [
          | inl (l, h) ↦ inr (inl (el ∙ l, eh ∙ h))
          | inr (l, h) ↦ inr (inr (el ∙ l, eh ∙ h))
        ]
    | inr yo ↦ inl (rw (xo, yo) at e)
  ]
]

merge-both :
    (root : ℕ → ℕ) (a b low high : ℕ)
    → ((low ≡ root a) × (high ≡ root b)) ⊎ ((low ≡ root b) × (high ≡ root a))
    → merge low high root a ≡ merge low high root b
merge-both root a b low high which = elim which [
  | inl (l, h) ↦ rw (← l, ← h) (ground (arith, ==_refl high))
  | inr (l, h) ↦ rw (← l, ← h) (ground (arith, ==_refl high))
]

module _ (nodes : List EngineNode) (table : List (List ℕ)) (marks : List Bool) where
  -- `j` is the greatest node of its class.
  abbrev pub Top : (ℕ → ℕ) → ℕ → Type 0
  Top root j = (k : ℕ) → k < length nodes → root k ≡ root j → k ≤ j

  -- `j` is in one class with its only consumer, and neither is a boundary, and `j` is no output.
  pub record Edge (root : ℕ → ℕ) (j : ℕ) : Type 0 where
    pub c : ℕ
    pub only : get_or table j [] ≡ c ∷ []
    pub with_consumer : root j ≡ root c
    pub above : (j < c) × (c < length nodes)
    pub ops : (flag nodes j ≡ false) × (flag nodes c ≡ false)
    pub inner : get_or marks j false ≡ false

  -- The nodes before the `i`-th are united with their consumers.
  pub record United (i : ℕ) (root : ℕ → ℕ) : Type 0 where
    pub kinds : (j : ℕ) → j < length nodes → Top root j ⊎ Edge root j
    pub later : (j : ℕ) → i ≤ j → j < length nodes → Top root j
    pub unmixed :
        (a b : ℕ)
        → a < length nodes
        → b < length nodes
        → root a ≡ root b
        → (a ≡ b) ⊎ ((flag nodes a ≡ false) × (flag nodes b ≡ false))

  Edge-merge : (root : ℕ → ℕ) (low high j : ℕ) → Edge root j → Edge (merge low high root) j
  Edge-merge root low high j h = record {
    c = h.c;
    only = h.only;
    above = h.above;
    ops = h.ops;
    inner = h.inner;
    with_consumer = ap (λ r. if r == high then low else r) h.with_consumer;
  }

  -- The greatest node of a class other than that of `i`, where `i` is the greatest of its class.
  Top-merge :
      (root : ℕ → ℕ) (i c low high j : ℕ)
      → ((low ≡ root i) × (high ≡ root c)) ⊎ ((low ≡ root c) × (high ≡ root i))
      → Top root i
      → i < c
      → i < length nodes
      → c < length nodes
      → j < length nodes
      → (j ≡ i → ⊥)
      → Top root j
      → Top (merge low high root) j
  Top-merge root i c low high j which ti ic li lc lj other tj k lk e =
      elim (merge-eq root i c low high k j which e) [
        | inl same ↦ tj k lk same
        | inr (inl (ki, jc)) ↦ omega (arith, ti k lk ki, tj c lc (sym jc))
        | inr (inr (kc, ji)) ↦
            absurd (other (let a = ti j lj ji in let b = tj i li (sym ji) in omega arith))
      ]

  -- What is in the class of an op is an op.
  in_class :
      {i : ℕ} (a b : ℕ) (root : ℕ → ℕ)
      → United i root
      → a < length nodes
      → b < length nodes
      → root a ≡ root b
      → flag nodes b ≡ false
      → flag nodes a ≡ false
  in_class a b root h la lb e op = elim (h.unmixed a b la lb e) [
    | inl same ↦ rw same op
    | inr both ↦ both.0
  ]

  -- A node that stays the greatest of its class.
  pub stay-United : (i : ℕ) (root : ℕ → ℕ) → United i root → United (suc i) root
  stay-United i root h = record {
    kinds = h.kinds;
    later = λ j le lj. h.later j (omega arith) lj;
    unmixed = h.unmixed;
  }

  -- The node `i` is united with its only consumer.
  pub join-United :
      (i c low high : ℕ) (root : ℕ → ℕ)
      → ((low ≡ root i) × (high ≡ root c)) ⊎ ((low ≡ root c) × (high ≡ root i))
      → United i root
      → get_or table i [] ≡ c ∷ []
      → i < c
      → c < length nodes
      → flag nodes i ≡ false
      → flag nodes c ≡ false
      → get_or marks i false ≡ false
      → United (suc i) (merge low high root)
  join-United i c low high root which h only ic lc op opc inner =
      let li : i < length nodes = omega arith in
      let ti = h.later i (omega arith) li in
      let same = λ (j : ℕ) (lj : j < length nodes) (o : j ≡ i → ⊥) (t : Top root j).
        Top-merge root i c low high j which ti ic li lc lj o t in
      record {
        kinds = λ j lj. elim (Bool-cases (j == i)) [
          | inl at ↦
              let ji : j ≡ i = (==_iff j i).0 at in
              inr (
                rw (ji) (record {
                  c = c;
                  only = only;
                  with_consumer = merge-both root i c low high which;
                  above = (ic, lc);
                  ops = (op, opc);
                  inner = inner;
                }))
          | inr apart ↦ elim (h.kinds j lj) [
            | inl t ↦ inl (same j lj (λ e. (let z = (==_iff j i).1 e in cc)) t)
            | inr edge ↦ inr (Edge-merge root low high j edge)
          ]
        ];
        later = λ j le lj. same j lj (λ e. omega arith) (h.later j (omega arith) lj);
        unmixed = λ a b la lb e. elim (merge-eq root i c low high a b which e) [
          | inl old ↦ h.unmixed a b la lb old
          | inr (inl (ai, bc)) ↦
              inr (in_class a i root h la li ai op, in_class b c root h lb lc bc opc)
          | inr (inr (ac, bi)) ↦
              inr (in_class a c root h la lc ac opc, in_class b i root h lb li bi op)
        ];
      }
