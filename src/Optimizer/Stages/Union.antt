-- ===== src/Optimizer/Stages/Union.antt =====
-- `Dsu::union` merges two classes, seen as a function from nodes to their roots.
use graphed_core_mvp.Base.{
  ◌∙◌, ℕ, ◌<◌, ◌≡◌, refl, sym, false, arith, length, length-set, get_elem?, get_elem?-lt,
  get_elem?-set_same, get_elem?-set_other, set, some, ◌==◌, ==_iff, ltb, Bool-cases, inl, inr, ◌⊎◌,
  if◌then◌else◌, Result, ok,
}
use mathlib.Core.Option.{some_inj}
use graphed_core_mvp.Optimizer.{Halt, ◌>>=◌}
use graphed_core_mvp.Optimizer.Stages.{Dsu, find, union}
use graphed_core_mvp.Optimizer.Stages.Find.{Root, top, up, IsDsu, Root-ends, Root-unique, find-Root}

-- A union-find of `size` nodes whose roots are given by `root`.
pub record Roots (size : ℕ) (dsu : Dsu) (root : ℕ → ℕ) : Type 0 where
  pub is_dsu : IsDsu dsu
  pub sized : length dsu ≡ size
  pub way : (x : ℕ) → x < size → Root dsu (root x) x

-- The roots after the class of `high` was put below `low`.
abbrev pub merge : ℕ → ℕ → (ℕ → ℕ) → ℕ → ℕ
merge low high root x = if root x == high then low else root x

pub find-Roots :
    (size x : ℕ) (dsu : Dsu) (root : ℕ → ℕ)
    → Roots size dsu root
    → x < size
    → (new : Dsu) × (find dsu x ≡ ok (new, root x)) × Roots size new root
find-Roots size x dsu root h lt =
    let (new, r, e, w, d, long, kept) = find-Root dsu x h.is_dsu (rw h.sized lt) in
    let same : r ≡ root x = Root-unique dsu r (root x) x w (h.way x lt) in
    (
      new,
      rw same at e,
      record { is_dsu = d; sized = long ∙ h.sized; way = λ y l. kept (root y) y (h.way y l) },
    )

-- A root that gets a lower root as its parent.
module _ (dsu : Dsu) (low high : ℕ) (lt : low < high) (low_top : get_elem? dsu low ≡ some low)
    (high_top : get_elem? dsu high ≡ some high) where
  Root-low : Root (set dsu high low) low low
  Root-low = top (get_elem?-set_other dsu high low low (λ e. omega arith) ∙ low_top)

  Root-high : Root (set dsu high low) low high
  Root-high = up (get_elem?-set_same dsu high low (get_elem?-lt dsu high high_top)) lt Root-low

  Root-set : (s y : ℕ) → Root dsu s y → Root (set dsu high low) (if s == high then low else s) y
  Root-set s _ (top e) = elim (Bool-cases (s == high)) [
    | inl same ↦ rw (same, (==_iff s high).0 same) Root-high
    | inr other ↦ rw other (
        top
          (get_elem?-set_other dsu high s low (λ z. (let h = (==_iff s high).1 (sym z) in cc)) ∙ e))
  ]
  Root-set s _ (up {c} {p} e down w) =
      up
        (get_elem?-set_other dsu high c low
            (λ z. (let same : p ≡ c = some_inj.0 (sym e ∙ (rw z at high_top)) in omega arith))
          ∙ e)
        down (Root-set s p w)

  set-down : IsDsu dsu → IsDsu (set dsu high low)
  set-down d = record {
    down = λ i p h. (elim (Bool-cases (high == i)) [
      | inl same ↦
          let at : high ≡ i = (==_iff high i).0 same in
          let got : get_elem? (set dsu high low) i ≡ some low =
            rw (← at) (get_elem?-set_same dsu high low (get_elem?-lt dsu high high_top)) in
          let mine : low ≡ p = some_inj.0 (sym got ∙ h) in omega arith
      | inr other ↦
          d.down i p (
            sym (get_elem?-set_other dsu high i low (λ z. (let h = (==_iff high i).1 z in cc))) ∙ h)
    ]);
  }

  merge-Roots :
      (size : ℕ) (root : ℕ → ℕ)
      → Roots size dsu root
      → Roots size (set dsu high low) (merge low high root)
  merge-Roots size root h = record {
    is_dsu = set-down h.is_dsu;
    sized = length-set dsu high low ∙ h.sized;
    way = λ x l. Root-set (root x) x (h.way x l);
  }

-- Nothing is merged if the roots are the same.
merge-same :
    (size r : ℕ) (dsu : Dsu) (root : ℕ → ℕ) → Roots size dsu root → Roots size dsu (merge r r root)
merge-same size r dsu root h = record {
  is_dsu = h.is_dsu;
  sized = h.sized;
  way = λ x l. elim (Bool-cases (root x == r)) [
    | inl same ↦ rw (same, ← ((==_iff (root x) r).0 same)) (h.way x l)
    | inr other ↦ rw other (h.way x l)
  ];
}

-- A union ends, and one of the two classes is put below the root of the other.
pub record Merged (size a b : ℕ) (root : ℕ → ℕ) (r : Result Halt Dsu) : Type 0 where
  pub new : Dsu
  pub low : ℕ
  pub high : ℕ
  pub ends : r ≡ ok new
  pub which : ((low ≡ root a) × (high ≡ root b)) ⊎ ((low ≡ root b) × (high ≡ root a))
  pub roots : Roots size new (merge low high root)

pub union-Merged :
    (size a b : ℕ) (dsu : Dsu) (root : ℕ → ℕ)
    → Roots size dsu root
    → a < size
    → b < size
    → Merged size a b root (union dsu a b)
unfolding union
union-Merged size a b dsu root h la lb =
    let (dsu1, e1, h1) = find-Roots size a dsu root h la in
    let (dsu2, e2, h2) = find-Roots size b dsu1 root h1 lb in
    let ra = root a in
    let rb = root b in
    let top_a = Root-ends dsu2 ra a (h2.way a la) in
    let top_b = Root-ends dsu2 rb b (h2.way b lb) in
    elim (Bool-cases (ltb ra rb)) [
      | inl less ↦
          let lt : ra < rb = ground arith in
          let other : (ra == rb) ≡ false = ground arith in
          record {
            new = set dsu2 rb ra;
            low = ra;
            high = rb;
            ends = rw (e1, ◌>>=◌, e2, ◌>>=◌, less, other, union) refl;
            which = inl (refl, refl);
            roots = merge-Roots dsu2 ra rb lt top_a top_b size root h2;
          }
      | inr not_less ↦ elim (Bool-cases (ra == rb)) [
        | inl same ↦
            let at : ra ≡ rb = (==_iff ra rb).0 same in
            record {
              new = dsu2;
              low = rb;
              high = rb;
              ends = rw (e1, ◌>>=◌, e2, ◌>>=◌, not_less, same, union) refl;
              which = inr (refl, sym at);
              roots = merge-same size rb dsu2 root h2;
            }
        | inr other ↦
            let lt : rb < ra = ground arith in
            record {
              new = set dsu2 ra rb;
              low = rb;
              high = ra;
              ends = rw (e1, ◌>>=◌, e2, ◌>>=◌, not_less, other, union) refl;
              which = inr (refl, refl);
              roots = merge-Roots dsu2 rb ra lt top_b top_a size root h2;
            }
      ]
    ]
