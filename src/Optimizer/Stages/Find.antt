-- ===== src/Optimizer/Stages/Find.antt =====
-- `Dsu::find` ends, gives the root, and shortening the ways changes no root.
use graphed_core_mvp.Base.{
  length-set, get_elem?-lt, ℕ, zero, suc, ◌<◌, ◌≤◌, ◌≡◌, refl, sym, ap, ◌∙◌, inl, inr, Bool, true,
  false, List, Option, some, none, arith, length, get_elem?, get_elem?-some, get_elem?-set_same,
  get_elem?-set_other, set, ◌==◌, ==_iff, Bool-cases, Result, ok, err,
}
use mathlib.Core.Option.{some_inj}
use graphed_core_mvp.Optimizer.{Halt, panic, index, ◌>>=◌}
use graphed_core_mvp.Optimizer.Stages.{find, Dsu, find_root, compress}

-- The way from a node down to its root `r`.
pub data Root (parent : Dsu) (r : ℕ) : ℕ → Type 0 where
  top : get_elem? parent r ≡ some r → Root parent r r
  up : {c p : ℕ} → get_elem? parent c ≡ some p → p < c → Root parent r p → Root parent r c

-- Each parent is a node that is not above.
pub record IsDsu (parent : Dsu) : Type 0 where
  pub down : (i p : ℕ) → get_elem? parent i ≡ some p → p ≤ i

pub Root-le : (parent : Dsu) (r c : ℕ) → Root parent r c → r ≤ c
Root-le parent r _ (top e) = omega arith
Root-le parent r _ (up {c} {p} e lt w) = omega (arith, Root-le parent r p w)

pub Root-ends : (parent : Dsu) (r c : ℕ) → Root parent r c → get_elem? parent r ≡ some r
Root-ends parent r _ (top e) = e
Root-ends parent r _ (up {c} {p} e lt w) = Root-ends parent r p w

some-eq : (a b : ℕ) (o : Option ℕ) → o ≡ some a → o ≡ some b → a ≡ b
some-eq a b o h g = some_inj.0 (sym h ∙ g)

index-some : (xs : List ℕ) (i a : ℕ) → get_elem? xs i ≡ some a → index xs i ≡ ok a
index-some xs i a e =
    ap (λ (o : Option ℕ). elim o as (λ z. Result Halt ℕ) [ some b ↦ ok b | none ↦ err panic ]) e

find_root-top :
    (fuel : ℕ) (parent : Dsu) (x p : ℕ)
    → get_elem? parent x ≡ some p
    → (p == x) ≡ true
    → find_root (suc fuel) parent x ≡ ok x
unfolding find_root
find_root-top fuel parent x p e t =
    ap
      (λ (m : Result Halt ℕ).
        m >>= λ q. elim (q == x) [ true ↦ ok x | false ↦ find_root fuel parent q ])
      (index-some parent x p e)
    ∙ ap
        (λ (b : Bool). elim b as (λ z. Result Halt ℕ) [
          | true ↦ ok x
          | false ↦ find_root fuel parent p
        ])
        t

find_root-up :
    (fuel : ℕ) (parent : Dsu) (x p : ℕ)
    → get_elem? parent x ≡ some p
    → (p == x) ≡ false
    → find_root (suc fuel) parent x ≡ find_root fuel parent p
unfolding find_root
find_root-up fuel parent x p e t =
    ap
      (λ (m : Result Halt ℕ).
        m >>= λ q. elim (q == x) [ true ↦ ok x | false ↦ find_root fuel parent q ])
      (index-some parent x p e)
    ∙ ap
        (λ (b : Bool). elim b as (λ z. Result Halt ℕ) [
          | true ↦ ok x
          | false ↦ find_root fuel parent p
        ])
        t

compress-top :
    (fuel : ℕ) (parent : Dsu) (r c n : ℕ)
    → get_elem? parent c ≡ some n
    → (n == c) ≡ true
    → compress (suc fuel) parent r c ≡ ok parent
unfolding compress
compress-top fuel parent r c n e t =
    ap
      (λ (m : Result Halt ℕ).
        m >>= λ q. elim (q == c) [ true ↦ ok parent | false ↦ compress fuel (set parent c r) r q ])
      (index-some parent c n e)
    ∙ ap
        (λ (b : Bool). elim b as (λ z. Result Halt Dsu) [
          | true ↦ ok parent
          | false ↦ compress fuel (set parent c r) r n
        ])
        t

compress-up :
    (fuel : ℕ) (parent : Dsu) (r c n : ℕ)
    → get_elem? parent c ≡ some n
    → (n == c) ≡ false
    → compress (suc fuel) parent r c ≡ compress fuel (set parent c r) r n
unfolding compress
compress-up fuel parent r c n e t =
    ap
      (λ (m : Result Halt ℕ).
        m >>= λ q. elim (q == c) [ true ↦ ok parent | false ↦ compress fuel (set parent c r) r q ])
      (index-some parent c n e)
    ∙ ap
        (λ (b : Bool). elim b as (λ z. Result Halt Dsu) [
          | true ↦ ok parent
          | false ↦ compress fuel (set parent c r) r n
        ])
        t

-- The first loop finds the root.
find_root-Root :
    (fuel : ℕ) (parent : Dsu) (x : ℕ)
    → IsDsu parent
    → x < length parent
    → x < fuel
    → (r : ℕ) × (find_root fuel parent x ≡ ok r) × Root parent r x
unfolding find_root
find_root-Root zero parent x d h f = absurd (omega arith)
find_root-Root (suc fuel) parent x d h f =
    let (p, e) = get_elem?-some parent x h in
    let le = d.down x p e in
    elim (Bool-cases (p == x)) [
      | inl same ↦
          let at : p ≡ x = (==_iff p x).0 same in
          (x, find_root-top fuel parent x p e same, top (e ∙ ap some at))
      | inr other ↦
          let lt : p < x = ground arith in
          let (r, ends, w) = find_root-Root fuel parent p d (omega arith) (omega arith) in
          (r, find_root-up fuel parent x p e other ∙ ends, up e lt w)
    ]

pub Root-unique : (parent : Dsu) (r s c : ℕ) → Root parent r c → Root parent s c → r ≡ s
Root-unique parent r s _ (top e) (top f) = refl
Root-unique parent r s _ (top e) (up {c} {p} f lt w) =
    absurd (let same = some-eq r p _ e f in omega arith)
Root-unique parent r s _ (up {c} {p} e lt w) (top f) =
    absurd (let same = some-eq p s _ e f in omega arith)
Root-unique parent r s _ (up {c} {p} e lt w) (up {p = q} f lt' w') =
    let same = some-eq p q _ e f in Root-unique parent r s p w (rw same w')

-- Below a node that is not a root, the way goes on at its parent.
Root-next :
    (parent : Dsu) (r c n : ℕ)
    → Root parent r c
    → get_elem? parent c ≡ some n
    → n < c
    → Root parent r n
Root-next parent r _ n (top e) f lt = absurd (let same = some-eq r n _ e f in omega arith)
Root-next parent r _ n (up {c} {p} e lt' w) f lt = let same = some-eq n p _ f e in rw same w

module _ (parent : Dsu) (r c n : ℕ) (e : get_elem? parent c ≡ some n) (lt : n < c)
    (way : Root parent r c) where
  below : r < c
  below = let h = Root-le parent r n (Root-next parent r c n way e lt) in omega arith

  -- A shorter way from `c` changes no root.
  Root-set : (s y : ℕ) → Root parent s y → Root (set parent c r) s y
  Root-set s _ (top f) = top (
      get_elem?-set_other parent c s r
        (λ same. (let h = some-eq s n _ f (rw same at e) in omega arith))
      ∙ f)
  Root-set s _ (up {c = y} {p} f lt' w) = elim (Bool-cases (c == y)) [
    | inl same ↦
        let at : c ≡ y = (==_iff c y).0 same in
        let long : c < length parent = get_elem?-lt parent c e in
        let mine : Root parent s c = rw at (up f lt' w) in
        let top' : get_elem? (set parent c r) r ≡ some r =
          get_elem?-set_other parent c r r (λ z. (let h = below in omega arith))
          ∙ Root-ends parent r c way in
        rw (← at, Root-unique parent s r c mine way)
          (up (get_elem?-set_same parent c r long) below (top top'))
    | inr other ↦
        up (get_elem?-set_other parent c y r (λ z. (let h = (==_iff c y).1 z in cc)) ∙ f) lt'
          (Root-set s p w)
  ]

  set-IsDsu : IsDsu parent → IsDsu (set parent c r)
  set-IsDsu d = record {
    down = λ i p h. (elim (Bool-cases (c == i)) [
      | inl same ↦
          let at : c ≡ i = (==_iff c i).0 same in
          let long : c < length parent = get_elem?-lt parent c e in
          let got : get_elem? (set parent c r) i ≡ some r =
            rw (← at) (get_elem?-set_same parent c r long) in
          let mine : r ≡ p = some-eq r p _ got h in let b = below in omega arith
      | inr other ↦
          d.down i p
            (sym (get_elem?-set_other parent c i r (λ z. (let h = (==_iff c i).1 z in cc))) ∙ h)
    ]);
  }

-- What shortening the way from a node has to keep.
record Shortened (old new : Dsu) : Type 0 where
  pub dsu : IsDsu new
  pub size : length new ≡ length old
  pub kept : (s y : ℕ) → Root old s y → Root new s y

-- The second loop ends and keeps all roots.
compress-Root :
    (fuel : ℕ) (parent : Dsu) (r c : ℕ)
    → IsDsu parent
    → Root parent r c
    → c < length parent
    → c < fuel
    → (new : Dsu) × (compress fuel parent r c ≡ ok new) × Shortened parent new
compress-Root zero parent r c d w h f = absurd (omega arith)
compress-Root (suc fuel) parent r c d w h f =
    let (n, e) = get_elem?-some parent c h in
    let le = d.down c n e in
    elim (Bool-cases (n == c)) [
      | inl same ↦ (
        parent,
        compress-top fuel parent r c n e same,
        record { dsu = d; size = refl; kept = λ s y z. z },
      )
      | inr other ↦
          let lt : n < c = ground arith in
          let keep = Root-set parent r c n e lt w in
          let size = length-set parent c r in
          let (new, ends, k) =
            compress-Root fuel (set parent c r) r n (set-IsDsu parent r c n e lt w d)
              (keep r n (Root-next parent r c n w e lt)) (omega (arith, size)) (omega arith) in
          (
            new,
            compress-up fuel parent r c n e other ∙ ends,
            record { dsu = k.dsu; size = k.size ∙ size; kept = λ s y z. k.kept s y (keep s y z) },
          )
    ]

-- In a union-find in which no parent is above its node, looking a node up ends within the fuel that
-- it is given, with the root of the node. It leaves such a union-find, of the same size, in which
-- every node has the root that it had.
pub find-Root :
    (parent : Dsu) (x : ℕ)
    → IsDsu parent
    → x < length parent
    → (new : Dsu) × (r : ℕ) × (find parent x ≡ ok (new, r))
      × Root parent r x
      × IsDsu new
      × (length new ≡ length parent)
      × ((s y : ℕ) → Root parent s y → Root new s y)
unfolding find
find-Root parent x d h =
    let (r, e, w) = find_root-Root (suc (length parent)) parent x d h (omega arith) in
    let (new, f, k) = compress-Root (suc (length parent)) parent r x d w h (omega arith) in
    (new, r, rw (e, f, find) refl, w, k.dsu, k.size, k.kept)
