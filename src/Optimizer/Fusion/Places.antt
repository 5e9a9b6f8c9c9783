-- ===== src/Optimizer/Fusion/Places.antt =====
-- The lists of nodes that `stage_fusion` makes: places in a list, members of a component, heads.
use graphed_core_mvp.Base.{
  ap, ◌∙◌, ℕ, zero, suc, ◌+◌, ◌<◌, ◌≤◌, ◌≡◌, refl, sym, true, false, List, [], ◌∷◌, ◌++◌, arith,
  length, get_elem?, some, none, ◌==◌, ==_iff, ==_refl, Bool-cases, inl, inr,
}
use mathlib.Core.Option.{some_inj}
use graphed_core_mvp.Optimizer.Engine.{lookup}
use graphed_core_mvp.Optimizer.Stages.{members_of, among}
use graphed_core_mvp.Optimizer.Fusion.{enumerate_from}

pub enumerate_from-some :
    (i : ℕ) (ys : List ℕ) (x k : ℕ)
    → lookup x (enumerate_from i ys) ≡ some k
    → (n : ℕ) × (k ≡ i + n) × (get_elem? ys n ≡ some x)
enumerate_from-some i [] x k h = cc
enumerate_from-some i (y ∷ ys) x k h = elim (Bool-cases (y == x)) [
  | inl same ↦
      let at : i ≡ k = some_inj.0 (rw (same, lookup) at h) in
      (0, omega arith, ap some ((==_iff y x).0 same))
  | inr other ↦
      let (n, e, g) = enumerate_from-some (suc i) ys x k (rw (other, lookup) at h) in
      (suc n, omega arith, g)
]

pub enumerate_from-none :
    (i : ℕ) (ys : List ℕ) (x n : ℕ)
    → lookup x (enumerate_from i ys) ≡ none
    → get_elem? ys n ≡ some x
    → ⊥
enumerate_from-none i [] x n h g = cc
enumerate_from-none i (y ∷ ys) x zero h g = ground arith
enumerate_from-none i (y ∷ ys) x (suc n) h g = elim (Bool-cases (y == x)) [
  | inl same ↦ cc (rw (same, lookup) at h)
  | inr other ↦ enumerate_from-none (suc i) ys x n (rw (other, lookup) at h) g
]

members_of-same :
    (c i k : ℕ) (comp : List ℕ)
    → (k == c) ≡ true
    → members_of c i (k ∷ comp) ≡ i ∷ members_of c (suc i) comp
members_of-same c i k comp h = rw (h, members_of) refl

members_of-other :
    (c i k : ℕ) (comp : List ℕ)
    → (k == c) ≡ false
    → members_of c i (k ∷ comp) ≡ members_of c (suc i) comp
members_of-other c i k comp h = rw (h, members_of) refl

pub members_of-at :
    (c i : ℕ) (comp : List ℕ) (n x : ℕ)
    → get_elem? (members_of c i comp) n ≡ some x
    → (m : ℕ) × (x ≡ i + m) × (get_elem? comp m ≡ some c)
members_of-at c i [] n x h = cc
members_of-at c i (k ∷ comp) zero x h = elim (Bool-cases (k == c)) [
  | inl same ↦
      let z : i ≡ x = some_inj.0 (rw (members_of-same c i k comp same) at h) in
      (0, omega arith, ap some ((==_iff k c).0 same))
  | inr other ↦
      let (m, e, g) =
        members_of-at c (suc i) comp zero x (rw (members_of-other c i k comp other) at h) in
      (suc m, omega arith, g)
]
members_of-at c i (k ∷ comp) (suc n) x h = elim (Bool-cases (k == c)) [
  | inl same ↦
      let (m, e, g) =
        members_of-at c (suc i) comp n x (rw (members_of-same c i k comp same) at h) in
      (suc m, omega arith, g)
  | inr other ↦
      let (m, e, g) =
        members_of-at c (suc i) comp (suc n) x (rw (members_of-other c i k comp other) at h) in
      (suc m, omega arith, g)
]

pub members_of-has :
    (c i : ℕ) (comp : List ℕ) (m : ℕ)
    → get_elem? comp m ≡ some c
    → (n : ℕ) × (get_elem? (members_of c i comp) n ≡ some (i + m))
members_of-has c i [] m h = cc
members_of-has c i (k ∷ comp) zero h =
    let same : k ≡ c = some_inj.0 h in
    let z : i + 0 ≡ i = omega arith in
    (0, rw (members_of-same c i k comp ((==_iff k c).1 same), z) refl)
members_of-has c i (k ∷ comp) (suc m) h =
    let (n, e) = members_of-has c (suc i) comp m h in
    let z : suc i + m ≡ i + suc m = omega arith in
    elim (Bool-cases (k == c)) [
      | inl same ↦ (suc n, rw (members_of-same c i k comp same, ← z) e)
      | inr other ↦ (n, rw (members_of-other c i k comp other, ← z) e)
    ]

-- Ascending, from `lo` on.
abbrev pub Above : ℕ → List ℕ → Type 0
Above lo [] = Unit
Above lo (x ∷ xs) = (lo ≤ x) × Above (suc x) xs

Above-le : (lo hi : ℕ) (xs : List ℕ) → lo ≤ hi → Above hi xs → Above lo xs
Above-le lo hi [] h a = tt
Above-le lo hi (x ∷ xs) h a = (omega (arith, a.0), a.1)

pub members_of-Above : (c i : ℕ) (comp : List ℕ) → Above i (members_of c i comp)
members_of-Above c i [] = tt
members_of-Above c i (k ∷ comp) = elim (Bool-cases (k == c)) [
  | inl same ↦ rw (same, members_of) (omega arith, members_of-Above c (suc i) comp)
  | inr other ↦
      rw (other, members_of) (Above-le i (suc i) _ (omega arith) (members_of-Above c (suc i) comp))
]

Above-at : (lo : ℕ) (xs : List ℕ) (k a : ℕ) → Above lo xs → get_elem? xs k ≡ some a → lo ≤ a
Above-at lo [] k a h e = cc
Above-at lo (x ∷ xs) zero a h e = let s : x ≡ a = some_inj.0 e in omega (arith, h.0)
Above-at lo (x ∷ xs) (suc k) a h e = omega (arith, h.0, Above-at (suc x) xs k a h.1 e)

-- Smaller elements stand earlier.
pub Above-lt :
    (lo : ℕ) (xs : List ℕ) (k p a b : ℕ)
    → Above lo xs
    → get_elem? xs k ≡ some a
    → get_elem? xs p ≡ some b
    → a < b
    → k < p
Above-lt lo [] k p a b h e f lt = cc
Above-lt lo (x ∷ xs) zero zero a b h e f lt =
    absurd (let s : a ≡ b = some_inj.0 (sym e ∙ f) in omega arith)
Above-lt lo (x ∷ xs) zero (suc p) a b h e f lt = omega arith
Above-lt lo (x ∷ xs) (suc k) zero a b h e f lt =
    absurd (let s : x ≡ b = some_inj.0 f in omega (arith, Above-at (suc x) xs k a h.1 e))
Above-lt lo (x ∷ xs) (suc k) (suc p) a b h e f lt =
    omega (arith, Above-lt (suc x) xs k p a b h.1 e f lt)

pub among-some : (c : ℕ) (cs : List ℕ) → among c cs ≡ true → (k : ℕ) × (get_elem? cs k ≡ some c)
among-some c [] h = cc
among-some c (x ∷ cs) h = elim (Bool-cases (x == c)) [
  | inl same ↦ (0, ap some ((==_iff x c).0 same))
  | inr other ↦ let (k, e) = among-some c cs (rw (other, among) at h) in (suc k, e)
]

pub among-none : (c : ℕ) (cs : List ℕ) (k : ℕ) → among c cs ≡ false → get_elem? cs k ≡ some c → ⊥
among-none c [] k h e = cc
among-none c (x ∷ cs) zero h e = ground arith
among-none c (x ∷ cs) (suc k) h e = elim (Bool-cases (x == c)) [
  | inl same ↦ cc (rw (same, among) at h)
  | inr other ↦ among-none c cs k (rw (other, among) at h) e
]

members_of-nil : (c i : ℕ) (rest : List ℕ) → among c rest ≡ false → members_of c i rest ≡ []
members_of-nil c i [] h = refl
members_of-nil c i (x ∷ rest) h = ground (arith, members_of-nil c (suc i) rest)

-- The last member of a component is the node after which it does not come again.
pub members_of-last :
    (c i : ℕ) (pre rest : List ℕ)
    → among c rest ≡ false
    → members_of c i (pre ++ c ∷ rest) ≡ members_of c i pre ++ (i + length pre) ∷ []
members_of-last c i [] rest h =
    let z : i + 0 ≡ i = omega arith in
    rw (members_of-same c i c rest (==_refl c), members_of-nil c (suc i) rest h, z) refl
members_of-last c i (x ∷ pre) rest h =
    let z : suc i + length pre ≡ i + suc (length pre) = omega arith in
    let ih = rw z at (members_of-last c (suc i) pre rest h) in
    elim (Bool-cases (x == c)) [
      | inl same ↦
          members_of-same c i x (pre ++ c ∷ rest) same
          ∙ ap (λ t. i ∷ t) ih
          ∙ ap (λ t. t ++ (i + suc (length pre)) ∷ []) (sym (members_of-same c i x pre same))
      | inr other ↦
          members_of-other c i x (pre ++ c ∷ rest) other
          ∙ ih
          ∙ ap (λ t. t ++ (i + suc (length pre)) ∷ []) (sym (members_of-other c i x pre other))
    ]
