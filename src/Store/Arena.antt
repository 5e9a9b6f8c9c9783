-- ===== src/Store/Arena.antt =====
-- The arena and its table: numbering, lookup, and lists that grow at the end.
use graphed_core_mvp.Base.{
  ◌≤◌, ℕ, suc, ◌+◌, ◌<◌, ◌≡◌, refl, ap, true, List, [], ◌∷◌, ◌++◌, append_assoc, append-nil, none,
  some, arith, length, get_elem?, All, Bool-cases, inl, inr,
}
use graphed_core_mvp.Node.{NodeId, NodeKey, key_eq}
use graphed_core_mvp.Node.Identity.{key_eq_cong}
use graphed_core_mvp.Store.{Table, get, insert, first_bad}

-- Each element fits what stands before it, `pre` first.
abbrev pub Chain {ℓ κ} : {A : Type ℓ} → (List A → A → Type κ) → List A → List A → Type κ
Chain P pre [] = Unit
Chain P pre (x ∷ xs) = P pre x × Chain P (pre ++ x ∷ []) xs

pub Chain-snoc {ℓ κ} :
    {A : Type ℓ} (P : List A → A → Type κ) (pre xs : List A) (x : A)
    → Chain P pre xs
    → P (pre ++ xs) x
    → Chain P pre (xs ++ x ∷ [])
Chain-snoc P pre [] x c p = (rw append-nil at p, tt)
Chain-snoc P pre (y ∷ xs) x c p = (c.0, Chain-snoc P (pre ++ y ∷ []) xs x c.1 (rw append_assoc p))

-- The table of an arena: each key with its position, counted from `i`.
abbrev pub enumerate : ℕ → List NodeKey → Table
enumerate i [] = []
enumerate i (k ∷ ks) = (k, i) ∷ enumerate (suc i) ks

pub enumerate-snoc :
    (i : ℕ) (ks : List NodeKey) (k : NodeKey)
    → enumerate i (ks ++ k ∷ []) ≡ enumerate i ks ++ (k, i + length ks) ∷ []
enumerate-snoc i [] k = ap (λ (n : ℕ). (k, n) ∷ []) (omega arith)
enumerate-snoc i (j ∷ ks) k =
    let e : suc i + length ks ≡ i + suc (length ks) = omega arith in
    ap (λ t. (j, i) ∷ t) (rw (← e) (enumerate-snoc (suc i) ks k))

pub enumerate-push :
    (ks : List NodeKey) (k : NodeKey)
    → enumerate 0 (ks ++ k ∷ []) ≡ enumerate 0 ks ++ (k, length ks) ∷ []
enumerate-push ks k =
    let e : 0 + length ks ≡ length ks = omega arith in rw e at (enumerate-snoc 0 ks k)

pub get-append : (k : NodeKey) (t u : Table) → get k t ≡ none → get k (t ++ u) ≡ get k u
unfolding get
get-append k [] u h = refl
get-append k ((j, id) ∷ t) u h = ground (arith, get-append k t u)

pub get-append_some :
    (k : NodeKey) (t u : Table) (id : NodeId) → get k t ≡ some id → get k (t ++ u) ≡ some id
unfolding get
get-append_some k [] u id h = cc
get-append_some k ((j, i) ∷ t) u id h = ground (arith, get-append_some k t u id)

-- A key that is not in the table is put at its end.
pub insert-none :
    (k : NodeKey) (id : NodeId) (t : Table) → get k t ≡ none → insert k id t ≡ t ++ (k, id) ∷ []
unfolding get insert
insert-none k id [] h = refl
insert-none k id ((j, i) ∷ t) h = ground (arith, insert-none k id t)

-- Equal keys are looked up alike.
pub get_cong : (a b : NodeKey) (t : Table) → key_eq a b ≡ true → get a t ≡ get b t
unfolding get
get_cong a b [] h = refl
get_cong a b ((j, i) ∷ t) h = ground (arith, get_cong a b t, key_eq_cong a b j)

-- What the table finds in an arena is an equal key, at the position that it says.
pub get-enumerate :
    (i : ℕ) (ks : List NodeKey) (k : NodeKey) (id : NodeId)
    → get k (enumerate i ks) ≡ some id
    → (n : ℕ) × (j : NodeKey) × (id ≡ i + n) × (get_elem? ks n ≡ some j) × (key_eq j k ≡ true)
unfolding get
get-enumerate i [] k id h = cc
get-enumerate i (j ∷ ks) k id h = elim (Bool-cases (key_eq j k)) [
  | inl same ↦ (0, j, ground arith, refl, same)
  | inr other ↦
      let (n, m, at, found, eq) = get-enumerate (suc i) ks k id (rw (other, get) at h) in
      (suc n, m, omega arith, found, eq)
]

pub first_bad-All : (len : ℕ) (is : List NodeId) → first_bad len is ≡ none → All (λ i. i < len) is
unfolding first_bad
first_bad-All len [] h = tt
first_bad-All len (i ∷ is) h = ground (arith, first_bad-All len is)

pub first_bad-none : (len : ℕ) (is : List NodeId) → All (λ i. i < len) is → first_bad len is ≡ none
unfolding first_bad
first_bad-none len [] h = refl
first_bad-none len (i ∷ is) h = ground (arith, first_bad-none len is)

-- The refused id is not in the arena.
pub first_bad-some : (len : ℕ) (is : List NodeId) (b : NodeId) → first_bad len is ≡ some b → len ≤ b
unfolding first_bad
first_bad-some len [] b h = cc
first_bad-some len (i ∷ is) b h = ground (arith, first_bad-some len is b)
