-- ===== src/Optimizer/Dce/Marks.antt =====
-- The marks and the stack of `dead_code_elimination`, and the nodes that are reachable.
use graphed_core_mvp.Base.{
  inl, inr, All-append, All, length-append, ℕ, zero, suc, ◌+◌, ◌<◌, ◌≡◌, refl, sym, ap, ◌↔◌, ◌⊎◌,
  Bool, true, false, ◌||◌, List, [], ◌∷◌, ◌++◌, some, arith, length, get_elem?, get_or, set,
}
use mathlib.Core.List.{reverse, reverse-cons}
use graphed_core_mvp.Node.{NodeId, NodeKey, inputs}
use graphed_core_mvp.Store.{contains}

abbrev pub IsMarked : List Bool → ℕ → Type 0
IsMarked keep i = get_or keep i false ≡ true

-- The nodes on a path to an output.
pub data Reachable (nodes : List NodeKey) (outputs : List NodeId) : ℕ → Type 0 where
  root : {o : ℕ} → contains outputs o ≡ true → Reachable nodes outputs o
  input_of :
      {i j : ℕ} {k : NodeKey}
      → Reachable nodes outputs i
      → get_elem? nodes i ≡ some k
      → contains (inputs k) j ≡ true
      → Reachable nodes outputs j

pub contains-append :
    (xs ys : List ℕ) (j : ℕ) → contains (xs ++ ys) j ≡ (contains xs j || contains ys j)
unfolding contains
contains-append [] ys j = refl
contains-append (x ∷ xs) ys j = ground (arith, contains-append xs ys j)

pub contains-reverse : (xs : List ℕ) (j : ℕ) → contains (reverse xs) j ≡ contains xs j
unfolding contains
contains-reverse [] j = refl
contains-reverse (x ∷ xs) j =
    rw (reverse-cons x xs, contains-append (reverse xs) (x ∷ []) j)
      (ground (arith, contains-reverse xs j))

pub IsMarked-set :
    (keep : List Bool) (i j : ℕ)
    → i < length keep
    → (IsMarked (set keep i true) j) ↔ (IsMarked keep j ⊎ (j ≡ i))
IsMarked-set [] i j h = absurd (omega arith)
IsMarked-set (b ∷ keep) zero zero h = ground arith
IsMarked-set (b ∷ keep) zero (suc j) h = ground arith
IsMarked-set (b ∷ keep) (suc i) zero h = ground arith
IsMarked-set (b ∷ keep) (suc i) (suc j) h = ground (arith, IsMarked-set keep i j)

-- The inputs of the nodes that are not marked yet.
abbrev pub idle : List Bool → List NodeKey → ℕ
idle (true ∷ keep) (k ∷ nodes) = idle keep nodes
idle (false ∷ keep) (k ∷ nodes) = length (inputs k) + idle keep nodes
idle _ _ = 0

pub idle-set :
    (keep : List Bool) (nodes : List NodeKey) (i : ℕ) (k : NodeKey)
    → get_elem? keep i ≡ some false
    → get_elem? nodes i ≡ some k
    → length (inputs k) + idle (set keep i true) nodes ≡ idle keep nodes
idle-set [] nodes i k h f = cc
idle-set (b ∷ keep) [] i k h f = cc
idle-set (true ∷ keep) (n ∷ nodes) zero k h f = cc
idle-set (false ∷ keep) (n ∷ nodes) zero k h f =
    let same : n ≡ k = cc in ap (λ m. length (inputs m) + idle keep nodes) (sym same)
idle-set (true ∷ keep) (n ∷ nodes) (suc i) k h f = idle-set keep nodes i k h f
idle-set (false ∷ keep) (n ∷ nodes) (suc i) k h f = omega (arith, idle-set keep nodes i k h f)

pub contains-cons :
    (x : ℕ) (xs : List ℕ) (j : ℕ) → contains (x ∷ xs) j ≡ true → (j ≡ x) ⊎ (contains xs j ≡ true)
unfolding contains
contains-cons x xs j h = ground arith

pub contains-tail :
    (x : ℕ) (xs : List ℕ) (j : ℕ) → contains xs j ≡ true → contains (x ∷ xs) j ≡ true
unfolding contains
contains-tail x xs j h = ground arith

pub contains-head : (x : ℕ) (xs : List ℕ) → contains (x ∷ xs) x ≡ true
unfolding contains
contains-head x xs = ground arith

pub IsMarked-some : (keep : List Bool) (i : ℕ) → get_elem? keep i ≡ some true → IsMarked keep i
IsMarked-some [] i h = cc
IsMarked-some (b ∷ keep) zero h = ground arith
IsMarked-some (b ∷ keep) (suc i) h = IsMarked-some keep i h

pub length-reverse : (xs : List ℕ) → length (reverse xs) ≡ length xs
length-reverse [] = refl
length-reverse (x ∷ xs) =
    rw (reverse-cons x xs, length-append (reverse xs) (x ∷ [])) (omega (arith, length-reverse xs))

pub All-reverse {κ} : (P : ℕ → Type κ) (xs : List ℕ) → All P xs → All P (reverse xs)
All-reverse P [] h = tt
All-reverse P (x ∷ xs) h =
    rw (reverse-cons x xs) (All-append P (reverse xs) (x ∷ []) (All-reverse P xs h.1) (h.0, tt))

pub All-contains {κ} :
    (P : ℕ → Type κ) (xs : List ℕ) (j : ℕ) → All P xs → contains xs j ≡ true → P j
unfolding contains
All-contains P [] j h e = cc
All-contains P (x ∷ xs) j h e = elim (contains-cons x xs j e) [
  | inl same ↦ rw same h.0
  | inr there ↦ All-contains P xs j h.1 there
]
