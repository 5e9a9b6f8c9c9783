-- ===== src/Optimizer/Holds.antt =====
-- Indices that stand for values, and the loops of the passes that look indices up.
use graphed_core_mvp.Base.{
  ap, ◌∙◌, ℕ, zero, suc, ◌<◌, ◌≡◌, refl, List, [], ◌∷◌, ◌++◌, map, arith, length, Option,
  length-append, get_elem?-get_or, some, none, get_or, set, All, Result, ok, err,
}
use graphed_core_mvp.Optimizer.{Halt, panic, index, traverse}
use graphed_core_mvp.Optimizer.Values.{get_or-append, get_or-last, at_all}

module _ {ℓ} {A : Type ℓ} (d : A) where
  -- The index `c` is in range, and has the value `v`.
  abbrev pub Holds : List A → ℕ → A → Type ℓ
  Holds ws c v = (c < length ws) × (get_or ws c d ≡ v)

  pub Holds-append : (ws us : List A) (c : ℕ) (v : A) → Holds ws c v → Holds (ws ++ us) c v
  Holds-append ws us c v (lt, e) =
      (omega (arith, length-append ws us), get_or-append ws us c d lt ∙ e)

  pub Holds-last : (ws : List A) (v : A) → Holds (ws ++ v ∷ []) (length ws) v
  Holds-last ws v = (omega (arith, length-append ws (v ∷ [])), get_or-last ws v (length ws) d refl)

  -- Indices that hold the values of others, one for one.
  pub at_all-Holds :
      (ws vs : List A) (f : ℕ → ℕ) (is : List ℕ)
      → All (λ j. Holds ws (f j) (get_or vs j d)) is
      → at_all ws d (map f is) ≡ at_all vs d is
  at_all-Holds ws vs f [] h = refl
  at_all-Holds ws vs f (i ∷ is) h = rw (h.0.1, at_all-Holds ws vs f is h.1) refl

  pub Holds-range :
      (ws vs : List A) (f : ℕ → ℕ) (is : List ℕ)
      → All (λ j. Holds ws (f j) (get_or vs j d)) is
      → All (λ j. j < length ws) (map f is)
  Holds-range ws vs f [] h = tt
  Holds-range ws vs f (i ∷ is) h = (h.0.0, Holds-range ws vs f is h.1)

module _ {ℓ} {A : Type ℓ} where
  pub index-get_or : (xs : List A) (i : ℕ) (d : A) → i < length xs → index xs i ≡ ok (get_or xs i d)
  index-get_or xs i d h =
      ap (λ (o : Option A). elim o as (λ z. Result Halt A) [ some b ↦ ok b | none ↦ err panic ])
        (get_elem?-get_or xs i d h)

  pub get_or-set_same :
      (xs : List A) (i : ℕ) (v d : A) → i < length xs → get_or (set xs i v) i d ≡ v
  get_or-set_same [] i v d h = absurd (omega arith)
  get_or-set_same (x ∷ xs) zero v d h = refl
  get_or-set_same (x ∷ xs) (suc i) v d h = get_or-set_same xs i v d (omega arith)

  pub get_or-set_other :
      (xs : List A) (i j : ℕ) (v d : A) → (i ≡ j → ⊥) → get_or (set xs i v) j d ≡ get_or xs j d
  get_or-set_other [] i j v d h = refl
  get_or-set_other (x ∷ xs) zero zero v d h = absurd (h refl)
  get_or-set_other (x ∷ xs) zero (suc j) v d h = refl
  get_or-set_other (x ∷ xs) (suc i) zero v d h = refl
  get_or-set_other (x ∷ xs) (suc i) (suc j) v d h = get_or-set_other xs i j v d (λ e. h (ap suc e))

-- A loop whose body gives a result for each element gives all of them.
pub traverse-ok {ℓ κ} :
    {A : Type ℓ} {B : Type κ} (f : A → Result Halt B) (g : A → B) (xs : List A)
    → All (λ a. f a ≡ ok (g a)) xs
    → traverse f xs ≡ ok (map g xs)
traverse-ok f g [] h = refl
traverse-ok f g (x ∷ xs) h = rw (h.0, traverse-ok f g xs h.1) refl

pub traverse-index :
    (xs is : List ℕ) (d : ℕ)
    → All (λ j. j < length xs) is
    → traverse (index xs) is ≡ ok (map (λ j. get_or xs j d) is)
traverse-index xs [] d h = refl
traverse-index xs (i ∷ is) d h = rw (index-get_or xs i d h.0, traverse-index xs is d h.1) refl
