-- ===== src/Optimizer/Values.antt =====
-- What an arena of nodes computes, for any kind of node that lists its inputs, given what one node
-- does to the values of its inputs: the program that runs a graph is not in this crate.
use graphed_core_mvp.Base.{
  ap, ◌∙◌, ℕ, zero, suc, ◌+◌, ◌<◌, ◌≡◌, refl, List, [], ◌∷◌, ◌++◌, map, arith, length,
  length-append, get_elem?, some, get_or, All,
}
use graphed_core_mvp.Store.Arena.{Chain}

module _ {ℓ} {A : Type ℓ} where
  pub get_or-append :
      (xs ys : List A) (i : ℕ) (d : A) → i < length xs → get_or (xs ++ ys) i d ≡ get_or xs i d
  get_or-append [] ys i d h = absurd (omega arith)
  get_or-append (x ∷ xs) ys zero d h = refl
  get_or-append (x ∷ xs) ys (suc i) d h = get_or-append xs ys i d (omega arith)

  pub get_or-last :
      (xs : List A) (y : A) (i : ℕ) (d : A) → i ≡ length xs → get_or (xs ++ y ∷ []) i d ≡ y
  get_or-last [] y zero d h = refl
  get_or-last [] y (suc i) d h = absurd (omega arith)
  get_or-last (x ∷ xs) y zero d h = absurd (omega arith)
  get_or-last (x ∷ xs) y (suc i) d h = get_or-last xs y i d (omega arith)

  -- The values behind these indices.
  abbrev pub at_all : List A → A → List ℕ → List A
  at_all vs d is = map (λ i. get_or vs i d) is

  pub at_all-append :
      (vs ws : List A) (d : A) (is : List ℕ)
      → All (λ j. j < length vs) is
      → at_all (vs ++ ws) d is ≡ at_all vs d is
  at_all-append vs ws d [] h = refl
  at_all-append vs ws d (i ∷ is) h =
      rw (get_or-append vs ws i d h.0, at_all-append vs ws d is h.1) refl

-- A node that refers to earlier ones only.
abbrev pub IsScoped {κ} : {N : Type κ} → (N → List ℕ) → List N → N → Type 0
IsScoped ins pre k = All (λ j. j < length pre) (ins k)

-- Each node of the arena refers to earlier ones only.
abbrev pub IsOrdered {κ} : {N : Type κ} → (N → List ℕ) → List N → Type 0
IsOrdered ins nodes = Chain (IsScoped ins) [] nodes

-- The values of the nodes, in their order, behind those of the nodes before them.
abbrev pub run {κ ℓ} :
    {N : Type κ} {A : Type ℓ} → (N → List ℕ) → (N → List A → A) → A → List A → List N → List A
run ins apply d vs [] = vs
run ins apply d vs (k ∷ ks) = run ins apply d (vs ++ apply k (at_all vs d (ins k)) ∷ []) ks

module _ {κ} {N : Type κ} (ins : N → List ℕ) where
  pub Chain-at :
      (pre ks : List N) (n : ℕ) (k : N)
      → Chain (IsScoped ins) pre ks
      → get_elem? ks n ≡ some k
      → All (λ j. j < length pre + n) (ins k)
  Chain-at pre [] n k c f = cc
  Chain-at pre (x ∷ ks) zero k c f =
      let same : x ≡ k = cc in
      let e : length pre ≡ length pre + 0 = omega arith in rw (← same, ← e) c.0
  Chain-at pre (x ∷ ks) (suc n) k c f =
      let e : length (pre ++ x ∷ []) + n ≡ length pre + suc n =
        omega (arith, length-append pre (x ∷ [])) in
      rw (← e) (Chain-at (pre ++ x ∷ []) ks n k c.1 f)

module _ {κ ℓ} {N : Type κ} {A : Type ℓ} (ins : N → List ℕ) (apply : N → List A → A) (d : A) where
  pub run-append :
      (vs : List A) (ks ls : List N)
      → run ins apply d vs (ks ++ ls) ≡ run ins apply d (run ins apply d vs ks) ls
  run-append vs [] ls = refl
  run-append vs (k ∷ ks) ls = run-append (vs ++ apply k (at_all vs d (ins k)) ∷ []) ks ls

  pub length-run :
      (vs : List A) (ks : List N) → length (run ins apply d vs ks) ≡ length vs + length ks
  length-run vs [] = omega arith
  length-run vs (k ∷ ks) =
      let v = apply k (at_all vs d (ins k)) in
      omega (arith, length-run (vs ++ v ∷ []) ks, length-append vs (v ∷ []))

  -- More nodes change no value.
  pub get_or-run :
      (vs : List A) (ks : List N) (i : ℕ)
      → i < length vs
      → get_or (run ins apply d vs ks) i d ≡ get_or vs i d
  get_or-run vs [] i h = refl
  get_or-run vs (k ∷ ks) i h =
      let v = apply k (at_all vs d (ins k)) in
      get_or-run (vs ++ v ∷ []) ks i (omega (arith, length-append vs (v ∷ [])))
      ∙ get_or-append vs (v ∷ []) i d h

  at_all-run :
      (vs : List A) (ks : List N) (is : List ℕ)
      → All (λ j. j < length vs) is
      → at_all vs d is ≡ at_all (run ins apply d vs ks) d is
  at_all-run vs ks [] h = refl
  at_all-run vs ks (i ∷ is) h = rw (get_or-run vs ks i h.0, at_all-run vs ks is h.1) refl

  run-at_pre :
      (pre ks : List N) (vs : List A) (n : ℕ) (k : N)
      → length vs ≡ length pre
      → Chain (IsScoped ins) pre ks
      → get_elem? ks n ≡ some k
      → get_or (run ins apply d vs ks) (length pre + n) d
        ≡ apply k (at_all (run ins apply d vs ks) d (ins k))
  run-at_pre pre [] vs n k e c f = cc
  run-at_pre pre (x ∷ ks) vs zero k e c f =
      let same : x ≡ k = cc in
      let v = apply x (at_all vs d (ins x)) in
      let lt : length pre + 0 < length (vs ++ v ∷ []) = omega (arith, length-append vs (v ∷ [])) in
      rw (← same) (
        get_or-run (vs ++ v ∷ []) ks (length pre + 0) lt
        ∙ get_or-last vs v (length pre + 0) d (omega (arith, e))
        ∙ ap (apply x) (at_all-run vs (x ∷ ks) (ins x) (rw e c.0)))
  run-at_pre pre (x ∷ ks) vs (suc n) k e c f =
      let v = apply x (at_all vs d (ins x)) in
      let at : length (pre ++ x ∷ []) + n ≡ length pre + suc n =
        omega (arith, length-append pre (x ∷ [])) in
      rw (← at) (
        run-at_pre (pre ++ x ∷ []) ks (vs ++ v ∷ []) n k
          (omega (arith, length-append vs (v ∷ []), length-append pre (x ∷ []), e)) c.1 f)

  -- In an arena whose nodes refer to earlier ones only, the value of a node comes from those of
  -- its inputs.
  pub run-at :
      (ks : List N) (n : ℕ) (k : N)
      → IsOrdered ins ks
      → get_elem? ks n ≡ some k
      → get_or (run ins apply d [] ks) n d ≡ apply k (at_all (run ins apply d [] ks) d (ins k))
  run-at ks n k c f = let e : 0 + n ≡ n = omega arith in rw e at (run-at_pre [] ks [] n k refl c f)
