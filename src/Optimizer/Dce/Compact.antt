-- ===== src/Optimizer/Dce/Compact.antt =====
-- Renumbering keeps the values of the nodes that are kept.
use graphed_core_mvp.Base.{
  ℕ, suc, ◌+◌, ◌<◌, ◌≡◌, refl, sym, ap, ◌∙◌, Bool, true, false, List, [], ◌∷◌, ◌++◌, map,
  append-nil, arith, length, length-append, get_elem?, some, get_or, All, inl, inr, ◌⊎◌,
}
use graphed_core_mvp.Node.{NodeKey, NodeId, inputs, with_inputs}
use graphed_core_mvp.Store.{contains}
use graphed_core_mvp.Store.Arena.{Chain}
use graphed_core_mvp.Optimizer.Meaning.{IsScoped, inputs-with_inputs, run}
use graphed_core_mvp.Optimizer.Values.{
  run-append, length-run, get_or-run, get_or-append, get_or-last,
}
use graphed_core_mvp.Optimizer.Dce.{usize_max}
use graphed_core_mvp.Optimizer.Dce.Ranges.{compacted, renumbered}
use graphed_core_mvp.Optimizer.Dce.Marks.{IsMarked, contains-head, contains-tail}

-- What holds of the elements of a list.
pub All-tabulate {κ} :
    (P : ℕ → Type κ) (xs : List ℕ) → ((j : ℕ) → contains xs j ≡ true → P j) → All P xs
All-tabulate P [] f = tt
All-tabulate P (x ∷ xs) f =
    (f x (contains-head x xs), All-tabulate P xs (λ j h. f j (contains-tail x xs j h)))

pub lt-suc : (j n : ℕ) → j < suc n → (j < n) ⊎ (j ≡ n)
lt-suc j n h = ground arith

module _ {ℓ} {A : Type ℓ} (apply : NodeKey → List A → A) (d : A) (IsKept : ℕ → Type 0) where
  -- What stands for node `j` has the value that `j` had.
  abbrev pub Same : List ℕ → List NodeKey → List A → ℕ → Type ℓ
  Same remap kept vs j =
      (get_or remap j usize_max < length kept)
      × (get_or (run apply d [] kept) (get_or remap j usize_max) d ≡ get_or vs j d)

  -- All kept nodes below `n` have the values that they had.
  pub record Agree (remap : List ℕ) (kept : List NodeKey) (vs : List A) (n : ℕ) : Type ℓ where
    pub counted : length remap ≡ n
    pub valued : length vs ≡ n
    pub same : (j : ℕ) → j < n → IsKept j → Same remap kept vs j

  pub map-Agree :
      (remap : List ℕ) (kept : List NodeKey) (vs : List A) (n : ℕ) (ins : List ℕ)
      → Agree remap kept vs n
      → All (λ j. j < n) ins
      → All IsKept ins
      → map (λ i. get_or (run apply d [] kept) i d) (map (λ x. get_or remap x usize_max) ins)
        ≡ map (λ i. get_or vs i d) ins
  map-Agree remap kept vs n [] a h k = refl
  map-Agree remap kept vs n (i ∷ ins) a h k =
      rw ((a.same i h.0 k.0).1, map-Agree remap kept vs n ins a h.1 k.1) refl

  pub Same-append :
      (remap more : List ℕ) (kept new : List NodeKey) (vs ws : List A) (j : ℕ)
      → j < length remap
      → j < length vs
      → Same remap kept vs j
      → Same (remap ++ more) (kept ++ new) (vs ++ ws) j
  Same-append remap more kept new vs ws j hr hv (lt, e) =
      let lt' : get_or remap j usize_max < length (kept ++ new) =
        omega (arith, length-append kept new) in
      let inside : get_or remap j usize_max < length (run apply d [] kept) =
        omega (arith, length-run inputs apply d [] kept) in
      let same : get_or (run apply d [] (kept ++ new)) (get_or remap j usize_max) d
          ≡ get_or vs j d =
        rw (run-append inputs apply d [] kept new) (
          get_or-run inputs apply d (run apply d [] kept) new (get_or remap j usize_max) inside
          ∙ e) in
      rw (get_or-append remap more j usize_max hr, get_or-append vs ws j d hv) (lt', same)

  skip-Agree :
      (remap : List ℕ) (kept : List NodeKey) (vs : List A) (n : ℕ) (v : A)
      → (IsKept n → ⊥)
      → Agree remap kept vs n
      → Agree (remap ++ usize_max ∷ []) kept (vs ++ v ∷ []) (suc n)
  skip-Agree remap kept vs n v dead a = record {
    counted = omega (arith, length-append remap (usize_max ∷ []), a.counted);
    valued = omega (arith, length-append vs (v ∷ []), a.valued);
    same = λ j h k. elim (lt-suc j n h) [
      | inl lt ↦
          rw (← (append-nil kept))
            (Same-append remap _ kept [] vs _ j (rw a.counted lt) (rw a.valued lt) (a.same j lt k))
      | inr e ↦ absurd (dead (rw (← e) k))
    ];
  }

  push-Agree :
      (remap : List ℕ) (kept : List NodeKey) (vs : List A) (n : ℕ) (k : NodeKey)
      → ((m : NodeKey) (ins : List NodeId) (ws : List A)
          → apply (with_inputs m ins) ws ≡ apply m ws)
      → All (λ j. j < n) (inputs k)
      → All IsKept (inputs k)
      → Agree remap kept vs n
      → Agree
          (remap ++ length kept ∷ [])
          (kept ++ renumbered remap k ∷ [])
          (vs ++ apply k (map (λ i. get_or vs i d) (inputs k)) ∷ [])
          (suc n)
  push-Agree remap kept vs n k uniform h p a =
      let ws = run apply d [] kept in
      let v = apply k (map (λ i. get_or vs i d) (inputs k)) in
      let computed : run apply d [] (kept ++ renumbered remap k ∷ []) ≡ ws ++ v ∷ [] =
        run-append inputs apply d [] kept (renumbered remap k ∷ [])
        ∙ ap (λ x. ws ++ x ∷ [])
            (rw
              (
                uniform k,
                inputs-with_inputs (λ x. get_or remap x usize_max) k,
                map-Agree remap kept vs n (inputs k) a h p,
              )
              refl) in
      let long : length ws ≡ length kept = omega (arith, length-run inputs apply d [] kept) in
      record {
        counted = omega (arith, length-append remap (length kept ∷ []), a.counted);
        valued = omega (arith, length-append vs (v ∷ []), a.valued);
        same = λ j lt q. elim (lt-suc j n lt) [
          | inl old ↦
              Same-append remap _ kept _ vs _ j (rw a.counted old) (rw a.valued old)
                (a.same j old q)
          | inr new ↦
              rw
                (
                  get_or-last remap (length kept) j usize_max (new ∙ sym a.counted),
                  get_or-last vs v j d (new ∙ sym a.valued),
                  computed,
                )
                (
                  omega (arith, length-append kept (renumbered remap k ∷ [])),
                  get_or-last ws v (length kept) d (sym long),
                )
        ];
      }

  pub compacted-Agree :
      (pre ks : List NodeKey) (keep : List Bool) (remap : List ℕ) (kept : List NodeKey)
      (vs : List A)
      → ((m : NodeKey) (ins : List NodeId) (ws : List A)
          → apply (with_inputs m ins) ws ≡ apply m ws)
      → length keep ≡ length ks
      → Chain IsScoped pre ks
      → ((n : ℕ) (k : NodeKey) → get_elem? ks n ≡ some k → IsMarked keep n → All IsKept (inputs k))
      → ((n : ℕ) → IsKept (length pre + n) → IsMarked keep n)
      → Agree remap kept vs (length pre)
      → Agree
          (compacted ks keep remap kept).0
          (compacted ks keep remap kept).1
          (run apply d vs ks)
          (length pre + length ks)
  unfolding compacted
  compacted-Agree pre [] keep remap kept vs u s c f l a =
      (let e : length pre ≡ length pre + 0 = omega arith in rw (← e) a)
  compacted-Agree pre (k ∷ ks) [] remap kept vs u s c f l a = absurd (omega arith)
  compacted-Agree pre (k ∷ ks) (true ∷ keep) remap kept vs u s c f l a =
      let at : length (pre ++ k ∷ []) ≡ suc (length pre) =
        omega (arith, length-append pre (k ∷ [])) in
      let v = apply k (map (λ i. get_or vs i d) (inputs k)) in
      let all : length (pre ++ k ∷ []) + length ks ≡ length pre + suc (length ks) = omega arith in
      let later : (n : ℕ) → IsKept (length (pre ++ k ∷ []) + n) → IsMarked keep n = λ n q.
        (let e : length (pre ++ k ∷ []) + n ≡ length pre + suc n = omega arith in
          l (suc n) (rw (← e) q)) in
      rw (← all) (
        compacted-Agree (pre ++ k ∷ []) ks keep (remap ++ length kept ∷ [])
          (kept ++ renumbered remap k ∷ []) (vs ++ v ∷ []) u (omega arith) c.1
          (λ n m g h. f (suc n) m g h) later
          (rw at (push-Agree remap kept vs (length pre) k u c.0 (f 0 k refl refl) a)))
  compacted-Agree pre (k ∷ ks) (false ∷ keep) remap kept vs u s c f l a =
      let at : length (pre ++ k ∷ []) ≡ suc (length pre) =
        omega (arith, length-append pre (k ∷ [])) in
      let v = apply k (map (λ i. get_or vs i d) (inputs k)) in
      let all : length (pre ++ k ∷ []) + length ks ≡ length pre + suc (length ks) = omega arith in
      let later : (n : ℕ) → IsKept (length (pre ++ k ∷ []) + n) → IsMarked keep n = λ n q.
        (let e : length (pre ++ k ∷ []) + n ≡ length pre + suc n = omega arith in
          l (suc n) (rw (← e) q)) in
      let e : length pre ≡ length pre + 0 = omega arith in
      let dead : IsKept (length pre) → ⊥ = λ q. cc (l 0 (rw (← e) q)) in
      rw (← all) (
        compacted-Agree (pre ++ k ∷ []) ks keep (remap ++ usize_max ∷ []) kept (vs ++ v ∷ []) u
          (omega arith) c.1 (λ n m g h. f (suc n) m g h) later
          (rw at (skip-Agree remap kept vs (length pre) v dead a)))
