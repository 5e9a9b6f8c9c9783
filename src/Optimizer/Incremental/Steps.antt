-- ===== src/Optimizer/Incremental/Steps.antt =====
-- A sequence of steps, from a new reducer.
use graphed_core_mvp.Base.{
  ℕ, ◌+◌, ◌<◌, ◌≤◌, ◌≡◌, List, [], ◌∷◌, ◌++◌, arith, length, length-append, get_or, All,
  append_assoc, append-nil,
}
use graphed_core_mvp.Node.{NodeKey}
use graphed_core_mvp.Store.Arena.{Chain}
use graphed_core_mvp.Optimizer.Dce.{usize_max}
use graphed_core_mvp.Optimizer.Meaning.{IsScoped, IsOrdered}
use graphed_core_mvp.Optimizer.Incremental.{
  IncrementalReducer, step, fresh, watermark, canonical_count,
}
use graphed_core_mvp.Optimizer.Incremental.Algebra.{Algebra}
use graphed_core_mvp.Optimizer.Incremental.Canonical.{value}
use graphed_core_mvp.Optimizer.Incremental.Sound.{
  IsUnary, IsReduced, fresh-IsReduced, step-IsReduced,
}

abbrev pub concat : List (List NodeKey) → List NodeKey
concat [] = []
concat (delta ∷ deltas) = delta ++ concat deltas

-- The state after a step with each delta.
abbrev pub steps : List (List NodeKey) → IncrementalReducer → IncrementalReducer
steps [] r = r
steps (delta ∷ deltas) r = steps deltas (step delta r).0

pub Chain-split :
    (pre ks ls : List NodeKey)
    → Chain IsScoped pre (ks ++ ls)
    → Chain IsScoped pre ks × Chain IsScoped (pre ++ ks) ls
Chain-split pre [] ls c = (tt, rw append-nil c)
Chain-split pre (k ∷ ks) ls c =
    let (left, right) = Chain-split (pre ++ k ∷ []) ks ls c.1 in
    ((c.0, left), rw append_assoc at right)

pub All-split : (ks ls : List NodeKey) → All IsUnary (ks ++ ls) → All IsUnary ks × All IsUnary ls
All-split [] ls h = (tt, h)
All-split (k ∷ ks) ls h = let (left, right) = All-split ks ls h.1 in ((h.0, left), right)

module _ {ℓ} {A : Type ℓ} (algebra : Algebra A) (d : A) where
  steps-IsReduced :
      (pre : List NodeKey) (deltas : List (List NodeKey)) (r : IncrementalReducer)
      → IsReduced algebra d pre r
      → Chain IsScoped pre (concat deltas)
      → All IsUnary (concat deltas)
      → IsReduced algebra d (pre ++ concat deltas) (steps deltas r)
        × ((steps deltas r).total_work ≡ r.total_work + length (concat deltas))
  steps-IsReduced pre [] r h c u = (rw append-nil h, omega arith)
  steps-IsReduced pre (delta ∷ deltas) r h c u =
      let (first, later) = Chain-split pre delta (concat deltas) c in
      let (here, there) = All-split delta (concat deltas) u in
      let (_done, h1, w1) = step-IsReduced algebra d pre delta r h first here in
      let (h2, w2) = steps-IsReduced (pre ++ delta) deltas (step delta r).0 h1 later there in
      (rw append_assoc at h2, omega (arith, w1, w2, length-append delta (concat deltas)))

  -- However an arena is cut into deltas, if its nodes refer to earlier ones only and each identity
  -- op has one input, then after a step with each delta a new reducer has done as much work as the
  -- arena has nodes, its watermark is there, its canonical arena is not larger, and each node of
  -- the arena has a canonical node with the same value, in any algebra that has the laws of the
  -- rules.
  pub steps-value :
      (deltas : List (List NodeKey))
      → IsOrdered (concat deltas)
      → All IsUnary (concat deltas)
      → ((steps deltas fresh).total_work ≡ length (concat deltas))
        × (watermark (steps deltas fresh) ≡ length (concat deltas))
        × (canonical_count (steps deltas fresh) ≤ length (concat deltas))
        × ((j : ℕ)
            → j < length (concat deltas)
            → (get_or (steps deltas fresh).map j usize_max < canonical_count (steps deltas fresh))
              × (value algebra d
                    (steps deltas fresh).canon_nodes
                    (get_or (steps deltas fresh).map j usize_max)
                  ≡ value algebra d (concat deltas) j))
  steps-value deltas c u =
      let (h, w) = steps-IsReduced [] deltas fresh (fresh-IsReduced algebra d) c u in
      (omega (arith, w), h.agree.counted, h.few, λ j lt. h.agree.same j lt tt)
