-- ===== src/Optimizer/Dce/Order.antt =====
-- What dead code elimination keeps is in order, and made of the nodes that it was given.
use graphed_core_mvp.Base.{
  ℕ, suc, ◌+◌, ◌<◌, ◌≤◌, ◌≡◌, refl, sym, ap, ◌∙◌, Bool, true, false, List, [], ◌∷◌, ◌++◌, map,
  arith, length, length-append, get_elem?, some, get_or, All, All-append, inl, inr, ok, Result, err,
}
use graphed_core_mvp.Node.{NodeKey, NodeId, inputs, with_inputs}
use graphed_core_mvp.Store.Arena.{Chain, Chain-snoc}
use graphed_core_mvp.Optimizer.{Halt}
use graphed_core_mvp.Optimizer.Meaning.{IsScoped, IsOrdered, inputs-with_inputs}
use graphed_core_mvp.Optimizer.Values.{get_or-append, get_or-last}
use graphed_core_mvp.Optimizer.Dce.{usize_max, dead_code_elimination}
use graphed_core_mvp.Optimizer.Dce.Marks.{IsMarked, Reachable, input_of}
use graphed_core_mvp.Optimizer.Dce.Ranges.{compacted, dead_code_elimination-compacted, renumbered}
use graphed_core_mvp.Optimizer.Dce.Live.{mark_live-IsLive}
use graphed_core_mvp.Optimizer.Dce.Compact.{All-tabulate, lt-suc}
use graphed_core_mvp.Optimizer.Dce.Sound.{IsOrdered-IsClosed}

-- What holds of the nodes with any inputs holds of those that are kept.
compacted-All {κ} :
    (Q : NodeKey → Type κ) (ks : List NodeKey) (keep : List Bool) (remap : List ℕ)
    (kept : List NodeKey)
    → All (λ k. (ins : List NodeId) → Q (with_inputs k ins)) ks
    → All Q kept
    → All Q (compacted ks keep remap kept).1
unfolding compacted
compacted-All Q [] keep remap kept h q = q
compacted-All Q (k ∷ ks) [] remap kept h q = q
compacted-All Q (k ∷ ks) (true ∷ keep) remap kept h q =
    compacted-All Q ks keep (remap ++ length kept ∷ []) (kept ++ renumbered remap k ∷ []) h.1
      (All-append Q kept _ q (h.0 (map (λ x. get_or remap x usize_max) (inputs k)), tt))
compacted-All Q (k ∷ ks) (false ∷ keep) remap kept h q =
    compacted-All Q ks keep (remap ++ usize_max ∷ []) kept h.1 q

-- No more nodes are kept than there are.
compacted-few :
    (ks : List NodeKey) (keep : List Bool) (remap : List ℕ) (kept : List NodeKey)
    → length (compacted ks keep remap kept).1 ≤ length kept + length ks
unfolding compacted
compacted-few [] keep remap kept = omega arith
compacted-few (k ∷ ks) [] remap kept = omega arith
compacted-few (k ∷ ks) (true ∷ keep) remap kept = omega (
  arith,
  compacted-few ks keep (remap ++ length kept ∷ []) (kept ++ renumbered remap k ∷ []),
  length-append kept (renumbered remap k ∷ []),
)
compacted-few (k ∷ ks) (false ∷ keep) remap kept =
    omega (arith, compacted-few ks keep (remap ++ usize_max ∷ []) kept)

module _ (IsKept : ℕ → Type 0) where
  -- The kept nodes below `n` have an index in the new arena, which is in order.
  record InOrder (remap : List ℕ) (kept : List NodeKey) (n : ℕ) : Type 0 where
    pub counted : length remap ≡ n
    pub within : (j : ℕ) → j < n → IsKept j → get_or remap j usize_max < length kept
    pub ordered : IsOrdered kept

  InOrder-inputs :
      (remap : List ℕ) (kept : List NodeKey) (n : ℕ) (ins : List ℕ)
      → InOrder remap kept n
      → All (λ j. j < n) ins
      → All IsKept ins
      → All (λ j. j < length kept) (map (λ x. get_or remap x usize_max) ins)
  InOrder-inputs remap kept n [] a h k = tt
  InOrder-inputs remap kept n (i ∷ ins) a h k =
      (a.within i h.0 k.0, InOrder-inputs remap kept n ins a h.1 k.1)

  skip-InOrder :
      (remap : List ℕ) (kept : List NodeKey) (n : ℕ)
      → (IsKept n → ⊥)
      → InOrder remap kept n
      → InOrder (remap ++ usize_max ∷ []) kept (suc n)
  skip-InOrder remap kept n dead a = record {
    counted = omega (arith, length-append remap (usize_max ∷ []), a.counted);
    within = λ j lt k. elim (lt-suc j n lt) [
      | inl old ↦
          rw (get_or-append remap (usize_max ∷ []) j usize_max (rw a.counted old))
            (a.within j old k)
      | inr new ↦ absurd (dead (rw new at k))
    ];
    ordered = a.ordered;
  }

  push-InOrder :
      (remap : List ℕ) (kept : List NodeKey) (n : ℕ) (k : NodeKey)
      → All (λ j. j < n) (inputs k)
      → All IsKept (inputs k)
      → InOrder remap kept n
      → InOrder (remap ++ length kept ∷ []) (kept ++ renumbered remap k ∷ []) (suc n)
  push-InOrder remap kept n k h p a = record {
    counted = omega (arith, length-append remap (length kept ∷ []), a.counted);
    within = λ j lt q.
        (let more = length-append kept (renumbered remap k ∷ []) in
          elim (lt-suc j n lt) [
            | inl old ↦
                rw (get_or-append remap (length kept ∷ []) j usize_max (rw a.counted old))
                  (let z = a.within j old q in omega arith)
            | inr new ↦
                rw (get_or-last remap (length kept) j usize_max (new ∙ sym a.counted)) (omega arith)
          ]);
    ordered = Chain-snoc IsScoped [] kept (renumbered remap k) a.ordered (
        rw (inputs-with_inputs (λ x. get_or remap x usize_max) k)
          (InOrder-inputs remap kept n (inputs k) a h p));
  }

  compacted-InOrder :
      (pre ks : List NodeKey) (keep : List Bool) (remap : List ℕ) (kept : List NodeKey)
      → length keep ≡ length ks
      → Chain IsScoped pre ks
      → ((n : ℕ) (k : NodeKey) → get_elem? ks n ≡ some k → IsMarked keep n → All IsKept (inputs k))
      → ((n : ℕ) → IsKept (length pre + n) → IsMarked keep n)
      → InOrder remap kept (length pre)
      → IsOrdered (compacted ks keep remap kept).1
  unfolding compacted
  compacted-InOrder pre [] keep remap kept s c f l a = a.ordered
  compacted-InOrder pre (k ∷ ks) [] remap kept s c f l a = absurd (omega arith)
  compacted-InOrder pre (k ∷ ks) (true ∷ keep) remap kept s c f l a =
      let at : length (pre ++ k ∷ []) ≡ suc (length pre) =
        omega (arith, length-append pre (k ∷ [])) in
      compacted-InOrder (pre ++ k ∷ []) ks keep (remap ++ length kept ∷ [])
        (kept ++ renumbered remap k ∷ []) (omega arith) c.1 (λ n m g h. f (suc n) m g h)
        (λ n q.
          (let e : length (pre ++ k ∷ []) + n ≡ length pre + suc n = omega arith in
            l (suc n) (rw (← e) q)))
        (rw at (push-InOrder remap kept (length pre) k c.0 (f 0 k refl refl) a))
  compacted-InOrder pre (k ∷ ks) (false ∷ keep) remap kept s c f l a =
      let at : length (pre ++ k ∷ []) ≡ suc (length pre) =
        omega (arith, length-append pre (k ∷ [])) in
      let e : length pre ≡ length pre + 0 = omega arith in
      let dead : IsKept (length pre) → ⊥ = λ q. cc (l 0 (rw (← e) q)) in
      compacted-InOrder (pre ++ k ∷ []) ks keep (remap ++ usize_max ∷ []) kept (omega arith) c.1
        (λ n m g h. f (suc n) m g h)
        (λ n q.
          (let e : length (pre ++ k ∷ []) + n ≡ length pre + suc n = omega arith in
            l (suc n) (rw (← e) q)))
        (rw at (skip-InOrder remap kept (length pre) dead a))

-- What dead code elimination keeps is no more than the nodes, refers to earlier nodes only, and what holds of the nodes with
-- any inputs holds of it.
pub dead_code_elimination-kept {κ} :
    (Q : NodeKey → Type κ) (nodes : List NodeKey) (outputs : List NodeId) (kept : List NodeKey)
    (out_idx : List ℕ)
    → IsOrdered nodes
    → All (λ o. o < length nodes) outputs
    → All (λ k. (ins : List NodeId) → Q (with_inputs k ins)) nodes
    → dead_code_elimination nodes outputs ≡ ok (kept, out_idx)
    → IsOrdered kept × All Q kept × (length kept ≤ length nodes)
unfolding dead_code_elimination
dead_code_elimination-kept Q nodes outputs kept out_idx c h q e =
    let (keep, ends, live) = mark_live-IsLive nodes outputs (IsOrdered-IsClosed nodes c) h in
    let run : dead_code_elimination nodes outputs
        ≡ ok (
          (compacted nodes keep [] []).1,
          map (λ o. get_or (compacted nodes keep [] []).0 o usize_max) outputs,
        ) =
      dead_code_elimination-compacted nodes outputs keep c h live.0 ends in
    let same : (compacted nodes keep [] []).1 ≡ kept =
      ap
        (λ (r : Result Halt (List NodeKey × List ℕ)). elim r as (λ z. List NodeKey) [
          | ok p ↦ p.0
          | err x ↦ kept
        ])
        (sym run ∙ e) in
    let start : InOrder (Reachable nodes outputs) [] [] 0 = record {
      counted = refl;
      within = λ j lt. absurd (omega arith);
      ordered = tt;
    } in
    (
      rw same at (
          compacted-InOrder (Reachable nodes outputs) [] nodes keep [] [] live.0 c
            (λ n k f m.
              All-tabulate (Reachable nodes outputs) (inputs k)
                (λ j i. input_of ((live.1 n).0 m) f i))
            (λ n r. (live.1 n).1 (let e : 0 + n ≡ n = omega arith in rw e at r)) start),
      rw same at (compacted-All Q nodes keep [] [] q tt),
      (let few : length (compacted nodes keep [] []).1 ≤ length nodes =
            omega (arith, compacted-few nodes keep [] []) in
          rw same at few),
    )
