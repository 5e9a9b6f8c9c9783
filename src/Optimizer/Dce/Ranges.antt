-- ===== src/Optimizer/Dce/Ranges.antt =====
-- On an arena whose nodes refer to earlier ones only, the compaction indexes nothing out of range.
use graphed_core_mvp.Base.{
  replicate, ℕ, ◌+◌, ◌<◌, ◌≤◌, ◌≡◌, refl, Bool, true, false, List, [], ◌∷◌, ◌++◌, map, arith,
  length, length-append, get_or, ltb, All, All-imp, ok,
}
use graphed_core_mvp.Node.{NodeKey, NodeId, inputs, with_inputs}
use graphed_core_mvp.Store.Arena.{Chain}
use graphed_core_mvp.Optimizer.Meaning.{IsScoped, IsOrdered}
use graphed_core_mvp.Optimizer.Dce.{
  reverse, compact, remapped, renumber, mark_live, total_inputs, usize_max, dead_code_elimination,
}

abbrev pub renumbered : List ℕ → NodeKey → NodeKey
renumbered remap k = with_inputs k (map (λ x. get_or remap x usize_max) (inputs k))

-- The compaction where each index is in range.
unfoldable pub compacted : List NodeKey → List Bool → List ℕ → List NodeKey → List ℕ × List NodeKey
compacted (k ∷ ks) (true ∷ keep) remap kept =
    compacted ks keep (remap ++ length kept ∷ []) (kept ++ renumbered remap k ∷ [])
compacted (k ∷ ks) (false ∷ keep) remap kept = compacted ks keep (remap ++ usize_max ∷ []) kept
compacted _ _ remap kept = (remap, kept)

remapped-small :
    (size : ℕ) (remap xs : List ℕ)
    → All (λ x. x < size) xs
    → remapped size remap xs ≡ ok (map (λ x. get_or remap x usize_max) xs)
unfolding remapped
remapped-small size remap [] h = refl
remapped-small size remap (x ∷ xs) h =
    let small : ltb x size ≡ true = ground (arith, h.0) in
    rw (small, remapped-small size remap xs h.1, remapped) refl

compact-compacted :
    (size : ℕ) (pre ks : List NodeKey) (keep : List Bool) (remap : List ℕ) (kept : List NodeKey)
    → Chain IsScoped pre ks
    → length pre + length ks ≤ size
    → length keep ≡ length ks
    → compact size ks keep remap kept ≡ ok (compacted ks keep remap kept)
unfolding compact compacted
compact-compacted size pre [] keep remap kept c h e = refl
compact-compacted size pre (k ∷ ks) [] remap kept c h e = absurd (omega arith)
compact-compacted size pre (k ∷ ks) (true ∷ keep) remap kept c h e =
    rw
      (remapped-small size remap (inputs k) (All-imp (inputs k) (λ x lt. omega arith) c.0), compact)
      (compact-compacted size (pre ++ k ∷ []) ks keep _ _ c.1
        (omega (arith, length-append pre (k ∷ []))) (omega arith))
compact-compacted size pre (k ∷ ks) (false ∷ keep) remap kept c h e =
    compact-compacted size (pre ++ k ∷ []) ks keep _ _ c.1
      (omega (arith, length-append pre (k ∷ []))) (omega arith)

renumber-small :
    (size : ℕ) (outputs remap : List ℕ) (kept : List NodeKey)
    → All (λ o. o < size) outputs
    → renumber size outputs (remap, kept) ≡ ok (kept, map (λ o. get_or remap o usize_max) outputs)
unfolding renumber
renumber-small size outputs remap kept h = rw (remapped-small size remap outputs h, renumber) refl

pub dead_code_elimination-compacted :
    (nodes : List NodeKey) (outputs : List NodeId) (keep : List Bool)
    → IsOrdered nodes
    → All (λ o. o < length nodes) outputs
    → length keep ≡ length nodes
    → mark_live
        (length outputs + total_inputs nodes)
        nodes
        (replicate (length nodes) false)
        (reverse outputs)
      ≡ ok keep
    → dead_code_elimination nodes outputs
      ≡ ok (
        (compacted nodes keep [] []).1,
        map (λ o. get_or (compacted nodes keep [] []).0 o usize_max) outputs,
      )
unfolding dead_code_elimination
dead_code_elimination-compacted nodes outputs keep c h len ends =
    rw
      (
        ends,
        compact-compacted (length nodes) [] nodes keep [] [] c (omega arith) len,
        dead_code_elimination,
      )
      (renumber-small (length nodes) outputs _ _ h)
