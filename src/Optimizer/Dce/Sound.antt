-- ===== src/Optimizer/Dce/Sound.antt =====
-- Dead code elimination ends and changes no output.
use graphed_core_mvp.Base.{
  ℕ, ◌+◌, ◌<◌, ◌≡◌, refl, List, [], ◌∷◌, map, arith, length, get_elem?-lt, get_or, All, All-imp, ok,
}
use graphed_core_mvp.Node.{NodeKey, NodeId, inputs, with_inputs}
use graphed_core_mvp.Optimizer.Meaning.{IsOrdered, run}
use graphed_core_mvp.Optimizer.Values.{Chain-at}
use graphed_core_mvp.Optimizer.Dce.{dead_code_elimination, usize_max}
use graphed_core_mvp.Optimizer.Dce.Marks.{Reachable, root, input_of}
use graphed_core_mvp.Optimizer.Dce.Ranges.{compacted, dead_code_elimination-compacted}
use graphed_core_mvp.Optimizer.Dce.Live.{IsClosed, mark_live-IsLive}
use graphed_core_mvp.Optimizer.Dce.Compact.{Agree, compacted-Agree, All-tabulate}

pub IsOrdered-IsClosed : (nodes : List NodeKey) → IsOrdered nodes → IsClosed nodes
IsOrdered-IsClosed nodes c = record {
  inputs_of = λ i k f.
      All-imp (inputs k) (λ j lt. (let h = get_elem?-lt nodes i f in omega arith))
        (Chain-at inputs [] nodes i k c f);
}

module _ {ℓ} {A : Type ℓ} (apply : NodeKey → List A → A) (d : A) where
  outputs-Agree :
      (nodes : List NodeKey) (outputs os : List NodeId) (remap : List ℕ) (kept : List NodeKey)
      (vs : List A)
      → Agree apply d (Reachable nodes outputs) remap kept vs (length nodes)
      → All (λ o. o < length nodes) os
      → All (Reachable nodes outputs) os
      → map (λ o. get_or (run apply d [] kept) o d) (map (λ o. get_or remap o usize_max) os)
        ≡ map (λ o. get_or vs o d) os
  outputs-Agree nodes outputs [] remap kept vs a h r = refl
  outputs-Agree nodes outputs (o ∷ os) remap kept vs a h r =
      rw ((a.same o h.0 r.0).1, outputs-Agree nodes outputs os remap kept vs a h.1 r.1) refl

  outputs-small :
      (nodes : List NodeKey) (outputs os : List NodeId) (remap : List ℕ) (kept : List NodeKey)
      (vs : List A)
      → Agree apply d (Reachable nodes outputs) remap kept vs (length nodes)
      → All (λ o. o < length nodes) os
      → All (Reachable nodes outputs) os
      → All (λ i. i < length kept) (map (λ o. get_or remap o usize_max) os)
  outputs-small nodes outputs [] remap kept vs a h r = tt
  outputs-small nodes outputs (o ∷ os) remap kept vs a h r =
      ((a.same o h.0 r.0).0, outputs-small nodes outputs os remap kept vs a h.1 r.1)

  -- For an arena whose nodes refer to earlier ones only, and outputs in the arena, dead code
  -- elimination ends with a result whose outputs are in its arena, and they have the values that the given
  -- outputs have in the arena, whatever a node does to the values of its inputs.
  pub dead_code_elimination-run :
      (nodes : List NodeKey) (outputs : List NodeId)
      → ((m : NodeKey) (ins : List NodeId) (ws : List A)
          → apply (with_inputs m ins) ws ≡ apply m ws)
      → IsOrdered nodes
      → All (λ o. o < length nodes) outputs
      → (kept : List NodeKey) × (out_idx : List ℕ) × (dead_code_elimination nodes outputs
          ≡ ok (kept, out_idx))
        × All (λ i. i < length kept) out_idx
        × (map (λ o. get_or (run apply d [] kept) o d) out_idx
            ≡ map (λ o. get_or (run apply d [] nodes) o d) outputs)
  unfolding dead_code_elimination
  dead_code_elimination-run nodes outputs u c h =
      let (keep, ends, live) = mark_live-IsLive nodes outputs (IsOrdered-IsClosed nodes c) h in
      let (remap, kept) = compacted nodes keep [] [] in
      let start : Agree apply d (Reachable nodes outputs) [] [] [] 0 = record {
        counted = refl;
        valued = refl;
        same = λ j lt. absurd (omega arith);
      } in
      let agree =
        compacted-Agree apply d (Reachable nodes outputs) [] nodes keep [] [] [] u live.0 c
          (λ n k f m.
            All-tabulate (Reachable nodes outputs) (inputs k)
              (λ j i. input_of ((live.1 n).0 m) f i))
          (λ n r. (live.1 n).1 (let e : 0 + n ≡ n = omega arith in rw e at r)) start in
      let len : 0 + length nodes ≡ length nodes = omega arith in
      (
        kept,
        map (λ o. get_or remap o usize_max) outputs,
        dead_code_elimination-compacted nodes outputs keep c h live.0 ends,
        outputs-small nodes outputs outputs remap kept (run apply d [] nodes) (rw len at agree) h
            (All-tabulate (Reachable nodes outputs) outputs (λ j i. root i)),
        outputs-Agree nodes outputs outputs remap kept (run apply d [] nodes) (rw len at agree) h
            (All-tabulate (Reachable nodes outputs) outputs (λ j i. root i)),
      )
