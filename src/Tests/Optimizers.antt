-- ===== src/Tests/Optimizers.antt =====
-- src/optimizer at small inputs.
use graphed_core_mvp.Base.{
  ℕ, ◌+◌, ◌<◌, ◌≤◌, ◌≡◌, refl, sym, ap, ◌∙◌, true, false, List, [], ◌∷◌, map, arith, length, get_or,
  All, ok, replicate,
}
use graphed_core_mvp.Text.{codes, join, replace}
use graphed_core_mvp.Text.Number.{hex_digit, hex_from, display_hex}
use graphed_core_mvp.Param
use graphed_core_mvp.Param.{float_key, value_token, escape_token, params_eq, float, str}
use graphed_core_mvp.Node.{
  NodeKey, NodeId, source, op, reduction, external, stage, inputs, with_inputs, key_eq, token,
  with_params,
}
use graphed_core_mvp.Node.Identity.{key_canon, key_eq-Decides}
use graphed_core_mvp.Optimizer.Meaning.{run, IsOrdered}
use graphed_core_mvp.Optimizer.Dce.{
  usize_max, dead_code_elimination, mark_live, total_inputs, compact, remapped, renumber,
}
use graphed_core_mvp.Optimizer.Dce.Live.{mark_live-IsLive, Ends}
use graphed_core_mvp.Optimizer.Dce.Sound.{dead_code_elimination-run, IsOrdered-IsClosed}
use graphed_core_mvp.Optimizer.Incremental.{
  canonicalize, consume, is_identity, fresh, step, watermark, canonical_count,
}
use graphed_core_mvp.Optimizer.Incremental.Algebra.{Algebra}
use graphed_core_mvp.Optimizer.Incremental.Canonical.{value}
use graphed_core_mvp.Optimizer.Incremental.Sound.{
  IsUnary, IsReduced, fresh-IsReduced, step-IsReduced,
}
use graphed_core_mvp.Optimizer.Incremental.Steps.{steps, steps-value}

-- A source is as large as its name, and any other node is the sum of its inputs.
abbrev pub sum : List ℕ → ℕ
sum [] = 0
sum (x ∷ xs) = x + sum xs

abbrev size : NodeKey → List ℕ → ℕ
size (source n p) ws = length n
size _ ws = sum ws

size-with_inputs :
    (k : NodeKey) (ins : List NodeId) (ws : List ℕ) → size (with_inputs k ins) ws ≡ size k ws
unfolding with_inputs
size-with_inputs (source n p) ins ws = refl
size-with_inputs (op n p is) ins ws = refl
size-with_inputs (reduction n p is) ins ws = refl
size-with_inputs (external x p is) ins ws = refl
size-with_inputs (stage is ms) ins ws = refl

size-key_canon : (k : NodeKey) (ws : List ℕ) → size (key_canon k) ws ≡ size k ws
unfolding key_canon
size-key_canon (source n p) ws = refl
size-key_canon (op n p is) ws = refl
size-key_canon (reduction n p is) ws = refl
size-key_canon (external x p is) ws = refl
size-key_canon (stage is ms) ws = refl

size-identity : (k : NodeKey) (x : ℕ) → is_identity k ≡ true → size k (x ∷ []) ≡ x
unfolding is_identity
size-identity (op n p is) x h = omega arith
size-identity _ x h = cc

pub sizes : Algebra ℕ
sizes = record {
  apply = size;
  uniform = size-with_inputs;
  equal = λ k j ws h.
      sym (size-key_canon k ws)
      ∙ ap (λ x. size x ws) ((key_eq-Decides k j).0 h)
      ∙ size-key_canon j ws;
  identity = size-identity;
  symmetric = λ n a b x y h. omega arith;
}

abbrev pub jet : NodeKey
jet = source (codes "jet") []

abbrev pub muon : NodeKey
muon = source (codes "muon") []

abbrev pub both : NodeKey
both = op (codes "add") [] (0 ∷ 1 ∷ [])

abbrev pub swapped : NodeKey
swapped = op (codes "add") [] (1 ∷ 0 ∷ [])

-- `x + 0.0`
abbrev pub plus_zero : NodeKey
plus_zero =
    op (codes "add") ((codes "scalar", float 0) ∷ (codes "side", str (codes "r")) ∷ []) (0 ∷ [])

abbrev pub arena : List NodeKey
arena = jet ∷ muon ∷ both ∷ swapped ∷ plus_zero ∷ []

arena-IsOrdered : IsOrdered arena
unfolding inputs
arena-IsOrdered = (
  tt,
  (
    tt,
    ((omega arith, (omega arith, tt)), ((omega arith, (omega arith, tt)), ((omega arith, tt), tt))),
  ),
)

identity-plus_zero : is_identity plus_zero ≡ true
unfolding is_identity token with_params Param.token value_token escape_token join replace
    display_hex hex_from hex_digit float_key
identity-plus_zero = refl

pub identity-both : is_identity both ≡ false
unfolding is_identity token with_params escape_token replace
identity-both = refl

identity-swapped : is_identity swapped ≡ false
unfolding is_identity token with_params escape_token replace
identity-swapped = refl

eliminated : dead_code_elimination arena (4 ∷ []) ≡ ok (jet ∷ plus_zero ∷ [], 1 ∷ [])
unfolding dead_code_elimination mark_live inputs compact remapped renumber with_inputs
eliminated = refl

arena-IsUnary : All IsUnary arena
unfolding is_identity inputs
arena-IsUnary =
    (λ h. cc, (λ h. cc, (λ h. cc identity-both, (λ h. cc identity-swapped, (λ h. refl, tt)))))

collapsed : (step arena fresh).0.map ≡ 0 ∷ 1 ∷ 2 ∷ 2 ∷ 0 ∷ []
unfolding step consume canonicalize is_identity token key_eq params_eq with_params Param.token
    value_token escape_token join replace display_hex hex_from float_key
collapsed = refl

mark_live-IsLive_example :
    Ends arena (4 ∷ []) (mark_live (1 + total_inputs arena) arena (replicate 5 false) (4 ∷ []))
mark_live-IsLive_example =
    mark_live-IsLive arena (4 ∷ []) (IsOrdered-IsClosed arena arena-IsOrdered) (omega arith, tt)

dead_code_elimination-run_example :
    (kept : List NodeKey) × (out_idx : List ℕ) × (dead_code_elimination arena (4 ∷ [])
      ≡ ok (kept, out_idx))
    × All (λ i. i < length kept) out_idx
    × (map (λ o. get_or (run size 0 [] kept) o 0) out_idx ≡ 3 ∷ [])
unfolding inputs
dead_code_elimination-run_example =
    dead_code_elimination-run size 0 arena (4 ∷ []) size-with_inputs arena-IsOrdered
      (omega arith, tt)

step-IsReduced_example :
    ((step arena fresh).1 ≡ ok 5)
    × IsReduced sizes 0 arena (step arena fresh).0
    × ((step arena fresh).0.total_work ≡ 0 + 5)
step-IsReduced_example =
    step-IsReduced sizes 0 [] arena fresh (fresh-IsReduced sizes 0) arena-IsOrdered arena-IsUnary

abbrev cut : List (List NodeKey)
cut = (jet ∷ muon ∷ []) ∷ [] ∷ (both ∷ swapped ∷ plus_zero ∷ []) ∷ []

steps-value_example :
    ((steps cut fresh).total_work ≡ 5)
    × (watermark (steps cut fresh) ≡ 5)
    × (canonical_count (steps cut fresh) ≤ 5)
    × ((j : ℕ)
        → j < 5
        → (get_or (steps cut fresh).map j usize_max < canonical_count (steps cut fresh))
          × (value sizes 0 (steps cut fresh).canon_nodes (get_or (steps cut fresh).map j usize_max)
              ≡ value sizes 0 arena j))
steps-value_example = steps-value sizes 0 cut arena-IsOrdered arena-IsUnary
