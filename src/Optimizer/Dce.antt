-- ===== src/Optimizer/Dce.antt =====
-- `dead_code_elimination`: the nodes reachable from the outputs, renumbered in their order.
--
-- The stack is a list with its top first. `remap` is filled from the left, and what is not filled
-- yet is `usize::MAX`. An index out of range is a panic.
pub mod Marks
pub mod Live
pub mod Ranges
pub mod Compact
pub mod Sound
pub mod Order
use graphed_core_mvp.Base.{
  ℕ, zero, suc, ◌+◌, ◌-◌, ◌^◌, Bool, true, false, List, [], ◌∷◌, ◌++◌, map, none, some, length,
  get_elem?, get_or, set, replicate, ltb, Result, ok, err,
}
use mathlib.Core.List.{reverse}
use graphed_core_mvp.Node.{NodeId, NodeKey, inputs, with_inputs}
use graphed_core_mvp.Optimizer.{Halt, panic, out_of_fuel}

-- The `while let Some(i) = stack.pop()` loop.
unfoldable pub mark_live : ℕ → List NodeKey → List Bool → List ℕ → Result Halt (List Bool)
mark_live zero nodes keep [] = ok keep
mark_live zero nodes keep (i ∷ stack) = err out_of_fuel
mark_live (suc fuel) nodes keep [] = ok keep
mark_live (suc fuel) nodes keep (i ∷ stack) = elim (get_elem? keep i) [
  | none ↦ err panic
  | some true ↦ mark_live fuel nodes keep stack
  | some false ↦ elim (get_elem? nodes i) [
    | none ↦ err panic
    | some k ↦ mark_live fuel nodes (set keep i true) (reverse (inputs k) ++ stack)
  ]
]

abbrev pub usize_max : ℕ
usize_max = 2 ^ 64 - 1

-- What stands for these ids in `remap`, whose length is `size`. It is filled from the left.
unfoldable pub remapped : ℕ → List ℕ → List NodeId → Result Halt (List ℕ)
remapped size remap [] = ok []
remapped size remap (x ∷ xs) = elim (ltb x size) [
  | false ↦ err panic
  | true ↦
      let rest = remapped size remap xs in
      elim rest [ err e ↦ err e | ok ys ↦ ok (get_or remap x usize_max ∷ ys) ]
]

-- The nodes that are kept, renumbered; `remap` has an entry for each node before these.
unfoldable pub compact :
    ℕ → List NodeKey → List Bool → List ℕ → List NodeKey → Result Halt (List ℕ × List NodeKey)
unfolding remapped
compact size [] keep remap kept = ok (remap, kept)
compact size (node ∷ nodes) [] remap kept = err panic
compact size (node ∷ nodes) (true ∷ keep) remap kept = elim (remapped size remap (inputs node)) [
  | err e ↦ err e
  | ok new_inputs ↦
      compact size nodes keep (remap ++ length kept ∷ []) (kept ++ with_inputs node new_inputs ∷ [])
]
compact size (node ∷ nodes) (false ∷ keep) remap kept =
    compact size nodes keep (remap ++ usize_max ∷ []) kept

abbrev pub total_inputs : List NodeKey → ℕ
total_inputs [] = 0
total_inputs (k ∷ ks) = length (inputs k) + total_inputs ks

unfoldable pub renumber :
    ℕ → List NodeId → List ℕ × List NodeKey → Result Halt (List NodeKey × List ℕ)
unfolding remapped
renumber size outputs (remap, kept) = elim (remapped size remap outputs) [
  | err e ↦ err e
  | ok out_idx ↦ ok (kept, out_idx)
]

-- Each entry of the stack is an output or an input of a node that was just marked.
unfoldable pub dead_code_elimination :
    List NodeKey → List NodeId → Result Halt (List NodeKey × List ℕ)
dead_code_elimination nodes outputs =
    elim (mark_live (length outputs + total_inputs nodes) nodes (replicate (length nodes) false)
      (reverse outputs)) [
        | err e ↦ err e
        | ok keep ↦ elim (compact (length nodes) nodes keep [] []) [
          | err e ↦ err e
          | ok r ↦ renumber (length nodes) outputs r
        ]
      ]
