-- ===== src/Optimizer/Engine.antt =====
-- src/optimizer/engine.rs: the rules, and the extraction of the `EggEngine`.
--
-- Equality saturation is the library `egg`. Here `canon` stands for what it computes: the class of
-- each node, as the number that `find` gives.
pub mod Classes
pub mod Sound
use graphed_core_mvp.Base.{
  err, ◌++◌, ok, suc, length, suc, some, ◌==◌, none, Result, Option, ℕ, Bool, true, false, not,
  List, [], ◌∷◌, if◌then◌else◌,
}
use graphed_core_mvp.Text.{Text, codes, text_eq, starts_with}
use graphed_core_mvp.Optimizer.{Halt, panic, EngineNode, EngineGraph, ◌>>=◌, index, traverse}

abbrev pub symmetric_ops : List Text
symmetric_ops =
    codes "add"
    ∷ codes "mul"
    ∷ codes "and"
    ∷ codes "or"
    ∷ codes "eq"
    ∷ codes "ne"
    ∷ codes "maximum"
    ∷ codes "minimum"
    ∷ []

abbrev pub identity_tokens : List Text
identity_tokens =
    codes "op|add|scalar=f0000000000000000;side=sr"
    ∷ codes "op|add|scalar=f0000000000000000;side=sl"
    ∷ codes "op|mul|scalar=f3ff0000000000000;side=sr"
    ∷ codes "op|mul|scalar=f3ff0000000000000;side=sl"
    ∷ []

-- `[&str]::contains`
unfoldable pub is_in : Text → List Text → Bool
is_in t [] = false
is_in t (s ∷ ss) = if text_eq s t then true else is_in t ss

unfoldable pub boundary_from_token : Text → Bool
boundary_from_token token = not (starts_with (codes "op|") token)

-- A `HashMap` from numbers to numbers that is only added to, as the list of its entries.
abbrev pub lookup : ℕ → List (ℕ × ℕ) → Option ℕ
lookup c [] = none
lookup c ((k, v) ∷ table) = if k == c then some v else lookup c table

-- `map[&c]`
abbrev pub entry : List (ℕ × ℕ) → ℕ → Result Halt ℕ
entry table c = elim (lookup c table) [ some v ↦ ok v | none ↦ err panic ]

-- `rep_of_class`: the first node of each class.
unfoldable pub rep_of_class : ℕ → List ℕ → List (ℕ × ℕ) → List (ℕ × ℕ)
rep_of_class i [] table = table
rep_of_class i (c ∷ cs) table = elim (lookup c table) [
  | some r ↦ rep_of_class (suc i) cs table
  | none ↦ rep_of_class (suc i) cs (table ++ (c, i) ∷ [])
]

-- The new index of the class of a node.
abbrev pub class_index : List ℕ → List (ℕ × ℕ) → ℕ → Result Halt ℕ
class_index canon class_to_new j = do c ← index canon j; entry class_to_new c

-- The nodes from the `i`-th on: those that are the first of their class are kept.
unfoldable pub extract_nodes :
    List ℕ
    → List (ℕ × ℕ)
    → List EngineNode
    → ℕ
    → List (ℕ × ℕ)
    → List EngineNode
    → Result Halt (List (ℕ × ℕ) × List EngineNode)
unfolding boundary_from_token
extract_nodes canon reps [] i class_to_new nodes = ok (class_to_new, nodes)
extract_nodes canon reps (node ∷ rest) i class_to_new nodes = do
  c ← index canon i
  r ← entry reps c
  elim (r == i) [
    | true ↦
        (traverse (class_index canon class_to_new) node.inputs >>= λ ins.
        extract_nodes canon reps rest (suc i) (class_to_new ++ (c, length nodes) ∷ []) (
          nodes
          ++ record { token = node.token; boundary = boundary_from_token node.token; inputs = ins }
            ∷ []))
    | false ↦ extract_nodes canon reps rest (suc i) class_to_new nodes
  ]

-- `EggEngine::canonicalize`, where `find` gives the classes of the nodes after saturation.
unfoldable pub canonicalize : (EngineGraph → List ℕ) → EngineGraph → Result Halt EngineGraph
unfolding rep_of_class extract_nodes
canonicalize find graph = do
  let canon = find graph
  (class_to_new, nodes) ← extract_nodes canon (rep_of_class 0 canon []) graph.nodes 0 [] []
  outputs ← traverse (class_index canon class_to_new) graph.outputs
  ok (record { nodes = nodes; outputs = outputs })
