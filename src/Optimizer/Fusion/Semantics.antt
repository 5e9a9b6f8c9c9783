-- ===== src/Optimizer/Fusion/Semantics.antt =====
-- What a fused stage computes, and which partitions of a graph may be fused.
use graphed_core_mvp.Base.{
  ℕ, ◌≤◌, ◌<◌, ◌≡◌, true, List, [], ◌∷◌, ◌++◌, map, length, get_elem?, get_or, some, ok,
}
use graphed_core_mvp.Text.{Text}
use graphed_core_mvp.Node.{
  NodeKey, NodeId, StageOp, StageRef, input, member, stage, inputs, with_inputs,
}
use graphed_core_mvp.Store.{contains}
use graphed_core_mvp.Optimizer.{EngineNode}
use graphed_core_mvp.Optimizer.Fusion.{Templates, template}

abbrev pub last_or {ℓ} : {A : Type ℓ} → A → List A → A
last_or d [] = d
last_or d (x ∷ xs) = last_or x xs

module _ {ℓ} {A : Type ℓ} (tokens : Text → List A → A) (d : A) where
  -- A reference is to an input of the stage or to an earlier member.
  abbrev pub ref_value : List A → List A → StageRef → A
  ref_value ws vs (input i) = get_or ws i d
  ref_value ws vs (member i) = get_or vs i d

  -- The values of the members, behind those before them, from those of the stage's inputs.
  abbrev pub member_values : List A → List A → List StageOp → List A
  member_values ws vs [] = vs
  member_values ws vs (m ∷ ms) =
      member_values ws (vs ++ tokens m.token (map (ref_value ws vs) m.inputs) ∷ []) ms

  -- A stage has the value of its last member.
  abbrev pub stage_value : List A → List StageOp → A
  stage_value ws ms = last_or d (member_values ws [] ms)

-- The values of nodes by their keys and by their tokens. The program that runs a graph is not in
-- this crate; it runs a stage by running its members in order.
pub record Semantics {ℓ} (A : Type ℓ) : Type ℓ where
  pub apply : NodeKey → List A → A
  pub tokens : Text → List A → A
  pub default : A
  -- The value is that of the operator, wherever the inputs stand in the arena.
  pub uniform :
      (k : NodeKey) (ins : List NodeId) (ws : List A) → apply (with_inputs k ins) ws ≡ apply k ws
  pub stages :
      (ins : List NodeId) (ms : List StageOp) (ws : List A)
      → apply (stage ins ms) ws ≡ stage_value tokens default ws ms

-- `j` is the last node of its component.
abbrev pub IsHead : List ℕ → ℕ → Type 0
IsHead comp j = (k c : ℕ) → get_elem? comp j ≡ some c → get_elem? comp k ≡ some c → k ≤ j

-- A component is named by a node, that of a boundary has no other node, and what is used outside of
-- its component, or is an output, is the last node of it.
pub record AreComponents (nodes : List EngineNode) (outputs : List ℕ) (comp : List ℕ) : Type 0 where
  pub sized : length comp ≡ length nodes
  pub named : (i c : ℕ) → get_elem? comp i ≡ some c → c < length nodes
  pub alone :
      (i c : ℕ) (n : EngineNode)
      → get_elem? comp i ≡ some c
      → get_elem? nodes c ≡ some n
      → n.boundary ≡ true
      → i ≡ c
  pub used :
      (i j c e : ℕ) (n : EngineNode)
      → get_elem? nodes i ≡ some n
      → contains n.inputs j ≡ true
      → get_elem? comp i ≡ some c
      → get_elem? comp j ≡ some e
      → (c ≡ e → ⊥)
      → IsHead comp j
  pub returned : (j : ℕ) → contains outputs j ≡ true → IsHead comp j

-- There is a template for a token and a number of inputs, with the meaning of the token.
pub record HasKey {ℓ} {A : Type ℓ} (s : Semantics A) (templates : Templates) (t : Text) (arity : ℕ)
    : Type ℓ where
  pub key : NodeKey
  pub found : template templates t ≡ ok key
  pub meant : (ws : List A) → s.apply key ws ≡ s.tokens t ws
  pub takes : (ins : List NodeId) → length ins ≡ arity → inputs (with_inputs key ins) ≡ ins
