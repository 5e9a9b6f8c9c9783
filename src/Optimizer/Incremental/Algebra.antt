-- ===== src/Optimizer/Incremental/Algebra.antt =====
-- What the rules of the reducer take for granted of the values that nodes have.
use graphed_core_mvp.Base.{◌≡◌, true, List, [], ◌∷◌}
use graphed_core_mvp.Text.{Text}
use graphed_core_mvp.Node.{NodeKey, NodeId, op, with_inputs, key_eq}
use graphed_core_mvp.Optimizer.Engine.{symmetric_ops, is_in}
use graphed_core_mvp.Optimizer.Incremental.{is_identity}

pub record Algebra {ℓ} (A : Type ℓ) : Type ℓ where
  -- The value of a node, from those of its inputs.
  pub apply : NodeKey → List A → A
  -- It is that of the operator, wherever the inputs stand in the arena.
  pub uniform :
      (k : NodeKey) (ins : List NodeId) (ws : List A) → apply (with_inputs k ins) ws ≡ apply k ws
  pub equal : (k j : NodeKey) (ws : List A) → key_eq k j ≡ true → apply k ws ≡ apply j ws
  pub identity : (k : NodeKey) (x : A) → is_identity k ≡ true → apply k (x ∷ []) ≡ x
  pub symmetric :
      (n : Text) (a b : NodeId) (x y : A)
      → is_in n symmetric_ops ≡ true
      → apply (op n [] (b ∷ a ∷ [])) (y ∷ x ∷ []) ≡ apply (op n [] (a ∷ b ∷ [])) (x ∷ y ∷ [])
