-- ===== src/Optimizer/Meaning.antt =====
-- What an arena of keys computes.
use graphed_core_mvp.Base.{◌≡◌, refl, List, [], ◌∷◌, ◌++◌, map}
use graphed_core_mvp.Node.{
  NodeKey, NodeId, inputs, with_inputs, source, op, reduction, external, stage,
}
use graphed_core_mvp.Store.Arena.{Chain}
use graphed_core_mvp.Store.Invariant.{Fits, IsValid}
use graphed_core_mvp.Store.{Inner}
use graphed_core_mvp.Optimizer.Values

-- A node that refers to earlier ones only.
abbrev pub IsScoped : List NodeKey → NodeKey → Type 0
IsScoped = Values.IsScoped inputs

-- Each node of the arena refers to earlier ones only.
abbrev pub IsOrdered : List NodeKey → Type 0
IsOrdered = Values.IsOrdered inputs

pub Chain-imp : (pre ks : List NodeKey) → Chain Fits pre ks → Chain IsScoped pre ks
Chain-imp pre [] c = tt
Chain-imp pre (k ∷ ks) c = (c.0.scoped, Chain-imp (pre ++ k ∷ []) ks c.1)

pub IsValid-IsOrdered : (g : Inner) → IsValid g → IsOrdered g.nodes
IsValid-IsOrdered g v = Chain-imp [] g.nodes v.arena

pub inputs-with_inputs :
    (f : NodeId → NodeId) (k : NodeKey)
    → inputs (with_inputs k (map f (inputs k))) ≡ map f (inputs k)
unfolding inputs with_inputs
inputs-with_inputs f (source n p) = refl
inputs-with_inputs f (op n p is) = refl
inputs-with_inputs f (reduction n p is) = refl
inputs-with_inputs f (external x p is) = refl
inputs-with_inputs f (stage is ms) = refl

-- The values of the nodes, in their order, behind those of the nodes before them.
abbrev pub run {ℓ} : {A : Type ℓ} → (NodeKey → List A → A) → A → List A → List NodeKey → List A
run = Values.run inputs
