-- ===== src/Optimizer.antt =====
-- src/optimizer/mod.rs: the data of the reduction pipeline. The passes are the child modules.
pub mod Cse
pub mod Dce
pub mod Engine
pub mod Graphs
pub mod Holds
pub mod Fusion
pub mod Incremental
pub mod Meaning
pub mod Pipeline
pub mod Stages
pub mod Values
use graphed_core_mvp.Base.{ℕ, Bool, List, [], ◌∷◌, none, some, get_elem?, Result, ok, err}
use graphed_core_mvp.Text.{Text}
use graphed_core_mvp.Node.{NodeId, NodeKey}

-- Why a run of the code stops without a result. `out_of_fuel` has no counterpart in the program.
pub data Halt : Type 0 where
  panic out_of_fuel : Halt

pub data FusionMode : Type 0 where
  single_use maximal : FusionMode

pub record ReductionReport : Type 0 where
  pub input_nodes : ℕ
  pub reachable_nodes : ℕ
  pub canonical_nodes : ℕ
  pub stages : ℕ
  pub reduced_nodes : ℕ
  pub boundary_nodes : ℕ

pub record Reduced : Type 0 where
  pub nodes : List NodeKey
  pub outputs : List NodeId
  pub report : ReductionReport

-- src/optimizer/engine.rs
pub record EngineNode : Type 0 where
  pub token : Text
  pub boundary : Bool
  pub inputs : List ℕ

pub record EngineGraph : Type 0 where
  pub nodes : List EngineNode
  pub outputs : List ℕ

-- What follows an operation that may stop.
infixl 5 ◌>>=◌
abbrev pub ◌>>=◌ {ℓ κ} :
    {A : Type ℓ} {B : Type κ} → Result Halt A → (A → Result Halt B) → Result Halt B
ok a >>= f = f a
err e >>= f = err e

-- `xs[i]`
abbrev pub index {ℓ} : {A : Type ℓ} → List A → ℕ → Result Halt A
index xs i = elim (get_elem? xs i) [ some a ↦ ok a | none ↦ err panic ]

-- `.iter().map(f).collect()`, where `f` may stop.
abbrev pub traverse {ℓ κ} :
    {A : Type ℓ} {B : Type κ} → (A → Result Halt B) → List A → Result Halt (List B)
traverse f [] = ok []
traverse f (a ∷ xs) = do b ← f a; bs ← traverse f xs; ok (b ∷ bs)
