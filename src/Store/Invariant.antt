-- ===== src/Store/Invariant.antt =====
-- The invariant of the store.
use graphed_core_mvp.Base.{◌<◌, ◌≡◌, refl, List, [], none, false, length, All}
use graphed_core_mvp.Node.{NodeId, NodeKey, inputs}
use graphed_core_mvp.Store.{Inner, empty, get, contains}
use graphed_core_mvp.Store.Arena.{Chain, enumerate}

-- A key that may stand behind the nodes `pre`: no equal key stands there, and its inputs do.
pub record Fits (pre : List NodeKey) (k : NodeKey) : Type 0 where
  pub fresh : get k (enumerate 0 pre) ≡ none
  pub scoped : All (λ i. i < length pre) (inputs k)

-- An output that is not yet marked.
abbrev pub IsNew : List NodeId → NodeId → Type 0
IsNew pre o = contains pre o ≡ false

pub record IsValid (g : Inner) : Type 0 where
  -- The nodes are pairwise different, and each refers to earlier ones only.
  pub arena : Chain Fits [] g.nodes
  -- The table holds exactly the nodes, each with its id.
  pub tabled : g.table ≡ enumerate 0 g.nodes
  -- Outputs are nodes, and none is marked twice.
  pub in_range : All (λ o. o < length g.nodes) g.outputs
  pub marked_once : Chain IsNew [] g.outputs

pub empty-IsValid : IsValid empty
empty-IsValid = record { arena = tt; tabled = refl; in_range = tt; marked_once = tt }
