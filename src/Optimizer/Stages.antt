-- ===== src/Optimizer/Stages.antt =====
-- `stage_fusion` and its union-find.
--
-- The keys of `comp_members` come out of the hash map in any order and are then sorted by their
-- greatest member. No two have the same one, so the order is that in which the nodes end a
-- component, and `heads` gives it.
pub mod Find
pub mod Consumers
pub mod Union
use graphed_core_mvp.Base.{
  not, ◌&&◌, ℕ, zero, suc, Bool, true, false, List, [], ◌∷◌, ◌++◌, Option, none, some, length, set,
  ◌==◌, ltb, ◌||◌, if◌then◌else◌, Result, ok, err,
}
use graphed_core_mvp.Optimizer.{
  single_use, maximal, FusionMode, traverse, Halt, out_of_fuel, EngineNode, ◌>>=◌, index,
}

abbrev pub range : ℕ → ℕ → List ℕ
range i zero = []
range i (suc n) = i ∷ range (suc i) n

-- `struct Dsu`
abbrev pub Dsu : Type 0
Dsu = List ℕ

-- The first loop of `find`.
unfoldable pub find_root : ℕ → Dsu → ℕ → Result Halt ℕ
find_root zero parent r = err out_of_fuel
find_root (suc fuel) parent r = do
  p ← index parent r
  elim (p == r) [ true ↦ ok r | false ↦ find_root fuel parent p ]

-- The second loop of `find`: what is on the way gets the root `r` as its parent.
unfoldable pub compress : ℕ → Dsu → ℕ → ℕ → Result Halt Dsu
compress zero parent r c = err out_of_fuel
compress (suc fuel) parent r c = do
  n ← index parent c
  elim (n == c) [ true ↦ ok parent | false ↦ compress fuel (set parent c r) r n ]

-- A parent is never above its node, so a way to the root has at most as many steps as there are
-- nodes.
unfoldable pub find : Dsu → ℕ → Result Halt (Dsu × ℕ)
unfolding find_root compress
find parent x = do
  r ← find_root (suc (length parent)) parent x
  parent' ← compress (suc (length parent)) parent r x
  ok (parent', r)

abbrev pub min_max : ℕ → ℕ → ℕ × ℕ
min_max a b = if ltb a b then (a, b) else (b, a)

unfoldable pub union : Dsu → ℕ → ℕ → Result Halt Dsu
unfolding find
union parent a b = do
  (parent1, ra) ← find parent a
  (parent2, rb) ← find parent1 b
  let (low, high) = min_max ra rb
  ok (if ra == rb then parent2 else set parent2 high low)

-- `consumers[inp].push(i)` for each input.
abbrev pub add_consumer : ℕ → List ℕ → List (List ℕ) → Result Halt (List (List ℕ))
add_consumer i [] consumers = ok consumers
add_consumer i (inp ∷ inputs) consumers = do
  users ← index consumers inp
  add_consumer i inputs (set consumers inp (users ++ i ∷ []))

unfoldable pub consumers_of : ℕ → List EngineNode → List (List ℕ) → Result Halt (List (List ℕ))
consumers_of i [] consumers = ok consumers
consumers_of i (node ∷ nodes) consumers = do
  consumers' ← add_consumer i node.inputs consumers
  consumers_of (suc i) nodes consumers'

unfoldable pub output_marks : List ℕ → List Bool → Result Halt (List Bool)
output_marks [] is_output = ok is_output
output_marks (o ∷ os) is_output = do
  _old ← index is_output o
  output_marks os (set is_output o true)

abbrev pub is_boundary_at : List EngineNode → ℕ → Result Halt Bool
is_boundary_at nodes i = do node ← index nodes i; ok node.boundary

-- Whether node `i`, an op, is united with its only consumer.
abbrev pub single_consumer :
    List EngineNode → List (List ℕ) → List Bool → ℕ → Result Halt (Option ℕ)
single_consumer nodes consumers is_output i = do
  boundary ← is_boundary_at nodes i
  users ← index consumers i
  out ← index is_output i
  elim users [
    | c ∷ [] ↦
        (is_boundary_at nodes c >>= λ across.
        ok (if boundary || out || across then none else some c))
    | _ ↦ ok none
  ]

unfoldable pub unite : List EngineNode → List (List ℕ) → List Bool → List ℕ → Dsu → Result Halt Dsu
unfolding union
unite nodes consumers is_output [] dsu = ok dsu
unite nodes consumers is_output (i ∷ is) dsu = do
  target ← single_consumer nodes consumers is_output i
  dsu' ← elim target [ none ↦ ok dsu | some c ↦ union dsu i c ]
  unite nodes consumers is_output is dsu'

-- The component of each node: of an op its root, of a boundary itself.
unfoldable pub roots : List EngineNode → List ℕ → Dsu → Result Halt (List ℕ)
unfolding find
roots nodes [] dsu = ok []
roots nodes (i ∷ is) dsu = do
  boundary ← is_boundary_at nodes i
  (dsu', c) ← (elim boundary [ true ↦ ok (dsu, i) | false ↦ find dsu i ])
  cs ← roots nodes is dsu'
  ok (c ∷ cs)

unfoldable pub comp_single_use : List EngineNode → List (List ℕ) → List Bool → Result Halt (List ℕ)
unfolding unite roots
comp_single_use nodes consumers is_output =
    let all = range 0 (length nodes) in
    unite nodes consumers is_output all all >>= λ dsu. roots nodes all dsu

abbrev pub any : List Bool → Bool
any [] = false
any (b ∷ bs) = b || any bs

abbrev pub all_eq : ℕ → List ℕ → Bool
all_eq c [] = true
all_eq c (k ∷ ks) = (k == c) && all_eq c ks

-- Whether the op `i` joins the component of its consumers, and which.
abbrev pub shared_component :
    List EngineNode → List Bool → List ℕ → List ℕ → ℕ → Result Halt (Option ℕ)
shared_component nodes is_output comp [] i = ok none
shared_component nodes is_output comp (user ∷ users) i = do
  boundary ← is_boundary_at nodes i
  out ← index is_output i
  across ← traverse (is_boundary_at nodes) (user ∷ users)
  c0 ← index comp user
  cs ← traverse (index comp) (user ∷ users)
  ok (if boundary || out || any across || not (all_eq c0 cs) then none else some c0)

-- One descending pass: the nodes below `i`.
unfoldable pub comp_maximal :
    ℕ → List EngineNode → List (List ℕ) → List Bool → List ℕ → Result Halt (List ℕ)
comp_maximal zero nodes consumers is_output comp = ok comp
comp_maximal (suc i) nodes consumers is_output comp = do
  users ← index consumers i
  target ← shared_component nodes is_output comp users i
  elim target [
    | none ↦ comp_maximal i nodes consumers is_output comp
    | some c ↦ comp_maximal i nodes consumers is_output (set comp i c)
  ]

-- `comp_id`
unfoldable pub components :
    FusionMode → List EngineNode → List (List ℕ) → List Bool → Result Halt (List ℕ)
unfolding comp_single_use comp_maximal
components single_use nodes consumers is_output = comp_single_use nodes consumers is_output
components maximal nodes consumers is_output =
    comp_maximal (length nodes) nodes consumers is_output (range 0 (length nodes))

-- `comp_members[c]`: the nodes of the component `c`, in their order.
abbrev pub members_of : ℕ → ℕ → List ℕ → List ℕ
members_of c i [] = []
members_of c i (k ∷ comp_id) =
    let rest = members_of c (suc i) comp_id in if k == c then i ∷ rest else rest

abbrev pub among : ℕ → List ℕ → Bool
among c [] = false
among c (k ∷ ks) = if k == c then true else among c ks

-- The components, by their greatest members.
unfoldable pub heads : List ℕ → List ℕ
heads [] = []
heads (c ∷ comp_id) = let rest = heads comp_id in if among c comp_id then rest else c ∷ rest
