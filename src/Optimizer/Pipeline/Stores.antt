-- ===== src/Optimizer/Pipeline/Stores.antt =====
-- The store that is built from a reduction.
use graphed_core_mvp.Base.{
  ap, ◌∙◌, ℕ, suc, ◌+◌, ◌<◌, ◌≤◌, ◌≡◌, refl, List, [], ◌∷◌, ◌++◌, map, arith, length, length-append,
  get_elem?-lt, get_elem?-get_or, get_or, All, All-append, All-at, All-imp, Result, ok,
}
use graphed_core_mvp.Text.{Text}
use graphed_core_mvp.Node.{NodeKey, NodeId, inputs, with_inputs}
use graphed_core_mvp.Store.{Inner, empty, intern, add_key, mark_output}
use graphed_core_mvp.Store.Arena.{Chain}
use graphed_core_mvp.Store.Invariant.{IsValid, empty-IsValid}
use graphed_core_mvp.Store.Intern.{intern-IsValid, intern-nodes, intern-few, intern-get_elem?}
use graphed_core_mvp.Store.Sharing.{intern-ok_iff}
use graphed_core_mvp.Store.Outputs.{mark_output-IsValid, mark_output_lem}
use graphed_core_mvp.Optimizer.{Halt, EngineGraph, FusionMode, Reduced, ReductionReport, ◌>>=◌}
use graphed_core_mvp.Optimizer.Holds.{index-get_or, traverse-index}
use graphed_core_mvp.Optimizer.Meaning.{IsScoped, IsOrdered, IsValid-IsOrdered, inputs-with_inputs}
use graphed_core_mvp.Optimizer.Graphs.{IsGraph, KeepsValues}
use graphed_core_mvp.Optimizer.Engine.Sound.{Flagged}
use graphed_core_mvp.Optimizer.Fusion.Semantics.{Semantics}
use graphed_core_mvp.Optimizer.Pipeline.Sound.{IsNamed, reduce_with_mode-IsReduction}
use graphed_core_mvp.Optimizer.Pipeline.{
  RewriteEngine, add_nodes, mark_outputs, from_reduced, reduce_with,
}

-- Ids that are nodes of the store.
abbrev AreIds : Inner → List NodeId → Type 0
AreIds g ids = All (λ i. i < length g.nodes) ids

AreIds-get_or :
    (g : Inner) (ids : List NodeId) (j : ℕ)
    → AreIds g ids
    → j < length ids
    → get_or ids j 0 < length g.nodes
AreIds-get_or g ids j h lt =
    All-at (λ i. i < length g.nodes) ids j (get_or ids j 0) h (get_elem?-get_or ids j 0 lt)

AreIds-map :
    (g : Inner) (ids : List NodeId) (js : List ℕ)
    → AreIds g ids
    → All (λ j. j < length ids) js
    → AreIds g (map (λ j. get_or ids j 0) js)
AreIds-map g ids [] h lt = tt
AreIds-map g ids (j ∷ js) h lt = (AreIds-get_or g ids j h lt.0, AreIds-map g ids js h lt.1)

-- What the loop over the nodes ends with.
record Filled (count : ℕ) (size : ℕ) (r : Result Halt (List NodeId × Inner)) : Type 0 where
  ids : List NodeId
  store : Inner
  ends : r ≡ ok (ids, store)
  counted : length ids ≡ count
  valid : IsValid store
  inside : AreIds store ids
  few : length store.nodes ≤ size

add_nodes-Filled :
    (pre keys : List NodeKey) (ids : List NodeId) (g : Inner) (size : ℕ)
    → Chain IsScoped pre keys
    → length ids ≡ length pre
    → IsValid g
    → AreIds g ids
    → length g.nodes + length keys ≤ size
    → Filled (length pre + length keys) size (add_nodes keys ids g)
unfolding add_nodes add_key
add_nodes-Filled pre [] ids g size c e v h few = record {
  ids = ids;
  store = g;
  ends = refl;
  counted = omega arith;
  valid = v;
  inside = h;
  few = omega arith;
}
add_nodes-Filled pre (key ∷ keys) ids g size c e v h few =
    let remapped = map (λ j. get_or ids j 0) (inputs key) in
    let new = with_inputs key remapped in
    let scoped : All (λ j. j < length ids) (inputs key) = rw e c.0 in
    let found = traverse-index ids (inputs key) 0 scoped in
    let same : inputs new ≡ remapped = inputs-with_inputs (λ j. get_or ids j 0) key in
    let (id, added) = (intern-ok_iff new g).1 (rw same (AreIds-map g ids (inputs key) h scoped)) in
    let g' = (intern new g).0 in
    let (extra, more) = intern-nodes new g in
    let longer : length g'.nodes ≡ length g.nodes + length extra =
      ap length more ∙ length-append g.nodes extra in
    let (k, at, eq) = intern-get_elem? new g id v added in
    let inside : AreIds g' (ids ++ id ∷ []) =
      All-append (λ i. i < length g'.nodes) ids (id ∷ []) (All-imp ids (λ i lt. omega arith) h)
        (get_elem?-lt g'.nodes id at, tt) in
    let at_most : length g'.nodes ≤ suc (length g.nodes) = intern-few new g in
    let rest =
      add_nodes-Filled (pre ++ key ∷ []) keys (ids ++ id ∷ []) g' size c.1
        (omega (arith, length-append ids (id ∷ []), length-append pre (key ∷ [])))
        (intern-IsValid new g v) inside (omega arith) in
    record {
      ids = rest.ids;
      store = rest.store;
      ends = rw (found, ◌>>=◌, added, ◌>>=◌, add_nodes) rest.ends;
      counted = rest.counted ∙ omega (arith, length-append pre (key ∷ []));
      valid = rest.valid;
      inside = rest.inside;
      few = rest.few;
    }

mark_outputs-ends :
    (os : List NodeId) (ids : List NodeId) (g : Inner)
    → All (λ o. o < length ids) os
    → AreIds g ids
    → IsValid g
    → (g' : Inner) × (mark_outputs os ids g ≡ ok g') × IsValid g' × (g'.nodes ≡ g.nodes)
unfolding mark_outputs
mark_outputs-ends [] ids g lt h v = (g, refl, v, refl)
mark_outputs-ends (o ∷ os) ids g lt h v =
    let id = get_or ids o 0 in
    let (done, same, table, outputs) = mark_output_lem id g (AreIds-get_or g ids o h lt.0) in
    let inside : AreIds (mark_output id g).0 ids = rw same h in
    let (g', ends, v', nodes) =
      mark_outputs-ends os ids (mark_output id g).0 lt.1 inside (mark_output-IsValid id g v) in
    (g', rw (index-get_or ids o 0 lt.0, ◌>>=◌, done, ◌>>=◌, mark_outputs) ends, v', nodes ∙ same)

-- The store of a reduced arena whose nodes refer to earlier ones only, with its outputs in it, is
-- built without a panic. It is valid, and has no more nodes.
pub from_reduced-IsValid :
    (red : Reduced)
    → IsOrdered red.nodes
    → All (λ o. o < length red.nodes) red.outputs
    → (g : Inner) × (from_reduced red ≡ ok (g, red.report))
      × IsValid g
      × (length g.nodes ≤ length red.nodes)
unfolding from_reduced
from_reduced-IsValid red c h =
    let all =
      add_nodes-Filled [] red.nodes [] empty (length red.nodes) c refl empty-IsValid tt
        (omega arith) in
    let lt : All (λ o. o < length all.ids) red.outputs =
      All-imp red.outputs (λ o l. (let n = all.counted in omega arith)) h in
    let (g, ends, v, same) =
      mark_outputs-ends red.outputs all.ids all.store lt all.inside all.valid in
    (g, rw (all.ends, ◌>>=◌, ends, from_reduced) refl, v, (let f = all.few in rw same f))

-- An engine that ends, and gives a graph with nodes in order, no more nodes and no other tokens: one
-- that keeps the values when there is one value only.
abbrev pub KeepsShape : RewriteEngine → Type 1
KeepsShape engine =
    (Q : Text → ℕ → Type 0) (g : EngineGraph)
    → IsGraph (Flagged Q) g
    → KeepsValues {A = Unit {0}} (λ t ws. tt) tt (Flagged Q) g (engine g)

abbrev only_value : Semantics (Unit {0})
only_value = record {
  apply = λ k ws. tt;
  tokens = λ t ws. tt;
  default = tt;
  uniform = λ k ins ws. refl;
  stages = λ ins ms ws. refl;
}

all-IsNamed : (ks : List NodeKey) → All (IsNamed only_value) ks
all-IsNamed [] = tt
all-IsNamed (k ∷ ks) = ((λ ws. refl), all-IsNamed ks)

-- Reducing a valid store, in both modes and with an engine that keeps the shape of a graph, does not
-- panic: it gives a valid store that has no more nodes.
pub reduce_with-IsValid :
    (engine : RewriteEngine) (g : Inner) (mode : FusionMode)
    → KeepsShape engine
    → IsValid g
    → (g' : Inner) × (report : ReductionReport) × (reduce_with g engine mode ≡ ok (g', report))
      × IsValid g'
      × (length g'.nodes ≤ length g.nodes)
unfolding reduce_with
reduce_with-IsValid engine g mode shape v =
    let out =
      reduce_with_mode-IsReduction only_value engine g.nodes g.outputs mode shape
        (IsValid-IsOrdered g v) v.in_range (all-IsNamed g.nodes) in
    let (g', ends, v', few) = from_reduced-IsValid out.reduced out.ordered out.in_range in
    (
      g',
      out.reduced.report,
      rw (out.ends, ◌>>=◌, reduce_with) ends,
      v',
      omega (arith, few, out.few, out.canonical, out.reachable),
    )
