-- ===== src/Bindings/Sessions.antt =====
-- A reducer that is fed while threads go on building the store.
use graphed_core_mvp.Base.{
  Result-cases, Bool, Option, ◌⊎◌, inl, inr, ◌∙◌, ℕ, ◌+◌, ◌<◌, ◌≤◌, ◌≡◌, refl, sym, List, [], ◌++◌,
  append-nil, append_assoc, arith, length, length-append, get_or, All, ok, drop-append, drop, ap,
  ap₂, ◌-◌,
}
use Prim.Native.Nat.{min}
use graphed_core_mvp.Node.{NodeId, NodeKey}
use graphed_core_mvp.Store.{Inner, empty, snapshot_from}
use graphed_core_mvp.Store.Invariant.{IsValid, empty-IsValid}
use graphed_core_mvp.Store.Intern.{intern-nodes}
use graphed_core_mvp.Store.Outputs.{mark_output-nodes}
use graphed_core_mvp.Store.Reach.{Step, add, mark, Step-IsValid}
use graphed_core_mvp.Optimizer.Dce.{usize_max}
use graphed_core_mvp.Optimizer.Meaning.{IsValid-IsOrdered}
use graphed_core_mvp.Optimizer.Incremental.{IncrementalReducer, fresh, watermark, canonical_count}
use graphed_core_mvp.Optimizer.Incremental.Algebra.{Algebra}
use graphed_core_mvp.Optimizer.Incremental.Canonical.{value}
use graphed_core_mvp.Optimizer.Incremental.Sound.{
  IsUnary, IsReduced, fresh-IsReduced, step-IsReduced,
}
use graphed_core_mvp.Optimizer.Incremental.Steps.{Chain-split, All-split}
use graphed_core_mvp.Bindings.{step_store, requested, finalize_store}
use graphed_core_mvp.Optimizer.Pipeline.{RewriteEngine}

-- One method of a thread on the store, or `step` or `finalize` of the reducer with the store;
-- `finalize` has read the outputs before, from the store as it was then.
pub data Turn (g : Inner) (r : IncrementalReducer) : Inner → IncrementalReducer → Type 0 where
  method : {h : Inner} → Step g h → Turn g r h r
  feed : Turn g r g (step_store g r).0
  final :
      (engine : RewriteEngine) (maximal_fusion : Bool) (outputs : Option (List NodeId))
      (seen : Inner)
      → Turn g r g (finalize_store engine maximal_fusion outputs seen g r).0

-- From a new store and a new reducer on, in any order.
pub data Session : Inner → IncrementalReducer → Type 0 where
  opened : Session empty fresh
  turn : {g h : Inner} {r q : IncrementalReducer} → Session g r → Turn g r h q → Session h q

-- `finalize` leaves the reducer as it is, if the outputs are wrong, or after a step.
finalize_store-state :
    (engine : RewriteEngine) (maximal_fusion : Bool) (outputs : Option (List NodeId))
    (seen now : Inner) (r : IncrementalReducer)
    → ((finalize_store engine maximal_fusion outputs seen now r).0 ≡ r)
      ⊎ ((finalize_store engine maximal_fusion outputs seen now r).0 ≡ (step_store now r).0)
unfolding finalize_store
finalize_store-state engine maximal_fusion outputs seen now r =
    elim (Result-cases (requested outputs seen)) [
      | inl (outs, e) ↦ elim (Result-cases (step_store now r).1) [
        | inl (n, f) ↦ inr (rw (e, f, finalize_store) refl)
        | inr (x, f) ↦ inr (rw (e, f, finalize_store) refl)
      ]
      | inr (x, e) ↦ inl (rw (e, finalize_store) refl)
    ]

-- A method only adds nodes.
Step-nodes : {g h : Inner} → Step g h → (more : List NodeKey) × (h.nodes ≡ g.nodes ++ more)
Step-nodes {g} (add k) = intern-nodes k g
Step-nodes {g} (mark o) = ([], mark_output-nodes o g ∙ sym (append-nil g.nodes))

module _ {ℓ} {A : Type ℓ} (algebra : Algebra A) (d : A) where
  -- The reducer holds the first nodes of the store.
  pub record Tracks (g : Inner) (r : IncrementalReducer) : Type ℓ where
    pub held : List NodeKey
    pub rest : List NodeKey
    pub split : g.nodes ≡ held ++ rest
    pub reduced : IsReduced algebra d held r
    pub worked : r.total_work ≡ length held

  pub Session-IsValid : {g : Inner} {r : IncrementalReducer} → Session g r → IsValid g
  Session-IsValid opened = empty-IsValid
  Session-IsValid (turn s (method t)) = Step-IsValid t (Session-IsValid s)
  Session-IsValid (turn s feed) = Session-IsValid s
  Session-IsValid (turn s (final engine maximal_fusion outputs seen)) = Session-IsValid s

  fresh_nodes :
      (g : Inner) (r : IncrementalReducer) (t : Tracks g r) → snapshot_from (watermark r) g ≡ t.rest
  unfolding snapshot_from
  fresh_nodes g r t =
      let long : length g.nodes ≡ length t.held + length t.rest =
        ap length t.split ∙ length-append t.held t.rest in
      let counted : length r.map ≡ length t.held = t.reduced.agree.counted in
      let start : min (length r.map) (length g.nodes) ≡ length t.held = omega arith in
      ap₂ drop start t.split ∙ drop-append t.held t.rest

  -- A step consumes all that the reducer does not hold yet.
  feed-ends :
      (g : Inner) (r : IncrementalReducer)
      → IsValid g
      → All IsUnary g.nodes
      → (t : Tracks g r)
      → ((step_store g r).1 ≡ ok (length t.rest))
        × IsReduced algebra d g.nodes (step_store g r).0
        × ((step_store g r).0.total_work ≡ length g.nodes)
  unfolding step_store
  feed-ends g r v u t =
      let chain = (Chain-split [] t.held t.rest (rw t.split at (IsValid-IsOrdered g v))).1 in
      let unary = (All-split t.held t.rest (rw t.split at u)).1 in
      let (done, reduced, work) = step-IsReduced algebra d t.held t.rest r t.reduced chain unary in
      let more : r.total_work + length t.rest ≡ length (t.held ++ t.rest) =
        omega (arith, t.worked, length-append t.held t.rest) in
      rw (fresh_nodes g r t, t.split) (done, reduced, work ∙ more)

  feed-Tracks :
      (g : Inner) (r : IncrementalReducer)
      → IsValid g
      → All IsUnary g.nodes
      → Tracks g r
      → Tracks g (step_store g r).0
  feed-Tracks g r v u t =
      let (done, reduced, work) = feed-ends g r v u t in
      record {
        held = g.nodes;
        rest = [];
        split = sym (append-nil g.nodes);
        reduced = reduced;
        worked = work;
      }

  pub Session-Tracks :
      {g : Inner} {r : IncrementalReducer} → Session g r → All IsUnary g.nodes → Tracks g r
  Session-Tracks opened u = record {
    held = [];
    rest = [];
    split = refl;
    reduced = fresh-IsReduced algebra d;
    worked = refl;
  }
  Session-Tracks (turn {g} {h} {r} s (method t)) u =
      let (more, e) = Step-nodes t in
      let old = Session-Tracks s (All-split g.nodes more (rw e at u)).0 in
      record {
        held = old.held;
        rest = old.rest ++ more;
        split = e ∙ (rw old.split (append_assoc old.held old.rest more));
        reduced = old.reduced;
        worked = old.worked;
      }
  Session-Tracks (turn {g} {h} {r} s feed) u =
      feed-Tracks g r (Session-IsValid s) u (Session-Tracks s u)
  Session-Tracks (turn {g} {h} {r} s (final engine maximal_fusion outputs seen)) u =
      elim (finalize_store-state engine maximal_fusion outputs seen g r) [
        | inl same ↦ rw same (Session-Tracks s u)
        | inr fed ↦ rw fed (feed-Tracks g r (Session-IsValid s) u (Session-Tracks s u))
      ]

  -- A step of the reducer `r` with the store `g` returns how many nodes were added since the last
  -- one, and then the reducer has the store: its work and its watermark are the number of nodes,
  -- its arena is not larger, and each node has a canonical node with the same value.
  pub record Catches (g : Inner) (r : IncrementalReducer) : Type ℓ where
    pub returned : (step_store g r).1 ≡ ok (length g.nodes - watermark r)
    pub work : (step_store g r).0.total_work ≡ length g.nodes
    pub at_end : watermark (step_store g r).0 ≡ length g.nodes
    pub small : canonical_count (step_store g r).0 ≤ length g.nodes
    pub same :
        (j : ℕ)
        → j < length g.nodes
        → (get_or (step_store g r).0.map j usize_max < canonical_count (step_store g r).0)
          × (value algebra d
                (step_store g r).0.canon_nodes
                (get_or (step_store g r).0.map j usize_max)
              ≡ value algebra d g.nodes j)

  -- Take any sequence of methods of threads on a new store and of calls of `step` and `finalize` of
  -- a new reducer with that store, after which each identity op of the store has one input. A
  -- further step succeeds, and returns how many nodes were added since the last one. Then the work
  -- and the watermark are the number of nodes of the store, the canonical arena is not larger, and
  -- each node of the store has a canonical node with the same value, in any algebra that has the
  -- laws of the rules.
  pub Session-Catches :
      (g : Inner) (r : IncrementalReducer) → Session g r → All IsUnary g.nodes → Catches g r
  Session-Catches g r s u =
      let t = Session-Tracks s u in
      let (done, reduced, work) = feed-ends g r (Session-IsValid s) u t in
      let long : length g.nodes ≡ length t.held + length t.rest =
        ap length t.split ∙ length-append t.held t.rest in
      let counted : watermark r ≡ length t.held = t.reduced.agree.counted in
      let new : length t.rest ≡ length g.nodes - watermark r = omega arith in
      record {
        returned = rw new at done;
        work = work;
        at_end = reduced.agree.counted;
        small = reduced.few;
        same = λ j lt. reduced.agree.same j lt tt;
      }
