-- ===== src/Optimizer/Stages/Consumers.antt =====
-- The tables that `stage_fusion` makes first: the consumers of each node, and the marks of the outputs.
use graphed_core_mvp.Base.{
  ap, ◌∙◌, ℕ, zero, suc, ◌+◌, ◌<◌, ◌≡◌, refl, Bool, true, false, List, [], ◌∷◌, ◌++◌, arith, length,
  length-set, length-replicate, get_elem?, get_or, set, replicate, All, All-imp, length-append,
  some, ◌==◌, ==_iff, ==_refl, ◌||◌, ◌&&◌, Bool-cases, inl, inr, Result, ok,
}
use mathlib.Core.Option.{some_inj}
use graphed_core_mvp.Store.{contains}
use graphed_core_mvp.Store.Arena.{Chain}
use graphed_core_mvp.Optimizer.{Halt, EngineNode, ◌>>=◌}
use graphed_core_mvp.Optimizer.Values
use graphed_core_mvp.Optimizer.Holds.{index-get_or, get_or-set_same, get_or-set_other}
use graphed_core_mvp.Optimizer.Graphs.{node_inputs}
use graphed_core_mvp.Optimizer.Stages.{add_consumer, consumers_of, output_marks}

contains-snoc : (xs : List ℕ) (i u : ℕ) → contains (xs ++ i ∷ []) u ≡ (contains xs u || (i == u))
unfolding contains
contains-snoc [] i u = ground arith
contains-snoc (x ∷ xs) i u = ground (arith, contains-snoc xs i u)

-- The table after `i` was pushed to the rows `inps`.
record Pushed (i : ℕ) (inps : List ℕ) (table : List (List ℕ)) (r : Result Halt (List (List ℕ)))
    : Type 0 where
  after : List (List ℕ)
  ends : r ≡ ok after
  sized : length after ≡ length table
  rows :
      (j u : ℕ)
      → contains (get_or after j []) u
        ≡ (contains (get_or table j []) u || (contains inps j && (i == u)))

row-set :
    (i inp j u : ℕ) (table : List (List ℕ))
    → inp < length table
    → contains (get_or (set table inp (get_or table inp [] ++ i ∷ [])) j []) u
      ≡ (contains (get_or table j []) u || ((inp == j) && (i == u)))
row-set i inp j u table lt = elim (Bool-cases (inp == j)) [
  | inl same ↦
      let at : inp ≡ j = (==_iff inp j).0 same in
      rw (same, ← at, get_or-set_same table inp (get_or table inp [] ++ i ∷ []) [] lt)
        (contains-snoc (get_or table inp []) i u)
  | inr other ↦
      rw
        (
          other,
          get_or-set_other table inp j (get_or table inp [] ++ i ∷ []) []
              (λ e. ground (arith, ==_refl inp)),
        )
        (ground arith)
]

add_consumer-Pushed :
    (i : ℕ) (inps : List ℕ) (table : List (List ℕ))
    → All (λ j. j < length table) inps
    → Pushed i inps table (add_consumer i inps table)
unfolding contains
add_consumer-Pushed i [] table h = record {
  after = table;
  ends = refl;
  sized = refl;
  rows = λ j u. ground arith;
}
add_consumer-Pushed i (inp ∷ inps) table h =
    let next = set table inp (get_or table inp [] ++ i ∷ []) in
    let long : length next ≡ length table = length-set table inp (get_or table inp [] ++ i ∷ []) in
    let rest = add_consumer-Pushed i inps next (rw long h.1) in
    record {
      after = rest.after;
      ends = rw (index-get_or table inp [] h.0, ◌>>=◌, add_consumer) rest.ends;
      sized = rest.sized ∙ long;
      rows = λ j u. (let a = rest.rows j u in let b = row-set i inp j u table h.0 in ground arith);
    }

-- Whether a node from the `i`-th on, of these, is the node `u` and uses `j`.
abbrev pub uses : List EngineNode → ℕ → ℕ → ℕ → Bool
uses [] i j u = false
uses (n ∷ nodes) i j u = (contains n.inputs j && (i == u)) || uses nodes (suc i) j u

pub uses-node :
    (nodes : List EngineNode) (i j u : ℕ)
    → uses nodes i j u ≡ true
    → (n : EngineNode) × (m : ℕ) × (u ≡ i + m)
      × (get_elem? nodes m ≡ some n)
      × (contains n.inputs j ≡ true)
uses-node [] i j u h = cc
uses-node (n ∷ nodes) i j u h = elim (Bool-cases (contains n.inputs j && (i == u))) [
  | inl here ↦
      (n, 0, (let e : i ≡ u = (==_iff i u).0 (ground arith) in omega arith), refl, ground arith)
  | inr later ↦
      let (k, m, e, f, g) = uses-node nodes (suc i) j u (rw later at h) in
      (k, suc m, omega arith, f, g)
]

pub node-uses :
    (nodes : List EngineNode) (i j m : ℕ) (n : EngineNode)
    → get_elem? nodes m ≡ some n
    → contains n.inputs j ≡ true
    → uses nodes i j (i + m) ≡ true
node-uses [] i j m n e h = cc
node-uses (k ∷ nodes) i j zero n e h =
    let same : k ≡ n = some_inj.0 e in
    let z : i + 0 ≡ i = omega arith in rw (same, z, h, ==_refl i) refl
node-uses (k ∷ nodes) i j (suc m) n e h =
    let z : suc i + m ≡ i + suc m = omega arith in
    let later = rw z at (node-uses nodes (suc i) j m n e h) in ground arith

-- The table after these nodes were pushed.
record AllPushed (i : ℕ) (nodes : List EngineNode) (table : List (List ℕ))
    (r : Result Halt (List (List ℕ))) : Type 0 where
  after : List (List ℕ)
  ends : r ≡ ok after
  sized : length after ≡ length table
  rows :
      (j u : ℕ)
      → contains (get_or after j []) u ≡ (contains (get_or table j []) u || uses nodes i j u)

consumers_of-AllPushed :
    (i : ℕ) (nodes : List EngineNode) (table : List (List ℕ))
    → All (λ (n : EngineNode). All (λ j. j < length table) n.inputs) nodes
    → AllPushed i nodes table (consumers_of i nodes table)
unfolding consumers_of
consumers_of-AllPushed i [] table h = record {
  after = table;
  ends = refl;
  sized = refl;
  rows = λ j u. ground arith;
}
consumers_of-AllPushed i (n ∷ nodes) table h =
    let one = add_consumer-Pushed i n.inputs table h.0 in
    let rest = consumers_of-AllPushed (suc i) nodes one.after (rw one.sized h.1) in
    record {
      after = rest.after;
      ends = rw (one.ends, ◌>>=◌, consumers_of) rest.ends;
      sized = rest.sized ∙ one.sized;
      rows = λ j u. (let a = rest.rows j u in let b = one.rows j u in ground arith);
    }

in_range :
    (pre nodes : List EngineNode) (size : ℕ)
    → length pre + length nodes ≡ size
    → Chain (Values.IsScoped node_inputs) pre nodes
    → All (λ (n : EngineNode). All (λ j. j < size) n.inputs) nodes
in_range pre [] size e c = tt
in_range pre (n ∷ nodes) size e c = (
  All-imp n.inputs (λ j lt. omega arith) c.0,
  in_range (pre ++ n ∷ []) nodes size (omega (arith, length-append pre (n ∷ []))) c.1,
)

get_or-replicate {ℓ} : {A : Type ℓ} (n j : ℕ) (a : A) → get_or (replicate n a) j a ≡ a
get_or-replicate zero j a = refl
get_or-replicate (suc n) zero a = refl
get_or-replicate (suc n) (suc j) a = get_or-replicate n j a

-- The consumers of a node are the nodes that list it among their inputs.
pub record AreConsumers (nodes : List EngineNode) (table : List (List ℕ)) : Type 0 where
  pub sized : length table ≡ length nodes
  pub rows : (j u : ℕ) → contains (get_or table j []) u ≡ uses nodes 0 j u

pub consumers_of-AreConsumers :
    (nodes : List EngineNode)
    → Values.IsOrdered node_inputs nodes
    → (table : List (List ℕ)) × (consumers_of 0 nodes (replicate (length nodes) []) ≡ ok table)
      × AreConsumers nodes table
unfolding contains
consumers_of-AreConsumers nodes h =
    let size = length nodes in
    let all =
      consumers_of-AllPushed 0 nodes (replicate size [])
        (rw (length-replicate {A = List ℕ} size []) (in_range [] nodes size (omega arith) h)) in
    (
      all.after,
      all.ends,
      record {
        sized = all.sized ∙ length-replicate size [];
        rows = λ j u.
            (all.rows j u
              ∙ ap (λ t. contains t u || uses nodes 0 j u) (get_or-replicate size j []));
      },
    )

mark-set :
    (marks : List Bool) (o j : ℕ)
    → o < length marks
    → get_or (set marks o true) j false ≡ (get_or marks j false || (o == j))
mark-set marks o j lt = elim (Bool-cases (o == j)) [
  | inl same ↦
      let at : o ≡ j = (==_iff o j).0 same in
      rw (same, ← at, get_or-set_same marks o true false lt) (ground arith)
  | inr other ↦
      rw (other, get_or-set_other marks o j true false (λ e. ground (arith, ==_refl o)))
        (ground arith)
]

output_marks-Ends :
    (os : List ℕ) (marks : List Bool)
    → All (λ o. o < length marks) os
    → (after : List Bool) × (output_marks os marks ≡ ok after)
      × (length after ≡ length marks)
      × ((j : ℕ)
          → j < length marks
          → get_or after j false ≡ (get_or marks j false || contains os j))
unfolding output_marks contains
output_marks-Ends [] marks h = (marks, refl, refl, λ j lt. ground arith)
output_marks-Ends (o ∷ os) marks h =
    let next = set marks o true in
    let long : length next ≡ length marks = length-set marks o true in
    let (after, ends, sized, at) = output_marks-Ends os next (rw long h.1) in
    (
      after,
      rw (index-get_or marks o false h.0, ◌>>=◌, output_marks) ends,
      sized ∙ long,
      λ j lt. (let a = at j (rw long lt) in let b = mark-set marks o j h.0 in ground arith),
    )

-- A node is marked as an output if it is one.
pub record AreMarks (size : ℕ) (outputs : List ℕ) (marks : List Bool) : Type 0 where
  pub sized : length marks ≡ size
  pub marked : (j : ℕ) → j < size → get_or marks j false ≡ contains outputs j

pub output_marks-AreMarks :
    (size : ℕ) (outputs : List ℕ)
    → All (λ o. o < size) outputs
    → (marks : List Bool) × (output_marks outputs (replicate size false) ≡ ok marks)
      × AreMarks size outputs marks
output_marks-AreMarks size outputs h =
    let long : length (replicate size false) ≡ size = length-replicate size false in
    let (after, ends, sized, at) = output_marks-Ends outputs (replicate size false) (rw long h) in
    (
      after,
      ends,
      record {
        sized = sized ∙ long;
        marked = λ j lt.
            (at j (rw long lt) ∙ ap (λ t. t || contains outputs j) (get_or-replicate size j false));
      },
    )
