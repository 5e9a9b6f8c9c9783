-- ===== src/Optimizer/Fusion/Loop.antt =====
-- Each pass of the loop over the components builds the one that it is at.
use graphed_core_mvp.Base.{
  ap, ◌∙◌, ℕ, suc, ◌+◌, ◌<◌, ◌≤◌, ◌≡◌, refl, sym, true, List, [], ◌∷◌, ◌++◌, map, arith, length,
  length-map, get_elem?, get_elem?-append, get_elem?-middle, get_or, All, All-at, All-imp, some,
  Option-cases, inl, inr, Result, ok, append_assoc, get_elem?-some, get_elem?-lt, ==_refl,
}
use mathlib.Core.Option.{some_inj}
use graphed_core_mvp.Node.{inputs, with_inputs}
use graphed_core_mvp.Store.{contains}
use graphed_core_mvp.Optimizer.{Halt, EngineNode, EngineGraph, ◌>>=◌}
use graphed_core_mvp.Optimizer.Values
use graphed_core_mvp.Optimizer.Values.{at_all, run-at, Chain-at}
use graphed_core_mvp.Optimizer.Holds.{Holds}
use graphed_core_mvp.Optimizer.Graphs.{node_inputs, node_values}
use graphed_core_mvp.Optimizer.Engine.{lookup}
use graphed_core_mvp.Optimizer.Stages.{members_of}
use graphed_core_mvp.Optimizer.Fusion.{Templates, Built, enumerate_from, build_comp}
use graphed_core_mvp.Optimizer.Fusion.Semantics.{Semantics, IsHead, AreComponents, HasKey}
use graphed_core_mvp.Optimizer.Fusion.Places.{
  enumerate_from-some, enumerate_from-none, members_of-at, members_of-has, members_of-Above,
  Above-lt,
}
use graphed_core_mvp.Optimizer.Fusion.Members.{get_or-map, index-ok, IsGood, AreMembers}
use graphed_core_mvp.Optimizer.Fusion.Build.{
  place, key_values, AreBuilt, push-AreBuilt, IsDone, IsPlaced, places-End,
}

contains-head : (x : ℕ) (xs : List ℕ) → contains (x ∷ xs) x ≡ true
unfolding contains
contains-head x xs = ground (arith, ==_refl x)

contains-tail : (x j : ℕ) (xs : List ℕ) → contains xs j ≡ true → contains (x ∷ xs) j ≡ true
unfolding contains
contains-tail x j xs h = ground arith

-- The elements of a list are in it.
pub contains-All {κ} :
    (P : ℕ → Type κ) (xs : List ℕ) → All P xs → All (λ j. (contains xs j ≡ true) × P j) xs
contains-All P [] h = tt
contains-All P (x ∷ xs) h = (
  (contains-head x xs, h.0),
  All-imp xs (λ j p. (contains-tail x j xs p.0, p.1)) (contains-All P xs h.1),
)

module _ {ℓ} {A : Type ℓ} (s : Semantics A) (graph : EngineGraph) (templates : Templates)
    (comp : List ℕ) where
  -- What is known of the graph.
  pub record IsReady : Type ℓ where
    pub ordered : Values.IsOrdered node_inputs graph.nodes
    pub parts : AreComponents graph.nodes graph.outputs comp
    pub keys :
        All
          (λ (n : EngineNode). n.boundary ≡ true → HasKey s templates n.token (length n.inputs))
          graph.nodes

  abbrev pub values : List A
  values = node_values s.tokens s.default graph.nodes

  abbrev pub StepEnds : ℕ → Result Halt Built → Type ℓ
  StepEnds i r = (b : Built) × (r ≡ ok b) × AreBuilt s values comp i b

  pub node_at :
      (j c : ℕ)
      → IsReady
      → get_elem? comp j ≡ some c
      → (n : EngineNode) × (get_elem? graph.nodes j ≡ some n)
  node_at j c h e = get_elem?-some graph.nodes j (rw h.parts.sized at (get_elem?-lt comp j e))

  -- The inputs of a node are before it.
  before :
      (i : ℕ) (n : EngineNode)
      → IsReady
      → get_elem? graph.nodes i ≡ some n
      → All (λ j. j < i) n.inputs
  before i n h e =
      let c = Chain-at node_inputs [] graph.nodes i n h.ordered e in
      All-imp n.inputs (λ j lt. (let z : 0 + i ≡ i = omega arith in rw z at lt)) c

  -- An input in another component is built before the component's last node.
  outside-IsDone :
      (i k j c e : ℕ) (n : EngineNode) (b : Built)
      → IsReady
      → AreBuilt s values comp k b
      → get_elem? graph.nodes i ≡ some n
      → contains n.inputs j ≡ true
      → j < k
      → get_elem? comp i ≡ some c
      → get_elem? comp j ≡ some e
      → (c ≡ e → ⊥)
      → IsDone s values comp b.reduced b.comp_to_reduced e j
  outside-IsDone i k j c e n b h built f has lt at to other =
      built.done j e lt to (h.parts.used i j c e n f has at to other)

  value_at :
      (i : ℕ) (n : EngineNode)
      → IsReady
      → get_elem? graph.nodes i ≡ some n
      → get_or values i s.default ≡ s.tokens n.token (at_all values s.default n.inputs)
  value_at i n h e =
      run-at node_inputs (λ (m : EngineNode). s.tokens m.token) s.default graph.nodes i n h.ordered
        e

  -- A boundary becomes the key of its token, with the indices of the nodes that it uses.
  pub boundary-Ends :
      (i c : ℕ) (n : EngineNode) (b : Built)
      → IsReady
      → AreBuilt s values comp i b
      → get_elem? comp i ≡ some c
      → IsHead comp i
      → get_elem? graph.nodes c ≡ some n
      → n.boundary ≡ true
      → StepEnds (suc i) (build_comp graph templates comp c b)
  unfolding build_comp
  boundary-Ends i c n b h built at head f flag =
      let same : i ≡ c = h.parts.alone i c n at f flag in
      let here : get_elem? graph.nodes i ≡ some n = rw same f in
      let mine : get_elem? comp i ≡ some i = rw (← same) at at in
      let placed : All (IsPlaced s values comp b.reduced b.comp_to_reduced) n.inputs =
        All-imp n.inputs
          (λ j p.
            (let (e, to) =
                get_elem?-some comp j
                  (let z = get_elem?-lt comp i at in let lt = p.1 in omega arith) in
              (
                e,
                to,
                outside-IsDone i i j i e n b h built here p.0 p.1 mine to (λ eq.
                    (let back = h.parts.alone j c n (to ∙ ap some (sym eq ∙ same)) f flag in
                      let lt = p.1 in omega arith)),
              )))
          (contains-All (λ j. j < i) n.inputs (before i n h here)) in
      let ins = places-End s values comp b.reduced b.comp_to_reduced n.inputs placed in
      let temp : HasKey s templates n.token (length n.inputs) =
        All-at
          (λ (m : EngineNode). m.boundary ≡ true → HasKey s templates m.token (length m.inputs))
          graph.nodes c n h.keys f flag in
      let is = map (place s values comp b.comp_to_reduced) n.inputs in
      let same_inputs : inputs (with_inputs temp.key is) ≡ is =
        temp.takes is (length-map (place s values comp b.comp_to_reduced) n.inputs) in
      let v : s.apply (with_inputs temp.key is)
            (at_all (key_values s b.reduced) s.default (inputs (with_inputs temp.key is)))
          ≡ get_or values i s.default =
        rw (same_inputs, ins.valued, s.uniform, temp.meant) (sym (value_at i n h here)) in
      (
        _,
        rw (index-ok graph.nodes c n f, ◌>>=◌, flag, ins.found, ◌>>=◌, temp.found, build_comp) refl,
        push-AreBuilt s values comp i c b (with_inputs temp.key is) b.stages (suc b.boundary_nodes)
            built at head (rw same_inputs ins.scoped) v (omega arith),
      )

  -- What an input of a member stands for, where `done` are the members before.
  abbrev IsInput : Built → ℕ → List ℕ → ℕ → Type ℓ
  IsInput b c done =
      IsGood s.tokens s.default graph.nodes comp values (key_values s b.reduced) b.comp_to_reduced
        (enumerate_from 0 (members_of c 0 comp)) (at_all values s.default done)

  op-IsInput :
      (i c op j : ℕ) (n : EngineNode) (b : Built) (done ops : List ℕ)
      → IsReady
      → AreBuilt s values comp i b
      → get_elem? comp op ≡ some c
      → op ≤ i
      → get_elem? graph.nodes op ≡ some n
      → members_of c 0 comp ≡ done ++ op ∷ ops
      → contains n.inputs j ≡ true
      → j < op
      → IsInput b c done j
  op-IsInput i c op j n b done ops h built at le f all has lt =
      let members = members_of c 0 comp in
      let place : get_elem? members (length done) ≡ some op =
        rw all (get_elem?-middle done op ops) in
      elim (Option-cases (lookup j (enumerate_from 0 members))) [
        | inr (k, e) ↦
            let (m, z, g) = enumerate_from-some 0 members j k e in
            let first : m < length done =
              Above-lt 0 members m (length done) j op (members_of-Above c 0 comp) g place lt in
            let mk : m ≡ k = omega arith in
            let (x, f0) = get_elem?-some done m first in
            let xj : x ≡ j =
              some_inj.0 (sym (get_elem?-append done (op ∷ ops) m f0) ∙ (rw all at g)) in
            let held : Holds s.default (at_all values s.default done) m
                (get_or values j s.default) =
              (
                rw (length-map (λ a. get_or values a s.default) done) first,
                rw (← xj) (get_or-map (λ a. get_or values a s.default) done m x s.default f0),
              ) in
            inl (k, e, rw mk at held)
        | inl e ↦
            let (d, to) = get_elem?-some comp j (let z = get_elem?-lt comp op at in omega arith) in
            let other : c ≡ d → ⊥ = λ eq.
              (let (m, g) = members_of-has c 0 comp j (to ∙ ap some (sym eq)) in
                (let z : 0 + j ≡ j = omega arith in
                  enumerate_from-none 0 members j m e (rw z at g))) in
            inr (d, e, to, outside-IsDone op i j c d n b h built f has (omega arith) at to other)
      ]

  pub ops-AreMembers :
      (i c : ℕ) (b : Built) (done ops : List ℕ)
      → IsReady
      → AreBuilt s values comp i b
      → get_elem? comp i ≡ some c
      → IsHead comp i
      → members_of c 0 comp ≡ done ++ ops
      → AreMembers s.tokens s.default graph.nodes comp values
          (key_values s b.reduced)
          b.comp_to_reduced
          (enumerate_from 0 (members_of c 0 comp))
          done
          ops
  ops-AreMembers i c b done [] h built at head all = tt
  ops-AreMembers i c b done (op ∷ ops) h built at head all =
      let place : get_elem? (members_of c 0 comp) (length done) ≡ some op =
        rw all (get_elem?-middle done op ops) in
      let (m, z, g) = members_of-at c 0 comp (length done) op place in
      let mop : m ≡ op = omega arith in
      let mine : get_elem? comp op ≡ some c = rw mop at g in
      let (n, f) = node_at op c h mine in
      (
        record {
          node = n;
          found = f;
          good =
              All-imp n.inputs
                (λ j p.
                  op-IsInput i c op j n b done ops h built mine (head op c at mine) f all p.0 p.1)
                (contains-All (λ j. j < op) n.inputs (before op n h f));
          meant = value_at op n h f;
        },
        ops-AreMembers i c b (done ++ op ∷ []) ops h built at head
            (all ∙ sym (append_assoc done (op ∷ []) ops)),
      )
