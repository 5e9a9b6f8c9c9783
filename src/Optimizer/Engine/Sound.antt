-- ===== src/Optimizer/Engine/Sound.antt =====
-- The extraction ends, and changes no output if nodes of one class have one value.
use graphed_core_mvp.Base.{
  get_elem?-middle, length-map, refl, ◌==◌, Bool-cases, map, append_assoc, length-append,
  Bool-cases, ◌+◌, Result, ap, ◌∙◌, ℕ, zero, suc, ◌<◌, ◌≤◌, ◌≡◌, sym, Bool, List, [], ◌∷◌, ◌++◌,
  arith, length, get_elem?, get_elem?-some, get_or, All, All-append, All-imp, some, Option-cases,
  ok, inl, inr,
}
use mathlib.Core.Option.{some_inj}
use graphed_core_mvp.Text.{Text}
use graphed_core_mvp.Store.Arena.{Chain, Chain-snoc}
use graphed_core_mvp.Optimizer.{index, traverse, EngineGraph, index, Halt, EngineNode, ◌>>=◌}
use graphed_core_mvp.Optimizer.Values
use graphed_core_mvp.Optimizer.Values.{at_all, run-append, length-run, run-at}
use graphed_core_mvp.Optimizer.Dce.Compact.{lt-suc}
use graphed_core_mvp.Optimizer.Holds.{
  Holds-range, at_all-Holds, traverse-ok, Holds-range, traverse-ok, Holds, Holds-append, Holds-last,
  index-get_or,
}
use graphed_core_mvp.Optimizer.Graphs.{KeepsValues, IsGraph, node_inputs, node_values}
use graphed_core_mvp.Optimizer.Engine.{
  canonicalize, rep_of_class, extract_nodes, lookup, class_index, boundary_from_token,
}
use graphed_core_mvp.Optimizer.Engine.Classes.{
  lookup_or, lookup_or-some, rep_of_class-All, rep_of_class-le, lookup-All, lookup-append_some,
  lookup-append_none, lookup-head, entry-ok,
}

index-some : (xs : List ℕ) (i c : ℕ) → get_elem? xs i ≡ some c → get_or xs i 0 ≡ c
index-some [] i c h = cc
index-some (x ∷ xs) zero c h = some_inj.0 h
index-some (x ∷ xs) (suc i) c h = index-some xs i c h

-- An entry that is added is found, or one that was there.
new_found : (table : List (ℕ × ℕ)) (c v : ℕ) → (m : ℕ) × (lookup c (table ++ (c, v) ∷ []) ≡ some m)
new_found table c v = elim (Option-cases (lookup c table)) [
  | inl fresh ↦ (v, lookup-append_none c table _ fresh ∙ lookup-head c v)
  | inr (m, old) ↦ (m, lookup-append_some c m table _ old)
]

-- The flag is that of the token, of which `Q` holds.
abbrev pub Flagged : (Text → ℕ → Type 0) → Text → Bool → ℕ → Type 0
Flagged Q t b a = Q t a × (b ≡ boundary_from_token t)

module _ {ℓ} {A : Type ℓ} (tokens : Text → List A → A) (d : A) (Q : Text → ℕ → Type 0) where
  -- The classes that `find` gives: one for each node, and nodes of one class have one value.
  pub record AreSound (nodes : List EngineNode) (canon : List ℕ) : Type ℓ where
    pub one_each : length canon ≡ length nodes
    pub one_value :
        (i j c : ℕ)
        → get_elem? canon i ≡ some c
        → get_elem? canon j ≡ some c
        → get_or (node_values tokens d nodes) i d ≡ get_or (node_values tokens d nodes) j d

module _ {ℓ} {A : Type ℓ} (tokens : Text → List A → A) (d : A) (Q : Text → ℕ → Type 0)
    (canon : List ℕ) (values : List A) where
  abbrev new_index : List (ℕ × ℕ) → ℕ → ℕ
  new_index table j = lookup_or (get_or canon j 0) table

  -- The class and the index that stand for a node with this value.
  abbrev Stands : List A → ℕ × ℕ → Type ℓ
  Stands ws e = (j : ℕ) × (get_elem? canon j ≡ some e.0) × Holds d ws e.1 (get_or values j d)

  record State (i : ℕ) (table : List (ℕ × ℕ)) (nodes : List EngineNode) : Type ℓ where
    pub found : (j c : ℕ) → j < i → get_elem? canon j ≡ some c → (m : ℕ) × (lookup c table ≡ some m)
    pub stands : All (Stands (node_values tokens d nodes)) table
    pub ordered : Values.IsOrdered node_inputs nodes
    pub flags : All (λ (n : EngineNode). Flagged Q n.token n.boundary (length n.inputs)) nodes
    pub few : length nodes ≤ i

  module _
      (one_value : (i j c : ℕ)
        → get_elem? canon i ≡ some c
        → get_elem? canon j ≡ some c
        → get_or values i d ≡ get_or values j d) where
    -- A node whose class is in the table has an index with its value.
    lookup-Holds :
        (ws : List A) (table : List (ℕ × ℕ)) (j c m : ℕ)
        → All (Stands ws) table
        → get_elem? canon j ≡ some c
        → lookup c table ≡ some m
        → Holds d ws m (get_or values j d)
    lookup-Holds ws table j c m h g e =
        let (k, at, hold) = lookup-All (Stands ws) c m table h e in
        (hold.0, hold.1 ∙ one_value k j c at g)

    index-Holds :
        (i j : ℕ) (table : List (ℕ × ℕ)) (nodes : List EngineNode)
        → State i table nodes
        → i ≤ length canon
        → j < i
        → (class_index canon table j ≡ ok (new_index table j))
          × Holds d (node_values tokens d nodes) (new_index table j) (get_or values j d)
    index-Holds i j table nodes s le lt =
        let (c, g) = get_elem?-some canon j (omega arith) in
        let (m, e) = s.found j c lt g in
        let here = index-some canon j c g in
        let there : lookup_or (get_or canon j 0) table ≡ m = rw here (lookup_or-some c m table e) in
        (
          rw (index-get_or canon j 0 (omega arith), ◌>>=◌, there, here) (entry-ok c m table e),
          rw there (lookup-Holds (node_values tokens d nodes) table j c m s.stands g e),
        )

    skip-State :
        (i c r : ℕ) (table : List (ℕ × ℕ)) (nodes : List EngineNode)
        → State i table nodes
        → get_elem? canon i ≡ some c
        → r < i
        → get_elem? canon r ≡ some c
        → State (suc i) table nodes
    skip-State i c r table nodes s g lt h = record {
      found = λ j k l e. elim (lt-suc j i l) [
        | inl old ↦ s.found j k old e
        | inr new ↦
            let same : c ≡ k = some_inj.0 (sym g ∙ rw new at e) in rw same at (s.found r c lt h)
      ];
      stands = s.stands;
      ordered = s.ordered;
      flags = s.flags;
      few = (let f = s.few in omega arith);
    }

    grow-State :
        (i c : ℕ) (table : List (ℕ × ℕ)) (nodes : List EngineNode) (n : EngineNode)
        → State i table nodes
        → get_elem? canon i ≡ some c
        → All (λ j. j < length nodes) n.inputs
        → Flagged Q n.token n.boundary (length n.inputs)
        → get_or values i d ≡ tokens n.token (at_all (node_values tokens d nodes) d n.inputs)
        → State (suc i) (table ++ (c, length nodes) ∷ []) (nodes ++ n ∷ [])
    grow-State i c table nodes n s g scoped flag v =
        let ws = node_values tokens d nodes in
        let w = tokens n.token (at_all ws d n.inputs) in
        let grown : node_values tokens d (nodes ++ n ∷ []) ≡ ws ++ w ∷ [] =
          run-append node_inputs (λ (m : EngineNode). tokens m.token) d [] nodes (n ∷ []) in
        let long : length ws ≡ length nodes =
          length-run node_inputs (λ (m : EngineNode). tokens m.token) d [] nodes ∙ omega arith in
        let last : Holds d (ws ++ w ∷ []) (length nodes) (get_or values i d) =
          rw (v, ← long) (Holds-last d ws w) in
        record {
          found = λ j k l e. elim (lt-suc j i l) [
            | inl old ↦ let (m, f) = s.found j k old e in (m, lookup-append_some k m table _ f)
            | inr new ↦
                let same : c ≡ k = some_inj.0 (sym g ∙ rw new at e) in
                rw (← same) (new_found table c (length nodes))
          ];
          stands = rw grown (
              All-append (Stands (ws ++ w ∷ [])) table _
                (All-imp table
                  (λ e st. (st.0, st.1, Holds-append d ws (w ∷ []) e.1 (get_or values st.0 d) st.2))
                  s.stands)
                ((i, g, last), tt));
          ordered = Chain-snoc (Values.IsScoped node_inputs) [] nodes n s.ordered scoped;
          flags =
              All-append (λ (m : EngineNode). Flagged Q m.token m.boundary (length m.inputs)) nodes
                (n ∷ []) s.flags (flag, tt);
          few = omega (arith, s.few, length-append nodes (n ∷ []));
        }

    -- A node of the graph: it refers to earlier ones, and its value is that of its operator.
    record IsNode (i : ℕ) (n : EngineNode) : Type ℓ where
      below : All (λ j. j < i) n.inputs
      valued : get_or values i d ≡ tokens n.token (at_all values d n.inputs)
      token : Q n.token (length n.inputs)

    abbrev AreNodes : ℕ → List EngineNode → Type ℓ
    AreNodes i [] = Unit
    AreNodes i (n ∷ rest) = IsNode i n × AreNodes (suc i) rest

    abbrev Ends : Result Halt (List (ℕ × ℕ) × List EngineNode) → Type ℓ
    Ends r =
        (table : List (ℕ × ℕ)) × (nodes : List EngineNode) × (r ≡ ok (table, nodes))
        × State (length canon) table nodes

    extract_nodes-Ends :
        (i : ℕ) (rest : List EngineNode) (table : List (ℕ × ℕ)) (nodes : List EngineNode)
        → i + length rest ≡ length canon
        → AreNodes i rest
        → State i table nodes
        → Ends (extract_nodes canon (rep_of_class 0 canon []) rest i table nodes)
    unfolding extract_nodes
    extract_nodes-Ends i [] table nodes e h s =
        let same : i ≡ length canon = omega arith in (table, nodes, refl, rw same at s)
    extract_nodes-Ends i (n ∷ rest) table nodes e h s =
        let lt : i < length canon = omega arith in
        let ws = node_values tokens d nodes in
        let (c, g) = get_elem?-some canon i lt in
        let (r, f, le) = rep_of_class-le 0 canon [] i c tt g in
        let reps = rep_of_class 0 canon [] in
        let at_r : get_elem? canon r ≡ some c =
          lookup-All (λ (e : ℕ × ℕ). get_elem? canon e.1 ≡ some e.0) c r reps
            (rep_of_class-All (λ (e : ℕ × ℕ). get_elem? canon e.1 ≡ some e.0) 0 canon [] tt
              (λ k b q. (let z : 0 + k ≡ k = omega arith in rw z q)))
            f in
        let class : index canon i ≡ ok c =
          index-get_or canon i 0 lt ∙ ap ok (index-some canon i c g) in
        let rep = entry-ok c r reps f in
        elim (Bool-cases (r == i)) [
          | inr other ↦
              let less : r < i = ground arith in
              rw (class, ◌>>=◌, rep, ◌>>=◌, other, extract_nodes)
                (extract_nodes-Ends (suc i) rest table nodes (omega arith) h.1
                  (skip-State i c r table nodes s g less at_r))
          | inl same ↦
              let holds : All (λ j. Holds d ws (new_index table j) (get_or values j d)) n.inputs =
                All-imp n.inputs (λ j l. (index-Holds i j table nodes s (omega arith) l).1)
                  h.0.below in
              let maps : traverse (class_index canon table) n.inputs
                  ≡ ok (map (new_index table) n.inputs) =
                traverse-ok (class_index canon table) (new_index table) n.inputs (
                  All-imp n.inputs (λ j l. (index-Holds i j table nodes s (omega arith) l).0)
                    h.0.below) in
              let long : length ws ≡ length nodes =
                length-run node_inputs (λ (m : EngineNode). tokens m.token) d [] nodes
                ∙ omega arith in
              let new : EngineNode = record {
                token = n.token;
                boundary = boundary_from_token n.token;
                inputs = map (new_index table) n.inputs;
              } in
              rw (class, ◌>>=◌, rep, ◌>>=◌, same, maps, ◌>>=◌, extract_nodes)
                (extract_nodes-Ends (suc i) rest (table ++ (c, length nodes) ∷ [])
                  (nodes ++ new ∷ []) (omega arith) h.1
                  (grow-State i c table nodes new s g
                    (rw long at (Holds-range d ws values (new_index table) n.inputs holds))
                    (rw (length-map (new_index table) n.inputs) h.0.token, refl)
                    (h.0.valued
                      ∙ ap (tokens n.token)
                          (sym (at_all-Holds d ws values (new_index table) n.inputs holds)))))
        ]

module _ {ℓ} {A : Type ℓ} (tokens : Text → List A → A) (d : A) (Q : Text → ℕ → Type 0) where
  AreNodes-graph :
      (canon : List ℕ) (whole pre rest : List EngineNode)
      (one_value : (i j c : ℕ)
        → get_elem? canon i ≡ some c
        → get_elem? canon j ≡ some c
        → get_or (node_values tokens d whole) i d ≡ get_or (node_values tokens d whole) j d)
      → whole ≡ pre ++ rest
      → Values.IsOrdered node_inputs whole
      → Chain (Values.IsScoped node_inputs) pre rest
      → All (λ (n : EngineNode). Flagged Q n.token n.boundary (length n.inputs)) rest
      → AreNodes tokens d Q canon (node_values tokens d whole) one_value (length pre) rest
  AreNodes-graph canon whole pre [] o e w c f = tt
  AreNodes-graph canon whole pre (n ∷ rest) o e w c f =
      let at : get_elem? whole (length pre) ≡ some n = rw e (get_elem?-middle pre n rest) in
      let more : length (pre ++ n ∷ []) ≡ suc (length pre) =
        omega (arith, length-append pre (n ∷ [])) in
      (
        record {
          below = c.0;
          valued =
              run-at node_inputs (λ (m : EngineNode). tokens m.token) d whole (length pre) n w at;
          token = f.0.0;
        },
        rw more at (
            AreNodes-graph canon whole (pre ++ n ∷ []) rest o
              (e ∙ sym (append_assoc pre (n ∷ []) rest)) w c.1 f.1),
      )

  -- If the nodes of a graph refer to earlier ones only and have the flags of their tokens, its
  -- outputs are nodes, and `find` gives each node a class such that nodes of one class have one
  -- value, then `canonicalize` ends with such a graph that has no more nodes, whose nodes have tokens of the given ones and
  -- whose outputs have the values of the given outputs.
  pub canonicalize-KeepsValues :
      (find : EngineGraph → List ℕ) (g : EngineGraph)
      → IsGraph (Flagged Q) g
      → AreSound tokens d Q g.nodes (find g)
      → KeepsValues tokens d (Flagged Q) g (canonicalize find g)
  unfolding canonicalize
  canonicalize-KeepsValues find g h a =
      let canon = find g in
      let values = node_values tokens d g.nodes in
      let (table, nodes, ends, s) =
        extract_nodes-Ends tokens d Q canon values a.one_value 0 g.nodes [] []
          (omega (arith, a.one_each))
          (AreNodes-graph canon g.nodes [] g.nodes a.one_value refl h.ordered h.ordered h.flags)
          (record {
            found = λ j c l. absurd (omega arith);
            stands = tt;
            ordered = tt;
            flags = tt;
            few = omega arith;
          }) in
      let full : length canon ≤ length canon = omega arith in
      let at = λ (j : ℕ) (l : j < length g.nodes).
        index-Holds tokens d Q canon values a.one_value (length canon) j table nodes s full
          (rw a.one_each l) in
      let f = new_index tokens d Q canon values table in
      let holds : All (λ j. Holds d (node_values tokens d nodes) (f j) (get_or values j d))
          g.outputs =
        All-imp g.outputs (λ j l. (at j l).1) h.in_range in
      let maps : traverse (class_index canon table) g.outputs ≡ ok (map f g.outputs) =
        traverse-ok (class_index canon table) f g.outputs
          (All-imp g.outputs (λ j l. (at j l).0) h.in_range) in
      let long : length (node_values tokens d nodes) ≡ length nodes =
        length-run node_inputs (λ (m : EngineNode). tokens m.token) d [] nodes ∙ omega arith in
      (
        record { nodes = nodes; outputs = map f g.outputs },
        rw (ends, ◌>>=◌, maps, canonicalize) refl,
        record {
          ordered = s.ordered;
          flags = s.flags;
          in_range =
              rw long at (Holds-range d (node_values tokens d nodes) values f g.outputs holds);
        },
        (let few = s.few in omega (arith, a.one_each)),
        at_all-Holds d (node_values tokens d nodes) values f g.outputs holds,
      )
