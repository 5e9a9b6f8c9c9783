-- ===== src/Optimizer/Cse/Sound.antt =====
-- `cse` ends, and changes no output.
use graphed_core_mvp.Base.{
  length-map, ap, ◌∙◌, ℕ, suc, ◌+◌, ◌<◌, ◌≤◌, ◌≡◌, refl, sym, Bool, List, [], ◌∷◌, ◌++◌, map, arith,
  length, length-append, length-set, length-replicate, get_or, set, replicate, All, All-append,
  All-imp, some, Option-cases, Result, ok, list_eq, ◌&&◌, ◌==◌, Bool-cases, inl, inr,
}
use mathlib.Core.Option.{some_inj}
use graphed_core_mvp.Text.{Text, text_eq}
use graphed_core_mvp.Text.Laws.{text_eq_iff}
use graphed_core_mvp.Store.Arena.{Chain, Chain-snoc}
use graphed_core_mvp.Optimizer.{Halt, EngineNode, EngineGraph, ◌>>=◌}
use graphed_core_mvp.Optimizer.Values
use graphed_core_mvp.Optimizer.Values.{
  at_all, at_all-append, get_or-append, get_or-last, run-append, length-run,
}
use graphed_core_mvp.Optimizer.Dce.Compact.{lt-suc}
use graphed_core_mvp.Optimizer.Holds.{
  Holds, Holds-append, Holds-last, at_all-Holds, Holds-range, get_or-set_same, get_or-set_other,
  traverse-index,
}
use graphed_core_mvp.Optimizer.Graphs.{node_inputs, IsGraph, node_values, KeepsValues}
use graphed_core_mvp.Optimizer.Cse.{Seen, find_seen, cse_nodes, cse}

-- What holds of all entries holds of the one that is found.
find_seen-All {ℓ} :
    (Q : Text → List ℕ → ℕ → Type ℓ) (t : Text) (is : List ℕ) (seen : Seen) (idx : ℕ)
    → All (λ (e : (Text × List ℕ) × ℕ). Q e.0.0 e.0.1 e.1) seen
    → find_seen t is seen ≡ some idx
    → Q t is idx
unfolding find_seen
find_seen-All Q t is [] idx h e = cc
find_seen-All Q t is (((s, js), n) ∷ seen) idx h e =
    elim (Bool-cases (text_eq s t && list_eq ◌==◌ js is)) [
      | inl both ↦
          let st : s ≡ t = ground (arith, text_eq_iff s t, text_eq_iff js is) in
          let ji : js ≡ is = ground (arith, text_eq_iff s t, text_eq_iff js is) in
          let ni : n ≡ idx = some_inj.0 (rw (both, find_seen) at e) in rw (← st, ← ji, ← ni) h.0
      | inr other ↦ find_seen-All Q t is seen idx h.1 (rw (other, find_seen) at e)
    ]

module _ {ℓ} {A : Type ℓ} (tokens : Text → List A → A) (d : A) (P : Text → Bool → ℕ → Type 0) where
  -- What is known of an operator and inputs that stand at an index.
  abbrev Known : List A → Text → List ℕ → ℕ → Type ℓ
  Known ws t is idx = All (λ j. j < length ws) is × Holds d ws idx (tokens t (at_all ws d is))

  record State (size i : ℕ) (vs : List A) (remap : List ℕ) (seen : Seen) (nodes : List EngineNode)
      : Type ℓ where
    pub sized : length remap ≡ size
    pub valued : length vs ≡ i
    pub held :
        (j : ℕ) → j < i → Holds d (node_values tokens d nodes) (get_or remap j 0) (get_or vs j d)
    pub known :
        All (λ (e : (Text × List ℕ) × ℕ). Known (node_values tokens d nodes) e.0.0 e.0.1 e.1) seen
    pub ordered : Values.IsOrdered node_inputs nodes
    pub flags : All (λ (n : EngineNode). P n.token n.boundary (length n.inputs)) nodes

  Known-append :
      (ws us : List A) (t : Text) (is : List ℕ) (idx : ℕ)
      → Known ws t is idx
      → Known (ws ++ us) t is idx
  Known-append ws us t is idx (h, k) = (
    All-imp is (λ j lt. omega (arith, length-append ws us)) h,
    rw (at_all-append ws us d is h) (Holds-append d ws us idx _ k),
  )

  -- The index of node `i`, which has the value `v`, is written.
  write-held :
      (size i : ℕ) (vs ws : List A) (remap : List ℕ) (idx : ℕ) (v : A)
      → length remap ≡ size
      → length vs ≡ i
      → i < size
      → ((j : ℕ) → j < i → Holds d ws (get_or remap j 0) (get_or vs j d))
      → Holds d ws idx v
      → (j : ℕ) → j < suc i
      → Holds d ws (get_or (set remap i idx) j 0) (get_or (vs ++ v ∷ []) j d)
  write-held size i vs ws remap idx v s l lt h k j lj = elim (lt-suc j i lj) [
    | inl old ↦
        rw
          (
            get_or-set_other remap i j idx 0 (λ e. omega arith),
            get_or-append vs (v ∷ []) j d (rw l old),
          )
          (h j old)
    | inr new ↦ rw (new, get_or-set_same remap i idx 0 (rw s lt), get_or-last vs v i d (sym l)) k
  ]

  abbrev Ends : ℕ → ℕ → List A → Result Halt (List ℕ × List EngineNode) → Type ℓ
  Ends size i vs r =
      (remap : List ℕ) × (seen : Seen) × (nodes : List EngineNode) × (r ≡ ok (remap, nodes))
      × (length nodes ≤ i)
      × State size i vs remap seen nodes

  -- An index that holds the value of the next node.
  hit-State :
      (size i idx : ℕ) (vs : List A) (v : A) (remap : List ℕ) (seen : Seen)
      (nodes : List EngineNode)
      → State size i vs remap seen nodes
      → i < size
      → Holds d (node_values tokens d nodes) idx v
      → State size (suc i) (vs ++ v ∷ []) (set remap i idx) seen nodes
  hit-State size i idx vs v remap seen nodes h lt k = record {
    sized = length-set remap i idx ∙ h.sized;
    valued = omega (arith, length-append vs (v ∷ []), h.valued);
    held =
        write-held size i vs (node_values tokens d nodes) remap idx v h.sized h.valued lt h.held k;
    known = h.known;
    ordered = h.ordered;
    flags = h.flags;
  }

  Known-append-new :
      (ws : List A) (w : A) (n : EngineNode) (idx : ℕ)
      → length ws ≡ idx
      → All (λ j. j < length ws) n.inputs
      → w ≡ tokens n.token (at_all ws d n.inputs)
      → Known (ws ++ w ∷ []) n.token n.inputs idx
  Known-append-new ws w n idx e h f = (
    All-imp n.inputs (λ j lt. omega (arith, length-append ws (w ∷ []))) h,
    rw (← e, at_all-append ws (w ∷ []) d n.inputs h, ← f) (Holds-last d ws w),
  )

  -- A node is added, and nothing that is known changes.
  grow-State :
      (size i : ℕ) (vs : List A) (remap : List ℕ) (seen : Seen) (nodes : List EngineNode)
      (n : EngineNode)
      → State size i vs remap seen nodes
      → All (λ j. j < length nodes) n.inputs
      → P n.token n.boundary (length n.inputs)
      → State size i vs remap (seen ++ ((n.token, n.inputs), length nodes) ∷ []) (nodes ++ n ∷ [])
  grow-State size i vs remap seen nodes n h scoped flag =
      let ws = node_values tokens d nodes in
      let w = tokens n.token (at_all ws d n.inputs) in
      let grown : node_values tokens d (nodes ++ n ∷ []) ≡ ws ++ w ∷ [] =
        run-append node_inputs (λ (m : EngineNode). tokens m.token) d [] nodes (n ∷ []) in
      let long : length ws ≡ length nodes =
        omega (arith, length-run node_inputs (λ (m : EngineNode). tokens m.token) d [] nodes) in
      let inside : All (λ j. j < length ws) n.inputs = rw long scoped in
      record {
        sized = h.sized;
        valued = h.valued;
        held = λ j lt.
            rw grown (Holds-append d ws (w ∷ []) (get_or remap j 0) (get_or vs j d) (h.held j lt));
        known = rw grown (
            All-append (λ (e : (Text × List ℕ) × ℕ). Known (ws ++ w ∷ []) e.0.0 e.0.1 e.1) seen _
              (All-imp seen (λ e k. Known-append ws (w ∷ []) e.0.0 e.0.1 e.1 k) h.known)
              (Known-append-new ws w n (length nodes) long inside refl, tt));
        ordered = Chain-snoc (Values.IsScoped node_inputs) [] nodes n h.ordered scoped;
        flags =
            All-append (λ (m : EngineNode). P m.token m.boundary (length m.inputs)) nodes (n ∷ [])
              h.flags (flag, tt);
      }

  fresh-Holds :
      (nodes : List EngineNode) (n : EngineNode)
      → Holds d
          (node_values tokens d (nodes ++ n ∷ []))
          (length nodes)
          (tokens n.token (at_all (node_values tokens d nodes) d n.inputs))
  fresh-Holds nodes n =
      let ws = node_values tokens d nodes in
      let long : length ws ≡ length nodes =
        omega (arith, length-run node_inputs (λ (m : EngineNode). tokens m.token) d [] nodes) in
      rw (run-append node_inputs (λ (m : EngineNode). tokens m.token) d [] nodes (n ∷ []), ← long)
        (Holds-last d ws (tokens n.token (at_all ws d n.inputs)))

  cse_nodes-Ends :
      (size i : ℕ) (pre rest : List EngineNode) (vs : List A) (remap : List ℕ) (seen : Seen)
      (nodes : List EngineNode)
      → i + length rest ≡ size
      → i ≡ length pre
      → Chain (Values.IsScoped node_inputs) pre rest
      → All (λ (n : EngineNode). P n.token n.boundary (length n.inputs)) rest
      → length nodes ≤ i
      → State size i vs remap seen nodes
      → Ends size size
          (Values.run node_inputs (λ n. tokens n.token) d vs rest)
          (cse_nodes rest i remap seen nodes)
  unfolding cse_nodes
  cse_nodes-Ends size i pre [] vs remap seen nodes e f c p few h =
      let same : i ≡ size = omega arith in (remap, seen, nodes, refl, omega arith, rw same at h)
  cse_nodes-Ends size i pre (n ∷ rest) vs remap seen nodes e f c p few h =
      let ws = node_values tokens d nodes in
      let is = map (λ j. get_or remap j 0) n.inputs in
      let v = tokens n.token (at_all vs d n.inputs) in
      let lt : i < size = omega arith in
      let below : All (λ j. j < length remap) n.inputs =
        All-imp n.inputs (λ j l. (let z = h.sized in omega arith)) c.0 in
      let held : All (λ j. Holds d ws (get_or remap j 0) (get_or vs j d)) n.inputs =
        All-imp n.inputs (λ j l. h.held j (rw f l)) c.0 in
      let same : tokens n.token (at_all ws d is) ≡ v =
        ap (tokens n.token) (at_all-Holds d ws vs (λ j. get_or remap j 0) n.inputs held) in
      let more : length (pre ++ n ∷ []) ≡ suc i = omega (arith, length-append pre (n ∷ [])) in
      let found = traverse-index remap n.inputs 0 below in
      elim (Option-cases (find_seen n.token is seen)) [
        | inr (idx, g) ↦
            let k = find_seen-All (Known ws) n.token is seen idx h.known g in
            rw (found, ◌>>=◌, g, cse_nodes)
              (cse_nodes-Ends size (suc i) (pre ++ n ∷ []) rest (vs ++ v ∷ []) (set remap i idx)
                seen nodes (omega arith) (sym more) c.1 p.1 (omega arith)
                (hit-State size i idx vs v remap seen nodes h lt (rw same at k.1)))
        | inl g ↦
            let long : length ws ≡ length nodes =
              length-run node_inputs (λ (m : EngineNode). tokens m.token) d [] nodes
              ∙ omega arith in
            let scoped : All (λ j. j < length nodes) is =
              rw long at (Holds-range d ws vs (λ j. get_or remap j 0) n.inputs held) in
            let new : EngineNode = record { token = n.token; boundary = n.boundary; inputs = is } in
            rw (found, ◌>>=◌, g, cse_nodes)
              (cse_nodes-Ends size (suc i) (pre ++ n ∷ []) rest (vs ++ v ∷ [])
                (set remap i (length nodes)) (seen ++ ((n.token, is), length nodes) ∷ [])
                (nodes ++ new ∷ []) (omega arith) (sym more) c.1 p.1
                (omega (arith, length-append nodes (new ∷ [])))
                (hit-State size i (length nodes) vs v remap
                  (seen ++ ((n.token, is), length nodes) ∷ []) (nodes ++ new ∷ [])
                  (grow-State size i vs remap seen nodes new h scoped
                    (rw (length-map (λ j. get_or remap j 0) n.inputs) p.0))
                  lt (rw same at (fresh-Holds nodes new))))
      ]

  start-State : (size : ℕ) → State size 0 [] (replicate size 0) [] []
  start-State size = record {
    sized = length-replicate size 0;
    valued = refl;
    held = λ j lt. absurd (omega arith);
    known = tt;
    ordered = tt;
    flags = tt;
  }

  -- If the nodes of a graph refer to earlier ones only and its outputs are nodes, `cse` ends with
  -- such a graph that has no more nodes, whose nodes have tokens and flags of the given ones, and whose outputs have the
  -- values of the given outputs, whatever the operators of the tokens are.
  pub cse-KeepsValues : (g : EngineGraph) → IsGraph P g → KeepsValues tokens d P g (cse g)
  unfolding cse
  cse-KeepsValues g h =
      let size = length g.nodes in
      let vs = node_values tokens d g.nodes in
      let (remap, seen, nodes, ends, few, s) =
        cse_nodes-Ends size 0 [] g.nodes [] (replicate size 0) [] [] (omega arith) refl h.ordered
          h.flags (omega arith) (start-State size) in
      let below : All (λ j. j < length remap) g.outputs =
        All-imp g.outputs (λ j l. (let z = s.sized in omega arith)) h.in_range in
      let held : All (λ j. Holds d (node_values tokens d nodes) (get_or remap j 0) (get_or vs j d))
          g.outputs =
        All-imp g.outputs s.held h.in_range in
      let long : length (node_values tokens d nodes) ≡ length nodes =
        omega (arith, length-run node_inputs (λ (m : EngineNode). tokens m.token) d [] nodes) in
      (
        record { nodes = nodes; outputs = map (λ j. get_or remap j 0) g.outputs },
        rw (ends, ◌>>=◌, traverse-index remap g.outputs 0 below, cse) refl,
        record {
          ordered = s.ordered;
          flags = s.flags;
          in_range = rw long at (
              Holds-range d (node_values tokens d nodes) vs (λ j. get_or remap j 0) g.outputs held);
        },
        few,
        at_all-Holds d (node_values tokens d nodes) vs (λ j. get_or remap j 0) g.outputs held,
      )
