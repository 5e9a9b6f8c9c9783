-- ===== src/Optimizer/Dce/Live.antt =====
-- The marking loop ends, and marks exactly the nodes that are reachable from the outputs.
use graphed_core_mvp.Base.{
  Bool-cases, ℕ, zero, suc, ◌+◌, ◌≤◌, ◌<◌, ◌≡◌, refl, ap, ◌∙◌, ◌↔◌, ◌⊎◌, inl, inr, Bool, true,
  false, List, [], ◌∷◌, ◌++◌, some, arith, length, length-append, get_elem?, get_elem?-some, set,
  length-set, replicate, length-replicate, All, All-append, Result, ok,
}
use mathlib.Core.List.{reverse}
use graphed_core_mvp.Node.{NodeId, NodeKey, inputs}
use graphed_core_mvp.Store.{contains}
use graphed_core_mvp.Optimizer.{Halt}
use graphed_core_mvp.Optimizer.Dce.{mark_live, total_inputs}
use graphed_core_mvp.Optimizer.Dce.Marks.{
  IsMarked, Reachable, root, input_of, contains-append, contains-reverse, IsMarked-set, idle,
  idle-set, contains-cons, contains-tail, contains-head, IsMarked-some, length-reverse, All-reverse,
}

-- The inputs of each node are nodes.
pub record IsClosed (nodes : List NodeKey) : Type 0 where
  pub inputs_of :
      (i : ℕ) (k : NodeKey) → get_elem? nodes i ≡ some k → All (λ j. j < length nodes) (inputs k)

-- Marked, or still to be.
abbrev IsSeen : List Bool → List ℕ → ℕ → Type 0
IsSeen keep stack j = IsMarked keep j ⊎ (contains stack j ≡ true)

record Loop (nodes : List NodeKey) (outputs : List NodeId) (keep : List Bool) (stack : List ℕ)
    : Type 0 where
  sized : length keep ≡ length nodes
  in_range : All (λ j. j < length nodes) stack
  sound : (j : ℕ) → IsSeen keep stack j → Reachable nodes outputs j
  closed :
      (i j : ℕ) (k : NodeKey)
      → IsMarked keep i
      → get_elem? nodes i ≡ some k
      → contains (inputs k) j ≡ true
      → IsSeen keep stack j
  rooted : (o : ℕ) → contains outputs o ≡ true → IsSeen keep stack o

skip-Seen :
    (keep : List Bool) (i : ℕ) (stack : List ℕ) (j : ℕ)
    → IsMarked keep i
    → IsSeen keep (i ∷ stack) j
    → IsSeen keep stack j
skip-Seen keep i stack j m (inl h) = inl h
skip-Seen keep i stack j m (inr h) = elim (contains-cons i stack j h) [
  | inl same ↦ inl (rw same m)
  | inr there ↦ inr there
]

contains-inputs :
    (ins stack : List ℕ) (j : ℕ)
    → (contains (reverse ins ++ stack) j ≡ true)
      ↔ ((contains ins j ≡ true) ⊎ (contains stack j ≡ true))
contains-inputs ins stack j =
    rw (contains-append (reverse ins) stack j, contains-reverse ins j) (ground arith)

push-Seen :
    (keep : List Bool) (i : ℕ) (ins stack : List ℕ) (j : ℕ)
    → i < length keep
    → IsSeen keep (i ∷ stack) j
    → IsSeen (set keep i true) (reverse ins ++ stack) j
push-Seen keep i ins stack j lt (inl h) = inl ((IsMarked-set keep i j lt).1 (inl h))
push-Seen keep i ins stack j lt (inr h) = elim (contains-cons i stack j h) [
  | inl same ↦ inl ((IsMarked-set keep i j lt).1 (inr same))
  | inr there ↦ inr ((contains-inputs ins stack j).1 (inr there))
]

-- What a marking must be.
abbrev pub IsLive : List NodeKey → List NodeId → List Bool → Type 0
IsLive nodes outputs keep =
    (length keep ≡ length nodes) × ((j : ℕ) → IsMarked keep j ↔ Reachable nodes outputs j)

abbrev pub Ends : List NodeKey → List NodeId → Result Halt (List Bool) → Type 0
Ends nodes outputs r = (keep : List Bool) × (r ≡ ok keep) × IsLive nodes outputs keep

module _ {nodes : List NodeKey} {outputs : List NodeId} where
  skip-Loop :
      (keep : List Bool) (i : ℕ) (stack : List ℕ)
      → IsMarked keep i
      → Loop nodes outputs keep (i ∷ stack)
      → Loop nodes outputs keep stack
  skip-Loop keep i stack m l = record {
    sized = l.sized;
    in_range = l.in_range.1;
    sound = λ j s. l.sound j (elim s [ inl h ↦ inl h | inr h ↦ inr (contains-tail i stack j h) ]);
    closed = λ n j k h f c. skip-Seen keep i stack j m (l.closed n j k h f c);
    rooted = λ o h. skip-Seen keep i stack o m (l.rooted o h);
  }

  push_sound :
      (keep : List Bool) (i : ℕ) (stack : List ℕ) (k : NodeKey)
      → get_elem? nodes i ≡ some k
      → i < length keep
      → Loop nodes outputs keep (i ∷ stack)
      → (j : ℕ) → IsSeen (set keep i true) (reverse (inputs k) ++ stack) j
      → Reachable nodes outputs j
  push_sound keep i stack k f lt l j (inl m) = elim ((IsMarked-set keep i j lt).0 m) [
    | inl old ↦ l.sound j (inl old)
    | inr same ↦ rw same (l.sound i (inr (contains-head i stack)))
  ]
  push_sound keep i stack k f lt l j (inr m) = elim ((contains-inputs (inputs k) stack j).0 m) [
    | inl fed ↦ input_of (l.sound i (inr (contains-head i stack))) f fed
    | inr old ↦ l.sound j (inr (contains-tail i stack j old))
  ]

  push_closed :
      (keep : List Bool) (i : ℕ) (stack : List ℕ) (k : NodeKey)
      → get_elem? nodes i ≡ some k
      → i < length keep
      → Loop nodes outputs keep (i ∷ stack)
      → (n j : ℕ) (m : NodeKey) → IsMarked (set keep i true) n
      → get_elem? nodes n ≡ some m
      → contains (inputs m) j ≡ true
      → IsSeen (set keep i true) (reverse (inputs k) ++ stack) j
  push_closed keep i stack k f lt l n j m h g c = elim ((IsMarked-set keep i n lt).0 h) [
    | inl old ↦ push-Seen keep i (inputs k) stack j lt (l.closed n j m old g c)
    | inr same ↦
        let at : get_elem? nodes i ≡ some m = rw (← same) g in
        let e : m ≡ k = cc in inr ((contains-inputs (inputs k) stack j).1 (inl (rw (← e) c)))
  ]

  push-Loop :
      (keep : List Bool) (i : ℕ) (stack : List ℕ) (k : NodeKey)
      → IsClosed nodes
      → get_elem? nodes i ≡ some k
      → Loop nodes outputs keep (i ∷ stack)
      → Loop nodes outputs (set keep i true) (reverse (inputs k) ++ stack)
  push-Loop keep i stack k c f l =
      let lt : i < length keep = rw l.sized l.in_range.0 in
      record {
        sized = length-set keep i true ∙ l.sized;
        in_range =
            All-append (λ j. j < length nodes) (reverse (inputs k)) stack
              (All-reverse (λ j. j < length nodes) (inputs k) (c.inputs_of i k f)) l.in_range.1;
        sound = push_sound keep i stack k f lt l;
        closed = push_closed keep i stack k f lt l;
        rooted = λ o h. push-Seen keep i (inputs k) stack o lt (l.rooted o h);
      }

  -- A loop without anything to do has marked the reachable nodes.
  done-IsMarked :
      (keep : List Bool)
      → Loop nodes outputs keep []
      → (j : ℕ) → Reachable nodes outputs j
      → IsMarked keep j
  unfolding contains
  done-IsMarked keep l j (root h) = elim (l.rooted j h) [ inl m ↦ m | inr c ↦ cc ]
  done-IsMarked keep l _ (input_of {i} {j} {k} r f h) =
      elim (l.closed i j k (done-IsMarked keep l i r) f h) [ inl m ↦ m | inr c ↦ cc ]

  done-IsLive : (keep : List Bool) → Loop nodes outputs keep [] → IsLive nodes outputs keep
  done-IsLive keep l = (l.sized, λ j. (λ h. l.sound j (inl h), done-IsMarked keep l j))

  mark_live-Ends :
      (fuel : ℕ) (keep : List Bool) (stack : List ℕ)
      → IsClosed nodes
      → Loop nodes outputs keep stack
      → length stack + idle keep nodes ≤ fuel
      → Ends nodes outputs (mark_live fuel nodes keep stack)
  unfolding mark_live
  mark_live-Ends zero keep [] c l h = (keep, refl, done-IsLive keep l)
  mark_live-Ends zero keep (i ∷ stack) c l h = absurd (omega arith)
  mark_live-Ends (suc fuel) keep [] c l h = (keep, refl, done-IsLive keep l)
  mark_live-Ends (suc fuel) keep (i ∷ stack) c l h =
      let (b, e) = get_elem?-some keep i (rw l.sized l.in_range.0) in
      let (k, f) = get_elem?-some nodes i l.in_range.0 in
      elim (Bool-cases b) [
        | inl on ↦
            let at : get_elem? keep i ≡ some true = e ∙ ap some on in
            rw (at, mark_live)
              (mark_live-Ends fuel keep stack c (skip-Loop keep i stack (IsMarked-some keep i at) l)
                (omega arith))
        | inr off ↦
            let at : get_elem? keep i ≡ some false = e ∙ ap some off in
            rw (at, f, mark_live)
              (mark_live-Ends fuel (set keep i true) (reverse (inputs k) ++ stack) c
                (push-Loop keep i stack k c f l)
                (let n = length-append (reverse (inputs k)) stack in
                  omega (arith, idle-set keep nodes i k at f, n, length-reverse (inputs k))))
      ]

IsMarked-replicate : (n j : ℕ) → IsMarked (replicate n false) j → ⊥
IsMarked-replicate zero j h = cc
IsMarked-replicate (suc n) zero h = cc
IsMarked-replicate (suc n) (suc j) h = IsMarked-replicate n j h

idle-replicate :
    (nodes : List NodeKey) → idle (replicate (length nodes) false) nodes ≡ total_inputs nodes
idle-replicate [] = refl
idle-replicate (k ∷ ks) = ap (λ t. length (inputs k) + t) (idle-replicate ks)

start-Loop :
    (nodes : List NodeKey) (outputs : List NodeId)
    → All (λ o. o < length nodes) outputs
    → Loop nodes outputs (replicate (length nodes) false) (reverse outputs)
start-Loop nodes outputs h = record {
  sized = length-replicate (length nodes) false;
  in_range = All-reverse (λ o. o < length nodes) outputs h;
  sound = λ j s. elim s [
    | inl m ↦ absurd (IsMarked-replicate (length nodes) j m)
    | inr c ↦ root (rw (← (contains-reverse outputs j)) c)
  ];
  closed = λ i j k m f c. absurd (IsMarked-replicate (length nodes) i m);
  rooted = λ o c. inr (rw (contains-reverse outputs o) c);
}

-- The fuel that `dead_code_elimination` gives the loop is enough.
pub mark_live-IsLive :
    (nodes : List NodeKey) (outputs : List NodeId)
    → IsClosed nodes
    → All (λ o. o < length nodes) outputs
    → Ends nodes outputs (
        mark_live
          (length outputs + total_inputs nodes)
          nodes
          (replicate (length nodes) false)
          (reverse outputs))
mark_live-IsLive nodes outputs c h =
    mark_live-Ends _ _ _ c (start-Loop nodes outputs h)
      (omega (arith, length-reverse outputs, idle-replicate nodes))
