-- ===== src/Optimizer/Fusion/Maximal.antt =====
-- The components of `FusionMode::Maximal` may be fused.
use graphed_core_mvp.Base.{
  map, ap, ◌∙◌, ℕ, zero, suc, ◌+◌, ◌<◌, ◌≤◌, ◌≡◌, refl, sym, Bool, true, false, List, map, [], ◌∷◌,
  arith, length, not, length-set, get_elem?, get_elem?-lt, get_elem?-some, get_elem?-get_or,
  get_elem?-set_same, get_elem?-set_other, get_or, set, All, All-imp, Option, Option-cases, some,
  none, ◌==◌, ==_iff, ==_refl, ◌||◌, Bool-cases, inl, inr, ◌⊎◌, Result, ok, if◌then◌else◌,
}
use mathlib.Core.Option.{some_inj}
use graphed_core_mvp.Store.{contains}
use graphed_core_mvp.Optimizer.{Halt, EngineNode, ◌>>=◌, index}
use graphed_core_mvp.Optimizer.Values
use graphed_core_mvp.Optimizer.Values.{Chain-at}
use graphed_core_mvp.Optimizer.Dce.Marks.{All-contains}
use graphed_core_mvp.Optimizer.Holds.{index-get_or, traverse-ok}
use graphed_core_mvp.Optimizer.Graphs.{node_inputs}
use graphed_core_mvp.Optimizer.Stages.{
  range, any, all_eq, is_boundary_at, shared_component, comp_maximal,
}
use graphed_core_mvp.Optimizer.Stages.Consumers.{uses-node, node-uses, AreConsumers, AreMarks}
use graphed_core_mvp.Optimizer.Fusion.Semantics.{IsHead, AreComponents}
use graphed_core_mvp.Optimizer.Fusion.Members.{index-ok}

-- Whether a node is a boundary.
abbrev pub flag : List EngineNode → ℕ → Bool
flag nodes i = elim (get_elem? nodes i) [ some n ↦ n.boundary | none ↦ false ]

pub flag-ok :
    (nodes : List EngineNode) (i : ℕ)
    → i < length nodes
    → is_boundary_at nodes i ≡ ok (flag nodes i)
flag-ok nodes i lt =
    let (n, e) = get_elem?-some nodes i lt in
    rw (index-ok nodes i n e, ◌>>=◌, e, flag, is_boundary_at) refl

-- A list whose elements are all below a bound.
All-range : (us : List ℕ) (n : ℕ) → ((u : ℕ) → contains us u ≡ true → u < n) → All (λ u. u < n) us
unfolding contains
All-range [] n f = tt
All-range (x ∷ us) n f =
    (f x (ground (arith, ==_refl x)), All-range us n (λ u has. f u (ground arith)))

apart : (a b : ℕ) → (a < b) ⊎ ((a ≡ b) ⊎ (b < a))
apart a b = ground arith

all_false :
    (a b c d : Bool)
    → (a || b || c || not d) ≡ false
    → (a ≡ false) × (b ≡ false) × (c ≡ false) × (d ≡ true)
all_false false false false false h = cc
all_false false false false true h = (refl, refl, refl, refl)
all_false false false true d h = cc
all_false false true c d h = cc
all_false true b c d h = cc

none_of :
    (us : List ℕ) (u : ℕ) (f : ℕ → Bool)
    → any (map f us) ≡ false
    → contains us u ≡ true
    → f u ≡ false
unfolding contains
none_of [] u f h e = cc
none_of (x ∷ us) u f h e = elim (Bool-cases (x == u)) [
  | inl same ↦ rw (← ((==_iff x u).0 same)) (ground arith)
  | inr other ↦ none_of us u f (ground arith) (rw other at e)
]

all_equal :
    (us : List ℕ) (u c : ℕ) (f : ℕ → ℕ)
    → all_eq c (map f us) ≡ true
    → contains us u ≡ true
    → f u ≡ c
unfolding contains
all_equal [] u c f h e = cc
all_equal (x ∷ us) u c f h e = elim (Bool-cases (x == u)) [
  | inl same ↦
      rw (← ((==_iff x u).0 same))
        (let z : (f x == c) ≡ true = ground arith in (==_iff (f x) c).0 z)
  | inr other ↦ all_equal us u c f (ground arith) (rw other at e)
]

module _ (nodes : List EngineNode) (table : List (List ℕ)) (marks : List Bool) where
  -- The node `j` is the last of its component `c`, or it joined the component of all its consumers.
  abbrev Joined : List ℕ → ℕ → ℕ → Type 0
  Joined comp j c =
      (j < c)
      × (get_elem? comp c ≡ some c)
      × (flag nodes j ≡ false)
      × (flag nodes c ≡ false)
      × (get_or marks j false ≡ false)
      × ((u : ℕ) → contains (get_or table j []) u ≡ true → (j < u) × (get_elem? comp u ≡ some c))

  record Row (comp : List ℕ) (j : ℕ) : Type 0 where
    pub c : ℕ
    pub at : get_elem? comp j ≡ some c
    pub kind : (c ≡ j) ⊎ Joined comp j c

  -- The nodes from the `i`-th on are done.
  record Inv (i : ℕ) (comp : List ℕ) : Type 0 where
    pub sized : length comp ≡ length nodes
    pub low : (j : ℕ) → j < i → get_elem? comp j ≡ some j
    pub rows : (j : ℕ) → j < length nodes → Row comp j

  -- What `shared_component` finds for the node `i` with these consumers.
  abbrev Target : List ℕ → List ℕ → ℕ → Result Halt (Option ℕ) → Type 0
  Target comp users i r =
      (o : Option ℕ) × (r ≡ ok o)
      × ((c : ℕ)
          → o ≡ some c
          → (flag nodes i ≡ false)
            × (get_or marks i false ≡ false)
            × ((u : ℕ) × (contains users u ≡ true))
            × ((u : ℕ) → contains users u ≡ true → (flag nodes u ≡ false) × (get_or comp u 0 ≡ c)))

  shared_component-Target :
      (comp users : List ℕ) (i : ℕ)
      → length comp ≡ length nodes
      → length marks ≡ length nodes
      → i < length nodes
      → All (λ u. u < length nodes) users
      → Target comp users i (shared_component nodes marks comp users i)
  unfolding contains
  shared_component-Target comp [] i e f lt h = (none, refl, λ c q. cc)
  shared_component-Target comp (user ∷ users) i e f lt h =
      let c0 = get_or comp user 0 in
      let across = map (flag nodes) (user ∷ users) in
      let cs = map (λ u. get_or comp u 0) (user ∷ users) in
      let cond = flag nodes i || get_or marks i false || any across || not (all_eq c0 cs) in
      let run : shared_component nodes marks comp (user ∷ users) i
          ≡ ok (if cond then none else some c0) =
        rw
          (
            flag-ok nodes i lt,
            ◌>>=◌,
            index-get_or marks i false (rw f lt),
            ◌>>=◌,
            traverse-ok (is_boundary_at nodes) (flag nodes) (user ∷ users)
                (All-imp (user ∷ users) (λ u l. flag-ok nodes u l) h),
            ◌>>=◌,
            index-get_or comp user 0 (rw e h.0),
            ◌>>=◌,
            traverse-ok (index comp) (λ u. get_or comp u 0) users
                (All-imp users (λ u l. index-get_or comp u 0 (rw e l)) h.1),
            ◌>>=◌,
            shared_component,
          )
          refl in
      elim (Bool-cases cond) [
        | inl stays ↦ (none, rw stays at run, λ c q. cc)
        | inr joins ↦ (
          some c0,
          rw joins at run,
          λ c q.
              (let (op, inner, ops, same) =
                  all_false (flag nodes i) (get_or marks i false) (any across) (all_eq c0 cs)
                    joins in
                let c0c : c0 ≡ c = some_inj.0 q in
                (
                  op,
                  inner,
                  (user, ground (arith, ==_refl user)),
                  λ u has. (
                    none_of (user ∷ users) u (flag nodes) ops has,
                    all_equal (user ∷ users) u c0 (λ v. get_or comp v 0) same has ∙ c0c,
                  ),
                )),
        )
      ]

  -- What is known of the graph and of the tables.
  pub record AreTables (outputs : List ℕ) : Type 0 where
    pub ordered : Values.IsOrdered node_inputs nodes
    pub consumers : AreConsumers nodes table
    pub outs : AreMarks (length nodes) outputs marks

  pub consumer-range :
      (outputs : List ℕ) (i u : ℕ)
      → AreTables outputs
      → contains (get_or table i []) u ≡ true
      → (i < u) × (u < length nodes)
  consumer-range outputs i u h has =
      let (n, m, e, f, g) = uses-node nodes 0 i u (sym (h.consumers.rows i u) ∙ has) in
      let lt =
        All-contains (λ j. j < 0 + m) n.inputs i (Chain-at node_inputs [] nodes m n h.ordered f)
          g in
      let l = get_elem?-lt nodes m f in (omega arith, omega arith)

  -- What is known of the row `j` stays when a node that is not after it gets another component.
  Joined-set : (comp : List ℕ) (i v j c : ℕ) → i ≤ j → Joined comp j c → Joined (set comp i v) j c
  Joined-set comp i v j c lt (jc, cc_at, op, opc, inner, all) = (
    jc,
    get_elem?-set_other comp i c v (λ e. omega arith) ∙ cc_at,
    op,
    opc,
    inner,
    λ u has.
        (let (ju, e) = all u has in (ju, get_elem?-set_other comp i u v (λ e. omega arith) ∙ e)),
  )

  set-Inv :
      (outputs comp : List ℕ) (i c : ℕ)
      → AreTables outputs
      → Inv (suc i) comp
      → i < length nodes
      → Joined comp i c
      → Inv i (set comp i c)
  set-Inv outputs comp i c h v lt joined = record {
    sized = length-set comp i c ∙ v.sized;
    low = λ j l. get_elem?-set_other comp i j c (λ e. omega arith) ∙ v.low j (omega arith);
    rows = λ j l. elim (apart i j) [
      | inl above ↦
          let row = v.rows j l in
          record {
            c = row.c;
            at = get_elem?-set_other comp i j c (λ e. omega arith) ∙ row.at;
            kind = elim row.kind [
              | inl own ↦ inl own
              | inr old ↦ inr (Joined-set comp i c j row.c (omega arith) old)
            ];
          }
      | inr (inl same) ↦ rw (← same) (record {
        c = c;
        at = get_elem?-set_same comp i c (rw v.sized lt);
        kind = inr (Joined-set comp i c i c (omega arith) joined);
      })
      | inr (inr below) ↦ record {
        c = j;
        at = get_elem?-set_other comp i j c (λ e. omega arith) ∙ v.low j (omega arith);
        kind = inl refl;
      }
    ];
  }

  -- What the consumers of `i` have in common is a component that `i` may join.
  Target-Joined :
      (outputs comp : List ℕ) (i c u0 : ℕ)
      → AreTables outputs
      → Inv (suc i) comp
      → i < length nodes
      → flag nodes i ≡ false
      → get_or marks i false ≡ false
      → contains (get_or table i []) u0 ≡ true
      → ((u : ℕ)
          → contains (get_or table i []) u ≡ true
          → (flag nodes u ≡ false) × (get_or comp u 0 ≡ c))
      → Joined comp i c
  Target-Joined outputs comp i c u0 h v lt op inner has all =
      let at_user : (u : ℕ)
          → contains (get_or table i []) u ≡ true
          → (i < u) × (get_elem? comp u ≡ some c) =
        λ u k.
          (let (iu, l) = consumer-range outputs i u h k in
            (iu, get_elem?-get_or comp u 0 (rw v.sized l) ∙ ap some (all u k).1)) in
      let (iu, e) = at_user u0 has in
      let row = v.rows u0 (consumer-range outputs i u0 h has).1 in
      let same : row.c ≡ c = some_inj.0 (sym row.at ∙ e) in
      elim row.kind [
        | inl own ↦
            let cu : u0 ≡ c = sym own ∙ same in
            (rw cu at iu, rw cu at e, op, rw cu at (all u0 has).0, inner, at_user)
        | inr old ↦
            let joined : Joined comp u0 c = rw same at old in
            let (uc, root, uop, rop, uinner, others) = joined in
            (omega arith, root, op, rop, inner, at_user)
      ]

  comp_maximal-Inv :
      (outputs : List ℕ) (i : ℕ) (comp : List ℕ)
      → AreTables outputs
      → i ≤ length nodes
      → Inv i comp
      → (comp' : List ℕ) × (comp_maximal i nodes table marks comp ≡ ok comp') × Inv 0 comp'
  unfolding comp_maximal
  comp_maximal-Inv outputs zero comp h le v = (comp, refl, v)
  comp_maximal-Inv outputs (suc i) comp h le v =
      let lt : i < length nodes = omega arith in
      let users = get_or table i [] in
      let inside : All (λ u. u < length nodes) users =
        All-range users (length nodes) (λ u has. (consumer-range outputs i u h has).1) in
      let (o, run, target) = shared_component-Target comp users i v.sized h.outs.sized lt inside in
      elim (Option-cases o) [
        | inl e ↦
            let later =
              comp_maximal-Inv outputs i comp h (omega arith)
                (record { sized = v.sized; low = λ j l. v.low j (omega arith); rows = v.rows }) in
            rw
              (
                index-get_or table i [] (rw h.consumers.sized lt),
                ◌>>=◌,
                run,
                ◌>>=◌,
                e,
                comp_maximal,
              )
              later
        | inr (c, e) ↦
            let (op, inner, (u0, has), all) = target c e in
            let later = comp_maximal-Inv outputs i (set comp i c) h (omega arith) (
              set-Inv outputs comp i c h v lt
                (Target-Joined outputs comp i c u0 h v lt op inner has all)) in
            rw
              (
                index-get_or table i [] (rw h.consumers.sized lt),
                ◌>>=◌,
                run,
                ◌>>=◌,
                e,
                comp_maximal,
              )
              later
      ]

  row_at :
      (i j c : ℕ) (comp : List ℕ)
      → Inv i comp
      → get_elem? comp j ≡ some c
      → (c ≡ j) ⊎ Joined comp j c
  row_at i j c comp v e =
      let row = v.rows j (rw v.sized at (get_elem?-lt comp j e)) in
      let same : row.c ≡ c = some_inj.0 (sym row.at ∙ e) in rw same at row.kind

  -- A node that names its component is the last of it.
  root-IsHead : (i j : ℕ) (comp : List ℕ) → Inv i comp → get_elem? comp j ≡ some j → IsHead comp j
  root-IsHead i j comp v e k c f g =
      let cj : j ≡ c = some_inj.0 (sym e ∙ f) in
      elim (row_at i k c comp v g) [ inl own ↦ omega arith | inr joined ↦ omega (arith, joined.0) ]

  own-IsHead :
      (i j c : ℕ) (comp : List ℕ) → Inv i comp → get_elem? comp j ≡ some c → c ≡ j → IsHead comp j
  own-IsHead i j c comp v e own = root-IsHead i j comp v (e ∙ ap some own)

  pub flag-some : (c : ℕ) (n : EngineNode) → get_elem? nodes c ≡ some n → flag nodes c ≡ n.boundary
  flag-some c n e = rw (e, flag) refl

  Inv-AreComponents :
      (outputs comp : List ℕ) → AreTables outputs → Inv 0 comp → AreComponents nodes outputs comp
  Inv-AreComponents outputs comp h v = record {
    sized = v.sized;
    named = λ i c e. elim (row_at 0 i c comp v e) [
      | inl own ↦ omega (arith, get_elem?-lt comp i e, v.sized)
      | inr joined ↦ omega (arith, get_elem?-lt comp c joined.1, v.sized)
    ];
    alone = λ i c n e f b. elim (row_at 0 i c comp v e) [
      | inl own ↦ sym own
      | inr joined ↦ let (ic, root, op, rop, inner, all) = joined in cc (flag-some c n f)
    ];
    used = λ i j c e n f has at to other. elim (row_at 0 j e comp v to) [
      | inl own ↦ own-IsHead 0 j e comp v to own
      | inr joined ↦
          let (je, root, op, rop, inner, all) = joined in
          let z : 0 + i ≡ i = omega arith in
          let consumer : contains (get_or table j []) i ≡ true =
            h.consumers.rows j i ∙ (rw z at (node-uses nodes 0 j i n f has)) in
          absurd (other (some_inj.0 (sym at ∙ (all i consumer).1)))
    ];
    returned = λ j out k c e g. elim (row_at 0 j c comp v e) [
      | inl own ↦ own-IsHead 0 j c comp v e own k c e g
      | inr joined ↦
          let (jc, root, op, rop, inner, all) = joined in
          let lt : j < length nodes = rw v.sized at (get_elem?-lt comp j e) in
          cc (h.outs.marked j lt)
    ];
  }

  pub range-at : (lo n j : ℕ) → j < n → get_elem? (range lo n) j ≡ some (lo + j)
  range-at lo zero j lt = absurd (omega arith)
  range-at lo (suc n) zero lt = ap some (omega arith)
  range-at lo (suc n) (suc j) lt = range-at (suc lo) n j (omega arith) ∙ ap some (omega arith)

  pub length-range : (lo n : ℕ) → length (range lo n) ≡ n
  length-range lo zero = refl
  length-range lo (suc n) = ap suc (length-range (suc lo) n)

  -- The pass ends with components that may be fused.
  pub comp_maximal-AreComponents :
      (outputs : List ℕ)
      → AreTables outputs
      → (comp : List ℕ) × (comp_maximal (length nodes) nodes table marks (range 0 (length nodes))
          ≡ ok comp)
        × AreComponents nodes outputs comp
  comp_maximal-AreComponents outputs h =
      let size = length nodes in
      let start : (j : ℕ) → j < size → get_elem? (range 0 size) j ≡ some j =
        λ j lt. range-at 0 size j lt ∙ ap some (omega arith) in
      let (comp, ends, v) = comp_maximal-Inv outputs size (range 0 size) h (omega arith) (record {
        sized = length-range 0 size;
        low = start;
        rows = λ j lt. record { c = j; at = start j lt; kind = inl refl };
      }) in
      (comp, ends, Inv-AreComponents outputs comp h v)
