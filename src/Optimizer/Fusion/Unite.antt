-- ===== src/Optimizer/Fusion/Unite.antt =====
-- The loops of `FusionMode::SingleUse` unite each op with its only consumer, and give components
-- that may be fused.
use graphed_core_mvp.Base.{
  ap, ◌∙◌, ℕ, zero, suc, ◌+◌, ◌<◌, ◌≡◌, refl, sym, Bool, true, false, List, [], ◌∷◌, map, arith,
  length, length-map, get_elem?, get_elem?-lt, get_or, All, Option, Option-cases, some, none,
  ==_iff, ==_refl, ◌||◌, Bool-cases, inl, inr, ok, if◌then◌else◌,
}
use mathlib.Core.Option.{some_inj}
use graphed_core_mvp.Store.{contains}
use graphed_core_mvp.Optimizer.{EngineNode, ◌>>=◌}
use graphed_core_mvp.Optimizer.Holds.{index-get_or}
use graphed_core_mvp.Optimizer.Stages.{Dsu, range, single_consumer, unite, roots, comp_single_use}
use graphed_core_mvp.Optimizer.Stages.Find.{top, Root-le, Root-ends, Root-unique}
use graphed_core_mvp.Optimizer.Stages.Union.{Roots, merge, find-Roots, union-Merged}
use graphed_core_mvp.Optimizer.Stages.Consumers.{node-uses}
use graphed_core_mvp.Optimizer.Fusion.Semantics.{IsHead, AreComponents}
use graphed_core_mvp.Optimizer.Fusion.Maximal.{
  flag, flag-ok, flag-some, AreTables, consumer-range, range-at, length-range,
}
use graphed_core_mvp.Optimizer.Fusion.SingleUse.{Top, United, stay-United, join-United}

range-All : (lo n size : ℕ) → lo + n ≡ size → All (λ i. i < size) (range lo n)
range-All lo zero size e = tt
range-All lo (suc n) size e = (omega arith, range-All (suc lo) n size (omega arith))

contains_self : (c : ℕ) → contains (c ∷ []) c ≡ true
unfolding contains
contains_self c = ground (arith, ==_refl c)

only_consumer : (c u : ℕ) → contains (c ∷ []) u ≡ true → c ≡ u
unfolding contains
only_consumer c u h = (==_iff c u).0 (ground arith)

none_set : (a b c : Bool) → (a || b || c) ≡ false → (a ≡ false) × (b ≡ false) × (c ≡ false)
none_set false false false h = (refl, refl, refl)
none_set false false true h = cc
none_set false true c h = cc
none_set true b c h = cc

get_elem?-map :
    (f : ℕ → ℕ) (xs : List ℕ) (i a : ℕ)
    → get_elem? xs i ≡ some a
    → get_elem? (map f xs) i ≡ some (f a)
get_elem?-map f [] i a h = cc
get_elem?-map f (x ∷ xs) zero a h = ap (λ y. some (f y)) (some_inj.0 h)
get_elem?-map f (x ∷ xs) (suc i) a h = get_elem?-map f xs i a h

module _ (nodes : List EngineNode) (table : List (List ℕ)) (marks : List Bool) where
  -- The node that `i` is united with.
  abbrev Mate : ℕ → ℕ → Type 0
  Mate i c =
      (get_or table i [] ≡ c ∷ [])
      × (flag nodes i ≡ false)
      × (flag nodes c ≡ false)
      × (get_or marks i false ≡ false)

  single_consumer-Mate :
      (outputs : List ℕ) (i : ℕ) (users : List ℕ)
      → AreTables nodes table marks outputs
      → i < length nodes
      → get_or table i [] ≡ users
      → (o : Option ℕ) × (single_consumer nodes table marks i ≡ ok o)
        × ((c : ℕ) → o ≡ some c → Mate i c)
  single_consumer-Mate outputs i [] h lt e = (
    none,
    rw
        (
          flag-ok nodes i lt,
          ◌>>=◌,
          index-get_or table i [] (rw h.consumers.sized lt),
          e,
          ◌>>=◌,
          index-get_or marks i false (rw h.outs.sized lt),
          single_consumer,
        )
        refl,
    λ c q. cc,
  )
  single_consumer-Mate outputs i (c ∷ c' ∷ users) h lt e = (
    none,
    rw
        (
          flag-ok nodes i lt,
          ◌>>=◌,
          index-get_or table i [] (rw h.consumers.sized lt),
          e,
          ◌>>=◌,
          index-get_or marks i false (rw h.outs.sized lt),
          single_consumer,
        )
        refl,
    λ c q. cc,
  )
  single_consumer-Mate outputs i (c ∷ []) h lt e =
      let lc : c < length nodes =
        (consumer-range nodes table marks outputs i c h (rw e (contains_self c))).1 in
      let run : single_consumer nodes table marks i
          ≡ ok (if flag nodes i || get_or marks i false || flag nodes c then none else some c) =
        rw
          (
            flag-ok nodes i lt,
            ◌>>=◌,
            index-get_or table i [] (rw h.consumers.sized lt),
            e,
            ◌>>=◌,
            index-get_or marks i false (rw h.outs.sized lt),
            flag-ok nodes c lc,
            ◌>>=◌,
            single_consumer,
          )
          refl in
      elim (Bool-cases (flag nodes i || get_or marks i false || flag nodes c)) [
        | inl stays ↦ (none, rw stays at run, λ k q. cc)
        | inr joins ↦ (
          some c,
          rw joins at run,
          λ k q.
              (let (op, inner, opc) =
                  none_set (flag nodes i) (get_or marks i false) (flag nodes c) joins in
                let ck : c ≡ k = some_inj.0 q in rw (← ck) (e, op, opc, inner)),
        )
      ]

  unite-United :
      (outputs : List ℕ) (m i : ℕ) (dsu : Dsu) (root : ℕ → ℕ)
      → AreTables nodes table marks outputs
      → i + m ≡ length nodes
      → Roots (length nodes) dsu root
      → United nodes table marks i root
      → (dsu' : Dsu) × (root' : ℕ → ℕ) × (unite nodes table marks (range i m) dsu ≡ ok dsu')
        × Roots (length nodes) dsu' root'
        × United nodes table marks (length nodes) root'
  unfolding unite
  unite-United outputs zero i dsu root h e r u =
      let same : i ≡ length nodes = omega arith in (dsu, root, refl, r, rw same at u)
  unite-United outputs (suc m) i dsu root h e r u =
      let lt : i < length nodes = omega arith in
      let (o, run, mate) = single_consumer-Mate outputs i (get_or table i []) h lt refl in
      elim (Option-cases o) [
        | inl q ↦
            rw (run, q, ◌>>=◌, unite)
              (unite-United outputs m (suc i) dsu root h (omega arith) r
                (stay-United nodes table marks i root u))
        | inr (c, q) ↦
            let (only, op, opc, inner) = mate c q in
            let (ic, lc) =
              consumer-range nodes table marks outputs i c h (rw only (contains_self c)) in
            let both = union-Merged (length nodes) i c dsu root r lt lc in
            let next =
              join-United nodes table marks i c both.low both.high root both.which u only ic lc op
                opc inner in
            rw (run, q, ◌>>=◌, both.ends, ◌>>=◌, unite)
              (unite-United outputs m (suc i) both.new (merge both.low both.high root) h
                (omega arith) both.roots next)
      ]

  roots-map :
      (is : List ℕ) (dsu : Dsu) (root : ℕ → ℕ)
      → All (λ i. i < length nodes) is
      → Roots (length nodes) dsu root
      → ((i : ℕ) → i < length nodes → flag nodes i ≡ true → root i ≡ i)
      → roots nodes is dsu ≡ ok (map root is)
  unfolding roots
  roots-map [] dsu root h r b = refl
  roots-map (i ∷ is) dsu root h r b = elim (Bool-cases (flag nodes i)) [
    | inl boundary ↦
        rw
          (
            flag-ok nodes i h.0,
            ◌>>=◌,
            boundary,
            ◌>>=◌,
            roots-map is dsu root h.1 r b,
            b i h.0 boundary,
            roots,
          )
          refl
    | inr op ↦
        let (new, e, r') = find-Roots (length nodes) i dsu root r h.0 in
        rw (flag-ok nodes i h.0, ◌>>=◌, op, e, ◌>>=◌, roots-map is new root h.1 r' b, roots) refl
  ]

  root-own :
      (x : ℕ) (dsu : Dsu) (root : ℕ → ℕ)
      → Roots (length nodes) dsu root
      → x < length nodes
      → root (root x) ≡ root x
  root-own x dsu root r lt =
      let le = Root-le dsu (root x) x (r.way x lt) in
      Root-unique dsu (root (root x)) (root x) (root x) (r.way (root x) (omega arith))
        (top (Root-ends dsu (root x) x (r.way x lt)))

  root-boundary :
      (dsu : Dsu) (root : ℕ → ℕ) (i k : ℕ)
      → Roots (length nodes) dsu root
      → United nodes table marks k root
      → i < length nodes
      → flag nodes i ≡ true
      → root i ≡ i
  root-boundary dsu root i k r u lt b =
      let le = Root-le dsu (root i) i (r.way i lt) in
      elim (u.unmixed (root i) i (omega arith) lt (root-own i dsu root r lt)) [
        | inl same ↦ same
        | inr both ↦ cc both.1
      ]

  -- The list of the roots, as components.
  abbrev components_of : (ℕ → ℕ) → List ℕ
  components_of root = map root (range 0 (length nodes))

  component-at :
      (root : ℕ → ℕ) (j : ℕ) → j < length nodes → get_elem? (components_of root) j ≡ some (root j)
  component-at root j lt =
      get_elem?-map root (range 0 (length nodes)) j j
        (range-at nodes table marks 0 (length nodes) j lt ∙ ap some (omega arith))

  component-root :
      (root : ℕ → ℕ) (j c : ℕ)
      → get_elem? (components_of root) j ≡ some c
      → (j < length nodes) × (root j ≡ c)
  component-root root j c e =
      let long : length (components_of root) ≡ length nodes =
        length-map root (range 0 (length nodes))
        ∙ length-range nodes table marks 0 (length nodes) in
      let lt : j < length nodes = rw long at (get_elem?-lt (components_of root) j e) in
      (lt, some_inj.0 (sym (component-at root j lt) ∙ e))

  Top-IsHead : (root : ℕ → ℕ) (j : ℕ) → Top nodes table marks root j → IsHead (components_of root) j
  Top-IsHead root j t k c e f =
      let (lj, rj) = component-root root j c e in
      let (lk, rk) = component-root root k c f in t k lk (rk ∙ sym rj)

  United-AreComponents :
      (outputs : List ℕ) (dsu : Dsu) (root : ℕ → ℕ)
      → AreTables nodes table marks outputs
      → Roots (length nodes) dsu root
      → United nodes table marks (length nodes) root
      → AreComponents nodes outputs (components_of root)
  United-AreComponents outputs dsu root h r u = record {
    sized =
        length-map root (range 0 (length nodes)) ∙ length-range nodes table marks 0 (length nodes);
    named = λ i c e.
        (let (li, ri) = component-root root i c e in
          let le = Root-le dsu (root i) i (r.way i li) in omega arith);
    alone = λ i c n e f b.
        (let (li, ri) = component-root root i c e in
          let lc = get_elem?-lt nodes c f in
          let own : root c ≡ c =
            root-boundary dsu root c (length nodes) r u lc
              (flag-some nodes table marks c n f ∙ b) in
          elim (u.unmixed i c li lc (ri ∙ sym own)) [
            | inl same ↦ same
            | inr both ↦ cc (both.1, flag-some nodes table marks c n f)
          ]);
    used = λ i j c e n f has at to other.
        (let (li, ri) = component-root root i c at in
          let (lj, rj) = component-root root j e to in
          elim (u.kinds j lj) [
            | inl t ↦ Top-IsHead root j t
            | inr edge ↦
                let z : 0 + i ≡ i = omega arith in
                let consumer : contains (get_or table j []) i ≡ true =
                  h.consumers.rows j i ∙ (rw z at (node-uses nodes 0 j i n f has)) in
                let same : edge.c ≡ i = only_consumer edge.c i (rw edge.only at consumer) in
                absurd (other (sym ri ∙ ap root (sym same) ∙ sym edge.with_consumer ∙ rj))
          ]);
    returned = λ j out k c e f.
        (let (lj, rj) = component-root root j c e in
          elim (u.kinds j lj) [
            | inl t ↦ Top-IsHead root j t k c e f
            | inr edge ↦ cc (h.outs.marked j lj, edge.inner)
          ]);
  }

  -- The passes end with components that may be fused.
  pub comp_single_use-AreComponents :
      (outputs : List ℕ)
      → AreTables nodes table marks outputs
      → (comp : List ℕ) × (comp_single_use nodes table marks ≡ ok comp)
        × AreComponents nodes outputs comp
  unfolding comp_single_use
  comp_single_use-AreComponents outputs h =
      let size = length nodes in
      let start : (j : ℕ) → j < size → get_elem? (range 0 size) j ≡ some j =
        λ j lt. range-at nodes table marks 0 size j lt ∙ ap some (omega arith) in
      let long = length-range nodes table marks 0 size in
      let (dsu, root, e, r, u) =
        unite-United outputs size 0 (range 0 size) (λ x. x) h (omega arith)
          (record {
            is_dsu = record {
              down = λ i p q.
                  (let li = get_elem?-lt (range 0 size) i q in
                    let ip : i ≡ p = some_inj.0 (sym (start i (rw long at li)) ∙ q) in omega arith);
            };
            sized = long;
            way = λ x lt. top (start x lt);
          })
          (record {
            kinds = λ j lt. inl (λ k lk q. omega arith);
            later = λ j le lt k lk q. omega arith;
            unmixed = λ a b la lb q. inl q;
          }) in
      (
        components_of root,
        rw (e, ◌>>=◌, comp_single_use)
            (roots-map (range 0 size) dsu root (range-All 0 size size (omega arith)) r
              (λ i lt b. root-boundary dsu root i size r u lt b)),
        United-AreComponents outputs dsu root h r u,
      )
