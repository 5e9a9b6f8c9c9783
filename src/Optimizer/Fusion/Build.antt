-- ===== src/Optimizer/Fusion/Build.antt =====
-- The loop over the components: each one becomes a node with the value of its last node.
use graphed_core_mvp.Base.{
  ap, ◌∙◌, ℕ, suc, ◌+◌, ◌<◌, ◌≤◌, ◌≡◌, refl, sym, List, [], ◌∷◌, ◌++◌, map, arith, length,
  length-append, get_elem?, get_or, get_or-some, All, All-append, All-imp, some, none, Option-cases,
  inl, inr, ok,
}
use mathlib.Core.Option.{some_inj}
use graphed_core_mvp.Node.{NodeKey, inputs}
use graphed_core_mvp.Optimizer.{◌>>=◌, traverse}
use graphed_core_mvp.Optimizer.Values
use graphed_core_mvp.Optimizer.Values.{at_all, run-at, run-append, length-run}
use graphed_core_mvp.Store.Arena.{Chain-snoc}
use graphed_core_mvp.Optimizer.Dce.Compact.{lt-suc}
use graphed_core_mvp.Optimizer.Meaning.{run, IsOrdered}
use graphed_core_mvp.Optimizer.Holds.{
  Holds, Holds-append, Holds-last, Holds-range, at_all-Holds, traverse-ok,
}
use graphed_core_mvp.Optimizer.Engine.{lookup}
use graphed_core_mvp.Optimizer.Engine.Classes.{
  lookup_or, lookup_or-some, entry-ok, lookup-All, lookup-append_some, lookup-append_none,
  lookup-head,
}
use graphed_core_mvp.Optimizer.Fusion.{Built, reduced_index}
use graphed_core_mvp.Optimizer.Fusion.Semantics.{Semantics, IsHead}
use graphed_core_mvp.Optimizer.Fusion.Members.{index-ok}

abbrev pub key_values {ℓ} : {A : Type ℓ} → Semantics A → List NodeKey → List A
key_values s keys = run s.apply s.default [] keys

module _ {ℓ} {A : Type ℓ} (s : Semantics A) (values : List A) (comp : List ℕ) where
  -- The component `c` is in the table, with the value of the node `j`.
  abbrev pub IsDone : List NodeKey → List (ℕ × ℕ) → ℕ → ℕ → Type ℓ
  IsDone reduced table c j =
      (m : ℕ) × (lookup c table ≡ some m)
      × Holds s.default (key_values s reduced) m (get_or values j s.default)

  -- The entry of a component whose last node is before `i`.
  abbrev IsEntry : ℕ → ℕ × ℕ → Type 0
  IsEntry i e = (j : ℕ) × (j < i) × (get_elem? comp j ≡ some e.0) × IsHead comp j

  -- The components whose last node is before `i` are built.
  pub record AreBuilt (i : ℕ) (b : Built) : Type ℓ where
    pub done :
        (j c : ℕ)
        → j < i
        → get_elem? comp j ≡ some c
        → IsHead comp j
        → IsDone b.reduced b.comp_to_reduced c j
    pub entries : All (IsEntry i) b.comp_to_reduced
    pub ordered : IsOrdered b.reduced
    pub counted : b.stages + b.boundary_nodes ≡ length b.reduced
    pub few : length b.reduced ≤ i

  pub length-key_values : (keys : List NodeKey) → length (key_values s keys) ≡ length keys
  length-key_values keys = omega (arith, length-run inputs s.apply s.default [] keys)

  -- A head has a component of its own.
  head_unique :
      (j k c : ℕ)
      → get_elem? comp j ≡ some c
      → get_elem? comp k ≡ some c
      → IsHead comp j
      → IsHead comp k
      → j ≡ k
  head_unique j k c e f h g = omega (arith, h k c e f, g j c f e)

  IsEntry-none :
      (i c : ℕ) (table : List (ℕ × ℕ))
      → All (IsEntry i) table
      → get_elem? comp i ≡ some c
      → lookup c table ≡ none
  IsEntry-none i c table h e = elim (Option-cases (lookup c table)) [
    | inl f ↦ f
    | inr (v, f) ↦
        let (j, lt, g, head) = lookup-All (IsEntry i) c v table h f in
        absurd (omega (arith, head i c g e))
  ]

  IsDone-append :
      (reduced : List NodeKey) (key : NodeKey) (table added : List (ℕ × ℕ)) (c j : ℕ)
      → IsDone reduced table c j
      → IsDone (reduced ++ key ∷ []) (table ++ added) c j
  IsDone-append reduced key table added c j (m, e, v) =
      let grown = run-append inputs s.apply s.default [] reduced (key ∷ []) in
      (
        m,
        lookup-append_some c m table added e,
        rw grown (Holds-append s.default (key_values s reduced) _ m (get_or values j s.default) v),
      )

  IsEntry-later : (i : ℕ) (e : ℕ × ℕ) → IsEntry i e → IsEntry (suc i) e
  IsEntry-later i e (j, lt, f, h) = (j, omega arith, f, h)

  -- A node that is no head ends no component.
  pub skip-AreBuilt : (i : ℕ) (b : Built) → AreBuilt i b → (IsHead comp i → ⊥) → AreBuilt (suc i) b
  skip-AreBuilt i b h other = record {
    done = λ j c lt e head. elim (lt-suc j i lt) [
      | inl old ↦ h.done j c old e head
      | inr new ↦ absurd (other (rw new at head))
    ];
    entries = All-imp b.comp_to_reduced (IsEntry-later i) h.entries;
    ordered = h.ordered;
    counted = h.counted;
    few = (let f = h.few in omega arith);
  }

  -- A key with the value of the head `i` is added for its component.
  pub push-AreBuilt :
      (i c : ℕ) (b : Built) (key : NodeKey) (stages boundaries : ℕ)
      → AreBuilt i b
      → get_elem? comp i ≡ some c
      → IsHead comp i
      → All (λ j. j < length b.reduced) (inputs key)
      → s.apply key (at_all (key_values s b.reduced) s.default (inputs key))
        ≡ get_or values i s.default
      → stages + boundaries ≡ suc (b.stages + b.boundary_nodes)
      → AreBuilt (suc i) (record {
        reduced = b.reduced ++ key ∷ [];
        comp_to_reduced = b.comp_to_reduced ++ (c, length b.reduced) ∷ [];
        stages = stages;
        boundary_nodes = boundaries;
      })
  push-AreBuilt i c b key stages boundaries h e head scoped v count =
      let new : IsDone (b.reduced ++ key ∷ []) (b.comp_to_reduced ++ (c, length b.reduced) ∷ []) c
          i =
        (
          length b.reduced,
          lookup-append_none c b.comp_to_reduced _ (IsEntry-none i c b.comp_to_reduced h.entries e)
              ∙ lookup-head c (length b.reduced),
          rw
              (
                run-append inputs s.apply s.default [] b.reduced (key ∷ []),
                v,
                ← (length-key_values b.reduced),
              )
              (Holds-last s.default (key_values s b.reduced) (get_or values i s.default)),
        ) in
      record {
        done = λ j k lt f top. elim (lt-suc j i lt) [
          | inl before ↦
              IsDone-append b.reduced key b.comp_to_reduced _ k j (h.done j k before f top)
          | inr now ↦ let same : c ≡ k = some_inj.0 (sym e ∙ (rw now at f)) in rw (now, ← same) new
        ];
        entries =
            All-append (IsEntry (suc i)) b.comp_to_reduced _
              (All-imp b.comp_to_reduced (IsEntry-later i) h.entries)
              ((i, omega arith, e, head), tt);
        ordered = Chain-snoc (Values.IsScoped inputs) [] b.reduced key h.ordered scoped;
        counted = omega (arith, length-append b.reduced (key ∷ []), h.counted);
        few = omega (arith, length-append b.reduced (key ∷ []), h.few);
      }

  -- The index of the node for the component of `j`.
  abbrev pub place : List (ℕ × ℕ) → ℕ → ℕ
  place table j = lookup_or (get_or comp j 0) table

  abbrev pub IsPlaced : List NodeKey → List (ℕ × ℕ) → ℕ → Type ℓ
  IsPlaced reduced table j = (c : ℕ) × (get_elem? comp j ≡ some c) × IsDone reduced table c j

  get_or-found : (j c : ℕ) → get_elem? comp j ≡ some c → get_or comp j 0 ≡ c
  get_or-found j c e = get_or-some comp j c 0 e

  reduced_index-place :
      (reduced : List NodeKey) (table : List (ℕ × ℕ)) (j : ℕ)
      → IsPlaced reduced table j
      → (reduced_index comp table j ≡ ok (place table j))
        × Holds s.default (key_values s reduced) (place table j) (get_or values j s.default)
  reduced_index-place reduced table j (c, e, (m, f, v)) =
      let at : place table j ≡ m =
        ap (λ t. lookup_or t table) (get_or-found j c e) ∙ lookup_or-some c m table f in
      (rw (index-ok comp j c e, ◌>>=◌, entry-ok c m table f, at) refl, rw at v)

  -- The indices of placed nodes: they are found, in range, and have the values of the nodes.
  pub record PlacesEnd (reduced : List NodeKey) (table : List (ℕ × ℕ)) (is : List ℕ) : Type ℓ where
    pub found : traverse (reduced_index comp table) is ≡ ok (map (place table) is)
    pub scoped : All (λ j. j < length reduced) (map (place table) is)
    pub valued :
        at_all (key_values s reduced) s.default (map (place table) is) ≡ at_all values s.default is

  pub places-End :
      (reduced : List NodeKey) (table : List (ℕ × ℕ)) (is : List ℕ)
      → All (IsPlaced reduced table) is
      → PlacesEnd reduced table is
  places-End reduced table is h =
      let held : All
          (λ j. Holds s.default (key_values s reduced) (place table j) (get_or values j s.default))
          is =
        All-imp is (λ j p. (reduced_index-place reduced table j p).1) h in
      record {
        found =
            traverse-ok (reduced_index comp table) (place table) is
              (All-imp is (λ j p. (reduced_index-place reduced table j p).0) h);
        scoped =
            rw (length-key_values reduced) at
              (Holds-range s.default (key_values s reduced) values (place table) is held);
        valued = at_all-Holds s.default (key_values s reduced) values (place table) is held;
      }
