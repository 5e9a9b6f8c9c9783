-- ===== src/Optimizer/Fusion/Sound.antt =====
-- `stage_fusion` ends, and changes no output, if the components are those of a partition.
use graphed_core_mvp.Base.{
  ◌-◌, ap, ◌∙◌, ℕ, suc, ◌+◌, ◌<◌, ◌≤◌, ◌≡◌, refl, sym, true, false, List, [], ◌∷◌, ◌++◌, map, arith,
  length, length-append, get_elem?, get_elem?-middle, get_or, All, All-imp, some, ◌⊎◌, inl, inr, ok,
  append_assoc, append-nil, Bool-cases, get_elem?-some,
}
use mathlib.Core.Option.{some_inj}
use graphed_core_mvp.Node.{stage, inputs}
use graphed_core_mvp.Optimizer.{EngineNode, EngineGraph, ◌>>=◌, traverse}
use graphed_core_mvp.Optimizer.Values.{at_all}
use graphed_core_mvp.Optimizer.Holds.{traverse-ok}
use graphed_core_mvp.Optimizer.Engine.{entry}
use graphed_core_mvp.Optimizer.Stages.{members_of, among, heads}
use graphed_core_mvp.Optimizer.Fusion.{Templates, Built, enumerate_from, build_comp, build_all}
use graphed_core_mvp.Optimizer.Fusion.Semantics.{Semantics, IsHead, last_or, member_values}
use graphed_core_mvp.Optimizer.Fusion.Places.{members_of-last, among-some, among-none}
use graphed_core_mvp.Optimizer.Fusion.Members.{index-ok, stage_ops-End}
use graphed_core_mvp.Optimizer.Fusion.Build.{
  length-key_values, key_values, AreBuilt, push-AreBuilt, skip-AreBuilt,
}
use graphed_core_mvp.Optimizer.Engine.Classes.{lookup_or, lookup_or-some, entry-ok}
use graphed_core_mvp.Optimizer.Fusion.Loop.{
  IsReady, StepEnds, boundary-Ends, ops-AreMembers, values,
}

All-map {ℓ κ μ} :
    {A : Type ℓ} {B : Type κ} (P : B → Type μ) (f : A → B) (xs : List A)
    → All (λ x. P (f x)) xs
    → All P (map f xs)
All-map P f [] h = tt
All-map P f (x ∷ xs) h = (h.0, All-map P f xs h.1)

at_all-map {ℓ} :
    {A : Type ℓ} (ws : List A) (d : A) (f : ℕ → ℕ) (is : List ℕ)
    → map (λ i. get_or ws (f i) d) is ≡ at_all ws d (map f is)
at_all-map ws d f [] = refl
at_all-map ws d f (i ∷ is) = ap (λ t. get_or ws (f i) d ∷ t) (at_all-map ws d f is)

last_or-at_all {ℓ} :
    {A : Type ℓ} (vs : List A) (d e : A) (is : List ℕ) (i : ℕ)
    → last_or e (at_all vs d (is ++ i ∷ [])) ≡ get_or vs i d
last_or-at_all vs d e [] i = refl
last_or-at_all vs d e (j ∷ is) i = last_or-at_all vs d (get_or vs j d) is i

get_elem?-behind :
    (pre ys : List ℕ) (n : ℕ) → get_elem? (pre ++ ys) (length pre + n) ≡ get_elem? ys n
get_elem?-behind [] ys n = let z : 0 + n ≡ n = omega arith in ap (get_elem? ys) z
get_elem?-behind (x ∷ pre) ys n =
    let z : suc (length pre) + n ≡ suc (length pre + n) = omega arith in
    ap (get_elem? (x ∷ pre ++ ys)) z ∙ get_elem?-behind pre ys n

lt_or_ge : (a b : ℕ) → (a < b) ⊎ (b ≤ a)
lt_or_ge a b = ground arith

-- The last node of a component is the one whose component does not come again.
IsHead-last :
    (pre rest : List ℕ) (c : ℕ) → among c rest ≡ false → IsHead (pre ++ c ∷ rest) (length pre)
IsHead-last pre rest c last k e at to = elim (lt_or_ge (length pre) k) [
  | inr le ↦ le
  | inl lt ↦
      let m = k - suc (length pre) in
      let z : length pre + suc m ≡ k = omega arith in
      let same : c ≡ e = some_inj.0 (sym (get_elem?-middle pre c rest) ∙ at) in
      let later : get_elem? rest m ≡ some c =
        sym (get_elem?-behind pre (c ∷ rest) (suc m)) ∙ (rw z to) ∙ ap some (sym same) in
      absurd (among-none c rest m last later)
]

IsHead-not_last :
    (pre rest : List ℕ) (c : ℕ) → among c rest ≡ true → IsHead (pre ++ c ∷ rest) (length pre) → ⊥
IsHead-not_last pre rest c more head =
    let (k, e) = among-some c rest more in
    omega (
      arith,
      head (length pre + suc k) c (get_elem?-middle pre c rest)
          (get_elem?-behind pre (c ∷ rest) (suc k) ∙ e),
    )

module _ {ℓ} {A : Type ℓ} (s : Semantics A) (graph : EngineGraph) (templates : Templates)
    (comp : List ℕ) where
  -- A component of ops becomes a stage with its members.
  op-Ends :
      (pre rest : List ℕ) (c : ℕ) (n : EngineNode) (b : Built)
      → IsReady s graph templates comp
      → AreBuilt s (values s graph templates comp) comp (length pre) b
      → comp ≡ pre ++ c ∷ rest
      → among c rest ≡ false
      → IsHead comp (length pre)
      → get_elem? graph.nodes c ≡ some n
      → n.boundary ≡ false
      → StepEnds s graph templates comp (suc (length pre)) (build_comp graph templates comp c b)
  unfolding build_comp inputs
  op-Ends pre rest c n b h built split last head f flag =
      let i = length pre in
      let vs = values s graph templates comp in
      let ws = key_values s b.reduced in
      let table = b.comp_to_reduced in
      let ops = members_of c 0 comp in
      let at : get_elem? comp i ≡ some c = rw split (get_elem?-middle pre c rest) in
      let run =
        stage_ops-End s.tokens s.default graph.nodes comp vs ws table (enumerate_from 0 ops) [] []
          ops (ops-AreMembers s graph templates comp i c b [] ops h built at head refl) tt in
      let ins = map (λ k. lookup_or k table) run.more in
      let found : traverse (entry table) run.more ≡ ok ins =
        traverse-ok (entry table) (λ k. lookup_or k table) run.more
          (All-imp run.more
            (λ k q.
              (let (v, (m, e, g)) = q in
                entry-ok k m table e ∙ ap ok (sym (lookup_or-some k m table e))))
            run.ready) in
      let scoped : All (λ j. j < length b.reduced) ins =
        All-map (λ j. j < length b.reduced) (λ k. lookup_or k table) run.more
          (All-imp run.more
            (λ k q.
              (let (v, (m, e, g)) = q in
                rw (lookup_or-some k m table e, ← (length-key_values s vs comp b.reduced)) g.0))
            run.ready) in
      let ends_at : members_of c 0 comp ≡ members_of c 0 pre ++ i ∷ [] =
        ap (members_of c 0) split
        ∙ members_of-last c 0 pre rest last
        ∙ ap (λ t. members_of c 0 pre ++ t ∷ []) (omega arith) in
      let v : s.apply (stage ins run.members) (at_all ws s.default (inputs (stage ins run.members)))
          ≡ get_or vs i s.default =
        s.stages ins run.members (at_all ws s.default ins)
        ∙ ap (λ t. last_or s.default (member_values s.tokens s.default t [] run.members))
            (sym (at_all-map ws s.default (λ k. lookup_or k table) run.more))
        ∙ ap (last_or s.default) (rw append-nil at (run.valued []))
        ∙ ap (λ t. last_or s.default (at_all vs s.default t)) ends_at
        ∙ last_or-at_all vs s.default s.default (members_of c 0 pre) i in
      (
        _,
        rw (index-ok graph.nodes c n f, ◌>>=◌, flag, run.ends, ◌>>=◌, found, build_comp) refl,
        push-AreBuilt s vs comp i c b (stage ins run.members) (suc b.stages) b.boundary_nodes built
            at head scoped v (omega arith),
      )

  step-Ends :
      (pre rest : List ℕ) (c : ℕ) (b : Built)
      → IsReady s graph templates comp
      → AreBuilt s (values s graph templates comp) comp (length pre) b
      → comp ≡ pre ++ c ∷ rest
      → among c rest ≡ false
      → IsHead comp (length pre)
      → StepEnds s graph templates comp (suc (length pre)) (build_comp graph templates comp c b)
  step-Ends pre rest c b h built split last head =
      let at : get_elem? comp (length pre) ≡ some c = rw split (get_elem?-middle pre c rest) in
      let (n, f) = get_elem?-some graph.nodes c (h.parts.named (length pre) c at) in
      elim (Bool-cases n.boundary) [
        | inl flag ↦ boundary-Ends s graph templates comp (length pre) c n b h built at head f flag
        | inr flag ↦ op-Ends pre rest c n b h built split last head f flag
      ]

  pub build_all-Ends :
      (pre rest : List ℕ) (b : Built)
      → IsReady s graph templates comp
      → AreBuilt s (values s graph templates comp) comp (length pre) b
      → comp ≡ pre ++ rest
      → StepEnds s graph templates comp
          (length comp)
          (build_all graph templates comp (heads rest) b)
  unfolding build_all heads
  build_all-Ends pre [] b h built split =
      (let long : length pre ≡ length comp = ap length (sym (split ∙ append-nil pre)) in
        (b, refl, rw long at built))
  build_all-Ends pre (c ∷ rest) b h built split =
      let shift : comp ≡ (pre ++ c ∷ []) ++ rest = split ∙ sym (append_assoc pre (c ∷ []) rest) in
      let more : length (pre ++ c ∷ []) ≡ suc (length pre) =
        omega (arith, length-append pre (c ∷ [])) in
      elim (Bool-cases (among c rest)) [
        | inl again ↦
            let skipped =
              skip-AreBuilt s (values s graph templates comp) comp (length pre) b built
                (λ head. IsHead-not_last pre rest c again (rw split at head)) in
            rw (again, heads)
              (build_all-Ends (pre ++ c ∷ []) rest b h (rw (← more) at skipped) shift)
        | inr last ↦
            let head : IsHead comp (length pre) = rw split (IsHead-last pre rest c last) in
            let (b', ends, next) = step-Ends pre rest c b h built split last head in
            let (b'', ends', all) =
              build_all-Ends (pre ++ c ∷ []) rest b' h (rw (← more) at next) shift in
            (b'', rw (last, ends, ◌>>=◌, heads) ends', all)
      ]
