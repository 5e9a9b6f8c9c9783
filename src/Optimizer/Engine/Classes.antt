-- ===== src/Optimizer/Engine/Classes.antt =====
-- The tables of `canonicalize`: the first node of each class, and the new index of each class.
use graphed_core_mvp.Base.{
  ap, ◌∙◌, ℕ, zero, suc, ◌+◌, ◌<◌, ◌≤◌, ◌≡◌, refl, List, [], ◌∷◌, ◌++◌, arith, get_elem?, All,
  All-append, All-imp, Option, some, none, Option-cases, ◌==◌, ==_iff, Bool-cases, inl, inr, Result,
  ok, err,
}
use mathlib.Core.Option.{some_inj}
use graphed_core_mvp.Optimizer.{Halt, panic}
use graphed_core_mvp.Optimizer.Engine.{lookup, entry, rep_of_class}

-- What holds of all entries holds of the one that is found.
pub lookup-All {ℓ} :
    (Q : ℕ × ℕ → Type ℓ) (c v : ℕ) (table : List (ℕ × ℕ))
    → All Q table
    → lookup c table ≡ some v
    → Q (c, v)
lookup-All Q c v [] h e = cc
lookup-All Q c v ((k, w) ∷ table) h e = elim (Bool-cases (k == c)) [
  | inl same ↦
      let kc : k ≡ c = (==_iff k c).0 same in
      let wv : w ≡ v = some_inj.0 (rw (same, lookup) at e) in rw (← kc, ← wv) h.0
  | inr other ↦ lookup-All Q c v table h.1 (rw (other, lookup) at e)
]

pub lookup-append_some :
    (c v : ℕ) (table more : List (ℕ × ℕ))
    → lookup c table ≡ some v
    → lookup c (table ++ more) ≡ some v
lookup-append_some c v [] more h = cc
lookup-append_some c v ((k, w) ∷ table) more h = ground (arith, lookup-append_some c v table more)

pub lookup-append_none :
    (c : ℕ) (table more : List (ℕ × ℕ))
    → lookup c table ≡ none
    → lookup c (table ++ more) ≡ lookup c more
lookup-append_none c [] more h = refl
lookup-append_none c ((k, w) ∷ table) more h = ground (arith, lookup-append_none c table more)

pub lookup-head : (c v : ℕ) → lookup c ((c, v) ∷ []) ≡ some v
lookup-head c v = ground arith

pub entry-ok : (c v : ℕ) (table : List (ℕ × ℕ)) → lookup c table ≡ some v → entry table c ≡ ok v
entry-ok c v table h =
    ap (λ (o : Option ℕ). elim o as (λ z. Result Halt ℕ) [ some w ↦ ok w | none ↦ err panic ]) h

rep_of_class-some :
    (i : ℕ) (cs : List ℕ) (table : List (ℕ × ℕ)) (c r : ℕ)
    → lookup c table ≡ some r
    → lookup c (rep_of_class i cs table) ≡ some r
unfolding rep_of_class
rep_of_class-some i [] table c r h = h
rep_of_class-some i (k ∷ cs) table c r h = elim (Option-cases (lookup k table)) [
  | inr (s, e) ↦ rw (e, rep_of_class) (rep_of_class-some (suc i) cs table c r h)
  | inl e ↦
      rw (e, rep_of_class)
        (rep_of_class-some (suc i) cs (table ++ (k, i) ∷ []) c r (lookup-append_some c r table _ h))
]

pub rep_of_class-All {ℓ} :
    (Q : ℕ × ℕ → Type ℓ) (i : ℕ) (cs : List ℕ) (table : List (ℕ × ℕ))
    → All Q table
    → ((n c : ℕ) → get_elem? cs n ≡ some c → Q (c, i + n))
    → All Q (rep_of_class i cs table)
unfolding rep_of_class
rep_of_class-All Q i [] table h f = h
rep_of_class-All Q i (k ∷ cs) table h f =
    let later : (n c : ℕ) → get_elem? cs n ≡ some c → Q (c, suc i + n) =
      λ n c e. (let s : i + suc n ≡ suc i + n = omega arith in rw s at (f (suc n) c e)) in
    elim (Option-cases (lookup k table)) [
      | inr (s, e) ↦ rw (e, rep_of_class) (rep_of_class-All Q (suc i) cs table h later)
      | inl e ↦
          let z : i + 0 ≡ i = omega arith in
          let here : Q (k, i) = rw z at (f 0 k refl) in
          rw (e, rep_of_class)
            (rep_of_class-All Q (suc i) cs (table ++ (k, i) ∷ [])
              (All-append Q table _ h (here, tt)) later)
    ]

-- A node's class has a first node, which is not after the node.
pub rep_of_class-le :
    (i : ℕ) (cs : List ℕ) (table : List (ℕ × ℕ)) (n c : ℕ)
    → All (λ (e : ℕ × ℕ). e.1 < i) table
    → get_elem? cs n ≡ some c
    → (r : ℕ) × (lookup c (rep_of_class i cs table) ≡ some r) × (r ≤ i + n)
unfolding rep_of_class
rep_of_class-le i [] table n c h f = cc
rep_of_class-le i (k ∷ cs) table zero c h f =
    let same : k ≡ c = some_inj.0 f in
    elim (Option-cases (lookup k table)) [
      | inr (s, e) ↦
          let lt = lookup-All (λ (e : ℕ × ℕ). e.1 < i) k s table h e in
          (
            s,
            rw (e, rep_of_class) (rep_of_class-some (suc i) cs table c s (rw same at e)),
            omega arith,
          )
      | inl e ↦ (
        i,
        rw (e, rep_of_class)
            (rep_of_class-some (suc i) cs (table ++ (k, i) ∷ []) c i
              (rw (← same) (lookup-append_none k table _ e ∙ lookup-head k i))),
        omega arith,
      )
    ]
rep_of_class-le i (k ∷ cs) table (suc n) c h f = elim (Option-cases (lookup k table)) [
  | inr (s, e) ↦
      let (r, g, le) =
        rep_of_class-le (suc i) cs table n c (All-imp table (λ e l. omega arith) h) f in
      (r, rw (e, rep_of_class) g, omega arith)
  | inl e ↦
      let (r, g, le) =
        rep_of_class-le (suc i) cs (table ++ (k, i) ∷ []) n c
          (All-append (λ (e : ℕ × ℕ). e.1 < suc i) table _ (All-imp table (λ e l. omega arith) h)
            (omega arith, tt))
          f in
      (r, rw (e, rep_of_class) g, omega arith)
]

-- The new index of a class, 0 if it has none.
abbrev pub lookup_or : ℕ → List (ℕ × ℕ) → ℕ
lookup_or c table = elim (lookup c table) [ some m ↦ m | none ↦ 0 ]

pub lookup_or-some :
    (c m : ℕ) (table : List (ℕ × ℕ)) → lookup c table ≡ some m → lookup_or c table ≡ m
lookup_or-some c m table h = ap (λ (o : Option ℕ). elim o as (λ z. ℕ) [ some w ↦ w | none ↦ 0 ]) h
