-- ===== src/Optimizer/Pipeline/Keys.antt =====
-- The graph of the tokens, and the templates that lead from tokens back to keys.
use graphed_core_mvp.Base.{
  ap, ◌∙◌, ℕ, zero, suc, ◌≡◌, refl, sym, Bool, true, false, List, [], ◌∷◌, ◌++◌, arith, length,
  get_elem?, some, All, All-append, Bool-cases, inl, inr, ok,
}
use mathlib.Core.Option.{some_inj}
use graphed_core_mvp.Text.{Text, codes, text_eq, starts_with}
use graphed_core_mvp.Text.Laws.{text_eq_iff}
use graphed_core_mvp.Node.{
  NodeKey, NodeId, source, op, reduction, external, stage, inputs, with_inputs, is_boundary, token,
  with_params, external_prefix,
}
use graphed_core_mvp.Optimizer.Engine.{boundary_from_token}
use graphed_core_mvp.Optimizer.Fusion.{Templates, template}
use graphed_core_mvp.Optimizer.Pipeline.{has_token, add_templates}

-- The flag of a node is that of its token.
pub is_boundary-token : (k : NodeKey) → is_boundary k ≡ boundary_from_token (token k)
unfolding is_boundary boundary_from_token starts_with token with_params external_prefix
is_boundary-token (source n []) = refl
is_boundary-token (source n (e ∷ p)) = refl
is_boundary-token (op n [] is) = refl
is_boundary-token (op n (e ∷ p) is) = refl
is_boundary-token (reduction n [] is) = refl
is_boundary-token (reduction n (e ∷ p) is) = refl
is_boundary-token (external d [] is) = refl
is_boundary-token (external d (e ∷ p) is) = refl
is_boundary-token (stage is ms) = refl

length-nil : (xs : List ℕ) → length xs ≡ 0 → xs ≡ []
length-nil [] h = refl
length-nil (x ∷ xs) h = absurd (omega arith)

abbrev is_source : NodeKey → Bool
is_source (source n p) = true
is_source _ = false

is_source-token : (k : NodeKey) → starts_with (codes "src|") (token k) ≡ is_source k
unfolding starts_with token with_params external_prefix
is_source-token (source n []) = refl
is_source-token (source n (e ∷ p)) = refl
is_source-token (op n [] is) = refl
is_source-token (op n (e ∷ p) is) = refl
is_source-token (reduction n [] is) = refl
is_source-token (reduction n (e ∷ p) is) = refl
is_source-token (external d [] is) = refl
is_source-token (external d (e ∷ p) is) = refl
is_source-token (stage is ms) = refl

is_source-inputs : (k : NodeKey) → is_source k ≡ true → inputs k ≡ []
unfolding inputs
is_source-inputs (source n p) h = refl
is_source-inputs (op n p is) h = cc
is_source-inputs (reduction n p is) h = cc
is_source-inputs (external d p is) h = cc
is_source-inputs (stage is ms) h = cc

-- A key with the token of another takes as many inputs as that has.
pub token-takes :
    (k m : NodeKey) (ins : List NodeId)
    → token m ≡ token k
    → length ins ≡ length (inputs k)
    → inputs (with_inputs m ins) ≡ ins
unfolding inputs with_inputs
token-takes k (source n p) ins e l =
    let same : is_source k ≡ true =
      sym (is_source-token k)
      ∙ ap (starts_with (codes "src|")) (sym e)
      ∙ is_source-token (source n p) in
    sym (length-nil ins (l ∙ ap length (is_source-inputs k same)))
token-takes k (op n p is) ins e l = refl
token-takes k (reduction n p is) ins e l = refl
token-takes k (external d p is) ins e l = refl
token-takes k (stage is ms) ins e l = refl

pub token-with_inputs : (k : NodeKey) (ins : List NodeId) → token (with_inputs k ins) ≡ token k
unfolding token with_inputs
token-with_inputs (source n p) ins = refl
token-with_inputs (op n p is) ins = refl
token-with_inputs (reduction n p is) ins = refl
token-with_inputs (external d p is) ins = refl
token-with_inputs (stage is ms) ins = refl

-- Templates: what holds of all entries holds of the one that is found.
has_token-template {κ} :
    (P : Text → NodeKey → Type κ) (t : Text) (ts : Templates)
    → All (λ (e : Text × NodeKey). P e.0 e.1) ts
    → has_token t ts ≡ true
    → (k : NodeKey) × (template ts t ≡ ok k) × P t k
has_token-template P t [] h e = cc
has_token-template P t ((s, k) ∷ ts) h e = elim (Bool-cases (text_eq s t)) [
  | inl same ↦
      let st : s ≡ t = (text_eq_iff s t).0 same in (k, rw (same, template) refl, rw (← st) h.0)
  | inr other ↦
      let (m, f, p) = has_token-template P t ts h.1 (rw (other, has_token) at e) in
      (m, rw (other, template) f, p)
]

has_token-append :
    (t : Text) (ts more : Templates) → has_token t ts ≡ true → has_token t (ts ++ more) ≡ true
has_token-append t [] more h = cc
has_token-append t ((s, k) ∷ ts) more h = ground (arith, has_token-append t ts more)

has_token-last : (t : Text) (k : NodeKey) (ts : Templates) → has_token t (ts ++ (t, k) ∷ []) ≡ true
has_token-last t k [] = ground (arith, text_eq_iff t t)
has_token-last t k ((s, m) ∷ ts) = ground (arith, has_token-last t k ts)

add_templates-keep :
    (t : Text) (keys : List NodeKey) (ts : Templates)
    → has_token t ts ≡ true
    → has_token t (add_templates keys ts) ≡ true
unfolding add_templates
add_templates-keep t [] ts h = h
add_templates-keep t (k ∷ keys) ts h = elim (Bool-cases (has_token (token k) ts)) [
  | inl old ↦ rw (old, add_templates) (add_templates-keep t keys ts h)
  | inr new ↦
      rw (new, add_templates)
        (add_templates-keep t keys (ts ++ (token k, k) ∷ []) (has_token-append t ts _ h))
]

add_templates-has :
    (keys : List NodeKey) (ts : Templates) (i : ℕ) (k : NodeKey)
    → get_elem? keys i ≡ some k
    → has_token (token k) (add_templates keys ts) ≡ true
unfolding add_templates
add_templates-has [] ts i k h = cc
add_templates-has (m ∷ keys) ts zero k h =
    let mk : m ≡ k = some_inj.0 h in
    elim (Bool-cases (has_token (token m) ts)) [
      | inl old ↦ rw (old, add_templates) (add_templates-keep (token k) keys ts (rw mk at old))
      | inr new ↦
          rw (new, add_templates)
            (add_templates-keep (token k) keys (ts ++ (token m, m) ∷ [])
              (rw (← mk) (has_token-last (token m) m ts)))
    ]
add_templates-has (m ∷ keys) ts (suc i) k h = elim (Bool-cases (has_token (token m) ts)) [
  | inl old ↦ rw (old, add_templates) (add_templates-has keys ts i k h)
  | inr new ↦ rw (new, add_templates) (add_templates-has keys (ts ++ (token m, m) ∷ []) i k h)
]

add_templates-All {κ} :
    (P : Text → NodeKey → Type κ) (keys : List NodeKey) (ts : Templates)
    → All (λ k. P (token k) k) keys
    → All (λ (e : Text × NodeKey). P e.0 e.1) ts
    → All (λ (e : Text × NodeKey). P e.0 e.1) (add_templates keys ts)
unfolding add_templates
add_templates-All P [] ts h q = q
add_templates-All P (k ∷ keys) ts h q = elim (Bool-cases (has_token (token k) ts)) [
  | inl old ↦ rw (old, add_templates) (add_templates-All P keys ts h.1 q)
  | inr new ↦
      rw (new, add_templates)
        (add_templates-All P keys (ts ++ (token k, k) ∷ []) h.1
          (All-append (λ (e : Text × NodeKey). P e.0 e.1) ts _ q (h.0, tt)))
]

-- The token of a key has a template, one of the keys with that token.
pub template-found {κ} :
    (P : Text → NodeKey → Type κ) (keys : List NodeKey) (i : ℕ) (k : NodeKey)
    → All (λ m. P (token m) m) keys
    → get_elem? keys i ≡ some k
    → (m : NodeKey) × (template (add_templates keys []) (token k) ≡ ok m) × P (token k) m
template-found P keys i k h e =
    has_token-template P (token k) (add_templates keys []) (add_templates-All P keys [] h tt)
      (add_templates-has keys [] i k e)
