-- ===== src/Node/Identity.antt =====
-- Keys are equal exactly when their canonical forms are the same; the laws of `with_inputs`.
use graphed_core_mvp.Base.{
  ◌≡◌, refl, ap, ◌↔◌, true, List, [], ◌∷◌, arith, Option, none, some, list_eq, ◌==◌, Decides,
}
use graphed_core_mvp.Text.{Text, text_eq}
use graphed_core_mvp.Text.Laws.{text_eq_iff}
use graphed_core_mvp.Param.Identity.{params_canon, params_eq-Decides}
use graphed_core_mvp.Node.{
  PayloadDescriptor, StageRef, input, member, StageOp, NodeKey, NodeId, source, op, reduction,
  external, stage, option_eq, descriptor_eq, ref_eq, stage_op_eq, key_eq, inputs, with_inputs,
}

-- The key with each NaN the canonical one.
unfoldable pub key_canon : NodeKey → NodeKey
key_canon (source n p) = source n (params_canon p)
key_canon (op n p is) = op n (params_canon p) is
key_canon (reduction n p is) = reduction n (params_canon p) is
key_canon (external d p is) = external d (params_canon p) is
key_canon (stage is ms) = stage is ms

option_eq_iff : (a b : Option Text) → (option_eq text_eq a b ≡ true) ↔ (a ≡ b)
option_eq_iff none none = (λ h. refl, λ h. refl)
option_eq_iff (some a) (some b) = ground (arith, text_eq_iff a b)
option_eq_iff none (some b) = (λ h. cc, λ h. cc)
option_eq_iff (some a) none = (λ h. cc, λ h. cc)

descriptor_eq_iff : (d e : PayloadDescriptor) → (descriptor_eq d e ≡ true) ↔ (d ≡ e)
unfolding descriptor_eq
descriptor_eq_iff d e = ground (
  arith,
  text_eq_iff d.kind e.kind,
  text_eq_iff d.content_hash e.content_hash,
  text_eq_iff d.framework e.framework,
  text_eq_iff d.version e.version,
  text_eq_iff d.io_schema e.io_schema,
  option_eq_iff d.preprocessing_ref e.preprocessing_ref,
)

ref_eq_iff : (r s : StageRef) → (ref_eq r s ≡ true) ↔ (r ≡ s)
unfolding ref_eq
ref_eq_iff (input i) (input j) = ground arith
ref_eq_iff (member i) (member j) = ground arith
ref_eq_iff (input i) (member j) = (λ h. cc, λ h. cc)
ref_eq_iff (member i) (input j) = (λ h. cc, λ h. cc)

refs_eq_iff : (r s : List StageRef) → (list_eq ref_eq r s ≡ true) ↔ (r ≡ s)
refs_eq_iff [] [] = (λ h. refl, λ h. refl)
refs_eq_iff [] (y ∷ s) = (λ h. cc, λ h. cc)
refs_eq_iff (x ∷ r) [] = (λ h. cc, λ h. cc)
refs_eq_iff (x ∷ r) (y ∷ s) = ground (arith, ref_eq_iff x y, refs_eq_iff r s)

pub members_eq_iff : (a b : List StageOp) → (list_eq stage_op_eq a b ≡ true) ↔ (a ≡ b)
unfolding stage_op_eq
members_eq_iff [] [] = (λ h. refl, λ h. refl)
members_eq_iff [] (y ∷ s) = (λ h. cc, λ h. cc)
members_eq_iff (x ∷ r) [] = (λ h. cc, λ h. cc)
members_eq_iff (x ∷ r) (y ∷ s) =
    ground (arith, text_eq_iff x.token y.token, refs_eq_iff x.inputs y.inputs, members_eq_iff r s)

pub ids_eq_iff : (a b : List NodeId) → (list_eq ◌==◌ a b ≡ true) ↔ (a ≡ b)
ids_eq_iff = text_eq_iff

-- `==` on keys is sameness up to the canonical NaN, so it is an equivalence relation.
pub key_eq-Decides : Decides key_eq key_canon
unfolding key_eq key_canon
key_eq-Decides (source n p) (source m q) = ground (arith, text_eq_iff n m, params_eq-Decides p q)
key_eq-Decides (op n p is) (op m q js) =
    ground (arith, text_eq_iff n m, params_eq-Decides p q, ids_eq_iff is js)
key_eq-Decides (reduction n p is) (reduction m q js) =
    ground (arith, text_eq_iff n m, params_eq-Decides p q, ids_eq_iff is js)
key_eq-Decides (external d p is) (external e q js) =
    ground (arith, descriptor_eq_iff d e, params_eq-Decides p q, ids_eq_iff is js)
key_eq-Decides (stage is ms) (stage js ns) = ground (arith, ids_eq_iff is js, members_eq_iff ms ns)
key_eq-Decides _ _ = ground arith

pub key_eq_refl : (k : NodeKey) → key_eq k k ≡ true
key_eq_refl k = (key_eq-Decides k k).1 refl

pub key_eq_sym : (a b : NodeKey) → key_eq a b ≡ key_eq b a
key_eq_sym a b = ground (arith, key_eq-Decides a b, key_eq-Decides b a)

-- Equal keys are compared alike with any other.
pub key_eq_cong : (a b c : NodeKey) → key_eq a b ≡ true → key_eq c a ≡ key_eq c b
key_eq_cong a b c h = ground (arith, key_eq-Decides a b, key_eq-Decides c a, key_eq-Decides c b)

pub inputs-key_canon : (k : NodeKey) → inputs (key_canon k) ≡ inputs k
unfolding inputs key_canon
inputs-key_canon (source n p) = refl
inputs-key_canon _ = refl

-- Equal keys have the same inputs.
pub inputs-key_eq : (a b : NodeKey) → key_eq a b ≡ true → inputs a ≡ inputs b
inputs-key_eq a b h =
    cc (inputs-key_canon a, inputs-key_canon b, ap inputs ((key_eq-Decides a b).0 h))

pub with_inputs-inputs : (k : NodeKey) → with_inputs k (inputs k) ≡ k
unfolding with_inputs inputs
with_inputs-inputs (source n p) = refl
with_inputs-inputs _ = refl

-- Two keys that are equal to a third are equal.
pub key_eq_euclid : (c a b : NodeKey) → key_eq c a ≡ true → key_eq c b ≡ true → key_eq a b ≡ true
key_eq_euclid c a b h g = ground (arith, key_eq-Decides c a, key_eq-Decides c b, key_eq-Decides a b)
