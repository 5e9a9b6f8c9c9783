-- ===== src/Node.antt =====
-- src/node.rs: nodes, their structural keys and their operator tokens.
pub mod Identity
pub mod Token
use graphed_core_mvp.Base.{
  ℕ, Bool, true, false, not, ◌&&◌, ◌||◌, List, [], ◌∷◌, ◌++◌, Option, none, some, length, list_eq,
  ◌==◌, if◌then◌else◌, ◌>>=◌,
}
use graphed_core_mvp.Text.{Text, codes, text_eq, split3}
use graphed_core_mvp.Text.Number.{display}
use graphed_core_mvp.Param
use graphed_core_mvp.Param.{ParamMap, params_eq, escape_token, unescape_token, from_token}

abbrev pub NodeId : Type 0
NodeId = ℕ

pub record PayloadDescriptor : Type 0 where
  pub kind : Text
  pub content_hash : Text
  pub framework : Text
  pub version : Text
  pub io_schema : Text
  pub preprocessing_ref : Option Text

pub data StageRef : Type 0 where
  input member : ℕ → StageRef

pub record StageOp : Type 0 where
  pub token : Text
  pub inputs : List StageRef

pub data NodeKey : Type 0 where
  source : Text → ParamMap → NodeKey
  op : Text → ParamMap → List NodeId → NodeKey
  reduction : Text → ParamMap → List NodeId → NodeKey
  external : PayloadDescriptor → ParamMap → List NodeId → NodeKey
  stage : List NodeId → List StageOp → NodeKey

abbrev option_eq {ℓ} : {A : Type ℓ} → (A → A → Bool) → Option A → Option A → Bool
option_eq eq none none = true
option_eq eq (some a) (some b) = eq a b
option_eq eq _ _ = false

-- The derived `PartialEq` of each type.
pub descriptor_eq : PayloadDescriptor → PayloadDescriptor → Bool
descriptor_eq d e =
    text_eq d.kind e.kind
    && text_eq d.content_hash e.content_hash
    && text_eq d.framework e.framework
    && text_eq d.version e.version
    && text_eq d.io_schema e.io_schema
    && option_eq text_eq d.preprocessing_ref e.preprocessing_ref

pub ref_eq : StageRef → StageRef → Bool
ref_eq (input i) (input j) = i == j
ref_eq (member i) (member j) = i == j
ref_eq _ _ = false

pub stage_op_eq : StageOp → StageOp → Bool
unfolding ref_eq
stage_op_eq a b = text_eq a.token b.token && list_eq ref_eq a.inputs b.inputs

unfoldable pub key_eq : NodeKey → NodeKey → Bool
unfolding descriptor_eq stage_op_eq
key_eq (source n p) (source m q) = text_eq n m && params_eq p q
key_eq (op n p is) (op m q js) = text_eq n m && params_eq p q && list_eq ◌==◌ is js
key_eq (reduction n p is) (reduction m q js) = text_eq n m && params_eq p q && list_eq ◌==◌ is js
key_eq (external d p is) (external e q js) =
    descriptor_eq d e && params_eq p q && list_eq ◌==◌ is js
key_eq (stage is ms) (stage js ns) = list_eq ◌==◌ is js && list_eq stage_op_eq ms ns
key_eq _ _ = false

unfoldable pub inputs : NodeKey → List NodeId
inputs (source n p) = []
inputs (op n p is) = is
inputs (reduction n p is) = is
inputs (external d p is) = is
inputs (stage is ms) = is

unfoldable pub is_boundary : NodeKey → Bool
is_boundary (op n p is) = false
is_boundary _ = true

unfoldable pub with_inputs : NodeKey → List NodeId → NodeKey
with_inputs (source n p) new_inputs = source n p
with_inputs (op n p is) new_inputs = op n p new_inputs
with_inputs (reduction n p is) new_inputs = reduction n p new_inputs
with_inputs (external d p is) new_inputs = external d p new_inputs
with_inputs (stage is ms) new_inputs = stage new_inputs ms

unfoldable pub with_params : Text → ParamMap → Text
with_params prefix [] = prefix
with_params prefix (e ∷ p) = prefix ++ b'|' ∷ Param.token (e ∷ p)

-- `preprocessing_ref.as_deref().unwrap_or("-")`
abbrev pub ref_or_dash : Option Text → Text
ref_or_dash none = codes "-"
ref_or_dash (some s) = s

unfoldable pub external_prefix : PayloadDescriptor → Text
external_prefix d =
    codes "ext|"
    ++ (d.kind
        ++ b'|'
          ∷ (d.content_hash
              ++ b'|'
                ∷ (d.framework
                    ++ b'|'
                      ∷ (d.version
                          ++ b'|' ∷ (d.io_schema ++ b'|' ∷ ref_or_dash d.preprocessing_ref)))))

unfoldable pub token : NodeKey → Text
token (source n p) = with_params (codes "src|" ++ escape_token n) p
token (op n p is) = with_params (codes "op|" ++ escape_token n) p
token (reduction n p is) = with_params (codes "red|" ++ escape_token n) p
token (external d p is) = with_params (external_prefix d) p
token (stage is ms) = codes "stage|" ++ display (length ms)

-- The parameters of a token: none if there is no third part.
params_from : Option Text → Option ParamMap
params_from none = some []
params_from (some p) = from_token p

unfoldable pub parse_op_token : Text → Option (Text × Text × ParamMap)
unfolding params_from
parse_op_token t =
    let (kind, name, params) = split3 b'|' t in
    if not (text_eq kind (codes "op")) && not (text_eq kind (codes "red"))
    then none
    else (do n ← name; p ← params_from params; some (kind, unescape_token n, p))
