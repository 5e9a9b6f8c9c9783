-- ===== src/Tests/Nodes.antt =====
-- src/node.rs at small inputs.
use graphed_core_mvp.Base.{length, ◌≡◌, List, ◌↔◌, true, false, [], ◌∷◌, some, none}
use graphed_core_mvp.Text.{codes}
use graphed_core_mvp.Node.{
  NodeId, PayloadDescriptor, StageOp, source, op, external, stage, key_eq, token, parse_op_token,
}
use graphed_core_mvp.Node.Identity.{key_canon, key_eq-Decides}
use graphed_core_mvp.Node.Token.{
  decoded, parse_op_token-token, token-op, external_token_shared, stage_token_shared,
}
use graphed_core_mvp.Tests.Params.{cut, cut-IsParams}

token-op_example :
    (token (op (codes "gt") cut (1 ∷ [])) ≡ token (op (codes "lt") cut (2 ∷ [])))
    ↔ (key_eq (op (codes "gt") cut []) (op (codes "lt") cut []) ≡ true)
token-op_example =
    token-op (codes "gt") (codes "lt") cut cut (1 ∷ []) (2 ∷ []) cut-IsParams cut-IsParams

parse_op_token-token_example :
    parse_op_token (token (op (codes "a|b") cut (1 ∷ []))) ≡ decoded (op (codes "a|b") cut (1 ∷ []))
parse_op_token-token_example = parse_op_token-token (op (codes "a|b") cut (1 ∷ [])) cut-IsParams

abbrev pub model : PayloadDescriptor
model = record {
  kind = codes "onnx";
  content_hash = codes "h1";
  framework = codes "ort";
  version = codes "1";
  io_schema = codes "x";
  preprocessing_ref = none;
}

external_token_shared_example :
    (token (external model [] [])
      ≡ token (external (record model { preprocessing_ref = some (codes "-") }) [] []))
    × (key_eq
          (external model [] [])
          (external (record model { preprocessing_ref = some (codes "-") }) [] [])
        ≡ false)
external_token_shared_example = external_token_shared model [] []

abbrev inc : StageOp
inc = record { token = codes "op|inc"; inputs = [] }

abbrev neg : StageOp
neg = record { token = codes "op|neg"; inputs = [] }

abbrev zeroth : List NodeId
zeroth = 0 ∷ []

abbrev first : List NodeId
first = 1 ∷ []

stage_token_shared_example :
    ((token (stage zeroth (inc ∷ [])) ≡ token (stage first (neg ∷ [])))
      ↔ (length (inc ∷ []) ≡ length (neg ∷ [])))
    × ((key_eq (stage zeroth (inc ∷ [])) (stage first (neg ∷ [])) ≡ true)
        ↔ ((zeroth ≡ first) × (inc ∷ [] ≡ neg ∷ [])))
stage_token_shared_example = stage_token_shared zeroth first (inc ∷ []) (neg ∷ [])

key_eq-Decides_example :
    (key_eq (source (codes "e") cut) (op (codes "e") cut []) ≡ true)
    ↔ (key_canon (source (codes "e") cut) ≡ key_canon (op (codes "e") cut []))
key_eq-Decides_example = key_eq-Decides (source (codes "e") cut) (op (codes "e") cut [])
