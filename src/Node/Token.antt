-- ===== src/Node/Token.antt =====
-- Operator tokens: what a stage member carries is decoded to the name and the parameters of the
-- fused node, and where tokens of different operators coincide.
use graphed_core_mvp.Base.{
  drop, drop-append, sym, length, false, ◌↔◌, ap, ◌≡◌, refl, true, ◌∙◌, List, [], ◌∷◌, ◌++◌, Option,
  none, some, arith, append_assoc,
}
use graphed_core_mvp.Text.Number.{display}
use graphed_core_mvp.Text.Number.RoundTrip.{display-injective}
use graphed_core_mvp.Text.{Text, codes, split3, text_eq}
use graphed_core_mvp.Text.Laws.{Lacks, split_once-append, split_once-Lacks}
use graphed_core_mvp.Param
use graphed_core_mvp.Param.{ParamMap, escape_token, unescape_token}
use graphed_core_mvp.Param.Escape.{unescape_token-escape_token, escape_token-Lacks}
use graphed_core_mvp.Param.Identity.{params_canon, token-params_canon}
use graphed_core_mvp.Node.Identity.{members_eq_iff, ids_eq_iff, key_canon, key_eq-Decides}
use graphed_core_mvp.Param.Token.{IsParams, from_token-token}
use graphed_core_mvp.Node.{
  NodeKey, with_inputs, PayloadDescriptor, StageOp, key_eq, source, external, stage, NodeId, op,
  reduction, with_params, external_prefix, token, params_from, parse_op_token,
}

-- The third part of a token with these parameters.
abbrev params_part : ParamMap → Option Text
params_part [] = none
params_part (e ∷ p) = some (Param.token (e ∷ p))

split3-with_params :
    (kind n : Text) (p : ParamMap)
    → Lacks b'|' kind
    → Lacks b'|' n
    → split3 b'|' (with_params (kind ++ b'|' ∷ n) p) ≡ (kind, some n, params_part p)
unfolding split3 with_params
split3-with_params kind n [] hk hn =
    rw (split_once-append b'|' kind n hk, split_once-Lacks b'|' n hn, split3)
split3-with_params kind n (e ∷ p) hk hn =
    let rest = Param.token (e ∷ p) in
    rw (
      append_assoc,
      split_once-append b'|' kind (n ++ b'|' ∷ rest) hk,
      split_once-append b'|' n rest hn,
      split3,
    )

params_from-part : (p : ParamMap) → IsParams p → params_from (params_part p) ≡ some (params_canon p)
unfolding params_from
params_from-part [] h = refl
params_from-part (e ∷ p) h = from_token-token (e ∷ p) h

-- The token of an op is decoded to its name and its parameters, with each NaN the canonical one.
pub parse_op_token-op :
    (n : Text) (p : ParamMap) (is : List NodeId)
    → IsParams p
    → parse_op_token (token (op n p is)) ≡ some (codes "op", n, params_canon p)
unfolding parse_op_token token
parse_op_token-op n p is h = rw (
  split3-with_params (codes "op") (escape_token n) p (omega arith) (escape_token-Lacks n).2,
  params_from-part p h,
  unescape_token-escape_token n,
  parse_op_token,
)

pub parse_op_token-reduction :
    (n : Text) (p : ParamMap) (is : List NodeId)
    → IsParams p
    → parse_op_token (token (reduction n p is)) ≡ some (codes "red", n, params_canon p)
unfolding parse_op_token token
parse_op_token-reduction n p is h = rw (
  split3-with_params (codes "red") (escape_token n) p (omega arith) (escape_token-Lacks n).2,
  params_from-part p h,
  unescape_token-escape_token n,
  parse_op_token,
)

split3-kind : (kind r : Text) → Lacks b'|' kind → (split3 b'|' (kind ++ b'|' ∷ r)).0 ≡ kind
unfolding split3
split3-kind kind r h = rw (split_once-append b'|' kind r h, split3) (ground arith)

-- Only `op` and `red` are decoded.
parse_op_token-none :
    (t : Text)
    → text_eq (split3 b'|' t).0 (codes "op") ≡ false
    → text_eq (split3 b'|' t).0 (codes "red") ≡ false
    → parse_op_token t ≡ none
unfolding parse_op_token
parse_op_token-none t h g = ground arith

-- A token that goes on after its kind and its bar, whatever the parameters.
with_params-cons :
    (kind r : Text) (p : ParamMap)
    → (s : Text) × (with_params (kind ++ b'|' ∷ r) p ≡ kind ++ b'|' ∷ s)
unfolding with_params
with_params-cons kind r [] = (r, refl)
with_params-cons kind r (e ∷ p) = (r ++ b'|' ∷ Param.token (e ∷ p), rw append_assoc)

parse_op_token-kind :
    (kind r : Text) (p : ParamMap)
    → Lacks b'|' kind
    → text_eq kind (codes "op") ≡ false
    → text_eq kind (codes "red") ≡ false
    → parse_op_token (with_params (kind ++ b'|' ∷ r) p) ≡ none
parse_op_token-kind kind r p h o d =
    let (s, e) = with_params-cons kind r p in
    let k = split3-kind kind s h in rw e (parse_op_token-none (kind ++ b'|' ∷ s) (rw k o) (rw k d))

-- What a stage member that was fused from the node stands for: nothing but an op or a reduction
-- is ever decoded.
unfoldable pub decoded : NodeKey → Option (Text × Text × ParamMap)
decoded (op n p is) = some (codes "op", n, params_canon p)
decoded (reduction n p is) = some (codes "red", n, params_canon p)
decoded _ = none

-- The parameters of a node, none for a stage.
abbrev pub params : NodeKey → ParamMap
params (source n p) = p
params (op n p is) = p
params (reduction n p is) = p
params (external d p is) = p
params (stage is ms) = []

-- `parse_op_token` inverts `token` on ops and reductions, up to the canonical NaN, and gives
-- `none` for the token of a source, an external node or a stage.
pub parse_op_token-token :
    (k : NodeKey) → IsParams (params k) → parse_op_token (token k) ≡ decoded k
unfolding token decoded external_prefix with_params
parse_op_token-token (source n p) h =
    parse_op_token-kind (codes "src") (escape_token n) p (omega arith) refl refl
parse_op_token-token (op n p is) h = parse_op_token-op n p is h
parse_op_token-token (reduction n p is) h = parse_op_token-reduction n p is h
parse_op_token-token (external d p is) h =
    parse_op_token-kind (codes "ext") _ p (omega arith) refl refl
parse_op_token-token (stage is ms) h =
    parse_op_token-kind (codes "stage") (display (length ms)) [] (omega arith) refl refl

decoded-injective :
    (n m : Text) (p q : ParamMap) (is js : List NodeId)
    → decoded (op n p is) ≡ decoded (op m q js)
    → key_canon (op n p []) ≡ key_canon (op m q [])
unfolding key_canon decoded
decoded-injective n m p q is js h = ground arith

pub with_params-params_canon :
    (t : Text) (p : ParamMap) → with_params t (params_canon p) ≡ with_params t p
unfolding with_params
with_params-params_canon t [] = refl
with_params-params_canon t (e ∷ p) = rw (token-params_canon (e ∷ p))

token-key_canon : (k : NodeKey) → token (key_canon k) ≡ token k
unfolding token key_canon
token-key_canon (source n p) = with_params-params_canon _ p
token-key_canon (op n p is) = with_params-params_canon _ p
token-key_canon (reduction n p is) = with_params-params_canon _ p
token-key_canon (external d p is) = with_params-params_canon _ p
token-key_canon (stage is ms) = refl

token-op_inputs :
    (n : Text) (p : ParamMap) (is js : List NodeId) → token (op n p is) ≡ token (op n p js)
unfolding token
token-op_inputs n p is js = refl

-- Equal keys have one token.
pub token-key_eq : (a b : NodeKey) → key_eq a b ≡ true → token a ≡ token b
token-key_eq a b h = cc (token-key_canon a, token-key_canon b, ap token ((key_eq-Decides a b).0 h))

-- The token does not depend on the inputs.
pub token-with_inputs : (k : NodeKey) (is : List NodeId) → token (with_inputs k is) ≡ token k
unfolding token with_inputs
token-with_inputs (source n p) is = refl
token-with_inputs _ is = refl

-- Two ops have one token exactly when they agree in all but their inputs.
pub token-op :
    (n m : Text) (p q : ParamMap) (is js : List NodeId)
    → IsParams p
    → IsParams q
    → (token (op n p is) ≡ token (op m q js)) ↔ (key_eq (op n p []) (op m q []) ≡ true)
token-op n m p q is js hp hq = (
  λ e. (key_eq-Decides (op n p []) (op m q [])).1 (
      decoded-injective n m p q is js (
        cc (
          parse_op_token-token (op n p is) hp,
          parse_op_token-token (op m q js) hq,
          ap parse_op_token e,
        ))),
  λ e.
      token-op_inputs n p is []
      ∙ token-key_eq (op n p []) (op m q []) e
      ∙ token-op_inputs m q [] js,
)

-- An external node that has no preprocessing reference and one whose reference is `-` are
-- different keys with one token.
pub external_token_shared :
    (d : PayloadDescriptor) (p : ParamMap) (is : List NodeId)
    → (token (external (record d { preprocessing_ref = none }) p is)
        ≡ token (external (record d { preprocessing_ref = some (codes "-") }) p is))
      × (key_eq
            (external (record d { preprocessing_ref = none }) p is)
            (external (record d { preprocessing_ref = some (codes "-") }) p is)
          ≡ false)
unfolding token external_prefix key_eq
external_token_shared d p is = (refl, ground arith)

stage_token-length :
    (is js : List NodeId) (ms ns : List StageOp)
    → token (stage is ms) ≡ token (stage js ns)
    → length ms ≡ length ns
unfolding token
stage_token-length is js ms ns e = display-injective (length ms) (length ns) (
    sym (drop-append (codes "stage|") (display (length ms)))
    ∙ ap (drop (length (codes "stage|"))) e
    ∙ drop-append (codes "stage|") (display (length ns)))

token-stage_length :
    (is js : List NodeId) (ms ns : List StageOp)
    → length ms ≡ length ns
    → token (stage is ms) ≡ token (stage js ns)
unfolding token
token-stage_length is js ms ns h = rw h

-- Two stages have one token exactly when they have equally many members, and are equal keys only
-- when their inputs and their members agree.
pub stage_token_shared :
    (is js : List NodeId) (ms ns : List StageOp)
    → ((token (stage is ms) ≡ token (stage js ns)) ↔ (length ms ≡ length ns))
      × ((key_eq (stage is ms) (stage js ns) ≡ true) ↔ ((is ≡ js) × (ms ≡ ns)))
unfolding key_eq
stage_token_shared is js ms ns = (
  (stage_token-length is js ms ns, token-stage_length is js ms ns),
  ground (arith, ids_eq_iff is js, members_eq_iff ms ns),
)
