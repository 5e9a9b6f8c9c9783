-- ===== src/Param/Token.antt =====
-- Tokens of values and maps: what was written is read back, up to the canonical form, so that
-- tokens identify maps exactly as equality does.
use graphed_core_mvp.Base.{
  ◌≡◌, refl, ap, ◌∙◌, ◌≢◌, ◌↔◌, ◌^◌, ◌<◌, true, false, List, [], ◌∷◌, ◌++◌, map, some, arith, IsI64,
  All, All-append, ◌>>=◌, inl,
}
use graphed_core_mvp.Text.{Text, split, join}
use graphed_core_mvp.Text.Laws.{Lacks, split_once-append, split-join}
use graphed_core_mvp.Text.Number.RoundTrip.{parse_i64-display_i64, parse_hex-display_hex}
use graphed_core_mvp.Text.Number.Digits.{display_i64-Lacks, display_hex-Lacks}
use graphed_core_mvp.Param.{
  ParamValue, int, float, boolean, str, float_key, escape_token, value_token, value_from_token,
  Entry, ParamMap, params_eq, new, entry_token, token, entries_from, from_token,
}
use graphed_core_mvp.Param.Escape.{unescape_token-escape_token, escape_token-Lacks}
use graphed_core_mvp.Param.Identity.{
  value_canon, params_canon, float_key-lt, params_eq-Decides, token-params_canon,
}
use graphed_core_mvp.Param.Sorted.{IsSorted, new_of_IsSorted, params_canon-IsSorted}

-- The payload is in the range of its Rust type.
abbrev pub IsValue : ParamValue → Type 0
IsValue (int a) = IsI64 a
IsValue (float a) = a < 2 ^ 64
IsValue (boolean b) = Unit
IsValue (str s) = Unit

abbrev pub IsEntry : Entry → Type 0
IsEntry e = IsValue e.1

-- A map as `new` builds it from values that Rust can hold.
abbrev pub IsParams : ParamMap → Type 0
IsParams p = IsSorted p × All IsEntry p

-- A value is read back from its token, with each NaN the canonical one.
pub value_from_token-value_token :
    (v : ParamValue) → IsValue v → value_from_token (value_token v) ≡ some (value_canon v)
unfolding value_from_token value_token value_canon
value_from_token-value_token (int a) h = rw (parse_i64-display_i64 a h)
value_from_token-value_token (float a) h =
    rw (parse_hex-display_hex (float_key a) (float_key-lt a h))
value_from_token-value_token (boolean true) h = refl
value_from_token-value_token (boolean false) h = refl
value_from_token-value_token (str s) h = rw (unescape_token-escape_token s)

value_token-Lacks : (v : ParamValue) → Lacks b';' (value_token v)
unfolding value_token
value_token-Lacks (int a) = (omega arith, display_i64-Lacks b';' (omega arith) a)
value_token-Lacks (float a) =
    (omega arith, display_hex-Lacks b';' (omega arith) (float_key a) (inl (omega arith)))
value_token-Lacks (boolean true) = omega arith
value_token-Lacks (boolean false) = omega arith
value_token-Lacks (str s) = (omega arith, (escape_token-Lacks s).0)

entry_token-Lacks : (e : Entry) → Lacks b';' (entry_token e)
unfolding entry_token
entry_token-Lacks (k, v) =
    All-append (λ x. x ≢ b';') (escape_token k) (b'=' ∷ value_token v) (escape_token-Lacks k).0
      (omega arith, value_token-Lacks v)

entries_token-Lacks : (p : ParamMap) → All (Lacks b';') (map entry_token p)
entries_token-Lacks [] = tt
entries_token-Lacks (e ∷ p) = (entry_token-Lacks e, entries_token-Lacks p)

entries_from-entry_token :
    (p : ParamMap) → All IsEntry p → entries_from (map entry_token p) ≡ some (params_canon p)
unfolding entries_from entry_token
entries_from-entry_token [] h = refl
entries_from-entry_token ((k, v) ∷ p) h = rw (
  split_once-append b'=' (escape_token k) (value_token v) (escape_token-Lacks k).1,
  value_from_token-value_token v h.0,
  entries_from-entry_token p h.1,
  unescape_token-escape_token k,
)

append-cons-ne {ℓ} : {A : Type ℓ} (a : List A) (c : A) (b : List A) → a ++ c ∷ b ≢ []
append-cons-ne [] c b = λ e. cc
append-cons-ne (x ∷ a) c b = λ e. cc

entry_token-ne : (e : Entry) → entry_token e ≢ []
unfolding entry_token
entry_token-ne (k, v) = append-cons-ne (escape_token k) b'=' (value_token v)

split-token : (e : Entry) (p : ParamMap) → split b';' (token (e ∷ p)) ≡ map entry_token (e ∷ p)
unfolding token
split-token e p = split-join b';' (entry_token e) (map entry_token p) (entries_token-Lacks (e ∷ p))

pub token-ne : (e : Entry) (p : ParamMap) → token (e ∷ p) ≢ []
unfolding split
token-ne e p h = entry_token-ne e (cc (split-token e p, ap (split b';') h))

from_token-ne :
    (t : Text) → t ≢ [] → from_token t ≡ (entries_from (split b';' t) >>= λ es. some (new es))
unfolding from_token
from_token-ne [] h = absurd (h refl)
from_token-ne (c ∷ t) h = refl

from_token-nil : from_token (token []) ≡ some []
unfolding from_token token join new
from_token-nil = refl

-- A map is read back from its token, with each NaN the canonical one.
pub from_token-token : (p : ParamMap) → IsParams p → from_token (token p) ≡ some (params_canon p)
from_token-token [] h = from_token-nil
from_token-token (e ∷ p) h =
    from_token-ne (token (e ∷ p)) (token-ne e p)
    ∙ rw (
      split-token e p,
      entries_from-entry_token (e ∷ p) h.1,
      new_of_IsSorted (params_canon (e ∷ p)) (params_canon-IsSorted (e ∷ p) h.0),
    )

-- Two maps have one token exactly when they are equal, so the token of a map is as good an
-- identity as the map.
pub token-injective :
    (p q : ParamMap) → IsParams p → IsParams q → (token p ≡ token q) ↔ (params_eq p q ≡ true)
token-injective p q hp hq = (
  λ e.
      (params_eq-Decides p q).1
        (cc (from_token-token p hp, from_token-token q hq, ap from_token e)),
  λ e. cc (token-params_canon p, token-params_canon q, ap token ((params_eq-Decides p q).0 e)),
)
