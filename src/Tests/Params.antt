-- ===== src/Tests/Params.antt =====
-- src/param.rs at small inputs.
use graphed_core_mvp.Text.Number.{
  parse_i64, hex_from, display_hex, display_from, display, display_i64,
}
use graphed_core_mvp.Base.{◌≡◌, refl, ◌↔◌, true, List, [], ◌∷◌, some, none, arith, pos, negsuc}
use graphed_core_mvp.Text.{split_once, split, replace, join, Text, codes, text_le}
use graphed_core_mvp.Param.{
  float_key, ParamMap, Entry, int, float, boolean, str, escape_token, unescape_token, value_token,
  value_from_token, value_eq, value_hash, params_eq, new, token, from_token,
}
use graphed_core_mvp.Param.Escape.{unescape_token-escape_token}
use graphed_core_mvp.Param.Identity.{value_hash-value_eq, params_canon}
use graphed_core_mvp.Param.Sorted.{IsSorted, with_key, new_stable}
use graphed_core_mvp.Param.Token.{IsParams, from_token-token, token-injective}

abbrev pub cut : ParamMap
cut =
    (codes "k", int (negsuc 4))
    ∷ (codes "side", str (codes "a;b"))
    ∷ (codes "thr", float 0x3ff0_0000_0000_0000)
    ∷ []

pub cut-IsParams : IsParams cut
unfolding text_le
cut-IsParams = ((refl, (refl, (tt, tt))), (omega arith, (tt, (omega arith, tt))))

-- The NaN of a quiet bit pattern, and one with its sign set.
abbrev nan : ParamMap
nan = (codes "v", float 0x7ff8_0000_0000_0000) ∷ []

abbrev minus_nan : ParamMap
minus_nan = (codes "v", float 0xfff8_0000_0000_0001) ∷ []

nan-IsParams : IsParams nan × IsParams minus_nan
nan-IsParams = omega arith

token-cut : token cut ≡ codes "k=i-5;side=sa%3Bb;thr=f3ff0000000000000"
unfolding token value_token escape_token join replace display_i64 display display_from display_hex
    hex_from float_key
token-cut = refl

escape_twice : escape_token (codes "%3B|") ≡ codes "%253B%7C"
unfolding escape_token replace
escape_twice = refl

malformed : from_token (codes "a;b=i1") ≡ none
unfolding from_token value_from_token split split_once
malformed = refl

overflow : value_from_token (codes "i9223372036854775808") ≡ none
unfolding value_from_token parse_i64
overflow = refl

lowest : value_from_token (codes "i-9223372036854775808") ≡ some (int (negsuc 9223372036854775807))
unfolding value_from_token parse_i64
lowest = refl

unescape_token-escape_token_example :
    unescape_token (escape_token (codes "a=%3B;b|c")) ≡ codes "a=%3B;b|c"
unescape_token-escape_token_example = unescape_token-escape_token (codes "a=%3B;b|c")

from_token-token_example : from_token (token cut) ≡ some (params_canon cut)
from_token-token_example = from_token-token cut cut-IsParams

token-injective_example : (token nan ≡ token minus_nan) ↔ (params_eq nan minus_nan ≡ true)
token-injective_example = token-injective nan minus_nan nan-IsParams.0 nan-IsParams.1

value_hash-value_eq_example :
    value_hash (float 0x7ff8_0000_0000_0000) ≡ value_hash (float 0xfff8_0000_0000_0001)
unfolding value_eq float_key
value_hash-value_eq_example =
    value_hash-value_eq (float 0x7ff8_0000_0000_0000) (float 0xfff8_0000_0000_0001) refl

abbrev unsorted : List Entry
unsorted = (codes "b", int (pos 1)) ∷ (codes "a", int (pos 2)) ∷ (codes "b", boolean true) ∷ []

new_stable_example :
    IsSorted (new unsorted) × ((k : Text) → with_key k (new unsorted) ≡ with_key k unsorted)
new_stable_example = new_stable unsorted
