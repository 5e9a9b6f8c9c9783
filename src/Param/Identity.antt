-- ===== src/Param/Identity.antt =====
-- Equality of values and maps is equality of canonical forms, in which each NaN is one NaN.
use graphed_core_mvp.Base.{
  ℕ, ◌≡◌, refl, ap, ◌^◌, ◌<◌, true, false, [], ◌∷◌, map, arith, int_eq_iff, list_eq-Decides,
  Decides,
}
use graphed_core_mvp.Text.Laws.{text_eq_iff}
use graphed_core_mvp.Param.{
  ParamValue, int, float, boolean, str, float_key, value_eq, value_hash, Entry, ParamMap, entry_eq,
  params_eq, value_token, entry_token, token,
}

unfoldable pub value_canon : ParamValue → ParamValue
value_canon (float a) = float (float_key a)
value_canon (int a) = int a
value_canon (boolean b) = boolean b
value_canon (str s) = str s

abbrev pub entry_canon : Entry → Entry
entry_canon (k, v) = (k, value_canon v)

abbrev pub params_canon : ParamMap → ParamMap
params_canon = map entry_canon

pub float_key_idem : (a : ℕ) → float_key (float_key a) ≡ float_key a
unfolding float_key
float_key_idem a = ground arith

pub float_key-lt : (a : ℕ) → a < 2 ^ 64 → float_key a < 2 ^ 64
unfolding float_key
float_key-lt a h = ground arith

pub value_eq-Decides : Decides value_eq value_canon
unfolding value_eq value_canon
value_eq-Decides (int a) (int b) = ground (arith, int_eq_iff a b)
value_eq-Decides (float a) (float b) = ground arith
value_eq-Decides (boolean true) (boolean true) = ground arith
value_eq-Decides (boolean true) (boolean false) = ground arith
value_eq-Decides (boolean false) (boolean true) = ground arith
value_eq-Decides (boolean false) (boolean false) = ground arith
value_eq-Decides (str a) (str b) = ground (arith, text_eq_iff a b)
value_eq-Decides _ _ = ground arith

pub entry_eq-Decides : Decides entry_eq entry_canon
unfolding entry_eq
entry_eq-Decides (k, v) (l, w) = ground (arith, text_eq_iff k l, value_eq-Decides v w)

-- Two maps are equal exactly when their canonical forms are the same.
pub params_eq-Decides : Decides params_eq params_canon
unfolding params_eq
params_eq-Decides = list_eq-Decides entry_eq entry_canon entry_eq-Decides

value_hash-value_canon : (v : ParamValue) → value_hash (value_canon v) ≡ value_hash v
unfolding value_hash value_canon
value_hash-value_canon (float a) = rw float_key_idem
value_hash-value_canon _ = refl

-- Equal values feed the hasher the same words, as a hash table needs.
pub value_hash-value_eq : (v w : ParamValue) → value_eq v w ≡ true → value_hash v ≡ value_hash w
value_hash-value_eq v w h =
    cc (
      value_hash-value_canon v,
      value_hash-value_canon w,
      ap value_hash ((value_eq-Decides v w).0 h),
    )

value_token-value_canon : (v : ParamValue) → value_token (value_canon v) ≡ value_token v
unfolding value_token value_canon
value_token-value_canon (float a) = rw float_key_idem
value_token-value_canon _ = refl

entry_token-canon : (p : ParamMap) → map entry_token (params_canon p) ≡ map entry_token p
unfolding entry_token
entry_token-canon [] = refl
entry_token-canon ((k, v) ∷ p) = simp (value_token-value_canon v, entry_token-canon p)

-- The token does not tell NaNs apart.
pub token-params_canon : (p : ParamMap) → token (params_canon p) ≡ token p
unfolding token
token-params_canon p = rw (entry_token-canon p)
