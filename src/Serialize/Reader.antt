-- ===== src/Serialize/Reader.antt =====
-- `Reader`: a reader is what it has not read yet, `buf[pos..]`, since nothing looks behind `pos`.
-- `pos` plus a length read from four bytes is no more than a `usize` can hold.
use Prim.Native.String.{String}
use graphed_core_mvp.Base.{
  ℕ, zero, suc, ◌+◌, ◌-◌, ◌*◌, ◌^◌, true, false, List, [], ◌∷◌, length, take, drop, get_or, ltb,
  leb, ◌==◌, if◌then◌else◌, Result, ok, err, ℤ, pos, negsuc,
}
use graphed_core_mvp.Text.{Text}
use graphed_core_mvp.Text.Utf8.{is_utf8}
use graphed_core_mvp.Param
use graphed_core_mvp.Param.{ParamValue, int, float, boolean, str, Entry, ParamMap}
use graphed_core_mvp.Node.{NodeId}
use graphed_core_mvp.Serialize.Writer.{Bytes}

pub data DecodeError : Type 0 where
  bad_magic truncated bad_utf8 : DecodeError
  bad_tag : String → ℕ → DecodeError
  bad_node_ref : ℕ → DecodeError

-- A value and what is left to read.
abbrev pub Read {ℓ} : Type ℓ → Type ℓ
Read A = Bytes → Result DecodeError (A × Bytes)

abbrev pub pure {ℓ} : {A : Type ℓ} → A → Read A
pure a bs = ok (a, bs)

abbrev pub fail {ℓ} : {A : Type ℓ} → DecodeError → Read A
fail e bs = err e

abbrev pub and_then {ℓ κ} :
    {A : Type ℓ} {B : Type κ}
    → Result DecodeError (A × Bytes)
    → (A → Read B)
    → Result DecodeError (B × Bytes)
and_then (ok (a, rest)) f = f a rest
and_then (err e) f = err e

infixl 5 ◌>>=◌
abbrev pub ◌>>=◌ {ℓ κ} : {A : Type ℓ} {B : Type κ} → Read A → (A → Read B) → Read B
(m >>= f) bs = and_then (m bs) f

unfoldable pub take_bytes : ℕ → Read Bytes
take_bytes n bs = if ltb (length bs) n then err truncated else ok (take n bs, drop n bs)

-- The number whose bytes these are, the lowest first.
unfoldable pub le_value : Bytes → ℕ
le_value [] = 0
le_value (b ∷ bs) = b + 256 * le_value bs

unfoldable pub read_u8 : Read ℕ
unfolding take_bytes
read_u8 = do b ← take_bytes 1; pure (get_or b 0 0)

unfoldable pub read_u32 : Read ℕ
read_u32 = do b ← take_bytes 4; pure (le_value b)

unfoldable pub read_u64 : Read ℕ
read_u64 = do b ← take_bytes 8; pure (le_value b)

unfoldable pub read_string : Read Text
read_string = do n ← read_u32; b ← take_bytes n; if is_utf8 b then pure b else fail bad_utf8

-- `for _ in 0..n { v.push(…) }`. The space that is reserved for `n` items before the loop is not in
-- the model: where the allocator gives it up, the process ends.
unfoldable pub read_many {ℓ} : {A : Type ℓ} → ℕ → Read A → Read (List A)
read_many zero p = pure []
read_many (suc n) p = do x ← p; xs ← read_many n p; pure (x ∷ xs)

-- `b as i64`
unfoldable pub bits_int : ℕ → ℤ
bits_int b = if ltb b (2 ^ 63) then pos b else negsuc (2 ^ 64 - 1 - b)

-- `b != 0`
unfoldable pub read_value : ℕ → Read ParamValue
read_value tag =
    if tag == 0
    then (do b ← read_u64; pure (int (bits_int b)))
    else if tag == 1
    then (do b ← read_u64; pure (float b))
    else if tag == 2
    then (do b ← read_u8; pure (boolean (if b == 0 then false else true)))
    else if tag == 3
    then (do s ← read_string; pure (str s))
    else fail (bad_tag "param" tag)

unfoldable pub read_entry : Read Entry
read_entry = do k ← read_string; tag ← read_u8; v ← read_value tag; pure (k, v)

unfoldable pub read_params : Read ParamMap
read_params = do n ← read_u32; entries ← read_many n read_entry; pure (Param.new entries)

unfoldable pub read_input : ℕ → Read NodeId
read_input max = do i ← read_u64; if leb max i then fail (bad_node_ref i) else pure i

unfoldable pub read_inputs : ℕ → Read (List NodeId)
read_inputs max = do n ← read_u32; read_many n (read_input max)
