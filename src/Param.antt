-- ===== src/Param.antt =====
-- src/param.rs: parameter values, parameter maps and their tokens.
--
-- A float is its 64 bits, as `to_bits` and `from_bits` see it. `ParamMap` is the list of its
-- entries, which `new` keeps sorted by key.
pub mod Escape
pub mod Identity
pub mod Sorted
pub mod Token
use graphed_core_mvp.Base.{
  ℕ, ◌^◌, ◌%◌, Bool, true, false, ◌&&◌, List, [], ◌∷◌, ◌++◌, map, Option, none, some, ltb, ◌==◌,
  if◌then◌else◌, list_eq, ℤ, pos, int_eq, ◌>>=◌,
}
use mathlib.Core.Option
use graphed_core_mvp.Text.{Text, codes, text_eq, text_le, replace, split, split_once, join}
use graphed_core_mvp.Text.Number.{display_i64, display_hex, parse_i64, parse_hex}

pub data ParamValue : Type 0 where
  int : ℤ → ParamValue
  float : ℕ → ParamValue
  boolean : Bool → ParamValue
  str : Text → ParamValue

abbrev pub canon_nan : ℕ
canon_nan = 0x7ff8_0000_0000_0000

-- `x.is_nan()`: all bits of the exponent are set, and some bit of the fraction is.
abbrev pub is_nan : ℕ → Bool
is_nan bits = ltb 0x7ff0_0000_0000_0000 (bits % 2 ^ 63)

unfoldable pub float_key : ℕ → ℕ
float_key x = if is_nan x then canon_nan else x

unfoldable pub escape_token : Text → Text
escape_token s = replace (codes "|") (codes "%7C") (
    replace (codes "=") (codes "%3D")
      (replace (codes ";") (codes "%3B") (replace (codes "%") (codes "%25") s)))

unfoldable pub unescape_token : Text → Text
unescape_token s = replace (codes "%25") (codes "%") (
    replace (codes "%3B") (codes ";")
      (replace (codes "%3D") (codes "=") (replace (codes "%7C") (codes "|") s)))

unfoldable pub value_token : ParamValue → Text
value_token (int a) = b'i' ∷ display_i64 a
value_token (float a) = b'f' ∷ display_hex (float_key a)
value_token (boolean true) = codes "btrue"
value_token (boolean false) = codes "bfalse"
value_token (str a) = b's' ∷ escape_token a

bool_from : Text → Option ParamValue
bool_from rest =
    if text_eq rest (codes "true")
    then some (boolean true)
    else if text_eq rest (codes "false")
    then some (boolean false)
    else none

-- The tag is the first character; a first byte that is not ASCII is no tag either way.
unfoldable pub value_from_token : Text → Option ParamValue
unfolding bool_from
value_from_token [] = none
value_from_token (tag ∷ rest) =
    if tag == b'i'
    then Option.map int (parse_i64 rest)
    else if tag == b'f'
    then Option.map float (parse_hex rest)
    else if tag == b'b'
    then bool_from rest
    else if tag == b's'
    then some (str (unescape_token rest))
    else none

-- `PartialEq for ParamValue`
unfoldable pub value_eq : ParamValue → ParamValue → Bool
value_eq (int a) (int b) = int_eq a b
value_eq (float a) (float b) = float_key a == float_key b
value_eq (boolean true) (boolean true) = true
value_eq (boolean false) (boolean false) = true
value_eq (str a) (str b) = text_eq a b
value_eq _ _ = false

-- The words that `Hash for ParamValue` feeds the hasher; a text is closed by a byte 0xff.
unfoldable pub value_hash : ParamValue → List ℤ
value_hash (int a) = pos 0 ∷ a ∷ []
value_hash (float a) = pos 1 ∷ pos (float_key a) ∷ []
value_hash (boolean true) = pos 2 ∷ pos 1 ∷ []
value_hash (boolean false) = pos 2 ∷ pos 0 ∷ []
value_hash (str a) = pos 3 ∷ (map pos a ++ pos 0xff ∷ [])

abbrev pub Entry : Type 0
Entry = Text × ParamValue

abbrev pub ParamMap : Type 0
ParamMap = List Entry

unfoldable pub entry_eq : Entry → Entry → Bool
unfolding value_eq
entry_eq a b = text_eq a.0 b.0 && value_eq a.1 b.1

-- The derived `PartialEq for ParamMap`
unfoldable pub params_eq : ParamMap → ParamMap → Bool
unfolding entry_eq
params_eq = list_eq entry_eq

-- Puts an entry before the first one whose key is not smaller.
pub insert_entry : Entry → ParamMap → ParamMap
insert_entry e [] = e ∷ []
insert_entry e (f ∷ fs) =
    let rest = f ∷ insert_entry e fs in if text_le e.0 f.0 then e ∷ f ∷ fs else rest

-- `entries.sort_by(|a, b| a.0.cmp(&b.0))`, which is stable: entries of one key keep their order.
unfoldable pub new : List Entry → ParamMap
unfolding insert_entry text_le
new [] = []
new (e ∷ es) = insert_entry e (new es)

unfoldable pub entry_token : Entry → Text
entry_token (k, v) = escape_token k ++ b'=' ∷ value_token v

unfoldable pub token : ParamMap → Text
unfolding entry_token
token p = join (codes ";") (map entry_token p)

pub entries_from : List Text → Option (List Entry)
entries_from [] = some []
entries_from (part ∷ parts) = do
  (k, v) ← split_once b'=' part
  value ← value_from_token v
  rest ← entries_from parts
  some ((unescape_token k, value) ∷ rest)

unfoldable pub from_token : Text → Option ParamMap
unfolding new entries_from
from_token [] = some (new [])
from_token (c ∷ s) = do entries ← entries_from (split b';' (c ∷ s)); some (new entries)
