-- ===== src/Text/Number.antt =====
-- Numbers as text, as the standard library writes and reads them: `{}` and `parse::<i64>()`,
-- `{:016x}` and `u64::from_str_radix(_, 16)`.
pub mod Digits
pub mod RoundTrip
use graphed_core_mvp.Base.{
  ℕ, zero, suc, ◌+◌, ◌-◌, ◌*◌, ◌/◌, ◌%◌, ◌^◌, Option, none, some, ℤ, pos, negsuc, neg_of, [], ◌∷◌,
  ◌++◌, ltb, leb, ◌==◌, ◌&&◌, if◌then◌else◌, ◌>>=◌,
}
use mathlib.Core.Option
use graphed_core_mvp.Text.{Text}

-- The decimal digits of `n`; `fuel` above `n` is enough.
unfoldable pub display_from : ℕ → ℕ → Text
display_from zero n = []
display_from (suc fuel) n =
    let high = display_from fuel (n / 10) in
    if ltb n 10 then (48 + n) ∷ [] else high ++ (48 + n % 10) ∷ []

-- `format!("{n}")` of an unsigned number.
unfoldable pub display : ℕ → Text
display n = display_from (suc n) n

-- `format!("{a}")` of an `i64`.
unfoldable pub display_i64 : ℤ → Text
display_i64 (pos n) = display n
display_i64 (negsuc n) = b'-' ∷ display (suc n)

unfoldable pub hex_digit : ℕ → ℕ
hex_digit d = if ltb d 10 then 48 + d else 87 + d

-- The lowest `k` hexadecimal digits of `n`, in lower case.
unfoldable pub hex_from : ℕ → ℕ → Text
unfolding hex_digit
hex_from zero n = []
hex_from (suc k) n = hex_from k (n / 16) ++ hex_digit (n % 16) ∷ []

-- `format!("{n:016x}")` of a `u64`.
unfoldable pub display_hex : ℕ → Text
display_hex n = hex_from 16 n

-- `to_digit(radix)` of one byte, for the radixes up to 16.
pub to_digit : ℕ → ℕ → Option ℕ
to_digit radix c =
    let d =
      if leb b'0' c && leb c b'9'
      then c - 48
      else if leb b'a' c && leb c b'f'
      then c - 87
      else if leb b'A' c && leb c b'F'
      then c - 55
      else 16 in
    if ltb d radix then some d else none

-- Reads digits onto `acc`, and fails past `limit` as the checked operations do.
pub read_digits : ℕ → ℕ → ℕ → Text → Option ℕ
unfolding to_digit
read_digits radix limit acc [] = some acc
read_digits radix limit acc (c ∷ s) = do
  d ← to_digit radix c
  if leb (acc * radix + d) limit then read_digits radix limit (acc * radix + d) s else none

-- At least one digit.
pub magnitude : ℕ → ℕ → Text → Option ℕ
unfolding read_digits
magnitude radix limit [] = none
magnitude radix limit (c ∷ s) = read_digits radix limit 0 (c ∷ s)

-- `s.parse::<i64>().ok()`
unfoldable pub parse_i64 : Text → Option ℤ
unfolding magnitude
parse_i64 [] = none
parse_i64 (c ∷ s) =
    if c == b'-'
    then Option.map neg_of (magnitude 10 (2 ^ 63) s)
    else if c == b'+'
    then Option.map pos (magnitude 10 (2 ^ 63 - 1) s)
    else Option.map pos (magnitude 10 (2 ^ 63 - 1) (c ∷ s))

-- `u64::from_str_radix(s, 16).ok()`
unfoldable pub parse_hex : Text → Option ℕ
unfolding magnitude
parse_hex [] = none
parse_hex (c ∷ s) =
    if c == b'+' then magnitude 16 (2 ^ 64 - 1) s else magnitude 16 (2 ^ 64 - 1) (c ∷ s)
