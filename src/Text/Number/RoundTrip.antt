-- ===== src/Text/Number/RoundTrip.antt =====
-- A number that was written is read back.
use mathlib.Core.Option.{some-injective}
use graphed_core_mvp.Base.{
  ap, ℕ, zero, suc, ◌+◌, ◌-◌, ◌*◌, ◌/◌, ◌%◌, ◌^◌, ◌≤◌, ◌<◌, ◌≡◌, refl, ◌∙◌, some, ℤ, pos, negsuc,
  neg_of, IsI64, [], ◌∷◌, ◌++◌, ltb, arith, append_assoc, append-nil, Bool-cases, inl, inr,
}
use mathlib.Core.Option
use native.Mathlib.Nat.{pow-suc}
use graphed_core_mvp.Text.{Text}
use graphed_core_mvp.Text.Number.{
  display_from, display, display_i64, hex_digit, hex_from, display_hex, to_digit, read_digits,
  magnitude, parse_i64, parse_hex,
}

to_digit-decimal : (d : ℕ) → d < 10 → to_digit 10 (48 + d) ≡ some d
unfolding to_digit
to_digit-decimal d h = ground arith

to_digit-hex_digit : (d : ℕ) → d < 16 → to_digit 16 (hex_digit d) ≡ some d
unfolding to_digit hex_digit
to_digit-hex_digit d h = ground arith

-- Reading one more digit.
read_digits-digit :
    (radix limit n c : ℕ) (s : Text)
    → n ≤ limit
    → n / radix * radix + n % radix ≡ n
    → to_digit radix c ≡ some (n % radix)
    → read_digits radix limit (n / radix) (c ∷ s) ≡ read_digits radix limit n s
unfolding read_digits
read_digits-digit radix limit n c s h e k = rw k (rw e (ground arith))

read_digits-display_from :
    (limit fuel n : ℕ) (s : Text)
    → n < fuel
    → n ≤ limit
    → read_digits 10 limit 0 (display_from fuel n ++ s) ≡ read_digits 10 limit n s
unfolding display_from
read_digits-display_from limit zero n s f h = absurd (omega arith)
read_digits-display_from limit (suc fuel) n s f h = elim (Bool-cases (ltb n 10)) [
  | inl small ↦
      rw small (ground (arith, read_digits-digit 10 limit n (48 + n) s, to_digit-decimal n))
  | inr big ↦
      rw (big, append_assoc)
        (read_digits-display_from limit fuel (n / 10) ((48 + n % 10) ∷ s) (ground arith)
            (omega arith)
          ∙ read_digits-digit 10 limit n (48 + n % 10) s h (omega arith)
              (to_digit-decimal (n % 10) (omega arith)))
]

read_digits-hex_from :
    (limit k n : ℕ) (s : Text)
    → n < 16 ^ k
    → n ≤ limit
    → read_digits 16 limit 0 (hex_from k n ++ s) ≡ read_digits 16 limit n s
unfolding hex_from
read_digits-hex_from limit zero n s f h = let e : n ≡ 0 = omega arith in rw e
read_digits-hex_from limit (suc k) n s f h = rw append_assoc (
    read_digits-hex_from limit k (n / 16) (hex_digit (n % 16) ∷ s) (omega (arith, pow-suc 16 k))
      (omega arith)
    ∙ read_digits-digit 16 limit n (hex_digit (n % 16)) s h (omega arith)
        (to_digit-hex_digit (n % 16) (omega arith)))

-- A text that begins with a digit is read whole: it is not empty and has no sign.
abbrev StartsDigit : Text → Type 0
StartsDigit [] = ⊥
StartsDigit (c ∷ s) = b'0' ≤ c

StartsDigit-append : (a b : Text) → StartsDigit a → StartsDigit (a ++ b)
StartsDigit-append [] b h = absurd h
StartsDigit-append (c ∷ a) b h = h

StartsDigit-display_from : (fuel n : ℕ) → n < fuel → StartsDigit (display_from fuel n)
unfolding display_from
StartsDigit-display_from zero n h = absurd (omega arith)
StartsDigit-display_from (suc fuel) n h = elim (Bool-cases (ltb n 10)) [
  | inl small ↦ rw small (omega arith)
  | inr big ↦ rw big (
      StartsDigit-append (display_from fuel (n / 10)) _
        (StartsDigit-display_from fuel (n / 10) (ground arith)))
]

StartsDigit-hex_from : (k n : ℕ) → StartsDigit (hex_from (suc k) n)
unfolding hex_from hex_digit
StartsDigit-hex_from zero n = ground arith
StartsDigit-hex_from (suc k) n =
    StartsDigit-append (hex_from (suc k) (n / 16)) _ (StartsDigit-hex_from k (n / 16))

magnitude-StartsDigit :
    (radix limit : ℕ) (s : Text)
    → StartsDigit s
    → magnitude radix limit s ≡ read_digits radix limit 0 s
unfolding magnitude
magnitude-StartsDigit radix limit [] h = absurd h
magnitude-StartsDigit radix limit (c ∷ s) h = refl

parse_i64-StartsDigit :
    (s : Text) → StartsDigit s → parse_i64 s ≡ Option.map pos (read_digits 10 (2 ^ 63 - 1) 0 s)
unfolding parse_i64
parse_i64-StartsDigit [] h = absurd h
parse_i64-StartsDigit (c ∷ s) h = ground arith

parse_i64-minus :
    (s : Text)
    → StartsDigit s
    → parse_i64 (b'-' ∷ s) ≡ Option.map neg_of (read_digits 10 (2 ^ 63) 0 s)
unfolding parse_i64
parse_i64-minus s h = rw (magnitude-StartsDigit 10 (2 ^ 63) s h)

parse_hex-StartsDigit : (s : Text) → StartsDigit s → parse_hex s ≡ read_digits 16 (2 ^ 64 - 1) 0 s
unfolding parse_hex
parse_hex-StartsDigit [] h = absurd h
parse_hex-StartsDigit (c ∷ s) h = ground arith

read_digits-display : (limit n : ℕ) → n ≤ limit → read_digits 10 limit 0 (display n) ≡ some n
unfolding display read_digits
read_digits-display limit n h =
    rw append-nil at (read_digits-display_from limit (suc n) n [] (omega arith) h)

-- Different numbers are printed differently.
pub display-injective : (m n : ℕ) → display m ≡ display n → m ≡ n
display-injective m n e = cc (
  read_digits-display (m + n) m (omega arith),
  read_digits-display (m + n) n (omega arith),
  ap (read_digits 10 (m + n) 0) e,
)

read_digits-hex :
    (limit k n : ℕ) → n < 16 ^ k → n ≤ limit → read_digits 16 limit 0 (hex_from k n) ≡ some n
unfolding read_digits
read_digits-hex limit k n f h = rw append-nil at (read_digits-hex_from limit k n [] f h)

-- Every `i64` that was printed in decimal is read back.
pub parse_i64-display_i64 : (a : ℤ) → IsI64 a → parse_i64 (display_i64 a) ≡ some a
unfolding display_i64 display
parse_i64-display_i64 (pos n) h =
    parse_i64-StartsDigit (display n) (StartsDigit-display_from (suc n) n (omega arith))
    ∙ rw (read_digits-display (2 ^ 63 - 1) n (omega arith))
parse_i64-display_i64 (negsuc n) h =
    parse_i64-minus (display (suc n)) (StartsDigit-display_from (suc (suc n)) (suc n) (omega arith))
    ∙ rw (read_digits-display (2 ^ 63) (suc n) (omega arith))

-- Every `u64` that was printed with sixteen hexadecimal digits is read back.
pub parse_hex-display_hex : (n : ℕ) → n < 2 ^ 64 → parse_hex (display_hex n) ≡ some n
unfolding display_hex
parse_hex-display_hex n h =
    parse_hex-StartsDigit (hex_from 16 n) (StartsDigit-hex_from 15 n)
    ∙ read_digits-hex (2 ^ 64 - 1) 16 n h (omega arith)
