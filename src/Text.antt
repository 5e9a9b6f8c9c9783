-- ===== src/Text.antt =====
-- Rust strings as lists of bytes, and what the crate uses of the standard library on them:
-- `==`, `cmp`, `starts_with`, `replace`, `split`, `split_once`, `splitn(3, _)` and `join`.
-- Each pattern that the crate searches for is ASCII, so a search by characters and a search by
-- the bytes of UTF-8 agree.
pub mod Laws
pub mod Number
pub mod Utf8
use Prim.Native.Char.{code}
use Prim.Native.String.{String}
use Prim.Native.Nat.{compare, Ordering}
use graphed_core_mvp.Base.{
  ℕ, zero, suc, ◌-◌, Bool, true, false, ◌&&◌, List, [], ◌∷◌, ◌++◌, Option, none, some, length, ◌==◌,
  if◌then◌else◌, list_eq,
}

abbrev pub Text : Type 0
Text = List ℕ

-- The bytes of an ASCII literal.
abbrev pub codes : String → Text
codes String.[] = []
codes (String.◌∷◌ c s) = code c ∷ codes s

abbrev pub text_eq : Text → Text → Bool
text_eq = list_eq ◌==◌

-- `a <= b` by bytes.
unfoldable pub text_le : Text → Text → Bool
text_le [] b = true
text_le (x ∷ a) [] = false
text_le (x ∷ a) (y ∷ b) = elim (compare x y) [
  | Ordering.lt ↦ true
  | Ordering.eq ↦ text_le a b
  | Ordering.gt ↦ false
]

unfoldable pub starts_with : Text → Text → Bool
starts_with [] s = true
starts_with (p ∷ pat) [] = false
starts_with (p ∷ pat) (c ∷ s) = p == c && starts_with pat s

-- `skip` is how much of the last match is still to be passed over.
unfoldable pub replace_from : Text → Text → ℕ → Text → Text
unfolding starts_with
replace_from pat rep skip [] = []
replace_from pat rep (suc skip) (c ∷ s) = replace_from pat rep skip s
replace_from pat rep zero (c ∷ s) =
    let hit = rep ++ replace_from pat rep (length pat - 1) s in
    let miss = c ∷ replace_from pat rep zero s in if starts_with pat (c ∷ s) then hit else miss

-- `s.replace(pat, rep)` for a pattern that is not empty.
unfoldable pub replace : Text → Text → Text → Text
unfolding replace_from
replace pat rep s = replace_from pat rep 0 s

abbrev pub push_first : ℕ → Option (Text × Text) → Option (Text × Text)
push_first c none = none
push_first c (some (a, b)) = some (c ∷ a, b)

-- `s.split_once(sep)`
unfoldable pub split_once : ℕ → Text → Option (Text × Text)
split_once sep [] = none
split_once sep (c ∷ s) =
    let rest = push_first c (split_once sep s) in if c == sep then some ([], s) else rest

abbrev pub push_part : ℕ → List Text → List Text
push_part c [] = (c ∷ []) ∷ []
push_part c (p ∷ ps) = (c ∷ p) ∷ ps

-- `s.split(sep)`: one part more than there are separators.
unfoldable pub split : ℕ → Text → List Text
split sep [] = [] ∷ []
split sep (c ∷ s) = let parts = split sep s in if c == sep then [] ∷ parts else push_part c parts

-- `s.splitn(3, sep)`: what follows the second separator is the third part, whole.
unfoldable pub split3 : ℕ → Text → Text × Option Text × Option Text
unfolding split_once
split3 sep s = elim (split_once sep s) [
  | none ↦ (s, none, none)
  | some (a, r) ↦ elim (split_once sep r) [
    | none ↦ (a, some r, none)
    | some (b, t) ↦ (a, some b, some t)
  ]
]

-- `parts.join(sep)`
unfoldable pub join : Text → List Text → Text
join sep [] = []
join sep (p ∷ []) = p
join sep (p ∷ q ∷ ps) = p ++ (sep ++ join sep (q ∷ ps))
