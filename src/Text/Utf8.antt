-- ===== src/Text/Utf8.antt =====
-- Which bytes are UTF-8: what `str::from_utf8` accepts.
use graphed_core_mvp.Base.{
  ℕ, zero, suc, Bool, true, false, [], ◌∷◌, Option, none, some, ltb, leb, ◌&&◌, if◌then◌else◌,
}
use graphed_core_mvp.Text.{Text}

-- How many bytes follow a first byte, and the range of the next one.
abbrev pub lead : ℕ → Option (ℕ × ℕ × ℕ)
lead c =
    if ltb c 0x80
    then some (0, 0x80, 0xbf)
    else if ltb c 0xc2
    then none
    else if ltb c 0xe0
    then some (1, 0x80, 0xbf)
    else if ltb c 0xe1
    then some (2, 0xa0, 0xbf)
    else if ltb c 0xed
    then some (2, 0x80, 0xbf)
    else if ltb c 0xee
    then some (2, 0x80, 0x9f)
    else if ltb c 0xf0
    then some (2, 0x80, 0xbf)
    else if ltb c 0xf1
    then some (3, 0x90, 0xbf)
    else if ltb c 0xf4
    then some (3, 0x80, 0xbf)
    else if ltb c 0xf5
    then some (3, 0x80, 0x8f)
    else none

-- `k` more bytes of a character follow, the next one between `lo` and `hi`.
unfoldable pub utf8_from : ℕ → ℕ → ℕ → Text → Bool
utf8_from zero lo hi [] = true
utf8_from (suc k) lo hi [] = false
utf8_from (suc k) lo hi (c ∷ s) = leb lo c && leb c hi && utf8_from k 0x80 0xbf s
utf8_from zero lo hi (c ∷ s) = elim (lead c) [
  | none ↦ false
  | some (k, first, last) ↦ utf8_from k first last s
]

unfoldable pub is_utf8 : Text → Bool
unfolding utf8_from
is_utf8 s = utf8_from 0 0x80 0xbf s
