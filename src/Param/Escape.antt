-- ===== src/Param/Escape.antt =====
-- `escape_token` and `unescape_token`: four passes each, and one character at a time together.
use graphed_core_mvp.Base.{
  ℕ, ◌≡◌, refl, ap, ◌∙◌, [], ◌∷◌, ◌++◌, flat_map, arith, ◌==◌, if◌then◌else◌,
}
use graphed_core_mvp.Text.{Text, codes, replace}
use graphed_core_mvp.Text.Laws.{put_for, replace-flat_map, flat_map-flat_map, flat_map-Lacks, Lacks}
use graphed_core_mvp.Param.{escape_token, unescape_token}

-- What becomes of a character in the first pass, and in the passes so far.
abbrev after_percent : ℕ → Text
after_percent = put_for b'%' (codes "%25")

abbrev after_semicolon : ℕ → Text
after_semicolon c = if b';' == c then codes "%3B" else after_percent c

abbrev after_equals : ℕ → Text
after_equals c = if b'=' == c then codes "%3D" else after_semicolon c

abbrev after_bar : ℕ → Text
after_bar c = if b'|' == c then codes "%7C" else after_equals c

-- One more pass of `replace` over text that was escaped so far.
pass :
    (p : ℕ) (rep : Text) (g h : ℕ → Text)
    → ((c : ℕ) → flat_map (put_for p rep) (g c) ≡ h c)
    → (s : Text) → replace (p ∷ []) rep (flat_map g s) ≡ flat_map h s
pass p rep g h e s =
    replace-flat_map p rep (flat_map g s) ∙ flat_map-flat_map (put_for p rep) g h e s

pub escape_token-flat_map : (s : Text) → escape_token s ≡ flat_map after_bar s
unfolding escape_token flat_map
escape_token-flat_map s = rw (
  replace-flat_map b'%' (codes "%25") s,
  pass b';' (codes "%3B") after_percent after_semicolon (λ c. ground arith) s,
  pass b'=' (codes "%3D") after_semicolon after_equals (λ c. ground arith) s,
  pass b'|' (codes "%7C") after_equals after_bar (λ c. ground arith) s,
)

-- One pass of `unescape_token` takes the last escape back.
undo :
    (pat rep : Text) (g h : ℕ → Text)
    → ((c : ℕ) (t : Text) → replace pat rep (g c ++ t) ≡ h c ++ replace pat rep t)
    → (s : Text) → replace pat rep (flat_map g s) ≡ flat_map h s
unfolding flat_map replace
undo pat rep g h e [] = refl
undo pat rep g h e (c ∷ s) = e c (flat_map g s) ∙ ap (λ t. h c ++ t) (undo pat rep g h e s)

undo_bar :
    (c : ℕ) (t : Text)
    → replace (codes "%7C") (codes "|") (after_bar c ++ t)
      ≡ after_equals c ++ replace (codes "%7C") (codes "|") t
unfolding replace
undo_bar c t = ground arith

undo_equals :
    (c : ℕ) (t : Text)
    → replace (codes "%3D") (codes "=") (after_equals c ++ t)
      ≡ after_semicolon c ++ replace (codes "%3D") (codes "=") t
unfolding replace
undo_equals c t = ground arith

undo_semicolon :
    (c : ℕ) (t : Text)
    → replace (codes "%3B") (codes ";") (after_semicolon c ++ t)
      ≡ after_percent c ++ replace (codes "%3B") (codes ";") t
unfolding replace
undo_semicolon c t = ground arith

undo_percent :
    (c : ℕ) (t : Text)
    → replace (codes "%25") (codes "%") (after_percent c ++ t)
      ≡ (c ∷ []) ++ replace (codes "%25") (codes "%") t
unfolding replace
undo_percent c t = ground arith

flat_map-single : (s : Text) → flat_map (λ c. c ∷ []) s ≡ s
unfolding flat_map
flat_map-single [] = refl
flat_map-single (c ∷ s) = ap (λ t. c ∷ t) (flat_map-single s)

-- `unescape_token` is the inverse of `escape_token`.
pub unescape_token-escape_token : (s : Text) → unescape_token (escape_token s) ≡ s
unfolding unescape_token
unescape_token-escape_token s =
    rw
      (
        escape_token-flat_map s,
        undo (codes "%7C") (codes "|") after_bar after_equals undo_bar s,
        undo (codes "%3D") (codes "=") after_equals after_semicolon undo_equals s,
        undo (codes "%3B") (codes ";") after_semicolon after_percent undo_semicolon s,
        undo (codes "%25") (codes "%") after_percent (λ c. c ∷ []) undo_percent s,
      )
      (flat_map-single s)

-- Escaped text holds no separator.
pub escape_token-Lacks :
    (s : Text)
    → Lacks b';' (escape_token s) × Lacks b'=' (escape_token s) × Lacks b'|' (escape_token s)
escape_token-Lacks s = rw (escape_token-flat_map s) (
  flat_map-Lacks b';' after_bar (λ c. ground arith) s,
  flat_map-Lacks b'=' after_bar (λ c. ground arith) s,
  flat_map-Lacks b'|' after_bar (λ c. ground arith) s,
)
