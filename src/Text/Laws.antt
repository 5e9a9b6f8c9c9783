-- ===== src/Text/Laws.antt =====
-- Laws of the operations on texts: equality, replacing one character, and splitting what was
-- joined.
use graphed_core_mvp.Base.{
  ℕ, ◌≡◌, refl, ap, ◌∙◌, ◌≢◌, ◌↔◌, true, List, [], ◌∷◌, ◌++◌, append_assoc, flat_map, none, some,
  arith, ◌==◌, if◌then◌else◌, All, All-append,
}
use graphed_core_mvp.Text.{Text, text_eq, replace, split_once, split, join}

pub text_eq_iff : (a b : Text) → (text_eq a b ≡ true) ↔ (a ≡ b)
text_eq_iff [] [] = (λ h. refl, λ h. refl)
text_eq_iff [] (y ∷ b) = (λ h. cc, λ h. cc)
text_eq_iff (x ∷ a) [] = (λ h. cc, λ h. cc)
text_eq_iff (x ∷ a) (y ∷ b) = ground (arith, text_eq_iff a b)

-- What one replaced character becomes.
abbrev pub put_for : ℕ → Text → ℕ → Text
put_for p rep c = if p == c then rep else c ∷ []

pub replace-flat_map : (p : ℕ) (rep s : Text) → replace (p ∷ []) rep s ≡ flat_map (put_for p rep) s
unfolding replace flat_map
replace-flat_map p rep [] = refl
replace-flat_map p rep (c ∷ s) = ground (arith, replace-flat_map p rep s)

pub flat_map-append :
    (f : ℕ → Text) (a b : Text) → flat_map f (a ++ b) ≡ flat_map f a ++ flat_map f b
unfolding flat_map
flat_map-append f [] b = refl
flat_map-append f (c ∷ a) b = simp (flat_map-append f a b, append_assoc)

-- Two passes are one, if they are at each character.
pub flat_map-flat_map :
    (f g h : ℕ → Text)
    → ((c : ℕ) → flat_map f (g c) ≡ h c)
    → (s : Text) → flat_map f (flat_map g s) ≡ flat_map h s
unfolding flat_map
flat_map-flat_map f g h e [] = refl
flat_map-flat_map f g h e (c ∷ s) =
    simp (flat_map-append f (g c) (flat_map g s), e c, flat_map-flat_map f g h e s)

-- No byte of the text is `c`.
abbrev pub Lacks : ℕ → Text → Type 0
Lacks c = All (λ x. x ≢ c)

pub flat_map-Lacks :
    (d : ℕ) (f : ℕ → Text) → ((c : ℕ) → Lacks d (f c)) → (s : Text) → Lacks d (flat_map f s)
unfolding flat_map
flat_map-Lacks d f h [] = tt
flat_map-Lacks d f h (c ∷ s) =
    All-append (λ x. x ≢ d) (f c) (flat_map f s) (h c) (flat_map-Lacks d f h s)

pub split_once-append :
    (sep : ℕ) (a b : Text) → Lacks sep a → split_once sep (a ++ sep ∷ b) ≡ some (a, b)
unfolding split_once
split_once-append sep [] b h = ground arith
split_once-append sep (c ∷ a) b h = ground (arith, split_once-append sep a b h.1)

pub split_once-Lacks : (sep : ℕ) (a : Text) → Lacks sep a → split_once sep a ≡ none
unfolding split_once
split_once-Lacks sep [] h = refl
split_once-Lacks sep (c ∷ a) h = ground (arith, split_once-Lacks sep a h.1)

split-Lacks : (sep : ℕ) (a : Text) → Lacks sep a → split sep a ≡ a ∷ []
unfolding split
split-Lacks sep [] h = refl
split-Lacks sep (c ∷ a) h = ground (arith, split-Lacks sep a h.1)

split-append : (sep : ℕ) (a b : Text) → Lacks sep a → split sep (a ++ sep ∷ b) ≡ a ∷ split sep b
unfolding split
split-append sep [] b h = ground arith
split-append sep (c ∷ a) b h = ground (arith, split-append sep a b h.1)

-- Splitting undoes joining, where no part holds the separator and there is a part.
pub split-join :
    (sep : ℕ) (p : Text) (ps : List Text)
    → All (Lacks sep) (p ∷ ps)
    → split sep (join (sep ∷ []) (p ∷ ps)) ≡ p ∷ ps
unfolding join
split-join sep p [] h = split-Lacks sep p h.0
split-join sep p (q ∷ ps) h =
    split-append sep p (join (sep ∷ []) (q ∷ ps)) h.0
    ∙ ap (λ (t : List Text). p ∷ t) (split-join sep q ps h.1)
