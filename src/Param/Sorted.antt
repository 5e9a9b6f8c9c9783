-- ===== src/Param/Sorted.antt =====
-- `ParamMap::new` sorts by key, and is stable.
use graphed_core_mvp.Base.{
  ◌≡◌, refl, ap, ◌∙◌, true, false, List, [], ◌∷◌, arith, if◌then◌else◌, Bool-cases, inl, inr,
}
use graphed_core_mvp.Text.{Text, text_eq, text_le}
use graphed_core_mvp.Text.Laws.{text_eq_iff}
use graphed_core_mvp.Param.{Entry, ParamMap, insert_entry, new}
use graphed_core_mvp.Param.Identity.{params_canon}

-- The key is not above that of the first entry.
abbrev pub Below : Text → ParamMap → Type 0
Below k [] = Unit
Below k ((l, w) ∷ fs) = text_le k l ≡ true

abbrev pub IsSorted : ParamMap → Type 0
IsSorted [] = Unit
IsSorted ((k, v) ∷ fs) = Below k fs × IsSorted fs

pub text_le_refl : (a : Text) → text_le a a ≡ true
unfolding text_le
text_le_refl [] = refl
text_le_refl (x ∷ a) = ground (arith, text_le_refl a)

text_le_total : (a b : Text) → text_le a b ≡ false → text_le b a ≡ true
unfolding text_le
text_le_total [] b h = cc
text_le_total (x ∷ a) [] h = refl
text_le_total (x ∷ a) (y ∷ b) h = ground (arith, text_le_total a b)

insert_entry-Below :
    (k : Text) (e : Entry) (fs : ParamMap)
    → Below k fs
    → text_le k e.0 ≡ true
    → Below k (insert_entry e fs)
unfolding insert_entry
insert_entry-Below k e [] h g = g
insert_entry-Below k e ((l, w) ∷ fs) h g = elim (Bool-cases (text_le e.0 l)) [
  | inl le ↦ rw le g
  | inr gt ↦ rw gt h
]

insert_entry-IsSorted : (e : Entry) (fs : ParamMap) → IsSorted fs → IsSorted (insert_entry e fs)
unfolding insert_entry
insert_entry-IsSorted e [] h = (tt, tt)
insert_entry-IsSorted e ((l, w) ∷ fs) h = elim (Bool-cases (text_le e.0 l)) [
  | inl le ↦ rw le (le, h)
  | inr gt ↦
      rw gt (insert_entry-Below l e fs h.0 (text_le_total e.0 l gt), insert_entry-IsSorted e fs h.1)
]

new-IsSorted : (es : List Entry) → IsSorted (new es)
unfolding new
new-IsSorted [] = tt
new-IsSorted (e ∷ es) = insert_entry-IsSorted e (new es) (new-IsSorted es)

-- The entries of one key, in their order.
abbrev pub with_key : Text → ParamMap → ParamMap
with_key k [] = []
with_key k ((l, v) ∷ fs) = if text_eq k l then (l, v) ∷ with_key k fs else with_key k fs

with_key-insert_entry :
    (k : Text) (e : Entry) (fs : ParamMap) → with_key k (insert_entry e fs) ≡ with_key k (e ∷ fs)
unfolding insert_entry
with_key-insert_entry k e [] = refl
with_key-insert_entry k e ((l, w) ∷ fs) =
    ground (arith, with_key-insert_entry k e fs, text_eq_iff k e.0, text_eq_iff k l, text_le_refl k)

with_key-new : (k : Text) (es : List Entry) → with_key k (new es) ≡ with_key k es
unfolding new
with_key-new k [] = refl
with_key-new k ((l, v) ∷ es) =
    with_key-insert_entry k (l, v) (new es) ∙ ground (arith, with_key-new k es)

-- `new` gives the entries in ascending order of keys, and for each key exactly the entries that
-- were given, in the order in which they were given.
pub new_stable :
    (es : List Entry) → IsSorted (new es) × ((k : Text) → with_key k (new es) ≡ with_key k es)
new_stable es = (new-IsSorted es, λ k. with_key-new k es)

insert_entry-Below_self :
    (k : Text) (e : Entry) (fs : ParamMap) → Below e.0 fs → insert_entry e fs ≡ e ∷ fs
unfolding insert_entry
insert_entry-Below_self k e [] h = refl
insert_entry-Below_self k e ((l, w) ∷ fs) h = rw h

-- Sorting what is sorted changes nothing.
pub new_of_IsSorted : (fs : ParamMap) → IsSorted fs → new fs ≡ fs
unfolding new
new_of_IsSorted [] h = refl
new_of_IsSorted ((k, v) ∷ fs) h =
    ap (insert_entry (k, v)) (new_of_IsSorted fs h.1) ∙ insert_entry-Below_self k (k, v) fs h.0

Below-canon : (k : Text) (fs : ParamMap) → Below k fs → Below k (params_canon fs)
Below-canon k [] h = tt
Below-canon k ((l, w) ∷ fs) h = h

pub params_canon-IsSorted : (fs : ParamMap) → IsSorted fs → IsSorted (params_canon fs)
params_canon-IsSorted [] h = tt
params_canon-IsSorted ((k, v) ∷ fs) h = (Below-canon k fs h.0, params_canon-IsSorted fs h.1)
