-- ===== src/Optimizer/Incremental/Cuts.antt =====
-- Where an arena is cut into steps makes no difference.
use graphed_core_mvp.Base.{
  ℕ, ◌+◌, ◌≡◌, refl, sym, ap, ◌∙◌, inl, inr, List, [], ◌∷◌, ◌++◌, arith, length, length-append,
  get_elem?, Option, some, none, Result, ok, err, Bool-cases, Option-cases, Result-cases,
}
use graphed_core_mvp.Node.{NodeKey, NodeId, inputs, with_inputs}
use graphed_core_mvp.Store.{get}
use graphed_core_mvp.Optimizer.{Halt}
use graphed_core_mvp.Optimizer.Incremental.{
  IncrementalReducer, Failure, is_identity, find_commuted, hash_cons, canonicalize, resolve,
  consume, consume_all, settle, step,
}

-- A reducer with another count of work.
abbrev retotal : ℕ → IncrementalReducer → IncrementalReducer
retotal w r = record r { total_work = w }

abbrev retotal_id :
    ℕ → Result Halt (IncrementalReducer × NodeId) → Result Halt (IncrementalReducer × NodeId)
retotal_id w (ok (r, id)) = ok (retotal w r, id)
retotal_id w (err e) = err e

abbrev retotal_ok : ℕ → Result Failure IncrementalReducer → Result Failure IncrementalReducer
retotal_ok w (ok r) = ok (retotal w r)
retotal_ok w (err e) = err e

hash_cons-retotal :
    (w : ℕ) (k : NodeKey) (r : IncrementalReducer)
    → hash_cons k (retotal w r) ≡ (retotal w (hash_cons k r).0, (hash_cons k r).1)
unfolding hash_cons
hash_cons-retotal w k r = elim (Option-cases (get k r.canon_table)) [
  | inl e ↦ rw (e, hash_cons) refl
  | inr (id, e) ↦ rw (e, hash_cons) refl
]

canonicalize-retotal :
    (w : ℕ) (k : NodeKey) (r : IncrementalReducer)
    → canonicalize k (retotal w r) ≡ retotal_id w (canonicalize k r)
unfolding canonicalize
canonicalize-retotal w k r = elim (Bool-cases (is_identity k)) [
  | inl e ↦ elim (Option-cases (get_elem? (inputs k) 0)) [
    | inl f ↦ rw (e, f, canonicalize) refl
    | inr (i, f) ↦ rw (e, f, canonicalize) refl
  ]
  | inr e ↦ elim (Option-cases (find_commuted k r.canon_table)) [
    | inl f ↦ rw (e, f, canonicalize) (ap ok (hash_cons-retotal w k r))
    | inr (i, f) ↦ rw (e, f, canonicalize) refl
  ]
]

consume-retotal :
    (w : ℕ) (k : NodeKey) (r : IncrementalReducer)
    → consume k (retotal w r) ≡ retotal_ok w (consume k r)
unfolding consume
consume-retotal w k r = elim (Result-cases (resolve r.map (inputs k))) [
  | inr (e, f) ↦ rw (f, consume) refl
  | inl (ins, f) ↦ elim (Result-cases (canonicalize (with_inputs k ins) r)) [
    | inr (e, g) ↦ rw (f, canonicalize-retotal w (with_inputs k ins) r, g, consume) refl
    | inl (a, g) ↦ rw (f, canonicalize-retotal w (with_inputs k ins) r, g, consume) refl
  ]
]

consume_all-retotal :
    (w : ℕ) (delta : List NodeKey) (r : IncrementalReducer)
    → consume_all delta (retotal w r) ≡ (retotal w (consume_all delta r).0, (consume_all delta r).1)
unfolding consume_all
consume_all-retotal w [] r = refl
consume_all-retotal w (k ∷ delta) r = elim (Result-cases (consume k r)) [
  | inr (e, f) ↦ rw (consume-retotal w k r, f, consume_all) refl
  | inl (a, f) ↦ rw (consume-retotal w k r, f, consume_all) (consume_all-retotal w delta a)
]

consume_all-append :
    (a b : List NodeKey) (r r' : IncrementalReducer)
    → consume_all a r ≡ (r', none)
    → consume_all (a ++ b) r ≡ consume_all b r'
unfolding consume_all
consume_all-append [] b r r' h =
    ap (λ (x : IncrementalReducer × Option Failure). consume_all b x.0) h
consume_all-append (k ∷ a) b r r' h = elim (Result-cases (consume k r)) [
  | inr (e, f) ↦
      cc (ap (λ (x : IncrementalReducer × Option Failure). x.1) (rw (f, consume_all) at h))
  | inl (r1, f) ↦ rw (f, consume_all) (consume_all-append a b r1 r' (rw (f, consume_all) at h))
]

settle-ok :
    (n m : ℕ) (x : IncrementalReducer × Option Failure)
    → (settle n x).1 ≡ ok m
    → (x.1 ≡ none) × (n ≡ m)
settle-ok n m (r, some e) h = cc
settle-ok n m (r, none) h = (refl, cc)

-- Consuming nodes does not touch the work.
consume_all-total_work :
    (b : List NodeKey) (r : IncrementalReducer) → (consume_all b r).0.total_work ≡ r.total_work
consume_all-total_work b r =
    ap (λ (x : IncrementalReducer × Option Failure). x.0.total_work)
      (consume_all-retotal r.total_work b r)

step-none :
    (a : List NodeKey) (r r' : IncrementalReducer)
    → consume_all a r ≡ (r', none)
    → step a r ≡ (retotal (r'.total_work + length a) r', ok (length a))
unfolding step
step-none a r r' h = ap (settle (length a)) h

consumed :
    (a : List NodeKey) (r : IncrementalReducer) (n : ℕ)
    → (step a r).1 ≡ ok n
    → (consume_all a r ≡ ((consume_all a r).0, none)) × (length a ≡ n)
unfolding step
consumed a r n h =
    let (e, f) = settle-ok (length a) n (consume_all a r) h in
    (ap (λ (o : Option Failure). ((consume_all a r).0, o)) e, f)

-- If a step with the delta `a` succeeds and then one with `b`, one step with `a ++ b` succeeds,
-- processes as many nodes as the two, and leaves the reducer in the same state.
pub step-append :
    (a b : List NodeKey) (r : IncrementalReducer) (n m : ℕ)
    → (step a r).1 ≡ ok n
    → (step b (step a r).0).1 ≡ ok m
    → step (a ++ b) r ≡ ((step b (step a r).0).0, ok (n + m))
step-append a b r n m h g =
    let ra = (consume_all a r).0 in
    let w = ra.total_work + length a in
    let (ea, na) = consumed a r n h in
    let first : step a r ≡ (retotal w ra, ok (length a)) = step-none a r ra ea in
    let (eb, nb) = consumed b (retotal w ra) m (rw first at g) in
    let rb = (consume_all b ra).0 in
    let after = consume_all-retotal w b ra in
    let plain : consume_all b ra ≡ (rb, none) =
      ap (λ (x : IncrementalReducer × Option Failure). (rb, x.1)) (sym after ∙ eb) in
    let work = consume_all-total_work b ra in
    let joined = step-none (a ++ b) r rb (consume_all-append a b r ra ea ∙ plain) in
    let ends : consume_all b (retotal w ra) ≡ (retotal w rb, none) =
      after ∙ ap (λ (x : IncrementalReducer × Option Failure). (retotal w rb, x.1)) plain in
    let second = step-none b (retotal w ra) (retotal w rb) ends in
    let count : rb.total_work + length (a ++ b) ≡ w + length b =
      omega (arith, length-append a b, work) in
    let size : length (a ++ b) ≡ n + m = omega (arith, length-append a b, na, nb) in
    let split : (step b (step a r).0).0 ≡ retotal (w + length b) rb =
      rw first (ap (λ (x : IncrementalReducer × Result Failure ℕ). x.0) second) in
    joined
    ∙ ap (λ (c : ℕ). (retotal c rb, ok (length (a ++ b)))) count
    ∙ ap (λ (c : ℕ). (retotal (w + length b) rb, ok c)) size
    ∙ ap (λ (x : IncrementalReducer). (x, ok (n + m))) (sym split)
