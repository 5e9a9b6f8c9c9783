-- ===== src/Serialize/Safe.antt =====
-- Whatever the bytes are, a store that `deserialize` returns is valid.
use graphed_core_mvp.Base.{
  ℕ, zero, suc, ◌≡◌, refl, sym, ap, ◌∙◌, true, false, List, [], ◌∷◌, ◌++◌, take, drop, length, ltb,
  Result, ok, err, Bool-cases, inl, inr,
}
use graphed_core_mvp.Text.{text_eq}
use graphed_core_mvp.Text.Laws.{text_eq_iff}
use graphed_core_mvp.Store.{Inner, empty, add_key, mark_output, BadNodeId, bad_node_id}
use graphed_core_mvp.Store.Invariant.{IsValid, empty-IsValid}
use graphed_core_mvp.Store.Intern.{intern-IsValid}
use graphed_core_mvp.Store.Outputs.{mark_output-IsValid}
use graphed_core_mvp.Serialize.Writer.{Bytes, magic}
use graphed_core_mvp.Serialize.Reader.{
  truncated, DecodeError, Read, bad_magic, and_then, read_u8, read_u32, read_u64, take_bytes,
}
use graphed_core_mvp.Serialize.Decode.{
  read_key, or_bad_ref, read_nodes, read_outputs, read_store, finish, deserialize,
}

-- If there is a value, `P` holds of it.
abbrev Yields {ℓ κ} : {A : Type ℓ} → (A → Type κ) → Result DecodeError (A × Bytes) → Type κ
Yields P (ok (a, rest)) = P a
Yields P (err e) = Unit

module _ {ℓ κ μ ν} {A : Type ℓ} {B : Type κ} where
  Yields-and_then :
      (P : A → Type μ) (Q : B → Type ν) (r : Result DecodeError (A × Bytes)) (f : A → Read B)
      → Yields P r
      → ((a : A) → P a → (rest : Bytes) → Yields Q (f a rest))
      → Yields Q (and_then r f)
  Yields-and_then P Q (ok (a, rest)) f h k = k a h rest
  Yields-and_then P Q (err e) f h k = tt

module _ {ℓ} {A : Type ℓ} where
  Yields-any : (r : Result DecodeError (A × Bytes)) → Yields (λ a. Unit {0}) r
  Yields-any (ok (a, rest)) = tt
  Yields-any (err e) = tt

  Yields-or_bad_ref :
      (r : Inner × Result BadNodeId A) (bs : Bytes) → IsValid r.0 → Yields IsValid (or_bad_ref r bs)
  Yields-or_bad_ref (g, ok a) bs v = v
  Yields-or_bad_ref (g, err (bad_node_id b)) bs v = tt

Yields-read_nodes :
    (n idx : ℕ) (g : Inner) (bs : Bytes) → IsValid g → Yields IsValid (read_nodes n idx g bs)
unfolding read_nodes add_key
Yields-read_nodes zero idx g bs v = v
Yields-read_nodes (suc n) idx g bs v =
    Yields-and_then _ IsValid (read_u8 bs) _ (Yields-any (read_u8 bs)) (λ tag h cs.
      Yields-and_then _ IsValid (read_key idx tag cs) _ (Yields-any (read_key idx tag cs))
        (λ key _ ds.
          Yields-and_then IsValid IsValid (or_bad_ref (add_key key g) ds) _
            (Yields-or_bad_ref (add_key key g) ds (intern-IsValid key g v))
            (λ g' v' es. Yields-read_nodes n (suc idx) g' es v')))

Yields-read_outputs :
    (n : ℕ) (g : Inner) (bs : Bytes) → IsValid g → Yields IsValid (read_outputs n g bs)
unfolding read_outputs
Yields-read_outputs zero g bs v = v
Yields-read_outputs (suc n) g bs v =
    Yields-and_then _ IsValid (read_u64 bs) _ (Yields-any (read_u64 bs)) (λ o _ cs.
      Yields-and_then IsValid IsValid (or_bad_ref (mark_output o g) cs) _
        (Yields-or_bad_ref (mark_output o g) cs (mark_output-IsValid o g v))
        (λ g' v' ds. Yields-read_outputs n g' ds v'))

Yields-read_store : (bs : Bytes) → Yields IsValid (read_store bs)
unfolding read_store
Yields-read_store bs =
    Yields-and_then _ IsValid (read_u32 bs) _ (Yields-any (read_u32 bs)) (λ n _ cs.
      Yields-and_then IsValid IsValid (read_nodes n 0 empty cs) _
        (Yields-read_nodes n 0 empty cs empty-IsValid)
        (λ g v ds.
          Yields-and_then _ IsValid (read_u32 ds) _ (Yields-any (read_u32 ds))
            (λ m _ es. Yields-read_outputs m g es v)))

finish-IsValid :
    (r : Result DecodeError (Inner × Bytes)) (g : Inner)
    → Yields IsValid r
    → finish r ≡ ok g
    → IsValid g
finish-IsValid (ok (h, rest)) g v e = let same : h ≡ g = cc in rw (← same) v
finish-IsValid (err x) g v e = cc

take-append-drop {ℓ} : {A : Type ℓ} (n : ℕ) (xs : List A) → xs ≡ take n xs ++ drop n xs
take-append-drop zero xs = refl
take-append-drop (suc n) [] = refl
take-append-drop (suc n) (x ∷ xs) = ap (λ t. x ∷ t) (take-append-drop n xs)

deserialize-short : (bs : Bytes) → ltb (length bs) 4 ≡ true → deserialize bs ≡ err truncated
unfolding deserialize take_bytes
deserialize-short bs h = rw (h, take_bytes, deserialize)

deserialize-other :
    (bs : Bytes)
    → ltb (length bs) 4 ≡ false
    → text_eq (take 4 bs) magic ≡ false
    → deserialize bs ≡ err bad_magic
unfolding deserialize take_bytes
deserialize-other bs h e = rw (h, take_bytes, e, deserialize)

pub deserialize-magic :
    (bs : Bytes)
    → ltb (length bs) 4 ≡ false
    → text_eq (take 4 bs) magic ≡ true
    → deserialize bs ≡ finish (read_store (drop 4 bs))
unfolding deserialize take_bytes
deserialize-magic bs h e = rw (h, take_bytes, e, deserialize)

-- Bytes that are accepted begin with the magic number, and what follows it was read as a store.
deserialize-ok :
    (bs : Bytes) (g : Inner)
    → deserialize bs ≡ ok g
    → (bs ≡ magic ++ drop 4 bs) × (finish (read_store (drop 4 bs)) ≡ ok g)
deserialize-ok bs g h = elim (Bool-cases (ltb (length bs) 4)) [
  | inl short ↦ cc (deserialize-short bs short)
  | inr long ↦ elim (Bool-cases (text_eq (take 4 bs) magic)) [
    | inl same ↦ (
      take-append-drop 4 bs ∙ ap (λ t. t ++ drop 4 bs) ((text_eq_iff (take 4 bs) magic).0 same),
      sym (deserialize-magic bs long same) ∙ h,
    )
    | inr other ↦ cc (deserialize-other bs long other)
  ]
]

-- Any bytes that `deserialize` accepts begin with the magic number, and the store that it
-- returns is valid.
pub deserialize-IsValid :
    (data_bytes : Bytes) (g : Inner)
    → deserialize data_bytes ≡ ok g
    → IsValid g × (data_bytes ≡ magic ++ drop 4 data_bytes)
deserialize-IsValid bs g h =
    let (starts, reads) = deserialize-ok bs g h in
    (finish-IsValid (read_store (drop 4 bs)) g (Yields-read_store (drop 4 bs)) reads, starts)
