-- ===== src/Serialize/Reads.antt =====
-- A reader that takes exactly given bytes off the front and returns a given value: rules for
-- sequences and loops, and the readers of bytes, words and strings.
use graphed_core_mvp.Base.{
  ℕ, zero, suc, ◌/◌, ◌^◌, ◌<◌, ◌≡◌, refl, ap, true, false, List, [], ◌∷◌, ◌++◌, append_assoc,
  flat_map, arith, length, take-append, drop-append, length-append, ltb, All, ok,
}
use native.Mathlib.Nat.{pow-suc}
use graphed_core_mvp.Text.{Text}
use graphed_core_mvp.Text.Utf8.{is_utf8}
use graphed_core_mvp.Serialize.Writer.{Bytes, le_bytes, as_u32, put_u32, put_u64, put_str, put_list}
use graphed_core_mvp.Serialize.Reader.{
  Read, pure, ◌>>=◌, take_bytes, le_value, read_u8, read_u32, read_u64, read_string, read_many,
}

-- `p` reads `a` from `bs`, and leaves what follows.
abbrev pub Reads {ℓ} : {A : Type ℓ} → Read A → Bytes → A → Type ℓ
Reads p bs a = (rest : Bytes) → p (bs ++ rest) ≡ ok (a, rest)

module _ {ℓ κ} {A : Type ℓ} {B : Type κ} where
  pub Reads-bind :
      (p : Read A) (f : A → Read B) (bs cs : Bytes) (a : A) (b : B)
      → Reads p bs a
      → Reads (f a) cs b
      → Reads (p >>= f) (bs ++ cs) b
  Reads-bind p f bs cs a b hp hf rest = rw (append_assoc, hp (cs ++ rest)) (hf rest)

  -- The last step of a block: what was read is only wrapped.
  pub Reads-map :
      (p : Read A) (g : A → B) (bs : Bytes) (a : A)
      → Reads p bs a
      → Reads (p >>= λ x. pure (g x)) bs (g a)
  Reads-map p g bs a hp rest = rw (hp rest)

pub Reads-take_bytes : (bs : Bytes) → Reads (take_bytes (length bs)) bs bs
unfolding take_bytes
Reads-take_bytes bs rest =
    let short : ltb (length (bs ++ rest)) (length bs) ≡ false =
      ground (arith, length-append bs rest) in
    rw (short, take-append, drop-append)

length-le_bytes : (k v : ℕ) → length (le_bytes k v) ≡ k
unfolding le_bytes
length-le_bytes zero v = refl
length-le_bytes (suc k) v = ap suc (length-le_bytes k (v / 256))

le_value-le_bytes : (k v : ℕ) → v < 256 ^ k → le_value (le_bytes k v) ≡ v
unfolding le_value le_bytes
le_value-le_bytes zero v h = omega arith
le_value-le_bytes (suc k) v h =
    omega (arith, le_value-le_bytes k (v / 256) (omega (arith, pow-suc 256 k)))

Reads-le_bytes :
    (k v : ℕ) → v < 256 ^ k → Reads (take_bytes k >>= λ b. pure (le_value b)) (le_bytes k v) v
Reads-le_bytes k v h =
    rw (length-le_bytes k v, le_value-le_bytes k v h) at
      (Reads-map (take_bytes (length (le_bytes k v))) le_value (le_bytes k v) (le_bytes k v)
        (Reads-take_bytes (le_bytes k v)))

pub Reads-u32 : (v : ℕ) → v < 2 ^ 32 → Reads read_u32 (put_u32 v) v
unfolding read_u32 put_u32
Reads-u32 v h = Reads-le_bytes 4 v h

pub Reads-u64 : (v : ℕ) → v < 2 ^ 64 → Reads read_u64 (put_u64 v) v
unfolding read_u64 put_u64
Reads-u64 v h = Reads-le_bytes 8 v h

pub Reads-u8 : (b : ℕ) → Reads read_u8 (b ∷ []) b
unfolding read_u8
Reads-u8 b rest = ground arith

-- A count that fits in 32 bits.
pub Reads-count : (n : ℕ) → n < 2 ^ 32 → Reads read_u32 (put_u32 (as_u32 n)) n
Reads-count n h = let e : as_u32 n ≡ n = omega arith in rw e (Reads-u32 n h)

-- A Rust string that is not too long for its count.
pub record IsStr (s : Text) : Type 0 where
  pub short : length s < 2 ^ 32
  pub valid : is_utf8 s ≡ true

pub Reads-str : (s : Text) → IsStr s → Reads read_string (put_str s) s
unfolding read_string put_str
Reads-str s h =
    Reads-bind read_u32 _ (put_u32 (as_u32 (length s))) s (length s) s
      (Reads-count (length s) h.short) (λ rest. rw (Reads-take_bytes s rest, h.valid))

-- A loop reads a list, if each round reads its item.
pub Reads-many {ℓ} :
    {A : Type ℓ} (p : Read A) (put : A → Bytes) (xs : List A)
    → All (λ x. Reads p (put x) x) xs
    → Reads (read_many (length xs) p) (flat_map put xs) xs
unfolding read_many flat_map
Reads-many p put [] h = λ rest. refl
Reads-many p put (x ∷ xs) h = Reads-bind p _ (put x) (flat_map put xs) x (x ∷ xs) h.0 (
    Reads-map (read_many (length xs) p) (λ ys. x ∷ ys) (flat_map put xs) xs
      (Reads-many p put xs h.1))

-- A list behind its count.
pub Reads-list {ℓ} :
    {A : Type ℓ} (p : Read A) (put : A → Bytes) (xs : List A)
    → length xs < 2 ^ 32
    → All (λ x. Reads p (put x) x) xs
    → Reads (read_u32 >>= λ n. read_many n p) (put_list put xs) xs
unfolding put_list
Reads-list p put xs h g =
    Reads-bind read_u32 (λ n. read_many n p) (put_u32 (as_u32 (length xs))) (flat_map put xs)
      (length xs) xs (Reads-count (length xs) h) (Reads-many p put xs g)
