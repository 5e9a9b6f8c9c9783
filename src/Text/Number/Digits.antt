-- ===== src/Text/Number/Digits.antt =====
-- Numbers are written with digits, the minus sign and the letters from a to f.
use graphed_core_mvp.Base.{
  ℕ, zero, suc, ◌+◌, ◌/◌, ◌%◌, ◌<◌, ◌⊎◌, ◌≢◌, ℤ, pos, negsuc, [], ◌∷◌, ltb, arith, All-append,
  Bool-cases, inl, inr,
}
use graphed_core_mvp.Text.Laws.{Lacks}
use graphed_core_mvp.Text.Number.{
  display_from, display, display_i64, hex_digit, hex_from, display_hex,
}

module _ (d : ℕ) (above : 57 < d) where
  display_from-Lacks : (fuel n : ℕ) → Lacks d (display_from fuel n)
  unfolding display_from
  display_from-Lacks zero n = tt
  display_from-Lacks (suc fuel) n = elim (Bool-cases (ltb n 10)) [
    | inl small ↦ rw small (ground arith, tt)
    | inr big ↦ rw big (
        All-append (λ x. x ≢ d) (display_from fuel (n / 10)) ((48 + n % 10) ∷ [])
          (display_from-Lacks fuel (n / 10)) (omega arith, tt))
  ]

  pub display-Lacks : (n : ℕ) → Lacks d (display n)
  unfolding display
  display-Lacks n = display_from-Lacks (suc n) n

  pub display_i64-Lacks : (a : ℤ) → Lacks d (display_i64 a)
  unfolding display_i64
  display_i64-Lacks (pos n) = display-Lacks n
  display_i64-Lacks (negsuc n) = (omega arith, display-Lacks (suc n))

  hex_digit-ne : (n : ℕ) → n < 16 → (d < 97) ⊎ (102 < d) → hex_digit n ≢ d
  unfolding hex_digit
  hex_digit-ne n h o = ground arith

  hex_from-Lacks : (k n : ℕ) → (d < 97) ⊎ (102 < d) → Lacks d (hex_from k n)
  unfolding hex_from
  hex_from-Lacks zero n h = tt
  hex_from-Lacks (suc k) n h =
      All-append (λ x. x ≢ d) (hex_from k (n / 16)) (hex_digit (n % 16) ∷ [])
        (hex_from-Lacks k (n / 16) h) (hex_digit-ne (n % 16) (omega arith) h, tt)

  pub display_hex-Lacks : (n : ℕ) → (d < 97) ⊎ (102 < d) → Lacks d (display_hex n)
  unfolding display_hex
  display_hex-Lacks n h = hex_from-Lacks 16 n h
