-- ===== src/Validator/Numerals.antt =====
-- The octal digits of a mode are those of the mode: the fuel is enough.
use sentinai_project.Common.{
  ◌⊎◌, ◌≢◌, ℕ, zero, suc, ◌+◌, ◌-◌, ◌*◌, ◌/◌, ◌%◌, ◌<◌, ◌≡◌, ap, ◌∙◌, arith, [], ◌∷◌, ◌==◌, Text,
  Bool-cases, inl, inr,
}
use sentinai_project.Validator.Priv.{octal_digits}

-- The number that octal digits stand for, behind `n`.
pub octal_value : ℕ → Text → ℕ
octal_value n [] = n
octal_value n (d ∷ digits) = octal_value (n * 8 + (d - 48)) digits

-- One step of the digits, by what its test gives.
octal_step :
    (fuel n : ℕ) (digits : Text)
    → ((n / 8 ≡ 0) × (octal_digits (suc fuel) n digits ≡ (48 + n % 8) ∷ digits))
      ⊎ ((n / 8 ≢ 0)
          × (octal_digits (suc fuel) n digits ≡ octal_digits fuel (n / 8) ((48 + n % 8) ∷ digits)))
unfolding octal_digits
octal_step fuel n digits = elim (Bool-cases (n / 8 == 0)) [
  | inl e ↦ inl (ground (arith, e), ground (arith, e))
  | inr e ↦ inr (ground (arith, e), ground (arith, e))
]

-- With more fuel than the number, the digits printed for it, read again, give it back.
pub octal_digits-value :
    (fuel n : ℕ) (digits : Text)
    → n < fuel
    → octal_value 0 (octal_digits fuel n digits) ≡ octal_value n digits
unfolding octal_value
octal_digits-value zero n digits h = absurd (omega (arith, h))
octal_digits-value (suc fuel) n digits h = elim (octal_step fuel n digits) [
  | inl (small, e) ↦ ap (octal_value 0) e ∙ ap (λ m. octal_value m digits) (omega (arith, small))
  | inr (large, e) ↦
      ap (octal_value 0) e
      ∙ octal_digits-value fuel (n / 8) ((48 + n % 8) ∷ digits) (omega (arith, h, large))
      ∙ ap (λ m. octal_value m digits) (omega arith)
]
