-- ===== src/Opening/Numerals.antt =====
-- The digits that are printed for a number are those of the number: the fuel is enough.
use sentinai_project.Common.{
  ℕ, zero, suc, ◌+◌, ◌-◌, ◌*◌, ◌/◌, ◌%◌, ◌<◌, ◌≡◌, ap, ◌∙◌, arith, [], ◌∷◌, ◌==◌, Text, Bool-cases,
  inl, inr,
}
use sentinai_project.Opening.{decimal_digits, decimal}

-- The number that digits stand for, behind `n`.
pub value : ℕ → Text → ℕ
value n [] = n
value n (d ∷ digits) = value (n * 10 + (d - 48)) digits

decimal_digits-value :
    (fuel n : ℕ) (digits : Text)
    → n < fuel
    → value 0 (decimal_digits fuel n digits) ≡ value n digits
unfolding decimal_digits value
decimal_digits-value zero n digits h = absurd (omega (arith, h))
decimal_digits-value (suc fuel) n digits h = elim (Bool-cases (n / 10 == 0)) [
  | inl e ↦ rw e (ap (λ m. value m digits) (ground (arith, e)))
  | inr e ↦ rw e (
      decimal_digits-value fuel (n / 10) ((48 + n % 10) ∷ digits) (ground (arith, h, e))
      ∙ ap (λ m. value m digits) (omega arith))
]

-- The digits printed for a number, read again, give that number.
pub decimal-value : (n : ℕ) → value 0 (decimal n) ≡ n
unfolding decimal value
decimal-value n = decimal_digits-value (n + 1) n [] (omega arith)
