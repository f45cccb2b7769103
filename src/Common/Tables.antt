-- ===== src/Common/Tables.antt =====
-- What a query finds after an update.
use mathlib.Core.Path.{◌≡◌, refl, subst}
use mathlib.Core.Bool.{Bool, true, false}
use mathlib.Core.List.{List, [], ◌∷◌, ◌++◌}
use mathlib.Core.Option.{Option, none, some}
use native.Mathlib.Omega.{arith}
use sentinai_project.Common.Tests.{if◌then◌else◌, Bool-cases}
use sentinai_project.Common.Lists.{find_row, update_where, count_where, All}
use mathlib.Core.Logic.{◌⊎◌, inl, inr}
use Prim.Native.Nat.{ℕ, ◌+◌, ◌≤◌}

abbrev pub map_some {ℓ κ} : {A : Type ℓ} {B : Type κ} → (A → B) → Option A → Option B
map_some f none = none
map_some f (some a) = some (f a)

module _ {ℓ} {A : Type ℓ} (p : A → Bool) (f : A → A) where
  -- An update that keeps the rows in the selection.
  pub find_row-update_where :
      (xs : List A)
      → ((x : A) → p x ≡ true → p (f x) ≡ true)
      → find_row p (update_where p f xs) ≡ map_some f (find_row p xs)
  find_row-update_where [] keep = refl
  find_row-update_where (x ∷ xs) keep = elim (Bool-cases (p x)) [
    | inl e ↦ rw e (rw (keep x e))
    | inr e ↦ rw (e, e) (find_row-update_where xs keep)
  ]

  -- An update of other rows.
  pub find_row-update_where_other :
      (q : A → Bool) (xs : List A)
      → ((x : A) → p x ≡ true → (q x ≡ false) × (q (f x) ≡ false))
      → find_row q (update_where p f xs) ≡ find_row q xs
  find_row-update_where_other q [] apart = refl
  find_row-update_where_other q (x ∷ xs) apart = elim (Bool-cases (p x)) [
    | inl e ↦ rw e (rw (apart x e).1 (rw (apart x e).0 (find_row-update_where_other q xs apart)))
    | inr e ↦ ground (arith, e, find_row-update_where_other q xs apart)
  ]

  pub All-update_where {κ} :
      {P : A → Type κ} (xs : List A)
      → ((x : A) → p x ≡ true → P x → P (f x))
      → All P xs
      → All P (update_where p f xs)
  All-update_where [] keep h = tt
  All-update_where {P} (x ∷ xs) keep h = (one (p x) refl, All-update_where xs keep h.1)
    where
      one : (b : Bool) → p x ≡ b → P (if b then f x else x)
      one true e = keep x e h.0
      one false e = h.0

module _ {ℓ} {A : Type ℓ} (p : A → Bool) where
  -- What is found satisfies the condition, and what all rows satisfy.
  pub find_row-holds : (xs : List A) {x : A} → find_row p xs ≡ some x → p x ≡ true
  find_row-holds [] h = cc
  find_row-holds (y ∷ ys) h = elim (Bool-cases (p y)) [
    | inl e ↦ ground (arith, e)
    | inr e ↦ find_row-holds ys (rw e at h)
  ]

  pub find_row-All {κ} :
      (P : A → Type κ) (xs : List A) {x : A} → All P xs → find_row p xs ≡ some x → P x
  find_row-All P [] a h = cc
  find_row-All P (y ∷ ys) {x} a h = elim (Bool-cases (p y)) [
    | inl e ↦ let k : some y ≡ some x = rw e at h in subst P (cc) a.0
    | inr e ↦ find_row-All P ys a.1 (rw e at h)
  ]

pub All-append {ℓ κ} :
    {A : Type ℓ} (P : A → Type κ) (xs ys : List A) → All P xs → All P ys → All P (xs ++ ys)
All-append P [] ys h k = k
All-append P (x ∷ xs) ys h k = (h.0, All-append P xs ys h.1 k)

module _ {ℓ} {A : Type ℓ} (p : A → Bool) where
  pub count_where-append :
      (xs ys : List A) → count_where p (xs ++ ys) ≡ count_where p xs + count_where p ys
  count_where-append [] ys = omega arith
  count_where-append (x ∷ xs) ys = omega (arith, count_where-append xs ys)

  -- What is not found is not there, and what is found is there.
  pub count_where-none : (xs : List A) → find_row p xs ≡ none → count_where p xs ≡ 0
  count_where-none [] h = refl
  count_where-none (x ∷ xs) h = elim (Bool-cases (p x)) [
    | inl e ↦ cc (let k : some x ≡ none = rw e at h in k)
    | inr e ↦ rw e (omega (arith, count_where-none xs (rw e at h)))
  ]

  pub count_where-some : (xs : List A) {x : A} → find_row p xs ≡ some x → 1 ≤ count_where p xs
  count_where-some [] h = cc
  count_where-some (y ∷ ys) h = elim (Bool-cases (p y)) [
    | inl e ↦ rw e (omega arith)
    | inr e ↦ rw e (omega (arith, count_where-some ys (rw e at h)))
  ]

  pub count_where-update_where :
      (q : A → Bool) (f : A → A) (xs : List A)
      → ((x : A) → p (f x) ≡ p x)
      → count_where p (update_where q f xs) ≡ count_where p xs
  count_where-update_where q f [] k = refl
  count_where-update_where q f (x ∷ xs) k = elim (Bool-cases (q x)) [
    | inl e ↦ rw e (rw (k x) (omega (arith, count_where-update_where q f xs k)))
    | inr e ↦ rw e (omega (arith, count_where-update_where q f xs k))
  ]

-- The sum of a column.
abbrev pub sum_of {ℓ} : {A : Type ℓ} → (A → ℕ) → List A → ℕ
sum_of f [] = 0
sum_of f (x ∷ xs) = f x + sum_of f xs

module _ {ℓ} {A : Type ℓ} (g : A → ℕ) where
  pub sum_of-append : (xs ys : List A) → sum_of g (xs ++ ys) ≡ sum_of g xs + sum_of g ys
  sum_of-append [] ys = omega arith
  sum_of-append (x ∷ xs) ys = omega (arith, sum_of-append xs ys)

  -- An update that adds 1 to the column of each row it changes.
  pub sum_of-update_where_suc :
      (p : A → Bool) (f : A → A) (xs : List A)
      → ((x : A) → g (f x) ≡ g x + 1)
      → sum_of g (update_where p f xs) ≡ sum_of g xs + count_where p xs
  sum_of-update_where_suc p f [] k = refl
  sum_of-update_where_suc p f (x ∷ xs) k = elim (Bool-cases (p x)) [
    | inl e ↦ rw e (omega (arith, k x, sum_of-update_where_suc p f xs k))
    | inr e ↦ rw e (omega (arith, sum_of-update_where_suc p f xs k))
  ]

  pub sum_of-update_where :
      (p : A → Bool) (f : A → A) (xs : List A)
      → ((x : A) → g (f x) ≡ g x)
      → sum_of g (update_where p f xs) ≡ sum_of g xs
  sum_of-update_where p f [] k = refl
  sum_of-update_where p f (x ∷ xs) k = elim (Bool-cases (p x)) [
    | inl e ↦ rw e (omega (arith, k x, sum_of-update_where p f xs k))
    | inr e ↦ rw e (omega (arith, sum_of-update_where p f xs k))
  ]

-- Some element of a list is `a`.
abbrev pub OneOf : {A : Type 0} → A → List A → Type 0
OneOf a [] = ⊥
OneOf a (x ∷ xs) = (a ≡ x) ⊎ OneOf a xs
