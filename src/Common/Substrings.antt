-- ===== src/Common/Substrings.antt =====
-- What the tests of Strings decide.
use mathlib.Core.Path.{◌≡◌, refl, ap, sym}
use mathlib.Core.Logic.{inl, inr}
use mathlib.Core.Bool.{true}
use mathlib.Core.List.{[], ◌∷◌, ◌++◌}
use native.Mathlib.Omega.{arith}
use sentinai_project.Common.Tests.{Bool-cases}
use sentinai_project.Common.Strings.{Text, starts_with, contains}

-- `p` begins `s`.
abbrev pub Begins : Text → Text → Type 0
Begins p s = (b : Text) × (s ≡ p ++ b)

-- `p` stands somewhere in `s`.
abbrev pub Occurs : Text → Text → Type 0
Occurs p s = (a : Text) × (b : Text) × (s ≡ a ++ (p ++ b))

pub starts_with_sound : (p s : Text) → starts_with p s ≡ true → Begins p s
starts_with_sound [] s h = (s, refl)
starts_with_sound (c ∷ p) [] h = cc
starts_with_sound (c ∷ p) (d ∷ s) h =
    let same : c ≡ d = ground arith in
    let (b, e) = starts_with_sound p s (ground arith) in (b, λ i. same' same i ∷ e i)
  where
    same' : c ≡ d → d ≡ c
    same' = sym

pub starts_with_complete : (p b : Text) → starts_with p (p ++ b) ≡ true
starts_with_complete [] b = refl
starts_with_complete (c ∷ p) b = ground (arith, starts_with_complete p b)

pub contains_sound : (p s : Text) → contains p s ≡ true → Occurs p s
contains_sound p [] h = let (b, e) = starts_with_sound p [] h in ([], b, e)
contains_sound p (d ∷ s) h = elim (Bool-cases (starts_with p (d ∷ s))) [
  | inl k ↦ let (b, e) = starts_with_sound p (d ∷ s) k in ([], b, e)
  | inr k ↦ let (a, b, e) = contains_sound p s (ground (arith, k)) in (d ∷ a, b, ap (◌∷◌ d) e)
]

contains-starts : (p s : Text) → starts_with p s ≡ true → contains p s ≡ true
contains-starts p [] h = h
contains-starts p (d ∷ s) h = ground (arith, h)

pub contains_complete : (p a b : Text) → contains p (a ++ (p ++ b)) ≡ true
contains_complete p [] b = contains-starts p (p ++ b) (starts_with_complete p b)
contains_complete p (c ∷ a) b = ground (arith, contains_complete p a b)
