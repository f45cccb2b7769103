-- ===== src/Common/Strings.antt =====
-- Text as code points, for the code that walks it: `startswith`, `in`, `rstrip`, `splitlines`.
use Prim.Native.Nat.{ℕ}
use Prim.Native.Char.{code}
use Prim.Native.String.{String}
use mathlib.Core.Bool.{Bool, true, false, ◌||◌, ◌&&◌}
use mathlib.Core.List.{List, [], ◌∷◌}
use sentinai_project.Common.Tests.{if◌then◌else◌, ◌==◌}

abbrev pub Text : Type 0
Text = List ℕ

-- The code points of a literal.
abbrev pub codes : String → Text
codes String.[] = []
codes (String.◌∷◌ c s) = code c ∷ codes s

-- `s.startswith(p)`, with the prefix first.
abbrev pub starts_with : Text → Text → Bool
starts_with [] s = true
starts_with (c ∷ p) [] = false
starts_with (c ∷ p) (d ∷ s) = c == d && starts_with p s

-- `p in s`.
abbrev pub contains : Text → Text → Bool
contains p [] = starts_with p []
contains p (d ∷ s) = starts_with p (d ∷ s) || contains p s

-- `s.rstrip(c)` for one character.
abbrev pub rstrip : ℕ → Text → Text
rstrip c [] = []
rstrip c (d ∷ s) = elim (rstrip c s) [ [] ↦ (if d == c then [] else d ∷ []) | x ∷ r ↦ d ∷ x ∷ r ]
