-- ===== src/Sanitizer/Examples.antt =====
-- A text with one secret, and one in which two patterns overlap.
use sentinai_project.Common.{ℕ, some, false, [], ◌∷◌, Text, codes, text_eq, if◌then◌else◌}
use sentinai_project.Sanitizer.{Span, SecretPattern, Settings}

abbrev first : SecretPattern
first = record { name = codes "a"; label = codes "a" }

abbrev second : SecretPattern
second = record { name = codes "b"; label = codes "b" }

abbrev span : ℕ → ℕ → Span
span start stop = record { start = start; stop = stop }

-- In `xSECRETy` the first pattern finds `SECR` and the second `RETy`.
abbrev settings : Settings
settings = record {
  patterns = first ∷ second ∷ [];
  entropy_detection = false;
  find = λ p _. if text_eq p.name (codes "a") then span 1 5 ∷ [] else span 4 8 ∷ [];
  tokens = λ _. [];
  is_random = λ _. false;
  hash = λ t. some t;
}

abbrev secret : Text
secret = codes "SECRETy"
