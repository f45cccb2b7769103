-- ===== src/Policy/Examples.antt =====
-- Patches under the repository's policy.
use sentinai_project.Common.{List, [], ◌∷◌, ◌≡◌, ◌↔◌, refl, arith, codes, Text, inl, inr}
use sentinai_project.Policy.{
  allow, review, block, Severity, SemanticViolation, check, is_blocked_path, is_allowed_path,
  is_allowed, check_forbidden_patterns, patch_lines, critical_violations, high_violations,
  check_semantic, classify_risk, match_tier, decide_tier,
}
use sentinai_project.Policy.Gate.{Clears, check-allow}
use sentinai_project.Policy.Tiers.{high_violation-weakens}
use sentinai_project.Policy.Repository.{repository_policy}

abbrev patch : Text
patch = codes "+ x = 1\n+ y = 2\n"

abbrev found : List SemanticViolation
found = record { code = codes "SEC001"; message = codes "m"; severity = Severity.high } ∷ []

allowed_test_file : (check repository_policy patch (codes "tests/t.py") 1 []).decision ≡ allow
unfolding check check_semantic is_blocked_path is_allowed_path is_allowed check_forbidden_patterns
    patch_lines critical_violations high_violations classify_risk match_tier decide_tier
allowed_test_file = refl

check-allow_example :
    ((check repository_policy patch (codes "tests/t.py") 1 []).decision ≡ allow)
    ↔ Clears repository_policy patch (codes "tests/t.py") 1 []
check-allow_example = check-allow repository_policy patch (codes "tests/t.py") 1 []

high_violation-weakens_example :
    ((check repository_policy patch (codes "src/auth.py") 1 []).decision ≡ block)
    × ((check repository_policy patch (codes "src/auth.py") 1 found).decision ≡ review)
unfolding is_blocked_path is_allowed_path is_allowed check_forbidden_patterns patch_lines
    critical_violations high_violations
high_violation-weakens_example =
    high_violation-weakens repository_policy patch (codes "src/auth.py") 1 found refl refl refl
      (omega arith) (omega arith) refl (inr (inl (inl (codes "src/", codes ".py", refl)))) refl
      (λ e. cc)
