-- ===== src/Policy/Tiers.antt =====
-- The risk tiers against the other gates, and a missing policy file.
use sentinai_project.Common.{
  ℕ, ◌≤◌, none, some, true, false, List, [], ◌∷◌, ◌≡◌, ◌≢◌, ◌↔◌, refl, arith, ◌||◌, Text, contains,
  or_else, Bool-cases, inl, inr, ◌⊎◌,
}
use sentinai_project.Common.Substrings.{Occurs, contains_complete}
use sentinai_project.Policy.{
  allow, review, block, high, SemanticViolation, Policy, no_policy, load, is_blocked_path,
  is_allowed_path, check_forbidden_patterns, patch_lines, critical_violations, high_violations,
  match_tier, classify, classify_risk, tier_config, decide_tier, check_semantic, check,
}
use sentinai_project.Policy.Gate.{Any, check-allow}

-- A pattern of the list occurs in the path or in the patch.
abbrev pub Touches : List Text → Text → Text → Type 0
Touches patterns patch_file patch = Any (λ p. Occurs p patch_file ⊎ Occurs p patch) patterns

Occurs-contains : (p s : Text) → Occurs p s → contains p s ≡ true
Occurs-contains p s (a, b, e) = rw e (contains_complete p a b)

match_tier-some :
    (patch_file patch : Text) (ps : List Text)
    → Touches ps patch_file patch
    → (p : Text) × (match_tier patch_file patch ps ≡ some p)
unfolding match_tier
match_tier-some patch_file patch [] h = absurd h
match_tier-some patch_file patch (p ∷ ps) h =
    elim (Bool-cases (contains p patch_file || contains p patch)) [
      | inl k ↦ (p, rw k refl)
      | inr k ↦ let (q, e) = match_tier-some patch_file patch ps (rest h k) in (q, rw k e)
    ]
  where
    rest :
        Touches (p ∷ ps) patch_file patch
        → (contains p patch_file || contains p patch) ≡ false
        → Touches ps patch_file patch
    rest (inl (inl o)) k = let c = Occurs-contains p patch_file o in absurd (ground arith)
    rest (inl (inr o)) k = let c = Occurs-contains p patch o in absurd (ground arith)
    rest (inr t) k = t

module _ (policy : Policy) (patch patch_file : Text) (files_changed : ℕ)
    (violations : List SemanticViolation) where
  classify_risk-high :
      Touches policy.high_tier.patterns patch_file patch
      → (classify_risk policy patch_file patch).0 ≡ high
  unfolding classify_risk
  classify_risk-high t =
      let (p, e) = match_tier-some patch_file patch policy.high_tier.patterns t in rw (e, classify)

  -- If the high tier of a policy blocks, a patch in which, or in whose path, one of that tier's
  -- patterns occurs is not allowed.
  pub high_tier-ne-allow :
      policy.high_tier.block ≡ true
      → Touches policy.high_tier.patterns patch_file patch
      → (check policy patch patch_file files_changed violations).decision ≢ allow
  high_tier-ne-allow b t h =
      let open_tier =
        ((check-allow policy patch patch_file files_changed violations).0 h).tier_open in
      let tier = classify_risk-high t in
      let closed : (tier_config policy (classify_risk policy patch_file patch).0).block ≡ true =
        rw tier b in
      cc

check_past_gates :
    (policy : Policy) (patch patch_file : Text) (files_changed : ℕ)
    (violations : List SemanticViolation)
    → is_blocked_path policy patch_file ≡ false
    → is_allowed_path policy patch_file ≡ true
    → check_forbidden_patterns policy patch ≡ []
    → files_changed ≤ or_else policy.max_files_changed 5
    → patch_lines patch ≤ or_else policy.max_patch_lines 120
    → check policy patch patch_file files_changed violations
      ≡ check_semantic policy patch patch_file violations
unfolding check
check_past_gates policy patch patch_file n vs unblocked allowed clean few short =
    rw unblocked (rw allowed (rw clean (ground arith)))

-- If the high tier blocks and one of its patterns occurs in the patch or the path, and the patch
-- clears the path, pattern and size rules, then the decision is block if the validator finds
-- nothing, but only review if it finds something high and nothing critical.
pub high_violation-weakens :
    (policy : Policy) (patch patch_file : Text) (files_changed : ℕ)
    (violations : List SemanticViolation)
    → is_blocked_path policy patch_file ≡ false
    → is_allowed_path policy patch_file ≡ true
    → check_forbidden_patterns policy patch ≡ []
    → files_changed ≤ or_else policy.max_files_changed 5
    → patch_lines patch ≤ or_else policy.max_patch_lines 120
    → policy.high_tier.block ≡ true
    → Touches policy.high_tier.patterns patch_file patch
    → critical_violations violations ≡ []
    → high_violations violations ≢ []
    → ((check policy patch patch_file files_changed []).decision ≡ block)
      × ((check policy patch patch_file files_changed violations).decision ≡ review)
unfolding check_semantic decide_tier critical_violations high_violations
high_violation-weakens policy patch patch_file n vs unblocked allowed clean few short b t c h =
    let tier = classify_risk-high policy patch patch_file n vs t in
    (
      rw (check_past_gates policy patch patch_file n [] unblocked allowed clean few short)
          (rw tier (rw b refl)),
      rw (check_past_gates policy patch patch_file n vs unblocked allowed clean few short)
          (unfold check_semantic in reviewed h),
    )
  where
    reviewed :
        high_violations vs ≢ [] → (check_semantic policy patch patch_file vs).decision ≡ review
    reviewed h = ground (arith, c, h)

-- Without a policy file the gate allows a patch exactly if it changes at most 5 files and has at
-- most 120 lines, and the validator found nothing critical or high.
pub load-none_allow :
    (patch patch_file : Text) (files_changed : ℕ) (violations : List SemanticViolation)
    → ((check (load none) patch patch_file files_changed violations).decision ≡ allow) ↔ (
        (files_changed ≤ 5)
        × (patch_lines patch ≤ 120)
        × (critical_violations violations ≡ [])
        × (high_violations violations ≡ []))
unfolding load classify_risk match_tier classify
load-none_allow patch patch_file n vs = (
  λ h.
      let c = (check-allow no_policy patch patch_file n vs).0 h in
      (c.few_files, c.short, c.uncritical, c.unserious),
  λ h. (check-allow no_policy patch patch_file n vs).1 (record {
    unblocked = λ x. x;
    allowed = tt;
    unforbidden = λ x. x;
    few_files = h.0;
    short = h.1;
    uncritical = h.2;
    unserious = h.3;
    tier_open = refl;
    tier_free = refl;
  }),
)
