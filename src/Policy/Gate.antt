-- ===== src/Policy/Gate.antt =====
-- What the decisions of the gate mean.
use sentinai_project.Common.{
  ℕ, ◌≤◌, Bool, true, false, List, [], ◌∷◌, ◌≡◌, ◌↔◌, refl, arith, ltb, filter_rows, any_of, Text,
  starts_with, contains, rstrip, or_else, Bool-cases, inl, inr, ◌⊎◌,
}
use sentinai_project.Common.Substrings.{
  Begins, Occurs, starts_with_sound, starts_with_complete, contains_sound, contains_complete,
}
use sentinai_project.Policy.{
  allow, RiskTier, SemanticViolation, Policy, slash, is_blocked_path, is_allowed, is_allowed_path,
  check_forbidden_patterns, patch_lines, critical_violations, high_violations, is_nonempty,
  classify_risk, tier_config, decide_tier, check_semantic, check, is_semantic_reached, Reason,
}

-- Some element of a list.
abbrev pub Any : (Text → Type 0) → List Text → Type 0
Any P [] = ⊥
Any P (x ∷ xs) = P x ⊎ Any P xs

-- A path that a prefix list names: the prefixes are taken without their slashes at the end.
abbrev pub Names : List Text → Text → Type 0
Names prefixes path = Any (λ b. Begins (rstrip slash b) path) prefixes

abbrev pub IsAllowedBy : List Text → Text → Type 0
IsAllowedBy [] path = Unit
IsAllowedBy (a ∷ allowed) path = Names (a ∷ allowed) path

Names-any :
    (prefixes : List Text) (path : Text)
    → (any_of (λ b. starts_with (rstrip slash b) path) prefixes ≡ true) ↔ Names prefixes path
Names-any prefixes path = (sound prefixes, complete prefixes)
  where
    sound :
        (bs : List Text) → any_of (λ b. starts_with (rstrip slash b) path) bs ≡ true → Names bs path
    sound [] h = absurd (no h)
      where
        no : false ≡ true → ⊥
        no e = cc
    sound (b ∷ bs) h = elim (Bool-cases (starts_with (rstrip slash b) path)) [
      | inl k ↦ inl (starts_with_sound (rstrip slash b) path k)
      | inr k ↦ inr (sound bs (ground (arith, k)))
    ]

    complete :
        (bs : List Text) → Names bs path → any_of (λ b. starts_with (rstrip slash b) path) bs ≡ true
    complete [] h = absurd h
    complete (b ∷ bs) (inl (t, e)) = rw (e, starts_with_complete (rstrip slash b) t) refl
    complete (b ∷ bs) (inr k) = ground (arith, complete bs k)

pattern_found_iff :
    (patterns : List Text) (patch : Text)
    → (is_nonempty (filter_rows (λ p. contains p patch) patterns) ≡ true)
      ↔ Any (λ p. Occurs p patch) patterns
pattern_found_iff patterns patch = (sound patterns, complete patterns)
  where
    sound :
        (ps : List Text)
        → is_nonempty (filter_rows (λ p. contains p patch) ps) ≡ true
        → Any (λ p. Occurs p patch) ps
    sound [] h = absurd (no h)
      where
        no : false ≡ true → ⊥
        no e = cc
    sound (p ∷ ps) h = elim (Bool-cases (contains p patch)) [
      | inl k ↦ inl (contains_sound p patch k)
      | inr k ↦ inr (sound ps (rw k at h))
    ]

    complete :
        (ps : List Text)
        → Any (λ p. Occurs p patch) ps
        → is_nonempty (filter_rows (λ p. contains p patch) ps) ≡ true
    complete [] h = absurd h
    complete (p ∷ ps) (inl (a, b, e)) = rw (e, contains_complete p a b) refl
    complete (p ∷ ps) (inr k) = elim (Bool-cases (contains p patch)) [
      | inl c ↦ rw c refl
      | inr c ↦ rw c (complete ps k)
    ]

allowed-names :
    (allowed : List Text) (path : Text)
    → (is_allowed allowed path ≡ true) ↔ IsAllowedBy allowed path
unfolding is_allowed
allowed-names [] path = (λ _. tt, λ _. refl)
allowed-names (a ∷ allowed) path = Names-any (a ∷ allowed) path

not_iff : {P : Type 0} (b : Bool) → (b ≡ true) ↔ P → (b ≡ false) ↔ (¬ P)
not_iff true e = (λ h. absurd (no h), λ n. absurd (n (e.0 refl)))
  where
    no : true ≡ false → ⊥
    no h = cc
not_iff false e = (λ h p. no (e.1 p), λ n. refl)
  where
    no : false ≡ true → ⊥
    no h = cc

nonempty-eq {ℓ} : {A : Type ℓ} (xs : List A) → (is_nonempty xs ≡ false) ↔ (xs ≡ [])
nonempty-eq [] = (λ _. refl, λ _. refl)
nonempty-eq (x ∷ xs) = (λ h. cc, λ h. cc)

-- Everything that a patch has to satisfy, said without the tests of the code.
pub record Clears (policy : Policy) (patch patch_file : Text) (files_changed : ℕ)
    (violations : List SemanticViolation) : Type 0 where
  pub unblocked : ¬ Names policy.blocked_paths patch_file
  pub allowed : IsAllowedBy policy.allowed_paths patch_file
  pub unforbidden : ¬ Any (λ p. Occurs p patch) policy.forbidden_patterns
  pub few_files : files_changed ≤ or_else policy.max_files_changed 5
  pub short : patch_lines patch ≤ or_else policy.max_patch_lines 120
  pub uncritical : critical_violations violations ≡ []
  pub unserious : high_violations violations ≡ []
  pub tier_open : (tier_config policy (classify_risk policy patch_file patch).0).block ≡ false
  pub tier_free :
      (tier_config policy (classify_risk policy patch_file patch).0).require_human_review ≡ false

module _ (policy : Policy) (patch patch_file : Text) (files_changed : ℕ)
    (violations : List SemanticViolation) where
  decide_tier-allow :
      (r : RiskTier × List Reason)
      → ((decide_tier policy r).decision ≡ allow) ↔ (
          ((tier_config policy r.0).block ≡ false)
          × ((tier_config policy r.0).require_human_review ≡ false))
  unfolding decide_tier
  decide_tier-allow (tier, reasons) = (λ h. ground arith, λ h. ground arith)

  check_tests : ((check policy patch patch_file files_changed violations).decision ≡ allow) ↔ (
      (is_blocked_path policy patch_file ≡ false)
      × (is_allowed_path policy patch_file ≡ true)
      × (is_nonempty (check_forbidden_patterns policy patch) ≡ false)
      × (ltb (or_else policy.max_files_changed 5) files_changed ≡ false)
      × (ltb (or_else policy.max_patch_lines 120) (patch_lines patch) ≡ false)
      × (is_nonempty (critical_violations violations) ≡ false)
      × (is_nonempty (high_violations violations) ≡ false)
      × ((decide_tier policy (classify_risk policy patch_file patch)).decision ≡ allow))
  unfolding check check_semantic
  check_tests = (λ h. ground arith, λ h. ground arith)

  -- The gate allows a patch exactly if it clears every rule of the policy: the path is in no
  -- blocked and in an allowed prefix, no forbidden pattern occurs in the patch, it is within both
  -- limits, the validator found nothing critical or high, and its risk tier neither blocks nor
  -- asks for a review.
  pub check-allow :
      ((check policy patch patch_file files_changed violations).decision ≡ allow)
      ↔ Clears policy patch patch_file files_changed violations
  check-allow = (
    λ h.
        let t = check_tests.0 h in
        let tier = (decide_tier-allow (classify_risk policy patch_file patch)).0 t.7 in
        record {
          unblocked = blocked.0 t.0;
          allowed =
              (allowed-names policy.allowed_paths patch_file).0 (unfold is_allowed_path in t.1);
          unforbidden = forbidden.0 (unfold check_forbidden_patterns in t.2);
          few_files = ground (arith, t.3);
          short = ground (arith, t.4);
          uncritical = (nonempty-eq (critical_violations violations)).0 t.5;
          unserious = (nonempty-eq (high_violations violations)).0 t.6;
          tier_open = tier.0;
          tier_free = tier.1;
        },
    λ c. check_tests.1 (
      blocked.1 c.unblocked,
      (unfold is_allowed_path in (allowed-names policy.allowed_paths patch_file).1 c.allowed),
      (unfold check_forbidden_patterns in forbidden.1 c.unforbidden),
      ground (arith, c.few_files),
      ground (arith, c.short),
      (nonempty-eq (critical_violations violations)).1 c.uncritical,
      (nonempty-eq (high_violations violations)).1 c.unserious,
      (decide_tier-allow (classify_risk policy patch_file patch)).1 (c.tier_open, c.tier_free),
    ),
  )
    where
      blocked :
          (is_blocked_path policy patch_file ≡ false) ↔ (¬ Names policy.blocked_paths patch_file)
      blocked =
          unfold is_blocked_path in
          not_iff (any_of (λ b. starts_with (rstrip slash b) patch_file) policy.blocked_paths)
            (Names-any policy.blocked_paths patch_file)

      forbidden :
          (is_nonempty (filter_rows (λ p. contains p patch) policy.forbidden_patterns) ≡ false)
          ↔ (¬ Any (λ p. Occurs p patch) policy.forbidden_patterns)
      forbidden = not_iff _ (pattern_found_iff policy.forbidden_patterns patch)

-- Where check does not come to the validator, its answer does not depend on the violations.
pub check-unreached :
    (policy : Policy) (patch patch_file : Text) (files_changed : ℕ)
    (violations others : List SemanticViolation)
    → is_semantic_reached policy patch patch_file files_changed ≡ false
    → check policy patch patch_file files_changed violations
      ≡ check policy patch patch_file files_changed others
unfolding check is_semantic_reached
check-unreached policy patch patch_file files_changed violations others h = ground arith
