-- ===== src/Policy.antt =====
-- The policy gate: PatchPolicyEngine of src/services/policy_engine.py.
-- `validate` stands for PatchSemanticValidator.validate of src/services/patch_semantic_validator.py;
-- what it returns is the argument `violations`. The parsed policy file is a record in which a missing
-- key has the default that the code gives it.
pub mod Gate
pub mod Tiers
pub mod Repository
mod Examples
use sentinai_project.Common.{
  is_break, ℕ, zero, suc, ◌+◌, String, Option, none, some, Bool, true, false, List, [], ◌∷◌, ◌++◌,
  ◌&&◌, ◌||◌, ltb, ◌==◌, leb, not, if◌then◌else◌, filter_rows, any_of, Text, starts_with, contains,
  rstrip, map, or_else,
}

pub data Decision : Type 0 where
  allow review block : Decision

pub data RiskTier : Type 0 where
  low medium high critical : RiskTier

-- Severity and SemanticViolation of the validator, with the fields that the gate reads.
pub data Severity : Type 0 where
  critical high medium low : Severity

pub record SemanticViolation : Type 0 where
  pub code : Text
  pub message : Text
  pub severity : Severity

-- The reasons of a result: each constructor is one f-string, with its values.
pub data Reason : Type 0 where
  blocked_path not_allowed_path forbidden_pattern : Text → Reason
  too_many_files too_many_lines : ℕ → ℕ → Reason
  semantic : Text → Text → Reason
  matched : RiskTier → Text → Reason

pub record PolicyResult : Type 0 where
  pub decision : Decision
  pub reasons : List Reason
  pub risk_tier : RiskTier

pub record TierConfig : Type 0 where
  pub block : Bool
  pub require_human_review : Bool
  pub patterns : List Text

pub record Policy : Type 0 where
  pub blocked_paths : List Text
  pub allowed_paths : List Text
  pub forbidden_patterns : List Text
  pub max_files_changed : Option ℕ
  pub max_patch_lines : Option ℕ
  pub high_tier : TierConfig
  pub medium_tier : TierConfig
  pub low_tier : TierConfig

abbrev pub no_tier : TierConfig
no_tier = record { block = false; require_human_review = false; patterns = [] }

-- The empty dict.
abbrev pub no_policy : Policy
no_policy = record {
  blocked_paths = [];
  allowed_paths = [];
  forbidden_patterns = [];
  max_files_changed = none;
  max_patch_lines = none;
  high_tier = no_tier;
  medium_tier = no_tier;
  low_tier = no_tier;
}

-- _load: `none` is a file that is not found.
unfoldable pub load : Option Policy → Policy
load file = or_else file no_policy

abbrev pub slash : ℕ
slash = b'/'

unfoldable pub is_blocked_path : Policy → Text → Bool
is_blocked_path policy path = any_of (λ b. starts_with (rstrip slash b) path) policy.blocked_paths

-- `if not allowed: return True`, and then the test of each prefix.
unfoldable pub is_allowed : List Text → Text → Bool
is_allowed [] path = true
is_allowed (a ∷ allowed) path = any_of (λ a. starts_with (rstrip slash a) path) (a ∷ allowed)

unfoldable pub is_allowed_path : Policy → Text → Bool
unfolding is_allowed
is_allowed_path policy path = is_allowed policy.allowed_paths path

unfoldable pub check_forbidden_patterns : Policy → Text → List Text
check_forbidden_patterns policy patch =
    filter_rows (λ p. contains p patch) policy.forbidden_patterns

pub data LineState : Type 0 where
  fresh after_cr inside : LineState

-- Whether a character ends a line, given what stands before it: `\r\n` ends one line.
pub ends_line : LineState → ℕ → Bool
ends_line after_cr c = c == 13 || (is_break c && not (c == 10))
ends_line _ c = c == 13 || is_break c

pub next_state : LineState → ℕ → LineState
next_state st c = if c == 13 then after_cr else if is_break c then fresh else inside

pub count_lines : LineState → Text → ℕ
count_lines inside [] = 1
count_lines _ [] = 0
count_lines st (c ∷ t) = (if ends_line st c then 1 else 0) + count_lines (next_state st c) t

-- len(patch.splitlines())
unfoldable pub patch_lines : Text → ℕ
unfolding count_lines ends_line next_state
patch_lines patch = count_lines fresh patch

abbrev is_critical : SemanticViolation → Bool
is_critical v = elim v.severity [ Severity.critical ↦ true | _ ↦ false ]

abbrev is_high : SemanticViolation → Bool
is_high v = elim v.severity [ Severity.high ↦ true | _ ↦ false ]

unfoldable pub critical_violations : List SemanticViolation → List SemanticViolation
critical_violations vs = filter_rows is_critical vs

unfoldable pub high_violations : List SemanticViolation → List SemanticViolation
high_violations vs = filter_rows is_high vs

-- `bool(xs)`
abbrev pub is_nonempty {ℓ} : {A : Type ℓ} → List A → Bool
is_nonempty [] = false
is_nonempty (_ ∷ _) = true

abbrev semantic_reasons : List SemanticViolation → List Reason
semantic_reasons vs = map (λ v. semantic v.code v.message) vs

-- The first pattern of a tier that stands in the file's path or in the patch.
unfoldable pub match_tier : Text → Text → List Text → Option Text
match_tier patch_file patch [] = none
match_tier patch_file patch (p ∷ ps) =
    if contains p patch_file || contains p patch then some p else match_tier patch_file patch ps

-- The loop over ("high", "medium", "low").
pub classify : Option Text → Option Text → Option Text → RiskTier × List Reason
classify (some p) _ _ = (high, matched high p ∷ [])
classify none (some p) _ = (medium, matched medium p ∷ [])
classify none none (some p) = (low, matched low p ∷ [])
classify none none none = (low, [])

unfoldable pub classify_risk : Policy → Text → Text → RiskTier × List Reason
unfolding classify
classify_risk policy patch_file patch =
    classify (match_tier patch_file patch policy.high_tier.patterns)
      (match_tier patch_file patch policy.medium_tier.patterns)
      (match_tier patch_file patch policy.low_tier.patterns)

-- `tiers.get(tier, {})`; no tier is called critical.
abbrev pub tier_config : Policy → RiskTier → TierConfig
tier_config policy low = policy.low_tier
tier_config policy medium = policy.medium_tier
tier_config policy high = policy.high_tier
tier_config policy critical = no_tier

-- Step 7 of check.
unfoldable pub decide_tier : Policy → RiskTier × List Reason → PolicyResult
decide_tier policy (tier, reasons) =
    let config = tier_config policy tier in
    if config.block
    then record { decision = block; reasons = reasons; risk_tier = tier }
    else if config.require_human_review
    then record { decision = review; reasons = reasons; risk_tier = tier }
    else record { decision = allow; reasons = reasons; risk_tier = tier }

-- Step 6 of check, and 7 behind it.
unfoldable pub check_semantic : Policy → Text → Text → List SemanticViolation → PolicyResult
check_semantic policy patch patch_file violations =
    if is_nonempty (critical_violations violations)
    then record {
      decision = block;
      reasons = semantic_reasons (critical_violations violations);
      risk_tier = critical;
    }
    else if is_nonempty (high_violations violations)
    then record {
      decision = review;
      reasons = semantic_reasons (high_violations violations);
      risk_tier = high;
    }
    else decide_tier policy (classify_risk policy patch_file patch)

abbrev pub blocked_for : List Reason → PolicyResult
blocked_for reasons = record { decision = block; reasons = reasons; risk_tier = high }

-- check: the steps in the order of the code.
unfoldable pub check : Policy → Text → Text → ℕ → List SemanticViolation → PolicyResult
check policy patch patch_file files_changed violations =
    let forbidden = check_forbidden_patterns policy patch in
    let max_files = or_else policy.max_files_changed 5 in
    let max_lines = or_else policy.max_patch_lines 120 in
    if is_blocked_path policy patch_file
    then blocked_for (blocked_path patch_file ∷ [])
    else if not (is_allowed_path policy patch_file)
    then blocked_for (not_allowed_path patch_file ∷ [])
    else if is_nonempty forbidden
    then blocked_for (map forbidden_pattern forbidden)
    else if ltb max_files files_changed
    then blocked_for (too_many_files files_changed max_files ∷ [])
    else if ltb max_lines (patch_lines patch)
    then blocked_for (too_many_lines (patch_lines patch) max_lines ∷ [])
    else check_semantic policy patch patch_file violations

-- Whether check comes to step 6, where it calls validate.
unfoldable pub is_semantic_reached : Policy → Text → Text → ℕ → Bool
is_semantic_reached policy patch patch_file files_changed =
    not (is_blocked_path policy patch_file)
    && is_allowed_path policy patch_file
    && not (is_nonempty (check_forbidden_patterns policy patch))
    && leb files_changed (or_else policy.max_files_changed 5)
    && leb (patch_lines patch) (or_else policy.max_patch_lines 120)
