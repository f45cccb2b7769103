-- ===== src/Validator/Gate.antt =====
-- What the validator makes of a patch at the policy gate.
use sentinai_project.Common.{
  text_eq_sound, ℕ, ◌≡◌, ◌≢◌, refl, sym, ap, subst, arith, inl, inr, Bool, true, false, List, [],
  ◌∷◌, ◌++◌, none, filter_rows, Text, codes, text_eq, is_member, Bool-cases, is_blank, Result, ok,
  All,
}
use sentinai_project.Policy.{
  Policy, allow, SemanticViolation, check, critical_violations, is_nonempty,
}
use sentinai_project.Policy.Gate.{check-allow}
use sentinai_project.Validator.Tree.{Node, call, Keywords, Entered, node, name_of}
use sentinai_project.Validator.Auth.{auth_flags}
use sentinai_project.Validator.Priv.{
  priv_flags, chmod_flags, danger_flags, danger_violation, dangerous_calls, is_match, has_shell,
}
use sentinai_project.Validator.Reach.{Somewhere, visit-reaches}
use sentinai_project.Validator.{
  ParseError, SemanticValidationResult, add_flags, run_rule, run_rules, parsed, source_of, validate,
}

-- The names of the entries of _DANGEROUS_CALLS that are critical whatever the arguments.
abbrev pub critical_calls : List Text
critical_calls =
    codes "subprocess.call"
    ∷ codes "os.system"
    ∷ codes "os.popen"
    ∷ codes "os.execv"
    ∷ codes "os.execve"
    ∷ codes "os.setuid"
    ∷ codes "os.setgid"
    ∷ codes "eval"
    ∷ codes "exec"
    ∷ codes "pickle.loads"
    ∷ codes "pickle.load"
    ∷ codes "marshal.loads"
    ∷ codes "yaml.load"
    ∷ []

-- A call of one of them.
abbrev pub IsCriticalCall : Entered → Type 0
IsCriticalCall (node (call f as' ks)) = is_member (name_of f) critical_calls ≡ true
IsCriticalCall _ = ⊥

-- A list of violations with a critical one.
abbrev HasCritical : List SemanticViolation → Type 0
HasCritical vs = is_nonempty (critical_violations vs) ≡ true

filter-left :
    (p : SemanticViolation → Bool) (vs ws : List SemanticViolation)
    → is_nonempty (filter_rows p vs) ≡ true
    → is_nonempty (filter_rows p (vs ++ ws)) ≡ true
filter-left p [] ws h = cc
filter-left p (v ∷ vs) ws h = elim (Bool-cases (p v)) [
  | inl e ↦ rw e refl
  | inr e ↦ rw e (filter-left p vs ws (rw e at h))
]

filter-right :
    (p : SemanticViolation → Bool) (vs ws : List SemanticViolation)
    → is_nonempty (filter_rows p ws) ≡ true
    → is_nonempty (filter_rows p (vs ++ ws)) ≡ true
filter-right p [] ws h = h
filter-right p (v ∷ vs) ws h = elim (Bool-cases (p v)) [
  | inl e ↦ rw e refl
  | inr e ↦ rw e (filter-right p vs ws h)
]

HasCritical-left : (vs ws : List SemanticViolation) → HasCritical vs → HasCritical (vs ++ ws)
unfolding critical_violations
HasCritical-left vs ws h = filter-left _ vs ws h

HasCritical-right : (vs ws : List SemanticViolation) → HasCritical ws → HasCritical (vs ++ ws)
unfolding critical_violations
HasCritical-right vs ws h = filter-right _ vs ws h

-- Each of the names gives a critical violation, whatever the keywords.
abbrev IsCaught : Text → Type 0
IsCaught n = (ks : Keywords) → HasCritical (danger_flags n ks dangerous_calls)

all-IsCaught : All IsCaught critical_calls
unfolding danger_flags danger_violation is_match dangerous_calls critical_violations
all-IsCaught = (
  subprocess,
  (
    λ ks. refl,
    (
      λ ks. refl,
      (
        λ ks. refl,
        (
          λ ks. refl,
          (
            λ ks. refl,
            (
              λ ks. refl,
              (
                λ ks. refl,
                (λ ks. refl, (λ ks. refl, (λ ks. refl, (λ ks. refl, (λ ks. refl, tt))))),
              ),
            ),
          ),
        ),
      ),
    ),
  ),
)
  where
    subprocess : IsCaught (codes "subprocess.call")
    subprocess ks = elim (Bool-cases (has_shell ks)) [ inl e ↦ rw e refl | inr e ↦ rw e refl ]

danger_flags-critical :
    (n : Text) (ks : Keywords) (names : List Text)
    → All IsCaught names
    → is_member n names ≡ true
    → HasCritical (danger_flags n ks dangerous_calls)
danger_flags-critical n ks [] a h = cc
danger_flags-critical n ks (m ∷ names) a h = elim (Bool-cases (text_eq n m)) [
  | inl e ↦
      subst (λ k. HasCritical (danger_flags k ks dangerous_calls)) (sym (text_eq_sound n m e))
        (a.0 ks)
  | inr e ↦ danger_flags-critical n ks names a.1 (ground (arith, e, h))
]

priv_flags-critical : (e : Entered) → IsCriticalCall e → HasCritical (priv_flags e)
unfolding priv_flags
priv_flags-critical (node (call f as' ks)) h =
    HasCritical-left _ (chmod_flags (name_of f) as')
      (danger_flags-critical (name_of f) ks critical_calls all-IsCaught h)
priv_flags-critical _ h = absurd h

run_priv-critical :
    (tree : Node) → Somewhere IsCriticalCall tree → HasCritical (run_rule priv_flags tree)
unfolding run_rule
run_priv-critical tree h =
    visit-reaches (add_flags priv_flags) HasCritical
      (λ e vs q. HasCritical-left vs (priv_flags e) q) IsCriticalCall
      (λ e vs p. HasCritical-right vs (priv_flags e) (priv_flags-critical e p)) tree [] h

pub run_rules-critical :
    (tree : Node) → Somewhere IsCriticalCall tree → HasCritical (run_rules tree)
unfolding run_rules
run_rules-critical tree h =
    HasCritical-right (run_rule auth_flags tree) _
      (HasCritical-left (run_rule priv_flags tree) _ (run_priv-critical tree h))

validate-parsed :
    (parse : Text → Result ParseError Node) (patch : Text) {r : Result ParseError Node}
    → is_blank patch ≡ false
    → is_blank (source_of patch) ≡ false
    → parse (source_of patch) ≡ r
    → validate parse patch ≡ parsed r
unfolding validate
validate-parsed parse patch b c h = rw (b, c) (ap parsed h)

-- If a patch and the source that is taken from it are not blank and that source parses to a tree
-- in which, at any depth, a call of one of the critical names stands, then validate returns a
-- result, and the gate, given its violations, does not allow the patch, whatever the policy, the
-- path and the number of files.
pub critical_call-ne-allow :
    (policy : Policy) (parse : Text → Result ParseError Node) (patch patch_file : Text)
    (files_changed : ℕ) (tree : Node)
    → is_blank patch ≡ false
    → is_blank (source_of patch) ≡ false
    → parse (source_of patch) ≡ ok tree
    → Somewhere IsCriticalCall tree
    → (r : SemanticValidationResult) × (validate parse patch ≡ ok r)
      × ((check policy patch patch_file files_changed r.violations).decision ≢ allow)
unfolding parsed
critical_call-ne-allow policy parse patch patch_file files_changed tree b c h s = (
  record { violations = run_rules tree; parse_error = none },
  validate-parsed parse patch b c h,
  λ a.
      let clears = (check-allow policy patch patch_file files_changed (run_rules tree)).0 a in
      let found : HasCritical (run_rules tree) = run_rules-critical tree s in
      cc (found, clears.uncritical),
)
