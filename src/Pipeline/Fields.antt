-- ===== src/Pipeline/Fields.antt =====
-- The sanitizing helpers of src/services/pipeline.py, and what it scans for injections.
use sentinai_project.Common.{
  ℕ, ◌+◌, Option, none, some, List, [], ◌∷◌, if◌then◌else◌, length, Text, ◌++◌, codes, is_member,
  or_else,
}
use sentinai_project.Events.{LogIncident}
use sentinai_project.Remediation.{Suggestion}
use sentinai_project.Sanitizer.{Settings, sanitize}
use sentinai_project.Injection.{InjectionDetectionResult, labels}

-- The text and the number of redactions of a result.
unfoldable pub redact : Settings → Text → Text × ℕ
redact k text = let r = sanitize k text in (r.text, length r.redactions)

-- The sanitizer on a field, which an empty text does not reach.
unfoldable pub clean : (Text → Text × ℕ) → Text → Text × ℕ
clean sanitize [] = ([], 0)
clean sanitize (c ∷ t) = sanitize (c ∷ t)

unfoldable pub clean_option : (Text → Text × ℕ) → Option Text → Option Text × ℕ
clean_option sanitize none = (none, 0)
clean_option sanitize (some []) = (some [], 0)
clean_option sanitize (some (c ∷ t)) = let (t', n) = sanitize (c ∷ t) in (some t', n)

unfoldable pub sanitize_incident : (Text → Text × ℕ) → LogIncident → LogIncident × ℕ
unfolding clean
sanitize_incident sanitize incident =
    let (trigger_line, a) = clean sanitize incident.trigger_line in
    let (stacktrace, b) = clean sanitize incident.stacktrace in
    let (context, c) = clean sanitize incident.context_before_error in
    (
      record incident {
        trigger_line = trigger_line;
        stacktrace = stacktrace;
        context_before_error = context;
      },
      a + b + c,
    )

unfoldable pub sanitize_suggestion : (Text → Text × ℕ) → Suggestion → Suggestion × ℕ
unfolding clean clean_option
sanitize_suggestion sanitize s =
    let (summary, a) = clean sanitize s.summary in
    let (patch, b) = clean_option sanitize s.proposed_patch in
    let (risks, c) = clean sanitize s.risks in
    let (guidance, d) = clean_option sanitize s.test_guidance in
    (
      record s {
        summary = summary;
        proposed_patch = patch;
        risks = risks;
        test_guidance = guidance;
      },
      a + b + c + d,
    )

unfoldable pub scanned_fields : LogIncident → List (Text × Text)
scanned_fields incident =
    (codes "trigger_line", incident.trigger_line)
    ∷ (codes "stacktrace", incident.stacktrace)
    ∷ (codes "context_before_error", incident.context_before_error)
    ∷ []

-- dict.fromkeys, behind the keys that it has.
unfoldable pub unique : List Text → List Text → List Text
unique seen [] = seen
unique seen (label ∷ labels) =
    unique (if is_member label seen then seen else seen ++ label ∷ []) labels

-- The field and the labels that are reported, if there is an injection.
unfoldable pub injection : InjectionDetectionResult → Option (Text × List Text)
unfolding unique
injection r =
    if r.is_injection
    then some (or_else r.flagged_field (codes "None"), unique [] (labels r))
    else none
