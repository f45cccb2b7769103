-- ===== src/Pipeline/Injected.antt =====
-- A run in which the scanner finds an injection.
use sentinai_project.Common.{
  ◌≡◌, refl, none, some, true, List, Text, ok, or_else, codes, [], ℕ, ◌∷◌, ◌⊎◌, inl, inr, ap,
  Option, OneOf, false,
}
use sentinai_project.Events.{LogIncident}
use sentinai_project.Remediation.{Engine, injection_found}
use sentinai_project.Audit.{AuditLog, AuditEntry}
use sentinai_project.Injection.{InjectionDetectionResult, scan_fields, labels}
use sentinai_project.Injection.Found.{IsSuspicious, scan_fields-found}
use sentinai_project.Pipeline.State.{World, Run, PipelineResult, new_result}
use sentinai_project.Pipeline.Fields.{scanned_fields, injection, unique, sanitize_incident, redact}
use sentinai_project.Pipeline.Recording.{finish, record_audit, audited}
use sentinai_project.Pipeline.{stage_scanned, run_pipeline}
use sentinai_project.Pipeline.Ends.{seen}

-- No provider, pull request or test is reached, and the result says that it was blocked, and why.
pub record IsBlocked (engine : Engine) (run : Run) : Type 0 where
  pub kept : run.engine ≡ engine
  pub no_engine_call : run.engine_call ≡ none
  pub no_call : run.call ≡ none
  pub no_test : run.place ≡ none
  pub final : PipelineResult
  pub returned : run.outcome ≡ ok final
  pub blocked : final.injection_blocked ≡ true
  pub unpatched : final.patch_applied ≡ false
  pub field : Text
  pub found : List Text
  pub reason : final.failure_reason ≡ some (injection_found field found)

-- The texts that the scanner gets, in the field of the incident that the provider would see.
abbrev pub IsScanned : LogIncident → Text → Type 0
IsScanned incident text =
    (text ≡ incident.trigger_line)
    ⊎ ((text ≡ incident.stacktrace) ⊎ (text ≡ incident.context_before_error))

scanned_fields-IsScanned :
    (incident : LogIncident) (text : Text)
    → IsScanned incident text
    → (field : Text) × OneOf (field, text) (scanned_fields incident)
unfolding scanned_fields
scanned_fields-IsScanned incident text (inl e) =
    (codes "trigger_line", inl (ap (λ t. (codes "trigger_line", t)) e))
scanned_fields-IsScanned incident text (inr (inl e)) =
    (codes "stacktrace", inr (inl (ap (λ t. (codes "stacktrace", t)) e)))
scanned_fields-IsScanned incident text (inr (inr e)) =
    (codes "context_before_error", inr (inr (inl (ap (λ t. (codes "context_before_error", t)) e))))

injection-some :
    (r : InjectionDetectionResult)
    → r.is_injection ≡ true
    → (x : Text × List Text) × (injection r ≡ some x)
unfolding injection
injection-some r h = ((or_else r.flagged_field (codes "None"), unique [] (labels r)), rw h refl)

-- Auditing changes only the entry of the result.
finish-IsBlocked :
    (w : World) (run : Run) (r : PipelineResult) (field : Text) (found : List Text)
    → run.engine_call ≡ none
    → run.call ≡ none
    → run.place ≡ none
    → r.injection_blocked ≡ true
    → r.patch_applied ≡ false
    → r.failure_reason ≡ some (injection_found field found)
    → IsBlocked run.engine (finish w run r)
unfolding finish record_audit audited
finish-IsBlocked w run r field found a b c i p f = record {
  kept = refl;
  no_engine_call = a;
  no_call = b;
  no_test = c;
  final = (audited w r run.log (w.audit_raises r)).1;
  returned = refl;
  blocked = after (λ x. x.injection_blocked ≡ true) (λ e. i) i (w.audit_raises r);
  unpatched = after (λ x. x.patch_applied ≡ false) (λ e. p) p (w.audit_raises r);
  field = field;
  found = found;
  reason =
      after (λ x. x.failure_reason ≡ some (injection_found field found)) (λ e. f) f
        (w.audit_raises r);
}
  where
    after :
        (P : PipelineResult → Type 0)
        → ((e : AuditEntry) → P (record r { audit_entry = some e }))
        → P r
        → (o : Option Text) → P (audited w r run.log o).1
    after P k q none = k _
    after P k q (some exc) = q

stage_scanned-IsBlocked :
    (w : World) (run : Run) (incident : LogIncident) (r : PipelineResult) (x : Text × List Text)
    → run.engine_call ≡ none
    → run.call ≡ none
    → run.place ≡ none
    → r.patch_applied ≡ false
    → IsBlocked run.engine (stage_scanned w run incident r (some x))
unfolding stage_scanned
stage_scanned-IsBlocked w run incident r x a b c p =
    finish-IsBlocked w run
      (record r { failure_reason = some (injection_found x.0 x.1); injection_blocked = true }) x.0
      x.1 a b c refl p refl

-- If the trigger line, the stack trace or the context of the sanitized incident is a text that is
-- not empty and has a match of one of the scanner's patterns or a part of more than 200 characters
-- between white space, the run leaves the engine as it was, calls open_patch_pr in neither place,
-- runs no tests, applies no patch, and returns a result that is marked as blocked, with an
-- injection as its reason.
pub run_pipeline-IsBlocked :
    (w : World) (engine : Engine) (log : AuditLog) (incident : LogIncident) (c : ℕ) (text : Text)
    → IsScanned (seen w incident) (c ∷ text)
    → IsSuspicious w.patterns (c ∷ text)
    → IsBlocked engine (run_pipeline w engine log incident)
unfolding run_pipeline new_result
run_pipeline-IsBlocked w engine log incident c text i h =
    let (field, o) = scanned_fields-IsScanned (seen w incident) (c ∷ text) i in
    let fields = scanned_fields (seen w incident) in
    let (x, e) =
      injection-some (scan_fields w.patterns fields)
        (scan_fields-found w.patterns fields field c text o h) in
    let r = record (new_result incident) {
      redactions_input_count = (sanitize_incident (redact w.sanitizer) incident).1;
    } in
    rw e (stage_scanned-IsBlocked w _ (seen w incident) r x refl refl refl refl)
