-- ===== src/Pipeline/Audited.antt =====
-- What a run of the pipeline leaves in the audit log.
use sentinai_project.Common.{ℕ, ◌∷◌, true, ◌≡◌, none, some, List, Text, ok, err}
use sentinai_project.Sandbox.{run_tests, Violation}
use sentinai_project.Remediation.{Suggestion}
use sentinai_project.Audit.{AuditLog, AuditEntry}
use sentinai_project.Audit.Added.{IsAdded}
use sentinai_project.Policy.{review}
use sentinai_project.Pipeline.State.{World, Run, PipelineResult, over_limits, not_caught}
use sentinai_project.Pipeline.Ends.{NotCaught}

-- An entry that says of a result what happened.
pub record IsEntry (w : World) (r : PipelineResult) (entry : AuditEntry) : Type 0 where
  pub incident : entry.incident_id ≡ r.incident.incident_id
  pub model : entry.model ≡ r.suggestion.model
  pub provider : entry.provider ≡ r.suggestion.source
  pub patch_file : entry.patch_file ≡ r.suggestion.patch_file
  pub hash :
      (c : ℕ) (patch : Text)
      → r.suggestion.proposed_patch ≡ some (c ∷ patch)
      → entry.patch_hash ≡ some (w.sha256 (c ∷ patch))
  pub decision : entry.policy_decision ≡ r.policy_decision
  pub tier : entry.risk_tier ≡ r.risk_tier
  pub reviewed : r.policy_decision ≡ some review → entry.review_required ≡ true
  pub applied : entry.patch_applied ≡ r.patch_applied
  pub tested : entry.tests_passed ≡ r.tests_passed
  pub link : entry.pr_url ≡ r.pr_url
  pub failure : entry.failure_reason ≡ r.failure_reason
  pub confidence : entry.confidence ≡ r.suggestion.confidence

-- A result is recorded in the log once, or the audit has raised and the log is as it was.
pub data IsLogged (w : World) (r : PipelineResult) (log log' : AuditLog) : Type 0 where
  logged :
      (entry : AuditEntry)
      → w.audit_raises r ≡ none
      → IsEntry w r entry
      → IsAdded w.writes log log' entry
      → IsLogged w r log log'
  unlogged : (exc : Text) → w.audit_raises r ≡ some exc → log' ≡ log → IsLogged w r log log'

-- The ends of a run, with what each leaves in the log and what the caller gets.
pub data IsRecorded (w : World) (s : Suggestion) (log : AuditLog) (run : Run) : Type 0 where
  entered :
      (r : PipelineResult) (entry : AuditEntry)
      → w.audit_raises r ≡ none
      → IsEntry w r entry
      → IsAdded w.writes log run.log entry
      → run.outcome ≡ ok (record r { audit_entry = some entry })
      → IsRecorded w s log run
  unrecorded :
      (r : PipelineResult) (exc : Text)
      → w.audit_raises r ≡ some exc
      → run.log ≡ log
      → r.audit_entry ≡ none
      → run.outcome ≡ ok r
      → IsRecorded w s log run
  enforced :
      (vs : List Violation)
      → run_tests w.ceilings w.config w.docker_available w.exit ≡ err vs
      → w.cleanup ≡ none
      → run.log ≡ log
      → run.outcome ≡ err (over_limits vs)
      → IsRecorded w s log run
  escaped :
      (exc : Text)
      → NotCaught w s exc
      → run.log ≡ log
      → run.outcome ≡ err (not_caught exc)
      → IsRecorded w s log run
  lost :
      (r : PipelineResult) (exc : Text)
      → w.cleanup ≡ some exc
      → IsLogged w r log run.log
      → run.outcome ≡ err (not_caught exc)
      → IsRecorded w s log run
