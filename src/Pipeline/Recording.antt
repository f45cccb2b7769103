-- ===== src/Pipeline/Recording.antt =====
-- _record_audit of src/services/pipeline.py, which ends every run that returns.
use sentinai_project.Common.{Option, none, some, Bool, true, false, Text, ok}
use sentinai_project.Policy.{Decision, review}
use sentinai_project.Audit.{AuditEntry, AuditLog, record_entry}
use sentinai_project.Pipeline.State.{PipelineResult, World, Run}

abbrev pub is_review : Option Decision → Bool
is_review (some review) = true
is_review _ = false

-- The arguments of _record_audit's call; `record` puts in the time and the hash.
unfoldable pub audit_values : PipelineResult → AuditEntry
audit_values r = record {
  timestamp = 0;
  incident_id = r.incident.incident_id;
  model = r.suggestion.model;
  provider = r.suggestion.source;
  patch_file = r.suggestion.patch_file;
  patch_hash = none;
  policy_decision = r.policy_decision;
  risk_tier = r.risk_tier;
  review_required = is_review r.policy_decision;
  patch_applied = r.patch_applied;
  tests_passed = r.tests_passed;
  pr_url = r.pr_url;
  failure_reason = r.failure_reason;
  confidence = r.suggestion.confidence;
  source = r.suggestion.source;
}

-- AuditLogger.record with them.
unfoldable pub recorded : World → PipelineResult → AuditLog → AuditLog × AuditEntry
recorded w r log =
    record_entry w.sha256 w.writes w.audit_time r.suggestion.proposed_patch (audit_values r) log

-- Behind record: an exception is logged, and the result has no entry.
unfoldable pub audited : World → PipelineResult → AuditLog → Option Text → AuditLog × PipelineResult
unfolding recorded
audited w r log none =
    let (log', entry) = recorded w r log in (log', record r { audit_entry = some entry })
audited w r log (some exc) = (log, r)

unfoldable pub record_audit : World → PipelineResult → AuditLog → AuditLog × PipelineResult
unfolding audited
record_audit w r log = audited w r log (w.audit_raises r)

-- `self._record_audit(result); return result`, at the state that the run has reached.
unfoldable pub finish : World → Run → PipelineResult → Run
finish w run r =
    let (log, r') = record_audit w r run.log in record run { log = log; outcome = ok r' }
