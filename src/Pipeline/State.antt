-- ===== src/Pipeline/State.antt =====
-- What a run of src/services/pipeline.py takes, carries and leaves.
use sentinai_project.Common.{ℕ, Option, none, Bool, false, List, Text, Result}
use sentinai_project.Events.{LogIncident}
use sentinai_project.Policy.{Policy, Decision, RiskTier}
use sentinai_project.Sandbox.{SandboxConfig, Ceilings, Violation, Exit, Place}
use sentinai_project.Remediation.{
  Failure, Opened, PrLink, Suggestion, blank_suggestion, PrCall, Engine, Surroundings,
}
use sentinai_project.Sanitizer.{Settings}
use sentinai_project.Injection.{Pattern}
use sentinai_project.Runner.{Files}
use sentinai_project.Validator.Tree.{Node}
use sentinai_project.Validator.{ParseError}
use sentinai_project.Audit.{AuditEntry, AuditLog, Writes}

pub record PipelineResult : Type 0 where
  pub incident : LogIncident
  pub suggestion : Suggestion
  pub patch_applied : Bool
  pub tests_passed : Option Bool
  pub pr_url : Option PrLink
  pub failure_reason : Option Failure
  pub workspace : Option Text
  pub policy_decision : Option Decision
  pub risk_tier : Option RiskTier
  pub audit_entry : Option AuditEntry
  pub redactions_input_count : ℕ
  pub redactions_output_count : ℕ
  pub sandbox_enforced : Bool
  pub was_sandbox_blocked : Bool
  pub injection_blocked : Bool

-- What a run meets. `raised` is an exception that leaves suggest_fix, `tmpdir` the workspace or why
-- there is none, `cleanup` an exception when it is removed, `exit` the end of the tests' process, and
-- `audit_raises` an exception that leaves AuditLogger.record before anything is written: a patch or an
-- entry that has no encoding.
pub record World : Type 0 where
  pub dry_run : Bool
  pub policy : Policy
  pub surroundings : Surroundings
  pub raised : Option Text
  pub sanitizer : Settings
  pub patterns : List Pattern
  pub parse : Text → Result ParseError Node
  pub files : Files
  pub tmpdir : Result Text Text
  pub cleanup : Option Text
  pub sandbox_available : Bool
  pub ceilings : Ceilings
  pub config : SandboxConfig
  pub docker_available : Bool
  pub exit : Exit
  pub github : Option (PrCall → Result Text (Option Opened))
  pub sha256 : Text → Text
  pub writes : Writes
  pub audit_time : ℕ
  pub audit_raises : PipelineResult → Option Text

-- The ValueError of the enforcer, or an exception of the validator, the workspace or PatchRunner.apply.
pub data Raised : Type 0 where
  over_limits : List Violation → Raised
  not_caught : Text → Raised

-- What a run leaves: the engine's limiters and metrics, the audit log, the calls of open_patch_pr that
-- the engine and the last stage made, where the tests ran, and the result, or what nothing catches.
pub record Run : Type 0 where
  pub engine : Engine
  pub log : AuditLog
  pub engine_call : Option PrCall
  pub call : Option PrCall
  pub place : Option Place
  pub outcome : Result Raised PipelineResult

-- The result that a run starts with.
unfoldable pub new_result : LogIncident → PipelineResult
new_result incident = record {
  incident = incident;
  suggestion = blank_suggestion;
  patch_applied = false;
  tests_passed = none;
  pr_url = none;
  failure_reason = none;
  workspace = none;
  policy_decision = none;
  risk_tier = none;
  audit_entry = none;
  redactions_input_count = 0;
  redactions_output_count = 0;
  sandbox_enforced = false;
  was_sandbox_blocked = false;
  injection_blocked = false;
}
