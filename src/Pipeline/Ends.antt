-- ===== src/Pipeline/Ends.antt =====
-- The ways in which a run of the pipeline ends, and that there is no other.
use sentinai_project.Common.{◌≡◌, Option, none, some, true, false, Text, Result, ok, err, List, []}
use sentinai_project.Events.{LogIncident}
use sentinai_project.Policy.{allow, PolicyResult}
use sentinai_project.Sandbox.{run_tests, TestResult, Place, Violation}
use sentinai_project.Remediation.{Suggestion, PrCall, Opened, pr_call, Engine, text_or, suggest_fix}
use sentinai_project.Runner.{PatchResult, apply}
use sentinai_project.Audit.{AuditLog}
use sentinai_project.Pipeline.State.{World, Run, PipelineResult, over_limits, not_caught}
use sentinai_project.Pipeline.Fields.{redact, sanitize_incident, sanitize_suggestion}
use sentinai_project.Pipeline.Recording.{finish}
use sentinai_project.Pipeline.{with_pr, gate}

-- The tests of a patch have run: the policy allows it, it was applied, and the sandbox is there.
pub record IsGated (w : World) (s : Suggestion) : Type 0 where
  pub verdict : PolicyResult
  pub judged : gate w s ≡ ok verdict
  pub allowed : verdict.decision ≡ allow
  pub patch : PatchResult
  pub applied : apply w.files (text_or s.proposed_patch []) (text_or s.patch_file []) ≡ ok patch
  pub reported : patch.success ≡ true
  pub sandboxed : w.sandbox_available ≡ true

-- They have passed, and the run is not a dry run.
pub record IsPassed (w : World) (s : Suggestion) : Type 0 where
  pub gated : IsGated w s
  pub test : TestResult
  pub place : Place
  pub tested : run_tests w.ceilings w.config w.docker_available w.exit ≡ ok (test, place)
  pub success : test.success ≡ true
  pub wet : w.dry_run ≡ false

-- The suggestion that the gate sees, for the incident that the engine sees.
abbrev pub gated_suggestion : World → Engine → LogIncident → Suggestion
gated_suggestion w engine incident =
    (sanitize_suggestion (redact w.sanitizer)
      (suggest_fix engine w.surroundings incident "propose_only").1).0

-- The incident that the scanner and the engine see, and the suggestion that the gate sees.
abbrev pub seen : World → LogIncident → LogIncident
seen w incident = (sanitize_incident (redact w.sanitizer) incident).0

abbrev pub suggested : World → Engine → LogIncident → Suggestion
suggested w engine incident = gated_suggestion w engine (seen w incident)

-- The log is as it was, and no pull request was asked for.
pub record IsStart (log : AuditLog) (run : Run) : Type 0 where
  pub logged : run.log ≡ log
  pub uncalled : run.call ≡ none
  pub quiet : run.engine_call ≡ none

-- Why an exception leaves a run: the validator's, the workspace's, or PatchRunner.apply's.
pub data NotCaught (w : World) (s : Suggestion) (exc : Text) : Type 0 where
  unvalidated : gate w s ≡ err exc → NotCaught w s exc
  no_workspace : w.tmpdir ≡ err exc → NotCaught w s exc
  unapplied :
      apply w.files (text_or s.proposed_patch []) (text_or s.patch_file []) ≡ err exc
      → w.cleanup ≡ none
      → NotCaught w s exc
  unclean : w.cleanup ≡ some exc → NotCaught w s exc

-- An early return, one that the removal of the workspace spoils, an exception that nothing catches, or
-- a pull request for a suggestion that passed.
pub data Ends (w : World) (log : AuditLog) (incident : LogIncident) (s : Suggestion) (out : Run)
    : Type 0 where
  early :
      (run : Run) (r : PipelineResult)
      → IsStart log run
      → r.audit_entry ≡ none
      → out ≡ finish w run r
      → Ends w log incident s out
  spoiled :
      (run : Run) (r : PipelineResult) (exc : Text)
      → IsStart log run
      → w.cleanup ≡ some exc
      → out ≡ record (finish w run r) { outcome = err (not_caught exc) }
      → Ends w log incident s out
  raised :
      (run : Run) (vs : List Violation)
      → IsStart log run
      → run_tests w.ceilings w.config w.docker_available w.exit ≡ err vs
      → w.cleanup ≡ none
      → out ≡ record run { outcome = err (over_limits vs) }
      → Ends w log incident s out
  broken :
      (run : Run) (exc : Text)
      → IsStart log run
      → NotCaught w s exc
      → out ≡ record run { outcome = err (not_caught exc) }
      → Ends w log incident s out
  opened :
      (run : Run) (r : PipelineResult) (open_patch_pr : PrCall → Result Text (Option Opened))
      → IsStart log run
      → r.audit_entry ≡ none
      → IsPassed w s
      → w.github ≡ some open_patch_pr
      → out
        ≡ finish w
            (record run { call = some (pr_call incident s s.patch_file) })
            (with_pr s r (open_patch_pr (pr_call incident s s.patch_file)))
      → Ends w log incident s out
