-- ===== src/Pipeline.antt =====
-- RemediationPipeline of src/services/pipeline.py: sanitize, scan, suggest, policy gate, patch, tests,
-- pull request, audit. The world of a run gives what its parts take from outside.
pub mod State
pub mod Recording
pub mod Fields
pub mod Ends
pub mod Stages
pub mod Passed
pub mod Audited
pub mod Injected
mod Examples
use sentinai_project.Common.{
  ℕ, ◌+◌, min, Option, none, some, Bool, true, false, List, [], ◌∷◌, ◌&&◌, ◌||◌, ◌==◌, not,
  if◌then◌else◌, length, take, Text, Result, ok, err, ◌++◌, codes, is_member, or_else,
}
use sentinai_project.Events.{LogIncident}
use sentinai_project.Policy.{
  Policy, Decision, allow, review, block, RiskTier, SemanticViolation, PolicyResult, check,
  is_semantic_reached,
}
use sentinai_project.Sandbox.{
  SandboxConfig, Ceilings, Violation, Exit, Place, ReturnCode, code, minus, TestResult, run_tests,
}
use sentinai_project.Remediation.{
  Failure, injection_found, llm_stage, policy_block, policy_review, apply_failed,
  sandbox_unavailable, sandbox_blocked, tests_failed, pr_stage, Opened, PrLink, url, result,
  Suggestion, blank_suggestion, PrCall, pr_call, Engine, Surroundings, truthy, text_or, suggest_fix,
}
use sentinai_project.Sanitizer.{Settings, sanitize}
use sentinai_project.Injection.{Pattern, InjectionDetectionResult, scan_fields, labels}
use sentinai_project.Runner.{Files, PatchResult, apply}
use sentinai_project.Validator.Tree.{Node}
use sentinai_project.Validator.{SemanticValidationResult, validate}
use sentinai_project.Audit.{AuditEntry, AuditLog, Writes, record_entry}
use sentinai_project.Pipeline.State.{
  PipelineResult, World, Raised, over_limits, not_caught, Run, new_result,
}
use sentinai_project.Pipeline.Recording.{finish}
use sentinai_project.Pipeline.Fields.{
  redact, clean, clean_option, sanitize_incident, sanitize_suggestion, scanned_fields, unique,
  injection,
}

-- The end of the with block, which removes the workspace: an exception there replaces what the block
-- returned or raised.
pub leave : Option Text → Run → Run
leave none run = run
leave (some exc) run = record run { outcome = err (not_caught exc) }

-- A failure, which the suggestion repeats.
pub failed : Failure → Suggestion → PipelineResult → PipelineResult
failed f s r = record r {
  failure_reason = some f;
  suggestion = record s { provider_error = some f };
}

pub link : Option Opened → Option PrLink
link none = none
link (some o) = some (result o)

-- Stage 4 behind its guards: what open_patch_pr returns is what pr_url gets.
pub with_pr : Suggestion → PipelineResult → Result Text (Option Opened) → PipelineResult
unfolding link
with_pr s r (ok opened) = record r {
  pr_url = link opened;
  suggestion = record s { pr_url = link opened };
}
with_pr s r (err exc) = record r { failure_reason = some (pr_stage exc) }

stage_pr :
    World
    → Run
    → LogIncident
    → Suggestion
    → PipelineResult
    → Option (PrCall → Result Text (Option Opened))
    → Run
stage_pr w run incident s r none = finish w run r
stage_pr w run incident s r (some open_patch_pr) =
    let call = pr_call incident s s.patch_file in
    finish w (record run { call = some call }) (with_pr s r (open_patch_pr call))

is_blocked_code : ReturnCode → Bool
is_blocked_code (code n) = false
is_blocked_code (minus n) = n == 2

-- Behind the with block, for tests that passed.
stage_left : World → Run → LogIncident → Suggestion → PipelineResult → Option Text → Run
unfolding stage_pr
stage_left w run incident s r (some exc) = record run { outcome = err (not_caught exc) }
stage_left w run incident s r none =
    if w.dry_run then finish w run r else stage_pr w run incident s r w.github

-- Stage 3 behind the run of the tests.
stage_tested :
    World
    → Run
    → LogIncident
    → Suggestion
    → PipelineResult
    → Result (List Violation) (TestResult × Place)
    → Run
unfolding stage_left is_blocked_code
stage_tested w run incident s r (err vs) =
    leave w.cleanup (record run { outcome = err (over_limits vs) })
stage_tested w run incident s r (ok (t, place)) =
    let tested = record r { tests_passed = some t.success } in
    let ran = record run { place = some place } in
    if is_blocked_code t.returncode
    then leave w.cleanup (
        finish w ran (record tested {
          was_sandbox_blocked = true;
          patch_applied = false;
          failure_reason = some (sandbox_blocked t.output);
        }))
    else if not t.success
    then leave w.cleanup (
        finish w ran (
          failed (tests_failed (take 500 t.output))
            (record s { confidence = min s.confidence 2000 }) tested))
    else stage_left w ran incident s tested w.cleanup

-- Stage 2 behind the patch, and stage 3.
stage_applied : World → Run → LogIncident → Suggestion → PipelineResult → PatchResult → Run
unfolding stage_tested
stage_applied w run incident s r p =
    let applied = record r { patch_applied = true; sandbox_enforced = w.sandbox_available } in
    if not p.success
    then leave w.cleanup (finish w run (failed (apply_failed p.error) s r))
    else if not w.sandbox_available
    then leave w.cleanup (
        finish w run (record applied {
          was_sandbox_blocked = true;
          patch_applied = false;
          failure_reason = some sandbox_unavailable;
        }))
    else stage_tested w run incident s applied
        (run_tests w.ceilings w.config w.docker_available w.exit)

-- Stage 2, with what PatchRunner.apply returns or raises.
stage_patched :
    World → Run → LogIncident → Suggestion → PipelineResult → Result Text PatchResult → Run
unfolding stage_applied
stage_patched w run incident s r (err exc) =
    leave w.cleanup (record run { outcome = err (not_caught exc) })
stage_patched w run incident s r (ok p) = stage_applied w run incident s r p

-- Stage 2, with the workspace, or the exception of TemporaryDirectory.
stage_workspace : World → Run → LogIncident → Suggestion → PipelineResult → Result Text Text → Run
unfolding stage_patched
stage_workspace w run incident s r (err exc) = record run { outcome = err (not_caught exc) }
stage_workspace w run incident s r (ok tmpdir) =
    stage_patched w run incident s (record r { workspace = some tmpdir })
      (apply w.files (text_or s.proposed_patch []) (text_or s.patch_file []))

-- Stage 2b, with the decision of the policy.
stage_decided :
    World → Run → LogIncident → Suggestion → PipelineResult → PolicyResult → Decision → Run
unfolding stage_workspace
stage_decided w run incident s r p block = finish w run (failed (policy_block p.reasons) s r)
stage_decided w run incident s r p review =
    finish w run (failed (policy_review p.risk_tier p.reasons) s r)
stage_decided w run incident s r p allow = stage_workspace w run incident s r w.tmpdir

-- check behind validate: the steps before it return without the validator.
pub judged : Policy → Text → Text → Result Text SemanticValidationResult → Result Text PolicyResult
judged policy patch file (ok r) = ok (check policy patch file 1 r.violations)
judged policy patch file (err exc) =
    if is_semantic_reached policy patch file 1 then err exc else ok (check policy patch file 1 [])

-- The policy's answer for a suggestion, or the exception that leaves the validator.
pub gate : World → Suggestion → Result Text PolicyResult
unfolding judged
gate w s =
    let patch = text_or s.proposed_patch [] in
    judged w.policy patch (text_or s.patch_file []) (validate w.parse patch)

-- Stage 2b, with the answer.
stage_judged :
    World → Run → LogIncident → Suggestion → PipelineResult → Result Text PolicyResult → Run
unfolding stage_decided
stage_judged w run incident s r (err exc) = record run { outcome = err (not_caught exc) }
stage_judged w run incident s r (ok p) =
    stage_decided w run incident s
      (record r { policy_decision = some p.decision; risk_tier = some p.risk_tier }) p p.decision

-- Stages 1.5 and 2b, on the suggestion that the engine gives.
stage_suggested : World → Run → LogIncident → Suggestion → ℕ → PipelineResult → Run
unfolding stage_judged
stage_suggested w run incident s redactions r =
    let told = record r { redactions_output_count = redactions; suggestion = s } in
    if not (truthy s.proposed_patch) || not (truthy s.patch_file)
    then finish w run told
    else stage_judged w run incident s told (gate w s)

-- Stage 1, in the mode propose_only that suggest_fix has by default.
stage_suggest : World → Run → LogIncident → PipelineResult → Option Text → Run
unfolding stage_suggested
stage_suggest w run incident r (some exc) =
    finish w run (record r { failure_reason = some (llm_stage exc) })
stage_suggest w run incident r none =
    let (engine, s, call) = suggest_fix run.engine w.surroundings incident "propose_only" in
    let (s', redactions) = sanitize_suggestion (redact w.sanitizer) s in
    stage_suggested w (record run { engine = engine; engine_call = call }) incident s' redactions r

-- Stage 0b, with the injection that the scanner found.
stage_scanned : World → Run → LogIncident → PipelineResult → Option (Text × List Text) → Run
unfolding stage_suggest
stage_scanned w run incident r (some (field, labels)) =
    finish w run
      (record r { failure_reason = some (injection_found field labels); injection_blocked = true })
stage_scanned w run incident r none = stage_suggest w run incident r w.raised

-- run, on the state that the process has.
pub run_pipeline : World → Engine → AuditLog → LogIncident → Run
unfolding stage_scanned injection scanned_fields
run_pipeline w engine log incident =
    let (clean_incident, redactions) = sanitize_incident (redact w.sanitizer) incident in
    let r = record (new_result incident) { redactions_input_count = redactions } in
    let start : Run = record {
      engine = engine;
      log = log;
      engine_call = none;
      call = none;
      place = none;
      outcome = ok r;
    } in
    stage_scanned w start clean_incident r
      (injection (scan_fields w.patterns (scanned_fields clean_incident)))
