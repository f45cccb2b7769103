-- ===== src/Pipeline/Stages.antt =====
-- How each stage of the pipeline ends, and that a run ends in no other way.
use sentinai_project.Common.{
  ℕ, if◌then◌else◌, ◌≡◌, refl, ap, arith, Option, none, some, Bool, true, false, not, ◌||◌, Text,
  Result, ok, err, List, [], Option-cases, inl, inr,
}
use sentinai_project.Events.{LogIncident}
use sentinai_project.Policy.{Decision, allow, review, block, PolicyResult}
use sentinai_project.Sandbox.{run_tests, TestResult, Place, Violation}
use sentinai_project.Remediation.{
  Suggestion, PrCall, Opened, Engine, Surroundings, truthy, text_or, suggest_fix,
}
use sentinai_project.Runner.{PatchResult, apply}
use sentinai_project.Remediation.Gated.{suggest_fix-opens}
use sentinai_project.Audit.{AuditLog}
use sentinai_project.Pipeline.State.{
  World, Run, PipelineResult, new_result, over_limits, not_caught,
}
use sentinai_project.Pipeline.Fields.{redact, sanitize_suggestion}
use sentinai_project.Pipeline.Recording.{finish}
use sentinai_project.Pipeline.{
  leave, failed, stage_pr, stage_left, stage_judged, stage_workspace, stage_tested, stage_applied,
  stage_patched, stage_decided, stage_suggested, stage_suggest, stage_scanned, run_pipeline, gate,
  is_blocked_code,
}
use sentinai_project.Pipeline.Ends.{
  IsGated, IsPassed, gated_suggestion, seen, suggested, IsStart, unvalidated, no_workspace,
  unapplied, unclean, Ends, early, spoiled, raised, broken, opened,
}

not-false : (b : Bool) → not b ≡ false → b ≡ true
not-false b h = ground arith

module _ (w : World) (log : AuditLog) (incident : LogIncident) (s : Suggestion) where
  -- A guard with an early return.
  if-Ends :
      (b : Bool) {first late : Run}
      → Ends w log incident s first
      → (b ≡ false → Ends w log incident s late)
      → Ends w log incident s (if b then first else late)
  if-Ends true h k = h
  if-Ends false h k = k refl

  finish-Ends :
      (run : Run) (r : PipelineResult)
      → IsStart log run
      → r.audit_entry ≡ none
      → Ends w log incident s (finish w run r)
  finish-Ends run r i n = early run r i n refl

  leave-finish-Ends :
      (run : Run) (r : PipelineResult)
      → IsStart log run
      → r.audit_entry ≡ none
      → Ends w log incident s (leave w.cleanup (finish w run r))
  unfolding leave
  leave-finish-Ends run r i n = elim (Option-cases w.cleanup) [
    | inl e ↦ early run r i n (ap (λ c. leave c (finish w run r)) e)
    | inr (exc, e) ↦ spoiled run r exc i e (ap (λ c. leave c (finish w run r)) e)
  ]

  leave-raised-Ends :
      (run : Run) (vs : List Violation)
      → IsStart log run
      → run_tests w.ceilings w.config w.docker_available w.exit ≡ err vs
      → Ends w log incident s (leave w.cleanup (record run { outcome = err (over_limits vs) }))
  unfolding leave
  leave-raised-Ends run vs i t = elim (Option-cases w.cleanup) [
    | inl e ↦
        raised run vs i t e (ap (λ c. leave c (record run { outcome = err (over_limits vs) })) e)
    | inr (exc, e) ↦
        broken run exc i (unclean e)
          (ap (λ c. leave c (record run { outcome = err (over_limits vs) })) e)
  ]

  leave-unapplied-Ends :
      (run : Run) (exc : Text)
      → IsStart log run
      → apply w.files (text_or s.proposed_patch []) (text_or s.patch_file []) ≡ err exc
      → Ends w log incident s (leave w.cleanup (record run { outcome = err (not_caught exc) }))
  unfolding leave
  leave-unapplied-Ends run exc i h = elim (Option-cases w.cleanup) [
    | inl e ↦
        broken run exc i (unapplied h e)
          (ap (λ c. leave c (record run { outcome = err (not_caught exc) })) e)
    | inr (other, e) ↦
        broken run other i (unclean e)
          (ap (λ c. leave c (record run { outcome = err (not_caught exc) })) e)
  ]

  stage_pr-Ends :
      (run : Run) (r : PipelineResult) (github : Option (PrCall → Result Text (Option Opened)))
      → IsStart log run
      → r.audit_entry ≡ none
      → IsPassed w s
      → w.github ≡ github
      → Ends w log incident s (stage_pr w run incident s r github)
  unfolding stage_pr
  stage_pr-Ends run r none i n p g = finish-Ends run r i n
  stage_pr-Ends run r (some f) i n p g = opened run r f i n p g refl

  stage_left-Ends :
      (run : Run) (r : PipelineResult) (cleanup : Option Text)
      → IsStart log run
      → r.audit_entry ≡ none
      → (w.dry_run ≡ false → IsPassed w s)
      → w.cleanup ≡ cleanup
      → Ends w log incident s (stage_left w run incident s r cleanup)
  unfolding stage_left
  stage_left-Ends run r (some exc) i n p e = broken run exc i (unclean e) refl
  stage_left-Ends run r none i n p e =
      if-Ends w.dry_run (finish-Ends run r i n)
        (λ wet. stage_pr-Ends run r w.github i n (p wet) refl)

  stage_tested-Ends :
      (run : Run) (r : PipelineResult) (o : Result (List Violation) (TestResult × Place))
      → IsStart log run
      → r.audit_entry ≡ none
      → IsGated w s
      → run_tests w.ceilings w.config w.docker_available w.exit ≡ o
      → Ends w log incident s (stage_tested w run incident s r o)
  unfolding stage_tested failed
  stage_tested-Ends run r (err vs) i n g e = leave-raised-Ends run vs i e
  stage_tested-Ends run r (ok (t, place)) i n g e =
      let ran = record run { place = some place } in
      let i' : IsStart log ran = record {
        logged = i.logged;
        uncalled = i.uncalled;
        quiet = i.quiet;
      } in
      if-Ends (is_blocked_code t.returncode) (leave-finish-Ends ran _ i' n) (λ _.
        if-Ends (not t.success) (leave-finish-Ends ran _ i' n) (λ passed.
          stage_left-Ends ran _ w.cleanup i' n
            (λ wet. record {
              gated = g;
              test = t;
              place = place;
              tested = e;
              success = not-false t.success passed;
              wet = wet;
            })
            refl))

  stage_applied-Ends :
      (run : Run) (r : PipelineResult) (p : PatchResult) (verdict : PolicyResult)
      → IsStart log run
      → r.audit_entry ≡ none
      → gate w s ≡ ok verdict
      → verdict.decision ≡ allow
      → apply w.files (text_or s.proposed_patch []) (text_or s.patch_file []) ≡ ok p
      → Ends w log incident s (stage_applied w run incident s r p)
  unfolding stage_applied failed
  stage_applied-Ends run r p verdict i n j a h =
      if-Ends (not p.success) (leave-finish-Ends run _ i n) (λ success.
        if-Ends (not w.sandbox_available) (leave-finish-Ends run _ i n) (λ there.
          stage_tested-Ends run
            (record r { patch_applied = true; sandbox_enforced = w.sandbox_available }) _ i n
            (record {
              verdict = verdict;
              judged = j;
              allowed = a;
              patch = p;
              applied = h;
              reported = not-false p.success success;
              sandboxed = not-false w.sandbox_available there;
            })
            refl))

  stage_patched-Ends :
      (run : Run) (r : PipelineResult) (o : Result Text PatchResult) (verdict : PolicyResult)
      → IsStart log run
      → r.audit_entry ≡ none
      → gate w s ≡ ok verdict
      → verdict.decision ≡ allow
      → apply w.files (text_or s.proposed_patch []) (text_or s.patch_file []) ≡ o
      → Ends w log incident s (stage_patched w run incident s r o)
  unfolding stage_patched
  stage_patched-Ends run r (err exc) verdict i n j a h = leave-unapplied-Ends run exc i h
  stage_patched-Ends run r (ok p) verdict i n j a h = stage_applied-Ends run r p verdict i n j a h

  stage_workspace-Ends :
      (run : Run) (r : PipelineResult) (o : Result Text Text) (verdict : PolicyResult)
      → IsStart log run
      → r.audit_entry ≡ none
      → gate w s ≡ ok verdict
      → verdict.decision ≡ allow
      → w.tmpdir ≡ o
      → Ends w log incident s (stage_workspace w run incident s r o)
  unfolding stage_workspace
  stage_workspace-Ends run r (err exc) verdict i n j a h = broken run exc i (no_workspace h) refl
  stage_workspace-Ends run r (ok tmpdir) verdict i n j a h =
      stage_patched-Ends run (record r { workspace = some tmpdir }) _ verdict i n j a refl

  stage_decided-Ends :
      (run : Run) (r : PipelineResult) (p : PolicyResult) (d : Decision)
      → IsStart log run
      → r.audit_entry ≡ none
      → gate w s ≡ ok p
      → p.decision ≡ d
      → Ends w log incident s (stage_decided w run incident s r p d)
  unfolding stage_decided failed
  stage_decided-Ends run r p block i n j a = finish-Ends run _ i n
  stage_decided-Ends run r p review i n j a = finish-Ends run _ i n
  stage_decided-Ends run r p allow i n j a = stage_workspace-Ends run r w.tmpdir p i n j a refl

  stage_judged-Ends :
      (run : Run) (r : PipelineResult) (o : Result Text PolicyResult)
      → IsStart log run
      → r.audit_entry ≡ none
      → gate w s ≡ o
      → Ends w log incident s (stage_judged w run incident s r o)
  unfolding stage_judged
  stage_judged-Ends run r (err exc) i n j = broken run exc i (unvalidated j) refl
  stage_judged-Ends run r (ok p) i n j = stage_decided-Ends run _ p p.decision i n j refl

  stage_suggested-Ends :
      (run : Run) (redactions : ℕ) (r : PipelineResult)
      → IsStart log run
      → r.audit_entry ≡ none
      → Ends w log incident s (stage_suggested w run incident s redactions r)
  unfolding stage_suggested
  stage_suggested-Ends run redactions r i n =
      if-Ends (not (truthy s.proposed_patch) || not (truthy s.patch_file)) (finish-Ends run _ i n)
        (λ _.
          stage_judged-Ends run (record r { redactions_output_count = redactions; suggestion = s })
            _ i n refl)

-- In the mode propose_only the engine asks for no pull request.
suggest_fix-none :
    (e : Engine) (c : Surroundings) (incident : LogIncident)
    → (suggest_fix e c incident "propose_only").2 ≡ none
suggest_fix-none e c incident = elim (Option-cases (suggest_fix e c incident "propose_only").2) [
  | inl h ↦ h
  | inr (call, h) ↦ cc (let k = suggest_fix-opens e c incident "propose_only" h in k.automatic)
]

module _ (w : World) (log : AuditLog) (incident : LogIncident) (r : PipelineResult)
    (n : r.audit_entry ≡ none) where
  stage_suggest-Ends :
      (run : Run) (exc : Option Text)
      → IsStart log run
      → Ends w log incident
          (gated_suggestion w run.engine incident)
          (stage_suggest w run incident r exc)
  unfolding stage_suggest
  stage_suggest-Ends run (some exc) i = finish-Ends w log incident _ run _ i n
  stage_suggest-Ends run none i =
      let answer = suggest_fix run.engine w.surroundings incident "propose_only" in
      let cleaned = sanitize_suggestion (redact w.sanitizer) answer.1 in
      stage_suggested-Ends w log incident cleaned.0
        (record run { engine = answer.0; engine_call = answer.2 }) cleaned.1 r
        (record {
          logged = i.logged;
          uncalled = i.uncalled;
          quiet = suggest_fix-none run.engine w.surroundings incident;
        })
        n

  stage_scanned-Ends :
      (run : Run) (found : Option (Text × List Text))
      → IsStart log run
      → Ends w log incident
          (gated_suggestion w run.engine incident)
          (stage_scanned w run incident r found)
  unfolding stage_scanned
  stage_scanned-Ends run (some found) i = finish-Ends w log incident _ run _ i n
  stage_scanned-Ends run none i = stage_suggest-Ends run w.raised i

pub run_pipeline-Ends :
    (w : World) (engine : Engine) (log : AuditLog) (incident : LogIncident)
    → Ends w log
        (seen w incident)
        (suggested w engine incident)
        (run_pipeline w engine log incident)
unfolding run_pipeline new_result
run_pipeline-Ends w engine log incident =
    stage_scanned-Ends w log (seen w incident) _ refl _ _
      (record { logged = refl; uncalled = refl; quiet = refl })
