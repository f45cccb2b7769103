-- ===== src/Pipeline/Passed.antt =====
-- What a run of the pipeline has passed when it opens a pull request, and what the audit log has of it.
use sentinai_project.Common.{
  ◌≡◌, refl, ap, sym, ◌∙◌, Option, none, some, false, Text, Result, ok, err,
}
use sentinai_project.Events.{LogIncident}
use sentinai_project.Remediation.{Suggestion, PrCall, Opened, pr_call, result, Engine}
use sentinai_project.Audit.{AuditLog, AuditEntry}
use sentinai_project.Audit.Agree.{record_entry_refused}
use sentinai_project.Pipeline.State.{World, Run, PipelineResult}
use sentinai_project.Pipeline.Recording.{finish, audited, recorded, record_audit, audit_values}
use sentinai_project.Pipeline.{with_pr, link, run_pipeline}
use sentinai_project.Pipeline.Stages.{run_pipeline-Ends}
use sentinai_project.Pipeline.Ends.{
  early, spoiled, raised, broken, opened, IsPassed, seen, suggested,
}

some_eq {ℓ} : {A : Type ℓ} {a b : A} → some a ≡ some b → b ≡ a
some_eq h = cc

-- If a run of the pipeline calls open_patch_pr in its last stage, then for the sanitized
-- suggestion the policy's decision is allow, PatchRunner.apply reported success for its patch, the
-- sandbox is available, the tests returned with success, and the run is not a dry run; and the
-- call is the one for that suggestion and its patch_file.
pub run_pipeline-opens :
    (w : World) (engine : Engine) (log : AuditLog) (incident : LogIncident) {call : PrCall}
    → (run_pipeline w engine log incident).call ≡ some call
    → IsPassed w (suggested w engine incident)
      × (call
          ≡ pr_call
              (seen w incident)
              (suggested w engine incident)
              (suggested w engine incident).patch_file)
unfolding finish
run_pipeline-opens w engine log incident {call} h = elim (run_pipeline-Ends w engine log incident) [
  | early run r i n e ↦
      cc (let k : run.call ≡ some call = sym (ap (λ o. o.call) e) ∙ h in k, i.uncalled)
  | spoiled run r exc i c e ↦
      cc (let k : run.call ≡ some call = sym (ap (λ o. o.call) e) ∙ h in k, i.uncalled)
  | raised run vs i t c e ↦
      cc (let k : run.call ≡ some call = sym (ap (λ o. o.call) e) ∙ h in k, i.uncalled)
  | broken run exc i t e ↦
      cc (let k : run.call ≡ some call = sym (ap (λ o. o.call) e) ∙ h in k, i.uncalled)
  | opened run r f i n p g e ↦ (p, some_eq (sym (ap (λ o. o.call) e) ∙ h))
]

-- The engine of a pipeline's run calls open_patch_pr in no run: only the last stage, behind the
-- gates, may.
pub run_pipeline-quiet :
    (w : World) (engine : Engine) (log : AuditLog) (incident : LogIncident)
    → (run_pipeline w engine log incident).engine_call ≡ none
unfolding finish
run_pipeline-quiet w engine log incident = elim (run_pipeline-Ends w engine log incident) [
  | early run r i n e ↦ ap (λ o. o.engine_call) e ∙ i.quiet
  | spoiled run r exc i c e ↦ ap (λ o. o.engine_call) e ∙ i.quiet
  | raised run vs i t c e ↦ ap (λ o. o.engine_call) e ∙ i.quiet
  | broken run exc i t e ↦ ap (λ o. o.engine_call) e ∙ i.quiet
  | opened run r f i n p g e ↦ ap (λ o. o.engine_call) e ∙ i.quiet
]

-- An entry that the database refuses is not in the table.
finish_refused :
    (w : World) (run : Run) (r : PipelineResult) {o : Opened}
    → ((entry : AuditEntry) → entry.pr_url ≡ some (result o) → w.writes.database entry ≡ false)
    → r.pr_url ≡ some (result o)
    → (finish w run r).log.rows ≡ run.log.rows
unfolding finish record_audit audited recorded audit_values
finish_refused w run r refuses h = by_audit (w.audit_raises r)
  where
    by_audit : (o : Option Text) → (audited w r run.log o).0.rows ≡ run.log.rows
    by_audit none =
        record_entry_refused w.sha256 w.writes w.audit_time r.suggestion.proposed_patch
          (audit_values r) run.log (λ entry k. refuses entry (k ∙ h))
    by_audit (some exc) = refl

with_pr-opened :
    (s : Suggestion) (r : PipelineResult) (reply : Result Text (Option Opened)) {o : Opened}
    → reply ≡ ok (some o)
    → (with_pr s r reply).pr_url ≡ some (result o)
unfolding with_pr link
with_pr-opened s r (ok none) h = cc
with_pr-opened s r (ok (some o)) h = cc
with_pr-opened s r (err e) h = cc

-- If the database refuses every audit entry whose pr_url is the dict that open_patch_pr returns,
-- then a run whose last stage opens a pull request leaves the audit table as it was.
pub run_pipeline-opened_unstored :
    (w : World) (engine : Engine) (log : AuditLog) (incident : LogIncident) {call : PrCall}
    (open_patch_pr : PrCall → Result Text (Option Opened)) {o : Opened}
    → ((entry : AuditEntry) → entry.pr_url ≡ some (result o) → w.writes.database entry ≡ false)
    → (run_pipeline w engine log incident).call ≡ some call
    → w.github ≡ some open_patch_pr
    → open_patch_pr call ≡ ok (some o)
    → (run_pipeline w engine log incident).log.rows ≡ log.rows
unfolding finish
run_pipeline-opened_unstored w engine log incident {call} f refuses h g k =
    elim (run_pipeline-Ends w engine log incident) [
      | early run r i n e ↦
          cc (let c : run.call ≡ some call = sym (ap (λ o. o.call) e) ∙ h in c, i.uncalled)
      | spoiled run r exc i c e ↦
          cc (let k : run.call ≡ some call = sym (ap (λ o. o.call) e) ∙ h in k, i.uncalled)
      | raised run vs i t c e ↦ cc
      | broken run exc i t e ↦ cc
      | opened run r f' i n p g' e ↦
          let s = suggested w engine incident in
          let call' = pr_call (seen w incident) s s.patch_file in
          let same : call ≡ call' = some_eq (sym (ap (λ o. o.call) e) ∙ h) in
          let reply = ap f' (sym same) ∙ ap (λ x. x call) (some_eq (sym g ∙ g')) ∙ k in
          ap (λ o. o.log.rows) e
          ∙ finish_refused w (record run { call = some call' }) _ refuses
              (with_pr-opened _ r _ reply)
          ∙ ap (λ l. l.rows) i.logged
    ]
