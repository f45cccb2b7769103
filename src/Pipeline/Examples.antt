-- ===== src/Pipeline/Examples.antt =====
-- A run that opens a pull request for a patch without policy, with the tests on the host.
use sentinai_project.Common.{
  Bool, true, false, ok, ◌≡◌, refl, none, some, [], codes, Text, contains, inl, inr, if◌then◌else◌,
  ◌∷◌, ok,
}
use sentinai_project.Events.{LogIncident, critical}
use sentinai_project.RateLimit.{TokenBucket, refill, take_token, consume}
use sentinai_project.Metrics.{provider, no_metrics}
use sentinai_project.Policy.{
  no_policy, check, check_semantic, is_blocked_path, is_allowed_path, is_allowed,
  check_forbidden_patterns, patch_lines, critical_violations, high_violations, classify_risk,
  match_tier, decide_tier,
}
use sentinai_project.Sanitizer.{
  sanitize, result_of, find_hits, add_patterns, cleaned_text, sort_reversed, splice_all, entries,
}
use sentinai_project.Validator.Tree.{other, nil, visit}
use sentinai_project.Validator.Taint.{taint_step}
use sentinai_project.Validator.Auth.{auth_flags}
use sentinai_project.Validator.Priv.{priv_flags}
use sentinai_project.Validator.Sec.{sec_flags}
use sentinai_project.Validator.{validate}
use sentinai_project.Sandbox.{
  default_config, default_ceilings, exited, run_tests, run_on_host, run_process,
}
use sentinai_project.Remediation.{
  result, Opened, Engine, Suggestion, blank_suggestion, suggest_fix, withhold_or_open, open_pr,
  pr_call, analyze, with_mode,
}
use sentinai_project.Injection.Found.{of_pattern}
use sentinai_project.Injection.{Pattern, scan, scan_fields, scan_loop}
use sentinai_project.Runner.{apply, apply_made, apply_read, apply_parsed, after_write}
use sentinai_project.Diff.{
  Hunk, added, apply_patch, apply_files, apply_hunks, apply_hunk, replace_slice, new_lines,
  split_keepends, keep_lines, concat,
}
use sentinai_project.Audit.{AuditLog, AuditEntry}
use sentinai_project.Pipeline.State.{World}
use sentinai_project.Pipeline.Fields.{
  injection, scanned_fields, redact, sanitize_incident, sanitize_suggestion, clean, clean_option,
}
use sentinai_project.Pipeline.Recording.{finish}
use sentinai_project.Pipeline.{
  stage_pr, stage_tested, stage_left, stage_judged, stage_workspace, judged, leave, stage_patched,
  stage_applied, stage_decided, stage_suggested, stage_suggest, stage_scanned, run_pipeline, gate,
  is_blocked_code,
}
use sentinai_project.Pipeline.Ends.{IsPassed, seen, suggested}
use sentinai_project.Pipeline.Passed.{run_pipeline-opens, run_pipeline-opened_unstored}
use sentinai_project.Pipeline.Injected.{IsBlocked, run_pipeline-IsBlocked}

abbrev a_bucket : TokenBucket
a_bucket = record { capacity = 1; tokens = 60_000_000_000; refill_per_minute = 1; last_refill = 0 }

abbrev an_engine : Engine
an_engine = record { llm = a_bucket; pr = a_bucket; metrics = no_metrics }

abbrev error_line : LogIncident
error_line = record {
  incident_id = "i1";
  detected_at_utc = 0;
  severity = critical;
  trigger_line = codes "boom";
  stacktrace = [];
  context_before_error = [];
  source = none;
}

abbrev an_answer : Suggestion
an_answer = record blank_suggestion {
  proposed_patch = some (codes "+x");
  patch_file = some (codes "tests/t.py");
  source = provider;
}

abbrev an_addition : Hunk
an_addition = record {
  source_start = 1;
  source_length = 0;
  lines = record { line_type = added; value = codes "x" } ∷ [];
}

abbrev a_world : World
a_world = record {
  dry_run = false;
  policy = no_policy;
  surroundings = record {
    llm_time = 0;
    pr_time = 0;
    latency = 5;
    model_name = codes "m";
    analyze_incident = λ _. ok an_answer;
    github = none;
  };
  raised = none;
  sanitizer = record {
    patterns = [];
    entropy_detection = false;
    find = λ _ _. [];
    tokens = λ _. [];
    is_random = λ _. false;
    hash = λ t. some t;
  };
  patterns = [];
  parse = λ _. ok (other nil);
  files = record {
    exists = λ _. true;
    mkdir = λ _. none;
    read_text = λ _. ok (codes "a");
    write_text = λ _ _. none;
    parse_diff = λ _. ok (record { path = codes "tests/t.py"; hunks = an_addition ∷ [] } ∷ []);
  };
  tmpdir = ok (codes "/tmp/w");
  cleanup = none;
  sandbox_available = true;
  ceilings = default_ceilings;
  config = record default_config { allow_host_fallback = true };
  docker_available = false;
  exit = exited 0 [];
  github = some (λ _. ok none);
  sha256 = λ t. t;
  writes = record { file = true; database = λ _. true };
  audit_time = 0;
  audit_raises = λ _. none;
}

abbrev no_log : AuditLog
no_log = record { lines = []; rows = []; next_id = 1 }

abbrev the_suggestion : Suggestion
the_suggestion = suggested a_world an_engine error_line

run_pipeline-opens_example :
    IsPassed a_world the_suggestion
    × (pr_call (seen a_world error_line) the_suggestion the_suggestion.patch_file
        ≡ pr_call (seen a_world error_line) the_suggestion the_suggestion.patch_file)
unfolding run_pipeline stage_scanned stage_suggest stage_suggested stage_decided stage_patched
    stage_applied stage_tested stage_left stage_judged stage_workspace judged leave scan scan_fields
    scan_loop injection scanned_fields apply apply_made apply_read apply_parsed after_write
    apply_patch apply_files apply_hunks apply_hunk replace_slice new_lines split_keepends keep_lines
    concat stage_pr finish gate sanitize_incident sanitize_suggestion clean clean_option
    is_blocked_code suggest_fix withhold_or_open open_pr analyze with_mode consume refill take_token
    blank_suggestion check check_semantic is_blocked_path is_allowed_path is_allowed
    check_forbidden_patterns patch_lines critical_violations high_violations classify_risk
    match_tier decide_tier run_tests run_on_host run_process redact sanitize result_of find_hits
    add_patterns cleaned_text sort_reversed splice_all entries validate visit auth_flags priv_flags
    sec_flags taint_step
run_pipeline-opens_example = run_pipeline-opens a_world an_engine no_log error_line refl

abbrev an_opening : Opened
an_opening = record {
  pr_url = codes "https://x/1";
  pr_number = 1;
  branch_name = codes "b";
  patch_file = none;
  before_sha = none;
}

-- A database that stores no dict.
abbrev is_storable : AuditEntry → Bool
is_storable entry = elim entry.pr_url [ some (result _) ↦ false | _ ↦ true ]

is_storable-refuses :
    (entry : AuditEntry) → entry.pr_url ≡ some (result an_opening) → is_storable entry ≡ false
is_storable-refuses entry h = rw h refl

abbrev opening_world : World
opening_world = record a_world {
  github = some (λ _. ok (some an_opening));
  writes = record { file = true; database = is_storable };
}

run_pipeline-opened_unstored_example :
    (run_pipeline opening_world an_engine no_log error_line).log.rows ≡ []
unfolding run_pipeline stage_scanned stage_suggest stage_suggested stage_decided stage_patched
    stage_applied stage_tested stage_left stage_judged stage_workspace judged leave scan scan_fields
    scan_loop injection scanned_fields apply apply_made apply_read apply_parsed after_write
    apply_patch apply_files apply_hunks apply_hunk replace_slice new_lines split_keepends keep_lines
    concat stage_pr finish gate sanitize_incident sanitize_suggestion clean clean_option
    is_blocked_code suggest_fix withhold_or_open open_pr analyze with_mode consume refill take_token
    blank_suggestion check check_semantic is_blocked_path is_allowed_path is_allowed
    check_forbidden_patterns patch_lines critical_violations high_violations classify_risk
    match_tier decide_tier run_tests run_on_host run_process redact sanitize result_of find_hits
    add_patterns cleaned_text sort_reversed splice_all entries validate visit auth_flags priv_flags
    sec_flags taint_step
run_pipeline-opened_unstored_example =
    run_pipeline-opened_unstored opening_world an_engine no_log error_line
      (λ _. ok (some an_opening)) is_storable-refuses refl refl refl

-- A world with two patterns, of which the second occurs in the incident's stack trace.
abbrev a_pattern : Text → Pattern
a_pattern label = record { label = label; find = λ t. if contains label t then label ∷ [] else [] }

abbrev injected_world : World
injected_world = record a_world {
  patterns = a_pattern (codes "ignore all") ∷ a_pattern (codes "jailbreak") ∷ [];
}

abbrev injected_line : LogIncident
injected_line = record error_line { stacktrace = codes "a jailbreak" }

run_pipeline-IsBlocked_example :
    IsBlocked an_engine (run_pipeline injected_world an_engine no_log injected_line)
unfolding sanitize_incident clean redact sanitize result_of find_hits add_patterns cleaned_text
    sort_reversed splice_all
run_pipeline-IsBlocked_example =
    run_pipeline-IsBlocked injected_world an_engine no_log injected_line b'a' (codes " jailbreak")
      (inr (inl refl))
      (of_pattern (a_pattern (codes "jailbreak")) (codes "jailbreak") (inr (inl refl)) (inl refl))
