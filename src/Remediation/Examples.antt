-- ===== src/Remediation/Examples.antt =====
-- The engine with a provider that answers.
use sentinai_project.Common.{refl, none, some, [], codes, ok}
use sentinai_project.Events.{LogIncident, critical}
use sentinai_project.RateLimit.{TokenBucket, refill, take_token, consume}
use sentinai_project.Metrics.{provider, no_metrics}
use sentinai_project.Remediation.{
  Engine, Surroundings, Suggestion, blank_suggestion, suggest_fix, withhold_or_open, open_pr,
  pr_call, analyze, with_mode,
}
use sentinai_project.Remediation.Gated.{MayOpen, answered, suggest_fix-opens}

abbrev one_token : TokenBucket
one_token = record { capacity = 1; tokens = 60_000_000_000; refill_per_minute = 1; last_refill = 0 }

abbrev fresh_engine : Engine
fresh_engine = record { llm = one_token; pr = one_token; metrics = no_metrics }

abbrev an_incident : LogIncident
an_incident = record {
  incident_id = "i1";
  detected_at_utc = 0;
  severity = critical;
  trigger_line = codes "boom";
  stacktrace = [];
  context_before_error = [];
  source = none;
}

abbrev the_answer : Suggestion
the_answer = record blank_suggestion { proposed_patch = some (codes "+x"); source = provider }

abbrev around : Surroundings
around = record {
  llm_time = 0;
  pr_time = 0;
  latency = 5;
  model_name = codes "m";
  analyze_incident = λ _. ok the_answer;
  github = some (λ _. ok none);
}

suggest_fix-opens_example :
    MayOpen fresh_engine around an_incident "auto_pr"
      (pr_call an_incident (answered around an_incident "auto_pr") none)
unfolding suggest_fix withhold_or_open open_pr consume refill take_token analyze with_mode
    blank_suggestion
suggest_fix-opens_example = suggest_fix-opens fresh_engine around an_incident "auto_pr" refl
