-- ===== src/Remediation.antt =====
-- RemediationEngine.suggest_fix of src/services/remediation_engine.py, with the suggestion of
-- src/models/events.py and StubLLMClient of src/integrations/llm_client.py.
-- What the provider's client and open_patch_pr do is an argument: a function that returns or raises.
-- Confidences are counted in ten-thousandths. Log lines and the notifier's message are left out.
pub mod Gated
mod Examples
use sentinai_project.Common.{
  ℕ, String, min, Option, none, some, Bool, true, false, List, [], ◌∷◌, ◌++◌, ◌&&◌, not,
  if◌then◌else◌, take, str_eq, Text, codes, Result, ok, err,
}
use sentinai_project.Events.{LogIncident}
use sentinai_project.RateLimit.{TokenBucket, consume}
use sentinai_project.Metrics.{
  SuggestionSource, stub, provider, fallback, MetricsCollector, record_call,
}
use sentinai_project.Policy.{RiskTier, Reason}

-- The error texts, one constructor for each f-string of the engine and of the pipeline.
pub data Failure : Type 0 where
  rate_limited : Failure
  provider_failed : Text → Failure
  injection_found : Text → List Text → Failure
  llm_stage : Text → Failure
  policy_block : List Reason → Failure
  policy_review : RiskTier → List Reason → Failure
  apply_failed : Text → Failure
  sandbox_unavailable : Failure
  sandbox_blocked : Text → Failure
  tests_failed : Text → Failure
  pr_stage : Text → Failure

-- The dict that open_patch_pr returns.
pub record Opened : Type 0 where
  pub pr_url : Text
  pub pr_number : ℕ
  pub branch_name : Text
  pub patch_file : Option Text
  pub before_sha : Option Text

-- What the code assigns to a field pr_url: a URL, or that dict.
pub data PrLink : Type 0 where
  url : Text → PrLink
  result : Opened → PrLink

pub record Suggestion : Type 0 where
  pub summary : Text
  pub proposed_code_fix : Text
  pub proposed_config_change : Text
  pub confidence : ℕ
  pub risks : Text
  pub source : SuggestionSource
  pub provider_error : Option Failure
  pub model : Option Text
  pub proposed_patch : Option Text
  pub test_guidance : Option Text
  pub pr_url : Option PrLink
  pub pr_number : Option ℕ
  pub patch_file : Option Text
  pub before_sha : Option Text
  pub branch_name : Option Text
  pub autonomy_mode : Option String
  pub awaiting_approval : Bool

-- The suggestion that only its required fields are given for.
unfoldable pub blank_suggestion : Suggestion
blank_suggestion = record {
  summary = [];
  proposed_code_fix = [];
  proposed_config_change = [];
  confidence = 0;
  risks = [];
  source = stub;
  provider_error = none;
  model = none;
  proposed_patch = none;
  test_guidance = none;
  pr_url = none;
  pr_number = none;
  patch_file = none;
  before_sha = none;
  branch_name = none;
  autonomy_mode = none;
  awaiting_approval = false;
}

-- StubLLMClient.analyze_incident: the same for every incident.
unfoldable pub stub_suggestion : Suggestion
stub_suggestion = record {
  summary =
      codes "Potential unhandled exception detected. Add guard clauses and improve error handling.";
  proposed_code_fix =
      codes
        "Wrap failing logic in try/except, validate nullable values before use, and return controlled HTTP errors instead of raw tracebacks.";
  proposed_config_change =
      codes
        "Set production log level to INFO and route stack traces to secure sink; consider tuning worker timeout if failures are timeout-related.";
  confidence = 6200;
  risks = codes "Suggestion is heuristic. Validate with tests before rollout.";
  source = stub;
  provider_error = none;
  model = none;
  proposed_patch = some (
      codes
        "# Before\ndef handle_request(data):\n    result = process(data)  # may raise\n    return result\n\n# After\ndef handle_request(data):\n    try:\n        result = process(data)\n        return result\n    except Exception as exc:\n        logger.exception('handle_request failed: %s', exc)\n        raise HTTPException(status_code=500, detail='Internal error') from exc\n");
  test_guidance = some (
      codes
        "1. Mock process() to raise ValueError and assert the endpoint returns HTTP 500.\n2. Assert the logger.exception call is made with the correct message.\n3. Verify the response body contains 'Internal error' and not the raw traceback.\n4. Add a happy-path test confirming valid input still returns the correct result.");
  pr_url = none;
  pr_number = none;
  patch_file = none;
  before_sha = none;
  branch_name = none;
  autonomy_mode = none;
  awaiting_approval = false;
}

-- The arguments of open_patch_pr; suggest_fix gives no patch_file.
pub record PrCall : Type 0 where
  pub incident_id : String
  pub trigger_line : Text
  pub summary : Text
  pub proposed_patch : Text
  pub test_guidance : Text
  pub confidence : ℕ
  pub patch_file : Option Text

-- The limiters and the metrics, which the engines of a process share.
pub record Engine : Type 0 where
  pub llm : TokenBucket
  pub pr : TokenBucket
  pub metrics : MetricsCollector

-- What surrounds a call: the clock at each limiter, the measured latency, the provider's client with
-- its model's name, and the GitHub client where there is one.
pub record Surroundings : Type 0 where
  pub llm_time : ℕ
  pub pr_time : ℕ
  pub latency : ℕ
  pub model_name : Text
  pub analyze_incident : LogIncident → Result Text Suggestion
  pub github : Option (PrCall → Result Text (Option Opened))

-- `if s` for an optional text.
abbrev pub truthy : Option Text → Bool
truthy none = false
truthy (some []) = false
truthy (some (_ ∷ _)) = true

-- `s or default`
abbrev pub text_or : Option Text → Text → Text
text_or none d = d
text_or (some []) d = d
text_or (some (c ∷ t)) d = c ∷ t

pub throttled_suggestion : Suggestion
throttled_suggestion = record stub_suggestion {
  source = fallback;
  provider_error = some rate_limited;
  model = some (codes "stub");
  confidence = 1000;
}

-- The suggestion that stands in for a failed analysis.
failed_suggestion : Text → Suggestion
failed_suggestion exc = record stub_suggestion {
  source = fallback;
  provider_error = some (provider_failed (take 4000 exc));
  model = some (codes "stub");
  summary = stub_suggestion.summary ++ codes " (Provider error; heuristic fallback.)";
  confidence = min stub_suggestion.confidence 3500;
}

unfoldable pub analyze : Result Text Suggestion → Suggestion
unfolding failed_suggestion
analyze (ok s) = s
analyze (err exc) = failed_suggestion exc

unfoldable pub with_mode : String → Text → Suggestion → Suggestion
with_mode mode model_name s = record s {
  autonomy_mode = some mode;
  model = some (text_or s.model model_name);
}

-- The update from the dict of an opened pull request.
opened_suggestion : Suggestion → Opened → Suggestion
opened_suggestion s o = record s {
  pr_url = some (url o.pr_url);
  pr_number = some o.pr_number;
  patch_file = o.patch_file;
  before_sha = o.before_sha;
  branch_name = some o.branch_name;
}

pub after_pr : Suggestion → Result Text (Option Opened) → Suggestion
unfolding opened_suggestion
after_pr s (ok none) = s
after_pr s (ok (some o)) = opened_suggestion s o
after_pr s (err _) = s

pub pr_call : LogIncident → Suggestion → Option Text → PrCall
pr_call incident s patch_file = record {
  incident_id = incident.incident_id;
  trigger_line = incident.trigger_line;
  summary = s.summary;
  proposed_patch = text_or s.proposed_patch [];
  test_guidance = text_or s.test_guidance [];
  confidence = s.confidence;
  patch_file = patch_file;
}

-- The pull request under the limiter, for a suggestion with a patch. The last component is the call
-- of open_patch_pr that was made.
unfoldable pub open_pr :
    Engine
    → Surroundings
    → LogIncident
    → Suggestion
    → Option (PrCall → Result Text (Option Opened))
    → Engine × Suggestion × Option PrCall
open_pr e c incident s none = (e, s, none)
open_pr e c incident s (some open_patch_pr) =
    let (bucket, granted) = consume c.pr_time e.pr in
    let call = pr_call incident s none in
    if granted
    then (record e { pr = bucket }, after_pr s (open_patch_pr call), some call)
    else (record e { pr = bucket }, s, none)

-- The end of suggest_fix: the approval that a mode asks for, or the pull request.
unfoldable pub withhold_or_open :
    Engine → Surroundings → LogIncident → String → Suggestion → Engine × Suggestion × Option PrCall
withhold_or_open e c incident mode s =
    if truthy s.proposed_patch && not (str_eq mode "auto_pr")
    then (e, record s { awaiting_approval = true }, none)
    else if truthy s.proposed_patch
    then open_pr e c incident s c.github
    else (e, s, none)

unfoldable pub suggest_fix :
    Engine → Surroundings → LogIncident → String → Engine × Suggestion × Option PrCall
unfolding throttled_suggestion
suggest_fix e c incident mode =
    let (bucket, granted) = consume c.llm_time e.llm in
    let s = analyze (c.analyze_incident incident) in
    if granted
    then withhold_or_open
        (record e { llm = bucket; metrics = record_call c.latency s.source e.metrics }) c incident
        mode (with_mode mode c.model_name s)
    else (record e { llm = bucket }, throttled_suggestion, none)
