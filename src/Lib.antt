-- ===== src/Lib.antt =====
-- Verification of the SentinAI backend: the incident pipeline of src/ in the repository, from an
-- ingested event to a patch, a pull request and its rollback.
--
-- The parts, and how they interact. Events of a source are stored once (Ingest). A worker claims them
-- under a lease, makes an incident of each and counts it (Worker, Incidents). The remediation engine
-- asks a provider for a suggestion, under rate limits and with metrics (Remediation, RateLimit,
-- Metrics). The pipeline sanitizes it, scans it for prompt injections, asks the policy gate, which has
-- the semantic validator's violations, applies the patch, runs the tests in the sandbox, opens a pull
-- request and records one audit entry (Pipeline, Sanitizer, Injection, Validator, Policy, Runner, Diff,
-- Sandbox, Opening, Audit). A pull request that was opened has an entry in the rollback ledger, which
-- reverts the patch on the hosted repository (Ledger, Github). Incidents also come from a log file
-- (Watcher). Sources have keys (Sources), and alerts go to channels (Channels).
--
-- Files, and the code of each (paths from the repository's root):
--   Common        lists, texts, tables and truth values as the Python code uses them
--   Events        LogIncident of src/models/events.py
--   Github        check_pr_merged, get_current_file_sha and revert_patch of
--                 src/integrations/github_client.py; Github/Laws what they do
--   Ledger        propose_rollback and confirm_rollback of src/core/state.py, with the queries of
--                 src/db/repository.py; Rows and Table its lemmas, Reverts and Sound what they give
--   Incidents     upsert_incident, _count_repeat and set_incident_status of src/db/repository.py
--   Ingest        store_events and queue_counts of src/db/ingest.py
--   Worker        EventProcessor of src/services/event_processor.py: Incident (to_incident), Select
--                 (claim), and run_once
--   Policy        PatchPolicyEngine of src/services/policy_engine.py; Repository is
--                 sentinai-policy.yml
--   RateLimit     TokenBucket of src/core/rate_limiter.py
--   Metrics       MetricsCollector of src/core/metrics.py
--   Sandbox       src/services/resource_enforcer.py, sandbox_config.py and sandbox_runner.py
--   Remediation   suggest_fix of src/services/remediation_engine.py and the stub client of
--                 src/integrations/llm_client.py
--   Audit         AuditLogger of src/core/audit.py
--   Validator     PatchSemanticValidator of src/services/patch_semantic_validator.py: Tree (the syntax
--                 tree and its visitor), Auth, Priv, Sec and Taint (the rule sets); Reach is about
--                 visits, Gate about the policy's answer, Flow about taint
--   Sanitizer     SecretSanitizer of src/services/secret_sanitizer.py
--   Injection     PromptInjectionDetector of src/services/prompt_injection_detector.py
--   Diff, Runner  _apply_patch and PatchRunner.apply of src/services/patch_runner.py
--   Opening       open_patch_pr of src/integrations/github_client.py
--   Watcher       LogWatcher of src/services/watcher.py: Lines and Blocks of a scan
--   Sources       src/db/sources.py and src/core/api_keys.py
--   Channels      the notification channels of src/core/state.py and mask_url of src/core/crypto.py
--   Pipeline      RemediationPipeline of src/services/pipeline.py: State (what a run carries), Fields
--                 (the sanitized and scanned texts) and Recording (_record_audit); Ends has the ways in
--                 which a run ends, and Stages that there is no other
-- Each part has a module Examples with runs at concrete values.
--
-- How state is modelled. A table is the list of its rows, and a statement of SQL is a function on it: a
-- query finds or filters rows, an update changes the rows that its condition selects. A method that
-- changes state takes the state and returns the new one beside its result; an exception is a value. A
-- race of two transactions is an argument: the rows that the first query has seen, beside those that
-- the later statements meet. What a process, the network or the database answers is an argument too,
-- so the theorems hold for each answer.
--
-- Units, so that the arithmetic is exact. Times are microseconds since the epoch, and nanoseconds of
-- the monotonic clock in RateLimit, where tokens are counted in parts of 1 / (60 * 10 ^ 9). Latencies
-- are hundredths of a millisecond, CPUs thousandths, confidences ten-thousandths. The source has
-- floats there. All functions are structurally recursive, and only the printing of numbers has
-- fuel: one step more than the number, which has at most as many digits (Opening.Numerals,
-- Validator.Numerals). A violation of the validator has no position. A position in the log counts
-- characters, as in a file of ASCII only. lower, upper and the classes of characters are those of ASCII.
--
-- Parameters. PyGithub is a record of functions on a state of the hosted repository, Repository for
-- the ledger's calls and Hosting for those of open_patch_pr; the one thing that is assumed of it,
-- ChecksSha of Github, is that an update of a file that commits had the file's sha, and that one that
-- does not commit changes nothing. Ids that the database or uuid4 makes, locks that other
-- transactions hold, SHA-256, the provider's client and the end of a process are arguments, as are
-- ast.parse with textwrap.dedent, unidiff's parser, the matches of the regular expressions that
-- secrets, injections, stack traces and fingerprints are found by, the comparison of a float's entropy,
-- the percentage that a float gives for a confidence (Opening), urlsplit, Fernet and the operations of
-- the file system. What raises is an argument too: ast.parse may raise another exception than
-- SyntaxError, TemporaryDirectory may fail to make or to remove the workspace, and AuditLogger.record
-- may raise before it writes. The depth of Python's stack is no part of the model, so the rules' own
-- visits of a tree return. Channels also takes validate_channel_url as an argument.
--
-- Not modelled: the HTTP routes, the log format, the notifier, the health probes, the command line
-- and the migrations, which are I/O round these parts; core/sanitizer.py and core/scrub.py, which are
-- substitutions by regular expressions; and the dashboard and the desktop shell, which are in other
-- languages.
mod Common
pub mod Github
pub mod Events
pub mod Incidents
pub mod Ingest
pub mod Worker
pub mod Policy
pub mod RateLimit
pub mod Sandbox
pub mod Metrics
pub mod Ledger
pub mod Remediation
pub mod Audit
pub mod Pipeline
pub mod Validator
pub mod Sanitizer
pub mod Watcher
pub mod Diff
pub mod Runner
pub mod Injection
pub mod Opening
pub mod Sources
pub mod Channels
