-- ===== src/Worker/Incident.antt =====
-- ClaimedEvent, and the incident that an event is turned into: to_incident of
-- src/services/event_processor.py.
use sentinai_project.Common.{
  ℕ, String, Option, none, some, List, [], ◌∷◌, ◌++◌, str_eq, if◌then◌else◌, Text, codes,
  starts_with,
}
use sentinai_project.Events.{LogIncident, Severity, warning, critical}

pub record ClaimedEvent : Type 0 where
  pub id : String
  pub account_id : String
  pub source : Text
  pub fingerprint : String
  pub occurred_at : ℕ
  pub level : String
  pub message : Text
  pub exception_type : Option Text
  pub stacktrace : Option Text
  pub environment : Option Text
  pub release : Option Text
  pub request_id : Option Text
  pub attempts : ℕ

-- `kind and not event.message.startswith(kind)`: a missing kind and an empty one are alike.
pub trigger_line : Option Text → Text → Text
trigger_line none message = message
trigger_line (some []) message = message
trigger_line (some (c ∷ kind)) message =
    if starts_with (c ∷ kind) message then message else (c ∷ kind) ++ codes ": " ++ message

-- `value or ""`.
abbrev or_empty : Option Text → Text
or_empty none = []
or_empty (some t) = t

-- f"{key}={value}", for the values that are not empty.
pub pair_texts : List (Text × Option Text) → List Text
pair_texts [] = []
pair_texts ((key, none) ∷ ps) = pair_texts ps
pair_texts ((key, some []) ∷ ps) = pair_texts ps
pair_texts ((key, some (c ∷ value)) ∷ ps) = (key ++ codes "=" ++ c ∷ value) ∷ pair_texts ps

-- " ".join(texts)
pub join_words : List Text → Text
join_words [] = []
join_words (t ∷ []) = t
join_words (t ∷ u ∷ ts) = t ++ codes " " ++ join_words (u ∷ ts)

pub context : ClaimedEvent → Text
unfolding pair_texts join_words
context e = join_words (
    pair_texts (
      (codes "source", some e.source)
      ∷ (codes "environment", e.environment)
      ∷ (codes "release", e.release)
      ∷ (codes "request_id", e.request_id)
      ∷ []))

-- The table _SEVERITY, with its default.
pub severity_of : String → Severity
severity_of level = if str_eq level "warning" then warning else critical

unfoldable pub to_incident : ClaimedEvent → LogIncident
unfolding trigger_line context severity_of
to_incident e = record {
  incident_id = e.fingerprint;
  detected_at_utc = e.occurred_at;
  severity = severity_of e.level;
  trigger_line = trigger_line e.exception_type e.message;
  stacktrace = or_empty e.stacktrace;
  context_before_error = context e;
  source = some e.source;
}
