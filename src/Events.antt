-- ===== src/Events.antt =====
-- LogIncident of src/models/events.py, and the texts and times that the other records share.
-- A time is the number of microseconds since the epoch.
use sentinai_project.Common.{ℕ, String, Option, Text}

pub data Severity : Type 0 where
  warning critical : Severity

-- The fields that a new incident is made with; the others have their defaults then.
pub record LogIncident : Type 0 where
  pub incident_id : String
  pub detected_at_utc : ℕ
  pub severity : Severity
  pub trigger_line : Text
  pub stacktrace : Text
  pub context_before_error : Text
  pub source : Option Text
