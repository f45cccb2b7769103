-- ===== src/Incidents.antt =====
-- The incidents table: Incident of src/db/models.py, and upsert_incident, _count_repeat and
-- set_incident_status of src/db/repository.py.
pub mod Counts
pub mod Upsert
pub mod Written
pub mod Status
mod Examples
use sentinai_project.Common.{
  ℕ, ◌+◌, String, Option, none, some, Bool, true, false, List, [], ◌∷◌, ◌++◌, ◌&&◌, str_eq, ltb,
  if◌then◌else◌, find_row, update_where, any_of, Text, map_some,
}
use sentinai_project.Events.{Severity, LogIncident}

pub data IncidentStatus : Type 0 where
  opened resolved : IncidentStatus

pub record Incident : Type 0 where
  pub id : String
  pub account_id : String
  pub fingerprint : String
  pub detected_at : ℕ
  pub last_seen_at : ℕ
  pub occurrence_count : ℕ
  pub severity : Severity
  pub trigger_line : Text
  pub stacktrace : Text
  pub context_before_error : Text
  pub source : Option Text
  pub status : IncidentStatus
  pub resolved_at : Option ℕ
  pub resolved_by : Option String

-- The columns of the unique constraint.
abbrev pub is_incident : String → String → Incident → Bool
is_incident account fingerprint r = str_eq r.account_id account && str_eq r.fingerprint fingerprint

pub find_incident : String → String → List Incident → Option Incident
find_incident account fingerprint t = find_row (is_incident account fingerprint) t

abbrev pub is_resolved_before : ℕ → IncidentStatus → Option ℕ → Bool
is_resolved_before seen_at resolved (some at) = ltb at seen_at
is_resolved_before seen_at _ _ = false

-- The first update of _count_repeat.
pub count_row : ℕ → Incident → Incident
count_row seen_at r = record r {
  occurrence_count = r.occurrence_count + 1;
  last_seen_at = if ltb r.last_seen_at seen_at then seen_at else r.last_seen_at;
}

-- The second: an error seen after its resolve time is back.
pub reopen_row : ℕ → Incident → Incident
reopen_row seen_at r =
    if is_resolved_before seen_at r.status r.resolved_at
    then record r { status = opened; resolved_at = none; resolved_by = none }
    else r

pub count_repeat : String → String → ℕ → List Incident → List Incident
count_repeat account fingerprint seen_at t =
    update_where (is_incident account fingerprint) (reopen_row seen_at)
      (update_where (is_incident account fingerprint) (count_row seen_at) t)

pub new_row : String → String → LogIncident → Incident
new_row candidate account i = record {
  id = candidate;
  account_id = account;
  fingerprint = i.incident_id;
  detected_at = i.detected_at_utc;
  last_seen_at = i.detected_at_utc;
  occurrence_count = 1;
  severity = i.severity;
  trigger_line = i.trigger_line;
  stacktrace = i.stacktrace;
  context_before_error = i.context_before_error;
  source = i.source;
  status = opened;
  resolved_at = none;
  resolved_by = none;
}

-- The insert in a savepoint, and the `except IntegrityError` behind it: the unique constraint
-- refuses a second row, and the repeat is counted.
pub insert_or_count :
    String
    → String
    → LogIncident
    → List Incident
    → Option Incident
    → List Incident × (String × Bool)
insert_or_count candidate account i t none =
    (t ++ new_row candidate account i ∷ [], (candidate, true))
insert_or_count candidate account i t (some r) =
    (count_repeat account i.incident_id i.detected_at_utc t, (r.id, false))

pub upsert_seen :
    String
    → String
    → LogIncident
    → List Incident
    → Option Incident
    → List Incident × (String × Bool)
unfolding insert_or_count
upsert_seen candidate account i t none =
    insert_or_count candidate account i t (find_incident account i.incident_id t)
upsert_seen candidate account i t (some r) =
    (count_repeat account i.incident_id i.detected_at_utc t, (r.id, false))

-- `seen` is the table as the first query reads it, `t` the table as the writes find it: another
-- writer may have inserted the row in between. `candidate` is the new UUID. The result is the
-- table, the row id and `is_new`.
pub upsert_incident :
    String → String → LogIncident → List Incident → List Incident → List Incident × (String × Bool)
unfolding upsert_seen
upsert_incident candidate account i seen t =
    upsert_seen candidate account i t (find_incident account i.incident_id seen)

-- `none` is the ValueError for a status that is no status.
pub status_row : String → ℕ → Option String → Option (Incident → Incident)
status_row status now user_email =
    if str_eq status "resolved"
    then some
        (λ r. record r { status = resolved; resolved_at = some now; resolved_by = user_email })
    else if str_eq status "open"
    then some (λ r. record r { status = opened; resolved_at = none; resolved_by = none })
    else none

-- The table, and whether a row matched.
pub set_incident_status :
    String → String → String → ℕ → Option String → List Incident → Option (List Incident × Bool)
unfolding status_row
set_incident_status account fingerprint status now user_email t =
    map_some
      (λ f. (
        update_where (is_incident account fingerprint) f t,
        any_of (is_incident account fingerprint) t,
      ))
      (status_row status now user_email)
