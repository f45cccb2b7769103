-- ===== src/Worker.antt =====
-- The event worker: EventProcessor of src/services/event_processor.py.
-- The state is the pair of tables that it writes. The clock, the new row ids, the failures of the
-- database and of the analysis, and the rows that other transactions have locked are arguments.
pub mod Incident
pub mod Select
pub mod Counted
mod Selected
pub mod Leases
mod Examples
use sentinai_project.Common.{
  ℕ, zero, suc, ◌+◌, String, Option, none, some, Bool, true, false, List, [], ◌∷◌, ◌++◌, ◌&&◌, ◌||◌,
  not, str_eq, ltb, leb, if◌then◌else◌, find_row, update_where, any_of, Text, is_none, length, map,
}
use sentinai_project.Events.{LogIncident}
use sentinai_project.Incidents
use sentinai_project.Incidents.{upsert_incident}
use sentinai_project.Ingest.{IngestedEvent, Source}
use Incident.{ClaimedEvent, to_incident}
use Select.{claim_batch, claim_rows}

pub record Db : Type 0 where
  pub incidents : List Incidents.Incident
  pub events : List IngestedEvent

-- The update of one event by its primary key.
abbrev pub with_id : String → IngestedEvent → Bool
with_id id e = str_eq e.id id

pub mark_processed : String → String → ℕ → List IngestedEvent → List IngestedEvent
mark_processed id incident_pk now events =
    update_where (with_id id)
      (λ e. record e { incident_pk = some incident_pk; processed_at = some now; last_error = none })
      events

-- _record_failure: nothing is written if the database fails again.
pub record_failure : String → Option Text → Db → Db
record_failure id none db = db
record_failure id (some text) db = record db {
  events = update_where (with_id id) (λ e. record e { last_error = some text }) db.events;
}

-- What the world does to one event: the transaction fails, or it commits, at a time and with an id
-- for a new row, and then the analysis of a new incident ends or fails. The text is the message that
-- _record_failure stores, `none` if it cannot.
pub data Outcome : Type 0 where
  db_failed : Option Text → Outcome
  committed : String → ℕ → Outcome
  analysis_failed : String → ℕ → Option Text → Outcome

-- The transaction of _process: the incident and the mark are saved together.
pub save_event : ClaimedEvent → String → ℕ → Db → Db × Bool
save_event e candidate now db =
    let (incidents, (incident_pk, is_new)) =
      upsert_incident candidate e.account_id (to_incident e) db.incidents db.incidents in
    (
      record { incidents = incidents; events = mark_processed e.id incident_pk now db.events },
      is_new,
    )

-- A failed analysis is recorded only for a new incident: a repeat is not analysed.
after_save : String → Option Text → Db × Bool → Db
after_save id text (db, is_new) = if is_new then record_failure id text db else db

-- _process with the handler of run_once round it.
unfoldable pub process : ClaimedEvent → Outcome → Db → Db
unfolding after_save
process e (db_failed text) db = record_failure e.id text db
process e (committed candidate now) db = (save_event e candidate now db).0
process e (analysis_failed candidate now text) db =
    after_save e.id text (save_event e candidate now db)

-- The loop of run_once. An event with no outcome left is one the worker died before.
unfoldable pub process_all : List ClaimedEvent → List Outcome → Db → Db
process_all [] os db = db
process_all (e ∷ es) [] db = db
process_all (e ∷ es) (o ∷ os) db = process_all es os (process e o db)

module _ (id_before : String → String → Bool) (locked : String → Bool) where
  -- claim: the batch, and the events as the commit leaves them.
  unfoldable pub claim : ℕ → ℕ → ℕ → ℕ → List Source → Db → List ClaimedEvent × Db
  claim batch_size lease max_attempts now sources db =
      let batch =
        claim_batch id_before locked batch_size lease max_attempts now sources db.events in
      (batch, record db { events = claim_rows now batch db.events })

  -- run_once: how many events were claimed, and the state.
  unfoldable pub run_once : ℕ → ℕ → ℕ → ℕ → List Source → List Outcome → Db → ℕ × Db
  run_once batch_size lease max_attempts now sources outcomes db =
      let (batch, db') = claim batch_size lease max_attempts now sources db in
      (length batch, process_all batch outcomes db')
