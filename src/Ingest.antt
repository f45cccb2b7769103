-- ===== src/Ingest.antt =====
-- The queue of received events: IngestedEvent of src/db/models.py, and store_events and
-- queue_counts of src/db/ingest.py.
pub mod Stored
mod Examples
use sentinai_project.Common.{
  ℕ, ◌+◌, String, Option, none, some, Bool, true, false, List, [], ◌∷◌, ◌++◌, ◌&&◌, str_eq, ltb,
  leb, if◌then◌else◌, find_row, update_where, any_of, Text, is_none, count_where,
}

pub record IngestedEvent : Type 0 where
  pub id : String
  pub account_id : String
  pub source_id : String
  pub event_id : String
  pub occurred_at : ℕ
  pub received_at : ℕ
  pub level : String
  pub message : Text
  pub exception_type : Option Text
  pub stacktrace : Option Text
  pub environment : Option Text
  pub release : Option Text
  pub request_id : Option Text
  pub fingerprint : String
  pub incident_pk : Option String
  pub processed_at : Option ℕ
  pub claimed_at : Option ℕ
  pub attempts : ℕ
  pub last_error : Option Text

pub record NewEvent : Type 0 where
  pub event_id : String
  pub occurred_at : ℕ
  pub level : String
  pub message : Text
  pub exception_type : Option Text
  pub stacktrace : Option Text
  pub environment : Option Text
  pub release : Option Text
  pub request_id : Option Text
  pub fingerprint : String

-- Source of src/db/models.py.
pub record Source : Type 0 where
  pub id : String
  pub account_id : String
  pub name : Text
  pub key_prefix : Text
  pub key_hash : Text
  pub created_at : ℕ
  pub created_by : Option String
  pub revoked_at : Option ℕ
  pub last_used_at : Option ℕ
  pub last_event_at : Option ℕ

-- The columns of the unique constraint.
abbrev pub is_event : String → String → IngestedEvent → Bool
is_event source event r = str_eq r.source_id source && str_eq r.event_id event

-- `id` is the column's default, a new UUID, and so is `received_at`, the time of the insert.
pub new_event : Source → NewEvent → String → ℕ → IngestedEvent
new_event source e new_id now = record {
  id = new_id;
  account_id = source.account_id;
  source_id = source.id;
  event_id = e.event_id;
  occurred_at = e.occurred_at;
  received_at = now;
  level = e.level;
  message = e.message;
  exception_type = e.exception_type;
  stacktrace = e.stacktrace;
  environment = e.environment;
  release = e.release;
  request_id = e.request_id;
  fingerprint = e.fingerprint;
  incident_pk = none;
  processed_at = none;
  claimed_at = none;
  attempts = 0;
  last_error = none;
}

-- One savepoint: `none` is an IntegrityError, from the unique constraint.
pub insert_event : Source → NewEvent → String → ℕ → List IngestedEvent → Option (List IngestedEvent)
insert_event source e new_id now t =
    if any_of (is_event source.id e.event_id) t
    then none
    else some (t ++ new_event source e new_id now ∷ [])

-- The table, `stored` and `duplicates`.
pub record Batch : Type 0 where
  pub table : List IngestedEvent
  pub stored : ℕ
  pub duplicates : ℕ

pub tally : Batch → Option (List IngestedEvent) → Batch
tally b none = record b { duplicates = b.duplicates + 1 }
tally b (some t) = record b { table = t; stored = b.stored + 1 }

-- The loop of store_events, over the events with the ids that their rows are given.
pub store_loop : Source → ℕ → Batch → List (NewEvent × String) → Batch
store_loop source now b [] = b
store_loop source now b ((e, new_id) ∷ es) =
    store_loop source now (tally b (insert_event source e new_id now b.table)) es

-- The table and the counts, and the sources: a batch that stored something touches its source.
pub store_events :
    Source → ℕ → List (NewEvent × String) → List IngestedEvent → List Source → Batch × List Source
store_events source now events t sources =
    let b = store_loop source now (record { table = t; stored = 0; duplicates = 0 }) events in
    (
      b,
      if ltb 0 b.stored
          then update_where (λ s. str_eq s.id source.id)
              (λ s. record s { last_event_at = some now }) sources
          else sources,
    )

abbrev pub max_attempts : ℕ
max_attempts = 5

abbrev pub is_waiting : String → IngestedEvent → Bool
is_waiting account r = str_eq r.account_id account && is_none r.processed_at

-- (pending, failed)
pub queue_counts : String → ℕ → List IngestedEvent → ℕ × ℕ
queue_counts account limit t = (
  count_where (λ r. is_waiting account r && ltb r.attempts limit) t,
  count_where (λ r. is_waiting account r && leb limit r.attempts) t,
)
