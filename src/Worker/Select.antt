-- ===== src/Worker/Select.antt =====
-- The selection of a batch: the query of `claim` in src/services/event_processor.py.
use sentinai_project.Common.{
  ℕ, ◌+◌, String, Option, none, some, Bool, true, List, [], ◌∷◌, ◌&&◌, ◌||◌, not, str_eq, ltb, ◌==◌,
  if◌then◌else◌, find_row, update_where, filter_rows, take, any_of, Text, is_none, is_some,
}
use sentinai_project.Ingest.{IngestedEvent, Source}
use sentinai_project.Worker.Incident.{ClaimedEvent}

-- `claimed_at < now - lease`, without a subtraction.
abbrev pub is_free : ℕ → ℕ → Option ℕ → Bool
is_free lease now none = true
is_free lease now (some at) = ltb (at + lease) now

-- The `where` of the statement.
abbrev pub is_claimable : ℕ → ℕ → ℕ → IngestedEvent → Bool
is_claimable lease max_attempts now e =
    is_none e.processed_at && (ltb e.attempts max_attempts && is_free lease now e.claimed_at)

abbrev pub source_of : List Source → IngestedEvent → Option Source
source_of sources e = find_row (λ s. str_eq s.id e.source_id) sources

abbrev pub has_source : List Source → IngestedEvent → Bool
has_source sources e = is_some (source_of sources e)

module _ (id_before : String → String → Bool) where
  -- `order_by(received_at, id)`; how the database compares two ids is a parameter.
  unfoldable pub earlier : IngestedEvent → IngestedEvent → Bool
  earlier a b =
      ltb a.received_at b.received_at || (a.received_at == b.received_at && id_before a.id b.id)

  unfoldable pub insert_by : IngestedEvent → List IngestedEvent → List IngestedEvent
  insert_by a [] = a ∷ []
  insert_by a (b ∷ bs) = let rest = insert_by a bs in if earlier b a then b ∷ rest else a ∷ b ∷ bs

  unfoldable pub sorted : List IngestedEvent → List IngestedEvent
  sorted [] = []
  sorted (e ∷ es) = insert_by e (sorted es)

  -- `with_for_update(skip_locked=True)` leaves out the rows that others have locked, and the join
  -- those of no source.
  unfoldable pub select_rows :
      (String → Bool) → ℕ → ℕ → ℕ → ℕ → List Source → List IngestedEvent → List IngestedEvent
  select_rows locked batch_size lease max_attempts now sources events = take batch_size (
      sorted (
        filter_rows
          (λ e.
            is_claimable lease max_attempts now e && (has_source sources e && not (locked e.id)))
          events))

-- The loop over the selected rows.
unfoldable pub claimed_event : IngestedEvent → Text → ClaimedEvent
claimed_event e source_name = record {
  id = e.id;
  account_id = e.account_id;
  source = source_name;
  fingerprint = e.fingerprint;
  occurred_at = e.occurred_at;
  level = e.level;
  message = e.message;
  exception_type = e.exception_type;
  stacktrace = e.stacktrace;
  environment = e.environment;
  release = e.release;
  request_id = e.request_id;
  attempts = e.attempts + 1;
}

unfoldable pub named : IngestedEvent → Option Source → List ClaimedEvent → List ClaimedEvent
named e none rest = rest
named e (some s) rest = claimed_event e s.name ∷ rest

unfoldable pub claimed_events : List Source → List IngestedEvent → List ClaimedEvent
claimed_events sources [] = []
claimed_events sources (e ∷ es) = named e (source_of sources e) (claimed_events sources es)

abbrev pub in_batch : List ClaimedEvent → IngestedEvent → Bool
in_batch batch e = any_of (λ c. str_eq c.id e.id) batch

-- The rows that the loop changes.
unfoldable pub claim_rows : ℕ → List ClaimedEvent → List IngestedEvent → List IngestedEvent
claim_rows now batch events =
    update_where (in_batch batch)
      (λ e. record e { claimed_at = some now; attempts = e.attempts + 1 }) events

unfoldable pub claim_batch :
    (String → String → Bool)
    → (String → Bool)
    → ℕ
    → ℕ
    → ℕ
    → ℕ
    → List Source
    → List IngestedEvent
    → List ClaimedEvent
claim_batch id_before locked batch_size lease max_attempts now sources events =
    claimed_events sources
      (select_rows id_before locked batch_size lease max_attempts now sources events)
