-- ===== src/Worker/Counted.antt =====
-- An event is counted when it is processed: one occurrence for each event that is marked.
use sentinai_project.Common.{
  ℕ, ◌+◌, String, Option, none, some, Bool, false, List, [], ◌∷◌, ◌≡◌, refl, arith, ◌&&◌, str_eq,
  eq_iff, any_of, Text, is_none, is_some, count_where, count_where-update_where, sum_of, ◌∙◌, inl,
  inr, Bool-cases,
}
use sentinai_project.Incidents
use sentinai_project.Incidents.{upsert_incident, find_incident}
use sentinai_project.Incidents.Upsert.{
  IsKept, IsUnique, upsert_incident-IsUnique, upsert_incident-total,
}
use sentinai_project.Ingest.{IngestedEvent}
use sentinai_project.Worker.Incident.{ClaimedEvent, to_incident}
use sentinai_project.Worker.{
  Db, Outcome, with_id, mark_processed, record_failure, db_failed, committed, analysis_failed,
  save_event, after_save, process, process_all,
}

-- The occurrences that the incidents have counted.
unfoldable pub counted : Db → ℕ
counted db = sum_of (λ (r : Incidents.Incident). r.occurrence_count) db.incidents

abbrev pub is_processed : IngestedEvent → Bool
is_processed e = is_some e.processed_at

-- The events that are marked.
unfoldable pub processed : Db → ℕ
processed db = count_where is_processed db.events

abbrev pub waits : String → IngestedEvent → Bool
waits id e = with_id id e && is_none e.processed_at

-- The unmarked events with an id.
unfoldable pub waiting : String → List IngestedEvent → ℕ
waiting id events = count_where (waits id) events

processed-mark :
    (id pk : String) (now : ℕ) (events : List IngestedEvent)
    → count_where is_processed (mark_processed id pk now events)
      ≡ count_where is_processed events + waiting id events
unfolding mark_processed waiting
processed-mark id pk now [] = omega arith
processed-mark id pk now (e ∷ es) = ground (arith, processed-mark id pk now es)

waiting-mark_other :
    (id other pk : String) (now : ℕ) (events : List IngestedEvent)
    → str_eq id other ≡ false
    → waiting other (mark_processed id pk now events) ≡ waiting other events
unfolding mark_processed waiting
waiting-mark_other id other pk now [] n = refl
waiting-mark_other id other pk now (e ∷ es) n = ground (
  arith,
  waiting-mark_other id other pk now es n,
  eq_iff e.id id,
  eq_iff e.id other,
  eq_iff id other,
)

IsKept-refl : (account fp : String) (t : List Incidents.Incident) → IsKept account fp t t
IsKept-refl account fp t = record { kept = λ r h. (r, h, refl) }

module _ (e : ClaimedEvent) (candidate : String) (now : ℕ) (db : Db) where
  save_event-counted :
      IsUnique db.incidents → counted (save_event e candidate now db).0 ≡ counted db + 1
  unfolding save_event counted
  save_event-counted u =
      upsert_incident-total candidate e.account_id (to_incident e) db.incidents db.incidents
        (IsKept-refl _ _ _) u

  save_event-IsUnique : IsUnique db.incidents → IsUnique (save_event e candidate now db).0.incidents
  unfolding save_event
  save_event-IsUnique u =
      upsert_incident-IsUnique candidate e.account_id (to_incident e) db.incidents db.incidents
        (IsKept-refl _ _ _) u

  save_event-processed :
      processed (save_event e candidate now db).0 ≡ processed db + waiting e.id db.events
  unfolding save_event processed
  save_event-processed = processed-mark e.id _ now db.events

  save_event-waiting :
      (other : String)
      → str_eq e.id other ≡ false
      → waiting other (save_event e candidate now db).0.events ≡ waiting other db.events
  unfolding save_event
  save_event-waiting other n = waiting-mark_other e.id other _ now db.events n

-- A recorded failure changes neither the incidents nor a mark.
record_failure_lem :
    (id : String) (text : Option Text) (db : Db)
    → ((record_failure id text db).incidents ≡ db.incidents)
      × (processed (record_failure id text db) ≡ processed db)
      × ((other : String)
          → waiting other (record_failure id text db).events ≡ waiting other db.events)
unfolding record_failure processed waiting
record_failure_lem id none db = (refl, refl, λ other. refl)
record_failure_lem id (some text) db = (
  refl,
  count_where-update_where is_processed (with_id id) _ db.events (λ x. refl),
  λ other. count_where-update_where (waits other) (with_id id) _ db.events (λ x. refl),
)

-- What one event does to the state, whatever its outcome.
pub record Conserves (e : ClaimedEvent) (db db' : Db) : Type 0 where
  pub unique : IsUnique db'.incidents
  pub balance : counted db' + processed db ≡ counted db + processed db'
  pub others :
      (other : String)
      → str_eq e.id other ≡ false
      → waiting other db'.events ≡ waiting other db.events

recorded :
    (e : ClaimedEvent) (text : Option Text) (db db' : Db)
    → Conserves e db db'
    → Conserves e db (record_failure e.id text db')
unfolding counted processed
recorded e text db db' c =
    let (same, marks, rows) = record_failure_lem e.id text db' in
    record {
      unique = rw same c.unique;
      balance = rw (same, marks) c.balance;
      others = λ other n. rows other ∙ c.others other n;
    }

saved :
    (e : ClaimedEvent) (candidate : String) (now : ℕ) (db : Db)
    → IsUnique db.incidents
    → waiting e.id db.events ≡ 1
    → Conserves e db (save_event e candidate now db).0
saved e candidate now db u w = record {
  unique = save_event-IsUnique e candidate now db u;
  balance =
      omega
        (arith, save_event-counted e candidate now db u, save_event-processed e candidate now db);
  others = λ other n. save_event-waiting e candidate now db other n;
}

process-Conserves :
    (e : ClaimedEvent) (o : Outcome) (db : Db)
    → IsUnique db.incidents
    → waiting e.id db.events ≡ 1
    → Conserves e db (process e o db)
unfolding process
process-Conserves e (db_failed text) db u w =
    recorded e text db db (record { unique = u; balance = refl; others = λ other n. refl })
process-Conserves e (committed candidate now) db u w = saved e candidate now db u w
process-Conserves e (analysis_failed candidate now text) db u w =
    elim (Bool-cases (save_event e candidate now db).1) [
      | inl new ↦ rw (new, after_save) (recorded e text db _ (saved e candidate now db u w))
      | inr old ↦ rw (old, after_save) (saved e candidate now db u w)
    ]

-- The events of a batch are different ones, and none of them is marked.
abbrev pub AllWaiting : List ClaimedEvent → List IngestedEvent → Type 0
AllWaiting [] events = Unit
AllWaiting (e ∷ es) events =
    (waiting e.id events ≡ 1) × (any_of (λ c. str_eq e.id c.id) es ≡ false) × AllWaiting es events

AllWaiting-other :
    (e : ClaimedEvent) (es : List ClaimedEvent) (events events' : List IngestedEvent)
    → ((other : String) → str_eq e.id other ≡ false → waiting other events' ≡ waiting other events)
    → any_of (λ c. str_eq e.id c.id) es ≡ false
    → AllWaiting es events
    → AllWaiting es events'
AllWaiting-other e [] events events' same n h = tt
AllWaiting-other e (c ∷ es) events events' same n h = (
  same c.id (ground arith) ∙ h.0,
  h.1,
  AllWaiting-other e es events events' same (ground arith) h.2,
)

-- Whatever fails, a batch counts one occurrence for each event that it marks as processed, and none
-- for the others, if its events are different and none of them is marked when the worker begins.
pub process_all-counted :
    (batch : List ClaimedEvent) (outcomes : List Outcome) (db : Db)
    → IsUnique db.incidents
    → AllWaiting batch db.events
    → IsUnique (process_all batch outcomes db).incidents
      × (counted (process_all batch outcomes db) + processed db
          ≡ counted db + processed (process_all batch outcomes db))
unfolding process_all
process_all-counted [] os db u h = (u, refl)
process_all-counted (e ∷ es) [] db u h = (u, refl)
process_all-counted (e ∷ es) (o ∷ os) db u h =
    let c = process-Conserves e o db u h.0 in
    let rest =
      process_all-counted es os (process e o db) c.unique
        (AllWaiting-other e es db.events (process e o db).events c.others h.1 h.2) in
    (rest.0, omega (arith, c.balance, rest.1))

-- If the incidents are unique and no waiting row has the id of a claimed event, which another
-- worker has processed, then processing it with a commit counts one more occurrence and marks no
-- further event.
pub save_event-counted_again :
    (e : ClaimedEvent) (candidate : String) (now : ℕ) (db : Db)
    → IsUnique db.incidents
    → waiting e.id db.events ≡ 0
    → (counted (process e (committed candidate now) db) ≡ counted db + 1)
      × (processed (process e (committed candidate now) db) ≡ processed db)
unfolding process
save_event-counted_again e candidate now db u w = (
  save_event-counted e candidate now db u,
  omega (arith, save_event-processed e candidate now db),
)
