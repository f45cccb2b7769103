-- ===== src/Worker/Leases.antt =====
-- What a claim promises: a bounded batch of different events, each leased to one worker.
use sentinai_project.Common.{
  ℕ, ◌+◌, ◌≤◌, String, some, Bool, true, false, List, [], ◌∷◌, ◌≡◌, refl, arith, ◌&&◌, not, str_eq,
  eq_iff, eq_refl, any_of, Text, count_where, count_where-update_where, filter_rows, take, length,
  All, length-take, inl, inr, Bool-cases,
}
use sentinai_project.Ingest.{IngestedEvent, Source}
use sentinai_project.Incidents.Upsert.{IsUnique}
use sentinai_project.Worker.Incident.{ClaimedEvent}
use sentinai_project.Worker.Select.{
  is_claimable, in_batch, claim_rows, claim_batch, claimed_event, select_rows, sorted, has_source,
}
use sentinai_project.Worker.Selected.{
  count-filter_rows-le, All-filter_rows, count-take-le, All-take, count-sorted, All-sorted,
  count-claimed_events-le, All-claimed_events, length-claimed_events-le,
}
use sentinai_project.Worker.{Db, Outcome, with_id, claim, run_once}
use sentinai_project.Worker.Counted.{
  counted, processed, waiting, waits, is_processed, AllWaiting, process_all-counted,
}

-- No two events have the same id: the table's primary key.
pub record HasKey (events : List IngestedEvent) : Type 0 where
  pub once : (id : String) → count_where (with_id id) events ≤ 1

waiting-le :
    (id : String) (events : List IngestedEvent)
    → waiting id events ≤ count_where (with_id id) events
unfolding waiting
waiting-le id [] = omega arith
waiting-le id (e ∷ es) = ground (arith, waiting-le id es)

batch_count : String → List ClaimedEvent → ℕ
batch_count id batch = count_where (λ (c : ClaimedEvent). str_eq c.id id) batch

absent_of_count :
    (id : String) (batch : List ClaimedEvent)
    → batch_count id batch ≡ 0
    → any_of (λ c. str_eq id c.id) batch ≡ false
unfolding batch_count
absent_of_count id [] h = refl
absent_of_count id (c ∷ cs) h =
    ground (arith, eq_iff c.id id, eq_iff id c.id, absent_of_count id cs)

AllWaiting-of_counts :
    (batch : List ClaimedEvent) (events : List IngestedEvent)
    → ((id : String) → batch_count id batch ≤ waiting id events)
    → ((id : String) → waiting id events ≤ 1)
    → AllWaiting batch events
unfolding batch_count
AllWaiting-of_counts [] events le one = tt
AllWaiting-of_counts (c ∷ cs) events le one = (
  ground (arith, le c.id, one c.id, eq_refl c.id),
  absent_of_count c.id cs (unfold batch_count in ground (arith, le c.id, one c.id, eq_refl c.id)),
  AllWaiting-of_counts cs events (λ id. ground (arith, le id)) one,
)

module _ (id_before : String → String → Bool) (locked : String → Bool)
    (batch_size lease max_attempts now : ℕ) (sources : List Source)
    (events : List IngestedEvent) where
  abbrev selects : IngestedEvent → Bool
  selects e = is_claimable lease max_attempts now e && (has_source sources e && not (locked e.id))

  selects_free :
      (e : IngestedEvent) → selects e ≡ true → is_claimable lease max_attempts now e ≡ true
  selects_free e h = ground arith

  batch_count-le :
      (id : String)
      → batch_count id
          (claim_batch id_before locked batch_size lease max_attempts now sources events)
        ≤ waiting id events
  unfolding batch_count claim_batch select_rows
  batch_count-le id = omega (
    arith,
    count-claimed_events-le sources id
        (take batch_size (sorted id_before (filter_rows selects events))),
    count-take-le id batch_size (sorted id_before (filter_rows selects events)),
    count-sorted id_before id (filter_rows selects events),
    count-filter_rows-le selects id events (λ e h. ground arith),
  )

  All-batch :
      (P : IngestedEvent → Type 0) (Q : ClaimedEvent → Type 0)
      → All P events
      → ((e : IngestedEvent) (name : Text) → P e × (selects e ≡ true) → Q (claimed_event e name))
      → All Q (claim_batch id_before locked batch_size lease max_attempts now sources events)
  unfolding claim_batch select_rows
  All-batch P Q h k =
      let Selected : IngestedEvent → Type 0 = λ e. P e × (selects e ≡ true) in
      All-claimed_events sources Selected Q _ k (
        All-take Selected batch_size _
          (All-sorted id_before Selected _ (All-filter_rows selects P events h)))

  length-batch :
      length (claim_batch id_before locked batch_size lease max_attempts now sources events)
      ≤ batch_size
  unfolding claim_batch select_rows
  length-batch = omega (
    arith,
    length-claimed_events-le sources
        (take batch_size (sorted id_before (filter_rows selects events))),
    length-take batch_size (sorted id_before (filter_rows selects events)),
  )

All-trivial : (events : List IngestedEvent) → All (λ _. Unit {0}) events
All-trivial [] = tt
All-trivial (e ∷ es) = (tt, All-trivial es)

-- What a claim writes into the rows of its batch.
Leased : ℕ → List ClaimedEvent → IngestedEvent → Type 0
Leased now batch e = in_batch batch e ≡ true → e.claimed_at ≡ some now

claim_rows-Leased :
    (now : ℕ) (batch : List ClaimedEvent) (events : List IngestedEvent)
    → All (Leased now batch) (claim_rows now batch events)
unfolding claim_rows Leased
claim_rows-Leased now batch [] = tt
claim_rows-Leased now batch (e ∷ es) = (ground arith, claim_rows-Leased now batch es)

waiting-claim_rows :
    (id : String) (now : ℕ) (batch : List ClaimedEvent) (events : List IngestedEvent)
    → waiting id (claim_rows now batch events) ≡ waiting id events
unfolding waiting claim_rows
waiting-claim_rows id now batch events =
    count_where-update_where (waits id) (in_batch batch) _ events (λ x. refl)

processed-claim_rows :
    (now : ℕ) (batch : List ClaimedEvent) (events : List IngestedEvent)
    → count_where is_processed (claim_rows now batch events) ≡ count_where is_processed events
unfolding claim_rows
processed-claim_rows now batch events =
    count_where-update_where is_processed (in_batch batch) _ events (λ x. refl)

module _ (id_before : String → String → Bool) (lease max_attempts : ℕ) (sources : List Source) where
  -- A claim takes at most batch_size events, and each has between 1 and max_attempts attempts.
  pub claim_bounds :
      (locked : String → Bool) (batch_size now : ℕ) (db : Db)
      → let (batch, _) = claim id_before locked batch_size lease max_attempts now sources db in
        (length batch ≤ batch_size)
        × All (λ c. (1 ≤ c.attempts) × (c.attempts ≤ max_attempts)) batch
  unfolding claim
  claim_bounds locked batch_size now db = (
    length-batch id_before locked batch_size lease max_attempts now sources db.events,
    All-batch id_before locked batch_size lease max_attempts now sources db.events (λ _. Unit {0})
        (λ c. (1 ≤ c.attempts) × (c.attempts ≤ max_attempts)) (All-trivial db.events)
        (λ e name h. unfold claimed_event in (omega arith, ground (arith, h.1))),
  )

  -- A second claim, not later than the time of the first plus the lease, with any locks and any
  -- batch size, takes no event that the first has taken.
  pub claim-exclusive :
      (locked locked' : String → Bool) (size size' now now' : ℕ) (db : Db)
      → now' ≤ now + lease
      → let (batch, db') = claim id_before locked size lease max_attempts now sources db in
        let (batch', _) = claim id_before locked' size' lease max_attempts now' sources db' in
        All (λ c. any_of (λ d. str_eq d.id c.id) batch ≡ false) batch'
  unfolding claim
  claim-exclusive locked locked' size size' now now' db soon =
      let batch = claim_batch id_before locked size lease max_attempts now sources db.events in
      All-batch id_before locked' size' lease max_attempts now' sources
        (claim_rows now batch db.events) (Leased now batch)
        (λ c. any_of (λ d. str_eq d.id c.id) batch ≡ false) (claim_rows-Leased now batch db.events)
        (λ e name h.
          unfold claimed_event Leased in
          elim (Bool-cases (in_batch batch e)) [
            | inl taken ↦ let at = h.0 taken in ground (arith, at, h.1)
            | inr free ↦ free
          ])

  -- If event ids and incidents are unique, one pass of the worker keeps the incidents unique and
  -- adds to their occurrence counts exactly the number of events that it marks as processed,
  -- whatever outcomes its events have and wherever it stops.
  pub run_once-counted :
      (locked : String → Bool) (batch_size now : ℕ) (outcomes : List Outcome) (db : Db)
      → HasKey db.events
      → IsUnique db.incidents
      → let (_, db') =
          run_once id_before locked batch_size lease max_attempts now sources outcomes db in
        IsUnique db'.incidents × (counted db' + processed db ≡ counted db + processed db')
  unfolding run_once claim
  run_once-counted locked batch_size now outcomes db key u =
      let batch =
        claim_batch id_before locked batch_size lease max_attempts now sources db.events in
      let db1 : Db = record db { events = claim_rows now batch db.events } in
      let ready =
        AllWaiting-of_counts batch (claim_rows now batch db.events)
          (λ id. rw (waiting-claim_rows id now batch db.events) (
            batch_count-le id_before locked batch_size lease max_attempts now sources db.events id))
          (λ id.
            rw (waiting-claim_rows id now batch db.events)
              (omega (arith, waiting-le id db.events, key.once id))) in
      let all = process_all-counted batch outcomes db1 u ready in
      (all.0, same_start db batch _ all.1)
    where
      same_start :
          (db : Db) (batch : List ClaimedEvent) (db' : Db)
          → counted db' + processed (record db { events = claim_rows now batch db.events })
            ≡ counted (record db { events = claim_rows now batch db.events }) + processed db'
          → counted db' + processed db ≡ counted db + processed db'
      same_start db batch db' h =
          unfold counted processed in omega (arith, h, processed-claim_rows now batch db.events)
