-- ===== src/Ingest/Stored.antt =====
-- Storing a batch: nothing is lost, nothing is stored twice, and a retry stores nothing.
use sentinai_project.Common.{
  ℕ, ◌+◌, ◌≤◌, String, true, false, List, [], ◌∷◌, ◌++◌, ◌≡◌, refl, arith, ◌||◌, eq_iff, eq_refl,
  any_of, length, length-append, count_where, count_where-append, ◌∙◌, inl, inr, Bool-cases,
}
use sentinai_project.Ingest.{
  IngestedEvent, NewEvent, Source, Batch, is_event, new_event, insert_event, tally, store_loop,
  store_events, is_waiting, queue_counts,
}

pub record IsUnique (t : List IngestedEvent) : Type 0 where
  pub once : (source event : String) → count_where (is_event source event) t ≤ 1

count_where_absent :
    (source event : String) (t : List IngestedEvent)
    → any_of (is_event source event) t ≡ false
    → count_where (is_event source event) t ≡ 0
count_where_absent source event [] h = refl
count_where_absent source event (r ∷ t) h = ground (arith, count_where_absent source event t)

module _ (source : Source) (now : ℕ) where
  new_event-key :
      (e : NewEvent) (new_id s k : String)
      → is_event s k (new_event source e new_id now) ≡ true
      → (source.id ≡ s) × (e.event_id ≡ k)
  unfolding new_event
  new_event-key e new_id s k h = ground (arith, eq_iff source.id s, eq_iff e.event_id k)

  insert-IsUnique :
      (b : Batch) (e : NewEvent) (new_id : String)
      → IsUnique b.table
      → IsUnique (tally b (insert_event source e new_id now b.table)).table
  unfolding insert_event tally
  insert-IsUnique b e new_id u =
      elim (Bool-cases (any_of (is_event source.id e.event_id) b.table)) [
        | inl old ↦ rw (old, tally) u
        | inr new ↦
            rw (new, tally)
              (record {
                once = λ s k.
                    rw
                      (count_where-append (is_event s k) b.table
                        (new_event source e new_id now ∷ []))
                      (one_new new s k);
              })
      ]
    where
      one_new :
          any_of (is_event source.id e.event_id) b.table ≡ false
          → (s k : String)
          → count_where (is_event s k) b.table
              + count_where (is_event s k) (new_event source e new_id now ∷ [])
            ≤ 1
      one_new new s k = elim (Bool-cases (is_event s k (new_event source e new_id now))) [
        | inl same ↦
            let (same_source, same_event) = new_event-key e new_id s k same in
            let absent : count_where (is_event s k) b.table ≡ 0 =
              rw (← same_source, ← same_event)
                (count_where_absent source.id e.event_id b.table new) in
            rw (same, absent) (omega arith)
        | inr other ↦ rw other (omega (arith, u.once s k))
      ]

  store_loop-IsUnique :
      (b : Batch) (es : List (NewEvent × String))
      → IsUnique b.table
      → IsUnique (store_loop source now b es).table
  unfolding store_loop
  store_loop-IsUnique b [] u = u
  store_loop-IsUnique b ((e, new_id) ∷ es) u =
      store_loop-IsUnique (tally b (insert_event source e new_id now b.table)) es
        (insert-IsUnique b e new_id u)

  tally_counts :
      (b : Batch) (e : NewEvent) (new_id : String)
      → let b' = tally b (insert_event source e new_id now b.table) in
        (b'.stored + b'.duplicates ≡ b.stored + b.duplicates + 1)
        × (length b'.table + b.stored ≡ length b.table + b'.stored)
  unfolding insert_event tally
  tally_counts b e new_id = elim (Bool-cases (any_of (is_event source.id e.event_id) b.table)) [
    | inl old ↦ rw (old, tally) (omega arith, omega arith)
    | inr new ↦
        rw (new, tally)
          (omega arith, omega (arith, length-append b.table (new_event source e new_id now ∷ [])))
  ]

  store_loop_counts :
      (b : Batch) (es : List (NewEvent × String))
      → let b' = store_loop source now b es in
        (b'.stored + b'.duplicates ≡ b.stored + b.duplicates + length es)
        × (length b'.table + b.stored ≡ length b.table + b'.stored)
  unfolding store_loop
  store_loop_counts b [] = (omega arith, omega arith)
  store_loop_counts b ((e, new_id) ∷ es) =
      let b1 = tally b (insert_event source e new_id now b.table) in
      let one = tally_counts b e new_id in
      let rest = store_loop_counts b1 es in (omega (arith, one, rest), omega (arith, one, rest))

  -- Every event of a batch is either stored or counted as a duplicate, and the table grows by the
  -- number that is stored.
  pub store_events_counts :
      (es : List (NewEvent × String)) (t : List IngestedEvent) (sources : List Source)
      → let (b, _) = store_events source now es t sources in
        (b.stored + b.duplicates ≡ length es) × (length b.table ≡ length t + b.stored)
  unfolding store_events
  store_events_counts es t sources =
      let counts = store_loop_counts (record { table = t; stored = 0; duplicates = 0 }) es in
      (omega (arith, counts), omega (arith, counts))

  -- If each event id of a source is in the table at most once, it still is after a batch is
  -- stored.
  pub store_events-IsUnique :
      (es : List (NewEvent × String)) (t : List IngestedEvent) (sources : List Source)
      → IsUnique t
      → IsUnique (store_events source now es t sources).0.table
  unfolding store_events
  store_events-IsUnique es t sources u = store_loop-IsUnique _ es u

any_of-append :
    (source event : String) (t u : List IngestedEvent)
    → any_of (is_event source event) (t ++ u)
      ≡ any_of (is_event source event) t || any_of (is_event source event) u
any_of-append source event [] u = refl
any_of-append source event (r ∷ t) u = ground (arith, any_of-append source event t u)

-- The events of the batch are all in the table.
abbrev AllIn : String → List (NewEvent × String) → List IngestedEvent → Type 0
AllIn source [] t = Unit
AllIn source ((e, _) ∷ es) t = (any_of (is_event source e.event_id) t ≡ true) × AllIn source es t

module _ (source : Source) (now : ℕ) where
  insert_keeps :
      (b : Batch) (e : NewEvent) (new_id k : String)
      → any_of (is_event source.id k) b.table ≡ true
      → any_of (is_event source.id k) (tally b (insert_event source e new_id now b.table)).table
        ≡ true
  unfolding insert_event tally
  insert_keeps b e new_id k h = elim (Bool-cases (any_of (is_event source.id e.event_id) b.table)) [
    | inl old ↦ rw (old, tally) h
    | inr new ↦ rw (new, tally) (rw (any_of-append source.id k b.table _) (ground (arith, h)))
  ]

  insert_adds :
      (b : Batch) (e : NewEvent) (new_id : String)
      → any_of
          (is_event source.id e.event_id)
          (tally b (insert_event source e new_id now b.table)).table
        ≡ true
  unfolding insert_event tally new_event
  insert_adds b e new_id = elim (Bool-cases (any_of (is_event source.id e.event_id) b.table)) [
    | inl old ↦ rw (old, tally) old
    | inr new ↦
        rw (new, tally)
          (rw (any_of-append source.id e.event_id b.table _)
            (ground (arith, eq_refl source.id, eq_refl e.event_id)))
  ]

  store_loop_keeps :
      (b : Batch) (es : List (NewEvent × String)) (k : String)
      → any_of (is_event source.id k) b.table ≡ true
      → any_of (is_event source.id k) (store_loop source now b es).table ≡ true
  unfolding store_loop
  store_loop_keeps b [] k h = h
  store_loop_keeps b ((e, new_id) ∷ es) k h =
      store_loop_keeps (tally b (insert_event source e new_id now b.table)) es k
        (insert_keeps b e new_id k h)

  store_loop-AllIn :
      (b : Batch) (es : List (NewEvent × String))
      → AllIn source.id es (store_loop source now b es).table
  unfolding store_loop
  store_loop-AllIn b [] = tt
  store_loop-AllIn b ((e, new_id) ∷ es) =
      let b1 = tally b (insert_event source e new_id now b.table) in
      (store_loop_keeps b1 es e.event_id (insert_adds b e new_id), store_loop-AllIn b1 es)

  store_loop_again :
      (b : Batch) (es : List (NewEvent × String))
      → AllIn source.id es b.table
      → store_loop source now b es ≡ record b { duplicates = b.duplicates + length es }
  unfolding store_loop insert_event tally
  store_loop_again b [] h = ground arith
  store_loop_again b ((e, new_id) ∷ es) h =
      rw (h.0, tally)
        (store_loop_again (record b { duplicates = b.duplicates + 1 }) es h.1 ∙ ground arith)

again_from :
    (source : Source) (later : ℕ) (es : List (NewEvent × String)) (t : List IngestedEvent)
    (sources : List Source)
    → AllIn source.id es t
    → store_events source later es t sources
      ≡ (record { table = t; stored = 0; duplicates = length es }, sources)
unfolding store_events
again_from source later es t sources h =
    rw (store_loop_again source later (record { table = t; stored = 0; duplicates = 0 }) es h)
      (ground arith)

-- A batch that is sent again right after itself, at any time, stores nothing, counts every event
-- as a duplicate and changes no source.
pub store_events-again :
    (source : Source) (now later : ℕ) (es : List (NewEvent × String)) (t : List IngestedEvent)
    (sources : List Source)
    → let (b, sources') = store_events source now es t sources in
      store_events source later es b.table sources'
      ≡ (record { table = b.table; stored = 0; duplicates = length es }, sources')
store_events-again source now later es t sources =
    let (b, sources') = store_events source now es t sources in
    again_from source later es b.table sources'
      (unfold store_events in store_loop-AllIn source now _ es)

-- The numbers of pending and of failed events that queue_counts gives add up to the account's
-- events that are not processed.
pub queue_counts-total :
    (account : String) (limit : ℕ) (t : List IngestedEvent)
    → let (pending, failed) = queue_counts account limit t in
      pending + failed ≡ count_where (is_waiting account) t
unfolding queue_counts
queue_counts-total account limit [] = omega arith
queue_counts-total account limit (r ∷ t) = ground (arith, queue_counts-total account limit t)
