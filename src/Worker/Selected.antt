-- ===== src/Worker/Selected.antt =====
-- What holds of the rows that the query of `claim` selects: how often an id is among them, and what
-- all rows satisfy.
use sentinai_project.Common.{
  ℕ, zero, suc, ◌≤◌, String, Bool, true, List, [], ◌∷◌, ◌≡◌, refl, arith, str_eq, Text, is_none,
  count_where, filter_rows, take, length, All, inl, inr, Bool-cases, Option-cases,
}
use sentinai_project.Ingest.{IngestedEvent, Source}
use sentinai_project.Worker.Incident.{ClaimedEvent}
use sentinai_project.Worker.Select.{
  claimed_events, claimed_event, named, source_of, sorted, insert_by, earlier,
}
use sentinai_project.Worker.{with_id}
use sentinai_project.Worker.Counted.{waiting}

module _ (q : IngestedEvent → Bool) where
  pub count-filter_rows-le :
      (id : String) (es : List IngestedEvent)
      → ((e : IngestedEvent) → q e ≡ true → is_none e.processed_at ≡ true)
      → count_where (with_id id) (filter_rows q es) ≤ waiting id es
  unfolding waiting
  count-filter_rows-le id [] k = omega arith
  count-filter_rows-le id (e ∷ es) k = elim (Bool-cases (q e)) [
    | inl h ↦ rw h (ground (arith, k e h, count-filter_rows-le id es k))
    | inr h ↦ rw h (ground (arith, count-filter_rows-le id es k))
  ]

  pub All-filter_rows :
      (P : IngestedEvent → Type 0) (es : List IngestedEvent)
      → All P es
      → All (λ e. P e × (q e ≡ true)) (filter_rows q es)
  All-filter_rows P [] h = tt
  All-filter_rows P (e ∷ es) h = elim (Bool-cases (q e)) [
    | inl k ↦ rw k ((h.0, k), All-filter_rows P es h.1)
    | inr k ↦ rw k (All-filter_rows P es h.1)
  ]

pub count-take-le :
    (id : String) (n : ℕ) (es : List IngestedEvent)
    → count_where (with_id id) (take n es) ≤ count_where (with_id id) es
count-take-le id zero es = omega arith
count-take-le id (suc n) [] = omega arith
count-take-le id (suc n) (e ∷ es) = omega (arith, count-take-le id n es)

pub All-take :
    (P : IngestedEvent → Type 0) (n : ℕ) (es : List IngestedEvent) → All P es → All P (take n es)
All-take P zero es h = tt
All-take P (suc n) [] h = tt
All-take P (suc n) (e ∷ es) h = (h.0, All-take P n es h.1)

module _ (id_before : String → String → Bool) where
  count-insert_by :
      (id : String) (a : IngestedEvent) (es : List IngestedEvent)
      → count_where (with_id id) (insert_by id_before a es) ≡ count_where (with_id id) (a ∷ es)
  unfolding insert_by
  count-insert_by id a [] = refl
  count-insert_by id a (e ∷ es) = elim (Bool-cases (earlier id_before e a)) [
    | inl h ↦ rw h (omega (arith, count-insert_by id a es))
    | inr h ↦ rw h refl
  ]

  pub count-sorted :
      (id : String) (es : List IngestedEvent)
      → count_where (with_id id) (sorted id_before es) ≡ count_where (with_id id) es
  unfolding sorted
  count-sorted id [] = refl
  count-sorted id (e ∷ es) =
      omega (arith, count-insert_by id e (sorted id_before es), count-sorted id es)

  All-insert_by :
      (P : IngestedEvent → Type 0) (a : IngestedEvent) (es : List IngestedEvent)
      → P a
      → All P es
      → All P (insert_by id_before a es)
  unfolding insert_by
  All-insert_by P a [] p h = (p, tt)
  All-insert_by P a (e ∷ es) p h = elim (Bool-cases (earlier id_before e a)) [
    | inl k ↦ rw k (h.0, All-insert_by P a es p h.1)
    | inr k ↦ rw k (p, h)
  ]

  pub All-sorted :
      (P : IngestedEvent → Type 0) (es : List IngestedEvent)
      → All P es
      → All P (sorted id_before es)
  unfolding sorted
  All-sorted P [] h = tt
  All-sorted P (e ∷ es) h = All-insert_by P e (sorted id_before es) h.0 (All-sorted P es h.1)

module _ (sources : List Source) where
  pub count-claimed_events-le :
      (id : String) (es : List IngestedEvent)
      → count_where (λ (c : ClaimedEvent). str_eq c.id id) (claimed_events sources es)
        ≤ count_where (with_id id) es
  unfolding claimed_events named claimed_event
  count-claimed_events-le id [] = omega arith
  count-claimed_events-le id (e ∷ es) = elim (Option-cases (source_of sources e)) [
    | inl h ↦ rw (h, named) (omega (arith, count-claimed_events-le id es))
    | inr (s, h) ↦ rw (h, named) (omega (arith, count-claimed_events-le id es))
  ]

  pub All-claimed_events :
      (P : IngestedEvent → Type 0) (Q : ClaimedEvent → Type 0) (es : List IngestedEvent)
      → ((e : IngestedEvent) (name : Text) → P e → Q (claimed_event e name))
      → All P es
      → All Q (claimed_events sources es)
  unfolding claimed_events named
  All-claimed_events P Q [] k h = tt
  All-claimed_events P Q (e ∷ es) k h = elim (Option-cases (source_of sources e)) [
    | inl n ↦ rw (n, named) (All-claimed_events P Q es k h.1)
    | inr (s, n) ↦ rw (n, named) (k e s.name h.0, All-claimed_events P Q es k h.1)
  ]

  pub length-claimed_events-le :
      (es : List IngestedEvent) → length (claimed_events sources es) ≤ length es
  unfolding claimed_events named
  length-claimed_events-le [] = omega arith
  length-claimed_events-le (e ∷ es) = elim (Option-cases (source_of sources e)) [
    | inl h ↦ rw (h, named) (omega (arith, length-claimed_events-le es))
    | inr (s, h) ↦ rw (h, named) (omega (arith, length-claimed_events-le es))
  ]
