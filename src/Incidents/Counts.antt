-- ===== src/Incidents/Counts.antt =====
-- How often an incident has been seen.
use sentinai_project.Common.{
  ℕ, String, Option, none, some, true, false, List, [], ◌∷◌, ◌++◌, ◌≡◌, refl, arith, str_eq, eq_iff,
  eq_refl, find_row, find_row-update_where, find_row-update_where_other, map_some, ap, ◌∙◌, inl,
  inr, Bool-cases,
}
use sentinai_project.Events.{LogIncident}
use sentinai_project.Incidents.{
  Incident, is_incident, find_incident, count_row, reopen_row, count_repeat, new_row,
}

-- How often the account has seen the fingerprint: 0 with no row.
abbrev pub seen_count : Option Incident → ℕ
seen_count none = 0
seen_count (some r) = r.occurrence_count

pub occurrences : String → String → List Incident → ℕ
occurrences account fingerprint t = seen_count (find_incident account fingerprint t)

abbrev pub repeat_row : ℕ → Incident → Incident
repeat_row seen_at r = reopen_row seen_at (count_row seen_at r)

module _ (account : String) where
  pub is_incident-count_row :
      (fp : String) (at : ℕ) (r : Incident)
      → is_incident account fp (count_row at r) ≡ is_incident account fp r
  unfolding count_row
  is_incident-count_row fp at r = refl

  pub is_incident-reopen_row :
      (fp : String) (at : ℕ) (r : Incident)
      → is_incident account fp (reopen_row at r) ≡ is_incident account fp r
  unfolding reopen_row
  is_incident-reopen_row fp at r = ground arith

  -- A counted repeat is found, counted and reopened.
  pub find-count_repeat :
      (fp : String) (at : ℕ) (t : List Incident)
      → find_incident account fp (count_repeat account fp at t)
        ≡ map_some (repeat_row at) (find_incident account fp t)
  unfolding find_incident count_repeat
  find-count_repeat fp at t =
      find_row-update_where (is_incident account fp) (reopen_row at) _
        (λ x e. is_incident-reopen_row fp at x ∙ e)
      ∙ ap (map_some (reopen_row at)) (
          find_row-update_where (is_incident account fp) (count_row at) t
            (λ x e. is_incident-count_row fp at x ∙ e))
      ∙ map_some-twice (find_row (is_incident account fp) t)
    where
      map_some-twice :
          (o : Option Incident)
          → map_some (reopen_row at) (map_some (count_row at) o) ≡ map_some (repeat_row at) o
      map_some-twice none = refl
      map_some-twice (some r) = refl

  apart :
      (fp other : String) (r : Incident)
      → str_eq fp other ≡ false
      → is_incident account fp r ≡ true
      → is_incident account other r ≡ false
  apart fp other r n e =
      ground (arith, eq_iff r.fingerprint fp, eq_iff r.fingerprint other, eq_iff fp other)

  pub find-count_repeat_other :
      (fp other : String) (at : ℕ) (t : List Incident)
      → str_eq fp other ≡ false
      → find_incident account other (count_repeat account fp at t) ≡ find_incident account other t
  unfolding find_incident count_repeat
  find-count_repeat_other fp other at t n =
      find_row-update_where_other (is_incident account fp) (reopen_row at)
        (is_incident account other) _
        (λ x e. (apart fp other x n e, is_incident-reopen_row other at x ∙ apart fp other x n e))
      ∙ find_row-update_where_other (is_incident account fp) (count_row at)
          (is_incident account other) t
          (λ x e. (apart fp other x n e, is_incident-count_row other at x ∙ apart fp other x n e))

  pub is_incident-new_row :
      (candidate : String) (i : LogIncident)
      → is_incident account i.incident_id (new_row candidate account i) ≡ true
  unfolding new_row
  is_incident-new_row candidate i = simp eq_refl

  pub is_incident-new_row_other :
      (candidate other : String) (i : LogIncident)
      → str_eq i.incident_id other ≡ false
      → is_incident account other (new_row candidate account i) ≡ false
  unfolding new_row
  is_incident-new_row_other candidate other i n = ground (arith, n)

  pub find-insert :
      (candidate : String) (i : LogIncident) (t : List Incident)
      → find_incident account i.incident_id t ≡ none
      → find_incident account i.incident_id (t ++ new_row candidate account i ∷ [])
        ≡ some (new_row candidate account i)
  unfolding find_incident
  find-insert candidate i [] h = rw (is_incident-new_row candidate i)
  find-insert candidate i (x ∷ t) h = elim (Bool-cases (is_incident account i.incident_id x)) [
    | inl e ↦ cc (let k : some x ≡ none = rw e at h in k)
    | inr e ↦ rw e (find-insert candidate i t (rw e at h))
  ]

  pub find-insert_other :
      (candidate other : String) (i : LogIncident) (t : List Incident)
      → str_eq i.incident_id other ≡ false
      → find_incident account other (t ++ new_row candidate account i ∷ [])
        ≡ find_incident account other t
  unfolding find_incident
  find-insert_other candidate other i [] n = rw (is_incident-new_row_other candidate other i n)
  find-insert_other candidate other i (x ∷ t) n = elim (Bool-cases (is_incident account other x)) [
    | inl e ↦ rw e
    | inr e ↦ rw e (find-insert_other candidate other i t n)
  ]

-- The row that an upsert leaves, in the words of the code, for the row that it finds.
unfoldable pub after_upsert : String → String → LogIncident → Option Incident → Incident
after_upsert candidate account i none = new_row candidate account i
after_upsert candidate account i (some r) = repeat_row i.detected_at_utc r
