-- ===== src/Incidents/Status.antt =====
-- Resolving an incident, and what a later occurrence does to it.
use sentinai_project.Common.{
  ℕ, ◌+◌, max, String, Option, none, some, Bool, true, List, [], ◌∷◌, ◌≡◌, refl, arith, ltb,
  if◌then◌else◌, find_row, any_of, find_row-update_where, map_some, ap, ◌∙◌, sym, is_some,
}
use mathlib.Core.Option.{some-injective}
use sentinai_project.Events.{LogIncident}
use sentinai_project.Incidents.{
  Incident, opened, resolved, is_incident, find_incident, count_row, reopen_row, upsert_incident,
  set_incident_status,
}
use sentinai_project.Incidents.Counts.{after_upsert}
use sentinai_project.Incidents.Upsert.{IsKept, upsert_incident_lem}

-- The row that resolving it leaves.
abbrev pub resolved_row : ℕ → Option String → Incident → Incident
resolved_row at user r = record r { status = resolved; resolved_at = some at; resolved_by = user }

any_of-find :
    (account fp : String) (t : List Incident)
    → any_of (is_incident account fp) t ≡ is_some (find_incident account fp t)
unfolding find_incident
any_of-find account fp [] = refl
any_of-find account fp (r ∷ t) = ground (arith, any_of-find account fp t)

module _ (account fp : String) (at : ℕ) (user : Option String) (t : List Incident) where
  -- Resolving changes the status of the incident, if there is one, and says whether there is.
  pub resolve_lem :
      (t' : List Incident) (found : Bool)
      → set_incident_status account fp "resolved" at user t ≡ some (t', found)
      → (found ≡ is_some (find_incident account fp t))
        × (find_incident account fp t'
            ≡ map_some (resolved_row at user) (find_incident account fp t))
  unfolding set_incident_status find_incident
  resolve_lem t' found h =
      let parts = some-injective _ _ h in
      (
        sym (ap (λ p. p.1) parts) ∙ any_of-find account fp t,
        ap (λ p. find_row (is_incident account fp) p.0) (sym parts)
            ∙ find_row-update_where (is_incident account fp) (resolved_row at user) t (λ x e. e),
      )

  -- If an incident is resolved and occurs again, its count is raised by 1 and its last time is the
  -- later one; it is open again, without a resolve time, exactly if the occurrence is later than
  -- the resolve time.
  pub resolve-upsert :
      (candidate : String) (i : LogIncident) (seen t' : List Incident) {r : Incident}
      → i.incident_id ≡ fp
      → find_incident account fp t ≡ some r
      → set_incident_status account fp "resolved" at user t ≡ some (t', true)
      → IsKept account i.incident_id seen t'
      → (r' : Incident) × (find_incident account fp (upsert_incident candidate account i seen t').0
          ≡ some r')
        × (r'.status ≡ (if ltb at i.detected_at_utc then opened else resolved))
        × (r'.resolved_at ≡ (if ltb at i.detected_at_utc then none else some at))
        × (r'.occurrence_count ≡ r.occurrence_count + 1)
        × (r'.last_seen_at ≡ max r.last_seen_at i.detected_at_utc)
  unfolding after_upsert reopen_row count_row
  resolve-upsert candidate i seen t' {r} same e h k =
      let (_, now) = resolve_lem t' true h in
      let resolved_then : find_incident account fp t' ≡ some (resolved_row at user r) =
        now ∙ ap (map_some (resolved_row at user)) e in
      let after = (upsert_incident_lem candidate account i seen t' k).0 in
      (
        after_upsert candidate account i (some (resolved_row at user r)),
        cc (same, resolved_then, after),
        ground arith,
        ground arith,
        ground arith,
        ground arith,
      )
