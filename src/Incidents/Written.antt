-- ===== src/Incidents/Written.antt =====
-- What an upsert writes, field by field, without the functions of the code.
use sentinai_project.Common.{
  ℕ, ◌+◌, ◌≤◌, ◌<◌, max, String, Option, none, some, true, false, List, ◌≡◌, refl, arith, str_eq,
  is_none, Bool-cases, inl, inr,
}
use sentinai_project.Events.{LogIncident}
use sentinai_project.Incidents.{
  Incident, IncidentStatus, opened, resolved, is_resolved_before, find_incident, count_row,
  reopen_row, new_row, upsert_incident,
}
use sentinai_project.Incidents.Counts.{after_upsert, repeat_row}
use sentinai_project.Incidents.Upsert.{IsKept, upsert_incident_lem}

-- The row of an error that is seen for the first time.
pub record IsFirst (candidate account : String) (i : LogIncident) (new : Incident) : Type 0 where
  pub id : new.id ≡ candidate
  pub owner : new.account_id ≡ account
  pub fingerprint : new.fingerprint ≡ i.incident_id
  pub detected : new.detected_at ≡ i.detected_at_utc
  pub seen : new.last_seen_at ≡ i.detected_at_utc
  pub count : new.occurrence_count ≡ 1
  pub severity : new.severity ≡ i.severity
  pub trigger_line : new.trigger_line ≡ i.trigger_line
  pub stacktrace : new.stacktrace ≡ i.stacktrace
  pub context : new.context_before_error ≡ i.context_before_error
  pub source : new.source ≡ i.source
  pub status : new.status ≡ opened
  pub unresolved : new.resolved_at ≡ none
  pub unresolved_by : new.resolved_by ≡ none

-- What a repeat never changes.
pub record IsSame (old new : Incident) : Type 0 where
  pub id : new.id ≡ old.id
  pub owner : new.account_id ≡ old.account_id
  pub fingerprint : new.fingerprint ≡ old.fingerprint
  pub detected : new.detected_at ≡ old.detected_at
  pub severity : new.severity ≡ old.severity
  pub trigger_line : new.trigger_line ≡ old.trigger_line
  pub stacktrace : new.stacktrace ≡ old.stacktrace
  pub context : new.context_before_error ≡ old.context_before_error
  pub source : new.source ≡ old.source

-- The row of an error that is seen again at a time: `reopened` is for one that was resolved before
-- that time, and `kept` for any other.
pub record IsRepeat (seen_at : ℕ) (old new : Incident) : Type 0 where
  pub same : IsSame old new
  pub count : new.occurrence_count ≡ old.occurrence_count + 1
  pub seen : new.last_seen_at ≡ max old.last_seen_at seen_at
  pub reopened :
      (at : ℕ)
      → old.status ≡ resolved
      → old.resolved_at ≡ some at
      → at < seen_at
      → (new.status ≡ opened) × (new.resolved_at ≡ none) × (new.resolved_by ≡ none)
  pub kept :
      ((at : ℕ) → old.status ≡ resolved → old.resolved_at ≡ some at → seen_at ≤ at)
      → (new.status ≡ old.status)
        × (new.resolved_at ≡ old.resolved_at)
        × (new.resolved_by ≡ old.resolved_by)

-- By what stood under the incident's fingerprint before.
abbrev pub IsWritten : String → String → LogIncident → Option Incident → Incident → Type 0
IsWritten candidate account i none new = IsFirst candidate account i new
IsWritten candidate account i (some old) new = IsRepeat i.detected_at_utc old new

new_row-IsFirst :
    (candidate account : String) (i : LogIncident)
    → IsFirst candidate account i (new_row candidate account i)
unfolding new_row
new_row-IsFirst candidate account i = ground arith

resolved_before :
    (seen_at : ℕ) (s : IncidentStatus) (o : Option ℕ)
    → is_resolved_before seen_at s o ≡ true
    → (at : ℕ) × (s ≡ resolved) × (o ≡ some at) × (at < seen_at)
resolved_before seen_at resolved (some at) h = (at, refl, refl, ground arith)
resolved_before seen_at resolved none h = cc
resolved_before seen_at opened o h = cc

repeat_row-IsRepeat : (at : ℕ) (r : Incident) → IsRepeat at r (repeat_row at r)
unfolding reopen_row count_row
repeat_row-IsRepeat at r = elim (Bool-cases (is_resolved_before at r.status r.resolved_at)) [
  | inl e ↦
      let (t, s, o, l) = resolved_before at r.status r.resolved_at e in
      rw e (record {
        same = ground arith;
        count = refl;
        seen = ground arith;
        reopened = λ _ _ _ _. (refl, refl, refl);
        kept = λ k. absurd (omega (arith, l, k t s o));
      })
  | inr e ↦ rw e (record {
    same = ground arith;
    count = refl;
    seen = ground arith;
    reopened = λ t s o l. absurd (
        let f : is_resolved_before at resolved (some t) ≡ false = rw (s, o) at e in
        ground (arith, f, l));
    kept = λ _. (refl, refl, refl);
  })
]

after_upsert-IsWritten :
    (candidate account : String) (i : LogIncident) (found : Option Incident)
    → IsWritten candidate account i found (after_upsert candidate account i found)
unfolding after_upsert
after_upsert-IsWritten candidate account i none = new_row-IsFirst candidate account i
after_upsert-IsWritten candidate account i (some r) = repeat_row-IsRepeat i.detected_at_utc r

-- If a row seen by the first query is still in the table, then after an upsert, whatever the first
-- query saw, a row stands under the incident's fingerprint. If there was none before, it is an
-- open one with the candidate id, the incident's values and a count of 1. Else it has the old
-- row's id and values, the old count and 1, and the later of the old last time and the incident's;
-- it is open and unresolved if the old one was resolved before the incident's time, and has the
-- old status otherwise. The upsert returns that row's id and whether it made the row, and what is
-- found under each other fingerprint of the account is as before.
pub upsert_incident-IsWritten :
    (candidate account : String) (i : LogIncident) (seen t : List Incident)
    → IsKept account i.incident_id seen t
    → let (t', (id, is_new)) = upsert_incident candidate account i seen t in
      let found = find_incident account i.incident_id t in
      (row : Incident) × (find_incident account i.incident_id t' ≡ some row)
      × IsWritten candidate account i found row
      × (id ≡ row.id)
      × (is_new ≡ is_none found)
      × ((fp : String)
          → str_eq i.incident_id fp ≡ false
          → find_incident account fp t' ≡ find_incident account fp t)
upsert_incident-IsWritten candidate account i seen t k =
    let found = find_incident account i.incident_id t in
    let l = upsert_incident_lem candidate account i seen t k in
    (
      after_upsert candidate account i found,
      l.0,
      after_upsert-IsWritten candidate account i found,
      l.1,
      l.2,
      l.3,
    )
