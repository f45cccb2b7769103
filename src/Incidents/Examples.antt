-- ===== src/Incidents/Examples.antt =====
-- One incident, resolved and seen again.
use sentinai_project.Common.{
  sum_of, ◌+◌, ltb, max, refl, if◌then◌else◌, String, none, some, false, List, [], ◌∷◌, ◌≡◌, arith,
  str_eq, is_none, codes,
}
use sentinai_project.Events.{LogIncident, critical}
use sentinai_project.Incidents.{
  Incident, resolved, opened, set_incident_status, find_incident, new_row, upsert_incident,
}
use sentinai_project.Incidents.Written.{IsWritten, upsert_incident-IsWritten}
use sentinai_project.Incidents.Upsert.{IsKept, IsUnique, upsert_incident-total}
use sentinai_project.Incidents.Status.{resolve-upsert}

abbrev crash : LogIncident
crash = record {
  incident_id = "f1";
  detected_at_utc = 10;
  severity = critical;
  trigger_line = codes "boom";
  stacktrace = [];
  context_before_error = [];
  source = none;
}

abbrev later : LogIncident
later = record crash { detected_at_utc = 30 }

abbrev table : List Incident
table = new_row "i1" "a" crash ∷ []

-- The first query of a writer that lost the race saw the empty table.
raced : IsKept "a" "f1" [] table
unfolding find_incident
raced = record { kept = λ r h. cc }

unique : IsUnique table
unfolding new_row
unique = record { once = λ account fp. ground arith }

upsert_incident-IsWritten_example :
    let (t', (id, is_new)) = upsert_incident "i2" "a" later [] table in
    let found = find_incident "a" "f1" table in
    (row : Incident) × (find_incident "a" "f1" t' ≡ some row)
    × IsWritten "i2" "a" later found row
    × (id ≡ row.id)
    × (is_new ≡ is_none found)
    × ((fp : String)
        → str_eq "f1" fp ≡ false
        → find_incident "a" fp t' ≡ find_incident "a" fp table)
upsert_incident-IsWritten_example = upsert_incident-IsWritten "i2" "a" later [] table raced

abbrev closed : List Incident
closed =
    record (new_row "i1" "a" crash) {
      status = resolved;
      resolved_at = some 20;
      resolved_by = some "ops";
    }
    ∷ []

upsert_incident-total_example :
    sum_of (λ (r : Incident). r.occurrence_count) (upsert_incident "i2" "a" later [] table).0
    ≡ sum_of (λ (r : Incident). r.occurrence_count) table + 1
upsert_incident-total_example = upsert_incident-total "i2" "a" later [] table raced unique

resolve-upsert_example :
    (r' : Incident) × (find_incident "a" "f1" (upsert_incident "i2" "a" later closed closed).0
      ≡ some r')
    × (r'.status ≡ (if ltb 20 30 then opened else resolved))
    × (r'.resolved_at ≡ (if ltb 20 30 then none else some 20))
    × (r'.occurrence_count ≡ 1 + 1)
    × (r'.last_seen_at ≡ max 10 30)
unfolding find_incident set_incident_status new_row
resolve-upsert_example =
    resolve-upsert "a" "f1" 20 (some "ops") table "i2" later closed closed
      {r = new_row "i1" "a" crash} refl refl refl (record { kept = λ r h. (r, h, refl) })
