-- ===== src/Audit.antt =====
-- AuditLogger of src/core/audit.py and the table audit_events.
-- A JSON line is the entry that it holds. The table is in the order of its ids, which the database
-- counts up. Times are microseconds, and `_iso` keeps the milliseconds. Confidences are counted in
-- ten-thousandths, which `round(confidence, 4)` keeps. SHA-256 is the argument `sha256`.
pub mod Archive
pub mod Agree
pub mod Added
mod Examples
use sentinai_project.Common.{
  ℕ, ◌+◌, ◌-◌, ◌/◌, String, Option, none, some, Bool, true, false, List, [], ◌∷◌, ◌++◌, ◌&&◌, not,
  ◌==◌, if◌then◌else◌, length, drop, filter_rows, count_where, update_where, any_of, is_some,
  is_none, map, str_eq, Text,
}
use sentinai_project.Metrics.{SuggestionSource}
use sentinai_project.Policy.{Decision, RiskTier}
use sentinai_project.Remediation.{Failure, PrLink, truthy}

pub record AuditEntry : Type 0 where
  pub timestamp : ℕ
  pub incident_id : String
  pub model : Option Text
  pub provider : SuggestionSource
  pub patch_file : Option Text
  pub patch_hash : Option Text
  pub policy_decision : Option Decision
  pub risk_tier : Option RiskTier
  pub review_required : Bool
  pub patch_applied : Bool
  pub tests_passed : Option Bool
  pub pr_url : Option PrLink
  pub failure_reason : Option Failure
  pub confidence : ℕ
  pub source : SuggestionSource

-- AuditEvent: the columns of the entry but its timestamp, which the row has in full.
pub record AuditRow : Type 0 where
  pub id : ℕ
  pub timestamp : ℕ
  pub columns : AuditEntry
  pub archived_at : Option ℕ
  pub archived_by : Option Text

-- The log file, and the table with its next id.
pub record AuditLog : Type 0 where
  pub lines : List AuditEntry
  pub rows : List AuditRow
  pub next_id : ℕ

-- Which of the writes succeed.
pub record Writes : Type 0 where
  pub file : Bool
  pub database : AuditEntry → Bool

pub iso : ℕ → ℕ
iso time = time / 1000

pub to_dict : AuditRow → AuditEntry
to_dict row = record row.columns { timestamp = iso row.timestamp }

abbrev pub last_rows {ℓ} : {A : Type ℓ} → ℕ → List A → List A
last_rows n xs = drop (length xs - n) xs

-- `_sha256(patch) if patch else None`
pub hash_of : (Text → Text) → Option Text → Option Text
hash_of sha256 (some (c ∷ patch)) = some (sha256 (c ∷ patch))
hash_of sha256 _ = none

append_entry : Bool → AuditEntry → AuditLog → AuditLog
append_entry written entry log =
    if written then record log { lines = log.lines ++ entry ∷ [] } else log

new_row : ℕ → ℕ → AuditEntry → AuditRow
new_row id when entry = record {
  id = id;
  timestamp = when;
  columns = entry;
  archived_at = none;
  archived_by = none;
}

store_entry : Bool → ℕ → AuditEntry → AuditLog → AuditLog
unfolding new_row
store_entry written when entry log =
    if written
    then record log {
      rows = log.rows ++ new_row log.next_id when entry ∷ [];
      next_id = log.next_id + 1;
    }
    else log

-- record: `entry` has the caller's values; the time and the patch's hash are put in.
pub record_entry :
    (Text → Text) → Writes → ℕ → Option Text → AuditEntry → AuditLog → AuditLog × AuditEntry
unfolding append_entry store_entry hash_of
record_entry sha256 writes now patch values log =
    let entry = record values { timestamp = iso now; patch_hash = hash_of sha256 patch } in
    (store_entry (writes.database entry) now entry (append_entry writes.file entry log), entry)

-- tail: the last n rows, or the last n lines if there is no row or no database that can be read.
or_lines : List AuditEntry → List AuditEntry → List AuditEntry
or_lines [] lines = lines
or_lines (e ∷ es) lines = e ∷ es

pub db_tail : Bool → ℕ → AuditLog → List AuditEntry
db_tail readable n log = if readable then map to_dict (last_rows n log.rows) else []

pub file_tail : ℕ → AuditLog → List AuditEntry
file_tail n log = last_rows n log.lines

pub tail : Bool → ℕ → AuditLog → List AuditEntry
unfolding or_lines
tail readable n log = or_lines (db_tail readable n log) (file_tail n log)

abbrev is_of : String → AuditEntry → Bool
is_of incident_id entry = str_eq entry.incident_id incident_id

-- find: the rows of an incident, or its lines among the last 10,000.
pub find : Bool → String → AuditLog → List AuditEntry
unfolding or_lines
find readable incident_id log =
    or_lines
      (if readable
        then map to_dict (filter_rows (λ row. is_of incident_id row.columns) log.rows)
        else [])
      (filter_rows (is_of incident_id) (file_tail 10_000 log))

abbrev pub is_live : AuditRow → Bool
is_live row = is_none row.archived_at

abbrev pub is_archived : AuditRow → Bool
is_archived row = is_some row.archived_at

-- The rows of the feed of tail_rows, read from the database.
pub tail_rows : ℕ → Bool → AuditLog → List AuditRow
tail_rows n archived log =
    last_rows n (filter_rows (if archived then is_archived else is_live) log.rows)

abbrev pub is_in : List ℕ → AuditRow → Bool
is_in ids row = any_of (λ id. id == row.id) ids

-- The conditions of the three statements.
abbrev pub to_archive : List ℕ → AuditRow → Bool
to_archive ids row = is_in ids row && is_live row

abbrev pub archived_in : List ℕ → AuditRow → Bool
archived_in ids row = is_in ids row && is_archived row

pub archive_row : ℕ → Text → AuditRow → AuditRow
archive_row now by row = record row { archived_at = some now; archived_by = some by }

pub restore_row : AuditRow → AuditRow
restore_row row = record row { archived_at = none; archived_by = none }

-- Each returns the number of rows that its statement changes.
pub archive : ℕ → List ℕ → Text → AuditLog → AuditLog × ℕ
archive now ids by log = (
  record log { rows = update_where (to_archive ids) (archive_row now by) log.rows },
  count_where (to_archive ids) log.rows,
)

pub restore : List ℕ → AuditLog → AuditLog × ℕ
restore ids log = (
  record log { rows = update_where (archived_in ids) restore_row log.rows },
  count_where (archived_in ids) log.rows,
)

pub delete_archived : List ℕ → AuditLog → AuditLog × ℕ
delete_archived ids log = (
  record log { rows = filter_rows (λ row. not (archived_in ids row)) log.rows },
  count_where (archived_in ids) log.rows,
)
