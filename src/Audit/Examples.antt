-- ===== src/Audit/Examples.antt =====
-- A log of two entries.
use sentinai_project.Common.{
  ℕ, ◌+◌, length, filter_rows, ◌≡◌, refl, Option, none, some, true, false, [], ◌∷◌, Text, codes,
}
use sentinai_project.Metrics.{stub}
use sentinai_project.Audit.{
  AuditEntry, AuditRow, AuditLog, Writes, to_dict, iso, archive, restore, tail, file_tail, is_live,
  delete_archived,
}
use sentinai_project.Audit.Archive.{restore-archive, delete_archived-keeps}
use sentinai_project.Audit.Agree.{IsAgreed, tail-IsAgreed}

abbrev values : AuditEntry
values = record {
  timestamp = 0;
  incident_id = "i1";
  model = none;
  provider = stub;
  patch_file = none;
  patch_hash = none;
  policy_decision = none;
  risk_tier = none;
  review_required = false;
  patch_applied = false;
  tests_passed = none;
  pr_url = none;
  failure_reason = none;
  confidence = 0;
  source = stub;
}

abbrev row_of : ℕ → Option ℕ → Option Text → AuditRow
row_of id at by = record {
  id = id;
  timestamp = 0;
  columns = values;
  archived_at = at;
  archived_by = by;
}

abbrev two_rows : AuditLog
two_rows = record {
  lines = values ∷ values ∷ [];
  rows = row_of 1 none none ∷ row_of 2 none none ∷ [];
  next_id = 3;
}

abbrev one_archived : AuditLog
one_archived = record {
  lines = values ∷ values ∷ [];
  rows = row_of 1 none none ∷ row_of 2 (some 7) (some (codes "admin")) ∷ [];
  next_id = 3;
}

restore-archive_example :
    ((restore (2 ∷ []) (archive 5 (2 ∷ []) (codes "admin") two_rows).0).0 ≡ two_rows)
    × ((restore (2 ∷ []) (archive 5 (2 ∷ []) (codes "admin") two_rows).0).1
        ≡ (archive 5 (2 ∷ []) (codes "admin") two_rows).1)
restore-archive_example =
    restore-archive 5 (2 ∷ []) (codes "admin") two_rows (λ _. refl, (λ _. refl, tt))
      (λ _. refl, (λ _. refl, tt))

abbrev all_written : Writes
all_written = record { file = true; database = λ _. true }

two_rows-IsAgreed : IsAgreed two_rows
unfolding to_dict iso
two_rows-IsAgreed = record { agreed = refl }

tail-IsAgreed_example : tail true 1 two_rows ≡ file_tail 1 two_rows
tail-IsAgreed_example = tail-IsAgreed true 1 two_rows two_rows-IsAgreed

delete_archived-keeps_example :
    (filter_rows is_live (delete_archived (1 ∷ 2 ∷ []) one_archived).0.rows
      ≡ row_of 1 none none ∷ [])
    × (length (delete_archived (1 ∷ 2 ∷ []) one_archived).0.rows
          + (delete_archived (1 ∷ 2 ∷ []) one_archived).1
        ≡ 2)
delete_archived-keeps_example = delete_archived-keeps (1 ∷ 2 ∷ []) one_archived
