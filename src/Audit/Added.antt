-- ===== src/Audit/Added.antt =====
-- What recording an entry adds to the log file and to the table.
use sentinai_project.Common.{
  ℕ, ◌≡◌, refl, Option, none, some, true, false, [], ◌∷◌, ◌++◌, Text, Bool-cases, inl, inr, ℕ,
}
use sentinai_project.Audit.{
  iso, hash_of, AuditLog, AuditEntry, AuditRow, Writes, record_entry, append_entry, store_entry,
  new_row,
}

-- The entry is one line more and one live row more, where the writes succeed, and all else is kept.
pub record IsAdded (writes : Writes) (log log' : AuditLog) (entry : AuditEntry) : Type 0 where
  pub line : writes.file ≡ true → log'.lines ≡ log.lines ++ entry ∷ []
  pub no_line : writes.file ≡ false → log'.lines ≡ log.lines
  pub row :
      writes.database entry ≡ true
      → (r : AuditRow) × (log'.rows ≡ log.rows ++ r ∷ [])
        × (r.columns ≡ entry)
        × (r.id ≡ log.next_id)
        × (r.archived_at ≡ none)
  pub no_row : writes.database entry ≡ false → log'.rows ≡ log.rows

module _ (sha256 : Text → Text) (writes : Writes) (now : ℕ) (patch : Option Text)
    (values : AuditEntry) (log : AuditLog) where
  pub record_entry-IsAdded :
      let (log', entry) = record_entry sha256 writes now patch values log in
      IsAdded writes log log' entry
  unfolding record_entry append_entry store_entry new_row
  record_entry-IsAdded =
      let entry : AuditEntry = record values {
        timestamp = iso now;
        patch_hash = hash_of sha256 patch;
      } in
      record {
        line = λ f. elim (Bool-cases (writes.database entry)) [
          | inl d ↦ rw (d, f) refl
          | inr d ↦ rw (d, f) refl
        ];
        no_line = λ f. elim (Bool-cases (writes.database entry)) [
          | inl d ↦ rw (d, f) refl
          | inr d ↦ rw (d, f) refl
        ];
        row = λ d. elim (Bool-cases writes.file) [
          | inl f ↦ rw (d, f) (new_row log.next_id now entry, refl, refl, refl, refl)
          | inr f ↦ rw (d, f) (new_row log.next_id now entry, refl, refl, refl, refl)
        ];
        no_row =
            λ d. elim (Bool-cases writes.file) [ inl f ↦ rw (d, f) refl | inr f ↦ rw (d, f) refl ];
      }

  -- The entry has the values, but for the time and the hash.
  pub record_entry-entry :
      (record_entry sha256 writes now patch values log).1
      ≡ record values { timestamp = iso now; patch_hash = hash_of sha256 patch }
  unfolding record_entry
  record_entry-entry = refl

  -- The hash is that of the patch, if it is not empty.
  pub record_entry-hash :
      {c : ℕ} {t : Text}
      → patch ≡ some (c ∷ t)
      → (record_entry sha256 writes now patch values log).1.patch_hash ≡ some (sha256 (c ∷ t))
  unfolding record_entry hash_of
  record_entry-hash {c} {t} h = rw h refl
