-- ===== src/Audit/Archive.antt =====
-- What archiving does to the feed and to the table.
use sentinai_project.Common.{
  ℕ, ◌+◌, ◌≡◌, refl, arith, ap, ◌∙◌, is_none, none, true, not, List, [], ◌∷◌, length,
  length-update_where, filter_rows, count_where, update_where, Text, Bool-cases, inl, inr, All,
}
use sentinai_project.Audit.{
  AuditRow, AuditLog, is_live, is_in, to_archive, archived_in, archive_row, restore_row, archive,
  restore, delete_archived,
}

-- A row that is live has no archiver either.
abbrev pub IsTidy : AuditRow → Type 0
IsTidy row = row.archived_at ≡ none → row.archived_by ≡ none

-- None of the ids is archived already.
abbrev pub IsFresh : List ℕ → AuditRow → Type 0
IsFresh ids row = is_in ids row ≡ true → row.archived_at ≡ none

delete_rows-live :
    (ids : List ℕ) (rows : List AuditRow)
    → filter_rows is_live (filter_rows (λ row. not (archived_in ids row)) rows)
      ≡ filter_rows is_live rows
delete_rows-live ids [] = refl
delete_rows-live ids (row ∷ rows) = elim (Bool-cases (is_in ids row)) [
  | inr e ↦ rw e (ground (arith, delete_rows-live ids rows))
  | inl e ↦ rw e (ground (arith, delete_rows-live ids rows))
]

delete_rows-length :
    (ids : List ℕ) (rows : List AuditRow)
    → length (filter_rows (λ row. not (archived_in ids row)) rows)
        + count_where (archived_in ids) rows
      ≡ length rows
delete_rows-length ids [] = refl
delete_rows-length ids (row ∷ rows) = elim (Bool-cases (archived_in ids row)) [
  | inl e ↦ rw e (omega (arith, delete_rows-length ids rows))
  | inr e ↦ rw e (omega (arith, delete_rows-length ids rows))
]

restore_archive_row :
    (now : ℕ) (by : Text) (row : AuditRow)
    → row.archived_at ≡ none
    → row.archived_by ≡ none
    → restore_row (archive_row now by row) ≡ row
unfolding restore_row archive_row
restore_archive_row now by row h k = ground (arith, h, k)

cons-eq {ℓ} : {A : Type ℓ} {x y : A} {xs ys : List A} → x ≡ y → xs ≡ ys → (x ∷ xs) ≡ (y ∷ ys)
cons-eq {A} {x} {y} {xs} {ys} h k = ap (λ z. z ∷ xs) h ∙ ap (λ zs. y ∷ zs) k

restore_archive_rows :
    (now : ℕ) (by : Text) (ids : List ℕ) (rows : List AuditRow)
    → All IsTidy rows
    → All (IsFresh ids) rows
    → (update_where
          (archived_in ids)
          restore_row
          (update_where (to_archive ids) (archive_row now by) rows)
        ≡ rows)
      × (count_where (archived_in ids) (update_where (to_archive ids) (archive_row now by) rows)
          ≡ count_where (to_archive ids) rows)
unfolding restore_row archive_row
restore_archive_rows now by ids [] t f = (refl, refl)
restore_archive_rows now by ids (row ∷ rows) t f =
    let (same, counts) = restore_archive_rows now by ids rows t.1 f.1 in
    elim (Bool-cases (is_in ids row)) [
      | inr e ↦ (rw (e, e) (rw same refl), rw (e, e) (omega (arith, counts)))
      | inl e ↦
          let live = f.0 e in
          let back = restore_archive_row now by row live (t.0 live) in
          let free : is_live row ≡ true = ap is_none live in
          (rw (e, free, e) (cons-eq back same), rw (e, free, e) (omega (arith, counts)))
    ]

-- Archived ids that were live leave the feed, and the rest of it stays.
archive_rows-live :
    (now : ℕ) (by : Text) (ids : List ℕ) (rows : List AuditRow)
    → filter_rows is_live (update_where (to_archive ids) (archive_row now by) rows)
      ≡ filter_rows (λ row. not (is_in ids row)) (filter_rows is_live rows)
unfolding archive_row
archive_rows-live now by ids [] = refl
archive_rows-live now by ids (row ∷ rows) =
    let rest = archive_rows-live now by ids rows in
    elim (Bool-cases (is_in ids row)) [
      | inr e ↦ elim (Bool-cases (is_live row)) [
        | inl l ↦ rw (e, l, e) (rw rest refl)
        | inr l ↦ rw (e, l) rest
      ]
      | inl e ↦ elim (Bool-cases (is_live row)) [
        | inl l ↦ rw (e, l, e) rest
        | inr l ↦ rw (e, l, l) rest
      ]
    ]

-- A deletion of archived events leaves every live row in place and in order, whatever ids it is
-- given, and reports the number of rows that are gone.
pub delete_archived-keeps :
    (ids : List ℕ) (log : AuditLog)
    → (filter_rows is_live (delete_archived ids log).0.rows ≡ filter_rows is_live log.rows)
      × (length (delete_archived ids log).0.rows + (delete_archived ids log).1 ≡ length log.rows)
unfolding delete_archived
delete_archived-keeps ids log = (delete_rows-live ids log.rows, delete_rows-length ids log.rows)

-- Archiving takes exactly the given ids out of the live rows, and the table keeps its length.
pub archive-feed :
    (now : ℕ) (ids : List ℕ) (by : Text) (log : AuditLog)
    → (filter_rows is_live (archive now ids by log).0.rows
        ≡ filter_rows (λ row. not (is_in ids row)) (filter_rows is_live log.rows))
      × (length (archive now ids by log).0.rows ≡ length log.rows)
unfolding archive
archive-feed now ids by log = (
  archive_rows-live now by ids log.rows,
  length-update_where (to_archive ids) (archive_row now by) log.rows,
)

-- If every row that is not archived has no archiver, and none of the rows with the ids is
-- archived, then restoring the ids after archiving them gives the log back, and both report the
-- same number of rows.
pub restore-archive :
    (now : ℕ) (ids : List ℕ) (by : Text) (log : AuditLog)
    → All IsTidy log.rows
    → All (IsFresh ids) log.rows
    → ((restore ids (archive now ids by log).0).0 ≡ log)
      × ((restore ids (archive now ids by log).0).1 ≡ (archive now ids by log).1)
unfolding archive restore
restore-archive now ids by log tidy fresh =
    let (same, counts) = restore_archive_rows now by ids log.rows tidy fresh in
    (ap (λ rows. record log { rows = rows }) same, counts)
