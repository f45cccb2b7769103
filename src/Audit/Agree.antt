-- ===== src/Audit/Agree.antt =====
-- The log file and the table hold the same entries.
use sentinai_project.Common.{
  ℕ, zero, suc, ◌-◌, ◌≡◌, refl, sym, ap, Option, Bool, true, false, List, [], ◌∷◌, ◌++◌, map,
  length, drop, update_where, Text, Bool-cases, inl, inr,
}
use sentinai_project.Audit.{
  iso, hash_of, AuditLog, AuditEntry, Writes, to_dict, last_rows, record_entry, tail, file_tail,
  db_tail, or_lines, append_entry, store_entry, new_row, archive_row, restore_row, to_archive,
  archived_in, archive, restore,
}

-- Each row is one line, in the same order.
pub record IsAgreed (log : AuditLog) : Type 0 where
  pub agreed : map to_dict log.rows ≡ log.lines

map-append {ℓ κ} :
    {A : Type ℓ} {B : Type κ} (f : A → B) (xs ys : List A) → map f (xs ++ ys) ≡ map f xs ++ map f ys
map-append f [] ys = refl
map-append f (x ∷ xs) ys = ap (λ zs. f x ∷ zs) (map-append f xs ys)

map-drop {ℓ κ} :
    {A : Type ℓ} {B : Type κ} (f : A → B) (n : ℕ) (xs : List A)
    → map f (drop n xs) ≡ drop n (map f xs)
map-drop f zero xs = refl
map-drop f (suc n) [] = refl
map-drop f (suc n) (x ∷ xs) = map-drop f n xs

length-map {ℓ κ} :
    {A : Type ℓ} {B : Type κ} (f : A → B) (xs : List A) → length (map f xs) ≡ length xs
length-map f [] = refl
length-map f (x ∷ xs) = ap suc (length-map f xs)

-- An update of columns that the entry does not have.
map-update_where {ℓ κ} :
    {A : Type ℓ} {B : Type κ} (f : A → B) (p : A → Bool) (g : A → A) (xs : List A)
    → ((x : A) → f (g x) ≡ f x)
    → map f (update_where p g xs) ≡ map f xs
map-update_where f p g [] h = refl
map-update_where f p g (x ∷ xs) h = elim (Bool-cases (p x)) [
  | inl e ↦ rw e (rw (h x) (ap (λ zs. f x ∷ zs) (map-update_where f p g xs h)))
  | inr e ↦ rw e (ap (λ zs. f x ∷ zs) (map-update_where f p g xs h))
]

-- If the rows and the lines are the same entries in the same order, and both writes succeed, they
-- still are after an entry is recorded.
pub record_entry-IsAgreed :
    (sha256 : Text → Text) (writes : Writes) (now : ℕ) (patch : Option Text) (values : AuditEntry)
    (log : AuditLog)
    → writes.file ≡ true
    → ((entry : AuditEntry) → writes.database entry ≡ true)
    → IsAgreed log
    → IsAgreed (record_entry sha256 writes now patch values log).0
unfolding record_entry append_entry store_entry new_row to_dict
record_entry-IsAgreed sha256 writes now patch values log file database a = record {
  agreed = rw (file, database _) (rw (map-append to_dict log.rows) (rw a.agreed refl));
}

pub archive-IsAgreed :
    (now : ℕ) (ids : List ℕ) (by : Text) (log : AuditLog)
    → IsAgreed log
    → IsAgreed (archive now ids by log).0 × IsAgreed (restore ids log).0
unfolding archive restore archive_row restore_row to_dict
archive-IsAgreed now ids by log a = (
  record {
    agreed =
        rw (map-update_where to_dict (to_archive ids) (archive_row now by) log.rows (λ row. refl))
          a.agreed;
  },
  record {
    agreed =
        rw (map-update_where to_dict (archived_in ids) restore_row log.rows (λ row. refl)) a.agreed;
  },
)

or_lines-same : (es : List AuditEntry) → or_lines es es ≡ es
unfolding or_lines
or_lines-same [] = refl
or_lines-same (e ∷ es) = refl

-- If the rows and the lines are the same entries in the same order, tail gives the last n lines,
-- whether it reads the table or the file.
pub tail-IsAgreed :
    (readable : Bool) (n : ℕ) (log : AuditLog)
    → IsAgreed log
    → tail readable n log ≡ file_tail n log
unfolding tail db_tail file_tail
tail-IsAgreed false n log a = refl
tail-IsAgreed true n log a =
    rw (map-drop to_dict (length log.rows - n) log.rows)
      (rw (sym (length-map to_dict log.rows)) (rw a.agreed (or_lines-same (last_rows n log.lines))))

-- If the database refuses every entry with the pull request of the values, the table is as it was.
pub record_entry_refused :
    (sha256 : Text → Text) (writes : Writes) (now : ℕ) (patch : Option Text) (values : AuditEntry)
    (log : AuditLog)
    → ((entry : AuditEntry) → entry.pr_url ≡ values.pr_url → writes.database entry ≡ false)
    → (record_entry sha256 writes now patch values log).0.rows ≡ log.rows
unfolding record_entry append_entry store_entry
record_entry_refused sha256 writes now patch values log h =
    let entry = record values { timestamp = iso now; patch_hash = hash_of sha256 patch } in
    let refused : writes.database entry ≡ false = h entry refl in
    elim (Bool-cases writes.file) [ inl e ↦ rw (refused, e) refl | inr e ↦ rw (refused, e) refl ]
