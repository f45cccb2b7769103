-- ===== src/Ledger/Sound.antt =====
-- The ledger as a whole: its invariant, and what a confirmed rollback and a refused one do.
use sentinai_project.Common.{
  String, Option, some, List, [], ◌∷◌, ◌≡◌, refl, All, ok, err, Option-cases, inl, inr, All-append,
  find_row-All,
}
use sentinai_project.Github.{Repository, ChecksSha}
use sentinai_project.Ledger.{
  RollbackEntry, LedgerError, rollback_proposed, rolled_back, get_ledger_entry, add_ledger_entry,
  confirm_rollback, confirm_row, save, is_entry,
}
use sentinai_project.Ledger.Rows.{
  IsSound, propose_row-IsSound, confirm_row-IsSound, confirm_row-file, confirm_row_error,
  confirm_row_status,
}
use sentinai_project.Ledger.Table.{
  All-save, get-save_self, propose_rollback-none, propose_rollback-some, confirm_rollback-none,
  confirm_rollback-some,
}
use sentinai_project.Ledger.Reverts.{Request, open_pr, propose, confirm, handle, handle_all}

module _ {W : Type 0} (github : Option (Repository W)) (account : String) where
  handle-IsSound :
      (r : Request W) (l : List RollbackEntry)
      → All IsSound l
      → All IsSound (handle github account r l)
  unfolding handle add_ledger_entry
  handle-IsSound (open_pr f n u b p s k now) l h =
      All-append IsSound l _ h
        (record { unchanged = λ e. cc; readable = λ e. cc; reverted = λ e. cc }, tt)
  handle-IsSound (propose id w) l h = elim (Option-cases (get_ledger_entry account id l)) [
    | inl e ↦ rw (propose_rollback-none github account id w l e, handle) h
    | inr (row, e) ↦
        rw (propose_rollback-some github account id w l e, handle)
          (All-save account IsSound id l _ (propose_row-IsSound github w row) h)
  ]
  handle-IsSound (confirm id w) l h = elim (Option-cases (get_ledger_entry account id l)) [
    | inl e ↦ rw (confirm_rollback-none github account id w l e, handle) h
    | inr (row, e) ↦
        rw (confirm_rollback-some github account id w l e, handle)
          (All-save account IsSound id l _ (confirm_row-IsSound github row w) h)
  ]

  -- Requests keep a ledger sound: in it an entry whose rollback is proposed has a sha recorded for
  -- the merged file, and one that is rolled back has a revert commit.
  pub handle_all-IsSound :
      (rs : List (Request W)) (l : List RollbackEntry)
      → All IsSound l
      → All IsSound (handle_all github account rs l)
  unfolding handle_all
  handle_all-IsSound [] l h = h
  handle_all-IsSound (r ∷ rs) l h =
      handle_all-IsSound rs (handle github account r l) (handle-IsSound r l h)

module _ {W : Type 0} (repo : Repository W) (c : ChecksSha repo) (account id : String) where
  -- If the hosted repository checks the sha of an update and the ledger is sound, a confirmation
  -- that returns found the entry with its rollback proposed, and the file on the default branch
  -- with the sha that the patch had left, and leaves the entry rolled back with the revert commit.
  pub confirm_rollback-reverts :
      (l : List RollbackEntry) (w : W) {sha : String}
      → All IsSound l
      → (confirm_rollback (some repo) (some account) id l w).0 ≡ ok sha
      → (row : RollbackEntry) × (branch : String) × (get_ledger_entry account id l ≡ some row)
        × (row.status ≡ rollback_proposed)
        × (repo.default_branch w ≡ some branch)
        × (repo.get_contents row.patch_file branch w ≡ row.after_sha)
        × (get_ledger_entry account id (confirm_rollback (some repo) (some account) id l w).1
            ≡ some (record row { status = rolled_back; revert_commit_sha = some sha }))
  unfolding get_ledger_entry
  confirm_rollback-reverts l w {sha} s h = elim (Option-cases (get_ledger_entry account id l)) [
    | inl e ↦ cc (h, confirm_rollback-none (some repo) account id w l e)
    | inr (row, e) ↦ found row e
  ]
    where
      found-IsSound : (row : RollbackEntry) → get_ledger_entry account id l ≡ some row → IsSound row
      found-IsSound row e = find_row-All (is_entry account id) IsSound l s e

      found :
          (row : RollbackEntry)
          → get_ledger_entry account id l ≡ some row
          → (row : RollbackEntry) × (branch : String) × (get_ledger_entry account id l ≡ some row)
            × (row.status ≡ rollback_proposed)
            × (repo.default_branch w ≡ some branch)
            × (repo.get_contents row.patch_file branch w ≡ row.after_sha)
            × (get_ledger_entry account id (confirm_rollback (some repo) (some account) id l w).1
                ≡ some (record row { status = rolled_back; revert_commit_sha = some sha }))
      found row e =
          let step = confirm_rollback-some (some repo) account id w l e in
          let returned : (confirm_row (some repo) row w).0 ≡ ok sha = cc (h, step) in
          let (branch, on, file) = confirm_row-file repo row w c (found-IsSound row e) returned in
          let (before, after) = confirm_row_status (some repo) row w returned in
          (
            row,
            branch,
            e,
            before,
            on,
            file,
            rw step (
                rw after (
                  get-save_self account id l row
                    (record row { status = rolled_back; revert_commit_sha = some sha }) e
                    (refl, refl))),
          )

  -- If the hosted repository checks the sha of an update, a confirmation that raises leaves the
  -- ledger and the hosted repository as they were.
  pub confirm_rollback_error :
      (l : List RollbackEntry) (w : W) {x : LedgerError}
      → (confirm_rollback (some repo) (some account) id l w).0 ≡ err x
      → ((confirm_rollback (some repo) (some account) id l w).1 ≡ l)
        × ((confirm_rollback (some repo) (some account) id l w).2 ≡ w)
  confirm_rollback_error l w {x} h = elim (Option-cases (get_ledger_entry account id l)) [
    | inl e ↦ rw (confirm_rollback-none (some repo) account id w l e) (refl, refl)
    | inr (row, e) ↦
        let step = confirm_rollback-some (some repo) account id w l e in
        let raised : (confirm_row (some repo) row w).0 ≡ err x = cc (h, step) in
        let (nothing, same) = confirm_row_error repo row w c raised in
        rw step (rw nothing (unfold save in (refl, same)))
  ]
