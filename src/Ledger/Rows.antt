-- ===== src/Ledger/Rows.antt =====
-- What one proposal or one confirmation does to the row that it finds.
use sentinai_project.Common.{
  String, Option, none, some, true, false, ◌≡◌, refl, arith, is_some, ok, err, Bool-cases, inl, inr,
  eq_iff, ap, sym, ◌∙◌, ◌⊎◌,
}
use sentinai_project.Github.{
  Repository, ChecksSha, get_current_file_sha, check_pr_merged, revert_patch,
}
use sentinai_project.Github.Laws.{revert_patch-some, revert_patch-none}
use sentinai_project.Ledger.{
  RollbackEntry, LedgerStatus, LedgerError, rollback_proposed, rolled_back, propose_row,
  confirm_row, record_merge, compare_sha, is_text, propose_merged, merge_commit_of, is_rolled_back,
  already_rolled_back, is_rollback_proposed, confirm_reverted, wrong_status,
}

-- A proposed rollback has read the file in the state that the patch left.
pub record IsSound (row : RollbackEntry) : Type 0 where
  pub unchanged : row.status ≡ rollback_proposed → row.rollback_current_sha ≡ row.after_sha
  pub readable : row.status ≡ rollback_proposed → is_some row.after_sha ≡ true
  pub reverted : row.status ≡ rolled_back → is_some row.revert_commit_sha ≡ true

abbrev pub OnSome {ℓ κ} : {A : Type ℓ} → (A → Type κ) → Option A → Type κ
OnSome P none = Unit
OnSome P (some a) = P a

is_text-eq : (o : Option String) (s : String) → is_text o s ≡ true → o ≡ some s
is_text-eq none s h = cc
is_text-eq (some t) s h = ap some ((eq_iff t s).0 h)

compare_sha-IsSound :
    (before : Option RollbackEntry) (row : RollbackEntry) (current : Option String)
    → OnSome IsSound before
    → OnSome IsSound (compare_sha before row current).1
unfolding compare_sha
compare_sha-IsSound before row none h = h
compare_sha-IsSound before row (some c) h = elim (Bool-cases (is_text row.after_sha c)) [
  | inl e ↦ rw e (record {
    unchanged = λ _. sym (is_text-eq row.after_sha c e);
    readable = λ _. rw (is_text-eq row.after_sha c e);
    reverted = λ k. cc;
  })
  | inr e ↦ rw e (record { unchanged = λ k. cc; readable = λ k. cc; reverted = λ k. cc })
]

Status-cases : (s : LedgerStatus) → (s ≡ rollback_proposed) ⊎ (is_rollback_proposed s ≡ false)
Status-cases rollback_proposed = inl refl
Status-cases _ = inr refl

module _ {W : Type 0} where
  propose_merged-IsSound :
      (repo : Repository W) (w : W) (row merged : RollbackEntry)
      → OnSome IsSound (merge_commit_of row merged)
      → OnSome IsSound (propose_merged repo w row (ok merged)).1
  unfolding propose_merged
  propose_merged-IsSound repo w row merged h =
      compare_sha-IsSound (merge_commit_of row merged) merged
        (get_current_file_sha repo merged.patch_file none w) h

  record_merge-IsSound :
      (repo : Repository W) (w : W) (row : RollbackEntry) (m : Option String)
      (info : Option (Option String))
      → row.merge_commit_sha ≡ m
      → OnSome IsSound (propose_merged repo w row (record_merge repo w row m info)).1
  unfolding record_merge
  record_merge-IsSound repo w row (some c) info e = propose_merged-IsSound repo w row row (rw e tt)
  record_merge-IsSound repo w row none none e = unfold propose_merged in tt
  record_merge-IsSound repo w row none (some c) e =
      propose_merged-IsSound repo w row _
        (rw e (record { unchanged = λ k. cc; readable = λ k. cc; reverted = λ k. cc }))

  pub propose_row-IsSound :
      (github : Option (Repository W)) (w : W) (row : RollbackEntry)
      → OnSome IsSound (propose_row github w row).1
  unfolding propose_row
  propose_row-IsSound none w row = ground arith
  propose_row-IsSound (some repo) w row = elim (Bool-cases (is_rolled_back row.status)) [
    | inl e ↦ rw e tt
    | inr e ↦ rw e (
        record_merge-IsSound repo w row row.merge_commit_sha (check_pr_merged repo row.pr_number w)
          refl)
  ]

  pub confirm_row-IsSound :
      (github : Option (Repository W)) (row : RollbackEntry) (w : W)
      → OnSome IsSound (confirm_row github row w).1
  unfolding confirm_row
  confirm_row-IsSound none row w = ground arith
  confirm_row-IsSound (some repo) row w = ground arith

  confirmed-file-at :
      (repo : Repository W) (row : RollbackEntry) (w : W) (current : Option String)
      {commit : String}
      → ChecksSha repo
      → is_some current ≡ true
      → (revert_patch repo row.patch_file row.before_sha current w).0 ≡ some commit
      → (branch : String) × (repo.default_branch w ≡ some branch)
        × (repo.get_contents row.patch_file branch w ≡ current)
  confirmed-file-at repo row w none c s h = cc
  confirmed-file-at repo row w (some sha) c s h =
      revert_patch-some repo c row.patch_file row.before_sha sha w h

  confirm_reverted-ok :
      (row : RollbackEntry) (r : Option String × W) {sha : String}
      → (confirm_reverted row r).0 ≡ ok sha
      → r.0 ≡ some sha
  unfolding confirm_reverted
  confirm_reverted-ok row (none, w) h = cc
  confirm_reverted-ok row (some s, w) h = ground arith

  confirm_reverted-err :
      (row : RollbackEntry) (r : Option String × W) {e : LedgerError}
      → (confirm_reverted row r).0 ≡ err e
      → (r.0 ≡ none) × ((confirm_reverted row r).1 ≡ none) × ((confirm_reverted row r).2 ≡ r.1)
  unfolding confirm_reverted
  confirm_reverted-err row (none, w) h = (refl, refl, refl)
  confirm_reverted-err row (some s, w) h = cc

  -- A confirmation that returns found the file, on the default branch, as the patch left it.
  pub confirm_row-file :
      (repo : Repository W) (row : RollbackEntry) (w : W) {sha : String}
      → ChecksSha repo
      → IsSound row
      → (confirm_row (some repo) row w).0 ≡ ok sha
      → (branch : String) × (repo.default_branch w ≡ some branch)
        × (repo.get_contents row.patch_file branch w ≡ row.after_sha)
  unfolding confirm_row
  confirm_row-file repo row w c s h = elim (Status-cases row.status) [
    | inl e ↦ rw (← s.unchanged e) (
        confirmed-file-at repo row w row.rollback_current_sha c (rw (s.unchanged e) (s.readable e))
          (confirm_reverted-ok row _ (rw e at h)))
    | inr n ↦ ground (arith, n)
  ]

  -- A confirmation that raises has changed neither the row nor the repository.
  pub confirm_row_error :
      (repo : Repository W) (row : RollbackEntry) (w : W) {e : LedgerError}
      → ChecksSha repo
      → (confirm_row (some repo) row w).0 ≡ err e
      → ((confirm_row (some repo) row w).1 ≡ none) × ((confirm_row (some repo) row w).2 ≡ w)
  unfolding confirm_row
  confirm_row_error repo row w c h = elim (Bool-cases (is_rollback_proposed row.status)) [
    | inl b ↦
        let r = revert_patch repo row.patch_file row.before_sha row.rollback_current_sha w in
        let f = confirm_reverted-err row r (rw b at h) in
        rw b (
          f.1,
          f.2
              ∙ revert_patch-none repo c row.patch_file row.before_sha row.rollback_current_sha w
                  f.0,
        )
    | inr b ↦ rw b (refl, refl)
  ]

  -- A row that is rolled back is neither proposed nor confirmed again.
  pub propose_row-rolled_back :
      (github : Option (Repository W)) (w : W) (row : RollbackEntry)
      → row.status ≡ rolled_back
      → propose_row github w row ≡ (err already_rolled_back, none)
  unfolding propose_row
  propose_row-rolled_back none w row h = ground arith
  propose_row-rolled_back (some repo) w row h = rw h

  pub confirm_row-rolled_back :
      (github : Option (Repository W)) (row : RollbackEntry) (w : W)
      → row.status ≡ rolled_back
      → confirm_row github row w ≡ (err wrong_status, none, w)
  unfolding confirm_row
  confirm_row-rolled_back none row w h = rw h
  confirm_row-rolled_back (some repo) row w h = rw h

  -- A confirmation that returns leaves the row rolled back.
  pub confirm_row_status :
      (github : Option (Repository W)) (row : RollbackEntry) (w : W) {sha : String}
      → (confirm_row github row w).0 ≡ ok sha
      → (row.status ≡ rollback_proposed)
        × ((confirm_row github row w).1
            ≡ some (record row { status = rolled_back; revert_commit_sha = some sha }))
  unfolding confirm_row
  confirm_row_status none row w h = ground arith
  confirm_row_status (some repo) row w h = ground arith

-- Neither operation changes which row it is.
abbrev pub SameRow : RollbackEntry → RollbackEntry → Type 0
SameRow row row' = (row'.id ≡ row.id) × (row'.account_id ≡ row.account_id)

compare_sha-SameRow :
    (before : Option RollbackEntry) (row merged : RollbackEntry) (current : Option String)
    → OnSome (SameRow row) before
    → SameRow row merged
    → OnSome (SameRow row) (compare_sha before merged current).1
unfolding compare_sha
compare_sha-SameRow before row merged none h k = h
compare_sha-SameRow before row merged (some c) h k =
    elim (Bool-cases (is_text merged.after_sha c)) [ inl e ↦ rw e k | inr e ↦ rw e k ]

module _ {W : Type 0} where
  record_merge-SameRow :
      (repo : Repository W) (w : W) (row : RollbackEntry) (m : Option String)
      (info : Option (Option String))
      → row.merge_commit_sha ≡ m
      → OnSome (SameRow row) (propose_merged repo w row (record_merge repo w row m info)).1
  unfolding record_merge propose_merged
  record_merge-SameRow repo w row (some c) info e =
      compare_sha-SameRow _ row row _ (rw e tt) (refl, refl)
  record_merge-SameRow repo w row none none e = tt
  record_merge-SameRow repo w row none (some c) e =
      compare_sha-SameRow _ row _ _ (rw e (refl, refl)) (refl, refl)

  pub propose_row-SameRow :
      (github : Option (Repository W)) (w : W) (row : RollbackEntry)
      → OnSome (SameRow row) (propose_row github w row).1
  unfolding propose_row
  propose_row-SameRow none w row = ground arith
  propose_row-SameRow (some repo) w row = elim (Bool-cases (is_rolled_back row.status)) [
    | inl e ↦ rw e tt
    | inr e ↦ rw e (
        record_merge-SameRow repo w row row.merge_commit_sha (check_pr_merged repo row.pr_number w)
          refl)
  ]

  pub confirm_row-SameRow :
      (github : Option (Repository W)) (row : RollbackEntry) (w : W)
      → OnSome (SameRow row) (confirm_row github row w).1
  unfolding confirm_row confirm_reverted
  confirm_row-SameRow none row w = ground arith
  confirm_row-SameRow (some repo) row w = ground arith
