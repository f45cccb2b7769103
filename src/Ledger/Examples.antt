-- ===== src/Ledger/Examples.antt =====
-- A hosted repository with one file, and runs of the ledger over it.
use sentinai_project.Common.{
  ◌+◌, ◌≤◌, String, none, some, true, List, [], ◌∷◌, ◌≡◌, refl, arith, All, eq_iff, if◌then◌else◌,
  Bool-cases, inl, inr,
}
use sentinai_project.Github.{
  Repository, ChecksSha, get_current_file_sha, check_pr_merged, revert_patch,
}
use sentinai_project.Ledger.{
  RollbackEntry, rollback_proposed, rolled_back, get_ledger_entry, add_ledger_entry,
  propose_rollback, confirm_rollback, propose_row, confirm_row, is_text, compare_sha,
  confirm_reverted, save,
}
use sentinai_project.Ledger.Rows.{IsSound}
use sentinai_project.Ledger.Reverts.{
  Request, open_pr, propose, confirm, handle, handle_all, reverts, is_done, reverted_at_most_once,
}
use sentinai_project.Ledger.Sound.{handle_all-IsSound, confirm_rollback-reverts}

-- The state is the blob sha of the file; a blob's content is its own sha.
abbrev one_file : Repository String
one_file = record {
  default_branch = λ w. some "main";
  get_pull = λ n w. some (record { merged = true; merge_commit_sha = some "m1" });
  get_contents = λ path ref w. some w;
  get_git_blob = λ sha w. some sha;
  update_file =
      λ path content sha branch w. if is_text sha w then (some "c1", content) else (none, w);
}

one_file-ChecksSha : ChecksSha one_file
one_file-ChecksSha = record {
  checks = λ path content sha branch w h. ground (arith, eq_iff sha w);
  unchanged = λ path content sha branch w h. elim (Bool-cases (is_text sha w)) [
    | inl e ↦ cc (e, h)
    | inr e ↦ rw e
  ];
}

abbrev opened : List (Request String)
opened = open_pr "f1" 7 none (some "fix") "app.py" "s0" "e1" 0 ∷ propose "e1" "s1" ∷ []

abbrev twice : List (Request String)
twice =
    open_pr "f1" 7 none (some "fix") "app.py" "s0" "e1" 0
    ∷ propose "e1" "s1"
    ∷ confirm "e1" "s1"
    ∷ propose "e1" "s1"
    ∷ confirm "e1" "s1"
    ∷ []

-- The first confirmation reverts.
twice-reverts : reverts (some one_file) "a" "e1" twice [] ≡ 1
unfolding reverts handle propose_rollback confirm_rollback propose_row confirm_row compare_sha
    confirm_reverted save get_ledger_entry add_ledger_entry get_current_file_sha check_pr_merged
    revert_patch
twice-reverts = refl

reverted_at_most_once_example :
    reverts (some one_file) "a" "e1" twice [] + is_done (get_ledger_entry "a" "e1" []) ≤ 1
reverted_at_most_once_example = reverted_at_most_once (some one_file) "a" "e1" twice []

handle_all-IsSound_example : All IsSound (handle_all (some one_file) "a" opened [])
handle_all-IsSound_example = handle_all-IsSound (some one_file) "a" opened [] tt

abbrev ledger : List RollbackEntry
ledger = handle_all (some one_file) "a" opened []

confirm_rollback-reverts_example :
    (row : RollbackEntry) × (branch : String) × (get_ledger_entry "a" "e1" ledger ≡ some row)
    × (row.status ≡ rollback_proposed)
    × (one_file.default_branch "s1" ≡ some branch)
    × (one_file.get_contents row.patch_file branch "s1" ≡ row.after_sha)
    × (get_ledger_entry "a" "e1" (confirm_rollback (some one_file) (some "a") "e1" ledger "s1").1
        ≡ some (record row { status = rolled_back; revert_commit_sha = some "c1" }))
unfolding handle_all handle propose_rollback confirm_rollback propose_row confirm_row compare_sha
    confirm_reverted save get_ledger_entry add_ledger_entry get_current_file_sha check_pr_merged
    revert_patch
confirm_rollback-reverts_example =
    confirm_rollback-reverts one_file one_file-ChecksSha "a" "e1" ledger "s1"
      handle_all-IsSound_example refl
