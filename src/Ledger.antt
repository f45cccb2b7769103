-- ===== src/Ledger.antt =====
-- The rollback ledger: RollbackEntry of src/db/models.py, its queries in src/db/repository.py, and
-- propose_rollback and confirm_rollback of AppState in src/core/state.py.
-- `account` is what `_resolve_account_id` found, `github` the client, if one is configured. Only
-- committed changes of a row are in the result: what a raised error discards is not written.
use sentinai_project.Common.{
  ℕ, String, Option, none, some, Bool, true, false, List, [], ◌∷◌, ◌++◌, ◌&&◌, str_eq,
  if◌then◌else◌, find_row, update_where, is_none, Result, ok, err,
}
pub mod Rows
mod Table
pub mod Reverts
pub mod Sound
mod Examples
use sentinai_project.Github.{Repository, check_pr_merged, get_current_file_sha, revert_patch}

pub data LedgerStatus : Type 0 where
  proposed applied rollback_blocked rollback_proposed rolled_back : LedgerStatus

pub record RollbackEntry : Type 0 where
  pub id : String
  pub account_id : String
  pub fingerprint : String
  pub pr_number : ℕ
  pub pr_url : Option String
  pub branch_name : Option String
  pub patch_file : String
  pub before_sha : String
  pub after_sha : Option String
  pub merge_commit_sha : Option String
  pub rollback_current_sha : Option String
  pub revert_commit_sha : Option String
  pub status : LedgerStatus
  pub opened_at : ℕ

pub data LedgerError : Type 0 where
  no_account not_found already_rolled_back not_configured not_merged : LedgerError
  unreadable wrong_status revert_failed : LedgerError

-- The dict that propose_rollback returns: its `conflict` is the constructor.
pub data Proposal : Type 0 where
  clean : String → String → Proposal
  conflict : String → String → Option String → String → Proposal

abbrev pub is_entry : String → String → RollbackEntry → Bool
is_entry account id e = str_eq e.account_id account && str_eq e.id id

pub get_ledger_entry : String → String → List RollbackEntry → Option RollbackEntry
get_ledger_entry account id ledger = find_row (is_entry account id) ledger

-- A commit of a changed row; `none` if the operation ends with nothing committed.
pub save : String → String → Option RollbackEntry → List RollbackEntry → List RollbackEntry
save account id none ledger = ledger
save account id (some row) ledger = update_where (is_entry account id) (λ _. row) ledger

-- The row that add_ledger_entry inserts; the id and `opened_at` are the columns'
-- defaults, a new UUID and the time of the insert.
unfoldable pub add_ledger_entry :
    String
    → String
    → ℕ
    → Option String
    → Option String
    → String
    → String
    → String
    → ℕ
    → List RollbackEntry
    → List RollbackEntry
add_ledger_entry account fingerprint pr_number pr_url branch_name patch_file before_sha new_id now
      l =
    l
    ++ record {
      id = new_id;
      account_id = account;
      fingerprint = fingerprint;
      pr_number = pr_number;
      pr_url = pr_url;
      branch_name = branch_name;
      patch_file = patch_file;
      before_sha = before_sha;
      after_sha = none;
      merge_commit_sha = none;
      rollback_current_sha = none;
      revert_commit_sha = none;
      status = proposed;
      opened_at = now;
    }
      ∷ []

-- `a == b` of a text and an optional one.
abbrev pub is_text : Option String → String → Bool
is_text none s = false
is_text (some t) s = str_eq t s

abbrev pub is_rolled_back : LedgerStatus → Bool
is_rolled_back rolled_back = true
is_rolled_back _ = false

abbrev pub is_rollback_proposed : LedgerStatus → Bool
is_rollback_proposed rollback_proposed = true
is_rollback_proposed _ = false

-- The comparison of the file as it is with the file as the patch left it.
-- `before` is what was committed until then.
pub compare_sha :
    Option RollbackEntry
    → RollbackEntry
    → Option String
    → Result LedgerError Proposal × Option RollbackEntry
compare_sha before row none = (err unreadable, before)
compare_sha before row (some current) =
    if is_text row.after_sha current
    then (
      ok (clean row.id row.patch_file),
      some (record row { status = rollback_proposed; rollback_current_sha = some current }),
    )
    else (
      ok (conflict row.id row.patch_file row.after_sha current),
      some (record row { status = rollback_blocked }),
    )

-- The commit that the first proposal makes.
abbrev pub merge_commit_of : RollbackEntry → RollbackEntry → Option RollbackEntry
merge_commit_of row merged = if is_none row.merge_commit_sha then some merged else none

module _ {W : Type 0} where
  -- `if row.merge_commit_sha is None:` the first proposal records the merge, and commits it.
  pub record_merge :
      Repository W
      → W
      → RollbackEntry
      → Option String
      → Option (Option String)
      → Result LedgerError RollbackEntry
  record_merge repo w row (some _) _ = ok row
  record_merge repo w row none none = err not_merged
  record_merge repo w row none (some merge_commit) = ok (record row {
    merge_commit_sha = merge_commit;
    after_sha = get_current_file_sha repo row.patch_file row.branch_name w;
    status = applied;
  })

  pub propose_merged :
      Repository W
      → W
      → RollbackEntry
      → Result LedgerError RollbackEntry
      → Result LedgerError Proposal × Option RollbackEntry
  propose_merged repo w row (err e) = (err e, none)
  propose_merged repo w row (ok merged) =
      compare_sha (merge_commit_of row merged) merged
        (get_current_file_sha repo merged.patch_file none w)

  pub propose_row :
      Option (Repository W) → W → RollbackEntry → Result LedgerError Proposal × Option RollbackEntry
  unfolding record_merge propose_merged
  propose_row none w row =
      if is_rolled_back row.status
      then (err already_rolled_back, none)
      else (err not_configured, none)
  propose_row (some repo) w row =
      if is_rolled_back row.status
      then (err already_rolled_back, none)
      else propose_merged repo w row
          (record_merge repo w row row.merge_commit_sha (check_pr_merged repo row.pr_number w))

  pub propose_found :
      Option (Repository W)
      → W
      → String
      → String
      → List RollbackEntry
      → Option RollbackEntry
      → Result LedgerError Proposal × List RollbackEntry
  propose_found github w account id ledger none = (err not_found, ledger)
  propose_found github w account id ledger (some row) =
      let (reply, row') = propose_row github w row in (reply, save account id row' ledger)

  pub propose_rollback :
      Option (Repository W)
      → Option String
      → String
      → List RollbackEntry
      → W
      → Result LedgerError Proposal × List RollbackEntry
  unfolding propose_found
  propose_rollback github none id ledger w = (err no_account, ledger)
  propose_rollback github (some account) id ledger w =
      propose_found github w account id ledger (get_ledger_entry account id ledger)

  pub confirm_reverted :
      RollbackEntry → Option String × W → Result LedgerError String × Option RollbackEntry × W
  confirm_reverted row (none, w) = (err revert_failed, none, w)
  confirm_reverted row (some sha, w) =
      (ok sha, some (record row { status = rolled_back; revert_commit_sha = some sha }), w)

  pub confirm_row :
      Option (Repository W)
      → RollbackEntry
      → W
      → Result LedgerError String × Option RollbackEntry × W
  unfolding confirm_reverted
  confirm_row none row w =
      if is_rollback_proposed row.status
      then (err not_configured, none, w)
      else (err wrong_status, none, w)
  confirm_row (some repo) row w =
      if is_rollback_proposed row.status
      then confirm_reverted row
          (revert_patch repo row.patch_file row.before_sha row.rollback_current_sha w)
      else (err wrong_status, none, w)

  pub confirm_found :
      Option (Repository W)
      → String
      → String
      → List RollbackEntry
      → W
      → Option RollbackEntry
      → Result LedgerError String × List RollbackEntry × W
  confirm_found github account id ledger w none = (err not_found, ledger, w)
  confirm_found github account id ledger w (some row) =
      let (reply, row', w') = confirm_row github row w in (reply, save account id row' ledger, w')

  pub confirm_rollback :
      Option (Repository W)
      → Option String
      → String
      → List RollbackEntry
      → W
      → Result LedgerError String × List RollbackEntry × W
  unfolding confirm_found
  confirm_rollback github none id ledger w = (err no_account, ledger, w)
  confirm_rollback github (some account) id ledger w =
      confirm_found github account id ledger w (get_ledger_entry account id ledger)
