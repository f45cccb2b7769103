-- ===== src/Ledger/Reverts.antt =====
-- A sequence of requests to the ledger, each met by a hosted repository in any state: a patch is
-- reverted at most once.
use sentinai_project.Common.{
  ℕ, ◌+◌, ◌≤◌, String, Option, none, some, false, List, [], ◌∷◌, ◌≡◌, refl, arith, Result, ok, err,
  str_eq, eq_iff, eq_refl, if◌then◌else◌, Bool-cases, inl, inr, Option-cases, sym, ◌⊎◌, ◌++◌,
}
use sentinai_project.Github.{Repository}
use sentinai_project.Ledger.{
  RollbackEntry, LedgerStatus, LedgerError, rolled_back, is_rolled_back, get_ledger_entry,
  add_ledger_entry, propose_rollback, confirm_rollback, propose_row, confirm_row, save, is_entry,
}
use sentinai_project.Ledger.Rows.{
  propose_row-SameRow, confirm_row-SameRow, propose_row-rolled_back, confirm_row-rolled_back,
  confirm_row_status,
}
use sentinai_project.Ledger.Table.{
  get-save_self, get-save_ne, propose_rollback-none, propose_rollback-some, confirm_rollback-none,
  confirm_rollback-some,
}

-- A request, with the state of the hosted repository when it is handled.
pub data Request (W : Type 0) : Type 0 where
  open_pr : String → ℕ → Option String → Option String → String → String → String → ℕ → Request W
  propose confirm : String → W → Request W

abbrev pub is_done : Option RollbackEntry → ℕ
is_done none = 0
is_done (some row) = if is_rolled_back row.status then 1 else 0

abbrev is_revert : {A : Type 0} → String → String → Result LedgerError A → ℕ
is_revert id id' (ok _) = if str_eq id' id then 1 else 0
is_revert id id' (err _) = 0

Status-cases : (s : LedgerStatus) → (s ≡ rolled_back) ⊎ (is_rolled_back s ≡ false)
Status-cases rolled_back = inl refl
Status-cases _ = inr refl

module _ {W : Type 0} (github : Option (Repository W)) (account : String) where
  unfoldable pub handle : Request W → List RollbackEntry → List RollbackEntry
  handle (open_pr fingerprint number url branch file sha new_id now) l =
      add_ledger_entry account fingerprint number url branch file sha new_id now l
  handle (propose id w) l = (propose_rollback github (some account) id l w).1
  handle (confirm id w) l = (confirm_rollback github (some account) id l w).1

  unfoldable pub handle_all : List (Request W) → List RollbackEntry → List RollbackEntry
  handle_all [] l = l
  handle_all (r ∷ rs) l = handle_all rs (handle r l)

  -- 1 for a request that reverted the patch of `id`.
  reverted : String → Request W → List RollbackEntry → ℕ
  reverted id (confirm id' w) l =
      is_revert id id' (confirm_rollback github (some account) id' l w).0
  reverted id _ l = 0

  -- How many of the requests reverted the patch of `id`.
  unfoldable pub reverts : String → List (Request W) → List RollbackEntry → ℕ
  unfolding reverted
  reverts id [] l = 0
  reverts id (r ∷ rs) l = reverted id r l + reverts id rs (handle r l)

  get-append :
      (id : String) (l m : List RollbackEntry) {row : RollbackEntry}
      → get_ledger_entry account id l ≡ some row
      → get_ledger_entry account id (l ++ m) ≡ some row
  unfolding get_ledger_entry
  get-append id [] m h = cc
  get-append id (x ∷ l) m h = elim (Bool-cases (is_entry account id x)) [
    | inl e ↦ rw e (rw e at h)
    | inr e ↦ rw e (get-append id l m (rw e at h))
  ]

  is_done-append :
      (id : String) (l m : List RollbackEntry)
      → is_done (get_ledger_entry account id l) ≤ is_done (get_ledger_entry account id (l ++ m))
  is_done-append id l m = elim (Option-cases (get_ledger_entry account id l)) [
    | inl e ↦ rw e (omega arith)
    | inr (row, e) ↦ rw (e, get-append id l m e) (omega arith)
  ]

  is_done-propose_self :
      (id : String) (w : W) (l : List RollbackEntry) (row : RollbackEntry)
      → get_ledger_entry account id l ≡ some row
      → is_done (some row)
        ≤ is_done (get_ledger_entry account id (save account id (propose_row github w row).1 l))
  is_done-propose_self id w l row e = elim (Status-cases row.status) [
    | inl s ↦ rw (propose_row-rolled_back github w row s) (unfold save in rw e (omega arith))
    | inr s ↦ rw s (omega arith)
  ]

  is_done-confirm_self :
      (id : String) (w : W) (l : List RollbackEntry) (row : RollbackEntry)
      → get_ledger_entry account id l ≡ some row
      → is_revert id id (confirm_row github row w).0 + is_done (some row)
        ≤ is_done (get_ledger_entry account id (save account id (confirm_row github row w).1 l))
  is_done-confirm_self id w l row e = elim (Status-cases row.status) [
    | inl s ↦ rw (confirm_row-rolled_back github row w s) (unfold save in rw e (omega arith))
    | inr s ↦ rw s (committed (confirm_row github row w).0 refl)
  ]
    where
      committed :
          (reply : Result LedgerError String)
          → (confirm_row github row w).0 ≡ reply
          → is_revert id id reply + 0
            ≤ is_done (get_ledger_entry account id (save account id (confirm_row github row w).1 l))
      committed (ok sha) h = rw (confirm_row_status github row w h).1 (
          rw
            (get-save_self account id l row
              (record row { status = rolled_back; revert_commit_sha = some sha }) e (refl, refl))
            (rw (eq_refl id) (omega arith)))
      committed (err x) h = omega arith

  -- A request that reverts the patch of `id` finds it not rolled back, and leaves it so.
  reverted-step :
      (id : String) (r : Request W) (l : List RollbackEntry)
      → reverted id r l + is_done (get_ledger_entry account id l)
        ≤ is_done (get_ledger_entry account id (handle r l))
  unfolding reverted handle add_ledger_entry
  reverted-step id (open_pr f n u b p s k now) l = omega (arith, is_done-append id l _)
  reverted-step id (propose id' w) l = elim (Option-cases (get_ledger_entry account id' l)) [
    | inl e ↦ rw (propose_rollback-none github account id' w l e, handle, is_done) (omega arith)
    | inr (row, e) ↦
        rw (propose_rollback-some github account id' w l e, handle, is_done) (found row e)
  ]
    where
      found :
          (row : RollbackEntry)
          → get_ledger_entry account id' l ≡ some row
          → 0 + is_done (get_ledger_entry account id l)
            ≤ is_done
                (get_ledger_entry account id (save account id' (propose_row github w row).1 l))
      found row e = elim (Bool-cases (str_eq id' id)) [
        | inl same ↦
            rw (sym ((eq_iff id' id).0 same))
              (rw e (omega (arith, is_done-propose_self id' w l row e)))
        | inr other ↦
            rw (get-save_ne account id id' l row _ other e (propose_row-SameRow github w row))
              (omega arith)
      ]
  reverted-step id (confirm id' w) l = elim (Option-cases (get_ledger_entry account id' l)) [
    | inl e ↦ rw (confirm_rollback-none github account id' w l e, handle, is_done) (omega arith)
    | inr (row, e) ↦
        rw (confirm_rollback-some github account id' w l e, handle, is_done) (found row e)
  ]
    where
      is_revert-other :
          (reply : Result LedgerError String)
          → str_eq id' id ≡ false
          → is_revert id id' reply + is_done (get_ledger_entry account id l)
            ≤ is_done (get_ledger_entry account id l)
      is_revert-other (ok s) n = rw n (omega arith)
      is_revert-other (err x) n = omega arith

      found :
          (row : RollbackEntry)
          → get_ledger_entry account id' l ≡ some row
          → is_revert id id' (confirm_row github row w).0 + is_done (get_ledger_entry account id l)
            ≤ is_done
                (get_ledger_entry account id (save account id' (confirm_row github row w).1 l))
      found row e = elim (Bool-cases (str_eq id' id)) [
        | inl same ↦
            rw (sym ((eq_iff id' id).0 same))
              (rw e (omega (arith, is_done-confirm_self id' w l row e)))
        | inr other ↦
            rw (get-save_ne account id id' l row _ other e (confirm_row-SameRow github row w))
              (is_revert-other (confirm_row github row w).0 other)
      ]

  reverts-is_done :
      (id : String) (rs : List (Request W)) (l : List RollbackEntry)
      → reverts id rs l + is_done (get_ledger_entry account id l) ≤ 1
  unfolding reverts
  reverts-is_done id [] l = ground arith
  reverts-is_done id (r ∷ rs) l =
      omega (arith, reverted-step id r l, reverts-is_done id rs (handle r l))

  -- For any ledger, any sequence of opened pull requests, proposals and confirmations, and any
  -- state of the hosted repository at each of them, the number of confirmations that revert the
  -- patch of one entry is at most 1, and 0 if the entry is rolled back at the start.
  pub reverted_at_most_once :
      (id : String) (rs : List (Request W)) (l : List RollbackEntry)
      → reverts id rs l + is_done (get_ledger_entry account id l) ≤ 1
  reverted_at_most_once id rs l = reverts-is_done id rs l
