-- ===== src/Ledger/Table.antt =====
-- What `get_ledger_entry` finds after a commit.
use sentinai_project.Common.{
  String, Option, none, some, true, false, List, ◌≡◌, refl, arith, str_eq, eq_iff,
  find_row-update_where, find_row-update_where_other, find_row-holds, All, All-update_where, ap,
  ◌∙◌, map_some, err,
}
use sentinai_project.Github.{Repository}
use sentinai_project.Ledger.{
  RollbackEntry, is_entry, get_ledger_entry, save, not_found, propose_row, propose_found,
  propose_rollback, confirm_row, confirm_found, confirm_rollback,
}
use sentinai_project.Ledger.Rows.{OnSome, SameRow}

pub is_entry-SameRow :
    (account id : String) (row row' : RollbackEntry)
    → SameRow row row'
    → is_entry account id row' ≡ is_entry account id row
is_entry-SameRow account id row row' k = rw (k.0, k.1)

module _ (account : String) where
  pub get-holds :
      (id : String) (l : List RollbackEntry) {row : RollbackEntry}
      → get_ledger_entry account id l ≡ some row
      → is_entry account id row ≡ true
  unfolding get_ledger_entry
  get-holds id l h = find_row-holds (is_entry account id) l h

  -- The row that was committed is found.
  pub get-save_self :
      (id : String) (l : List RollbackEntry) (row row' : RollbackEntry)
      → get_ledger_entry account id l ≡ some row
      → SameRow row row'
      → get_ledger_entry account id (save account id (some row') l) ≡ some row'
  unfolding get_ledger_entry save
  get-save_self id l row row' h k =
      find_row-update_where (is_entry account id) (λ _. row') l
        (λ x e. is_entry-SameRow account id row row' k ∙ get-holds id l h)
      ∙ ap (map_some (λ _. row')) h

  -- Every other row is found as it was.
  pub get-save_ne :
      (id id' : String) (l : List RollbackEntry) (row : RollbackEntry) (o : Option RollbackEntry)
      → str_eq id' id ≡ false
      → get_ledger_entry account id' l ≡ some row
      → OnSome (SameRow row) o
      → get_ledger_entry account id (save account id' o l) ≡ get_ledger_entry account id l
  unfolding get_ledger_entry save
  get-save_ne id id' l row none n h k = refl
  get-save_ne id id' l row (some row') n h k =
      find_row-update_where_other (is_entry account id') (λ _. row') (is_entry account id) l
        λ x e. (apart x e, apart row' (is_entry-SameRow account id' row row' k ∙ get-holds id' l h))
    where
      apart : (x : RollbackEntry) → is_entry account id' x ≡ true → is_entry account id x ≡ false
      apart x e = ground (arith, eq_iff x.id id', eq_iff x.id id, eq_iff id' id)

  pub All-save {κ} :
      (P : RollbackEntry → Type κ) (id : String) (l : List RollbackEntry) (o : Option RollbackEntry)
      → OnSome P o
      → All P l
      → All P (save account id o l)
  unfolding save
  All-save P id l none h a = a
  All-save P id l (some row) h a =
      All-update_where (is_entry account id) (λ _. row) l (λ _ _ _. h) a

module _ {W : Type 0} (github : Option (Repository W)) (account id : String) (w : W) where
  pub propose_rollback-none :
      (l : List RollbackEntry)
      → get_ledger_entry account id l ≡ none
      → propose_rollback github (some account) id l w ≡ (err not_found, l)
  unfolding propose_rollback
  propose_rollback-none l e = ap (propose_found github w account id l) e

  pub propose_rollback-some :
      (l : List RollbackEntry) {row : RollbackEntry}
      → get_ledger_entry account id l ≡ some row
      → propose_rollback github (some account) id l w
        ≡ ((propose_row github w row).0, save account id (propose_row github w row).1 l)
  unfolding propose_rollback
  propose_rollback-some l e = ap (propose_found github w account id l) e

  pub confirm_rollback-none :
      (l : List RollbackEntry)
      → get_ledger_entry account id l ≡ none
      → confirm_rollback github (some account) id l w ≡ (err not_found, l, w)
  unfolding confirm_rollback
  confirm_rollback-none l e = ap (confirm_found github account id l w) e

  pub confirm_rollback-some :
      (l : List RollbackEntry) {row : RollbackEntry}
      → get_ledger_entry account id l ≡ some row
      → confirm_rollback github (some account) id l w ≡ (
        (confirm_row github row w).0,
        save account id (confirm_row github row w).1 l,
        (confirm_row github row w).2,
      )
  unfolding confirm_rollback
  confirm_rollback-some l e = ap (confirm_found github account id l w) e
