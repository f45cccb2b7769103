-- ===== src/Opening/Kept.antt =====
-- What open_patch_pr leaves alone: all of the repository but the branch of the incident and its pull
-- request.
use sentinai_project.Common.{
  ℕ, Option, none, some, List, [], ◌∷◌, ◌++◌, ◌==◌, Bool, true, false, if◌then◌else◌, Text, codes,
  text_eq, Result, ok, err,
}
use sentinai_project.Remediation.{PrCall}
use sentinai_project.Diff.{PatchedFile, apply_patch}
use sentinai_project.Opening.{
  Hosting, CallError, github, other, Begun, goes_on, stops, raises, Meta, branch_of, stripped,
  after_update, commit_fetched, commit_parsed, commit_text, commit_patch, on_error, after_ref,
  make_ref, begin_branch, after_pull, open_pull, open_begun, open_patch_pr, message_of,
}

-- A property of the repository that survives the ref of the branch, updates on the branch and pull
-- requests from it.
pub record IsUntouched {W : Type 0} (hub : Hosting W) (branch : Text) (Q : W → Type 0)
    : Type 0 where
  pub by_ref :
      (sha : Text) (w : W) → Q w → Q (hub.create_git_ref (codes "refs/heads/" ++ branch) sha w).1
  pub by_update :
      (path message content sha : Text) (w : W)
      → Q w
      → Q (hub.update_file path message content sha branch w).1
  pub by_pull :
      (title body base : Text) (w : W) → Q w → Q (hub.create_pull title body branch base w).1

module _ {W : Type 0} (Q : W → Type 0) where
  if-keeps : {A : Type 0} (b : Bool) (x y : A × W) → Q x.1 → Q y.1 → Q (if b then x else y).1
  if-keeps true x y p q = p
  if-keeps false x y p q = q

  after_update-keeps :
      (path sha : Text) (r : Option CallError × W) → Q r.1 → Q (after_update path sha r).1
  unfolding after_update
  after_update-keeps path sha (none, w) q = q
  after_update-keeps path sha (some (github _), w) q = q
  after_update-keeps path sha (some (other _), w) q = q

  on_error-keeps : (base : Option Text) (w : W) (e : CallError) → Q w → Q (on_error base w e).1
  unfolding on_error
  on_error-keeps base w (github status) q =
      if-keeps (status == 422) (goes_on base, w) (stops, w) q q
  on_error-keeps base w (other exc) q = q

  after_ref-keeps : (base : Text) (r : Option CallError × W) → Q r.1 → Q (after_ref base r).1
  unfolding after_ref
  after_ref-keeps base (none, w) q = q
  after_ref-keeps base (some e, w) q = on_error-keeps (some base) w e q

  after_pull-keeps :
      (call : PrCall) (meta : Option (Text × Text)) (r : Result CallError (Text × ℕ) × W)
      → Q r.1
      → Q (after_pull call meta r).1
  unfolding after_pull
  after_pull-keeps call meta (err (github _), w) q = q
  after_pull-keeps call meta (err (other _), w) q = q
  after_pull-keeps call meta (ok (link, number), w) q = q

module _ {W : Type 0} (hub : Hosting W) (parse : Text → Result Text (List PatchedFile))
    (percent : ℕ → ℕ) (timestamp : Text) (call : PrCall) (Q : W → Type 0)
    (u : IsUntouched hub (branch_of call) Q) where
  commit_fetched-keeps :
      (patch_set : List PatchedFile) (path : Text) (w : W) (r : Result CallError (Text × Text))
      → Q w
      → Q (commit_fetched hub parse percent timestamp call patch_set path w r).1
  unfolding commit_fetched
  commit_fetched-keeps patch_set path w (err (github _)) q = q
  commit_fetched-keeps patch_set path w (err (other _)) q = q
  commit_fetched-keeps patch_set path w (ok (original, sha)) q =
      if-keeps Q (text_eq (apply_patch original patch_set) original) (ok none, w) _ q
        (after_update-keeps Q path sha _ (u.by_update path (message_of call) _ sha w q))

  commit_parsed-keeps :
      (w : W) (r : Result Text (List PatchedFile))
      → Q w
      → Q (commit_parsed hub parse percent timestamp call w r).1
  unfolding commit_parsed
  commit_parsed-keeps w (err _) q = q
  commit_parsed-keeps w (ok []) q = q
  commit_parsed-keeps w (ok (f ∷ g ∷ fs)) q = q
  commit_parsed-keeps w (ok (f ∷ [])) q = commit_fetched-keeps (f ∷ []) (stripped f.path) w _ q

  commit_text-keeps :
      (w : W) (patch : Text) → Q w → Q (commit_text hub parse percent timestamp call w patch).1
  unfolding commit_text
  commit_text-keeps w [] q = q
  commit_text-keeps w (c ∷ patch) q = commit_parsed-keeps w (parse (c ∷ patch)) q

  make_ref-keeps :
      (base : Text) (w : W) (r : Result CallError Text)
      → Q w
      → Q (make_ref hub parse percent timestamp call base w r).1
  unfolding make_ref
  make_ref-keeps base w (err e) q = on_error-keeps Q (some base) w e q
  make_ref-keeps base w (ok sha) q =
      after_ref-keeps Q base (hub.create_git_ref (codes "refs/heads/" ++ branch_of call) sha w)
        (u.by_ref sha w q)

  begin_branch-keeps :
      (w : W) (r : Result CallError Text)
      → Q w
      → Q (begin_branch hub parse percent timestamp call w r).1
  unfolding begin_branch
  begin_branch-keeps w (err e) q = on_error-keeps Q none w e q
  begin_branch-keeps w (ok base) q = make_ref-keeps base w (hub.get_branch base w) q

  open_pull-keeps :
      (base : Option Text) (r : Meta × W)
      → Q r.1
      → Q (open_pull hub parse percent timestamp call base r).1
  unfolding open_pull
  open_pull-keeps base (err exc, w) q = q
  open_pull-keeps none (ok meta, w) q = q
  open_pull-keeps (some base) (ok meta, w) q =
      after_pull-keeps Q call meta _ (u.by_pull _ _ base w q)

  open_begun-keeps : (r : Begun × W) → Q r.1 → Q (open_begun hub parse percent timestamp call r).1
  unfolding open_begun commit_patch
  open_begun-keeps (stops, w) q = q
  open_begun-keeps (raises exc, w) q = q
  open_begun-keeps (goes_on base, w) q =
      open_pull-keeps base _ (commit_text-keeps w call.proposed_patch q)

-- What holds of the hosted repository and survives the creation of the incident's branch, updates
-- of files on that branch and pull requests from it still holds after open_patch_pr, whatever its
-- calls return or raise.
pub open_patch_pr-keeps :
    {W : Type 0} (hub : Hosting W) (parse : Text → Result Text (List PatchedFile)) (percent : ℕ → ℕ)
    (timestamp : Text) (call : PrCall) (Q : W → Type 0) (w : W)
    → IsUntouched hub (branch_of call) Q
    → Q w
    → Q (open_patch_pr hub parse percent timestamp call w).1
unfolding open_patch_pr
open_patch_pr-keeps hub parse percent timestamp call Q w u q =
    open_begun-keeps hub parse percent timestamp call Q u _
      (begin_branch-keeps hub parse percent timestamp call Q u w (hub.default_branch w) q)
