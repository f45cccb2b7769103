-- ===== src/Opening/Committed.antt =====
-- What was committed when open_patch_pr returns a patch_file and a before_sha.
use sentinai_project.Common.{
  ◌≡◌, refl, ap, subst, ℕ, Option, none, some, List, [], ◌∷◌, Bool, true, false, if◌then◌else◌,
  Text, text_eq, Result, ok, err,
}
use sentinai_project.Remediation.{PrCall, Opened}
use sentinai_project.Diff.{PatchedFile, apply_patch}
use sentinai_project.Opening.{
  Hosting, CallError, github, other, Begun, goes_on, stops, raises, Meta, Reply, branch_of,
  stripped, message_of, after_update, commit_fetched, commit_parsed, commit_text, commit_patch,
  after_pull, open_pull, open_begun, begin_branch, open_patch_pr,
}

-- The file was read on the incident's branch, the patch of this one file changes it, and the update of
-- the branch with the sha that was read has succeeded.
pub record IsCommitted {W : Type 0} (hub : Hosting W)
    (parse : Text → Result Text (List PatchedFile)) (call : PrCall) (path sha : Text) : Type 0 where
  pub before : W
  pub file : PatchedFile
  pub original : Text
  pub was_parsed : parse call.proposed_patch ≡ ok (file ∷ [])
  pub at_path : path ≡ stripped file.path
  pub was_read : hub.get_contents path (branch_of call) before ≡ ok (original, sha)
  pub changed : text_eq (apply_patch original (file ∷ [])) original ≡ false
  pub was_updated :
      (hub.update_file path
        (message_of call)
        (apply_patch original (file ∷ []))
        sha
        (branch_of call)
        before).0
      ≡ none

module _ {W : Type 0} (hub : Hosting W) (parse : Text → Result Text (List PatchedFile))
    (percent : ℕ → ℕ) (timestamp : Text) (call : PrCall) where
  abbrev MetaReports : Meta → Type 0
  MetaReports (ok (some (path, sha))) = IsCommitted hub parse call path sha
  MetaReports (ok none) = Unit
  MetaReports (err _) = Unit

  abbrev ReplyReports : Reply → Type 0
  ReplyReports (ok (some o)) =
      (path : Text)
      → o.patch_file ≡ some path
      → (sha : Text) × (o.before_sha ≡ some sha) × IsCommitted hub parse call path sha
  ReplyReports (ok none) = Unit
  ReplyReports (err _) = Unit

  if-MetaReports :
      (b : Bool) (x y : Meta × W)
      → MetaReports x.0
      → (b ≡ false → MetaReports y.0)
      → MetaReports (if b then x else y).0
  if-MetaReports true x y p q = p
  if-MetaReports false x y p q = q refl

  after_update-Reports :
      (path sha : Text) (r : Option CallError × W)
      → (r.0 ≡ none → IsCommitted hub parse call path sha)
      → MetaReports (after_update path sha r).0
  unfolding after_update
  after_update-Reports path sha (none, w) k = k refl
  after_update-Reports path sha (some (github _), w) k = tt
  after_update-Reports path sha (some (other _), w) k = tt

  commit_fetched-Reports :
      (f : PatchedFile) (w : W) (r : Result CallError (Text × Text))
      → parse call.proposed_patch ≡ ok (f ∷ [])
      → hub.get_contents (stripped f.path) (branch_of call) w ≡ r
      → MetaReports
          (commit_fetched hub parse percent timestamp call (f ∷ []) (stripped f.path) w r).0
  unfolding commit_fetched
  commit_fetched-Reports f w (err (github _)) h k = tt
  commit_fetched-Reports f w (err (other _)) h k = tt
  commit_fetched-Reports f w (ok (original, sha)) h k =
      let patched = apply_patch original (f ∷ []) in
      let update =
        hub.update_file (stripped f.path) (message_of call) patched sha (branch_of call) w in
      if-MetaReports (text_eq patched original) (ok none, w)
        (after_update (stripped f.path) sha update) tt
        (λ changed. after_update-Reports (stripped f.path) sha update (λ e. record {
          before = w;
          file = f;
          original = original;
          was_parsed = h;
          at_path = refl;
          was_read = k;
          changed = changed;
          was_updated = e;
        }))

  commit_parsed-Reports :
      (w : W) (r : Result Text (List PatchedFile))
      → parse call.proposed_patch ≡ r
      → MetaReports (commit_parsed hub parse percent timestamp call w r).0
  unfolding commit_parsed
  commit_parsed-Reports w (err _) h = tt
  commit_parsed-Reports w (ok []) h = tt
  commit_parsed-Reports w (ok (f ∷ g ∷ fs)) h = tt
  commit_parsed-Reports w (ok (f ∷ [])) h = commit_fetched-Reports f w _ h refl

  commit_text-Reports :
      (w : W) (patch : Text)
      → call.proposed_patch ≡ patch
      → MetaReports (commit_text hub parse percent timestamp call w patch).0
  unfolding commit_text
  commit_text-Reports w [] h = tt
  commit_text-Reports w (c ∷ patch) h = commit_parsed-Reports w (parse (c ∷ patch)) (ap parse h)

  after_pull-Reports :
      (meta : Option (Text × Text)) (r : Result CallError (Text × ℕ) × W)
      → MetaReports (ok meta)
      → ReplyReports (after_pull call meta r).0
  unfolding after_pull
  after_pull-Reports meta (err (github _), w) k = tt
  after_pull-Reports meta (err (other _), w) k = tt
  after_pull-Reports none (ok (link, number), w) k = λ path h. cc
  after_pull-Reports (some (path, sha)) (ok (link, number), w) k =
      λ path' h. (sha, refl, subst (λ p. IsCommitted hub parse call p sha) (some_eq h) k)
    where
      some_eq : {a b : Text} → some a ≡ some b → a ≡ b
      some_eq h = cc

  open_pull-Reports :
      (base : Option Text) (r : Meta × W)
      → MetaReports r.0
      → ReplyReports (open_pull hub parse percent timestamp call base r).0
  unfolding open_pull
  open_pull-Reports base (err exc, w) k = tt
  open_pull-Reports none (ok meta, w) k = tt
  open_pull-Reports (some base) (ok meta, w) k = after_pull-Reports meta _ k

  open_begun-Reports :
      (r : Begun × W) → ReplyReports (open_begun hub parse percent timestamp call r).0
  unfolding open_begun commit_patch
  open_begun-Reports (stops, w) = tt
  open_begun-Reports (raises exc, w) = tt
  open_begun-Reports (goes_on base, w) =
      open_pull-Reports base _ (commit_text-Reports w call.proposed_patch refl)

-- If open_patch_pr returns a dict with a patch_file, it also has a before_sha: the diff had one
-- file, which is patch_file without a prefix of a diff header, this file was read with that sha on
-- the branch of the incident, the patch changes it, and the update of that branch with the patched
-- text and that sha has succeeded.
pub open_patch_pr-IsCommitted :
    {W : Type 0} (hub : Hosting W) (parse : Text → Result Text (List PatchedFile)) (percent : ℕ → ℕ)
    (timestamp : Text) (call : PrCall) (w : W) {o : Opened} {path : Text}
    → (open_patch_pr hub parse percent timestamp call w).0 ≡ ok (some o)
    → o.patch_file ≡ some path
    → (sha : Text) × (o.before_sha ≡ some sha) × IsCommitted hub parse call path sha
unfolding open_patch_pr
open_patch_pr-IsCommitted hub parse percent timestamp call w h e =
    subst (ReplyReports hub parse percent timestamp call) h
      (open_begun-Reports hub parse percent timestamp call
        (begin_branch hub parse percent timestamp call w (hub.default_branch w)))
      _ e
