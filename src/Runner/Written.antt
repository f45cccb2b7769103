-- ===== src/Runner/Written.antt =====
-- When PatchRunner.apply reports success, and what is then in the workspace.
use sentinai_project.Common.{
  ◌≡◌, refl, subst, arith, Option, none, some, Bool, true, false, not, List, [], if◌then◌else◌,
  Text, text_eq, Result, ok, err,
}
use sentinai_project.Diff.{PatchedFile, apply_patch}
use sentinai_project.Runner.{
  FileError, os_error, other_error, Files, PatchResult, not_applied, after_write, apply_parsed,
  apply_read, apply_made, apply,
}

-- The source was read, the diff parsed, and what it makes of the source is new and was written.
pub record IsWritten (files : Files) (patch patch_file : Text) (r : PatchResult) : Type 0 where
  pub original : Text
  pub patch_set : List PatchedFile
  pub there : files.exists patch_file ≡ true
  pub made : files.mkdir patch_file ≡ none
  pub was_read : files.read_text patch_file ≡ ok original
  pub was_parsed : files.parse_diff patch ≡ ok patch_set
  pub changed : text_eq (apply_patch original patch_set) original ≡ false
  pub was_written : files.write_text patch_file (apply_patch original patch_set) ≡ none
  pub written : r.written ≡ some (apply_patch original patch_set)

module _ (files : Files) (patch patch_file : Text) where
  -- A reported success is one.
  Reports : Result Text PatchResult → Type 0
  Reports (ok r) = r.success ≡ true → IsWritten files patch patch_file r
  Reports (err _) = Unit

  if-Reports :
      (b : Bool) (x y : Result Text PatchResult)
      → (b ≡ true → Reports x)
      → (b ≡ false → Reports y)
      → Reports (if b then x else y)
  if-Reports true x y f g = f refl
  if-Reports false x y f g = g refl

  after_write-Reports :
      (patched : Text) (e : Option FileError)
      → (e ≡ none
          → IsWritten files patch patch_file
              (record { success = true; error = []; written = some patched }))
      → Reports (after_write patched e)
  unfolding after_write not_applied Reports
  after_write-Reports patched none k = λ _. k refl
  after_write-Reports patched (some (os_error exc)) k = λ s. cc
  after_write-Reports patched (some (other_error exc)) k = tt

  module _ (there : files.exists patch_file ≡ true) (made : files.mkdir patch_file ≡ none) where
    apply_parsed-Reports :
        (original : Text) (parsed : Result Text (List PatchedFile))
        → files.read_text patch_file ≡ ok original
        → files.parse_diff patch ≡ parsed
        → Reports (apply_parsed files patch_file original parsed)
    unfolding apply_parsed not_applied Reports
    apply_parsed-Reports original (err exc) h k = λ s. cc
    apply_parsed-Reports original (ok patch_set) h k =
        let patched = apply_patch original patch_set in
        if-Reports (text_eq patched original) _ _ (λ _ s. cc)
          (λ changed. after_write-Reports patched (files.write_text patch_file patched) (λ w.
            record {
              original = original;
              patch_set = patch_set;
              there = there;
              made = made;
              was_read = h;
              was_parsed = k;
              changed = changed;
              was_written = w;
              written = refl;
            }))

    apply_read-Reports :
        (o : Result FileError Text)
        → files.read_text patch_file ≡ o
        → Reports (apply_read files patch patch_file o)
    unfolding apply_read not_applied Reports
    apply_read-Reports (err (os_error exc)) h = λ s. cc
    apply_read-Reports (err (other_error exc)) h = tt
    apply_read-Reports (ok original) h =
        apply_parsed-Reports original (files.parse_diff patch) h refl

  apply_made-Reports :
      (o : Option Text)
      → files.exists patch_file ≡ true
      → files.mkdir patch_file ≡ o
      → Reports (apply_made files patch patch_file o)
  unfolding apply_made Reports
  apply_made-Reports (some exc) e h = tt
  apply_made-Reports none e h = apply_read-Reports e h (files.read_text patch_file) refl

  apply-Reports : Reports (apply files patch patch_file)
  unfolding apply not_applied Reports
  apply-Reports =
      if-Reports (not (files.exists patch_file)) _ _ (λ _ s. cc)
        (λ e. apply_made-Reports (files.mkdir patch_file) (ground (arith, e)) refl)

  -- If PatchRunner.apply reports success, the source was there and was read, the diff was parsed,
  -- what the diff makes of the source differs from it, and just this was written to the workspace.
  pub apply-IsWritten :
      {r : PatchResult}
      → apply files patch patch_file ≡ ok r
      → r.success ≡ true
      → IsWritten files patch patch_file r
  unfolding Reports
  apply-IsWritten h s = subst Reports h apply-Reports s
