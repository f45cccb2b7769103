-- ===== src/Runner.antt =====
-- PatchRunner.apply of src/services/patch_runner.py. The file system and unidiff's parser are arguments.
-- A path is the repo-relative one: it is read below the project's root and written below the workspace.
pub mod Written
mod Examples
use sentinai_project.Common.{
  Option, none, some, Bool, true, false, List, [], ◌∷◌, ◌++◌, not, if◌then◌else◌, Text, codes,
  text_eq, Result, ok, err,
}
use sentinai_project.Diff.{PatchedFile, apply_patch}

-- What a file operation raises: an OSError, or another exception, such as a UnicodeDecodeError.
pub data FileError : Type 0 where
  os_error : Text → FileError
  other_error : Text → FileError

-- exists and read_text of the source, mkdir and write_text of the copy, with what they raise.
pub record Files : Type 0 where
  pub exists : Text → Bool
  pub mkdir : Text → Option Text
  pub read_text : Text → Result FileError Text
  pub write_text : Text → Text → Option FileError
  pub parse_diff : Text → Result Text (List PatchedFile)

-- PatchResult, and what was written.
pub record PatchResult : Type 0 where
  pub success : Bool
  pub error : Text
  pub written : Option Text

unfoldable pub not_applied : Text → PatchResult
not_applied error = record { success = false; error = error; written = none }

unfoldable pub after_write : Text → Option FileError → Result Text PatchResult
unfolding not_applied
after_write patched none = ok (record { success = true; error = []; written = some patched })
after_write patched (some (os_error exc)) =
    ok (not_applied (codes "Cannot write patched file: " ++ exc))
after_write patched (some (other_error exc)) = err exc

-- The diff is applied to the text of the source.
unfoldable pub apply_parsed :
    Files → Text → Text → Result Text (List PatchedFile) → Result Text PatchResult
unfolding after_write
apply_parsed files patch_file original (err exc) =
    ok (not_applied (codes "Invalid unified diff: " ++ exc))
apply_parsed files patch_file original (ok patch_set) =
    let patched = apply_patch original patch_set in
    if text_eq patched original
    then ok (not_applied (codes "Patch produced no changes."))
    else after_write patched (files.write_text patch_file patched)

unfoldable pub apply_read : Files → Text → Text → Result FileError Text → Result Text PatchResult
unfolding apply_parsed
apply_read files patch patch_file (err (os_error exc)) =
    ok (not_applied (codes "Cannot read source: " ++ exc))
apply_read files patch patch_file (err (other_error exc)) = err exc
apply_read files patch patch_file (ok original) =
    apply_parsed files patch_file original (files.parse_diff patch)

unfoldable pub apply_made : Files → Text → Text → Option Text → Result Text PatchResult
unfolding apply_read
apply_made files patch patch_file (some exc) = err exc
apply_made files patch patch_file none =
    apply_read files patch patch_file (files.read_text patch_file)

-- apply; what nothing catches is an error.
unfoldable pub apply : Files → Text → Text → Result Text PatchResult
unfolding apply_made
apply files patch patch_file =
    if not (files.exists patch_file)
    then ok (not_applied (codes "Source file not found: " ++ patch_file))
    else apply_made files patch patch_file (files.mkdir patch_file)
