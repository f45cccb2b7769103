-- ===== src/Runner/Examples.antt =====
-- A file of one line, and a diff that adds a second.
use sentinai_project.Common.{refl, some, none, true, [], ◌∷◌, codes, ok, text_eq}
use sentinai_project.Diff.{
  added, apply_patch, apply_files, apply_hunks, apply_hunk, replace_slice, new_lines,
  split_keepends, keep_lines, concat,
}
use sentinai_project.Runner.{
  Files, PatchResult, apply, apply_made, apply_read, apply_parsed, after_write,
}
use sentinai_project.Runner.Written.{IsWritten, apply-IsWritten}

abbrev files : Files
files = record {
  exists = λ path. text_eq path (codes "a.py");
  mkdir = λ _. none;
  read_text = λ _. ok (codes "x");
  write_text = λ _ _. none;
  parse_diff = λ _. ok (
      record {
        path = codes "a.py";
        hunks =
            record {
              source_start = 1;
              source_length = 0;
              lines = record { line_type = added; value = codes "y\n" } ∷ [];
            }
            ∷ [];
      }
      ∷ []);
}

abbrev patched : PatchResult
patched = record { success = true; error = []; written = some (codes "y\nx") }

apply-IsWritten_example : IsWritten files [] (codes "a.py") patched
unfolding apply apply_made apply_read apply_parsed after_write apply_patch apply_files apply_hunks
    apply_hunk replace_slice new_lines split_keepends keep_lines concat
apply-IsWritten_example = apply-IsWritten files [] (codes "a.py") refl refl
