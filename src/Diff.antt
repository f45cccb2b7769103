-- ===== src/Diff.antt =====
-- _apply_patch of src/services/patch_runner.py, which src/integrations/github_client.py repeats: the
-- hunks of a parsed diff are put into the lines of a text, the last one first. A PatchSet is unidiff's;
-- its data are those that the code reads.
pub mod Applied
pub mod Drift
mod Examples
use sentinai_project.Common.{
  ℕ, zero, suc, ◌+◌, ◌-◌, max, Bool, true, false, List, [], ◌∷◌, ◌++◌, ◌||◌, ◌&&◌, not, ◌==◌,
  if◌then◌else◌, length, take, drop, Text, is_break,
}

pub data LineType : Type 0 where
  added removed context no_newline : LineType

pub record Line : Type 0 where
  pub line_type : LineType
  pub value : Text

pub record Hunk : Type 0 where
  pub source_start : ℕ
  pub source_length : ℕ
  pub lines : List Line

pub record PatchedFile : Type 0 where
  pub path : Text
  pub hunks : List Hunk

abbrev is_line_feed : Text → Bool
is_line_feed [] = false
is_line_feed (c ∷ s) = c == 10

-- `\r\n` ends one line.
abbrev pub ends_line : ℕ → Text → Bool
ends_line c s = is_break c || (c == 13 && not (is_line_feed s))

-- original.splitlines(keepends=True), behind `line`, the begun one.
unfoldable pub keep_lines : Text → Text → List Text
keep_lines [] [] = []
keep_lines (c ∷ line) [] = (c ∷ line) ∷ []
keep_lines line (c ∷ s) =
    let ends = ends_line c s in
    let rest = keep_lines (if ends then [] else line ++ c ∷ []) s in
    if ends then (line ++ c ∷ []) ∷ rest else rest

unfoldable pub split_keepends : Text → List Text
unfolding keep_lines
split_keepends s = keep_lines [] s

-- "".join
unfoldable pub concat : List Text → Text
concat [] = []
concat (line ∷ lines) = line ++ concat lines

abbrev is_kept : LineType → Bool
is_kept added = true
is_kept context = true
is_kept _ = false

unfoldable pub new_lines : List Line → List Text
new_lines [] = []
new_lines (l ∷ ls) = let rest = new_lines ls in if is_kept l.line_type then l.value ∷ rest else rest

-- lines[start : start + length] = new, where start is source_start - 1. A start of -1 stands for the
-- last line, and a slice that would end before its start is empty.
unfoldable pub replace_slice : ℕ → ℕ → List Text → List Text → List Text
replace_slice zero n new lines =
    let start = length lines - 1 in take start lines ++ (new ++ drop (max start (n - 1)) lines)
replace_slice (suc start) n new lines = take start lines ++ (new ++ drop (start + n) lines)

unfoldable pub apply_hunk : Hunk → List Text → List Text
unfolding new_lines
apply_hunk h lines = replace_slice h.source_start h.source_length (new_lines h.lines) lines

-- reversed(list(patched_file))
unfoldable pub apply_hunks : List Hunk → List Text → List Text
apply_hunks [] lines = lines
apply_hunks (h ∷ hs) lines = apply_hunk h (apply_hunks hs lines)

unfoldable pub apply_files : List PatchedFile → List Text → List Text
apply_files [] lines = lines
apply_files (f ∷ fs) lines = apply_files fs (apply_hunks f.hunks lines)

unfoldable pub apply_patch : Text → List PatchedFile → Text
unfolding split_keepends
apply_patch original patch_set = concat (apply_files patch_set (split_keepends original))
