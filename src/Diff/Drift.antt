-- ===== src/Diff/Drift.antt =====
-- What the hunks do to a text that they were not made for: the lines that they replace are not looked at.
use sentinai_project.Common.{
  ◌+◌, ◌≡◌, ap, ◌∙◌, arith, List, [], ◌∷◌, ◌++◌, length, length-append, Text,
}
use sentinai_project.Diff.{
  Hunk, split_keepends, concat, new_lines, apply_hunk, apply_hunks, apply_files, apply_patch,
}
use sentinai_project.Diff.Applied.{replace_slice-append}

-- A hunk replaces the lines at its start, as many as its header says, by its added and context
-- lines, whatever lines stand there: its removed and context lines are not compared with the text.
pub apply_patch-unchecked :
    (original path : Text) (h : Hunk) (before others after : List Text)
    → split_keepends original ≡ before ++ (others ++ after)
    → h.source_start ≡ length before + 1
    → h.source_length ≡ length others
    → apply_patch original (record { path = path; hunks = h ∷ [] } ∷ [])
      ≡ concat (before ++ (new_lines h.lines ++ after))
unfolding apply_patch apply_files apply_hunks apply_hunk
apply_patch-unchecked original path h before others after e start len =
    ap (λ ls. concat (apply_hunk h ls)) e
    ∙ ap concat (
        replace_slice-append h.source_start h.source_length before others after (new_lines h.lines)
          start len)

-- A hunk that only adds, behind the line that its start tells, is put in before that line.
pub apply_patch-inserts_before :
    (original path : Text) (h : Hunk) (before after : List Text) (line : Text)
    → split_keepends original ≡ before ++ line ∷ after
    → h.source_start ≡ length (before ++ line ∷ [])
    → h.source_length ≡ 0
    → apply_patch original (record { path = path; hunks = h ∷ [] } ∷ [])
      ≡ concat (before ++ (new_lines h.lines ++ line ∷ after))
apply_patch-inserts_before original path h before after line e start len =
    apply_patch-unchecked original path h before [] (line ∷ after) e
      (omega (arith, start, length-append before (line ∷ []))) len
