-- ===== src/Diff/Examples.antt =====
-- A diff of two hunks, one that is applied to another text, and one that only adds.
use sentinai_project.Common.{◌≡◌, refl, [], ◌∷◌, ◌++◌, Text, codes, String}
use sentinai_project.Diff.{
  added, removed, context, Hunk, keep_lines, split_keepends, concat, new_lines, apply_patch,
  replace_slice, apply_files, apply_hunks, apply_hunk,
}
use sentinai_project.Diff.Applied.{done, hunk, apply_patch-IsPatch, old_lines}
use sentinai_project.Diff.Drift.{apply_patch-unchecked}

abbrev line : String → Text
line s = codes s ++ 10 ∷ []

abbrev first : Hunk
first = record {
  source_start = 1;
  source_length = 2;
  lines =
      record { line_type = context; value = line "a" }
      ∷ record { line_type = removed; value = line "b" }
      ∷ record { line_type = added; value = line "B" }
      ∷ record { line_type = added; value = line "C" }
      ∷ [];
}

abbrev second : Hunk
second = record {
  source_start = 4;
  source_length = 1;
  lines = record { line_type = removed; value = line "d" } ∷ [];
}

abbrev text : Text
text = codes "a\nb\nc\nd\ne"

split_text : split_keepends text ≡ line "a" ∷ line "b" ∷ line "c" ∷ line "d" ∷ codes "e" ∷ []
unfolding split_keepends keep_lines
split_text = refl

both_applied :
    apply_patch text (record { path = codes "f"; hunks = first ∷ second ∷ [] } ∷ [])
    ≡ codes "a\nB\nC\nc\ne"
unfolding apply_patch apply_files apply_hunks apply_hunk replace_slice new_lines concat
    split_keepends keep_lines
both_applied = refl

apply_patch-IsPatch_example :
    apply_patch text (record { path = codes "f"; hunks = first ∷ second ∷ [] } ∷ [])
    ≡ concat (line "a" ∷ line "B" ∷ line "C" ∷ line "c" ∷ codes "e" ∷ [])
unfolding split_keepends keep_lines old_lines new_lines
apply_patch-IsPatch_example =
    apply_patch-IsPatch text (codes "f") (first ∷ second ∷ [])
      (hunk first [] refl refl (hunk second (line "c" ∷ []) refl refl (done (codes "e" ∷ []))))

-- The hunk was made for a text with `a` and `b` where this one has `x` and `y`.
apply_patch-unchecked_example :
    apply_patch (codes "x\ny\nc") (record { path = codes "f"; hunks = first ∷ [] } ∷ [])
    ≡ concat ([] ++ (new_lines first.lines ++ codes "c" ∷ []))
unfolding split_keepends keep_lines
apply_patch-unchecked_example =
    apply_patch-unchecked (codes "x\ny\nc") (codes "f") first [] (line "x" ∷ line "y" ∷ [])
      (codes "c" ∷ []) refl refl refl

-- `@@ -2,0 +3 @@` adds a line behind the second one, and the code puts it before it.
abbrev addition : Hunk
addition = record {
  source_start = 2;
  source_length = 0;
  lines = record { line_type = added; value = line "n" } ∷ [];
}
