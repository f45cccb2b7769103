-- ===== src/Diff/Applied.antt =====
-- What a diff means, read from the top, and that its hunks put in from the last give just that.
use sentinai_project.Common.{
  ℕ, zero, suc, ◌+◌, ◌≡◌, refl, sym, ap, ◌∙◌, arith, List, [], ◌∷◌, ◌++◌, append_assoc, length,
  take, drop, take-length_append, drop-length_append, length-append, Text, Bool-cases, inl, inr,
}
use sentinai_project.Diff.{
  added, removed, context, no_newline, Line, Hunk, ends_line, keep_lines, split_keepends, concat,
  new_lines, replace_slice, apply_hunk, apply_hunks, apply_files, apply_patch,
}

-- The lines that a hunk takes the place of.
unfoldable pub old_lines : List Line → List Text
old_lines [] = []
old_lines (l ∷ ls) = elim l.line_type [
  | removed ↦ l.value ∷ old_lines ls
  | context ↦ l.value ∷ old_lines ls
  | added ↦ old_lines ls
  | no_newline ↦ old_lines ls
]

-- Behind `n` lines, the hunks lead from the old to the new lines: each has its own lines, behind a gap
-- that they share.
pub data IsPatch : ℕ → List Hunk → List Text → List Text → Type 0 where
  done : {n : ℕ} (rest : List Text) → IsPatch n [] rest rest
  hunk :
      {n : ℕ} {hs : List Hunk} {old new : List Text} (h : Hunk) (gap : List Text)
      → h.source_start ≡ n + length gap + 1
      → h.source_length ≡ length (old_lines h.lines)
      → IsPatch (n + length gap + h.source_length) hs old new
      → IsPatch n (h ∷ hs) (gap ++ (old_lines h.lines ++ old)) (gap ++ (new_lines h.lines ++ new))

-- A hunk's slice, behind lines of the length that its start tells.
pub replace_slice-append :
    (start n : ℕ) (before old rest new : List Text)
    → start ≡ length before + 1
    → n ≡ length old
    → replace_slice start n new (before ++ (old ++ rest)) ≡ before ++ (new ++ rest)
unfolding replace_slice
replace_slice-append zero n before old rest new h k = absurd (omega arith)
replace_slice-append (suc start) n before old rest new h k =
    let here : start ≡ length before = omega arith in
    let there : start + n ≡ length (before ++ old) = omega (arith, length-append before old) in
    let kept : take start (before ++ (old ++ rest)) ≡ before =
      rw here (take-length_append before (old ++ rest)) in
    let left : drop (start + n) (before ++ (old ++ rest)) ≡ rest =
      rw (there, ← append_assoc before old rest) (drop-length_append (before ++ old) rest) in
    rw (kept, left) refl

regroup : (a b c d : List Text) → a ++ (b ++ (c ++ d)) ≡ ((a ++ b) ++ c) ++ d
regroup a b c d = sym (append_assoc a b (c ++ d)) ∙ sym (append_assoc (a ++ b) c d)

apply_hunks-behind :
    {n : ℕ} {hs : List Hunk} {old new : List Text} (before : List Text)
    → length before ≡ n
    → IsPatch n hs old new
    → apply_hunks hs (before ++ old) ≡ before ++ new
unfolding apply_hunks apply_hunk
apply_hunks-behind before h (done rest) = refl
apply_hunks-behind before h (hunk {n} {hs} {old} {new} x gap start len p) =
    let o = old_lines x.lines in
    let width = length-append before gap in
    ap (λ ls. apply_hunk x (apply_hunks hs ls)) (regroup before gap o old)
    ∙ ap (apply_hunk x) (
        apply_hunks-behind ((before ++ gap) ++ o)
          (omega (arith, h, len, width, length-append (before ++ gap) o)) p
        ∙ append_assoc (before ++ gap) o new)
    ∙ replace_slice-append x.source_start x.source_length (before ++ gap) o new (new_lines x.lines)
        (omega (arith, h, start, width)) len
    ∙ append_assoc before gap (new_lines x.lines ++ new)

concat-keep_lines : (line s : Text) → concat (keep_lines line s) ≡ line ++ s
unfolding concat keep_lines
concat-keep_lines [] [] = refl
concat-keep_lines (c ∷ line) [] = refl
concat-keep_lines line (c ∷ s) = elim (Bool-cases (ends_line c s)) [
  | inl e ↦
      rw e (ap (λ t. (line ++ c ∷ []) ++ t) (concat-keep_lines [] s) ∙ append_assoc line (c ∷ []) s)
  | inr e ↦ rw e (concat-keep_lines (line ++ c ∷ []) s ∙ append_assoc line (c ∷ []) s)
]

-- The lines of a text make it up.
pub concat-split_keepends : (s : Text) → concat (split_keepends s) ≡ s
unfolding split_keepends
concat-split_keepends s = concat-keep_lines [] s

-- If the hunks of a diff of one file, read from the top, lead from the lines of a text to new
-- lines, each with its removed and context lines behind a gap that both share and with the start
-- and length of its header, then putting the hunks in from the last, by slices, gives the text of
-- those new lines.
pub apply_patch-IsPatch :
    (original path : Text) (hunks : List Hunk) {new : List Text}
    → IsPatch 0 hunks (split_keepends original) new
    → apply_patch original (record { path = path; hunks = hunks } ∷ []) ≡ concat new
unfolding apply_patch apply_files
apply_patch-IsPatch original path hunks p = ap concat (apply_hunks-behind [] refl p)
