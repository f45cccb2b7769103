-- ===== src/Opening/Examples.antt =====
-- A repository of one file, as it is on the default branch and on the branch of the incident.
use sentinai_project.Common.{
  ◌/◌, ◌≡◌, refl, some, none, List, [], ◌∷◌, Text, codes, text_eq, Result, ok, if◌then◌else◌,
}
use sentinai_project.Diff.{
  added, PatchedFile, apply_patch, apply_files, apply_hunks, apply_hunk, replace_slice, new_lines,
  split_keepends, keep_lines, concat,
}
use sentinai_project.Remediation.{PrCall, Opened}
use sentinai_project.Opening.{
  Hosting, open_patch_pr, open_begun, open_pull, begin_branch, make_ref, after_ref, after_pull,
  after_update, commit_patch, commit_text, commit_parsed, commit_fetched, decimal,
}
use sentinai_project.Opening.Committed.{IsCommitted, open_patch_pr-IsCommitted}
use sentinai_project.Opening.Kept.{open_patch_pr-keeps}

abbrev main : Text
main = codes "main"

-- The content on the default branch, and that on the other.
abbrev hub : Hosting (Text × Text)
hub = record {
  default_branch = λ _. ok main;
  get_branch = λ _ _. ok (codes "c0");
  create_git_ref = λ _ _ w. (none, (w.0, w.0));
  get_contents = λ path ref w. ok (if text_eq ref main then w.0 else w.1, codes "s1");
  update_file = λ path message content sha branch w.
      (none, if text_eq branch main then (content, w.1) else (w.0, content));
  create_pull = λ title body head base w. (ok (codes "https://x/1", 1), w);
}

abbrev file : PatchedFile
file = record {
  path = codes "a/t.py";
  hunks =
      record {
        source_start = 1;
        source_length = 0;
        lines = record { line_type = added; value = codes "y\n" } ∷ [];
      }
      ∷ [];
}

abbrev parse : Text → Result Text (List PatchedFile)
parse _ = ok (file ∷ [])

abbrev call : PrCall
call = record {
  incident_id = "0123456789";
  trigger_line = codes "boom";
  summary = codes "s";
  proposed_patch = codes "+y";
  test_guidance = [];
  confidence = 7350;
  patch_file = none;
}

abbrev start : Text × Text
start = (codes "x", [])

abbrev opened : Opened
opened = record {
  pr_url = codes "https://x/1";
  pr_number = 1;
  branch_name = codes "sentinai/fix-01234567";
  patch_file = some (codes "t.py");
  before_sha = some (codes "s1");
}

percent : decimal 73 ≡ codes "73"
unfolding decimal
percent = refl

open_patch_pr-IsCommitted_example :
    (sha : Text) × (some (codes "s1") ≡ some sha) × IsCommitted hub parse call (codes "t.py") sha
unfolding open_patch_pr open_begun open_pull begin_branch make_ref after_ref after_pull after_update
    commit_patch commit_text commit_parsed commit_fetched apply_patch apply_files apply_hunks
    apply_hunk replace_slice new_lines split_keepends keep_lines concat
open_patch_pr-IsCommitted_example =
    open_patch_pr-IsCommitted hub parse (λ n. n / 100) [] call start {o = opened}
      {path = codes "t.py"} refl refl

-- The file on the default branch stays.
open_patch_pr-keeps_example : (open_patch_pr hub parse (λ n. n / 100) [] call start).1.0 ≡ codes "x"
open_patch_pr-keeps_example =
    open_patch_pr-keeps hub parse (λ n. n / 100) [] call (λ w. w.0 ≡ codes "x") start
      (record {
        by_ref = λ sha w h. h;
        by_update = λ path message content sha w h. h;
        by_pull = λ title body base w h. h;
      })
      refl
