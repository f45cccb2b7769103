-- ===== src/Opening.antt =====
-- open_patch_pr, _commit_patch and _build_pr_body of src/integrations/github_client.py. The calls of
-- PyGithub are the fields of `Hosting`, over a state `W` of the hosted repository, and unidiff's parser
-- is an argument.
pub mod Committed
pub mod Kept
pub mod Numerals
mod Examples
use sentinai_project.Common.{
  ℕ, zero, suc, ◌+◌, ◌-◌, ◌*◌, ◌/◌, ◌%◌, Option, none, some, Bool, true, false, List, [], ◌∷◌, ◌++◌,
  ◌||◌, ◌==◌, if◌then◌else◌, take, drop, Text, codes, text_eq, starts_with, join, Result, ok, err,
}
use sentinai_project.Remediation.{PrCall, Opened}
use sentinai_project.Diff.{PatchedFile, apply_patch}

-- What a call raises: a GithubException with its status, or another exception.
pub data CallError : Type 0 where
  github : ℕ → CallError
  other : Text → CallError

pub record Hosting (W : Type 0) : Type 0 where
  pub default_branch : W → Result CallError Text
  -- the branch: the sha of its commit
  pub get_branch : Text → W → Result CallError Text
  -- ref, sha: what is raised, and the repository after the call
  pub create_git_ref : Text → Text → W → Option CallError × W
  -- path, ref: the decoded content and the sha
  pub get_contents : Text → Text → W → Result CallError (Text × Text)
  -- path, message, content, sha, branch
  pub update_file : Text → Text → Text → Text → Text → W → Option CallError × W
  -- title, body, head, base: html_url and number
  pub create_pull : Text → Text → Text → Text → W → Result CallError (Text × ℕ) × W

-- The digits of a number; one step for each of them is at most `n + 1`.
unfoldable decimal_digits : ℕ → ℕ → Text → Text
decimal_digits zero n digits = digits
decimal_digits (suc fuel) n digits =
    let more = decimal_digits fuel (n / 10) ((48 + n % 10) ∷ digits) in
    if n / 10 == 0 then (48 + n % 10) ∷ digits else more

unfoldable pub decimal : ℕ → Text
unfolding decimal_digits
decimal n = decimal_digits (n + 1) n []

-- `text * n`
unfoldable repeated : Text → ℕ → Text
repeated text zero = []
repeated text (suc n) = text ++ repeated text n

-- `percent` is what int(confidence * 100) gives in floats for a confidence in ten-thousandths.
unfoldable pub build_pr_body : (ℕ → ℕ) → Text → PrCall → Text
unfolding repeated
build_pr_body percent timestamp call =
    let confidence_pct = percent call.confidence in
    let bar_filled = confidence_pct / 10 in
    let bar =
      codes "["
      ++ (repeated (codes "#") bar_filled
          ++ (repeated (codes "-") (10 - bar_filled) ++ codes "]")) in
    join (codes "\n") (
      codes "## SentinAI -- Auto-Patch Proposal"
      ∷ []
      ∷ codes "| Field | Value |"
      ∷ codes "|---|---|"
      ∷ (codes "| Incident ID | `" ++ (codes call.incident_id ++ codes "` |"))
      ∷ (codes "| Detected | " ++ (timestamp ++ codes " |"))
      ∷ (codes "| Trigger | `" ++ (take 120 call.trigger_line ++ codes "` |"))
      ∷ (codes "| Confidence | " ++ (bar ++ (codes " " ++ (decimal confidence_pct ++ codes "% |"))))
      ∷ []
      ∷ codes "---"
      ∷ []
      ∷ codes "### Summary"
      ∷ []
      ∷ call.summary
      ∷ []
      ∷ codes "---"
      ∷ []
      ∷ codes "### Proposed Patch"
      ∷ []
      ∷ codes "```python"
      ∷ call.proposed_patch
      ∷ codes "```"
      ∷ []
      ∷ codes "---"
      ∷ []
      ∷ codes "### Test Guidance"
      ∷ []
      ∷ call.test_guidance
      ∷ []
      ∷ codes "---"
      ∷ []
      ∷ codes "> This PR was opened automatically by SentinAI."
      ∷ codes "> Review the patch, apply manually if appropriate, then merge or close."
      ∷ codes "> Never merge without human review."
      ∷ [])
    ++ codes "\n"

abbrev pub short_id : PrCall → Text
short_id call = take 8 (codes call.incident_id)

abbrev pub branch_of : PrCall → Text
branch_of call = codes "sentinai/fix-" ++ short_id call

abbrev pub message_of : PrCall → Text
message_of call = codes "[SentinAI] auto-patch for incident " ++ short_id call

-- The path in a diff's header, without `a/` or `b/`.
abbrev pub stripped : Text → Text
stripped path =
    if starts_with (codes "a/") path || starts_with (codes "b/") path then drop 2 path else path

-- What the first try block leaves: it goes on, with the default branch if that was read, it stops, or
-- an exception leaves it.
pub data Begun : Type 0 where
  goes_on : Option Text → Begun
  stops : Begun
  raises : Text → Begun

-- _commit_patch gives patch_file and before_sha, or none; or an exception leaves it.
abbrev pub Meta : Type 0
Meta = Result Text (Option (Text × Text))

abbrev pub Reply : Type 0
Reply = Result Text (Option Opened)

abbrev pub meta_path : Option (Text × Text) → Option Text
meta_path none = none
meta_path (some (path, sha)) = some path

abbrev pub meta_sha : Option (Text × Text) → Option Text
meta_sha none = none
meta_sha (some (path, sha)) = some sha

module _ {W : Type 0} where
  unfoldable pub after_update : Text → Text → Option CallError × W → Meta × W
  after_update path sha (none, w) = (ok (some (path, sha)), w)
  after_update path sha (some (github _), w) = (ok none, w)
  after_update path sha (some (other exc), w) = (err exc, w)

  -- Status 422 is taken for a branch that is there already.
  unfoldable pub on_error : Option Text → W → CallError → Begun × W
  on_error base w (github status) = if status == 422 then (goes_on base, w) else (stops, w)
  on_error base w (other exc) = (raises exc, w)

  unfoldable pub after_ref : Text → Option CallError × W → Begun × W
  unfolding on_error
  after_ref base (none, w) = (goes_on (some base), w)
  after_ref base (some e, w) = on_error (some base) w e

  unfoldable pub after_pull :
      PrCall → Option (Text × Text) → Result CallError (Text × ℕ) × W → Reply × W
  after_pull call meta (err (github _), w) = (ok none, w)
  after_pull call meta (err (other exc), w) = (err exc, w)
  after_pull call meta (ok (link, number), w) = (
    ok (
        some (record {
          pr_url = link;
          pr_number = number;
          branch_name = branch_of call;
          patch_file = meta_path meta;
          before_sha = meta_sha meta;
        })),
    w,
  )

module _ {W : Type 0} (hub : Hosting W) (parse : Text → Result Text (List PatchedFile))
    (percent : ℕ → ℕ) (timestamp : Text) where
  unfoldable pub commit_fetched :
      PrCall → List PatchedFile → Text → W → Result CallError (Text × Text) → Meta × W
  unfolding after_update
  commit_fetched call patch_set path w (err (github _)) = (ok none, w)
  commit_fetched call patch_set path w (err (other exc)) = (err exc, w)
  commit_fetched call patch_set path w (ok (original, sha)) =
      let patched = apply_patch original patch_set in
      if text_eq patched original
      then (ok none, w)
      else after_update path sha
          (hub.update_file path (message_of call) patched sha (branch_of call) w)

  -- A diff of one file.
  unfoldable pub commit_parsed : PrCall → W → Result Text (List PatchedFile) → Meta × W
  unfolding commit_fetched
  commit_parsed call w (err _) = (ok none, w)
  commit_parsed call w (ok []) = (ok none, w)
  commit_parsed call w (ok (f ∷ g ∷ fs)) = (ok none, w)
  commit_parsed call w (ok (f ∷ [])) =
      commit_fetched call (f ∷ []) (stripped f.path) w
        (hub.get_contents (stripped f.path) (branch_of call) w)

  unfoldable pub commit_text : PrCall → W → Text → Meta × W
  unfolding commit_parsed
  commit_text call w [] = (ok none, w)
  commit_text call w (c ∷ patch) = commit_parsed call w (parse (c ∷ patch))

  unfoldable pub commit_patch : PrCall → W → Meta × W
  unfolding commit_text
  commit_patch call w = commit_text call w call.proposed_patch

  unfoldable pub make_ref : PrCall → Text → W → Result CallError Text → Begun × W
  unfolding after_ref
  make_ref call base w (err e) = on_error (some base) w e
  make_ref call base w (ok sha) =
      after_ref base (hub.create_git_ref (codes "refs/heads/" ++ branch_of call) sha w)

  unfoldable pub begin_branch : PrCall → W → Result CallError Text → Begun × W
  unfolding make_ref
  begin_branch call w (err e) = on_error none w e
  begin_branch call w (ok base) = make_ref call base w (hub.get_branch base w)

  -- Without a default branch the name is unbound, and Python raises.
  unfoldable pub open_pull : PrCall → Option Text → Meta × W → Reply × W
  unfolding after_pull
  open_pull call base (err exc, w) = (err exc, w)
  open_pull call none (ok meta, w) = (err (codes "UnboundLocalError: default_branch"), w)
  open_pull call (some base) (ok meta, w) = after_pull call meta (
      hub.create_pull
        (codes "[SentinAI] Incident " ++ (short_id call ++ codes " -- auto-patch proposal"))
        (build_pr_body percent timestamp call) (branch_of call) base w)

  unfoldable pub open_begun : PrCall → Begun × W → Reply × W
  unfolding open_pull commit_patch
  open_begun call (stops, w) = (ok none, w)
  open_begun call (raises exc, w) = (err exc, w)
  open_begun call (goes_on base, w) = open_pull call base (commit_patch call w)

  unfoldable pub open_patch_pr : PrCall → W → Reply × W
  unfolding open_begun begin_branch
  open_patch_pr call w = open_begun call (begin_branch call w (hub.default_branch w))
