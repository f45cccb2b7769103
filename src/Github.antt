-- ===== src/Github.antt =====
-- GitHubClient of src/integrations/github_client.py: the calls that the rollback ledger makes.
-- PyGithub's `Repository` is a third-party object. Its calls are the fields of `Repository`, over
-- an abstract state `W` of the hosted repository; `none` stands for a raised GithubException.
pub mod Laws
use sentinai_project.Common.{
  ℕ, String, Option, none, some, Bool, true, false, str_eq, if◌then◌else◌, ◌≡◌,
}

pub record Pull : Type 0 where
  pub merged : Bool
  pub merge_commit_sha : Option String

pub record Repository (W : Type 0) : Type 0 where
  pub default_branch : W → Option String
  pub get_pull : ℕ → W → Option Pull
  -- path, ref: the blob sha of the file
  pub get_contents : String → String → W → Option String
  -- blob sha: the decoded content
  pub get_git_blob : String → W → Option String
  -- path, content, expected blob sha, branch: the commit sha, and the repository after the call
  pub update_file : String → String → Option String → String → W → Option String × W

module _ {W : Type 0} (repo : Repository W) where
  merge_info : Option Pull → Option (Option String)
  merge_info none = none
  merge_info (some pr) = if pr.merged then some pr.merge_commit_sha else none

  -- The merge commit of a merged PR; `none` if it is not merged or cannot be fetched.
  unfoldable pub check_pr_merged : ℕ → W → Option (Option String)
  unfolding merge_info
  check_pr_merged pr_number w = merge_info (repo.get_pull pr_number w)

  sha_on_default : String → W → Option String → Option String
  sha_on_default patch_file w none = none
  sha_on_default patch_file w (some branch) = repo.get_contents patch_file branch w

  -- `ref or default_branch`: the default branch is read only without a ref, or with an empty one.
  unfoldable pub get_current_file_sha : String → Option String → W → Option String
  unfolding sha_on_default
  get_current_file_sha patch_file none w = sha_on_default patch_file w (repo.default_branch w)
  get_current_file_sha patch_file (some ref) w =
      if str_eq ref ""
      then sha_on_default patch_file w (repo.default_branch w)
      else repo.get_contents patch_file ref w

  pub put_back : String → Option String → W → Option String → Option String → Option String × W
  put_back patch_file current_sha w (some branch) (some original) =
      repo.update_file patch_file original current_sha branch w
  put_back patch_file current_sha w _ _ = (none, w)

  -- Commit the content of `before_sha` on top of `current_sha`, on the default branch. The commit
  -- sha, or `none` if a call failed.
  unfoldable pub revert_patch : String → String → Option String → W → Option String × W
  unfolding put_back
  revert_patch patch_file before_sha current_sha w =
      put_back patch_file current_sha w (repo.default_branch w) (repo.get_git_blob before_sha w)

  -- GitHub's documented check of an update: it is refused, and changes nothing, unless the sha
  -- sent with it is the blob sha of the file on that branch.
  pub record ChecksSha : Type 0 where
    pub checks :
        (path content sha branch : String) (w : W) {c : String}
        → (repo.update_file path content (some sha) branch w).0 ≡ some c
        → repo.get_contents path branch w ≡ some sha
    pub unchanged :
        (path content : String) (sha : Option String) (branch : String) (w : W)
        → (repo.update_file path content sha branch w).0 ≡ none
        → (repo.update_file path content sha branch w).1 ≡ w
