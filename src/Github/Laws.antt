-- ===== src/Github/Laws.antt =====
-- What a repository that checks the sha of an update makes of `revert_patch`.
use sentinai_project.Common.{String, Option, none, some, ◌≡◌, refl}
use sentinai_project.Github.{Repository, ChecksSha, put_back, revert_patch}

module _ {W : Type 0} (repo : Repository W) (c : ChecksSha repo) where
  put_back-some :
      (path sha : String) (w : W) (branch original : Option String) {commit : String}
      → (put_back repo path (some sha) w branch original).0 ≡ some commit
      → (b : String) × (branch ≡ some b) × (repo.get_contents path b w ≡ some sha)
  unfolding put_back
  put_back-some path sha w (some b) (some o) h = (b, refl, c.checks path o sha b w h)
  put_back-some path sha w none o h = cc
  put_back-some path sha w (some b) none h = cc

  put_back-none :
      (path : String) (sha : Option String) (w : W) (branch original : Option String)
      → (put_back repo path sha w branch original).0 ≡ none
      → (put_back repo path sha w branch original).1 ≡ w
  unfolding put_back
  put_back-none path sha w (some b) (some o) h = c.unchanged path o sha b w h
  put_back-none path sha w none o h = refl
  put_back-none path sha w (some b) none h = refl

  -- A revert that commits found the file with the sha that it was given.
  pub revert_patch-some :
      (path before sha : String) (w : W) {commit : String}
      → (revert_patch repo path before (some sha) w).0 ≡ some commit
      → (b : String) × (repo.default_branch w ≡ some b) × (repo.get_contents path b w ≡ some sha)
  unfolding revert_patch
  revert_patch-some path before sha w h =
      put_back-some path sha w (repo.default_branch w) (repo.get_git_blob before w)
        (unfold put_back in h)

  -- A revert that does not commit leaves the repository as it is.
  pub revert_patch-none :
      (path before : String) (sha : Option String) (w : W)
      → (revert_patch repo path before sha w).0 ≡ none
      → (revert_patch repo path before sha w).1 ≡ w
  unfolding revert_patch
  revert_patch-none path before sha w h =
      put_back-none path sha w (repo.default_branch w) (repo.get_git_blob before w) h
