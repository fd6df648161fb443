-- ===== src/Git/Remote/Safety.antt =====
-- worker/git_gogit.go: which credentials a remote sees.
use remote_hands.Shared.{◌≡◌, refl, ◌++◌, Text, codes, has_prefix}
use remote_hands.Git.{GoGit}
use remote_hands.Git.Remote.{Credentials, select_git_auth}

module _ (git : GoGit) where
  -- A URL of SSH, in either spelling, is given the SSH credentials only, and one of HTTP, with or
  -- without TLS, the HTTPS credentials only.
  pub select_git_auth_lem :
      (c : Credentials git) (rest : Text)
      → (select_git_auth git c (codes "git@" ++ rest) ≡ c.ssh)
        × (select_git_auth git c (codes "ssh://" ++ rest) ≡ c.ssh)
        × (select_git_auth git c (codes "https://" ++ rest) ≡ c.https)
        × (select_git_auth git c (codes "http://" ++ rest) ≡ c.https)
  unfolding select_git_auth has_prefix
  select_git_auth_lem c rest = (refl, refl, refl, refl)
