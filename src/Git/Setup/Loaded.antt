-- ===== src/Git/Setup/Loaded.antt =====
-- worker/git_gogit.go: which credentials the remotes of a new service see.
use remote_hands.Shared.{
  ◌≡◌, sym, ap, ◌∙◌, ℕ, Bool, true, false, ◌++◌, Text, codes, ok, Result-cases, inl, inr, arith,
}
use remote_hands.Git.{GoGit}
use remote_hands.Git.Remote.{select_git_auth}
use remote_hands.Git.Remote.Safety.{select_git_auth_lem}
use remote_hands.Git.Setup.{
  ServiceGitOptions, AuthMethods, GitService, new_service, load_ssh_key, load_https_token,
  new_service_with_git_auth,
}

module _ (git : GoGit) (methods : AuthMethods git.Auth) where
  new_service_with_git_auth_ok :
      (made : Bool) (self : ℕ) (home : Text) (opts : ServiceGitOptions)
      (svc : GitService git methods)
      → new_service_with_git_auth git methods made self home opts ≡ ok svc
      → (load_ssh_key git methods opts.ssh_key ≡ ok svc.credentials.ssh)
        × (load_https_token git methods opts.https_token ≡ svc.credentials.https)
        × (record { name = opts.author_name; email = opts.author_email } ≡ svc.author)
  unfolding new_service_with_git_auth new_service
  new_service_with_git_auth_ok false self home opts svc e = absurd (ground arith)
  new_service_with_git_auth_ok true self home opts svc e =
      elim (Result-cases (load_ssh_key git methods opts.ssh_key)) [
        | inr (x, l) ↦ absurd (ground arith)
        | inl (ssh, l) ↦ (ground arith, ground arith, ground arith)
      ]

  -- When a service could be made with git credentials from its options, every URL of SSH, in either
  -- spelling, is given the SSH key of the options, or nothing when they have none; every URL of
  -- HTTP, with or without TLS, their token or nothing; and the author of the service is theirs.
  pub new_service_with_git_auth-select_git_auth :
      (made : Bool) (self : ℕ) (home : Text) (opts : ServiceGitOptions)
      (svc : GitService git methods) (rest : Text)
      → new_service_with_git_auth git methods made self home opts ≡ ok svc
      → (load_ssh_key git methods opts.ssh_key
          ≡ ok (select_git_auth git svc.credentials (codes "git@" ++ rest)))
        × (load_ssh_key git methods opts.ssh_key
            ≡ ok (select_git_auth git svc.credentials (codes "ssh://" ++ rest)))
        × (load_https_token git methods opts.https_token
            ≡ select_git_auth git svc.credentials (codes "https://" ++ rest))
        × (load_https_token git methods opts.https_token
            ≡ select_git_auth git svc.credentials (codes "http://" ++ rest))
        × (record { name = opts.author_name; email = opts.author_email } ≡ svc.author)
  new_service_with_git_auth-select_git_auth made self home opts svc rest e =
      let loaded = new_service_with_git_auth_ok made self home opts svc e in
      let chosen = select_git_auth_lem git svc.credentials rest in
      (
        loaded.0 ∙ ap ok (sym chosen.0),
        loaded.0 ∙ ap ok (sym chosen.1),
        loaded.1 ∙ sym chosen.2,
        loaded.1 ∙ sym chosen.3,
        loaded.2,
      )
