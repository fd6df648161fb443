-- ===== src/Git/Remote.antt =====
-- worker/git_gogit.go: selectGitAuth, gitClone and gitPush.
pub mod Safety
use remote_hands.Shared.{
  ◌≡◌, refl, ℕ, zero, Bool, true, false, not, ◌||◌, List, [], ◌∷◌, ◌++◌, Text, codes, ℤ, pos,
  negsuc, is_positive, to_ℕ, Option, none, some, Result, ok, err, Error, path_traversal,
  connect_error, invalid_argument, permission_denied, internal, failed_precondition, if◌then◌else◌,
  is_empty, has_prefix,
}
use remote_hands.Path.Lexical.{join_path}
use remote_hands.Git.{
  GoGit, CloneOptions, PushOptions, PushResult, pushed, up_to_date, push_failed, repo_path_error,
}

module _ (git : GoGit) where
  -- The credentials of a Service.
  pub record Credentials : Type 0 where
    pub ssh : Option git.Auth
    pub https : Option git.Auth

  -- selectGitAuth
  unfoldable pub select_git_auth : Credentials → Text → Option git.Auth
  unfolding has_prefix
  select_git_auth c repo_url =
      if has_prefix repo_url (codes "git@") || has_prefix repo_url (codes "ssh://")
      then c.ssh
      else if has_prefix repo_url (codes "https://") || has_prefix repo_url (codes "http://")
      then c.https
      else none

  -- The depth that go-git is given; 0 is a full clone.
  unfoldable pub clone_depth : ℤ → ℕ
  clone_depth (negsuc zero) = 0
  clone_depth depth = if is_positive depth then to_ℕ depth else 1

  -- The path that gitClone clones into: a path traversal is refused, any other error of
  -- `ValidatePath` is passed over.
  unfoldable pub clone_path : (Text → Result Error Text) → Text → Text → Result Error Text
  unfolding join_path
  clone_path validate home local_path = elim (validate local_path) [
    | ok abs_path ↦ ok abs_path
    | err path_traversal ↦ err (connect_error permission_denied "path traversal attempt")
    | err _ ↦ ok (join_path home local_path)
  ]

  unfoldable pub clone_options : Credentials → Text → Text → ℤ → CloneOptions git.Auth
  unfolding select_git_auth clone_depth
  clone_options c repo_url branch depth = record {
    url = repo_url;
    auth = select_git_auth c repo_url;
    depth = clone_depth depth;
    branch = if is_empty branch then none else some branch;
    single_branch = not (is_empty branch);
  }

  -- The error of a clone: of HEAD behind it, or its own.
  unfoldable pub clone_result : Result Bool Text → Result Error Text
  clone_result (ok hash) = ok hash
  clone_result (err true) = err (connect_error internal "get HEAD after clone: %w")
  clone_result (err false) = err (connect_error internal "git clone: %w")

  -- gitClone. `validate` is `ValidatePath` on the service's home directory.
  unfoldable pub git_clone :
      (Text → Result Error Text)
      → Text
      → Credentials
      → Text
      → Text
      → Text
      → ℤ
      → git.State
      → Result Error Text × git.State
  unfolding clone_path clone_options clone_result
  git_clone validate home c repo_url local_path branch depth s =
      if is_empty repo_url
      then (err (connect_error invalid_argument "repo_url is required"), s)
      else elim (clone_path validate home local_path) [
        | err e ↦ (err e, s)
        | ok abs_path ↦
            let cloned = git.clone s abs_path (clone_options c repo_url branch depth) in
            (clone_result cloned.0, cloned.1)
      ]

  unfoldable pub first_auth : Credentials → List Text → Option git.Auth
  unfolding select_git_auth
  first_auth c [] = none
  first_auth c (url ∷ _) = select_git_auth c url

  -- The reference specification of a branch; `+` forces.
  unfoldable pub ref_specs : Text → Bool → List Text
  ref_specs [] force = []
  ref_specs (b ∷ branch) force =
      let spec : Text =
        codes "refs/heads/" ++ ((b ∷ branch) ++ (codes ":refs/heads/" ++ (b ∷ branch))) in
      (if force then b'+' ∷ spec else spec) ∷ []

  abbrev pub remote_or_origin : Text → Text
  remote_or_origin remote_name = if is_empty remote_name then codes "origin" else remote_name

  abbrev pub push_result : PushResult → Result Error (Unit {0})
  push_result push_failed = err (connect_error internal "git push: %w")
  push_result _ = ok tt

  unfoldable pub push_options : Credentials → Text → List Text → Text → Bool → PushOptions git.Auth
  unfolding first_auth ref_specs
  push_options c remote_name urls branch force = record {
    remote_name = remote_or_origin remote_name;
    auth = first_auth c urls;
    force = force;
    ref_specs = ref_specs branch force;
  }

  -- gitPush
  unfoldable pub git_push :
      (Text → Result Error Text)
      → Credentials
      → Text
      → Text
      → Text
      → Bool
      → git.State
      → Result Error (Unit {0}) × git.State
  unfolding push_options
  git_push validate c repo_path remote_name branch force s = elim (validate repo_path) [
    | err e ↦ (err (repo_path_error e), s)
    | ok abs_path ↦ elim (git.plain_open s abs_path) [
      | err _ ↦ (err (connect_error failed_precondition "open repository: %w"), s)
      | ok repo ↦ elim (git.remote_urls s repo (remote_or_origin remote_name)) [
        | none ↦ (err (connect_error failed_precondition "get remote %q: %w"), s)
        | some urls ↦
            let done = git.push s repo (push_options c remote_name urls branch force) in
            (push_result done.0, done.1)
      ]
    ]
  ]
