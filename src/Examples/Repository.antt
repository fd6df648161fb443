-- ===== src/Examples/Repository.antt =====
-- A repository with one staged file.
use remote_hands.Shared.{
  ◌≡◌, ◌≢◌, refl, true, [], ◌∷◌, ◌++◌, Text, codes, none, some, Result, ok, Error,
}
use remote_hands.Path.Lexical.{join_path}
use remote_hands.Git.{GoGit, User, unmodified, added, pushed}
use remote_hands.Git.Commit.{
  complete, or_else, configured_author, resolve_author, stage_files, is_staged, commit_staged,
  stage_and_commit, git_commit,
}
use remote_hands.Git.Commit.Committed.{Committed, git_commit-Committed}
use remote_hands.Git.Remote.{Credentials}
use remote_hands.Process.{new_process_manager}
use remote_hands.Git.Setup.{
  ServiceGitOptions, AuthMethods, GitService, new_service, load_ssh_key, load_https_token,
  new_service_with_git_auth,
}

-- The state is the path that was changed last.
abbrev one_staged : GoGit
one_staged = record {
  State = Text;
  Repo = Text;
  Auth = Text;
  plain_open = λ s p. ok p;
  worktree_ok = λ r. true;
  status = λ s r. some ((codes "a", record { staging = added; worktree = unmodified }) ∷ []);
  add = λ s r f. (true, f);
  commit = λ s r m u. (some (codes "c0ffee"), codes "HEAD");
  local_config = λ s r. none;
  global_config = λ s r. none;
  clone = λ s p o. (ok (codes "c0ffee"), p);
  remote_urls = λ s r n. none;
  push = λ s r o. (pushed, s);
}

abbrev ann : User
ann = record { name = codes "Ann"; email = codes "ann@example.org" }

abbrev nobody : User
nobody = record { name = []; email = [] }

abbrev any_path : Text → Result Error Text
any_path = λ p. ok p

run_author : resolve_author one_staged [] ann (codes "/r") nobody ≡ ok ann
unfolding resolve_author configured_author complete or_else
run_author = refl

run_commit :
    git_commit one_staged any_path ann (codes "/r") (codes "fix") (codes "a" ∷ []) nobody []
    ≡ (ok (codes "c0ffee"), codes "HEAD")
unfolding git_commit stage_and_commit stage_files commit_staged is_staged resolve_author
    configured_author complete or_else
run_commit = refl

git_commit-Committed_example :
    (codes "fix" ≢ [])
    × Committed one_staged any_path ann
        (codes "/r")
        (codes "fix")
        (codes "a" ∷ [])
        nobody
        []
        (codes "HEAD")
        (codes "c0ffee")
git_commit-Committed_example =
    git_commit-Committed one_staged any_path ann (codes "/r") (codes "fix") (codes "a" ∷ []) nobody
      [] (codes "HEAD") (codes "c0ffee") run_commit

abbrev keys : Credentials one_staged
keys = record { ssh = some (codes "key"); https = some (codes "token") }

-- A key that is not empty parses; the password and the callback are kept beside it.
abbrev methods : AuthMethods Text
methods = record {
  new_public_keys = λ user key password. ok (user ++ (key ++ password));
  ignore_host_key = λ auth. codes "any host, " ++ auth;
  basic_auth = λ user password. user ++ password;
}

abbrev deploy_options : ServiceGitOptions
deploy_options = record {
  ssh_key = codes "key";
  https_token = codes "token";
  author_name = codes "Ann";
  author_email = codes "ann@example.org";
}

abbrev deploy_service : GitService one_staged methods
deploy_service = record {
  process = new_process_manager (codes "/data/u") (codes "/data/u/.process-logs") 7;
  credentials = record {
    ssh = some (codes "any host, gitkey");
    https = some (codes "x-tokentoken");
  };
  author = ann;
}

run_setup :
    new_service_with_git_auth one_staged methods true 7 (codes "/data/u") deploy_options
    ≡ ok deploy_service
unfolding new_service_with_git_auth new_service load_ssh_key load_https_token join_path
run_setup = refl
