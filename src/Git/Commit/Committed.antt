-- ===== src/Git/Commit/Committed.antt =====
-- worker/git_commit.go: what a commit that succeeds rests on.
use remote_hands.Shared.{
  ◌≡◌, ◌≢◌, ◌⊎◌, inl, inr, true, false, List, [], ◌∷◌, Text, Option, none, some, any, All, Result,
  ok, err, Error, path_traversal, connect_error, plain, Result-cases, Option-cases, Bool-cases,
  arith, is_empty,
}
use remote_hands.Git.{FileStatus, GoGit, User}
use remote_hands.Git.Commit.{
  complete, or_else, configured_author, resolve_author, stage_files, is_staged, commit_staged,
  stage_and_commit, git_commit,
}

-- Both fields are set.
abbrev pub Complete : User → Type 0
Complete u = (u.name ≢ []) × (u.email ≢ [])

is_set : (t : Text) → is_empty t ≡ false → t ≢ []
is_set [] h e = cc
is_set (c ∷ t) h e = cc

complete_ok : (o : Option User) (u : User) → complete o ≡ some u → Complete u
unfolding complete
complete_ok none u e = absurd (cc)
complete_ok (some v) u e = elim (Bool-cases (is_empty v.name)) [
  | inl h ↦ absurd (ground (arith, h, e))
  | inr h ↦ elim (Bool-cases (is_empty v.email)) [
    | inl k ↦ absurd (ground (arith, h, k, e))
    | inr k ↦
        let same : v ≡ u = ground (arith, h, k, e) in
        rw (← same) (is_set v.name h, is_set v.email k)
  ]
]

or_else-cases {ℓ} :
    {A : Type ℓ} (a b : Option A) (u : A) → or_else a b ≡ some u → (a ≡ some u) ⊎ (b ≡ some u)
unfolding or_else
or_else-cases none b u e = inr e
or_else-cases (some x) b u e = inl e

module _ (git : GoGit) where
  configured_author-Complete :
      (s : git.State) (repo_path : Text) (u : User)
      → configured_author git s repo_path ≡ some u
      → Complete u
  unfolding configured_author
  configured_author-Complete s [] u e = absurd (cc)
  configured_author-Complete s (c ∷ p) u e = elim (Result-cases (git.plain_open s (c ∷ p))) [
    | inr (x, v) ↦ absurd (ground arith)
    | inl (repo, v) ↦
        elim (or_else-cases (complete (git.local_config s repo))
          (complete (git.global_config s repo)) u (ground arith)) [
            | inl l ↦ complete_ok (git.local_config s repo) u l
            | inr g ↦ complete_ok (git.global_config s repo) u g
          ]
  ]

  found_author :
      (s : git.State) (init : User) (repo_path : Text) (u : User)
      → or_else (complete (some init)) (configured_author git s repo_path) ≡ some u
      → Complete u
  found_author s init repo_path u e =
      elim (or_else-cases (complete (some init)) (configured_author git s repo_path) u e) [
        | inl i ↦ complete_ok (some init) u i
        | inr f ↦ configured_author-Complete s repo_path u f
      ]

  -- Whatever author is resolved, from the request, the service or the configuration, has a name and
  -- an email.
  pub resolve_author-Complete :
      (s : git.State) (init : User) (repo_path : Text) (given u : User)
      → resolve_author git s init repo_path given ≡ ok u
      → Complete u
  unfolding resolve_author
  resolve_author-Complete s init repo_path given u e = elim (Bool-cases (is_empty given.name)) [
    | inr h ↦ elim (Bool-cases (is_empty given.email)) [
      | inl k ↦ absurd (ground arith)
      | inr k ↦
          let same : given ≡ u = ground arith in
          rw (← same) (is_set given.name h, is_set given.email k)
    ]
    | inl h ↦ elim (Bool-cases (is_empty given.email)) [
      | inr k ↦ absurd (ground arith)
      | inl k ↦
          elim (Option-cases (or_else (complete (some init)) (configured_author git s repo_path))) [
            | inl o ↦ absurd (ground arith)
            | inr (v, o) ↦ found_author s init repo_path u (ground arith)
          ]
    ]
  ]

  stage_files_ok :
      (validate : Text → Result Error Text) (repo : git.Repo) (files : List Text) (s : git.State)
      → (stage_files git validate repo files s).0 ≡ ok tt
      → All (λ f. validate f ≢ err path_traversal) files
  unfolding stage_files
  stage_files_ok validate repo [] s e = tt
  stage_files_ok validate repo (f ∷ files) s e =
      let later : (stage_files git validate repo files (git.add s repo f).1).0 ≡ ok tt
          → All (λ f. validate f ≢ err path_traversal) files =
        stage_files_ok validate repo files (git.add s repo f).1 in
      elim (Bool-cases (git.add s repo f).0) [
        | inl a ↦ elim (Result-cases (validate f)) [
          | inl (p, v) ↦ ((λ t. ground arith), later (ground arith))
          | inr (path_traversal, v) ↦ absurd (ground arith)
          | inr (connect_error k m, v) ↦ ((λ t. ground arith), later (ground arith))
          | inr (plain m, v) ↦ ((λ t. ground arith), later (ground arith))
        ]
        | inr a ↦ elim (Result-cases (validate f)) [
          | inl (p, v) ↦ absurd (ground arith)
          | inr (path_traversal, v) ↦ absurd (ground arith)
          | inr (connect_error k m, v) ↦ absurd (ground arith)
          | inr (plain m, v) ↦ absurd (ground arith)
        ]
      ]

  -- The second half of a commit that succeeds.
  commit_staged_ok :
      (init : User) (repo : git.Repo) (abs_path message : Text) (given : User) (s s1 : git.State)
      (hash : Text)
      → commit_staged git init repo abs_path message given s ≡ (ok hash, s1)
      → (entries : List (Text × FileStatus)) × (author : User) × (git.status s repo ≡ some entries)
        × (any (is_staged git) entries ≡ true)
        × (resolve_author git s init abs_path given ≡ ok author)
        × ((git.commit s repo message author).0 ≡ some hash)
        × ((git.commit s repo message author).1 ≡ s1)
  unfolding commit_staged
  commit_staged_ok init repo abs_path message given s s1 hash e =
      elim (Option-cases (git.status s repo)) [
        | inl st ↦ absurd (ground arith)
        | inr (entries, st) ↦ elim (Bool-cases (any (is_staged git) entries)) [
          | inr n ↦ absurd (ground arith)
          | inl n ↦ elim (Result-cases (resolve_author git s init abs_path given)) [
            | inr (x, r) ↦ absurd (ground arith)
            | inl (author, r) ↦ elim (Option-cases (git.commit s repo message author).0) [
              | inl c ↦ absurd (ground arith)
              | inr (h, c) ↦ (entries, author, st, n, r, ground arith, ground arith)
            ]
          ]
        ]
      ]

  -- What a commit with this hash and message rests on.
  pub record Committed (validate : Text → Result Error Text) (init : User)
      (repo_path message : Text) (files : List Text) (given : User) (s s1 : git.State) (hash : Text)
      : Type 0 where
    pub abs_path : Text
    pub repo : git.Repo
    pub entries : List (Text × FileStatus)
    pub author : User
    pub valid : validate repo_path ≡ ok abs_path
    pub opened : git.plain_open s abs_path ≡ ok repo
    pub no_traversal : All (λ f. validate f ≢ err path_traversal) files
    pub state : git.status (stage_files git validate repo files s).1 repo ≡ some entries
    pub has_staged : any (is_staged git) entries ≡ true
    pub resolved : Complete author
    pub made :
        (git.commit (stage_files git validate repo files s).1 repo message author).0 ≡ some hash
    pub left : (git.commit (stage_files git validate repo files s).1 repo message author).1 ≡ s1

  -- A commit that succeeds was made in the repository at the validated path, with no staged file
  -- refused as a path traversal, with a staged change in the status behind the staging, with an
  -- author that has a name and an email, and with a message.
  pub git_commit-Committed :
      (validate : Text → Result Error Text) (init : User) (repo_path message : Text)
      (files : List Text) (given : User) (s s1 : git.State) (hash : Text)
      → git_commit git validate init repo_path message files given s ≡ (ok hash, s1)
      → (message ≢ []) × Committed validate init repo_path message files given s s1 hash
  unfolding git_commit stage_and_commit commit_staged
  git_commit-Committed validate init repo_path [] files given s s1 hash e = absurd (cc)
  git_commit-Committed validate init repo_path (c ∷ m) files given s s1 hash e =
      elim (Result-cases (validate repo_path)) [
        | inr (x, v) ↦ absurd (ground arith)
        | inl (abs_path, v) ↦ elim (Result-cases (git.plain_open s abs_path)) [
          | inr (x, o) ↦ absurd (ground arith)
          | inl (repo, o) ↦ elim (Bool-cases (git.worktree_ok repo)) [
            | inr w ↦ absurd (ground arith)
            | inl w ↦ elim (Result-cases (stage_files git validate repo files s).0) [
              | inr (x, f) ↦ absurd (ground arith)
              | inl (u, f) ↦
                  let (entries, author, st, n, r, c, l) =
                    commit_staged_ok init repo abs_path (c ∷ m) given
                      (stage_files git validate repo files s).1 s1 hash (ground arith) in
                  (
                    (λ q. cc),
                    record {
                      abs_path = abs_path;
                      repo = repo;
                      entries = entries;
                      author = author;
                      valid = v;
                      opened = o;
                      no_traversal = stage_files_ok validate repo files s f;
                      state = st;
                      has_staged = n;
                      resolved = resolve_author-Complete _ init abs_path given author r;
                      made = c;
                      left = l;
                    },
                  )
            ]
          ]
        ]
      ]
