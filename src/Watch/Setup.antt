-- ===== src/Watch/Setup.antt =====
-- worker/watch.go: watchFiles, with the checks and the directories that the event loop starts with.
pub mod Covered
use remote_hands.Shared.{
  Bool, true, false, not, List, [], ◌∷◌, ◌++◌, any, all, Option, none, some, Text, text_eq, Result,
  ok, err, Error, connect_error, invalid_argument, internal, is_empty, if◌then◌else◌, ◌>>=◌, ◌>>◌,
}
use remote_hands.Path.Lexical.{rel, dir}
use remote_hands.Watch.{Event, FileEvent, Watching, is_matched, watch_loop}

-- A path that `filepath.WalkDir` visits, and whether there was an error.
pub record Visited : Type 0 where
  pub path : Text
  pub is_dir : Bool
  pub failed : Bool

-- What the start uses: `doublestar.ValidatePattern`, the resolved home directory, whether a watcher
-- can be made, the walk from a directory, and whether the watcher takes a directory.
pub record Starting : Type 0 where
  pub valid_pattern : Text → Bool
  pub resolved_home : Option Text
  pub new_watcher : Bool
  pub walk : Text → Option (List Visited)
  pub can_watch : Text → Bool

abbrev pub holds : Text → List Text → Bool
holds d = any (λ t. text_eq t d)

-- `dirsToWatch[d] = struct{}{}`
unfoldable pub add_dir : Text → List Text → List Text
add_dir d dirs = if holds d dirs then dirs else d ∷ dirs

-- The walk's function. The directory of a matching file is watched.
unfoldable pub visit : Watching → Visited → List Text → List Text
unfolding add_dir
visit w v dirs =
    if v.failed then dirs else if v.is_dir then add_dir v.path dirs else elim (rel w.home v.path) [
      | none ↦ dirs
      | some path ↦ if is_matched w path then add_dir (dir v.path) dirs else dirs
    ]

unfoldable pub visit_all : Watching → List Visited → List Text → List Text
unfolding visit
visit_all w [] dirs = dirs
visit_all w (v ∷ vs) dirs = visit_all w vs (visit w v dirs)

-- `watcher.Add`; a directory that it refuses is passed over.
unfoldable pub watch_dirs : (Text → Bool) → List Text → List Text
watch_dirs can [] = []
watch_dirs can (d ∷ dirs) = let rest = watch_dirs can dirs in if can d then d ∷ rest else rest

-- `err` where a test fails.
abbrev pub demand : Bool → Error → Result Error (Unit {0})
demand c e = if c then ok tt else err e

abbrev pub needed {ℓ} : {A : Type ℓ} → Option A → Error → Result Error A
needed none e = err e
needed (some a) e = ok a

-- watchFiles on a list of events; `w` gives all but the home directory.
unfoldable pub watch_files :
    Starting → Watching → List Event → Result Error (List Text × List FileEvent)
unfolding visit_all watch_dirs watch_loop
watch_files start w events = do
  demand (not (is_empty w.patterns))
      (connect_error invalid_argument "at least one pattern is required")
  demand (all start.valid_pattern w.patterns)
      (connect_error invalid_argument "invalid glob pattern: %s")
  home ← needed start.resolved_home (connect_error internal "failed to resolve home directory: %w")
  demand start.new_watcher (connect_error internal "failed to create watcher: %w")
  visits ← needed (start.walk home) (connect_error internal "failed to walk directory: %w")
  ok (
      watch_loop (record w { home = home })
        (watch_dirs start.can_watch (visit_all (record w { home = home }) visits (home ∷ [])))
        events)
