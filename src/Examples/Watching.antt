-- ===== src/Examples/Watching.antt =====
-- A watched home directory in which a directory is made.
use remote_hands.Shared.{◌≡◌, refl, true, false, [], ◌∷◌, some, codes, All, Text, ok, is_empty, all}
use remote_hands.Watch.Setup.{Visited, Starting, holds, watch_files}
use remote_hands.Watch.Setup.Covered.{watch_files_covers}
use remote_hands.Watch.{Event, FileEvent, Watching}
use remote_hands.Watch.Events.{Wanted}

abbrev pub all_files : Watching
all_files = record {
  home = codes "/data/u";
  patterns = codes "**" ∷ [];
  glob_match = λ pattern path. true;
  is_directory = λ path. true;
  send = λ e. true;
}

abbrev made : Event
made = record {
  name = codes "/data/u/new";
  op = record { create = true; write = false; remove = false; rename = false };
}

abbrev seen : Text → Visited
seen path = record { path = path; is_dir = true; failed = false }

abbrev pub start : Starting
start = record {
  valid_pattern = λ p. true;
  resolved_home = some (codes "/data/u");
  new_watcher = true;
  walk = λ from. some (seen from ∷ seen (codes "/data/u/docs") ∷ []);
  can_watch = λ d. true;
}

abbrev report_new : FileEvent
report_new = record { path = codes "new"; event_type = codes "created" }

ran :
    watch_files start all_files (made ∷ [])
    ≡ ok (codes "/data/u/docs" ∷ codes "/data/u" ∷ [], report_new ∷ [])
unfolding watch_files
ran = refl

watch_files_covers_example :
    (holds (codes "/data/u/docs") (codes "/data/u/docs" ∷ codes "/data/u" ∷ []) ≡ true)
    × All (Wanted all_files) (report_new ∷ [])
    × (is_empty all_files.patterns ≡ false)
    × (all start.valid_pattern all_files.patterns ≡ true)
watch_files_covers_example =
    watch_files_covers start all_files (made ∷ []) (codes "/data/u/docs" ∷ codes "/data/u" ∷ [])
      (report_new ∷ []) (codes "/data/u") (seen (codes "/data/u") ∷ []) []
      (seen (codes "/data/u/docs")) ran refl refl refl refl refl
