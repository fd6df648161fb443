-- ===== src/Watch.antt =====
-- worker/watch.go: the event loop of watchFiles and mapFsnotifyEvent.
pub mod Events
pub mod Setup
use remote_hands.Shared.{
  ℕ, Bool, true, false, ◌&&◌, ◌||◌, not, List, [], ◌∷◌, ◌++◌, any, Option, none, some, Text, codes,
  is_empty, if◌then◌else◌,
}
use remote_hands.Path.Lexical.{rel}
use remote_hands.Path.{is_under_dir}

-- `fsnotify.Op`, as far as it is tested.
pub record Op : Type 0 where
  pub create : Bool
  pub write : Bool
  pub remove : Bool
  pub rename : Bool

-- `fsnotify.Event`
pub record Event : Type 0 where
  pub name : Text
  pub op : Op

-- FileEvent
pub record FileEvent : Type 0 where
  pub path : Text
  pub event_type : Text

-- mapFsnotifyEvent
unfoldable pub map_fsnotify_event : Op → Text
map_fsnotify_event op =
    if op.create
    then codes "created"
    else if op.write
    then codes "modified"
    else if op.remove
    then codes "deleted"
    else if op.rename
    then codes "deleted"
    else []

-- What the loop uses: the resolved home directory, the patterns, `doublestar.Match` without an
-- error, whether `os.Stat` finds a directory, and the stream's answer to an event.
pub record Watching : Type 0 where
  pub home : Text
  pub patterns : List Text
  pub glob_match : Text → Text → Bool
  pub is_directory : Text → Bool
  pub send : FileEvent → Bool

-- What a round leaves: the directories that the watcher was given, the event that was sent, and
-- whether the loop returns.
pub record Round : Type 0 where
  pub added : List Text
  pub sent : Option FileEvent
  pub returns : Bool

abbrev passed_over : List Text → Round
passed_over added = record { added = added; sent = none; returns = false }

-- The event whose path is known.
unfoldable pub report : Watching → List Text → Text → Text → Round
report w added path [] = passed_over added
report w added path (c ∷ kind) =
    let e : FileEvent = record { path = path; event_type = c ∷ kind } in
    if w.send e
    then record { added = added; sent = some e; returns = false }
    else record { added = added; sent = none; returns = true }

abbrev pub is_matched : Watching → Text → Bool
is_matched w path = any (λ p. w.glob_match p path) w.patterns

-- A new directory that no pattern matches is given to the watcher.
unfoldable pub watch_new : Watching → List Text → Event → Round
watch_new w added event =
    if event.op.create && w.is_directory event.name
    then passed_over (added ++ event.name ∷ [])
    else passed_over added

-- One round of the loop, on an event.
unfoldable pub watch_round : Watching → List Text → Event → Round
unfolding is_under_dir rel map_fsnotify_event report watch_new
watch_round w added event =
    if not (is_under_dir w.home event.name)
    then passed_over added
    else elim (rel w.home event.name) [
      | none ↦ passed_over added
      | some path ↦
          if is_matched w path
          then report w added path (map_fsnotify_event event.op)
          else watch_new w added event
    ]

abbrev pub sent_list : Option FileEvent → List FileEvent
sent_list none = []
sent_list (some e) = e ∷ []

-- The rounds for a list of events: the directories that the watcher has been given and the events sent.
unfoldable pub watch_loop : Watching → List Text → List Event → List Text × List FileEvent
unfolding watch_round
watch_loop w added [] = (added, [])
watch_loop w added (event ∷ events) =
    let r : Round = watch_round w added event in
    let rest = watch_loop w r.added events in
    if r.returns then (r.added, []) else (rest.0, sent_list r.sent ++ rest.1)
