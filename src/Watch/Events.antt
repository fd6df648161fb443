-- ===== src/Watch/Events.antt =====
-- worker/watch.go: what the stream of file events holds, and which new directories are watched.
use remote_hands.Shared.{
  ◌≡◌, ◌≢◌, refl, true, List, [], ◌∷◌, ◌&&◌, some, Text, All, All-append, Bool-cases, Option-cases,
  inl, inr,
}
use remote_hands.Path.Lexical.{rel}
use remote_hands.Path.{is_under_dir}
use remote_hands.Watch.{
  Event, FileEvent, map_fsnotify_event, Watching, report, is_matched, watch_new, watch_round,
  watch_loop, sent_list,
}

-- An event that may be sent: a pattern matches its path, and it has a type.
abbrev pub Wanted : Watching → FileEvent → Type 0
Wanted w e = (is_matched w e.path ≡ true) × (e.event_type ≢ [])

report-Wanted :
    (w : Watching) (added : List Text) (path kind : Text)
    → is_matched w path ≡ true
    → All (Wanted w) (sent_list (report w added path kind).sent)
unfolding report
report-Wanted w added path [] m = tt
report-Wanted w added path (c ∷ kind) m =
    elim (Bool-cases (w.send (record { path = path; event_type = c ∷ kind }))) [
      | inl h ↦ rw h ((m, λ e. cc), tt)
      | inr h ↦ rw h tt
    ]

watch_new-Wanted :
    (w : Watching) (added : List Text) (event : Event)
    → All (Wanted w) (sent_list (watch_new w added event).sent)
unfolding watch_new
watch_new-Wanted w added event = elim (Bool-cases (event.op.create && w.is_directory event.name)) [
  | inl h ↦ rw h tt
  | inr h ↦ rw h tt
]

pub report-added :
    (w : Watching) (added : List Text) (path kind : Text) → (report w added path kind).added ≡ added
unfolding report
report-added w added path [] = refl
report-added w added path (c ∷ kind) =
    elim (Bool-cases (w.send (record { path = path; event_type = c ∷ kind }))) [
      | inl h ↦ rw h refl
      | inr h ↦ rw h refl
    ]

watch_round-Wanted :
    (w : Watching) (added : List Text) (event : Event)
    → All (Wanted w) (sent_list (watch_round w added event).sent)
unfolding watch_round watch_new
watch_round-Wanted w added event = elim (Bool-cases (is_under_dir w.home event.name)) [
  | inr u ↦ rw (u, watch_round) tt
  | inl u ↦ elim (Option-cases (rel w.home event.name)) [
    | inl r ↦ rw (u, watch_round, r) tt
    | inr (path, r) ↦ elim (Bool-cases (is_matched w path)) [
      | inl m ↦
          rw (u, watch_round, r, m) (report-Wanted w added path (map_fsnotify_event event.op) m)
      | inr m ↦ rw (u, watch_round, r, m) (watch_new-Wanted w added event)
    ]
  ]
]

-- Whatever happens in the file system, each event that is sent has a path that one of the patterns
-- matches, and a type.
pub watch_loop-Wanted :
    (w : Watching) (added : List Text) (events : List Event)
    → All (Wanted w) (watch_loop w added events).1
unfolding watch_loop
watch_loop-Wanted w added [] = tt
watch_loop-Wanted w added (event ∷ events) = elim (Bool-cases (watch_round w added event).returns) [
  | inl h ↦ rw h tt
  | inr h ↦ rw h (
      All-append (Wanted w) (sent_list (watch_round w added event).sent)
        (watch_loop w (watch_round w added event).added events).1 (watch_round-Wanted w added event)
        (watch_loop-Wanted w (watch_round w added event).added events))
]

-- No round on an event whose path a pattern matches adds to the watched directories, not even one
-- that reports a new directory.
pub watch_round-unwatched :
    (w : Watching) (added : List Text) (event : Event) (path : Text)
    → rel w.home event.name ≡ some path
    → is_matched w path ≡ true
    → (watch_round w added event).added ≡ added
unfolding watch_round report
watch_round-unwatched w added event path r m = elim (Bool-cases (is_under_dir w.home event.name)) [
  | inr u ↦ rw (u, watch_round) refl
  | inl u ↦ rw (u, watch_round, r, m) (report-added w added path (map_fsnotify_event event.op))
]
